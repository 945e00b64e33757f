-- ===== src/Options/Sound/Parts.antt =====
-- The setters and the handlers that leave the files alone.
use tclcurl_ng.Base.{ℕ, ℤ, String, List, Option, none, some, arith}
use tclcurl_ng.Api.{Tcl, Answers}
use tclcurl_ng.Api.Monad.{State}
use tclcurl_ng.Options.{OptionDef, setopt_number, set_char, set_blob}
use tclcurl_ng.Options.Sound.{IsSound}
use tclcurl_ng.Options.Choices.Handlers.{
  choice, handle_http_auth, handle_proxy_type, handle_time_condition, handle_netrc,
  handle_http_version, handle_encoding,
}

module _ {fp : ℕ} (ask : Answers) (def : OptionDef) (o : String) (s : State)
    (v : IsSound fp ask s) where
  pub setopt_number-IsSound :
      (n : Option ℤ) (opt : String) → IsSound fp ask (setopt_number ask n opt def o s).1
  unfolding setopt_number
  setopt_number-IsSound none opt = ground arith
  setopt_number-IsSound (some n) opt = ground arith

  pub set_char-IsSound : (opt : String) → IsSound fp ask (set_char ask opt def o s).1
  unfolding set_char
  set_char-IsSound opt = ground arith

  pub set_blob-IsSound : (opt : String) → IsSound fp ask (set_blob ask opt def o s).1
  unfolding set_blob
  set_blob-IsSound opt = ground arith

module _ {fp : ℕ} (tcl : Tcl) (ask : Answers) (def : OptionDef) (o : String) (s : State)
    (v : IsSound fp ask s) where
  pub choice-IsSound :
      (table : List String) (const : ℕ → String) (opt : String)
      → IsSound fp ask (choice tcl ask table const opt def o s).1
  unfolding choice
  choice-IsSound table const opt = ground arith

  pub handle_http_auth-IsSound : IsSound fp ask (handle_http_auth tcl ask def o s).1
  unfolding handle_http_auth
  handle_http_auth-IsSound = ground arith

  pub handle_proxy_type-IsSound : IsSound fp ask (handle_proxy_type tcl ask def o s).1
  unfolding handle_proxy_type
  handle_proxy_type-IsSound = ground arith

  pub handle_time_condition-IsSound : IsSound fp ask (handle_time_condition tcl ask def o s).1
  unfolding handle_time_condition
  handle_time_condition-IsSound = ground arith

  pub handle_netrc-IsSound : IsSound fp ask (handle_netrc tcl ask def o s).1
  unfolding handle_netrc
  handle_netrc-IsSound = ground arith

  pub handle_http_version-IsSound : IsSound fp ask (handle_http_version tcl ask def o s).1
  unfolding handle_http_version
  handle_http_version-IsSound = ground arith

  pub handle_encoding-IsSound : IsSound fp ask (handle_encoding tcl ask def o s).1
  unfolding handle_encoding
  handle_encoding-IsSound = ground arith
