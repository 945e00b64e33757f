-- ===== src/Options/Untouched/Parts.antt =====
-- The setters and the handlers that leave the files alone.
use tclcurl_ng.Base.{ℕ, ℤ, String, List, Option, none, some, arith}
use tclcurl_ng.Api.{Tcl, Answers}
use tclcurl_ng.Api.Monad.{State}
use tclcurl_ng.Options.{OptionDef, setopt_number, set_char, set_blob}
use tclcurl_ng.Options.Untouched.{Untouched}
use tclcurl_ng.Options.Choices.Handlers.{
  choice, handle_http_auth, handle_proxy_type, handle_time_condition, handle_netrc,
  handle_http_version, handle_encoding,
}

module _ (ask : Answers) (def : OptionDef) (o : String) (s : State) where
  pub setopt_number-Untouched :
      (n : Option ℤ) (opt : String) → Untouched s (setopt_number ask n opt def o s).1
  unfolding setopt_number
  setopt_number-Untouched none opt = ground arith
  setopt_number-Untouched (some n) opt = ground arith

  pub set_char-Untouched : (opt : String) → Untouched s (set_char ask opt def o s).1
  unfolding set_char
  set_char-Untouched opt = ground arith

  pub set_blob-Untouched : (opt : String) → Untouched s (set_blob ask opt def o s).1
  unfolding set_blob
  set_blob-Untouched opt = ground arith

module _ (tcl : Tcl) (ask : Answers) (def : OptionDef) (o : String) (s : State) where
  pub choice-Untouched :
      (table : List String) (const : ℕ → String) (opt : String)
      → Untouched s (choice tcl ask table const opt def o s).1
  unfolding choice
  choice-Untouched table const opt = ground arith

  pub handle_http_auth-Untouched : Untouched s (handle_http_auth tcl ask def o s).1
  unfolding handle_http_auth
  handle_http_auth-Untouched = ground arith

  pub handle_proxy_type-Untouched : Untouched s (handle_proxy_type tcl ask def o s).1
  unfolding handle_proxy_type
  handle_proxy_type-Untouched = ground arith

  pub handle_time_condition-Untouched : Untouched s (handle_time_condition tcl ask def o s).1
  unfolding handle_time_condition
  handle_time_condition-Untouched = ground arith

  pub handle_netrc-Untouched : Untouched s (handle_netrc tcl ask def o s).1
  unfolding handle_netrc
  handle_netrc-Untouched = ground arith

  pub handle_http_version-Untouched : Untouched s (handle_http_version tcl ask def o s).1
  unfolding handle_http_version
  handle_http_version-Untouched = ground arith

  pub handle_encoding-Untouched : Untouched s (handle_encoding tcl ask def o s).1
  unfolding handle_encoding
  handle_encoding-Untouched = ground arith
