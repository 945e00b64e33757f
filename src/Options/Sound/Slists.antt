-- ===== src/Options/Sound/Slists.antt =====
-- The handlers of the options that hold a list of strings.
use tclcurl_ng.Base.{ℕ, String, arith}
use tclcurl_ng.Api.{Tcl, Answers}
use tclcurl_ng.Api.Monad.{State}
use tclcurl_ng.Options.{OptionDef}
use tclcurl_ng.Options.Sound.{IsSound}
use tclcurl_ng.Options.Slists.{
  handle_http_header_list, handle_quote_list, handle_post_quote_list, handle_prequote_list,
  handle_http200_aliases, handle_mail_rcpt, handle_resolve_list, handle_telnet_options,
}

module _ {fp : ℕ} (tcl : Tcl) (ask : Answers) (def : OptionDef) (o : String) (s : State)
    (v : IsSound fp ask s) where
  pub handle_http_header_list-IsSound : IsSound fp ask (handle_http_header_list tcl ask def o s).1
  unfolding handle_http_header_list
  handle_http_header_list-IsSound = ground arith

  pub handle_quote_list-IsSound : IsSound fp ask (handle_quote_list tcl ask def o s).1
  unfolding handle_quote_list
  handle_quote_list-IsSound = ground arith

  pub handle_post_quote_list-IsSound : IsSound fp ask (handle_post_quote_list tcl ask def o s).1
  unfolding handle_post_quote_list
  handle_post_quote_list-IsSound = ground arith

  pub handle_prequote_list-IsSound : IsSound fp ask (handle_prequote_list tcl ask def o s).1
  unfolding handle_prequote_list
  handle_prequote_list-IsSound = ground arith

  pub handle_http200_aliases-IsSound : IsSound fp ask (handle_http200_aliases tcl ask def o s).1
  unfolding handle_http200_aliases
  handle_http200_aliases-IsSound = ground arith

  pub handle_mail_rcpt-IsSound : IsSound fp ask (handle_mail_rcpt tcl ask def o s).1
  unfolding handle_mail_rcpt
  handle_mail_rcpt-IsSound = ground arith

  pub handle_resolve_list-IsSound : IsSound fp ask (handle_resolve_list tcl ask def o s).1
  unfolding handle_resolve_list
  handle_resolve_list-IsSound = ground arith

  pub handle_telnet_options-IsSound : IsSound fp ask (handle_telnet_options tcl ask def o s).1
  unfolding handle_telnet_options
  handle_telnet_options-IsSound = ground arith
