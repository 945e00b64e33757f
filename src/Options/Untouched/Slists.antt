-- ===== src/Options/Untouched/Slists.antt =====
-- The handlers of the options that hold a list of strings.
use tclcurl_ng.Base.{String, arith}
use tclcurl_ng.Api.{Tcl, Answers}
use tclcurl_ng.Api.Monad.{State}
use tclcurl_ng.Options.{OptionDef}
use tclcurl_ng.Options.Untouched.{Untouched}
use tclcurl_ng.Options.Slists.{
  handle_http_header_list, handle_quote_list, handle_post_quote_list, handle_prequote_list,
  handle_http200_aliases, handle_mail_rcpt, handle_resolve_list, handle_telnet_options,
}

module _ (tcl : Tcl) (ask : Answers) (def : OptionDef) (o : String) (s : State) where
  pub handle_http_header_list-Untouched : Untouched s (handle_http_header_list tcl ask def o s).1
  unfolding handle_http_header_list
  handle_http_header_list-Untouched = ground arith

  pub handle_quote_list-Untouched : Untouched s (handle_quote_list tcl ask def o s).1
  unfolding handle_quote_list
  handle_quote_list-Untouched = ground arith

  pub handle_post_quote_list-Untouched : Untouched s (handle_post_quote_list tcl ask def o s).1
  unfolding handle_post_quote_list
  handle_post_quote_list-Untouched = ground arith

  pub handle_prequote_list-Untouched : Untouched s (handle_prequote_list tcl ask def o s).1
  unfolding handle_prequote_list
  handle_prequote_list-Untouched = ground arith

  pub handle_http200_aliases-Untouched : Untouched s (handle_http200_aliases tcl ask def o s).1
  unfolding handle_http200_aliases
  handle_http200_aliases-Untouched = ground arith

  pub handle_mail_rcpt-Untouched : Untouched s (handle_mail_rcpt tcl ask def o s).1
  unfolding handle_mail_rcpt
  handle_mail_rcpt-Untouched = ground arith

  pub handle_resolve_list-Untouched : Untouched s (handle_resolve_list tcl ask def o s).1
  unfolding handle_resolve_list
  handle_resolve_list-Untouched = ground arith

  pub handle_telnet_options-Untouched : Untouched s (handle_telnet_options tcl ask def o s).1
  unfolding handle_telnet_options
  handle_telnet_options-Untouched = ground arith
