-- ===== src/Options/Run.antt =====
-- The dispatch on the option table: TclCurl_SetOpts, curlSetOptsTransfer (the setopt command) and
-- curlConfigTransfer (the configure command) of generic/curl_setopts.c.
use tclcurl_ng.Base.{ℕ, String, List, [], ◌∷◌, Option, none, some, get_elem?}
use tclcurl_ng.Api.{Tcl, Answers}
use tclcurl_ng.Api.Monad.{Status, ok, error, M, pure, ◌>>=◌, ◌>>◌, set_result, empty_value}
use tclcurl_ng.Options.{OptionDef, Handler, set_char, set_int, set_long, set_curl_off_t}
use tclcurl_ng.Options.Choices.{entry, refuse}
use tclcurl_ng.Options.Choices.Handlers
use tclcurl_ng.Options.Slists
use tclcurl_ng.Options.Files
use tclcurl_ng.Options.Procs
use tclcurl_ng.Options.Misc
use tclcurl_ng.Options.Sharing
use tclcurl_ng.Options.Table.{curl_option_defs, option_table, config_table}
use tclcurl_ng.Mime

module _ (tcl : Tcl) (ask : Answers) where
  -- The function in the `handler` column of a row.
  unfoldable pub run_handler : Handler → OptionDef → String → M Status
  run_handler Handler.setopt_char def o = set_char ask def.curl_opt def o
  run_handler Handler.setopt_int def o = set_int tcl ask def.curl_opt def o
  run_handler Handler.setopt_long def o = set_long tcl ask def.curl_opt def o
  run_handler Handler.setopt_curl_off_t def o = set_curl_off_t tcl ask def.curl_opt def o
  run_handler Handler.post_fields def o = Misc.handle_post_fields ask o
  run_handler Handler.post_field_size def o = Misc.handle_post_field_size ask def o (tcl.get_wide o)
  run_handler Handler.setopt_shandle def o = Sharing.handle_setopt_shandle ask def o
  run_handler Handler.out_file def o = Files.handle_out_file ask o
  run_handler Handler.read_data def o = Files.handle_read_data ask o
  run_handler Handler.netrc def o = Handlers.handle_netrc tcl ask def o
  run_handler Handler.transfer_text def o = Misc.handle_transfer_text tcl ask def o
  run_handler Handler.mute def o = Misc.handle_mute ask
  run_handler Handler.error_buffer def o = Misc.handle_error_buffer ask o (tcl.match_array o)
  run_handler Handler.http_header_list def o = Slists.handle_http_header_list tcl ask def o
  run_handler Handler.ssl_version def o = Handlers.handle_ssl_version tcl ask def o
  run_handler Handler.quote_list def o = Slists.handle_quote_list tcl ask def o
  run_handler Handler.post_quote_list def o = Slists.handle_post_quote_list tcl ask def o
  run_handler Handler.write_header def o = Files.handle_write_header ask o
  run_handler Handler.time_condition def o = Handlers.handle_time_condition tcl ask def o
  run_handler Handler.stderr_file def o = Files.handle_stderr_file ask o
  run_handler Handler.header_var def o = Procs.handle_header_var ask o
  run_handler Handler.body_var def o = Procs.handle_body_var ask o
  run_handler Handler.progress_proc def o = Procs.handle_progress_proc ask o
  run_handler Handler.cancel_trans_var_name def o = Procs.handle_cancel_trans_var_name ask o
  run_handler Handler.write_proc def o = Procs.handle_write_proc ask o
  run_handler Handler.read_proc def o = Procs.handle_read_proc ask o
  run_handler Handler.http_version def o = Handlers.handle_http_version tcl ask def o
  run_handler Handler.prequote_list def o = Slists.handle_prequote_list tcl ask def o
  run_handler Handler.debug_proc def o = Procs.handle_debug_proc ask o
  run_handler Handler.encoding def o = Handlers.handle_encoding tcl ask def o
  run_handler Handler.proxy_type def o = Handlers.handle_proxy_type tcl ask def o
  run_handler Handler.http200_aliases def o = Slists.handle_http200_aliases tcl ask def o
  run_handler Handler.command def o = Misc.handle_command ask o
  run_handler Handler.http_auth def o = Handlers.handle_http_auth tcl ask def o
  run_handler Handler.proxy_auth def o = Handlers.handle_proxy_auth tcl ask def o
  run_handler Handler.ip_resolve def o = Handlers.handle_ip_resolve tcl ask def o
  run_handler Handler.ftp_ssl def o = Handlers.handle_ftp_ssl tcl ask def o
  run_handler Handler.obsolete def o = Misc.handle_obsolete ask def
  run_handler Handler.ftp_ssl_auth def o = Handlers.handle_ftp_ssl_auth tcl ask def o
  run_handler Handler.ftp_file_method def o = Handlers.handle_ftp_file_method tcl ask def o
  run_handler Handler.ssh_auth_types def o = Handlers.handle_ssh_auth_types tcl ask def o
  run_handler Handler.post_redir def o = Handlers.handle_post_redir tcl ask def o
  run_handler Handler.protocol_mask def o = Misc.handle_protocol_mask ask (tcl.list_elements o)
  run_handler Handler.ftp_ssl_ccc def o = Handlers.handle_ftp_ssl_ccc tcl ask def o
  run_handler Handler.ssh_key_function def o = Procs.handle_ssh_key_function ask o
  run_handler Handler.mail_rcpt def o = Slists.handle_mail_rcpt tcl ask def o
  run_handler Handler.chunk_bgn_proc def o = Procs.handle_chunk_bgn_proc ask o
  run_handler Handler.chunk_bgn_var def o = Procs.handle_chunk_bgn_var ask def o
  run_handler Handler.chunk_end_proc def o = Procs.handle_chunk_end_proc ask o
  run_handler Handler.fnmatch_proc def o = Procs.handle_fnmatch_proc ask o
  run_handler Handler.resolve_list def o = Slists.handle_resolve_list tcl ask def o
  run_handler Handler.tls_auth_type def o = Handlers.handle_tls_auth_type tcl ask def o
  run_handler Handler.gss_api_delegation def o = Handlers.handle_gss_api_delegation tcl ask def o
  run_handler Handler.telnet_options def o = Slists.handle_telnet_options tcl ask def o
  run_handler Handler.cainfo_blob def o = Misc.handle_cainfo_blob ask def o
  run_handler Handler.http_post def o = Mime.handle_http_post tcl ask def (tcl.list_elements o)

  unfoldable pub run_def : Option OptionDef → String → M Status
  run_def none o = pure error
  run_def (some def) o = run_handler def.handler def o

  -- TclCurl_SetOpts
  unfoldable pub set_opts : String → ℕ → M Status
  set_opts o i = run_def (get_elem? curl_option_defs i) o

  unfoldable pub set_found : Option ℕ → String → M Status
  set_found none o = refuse
  set_found (some i) o = set_opts o i

  -- curlSetOptsTransfer: `setopt name value`
  unfoldable pub set_opts_transfer : String → String → M Status
  set_opts_transfer name o = set_found (tcl.get_index option_table name) o

  abbrev pub missing_value : Option ℕ → M Status
  missing_value none = refuse
  missing_value (some i) = do set_result (empty_value (entry config_table i)); pure error

  abbrev pub unless_error : Status → M Status → M Status
  unless_error ok rest = rest
  unless_error other rest = pure other

  -- curlConfigTransfer: `configure name value ...`
  unfoldable pub config_transfer : List String → M Status
  config_transfer [] = pure ok
  config_transfer (name ∷ []) = missing_value (tcl.get_index config_table name)
  config_transfer (name ∷ o ∷ rest) =
      let later = config_transfer rest in
      (do status ← set_found (tcl.get_index config_table name) o; unless_error status later)
