-- ===== src/Options/Untouched/Commands.antt =====
-- Every option but -share leaves the links alone.
use tclcurl_ng.Base.{◌≢◌, refl, String}
use tclcurl_ng.Api.{Tcl, Answers}
use tclcurl_ng.Api.Monad.{State}
use tclcurl_ng.Options.{OptionDef, Handler, set_int, set_long, set_curl_off_t}
use tclcurl_ng.Options.Choices
use tclcurl_ng.Options.Choices.Handlers
use tclcurl_ng.Options.Misc.{handle_cainfo_blob}
use tclcurl_ng.Options.Run.{run_handler}
use tclcurl_ng.Options.Untouched.{Untouched}
use tclcurl_ng.Options.Untouched.Parts
use tclcurl_ng.Options.Untouched.Files
use tclcurl_ng.Options.Untouched.Procs
use tclcurl_ng.Options.Untouched.Slists
use tclcurl_ng.Options.Untouched.Misc

module _ (tcl : Tcl) (ask : Answers) where
  pub run_handler-Untouched :
      (h : Handler) (def : OptionDef) (o : String) (s : State)
      → h ≢ Handler.setopt_shandle
      → Untouched s (run_handler tcl ask h def o s).1
  unfolding run_handler set_int set_long set_curl_off_t handle_cainfo_blob
      Handlers.handle_ssl_version Handlers.handle_proxy_auth Handlers.handle_ip_resolve
      Handlers.handle_ftp_ssl Handlers.handle_ftp_ssl_auth Handlers.handle_ftp_file_method
      Handlers.handle_ssh_auth_types Handlers.handle_post_redir Handlers.handle_ftp_ssl_ccc
      Handlers.handle_tls_auth_type Handlers.handle_gss_api_delegation
  run_handler-Untouched Handler.setopt_char def o s n =
      Parts.set_char-Untouched ask def o s def.curl_opt
  run_handler-Untouched Handler.setopt_int def o s n =
      Parts.setopt_number-Untouched ask def o s (tcl.get_int o) def.curl_opt
  run_handler-Untouched Handler.setopt_long def o s n =
      Parts.setopt_number-Untouched ask def o s (tcl.get_long o) def.curl_opt
  run_handler-Untouched Handler.setopt_curl_off_t def o s n =
      Parts.setopt_number-Untouched ask def o s (tcl.get_wide o) def.curl_opt
  run_handler-Untouched Handler.post_fields def o s n = Misc.handle_post_fields-Untouched ask s o
  run_handler-Untouched Handler.post_field_size def o s n =
      Misc.handle_post_field_size-Untouched ask s def o (tcl.get_wide o)
  run_handler-Untouched Handler.setopt_shandle def o s n = absurd (n refl)
  run_handler-Untouched Handler.out_file def o s n = Files.handle_out_file-Untouched ask o s
  run_handler-Untouched Handler.read_data def o s n = Files.handle_read_data-Untouched ask o s
  run_handler-Untouched Handler.netrc def o s n = Parts.handle_netrc-Untouched tcl ask def o s
  run_handler-Untouched Handler.transfer_text def o s n =
      Misc.handle_transfer_text-Untouched ask s tcl def o
  run_handler-Untouched Handler.mute def o s n = Misc.handle_mute-Untouched ask s
  run_handler-Untouched Handler.error_buffer def o s n =
      Misc.handle_error_buffer-Untouched ask s o (tcl.match_array o)
  run_handler-Untouched Handler.http_header_list def o s n =
      Slists.handle_http_header_list-Untouched tcl ask def o s
  run_handler-Untouched Handler.ssl_version def o s n =
      Parts.choice-Untouched tcl ask def o s Choices.sslversion Choices.ssl_version_of
        "CURLOPT_SSLVERSION"
  run_handler-Untouched Handler.quote_list def o s n =
      Slists.handle_quote_list-Untouched tcl ask def o s
  run_handler-Untouched Handler.post_quote_list def o s n =
      Slists.handle_post_quote_list-Untouched tcl ask def o s
  run_handler-Untouched Handler.write_header def o s n = Files.handle_write_header-Untouched ask o s
  run_handler-Untouched Handler.time_condition def o s n =
      Parts.handle_time_condition-Untouched tcl ask def o s
  run_handler-Untouched Handler.stderr_file def o s n = Files.handle_stderr_file-Untouched ask o s
  run_handler-Untouched Handler.header_var def o s n = Procs.handle_header_var-Untouched ask o s
  run_handler-Untouched Handler.body_var def o s n = Procs.handle_body_var-Untouched ask o s
  run_handler-Untouched Handler.progress_proc def o s n =
      Procs.handle_progress_proc-Untouched ask o s
  run_handler-Untouched Handler.cancel_trans_var_name def o s n =
      Procs.handle_cancel_trans_var_name-Untouched ask o s
  run_handler-Untouched Handler.write_proc def o s n = Procs.handle_write_proc-Untouched ask o s
  run_handler-Untouched Handler.read_proc def o s n = Procs.handle_read_proc-Untouched ask o s
  run_handler-Untouched Handler.http_version def o s n =
      Parts.handle_http_version-Untouched tcl ask def o s
  run_handler-Untouched Handler.prequote_list def o s n =
      Slists.handle_prequote_list-Untouched tcl ask def o s
  run_handler-Untouched Handler.debug_proc def o s n = Procs.handle_debug_proc-Untouched ask o s
  run_handler-Untouched Handler.encoding def o s n = Parts.handle_encoding-Untouched tcl ask def o s
  run_handler-Untouched Handler.proxy_type def o s n =
      Parts.handle_proxy_type-Untouched tcl ask def o s
  run_handler-Untouched Handler.http200_aliases def o s n =
      Slists.handle_http200_aliases-Untouched tcl ask def o s
  run_handler-Untouched Handler.command def o s n = Misc.handle_command-Untouched ask s o
  run_handler-Untouched Handler.http_auth def o s n =
      Parts.handle_http_auth-Untouched tcl ask def o s
  run_handler-Untouched Handler.proxy_auth def o s n =
      Parts.choice-Untouched tcl ask def o s Choices.http_auth_methods Choices.proxy_auth_of
        "CURLOPT_PROXYAUTH"
  run_handler-Untouched Handler.ip_resolve def o s n =
      Parts.choice-Untouched tcl ask def o s Choices.ipresolve Choices.ip_resolve_of
        "CURLOPT_IPRESOLVE"
  run_handler-Untouched Handler.ftp_ssl def o s n =
      Parts.choice-Untouched tcl ask def o s Choices.ftpssl Choices.ftp_ssl_method_of
        "CURLOPT_USE_SSL"
  run_handler-Untouched Handler.obsolete def o s n = Misc.handle_obsolete-Untouched ask s def
  run_handler-Untouched Handler.ftp_ssl_auth def o s n =
      Parts.choice-Untouched tcl ask def o s Choices.ftpsslauth Choices.ftp_ssl_auth_of
        "CURLOPT_FTPSSLAUTH"
  run_handler-Untouched Handler.ftp_file_method def o s n =
      Parts.choice-Untouched tcl ask def o s Choices.ftpfilemethod Choices.ftp_file_method_of
        "CURLOPT_FTP_FILEMETHOD"
  run_handler-Untouched Handler.ssh_auth_types def o s n =
      Parts.choice-Untouched tcl ask def o s Choices.sshauthtypes Choices.ssh_auth_types_of
        "CURLOPT_SSH_AUTH_TYPES"
  run_handler-Untouched Handler.post_redir def o s n =
      Parts.choice-Untouched tcl ask def o s Choices.postredir Choices.post_redir_of
        "CURLOPT_POSTREDIR"
  run_handler-Untouched Handler.protocol_mask def o s n =
      Misc.handle_protocol_mask-Untouched ask s (tcl.list_elements o)
  run_handler-Untouched Handler.ftp_ssl_ccc def o s n =
      Parts.choice-Untouched tcl ask def o s Choices.ftpsslccc Choices.ftp_ssl_ccc_of
        "CURLOPT_FTP_SSL_CCC"
  run_handler-Untouched Handler.ssh_key_function def o s n =
      Procs.handle_ssh_key_function-Untouched ask o s
  run_handler-Untouched Handler.mail_rcpt def o s n =
      Slists.handle_mail_rcpt-Untouched tcl ask def o s
  run_handler-Untouched Handler.chunk_bgn_proc def o s n =
      Procs.handle_chunk_bgn_proc-Untouched ask o s
  run_handler-Untouched Handler.chunk_bgn_var def o s n =
      Procs.handle_chunk_bgn_var-Untouched ask o s def
  run_handler-Untouched Handler.chunk_end_proc def o s n =
      Procs.handle_chunk_end_proc-Untouched ask o s
  run_handler-Untouched Handler.fnmatch_proc def o s n = Procs.handle_fnmatch_proc-Untouched ask o s
  run_handler-Untouched Handler.resolve_list def o s n =
      Slists.handle_resolve_list-Untouched tcl ask def o s
  run_handler-Untouched Handler.tls_auth_type def o s n =
      Parts.choice-Untouched tcl ask def o s Choices.tlsauth Choices.tls_auth_type_of
        "CURLOPT_TLSAUTH_TYPE"
  run_handler-Untouched Handler.gss_api_delegation def o s n =
      Parts.choice-Untouched tcl ask def o s Choices.gssapidelegation Choices.gss_api_delegation_of
        "CURLOPT_GSSAPI_DELEGATION"
  run_handler-Untouched Handler.telnet_options def o s n =
      Slists.handle_telnet_options-Untouched tcl ask def o s
  run_handler-Untouched Handler.cainfo_blob def o s n =
      Parts.set_blob-Untouched ask def o s "CURLOPT_CAINFO_BLOB"
  run_handler-Untouched Handler.http_post def o s n =
      Misc.handle_http_post-Untouched tcl ask def (tcl.list_elements o) s
