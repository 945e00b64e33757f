-- ===== src/Options/Sound/Commands.antt =====
-- Every option, and so the commands setopt and configure, keep a handle's files sound.
use tclcurl_ng.Base.{ℕ, String, List, [], ◌∷◌, Option, none, some, get_elem?, arith}
use tclcurl_ng.Api.{Tcl, Answers}
use tclcurl_ng.Api.Monad.{State, Status, M, ok, error, fault}
use tclcurl_ng.Options.{OptionDef, Handler, set_int, set_long, set_curl_off_t}
use tclcurl_ng.Options.Choices
use tclcurl_ng.Options.Choices.Handlers
use tclcurl_ng.Options.Misc.{handle_cainfo_blob}
use tclcurl_ng.Options.Run.{
  run_handler, run_def, set_opts, set_found, set_opts_transfer, missing_value, unless_error,
  config_transfer,
}
use tclcurl_ng.Options.Table.{curl_option_defs, option_table, config_table}
use tclcurl_ng.Options.Sound.{IsSound}
use tclcurl_ng.Options.Sound.Parts
use tclcurl_ng.Options.Sound.Files
use tclcurl_ng.Options.Sound.Procs
use tclcurl_ng.Options.Sound.Slists
use tclcurl_ng.Options.Sound.Misc

module _ {fp : ℕ} (tcl : Tcl) (ask : Answers) where
  run_handler-IsSound :
      (h : Handler) (def : OptionDef) (o : String) (s : State)
      → IsSound fp ask s
      → IsSound fp ask (run_handler tcl ask h def o s).1
  unfolding run_handler set_int set_long set_curl_off_t handle_cainfo_blob
      Handlers.handle_ssl_version Handlers.handle_proxy_auth Handlers.handle_ip_resolve
      Handlers.handle_ftp_ssl Handlers.handle_ftp_ssl_auth Handlers.handle_ftp_file_method
      Handlers.handle_ssh_auth_types Handlers.handle_post_redir Handlers.handle_ftp_ssl_ccc
      Handlers.handle_tls_auth_type Handlers.handle_gss_api_delegation
  run_handler-IsSound Handler.setopt_char def o s v =
      Parts.set_char-IsSound ask def o s v def.curl_opt
  run_handler-IsSound Handler.setopt_int def o s v =
      Parts.setopt_number-IsSound ask def o s v (tcl.get_int o) def.curl_opt
  run_handler-IsSound Handler.setopt_long def o s v =
      Parts.setopt_number-IsSound ask def o s v (tcl.get_long o) def.curl_opt
  run_handler-IsSound Handler.setopt_curl_off_t def o s v =
      Parts.setopt_number-IsSound ask def o s v (tcl.get_wide o) def.curl_opt
  run_handler-IsSound Handler.post_fields def o s v = Misc.handle_post_fields-IsSound ask s v o
  run_handler-IsSound Handler.post_field_size def o s v =
      Misc.handle_post_field_size-IsSound ask s v def o (tcl.get_wide o)
  run_handler-IsSound Handler.setopt_shandle def o s v =
      Misc.handle_setopt_shandle-IsSound ask s v def o
  run_handler-IsSound Handler.out_file def o s v = Files.handle_out_file-IsSound ask o s v
  run_handler-IsSound Handler.read_data def o s v = Files.handle_read_data-IsSound ask o s v
  run_handler-IsSound Handler.netrc def o s v = Parts.handle_netrc-IsSound tcl ask def o s v
  run_handler-IsSound Handler.transfer_text def o s v =
      Misc.handle_transfer_text-IsSound ask s v tcl def o
  run_handler-IsSound Handler.mute def o s v = Misc.handle_mute-IsSound ask s v
  run_handler-IsSound Handler.error_buffer def o s v =
      Misc.handle_error_buffer-IsSound ask s v o (tcl.match_array o)
  run_handler-IsSound Handler.http_header_list def o s v =
      Slists.handle_http_header_list-IsSound tcl ask def o s v
  run_handler-IsSound Handler.ssl_version def o s v =
      Parts.choice-IsSound tcl ask def o s v Choices.sslversion Choices.ssl_version_of
        "CURLOPT_SSLVERSION"
  run_handler-IsSound Handler.quote_list def o s v =
      Slists.handle_quote_list-IsSound tcl ask def o s v
  run_handler-IsSound Handler.post_quote_list def o s v =
      Slists.handle_post_quote_list-IsSound tcl ask def o s v
  run_handler-IsSound Handler.write_header def o s v = Files.handle_write_header-IsSound ask o s v
  run_handler-IsSound Handler.time_condition def o s v =
      Parts.handle_time_condition-IsSound tcl ask def o s v
  run_handler-IsSound Handler.stderr_file def o s v = Files.handle_stderr_file-IsSound ask o s v
  run_handler-IsSound Handler.header_var def o s v = Procs.handle_header_var-IsSound ask o s v
  run_handler-IsSound Handler.body_var def o s v = Procs.handle_body_var-IsSound ask o s v
  run_handler-IsSound Handler.progress_proc def o s v = Procs.handle_progress_proc-IsSound ask o s v
  run_handler-IsSound Handler.cancel_trans_var_name def o s v =
      Procs.handle_cancel_trans_var_name-IsSound ask o s v
  run_handler-IsSound Handler.write_proc def o s v = Procs.handle_write_proc-IsSound ask o s v
  run_handler-IsSound Handler.read_proc def o s v = Procs.handle_read_proc-IsSound ask o s v
  run_handler-IsSound Handler.http_version def o s v =
      Parts.handle_http_version-IsSound tcl ask def o s v
  run_handler-IsSound Handler.prequote_list def o s v =
      Slists.handle_prequote_list-IsSound tcl ask def o s v
  run_handler-IsSound Handler.debug_proc def o s v = Procs.handle_debug_proc-IsSound ask o s v
  run_handler-IsSound Handler.encoding def o s v = Parts.handle_encoding-IsSound tcl ask def o s v
  run_handler-IsSound Handler.proxy_type def o s v =
      Parts.handle_proxy_type-IsSound tcl ask def o s v
  run_handler-IsSound Handler.http200_aliases def o s v =
      Slists.handle_http200_aliases-IsSound tcl ask def o s v
  run_handler-IsSound Handler.command def o s v = Misc.handle_command-IsSound ask s v o
  run_handler-IsSound Handler.http_auth def o s v = Parts.handle_http_auth-IsSound tcl ask def o s v
  run_handler-IsSound Handler.proxy_auth def o s v =
      Parts.choice-IsSound tcl ask def o s v Choices.http_auth_methods Choices.proxy_auth_of
        "CURLOPT_PROXYAUTH"
  run_handler-IsSound Handler.ip_resolve def o s v =
      Parts.choice-IsSound tcl ask def o s v Choices.ipresolve Choices.ip_resolve_of
        "CURLOPT_IPRESOLVE"
  run_handler-IsSound Handler.ftp_ssl def o s v =
      Parts.choice-IsSound tcl ask def o s v Choices.ftpssl Choices.ftp_ssl_method_of
        "CURLOPT_USE_SSL"
  run_handler-IsSound Handler.obsolete def o s v = Misc.handle_obsolete-IsSound ask s v def
  run_handler-IsSound Handler.ftp_ssl_auth def o s v =
      Parts.choice-IsSound tcl ask def o s v Choices.ftpsslauth Choices.ftp_ssl_auth_of
        "CURLOPT_FTPSSLAUTH"
  run_handler-IsSound Handler.ftp_file_method def o s v =
      Parts.choice-IsSound tcl ask def o s v Choices.ftpfilemethod Choices.ftp_file_method_of
        "CURLOPT_FTP_FILEMETHOD"
  run_handler-IsSound Handler.ssh_auth_types def o s v =
      Parts.choice-IsSound tcl ask def o s v Choices.sshauthtypes Choices.ssh_auth_types_of
        "CURLOPT_SSH_AUTH_TYPES"
  run_handler-IsSound Handler.post_redir def o s v =
      Parts.choice-IsSound tcl ask def o s v Choices.postredir Choices.post_redir_of
        "CURLOPT_POSTREDIR"
  run_handler-IsSound Handler.protocol_mask def o s v =
      Misc.handle_protocol_mask-IsSound ask s v (tcl.list_elements o)
  run_handler-IsSound Handler.ftp_ssl_ccc def o s v =
      Parts.choice-IsSound tcl ask def o s v Choices.ftpsslccc Choices.ftp_ssl_ccc_of
        "CURLOPT_FTP_SSL_CCC"
  run_handler-IsSound Handler.ssh_key_function def o s v =
      Procs.handle_ssh_key_function-IsSound ask o s v
  run_handler-IsSound Handler.mail_rcpt def o s v =
      Slists.handle_mail_rcpt-IsSound tcl ask def o s v
  run_handler-IsSound Handler.chunk_bgn_proc def o s v =
      Procs.handle_chunk_bgn_proc-IsSound ask o s v
  run_handler-IsSound Handler.chunk_bgn_var def o s v =
      Procs.handle_chunk_bgn_var-IsSound ask o s v def
  run_handler-IsSound Handler.chunk_end_proc def o s v =
      Procs.handle_chunk_end_proc-IsSound ask o s v
  run_handler-IsSound Handler.fnmatch_proc def o s v = Procs.handle_fnmatch_proc-IsSound ask o s v
  run_handler-IsSound Handler.resolve_list def o s v =
      Slists.handle_resolve_list-IsSound tcl ask def o s v
  run_handler-IsSound Handler.tls_auth_type def o s v =
      Parts.choice-IsSound tcl ask def o s v Choices.tlsauth Choices.tls_auth_type_of
        "CURLOPT_TLSAUTH_TYPE"
  run_handler-IsSound Handler.gss_api_delegation def o s v =
      Parts.choice-IsSound tcl ask def o s v Choices.gssapidelegation Choices.gss_api_delegation_of
        "CURLOPT_GSSAPI_DELEGATION"
  run_handler-IsSound Handler.telnet_options def o s v =
      Slists.handle_telnet_options-IsSound tcl ask def o s v
  run_handler-IsSound Handler.cainfo_blob def o s v =
      Parts.set_blob-IsSound ask def o s v "CURLOPT_CAINFO_BLOB"
  run_handler-IsSound Handler.http_post def o s v =
      Misc.handle_http_post-IsSound tcl ask def (tcl.list_elements o) s v

  run_def-IsSound :
      (def : Option OptionDef) (o : String) (s : State)
      → IsSound fp ask s
      → IsSound fp ask (run_def tcl ask def o s).1
  unfolding run_def
  run_def-IsSound none o s v = v
  run_def-IsSound (some def) o s v = run_handler-IsSound def.handler def o s v

  set_found-IsSound :
      (i : Option ℕ) (o : String) (s : State)
      → IsSound fp ask s
      → IsSound fp ask (set_found tcl ask i o s).1
  unfolding set_found set_opts
  set_found-IsSound none o s v = ground arith
  set_found-IsSound (some i) o s v = run_def-IsSound (get_elem? curl_option_defs i) o s v

  -- The command `setopt name o`, with any name and value and whatever libcurl answers, keeps the
  -- files of the handle sound: no FILE is lost, and a flag to open a file stands beside a name.
  pub set_opts_transfer-IsSound :
      (name o : String) (s : State)
      → IsSound fp ask s
      → IsSound fp ask (set_opts_transfer tcl ask name o s).1
  unfolding set_opts_transfer
  set_opts_transfer-IsSound name o s v = set_found-IsSound (tcl.get_index option_table name) o s v

  missing-IsSound :
      (i : Option ℕ) (s : State) → IsSound fp ask s → IsSound fp ask (missing_value tcl ask i s).1
  missing-IsSound none s v = ground arith
  missing-IsSound (some i) s v = ground arith

  unless_error-IsSound :
      (status : Status) (rest : M Status) (s : State)
      → IsSound fp ask s
      → IsSound fp ask (rest s).1
      → IsSound fp ask (unless_error tcl ask status rest s).1
  unless_error-IsSound ok rest s v keep = keep
  unless_error-IsSound error rest s v keep = v
  unless_error-IsSound fault rest s v keep = v

  -- The command `configure name o ...`, with any words, wherever it stops and whatever libcurl answers,
  -- keeps the files sound for each FILE pointer that is not NULL: it was closed as often as fopen gave
  -- it, but for the fields that hold it, and a flag to open a file stands beside a name. A run that
  -- faults is taken up to the read at which it does.
  pub config_transfer-IsSound :
      (words : List String) (s : State)
      → IsSound fp ask s
      → IsSound fp ask (config_transfer tcl ask words s).1
  unfolding config_transfer
  config_transfer-IsSound [] s v = v
  config_transfer-IsSound (name ∷ []) s v = missing-IsSound (tcl.get_index config_table name) s v
  config_transfer-IsSound (name ∷ o ∷ rest) s v =
      let step = set_found tcl ask (tcl.get_index config_table name) o s in
      let after = set_found-IsSound (tcl.get_index config_table name) o s v in
      unless_error-IsSound step.0 (config_transfer tcl ask rest) step.1 after
        (config_transfer-IsSound rest step.1 after)
