-- ===== src/Options/Apart.antt =====
-- Which options of libcurl each row of the option table sets.
pub mod Handlers
pub mod Commands
use tclcurl_ng.Base.{
  ℕ, ℤ, ◌≡◌, refl, ◌∙◌, String, List, [], ◌∷◌, Option, none, some, Bool, true, false, ◌==◌, ◌&&◌,
  ◌||◌, str_eq, if◌then◌else◌, arith, inl, inr, Bool-cases, Option-cases,
}
use tclcurl_ng.Api.{Tcl, Answers, Arg, Call, easy_setopt, easy_reset}
use tclcurl_ng.Api.Monad.{State, Status, M, ok, error, fault}
use tclcurl_ng.Options.{
  OptionDef, Handler, setopt_char, setopt_int, setopt_long, setopt_curl_off_t, post_fields,
  post_field_size, setopt_shandle, out_file, read_data, netrc, transfer_text, mute, error_buffer,
  http_header_list, ssl_version, quote_list, post_quote_list, write_header, time_condition,
  stderr_file, header_var, body_var, progress_proc, cancel_trans_var_name, write_proc, read_proc,
  http_version, prequote_list, debug_proc, encoding, proxy_type, http200_aliases, command,
  http_auth, proxy_auth, ip_resolve, ftp_ssl, obsolete, ftp_ssl_auth, ftp_file_method,
  ssh_auth_types, post_redir, protocol_mask, ftp_ssl_ccc, ssh_key_function, mail_rcpt,
  chunk_bgn_proc, chunk_bgn_var, chunk_end_proc, fnmatch_proc, resolve_list, tls_auth_type,
  gss_api_delegation, telnet_options, cainfo_blob, http_post, set_int, set_long, set_curl_off_t,
  set_char, set_blob, setopt_number,
}
use tclcurl_ng.Options.Table.Names.{member}

-- The value of an option of a CURL in libcurl: the last one that it accepted since a reset.
abbrev pub setting : Answers → ℕ → String → List Call → Option Arg
setting ask h opt [] = none
setting ask h opt (easy_setopt h' o a ∷ cs) =
    let rest = setting ask h opt cs in
    if str_eq o opt && h' == h && ask (easy_setopt h' o a ∷ cs) == 0 then some a else rest
setting ask h opt (easy_reset h' ∷ cs) =
    let rest = setting ask h opt cs in if h' == h then none else rest
setting ask h opt (_ ∷ cs) = setting ask h opt cs

-- The options that a handler may set, in the order of the handlers' table.
abbrev pub targets : Handler → OptionDef → List String
targets setopt_char def = def.curl_opt ∷ []
targets setopt_int def = def.curl_opt ∷ []
targets setopt_long def = def.curl_opt ∷ []
targets setopt_curl_off_t def = def.curl_opt ∷ []
targets transfer_text def = def.curl_opt ∷ []
targets setopt_shandle def = def.curl_opt ∷ "CURLOPT_SHARE" ∷ []
targets out_file def = "CURLOPT_WRITEDATA" ∷ "CURLOPT_WRITEFUNCTION" ∷ []
targets body_var def = "CURLOPT_WRITEDATA" ∷ "CURLOPT_WRITEFUNCTION" ∷ []
targets write_proc def = "CURLOPT_WRITEDATA" ∷ "CURLOPT_WRITEFUNCTION" ∷ []
targets read_data def = "CURLOPT_READDATA" ∷ "CURLOPT_READFUNCTION" ∷ []
targets read_proc def = "CURLOPT_READDATA" ∷ "CURLOPT_READFUNCTION" ∷ []
targets write_header def = "CURLOPT_HEADERDATA" ∷ []
targets header_var def = "CURLOPT_HEADERDATA" ∷ "CURLOPT_HEADERFUNCTION" ∷ []
targets stderr_file def = "CURLOPT_STDERR" ∷ []
targets netrc def = "CURLOPT_NETRC" ∷ []
targets error_buffer def = "CURLOPT_ERRORBUFFER" ∷ []
targets http_header_list def = "CURLOPT_HTTPHEADER" ∷ []
targets quote_list def = "CURLOPT_QUOTE" ∷ []
targets post_quote_list def = "CURLOPT_POSTQUOTE" ∷ []
targets prequote_list def = "CURLOPT_PREQUOTE" ∷ []
targets http200_aliases def = "CURLOPT_HTTP200ALIASES" ∷ []
targets mail_rcpt def = "CURLOPT_MAIL_RCPT" ∷ []
targets resolve_list def = "CURLOPT_RESOLVE" ∷ []
targets telnet_options def = "CURLOPT_TELNETOPTIONS" ∷ []
targets ssl_version def = "CURLOPT_SSLVERSION" ∷ []
targets time_condition def = "CURLOPT_TIMECONDITION" ∷ []
targets progress_proc def = "CURLOPT_XFERINFOFUNCTION" ∷ "CURLOPT_XFERINFODATA" ∷ []
targets debug_proc def = "CURLOPT_DEBUGFUNCTION" ∷ "CURLOPT_DEBUGDATA" ∷ []
targets ssh_key_function def = "CURLOPT_SSH_KEYFUNCTION" ∷ "CURLOPT_SSH_KEYDATA" ∷ []
targets chunk_bgn_proc def = "CURLOPT_CHUNK_BGN_FUNCTION" ∷ "CURLOPT_CHUNK_DATA" ∷ []
targets chunk_end_proc def = "CURLOPT_CHUNK_END_FUNCTION" ∷ []
targets fnmatch_proc def = "CURLOPT_FNMATCH_FUNCTION" ∷ "CURLOPT_FNMATCH_DATA" ∷ []
targets http_version def = "CURLOPT_HTTP_VERSION" ∷ []
targets encoding def = "CURLOPT_ACCEPT_ENCODING" ∷ []
targets proxy_type def = "CURLOPT_PROXYTYPE" ∷ []
targets http_auth def = "CURLOPT_HTTPAUTH" ∷ []
targets proxy_auth def = "CURLOPT_PROXYAUTH" ∷ []
targets ip_resolve def = "CURLOPT_IPRESOLVE" ∷ []
targets ftp_ssl def = "CURLOPT_USE_SSL" ∷ []
targets ftp_ssl_auth def = "CURLOPT_FTPSSLAUTH" ∷ []
targets ftp_file_method def = "CURLOPT_FTP_FILEMETHOD" ∷ []
targets ssh_auth_types def = "CURLOPT_SSH_AUTH_TYPES" ∷ []
targets post_redir def = "CURLOPT_POSTREDIR" ∷ []
targets protocol_mask def = "CURLOPT_PROTOCOLS_STR" ∷ []
targets ftp_ssl_ccc def = "CURLOPT_FTP_SSL_CCC" ∷ []
targets tls_auth_type def = "CURLOPT_TLSAUTH_TYPE" ∷ []
targets gss_api_delegation def = "CURLOPT_GSSAPI_DELEGATION" ∷ []
targets cainfo_blob def = "CURLOPT_CAINFO_BLOB" ∷ []
targets _ def = []
