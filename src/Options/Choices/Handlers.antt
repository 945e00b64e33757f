-- ===== src/Options/Choices/Handlers.antt =====
-- The handlers of generic/curl_setopts.c that look a word up in a table of Options/Choices.
use tclcurl_ng.Base.{ℕ, String, List, Option, none, some, false, ◌==◌, if◌then◌else◌, pos}
use tclcurl_ng.Api.{Tcl, Answers, constant, int, text}
use tclcurl_ng.Api.Monad.{Status, ok, error, M, pure, ◌>>=◌, ◌>>◌, modify}
use tclcurl_ng.Options.{OptionDef, setopt, report, set_char}
use tclcurl_ng.Options.Choices

-- What follows Tcl_GetIndexFromObj.
abbrev pub with_index : Option ℕ → (ℕ → M Status) → M Status
with_index none f = Choices.refuse
with_index (some i) f = f i

module _ (tcl : Tcl) (ask : Answers) where
  -- The handlers that end in SetoptLong with the constant of a `switch`.
  unfoldable pub choice :
      List String → (ℕ → String) → (opt : String) → OptionDef → String → M Status
  unfolding Choices.set_constant
  choice table const opt def o =
      with_index (tcl.get_index table o) λ i. Choices.set_constant ask opt def (const i)

  unfoldable pub handle_ssl_version : OptionDef → String → M Status
  unfolding choice
  handle_ssl_version = choice Choices.sslversion Choices.ssl_version_of "CURLOPT_SSLVERSION"

  unfoldable pub handle_http_auth : OptionDef → String → M Status
  unfolding Choices.set_constant
  handle_http_auth def o = with_index (tcl.get_index Choices.http_auth_methods o) λ i. do
    modify λ d. record d { any_auth_flag = false }
    modify λ d. record d { any_auth_flag = i == 5 }
    Choices.set_constant ask "CURLOPT_HTTPAUTH" def (Choices.http_auth_of i)

  unfoldable pub handle_proxy_auth : OptionDef → String → M Status
  unfolding choice
  handle_proxy_auth = choice Choices.http_auth_methods Choices.proxy_auth_of "CURLOPT_PROXYAUTH"

  unfoldable pub handle_ip_resolve : OptionDef → String → M Status
  unfolding choice
  handle_ip_resolve = choice Choices.ipresolve Choices.ip_resolve_of "CURLOPT_IPRESOLVE"

  unfoldable pub handle_ftp_ssl : OptionDef → String → M Status
  unfolding choice
  handle_ftp_ssl = choice Choices.ftpssl Choices.ftp_ssl_method_of "CURLOPT_USE_SSL"

  unfoldable pub handle_ftp_ssl_auth : OptionDef → String → M Status
  unfolding choice
  handle_ftp_ssl_auth = choice Choices.ftpsslauth Choices.ftp_ssl_auth_of "CURLOPT_FTPSSLAUTH"

  unfoldable pub handle_ftp_file_method : OptionDef → String → M Status
  unfolding choice
  handle_ftp_file_method =
      choice Choices.ftpfilemethod Choices.ftp_file_method_of "CURLOPT_FTP_FILEMETHOD"

  unfoldable pub handle_ssh_auth_types : OptionDef → String → M Status
  unfolding choice
  handle_ssh_auth_types =
      choice Choices.sshauthtypes Choices.ssh_auth_types_of "CURLOPT_SSH_AUTH_TYPES"

  unfoldable pub handle_post_redir : OptionDef → String → M Status
  unfolding choice
  handle_post_redir = choice Choices.postredir Choices.post_redir_of "CURLOPT_POSTREDIR"

  unfoldable pub handle_ftp_ssl_ccc : OptionDef → String → M Status
  unfolding choice
  handle_ftp_ssl_ccc = choice Choices.ftpsslccc Choices.ftp_ssl_ccc_of "CURLOPT_FTP_SSL_CCC"

  unfoldable pub handle_tls_auth_type : OptionDef → String → M Status
  unfolding choice
  handle_tls_auth_type = choice Choices.tlsauth Choices.tls_auth_type_of "CURLOPT_TLSAUTH_TYPE"

  unfoldable pub handle_gss_api_delegation : OptionDef → String → M Status
  unfolding choice
  handle_gss_api_delegation =
      choice Choices.gssapidelegation Choices.gss_api_delegation_of "CURLOPT_GSSAPI_DELEGATION"

  -- The result of curl_easy_setopt is not looked at.
  unfoldable pub handle_proxy_type : OptionDef → String → M Status
  handle_proxy_type def o =
      with_index (tcl.get_index Choices.proxy_type_table o)
        λ i. do setopt ask "CURLOPT_PROXYTYPE" (constant (Choices.proxy_type_of i)); pure ok

  unfoldable pub handle_time_condition : OptionDef → String → M Status
  handle_time_condition def o = with_index (tcl.get_index Choices.time_cond o) λ i. do
    code ← setopt ask "CURLOPT_TIMECONDITION" (constant (Choices.time_cond_of i))
    if code == 0 then pure ok else pure error

  -- The index itself is the value.
  unfoldable pub handle_netrc : OptionDef → String → M Status
  unfolding report
  handle_netrc def o = with_index (tcl.get_index Choices.netrc_table o) λ i.
      setopt ask "CURLOPT_NETRC" (int (pos i))
      >>= report ask def (Choices.entry Choices.netrc_table i)

  unfoldable pub handle_http_version : OptionDef → String → M Status
  unfolding report
  handle_http_version def o =
      with_index (tcl.get_index Choices.http_version_table o)
        λ i. setopt ask "CURLOPT_HTTP_VERSION" (int (pos i)) >>= report ask def o

  unfoldable pub handle_encoding : OptionDef → String → M Status
  unfolding report set_char
  handle_encoding def o = with_index (tcl.get_index Choices.encoding_table o) λ i.
      if i == 2
      then setopt ask "CURLOPT_ACCEPT_ENCODING" (text "") >>= report ask def "all"
      else set_char ask "CURLOPT_ACCEPT_ENCODING" def o
