-- ===== src/Options/Choices.antt =====
-- The options whose value is a word of a table, in generic/curl_setopts.c and generic/ftp.c. A
-- handler looks the word up, picks a constant of curl.h by its index, and passes it to libcurl.
pub mod Handlers
pub mod Words
use tclcurl_ng.Base.{
  ℕ, zero, suc, String, List, [], ◌∷◌, Option, none, some, Bool, true, false, ◌==◌, if◌then◌else◌,
  get_elem?, pos,
}
use tclcurl_ng.Api.{Tcl, Answers, constant, int, text}
use tclcurl_ng.Api.Easy.{CurlObjData}
use tclcurl_ng.Api.Monad.{
  Status, ok, error, M, pure, ◌>>=◌, ◌>>◌, get, modify, call, set_result, Message, tcl_message,
}
use tclcurl_ng.Options.{OptionDef, setopt, report}

-- The entry of a `switch` on a table index; an index without a case leaves the initial 0.
abbrev pub entry : List String → ℕ → String
entry [] i = "0"
entry (c ∷ cs) zero = c
entry (c ∷ cs) (suc i) = entry cs i

-- Tcl_GetIndexFromObj has left its own message.
abbrev pub refuse : M Status
refuse = do set_result tcl_message; pure error

-- SetoptLong with an object that holds the chosen constant: its conversion does not fail.
unfoldable pub set_constant : Answers → String → OptionDef → String → M Status
unfolding report
set_constant ask opt def c = setopt ask opt (constant c) >>= report ask def c

abbrev pub sslversion : List String
sslversion =
    "default" ∷ "tlsv1" ∷ "sslv2" ∷ "sslv3" ∷ "tlsv1_0" ∷ "tlsv1_1" ∷ "tlsv1_2" ∷ "tlsv1_3"
    ∷ "maxdefault" ∷ "maxtlsv1_0" ∷ "maxtlsv1_1" ∷ "maxtlsv1_2" ∷ "maxtlsv1_3" ∷ []

abbrev pub http_auth_methods : List String
http_auth_methods =
    "basic" ∷ "digest" ∷ "digestie" ∷ "gssnegotiate" ∷ "ntlm" ∷ "any" ∷ "anysafe" ∷ "ntlmwb" ∷ []

abbrev pub postredir : List String
postredir = "301" ∷ "302" ∷ "all" ∷ []

abbrev pub ipresolve : List String
ipresolve = "whatever" ∷ "v4" ∷ "v6" ∷ []

abbrev pub ftpsslauth : List String
ftpsslauth = "default" ∷ "ssl" ∷ "tls" ∷ []

abbrev pub ftpfilemethod : List String
ftpfilemethod = "default" ∷ "multicwd" ∷ "nocwd" ∷ "singlecwd" ∷ []

abbrev pub sshauthtypes : List String
sshauthtypes = "publickey" ∷ "password" ∷ "host" ∷ "keyboard" ∷ "any" ∷ []

abbrev pub tlsauth : List String
tlsauth = "none" ∷ "srp" ∷ []

abbrev pub gssapidelegation : List String
gssapidelegation = "flag" ∷ "policyflag" ∷ []

abbrev pub proxy_type_table : List String
proxy_type_table = "http" ∷ "http1.0" ∷ "socks4" ∷ "socks4a" ∷ "socks5" ∷ "socks5h" ∷ []

abbrev pub encoding_table : List String
encoding_table = "identity" ∷ "deflated" ∷ "all" ∷ []

abbrev pub netrc_table : List String
netrc_table = "optional" ∷ "ignored" ∷ "required" ∷ []

abbrev pub http_version_table : List String
http_version_table = "none" ∷ "1.0" ∷ "1.1" ∷ "2.0" ∷ "2TLS" ∷ "2_PRIOR_KNOWLEDGE" ∷ []

abbrev pub time_cond : List String
time_cond = "ifmodsince" ∷ "ifunmodsince" ∷ []

abbrev pub ftpsslccc : List String
ftpsslccc = "none" ∷ "passive" ∷ "active" ∷ []

abbrev pub ftpssl : List String
ftpssl = "nope" ∷ "try" ∷ "control" ∷ "all" ∷ []

-- The `switch` of each handler, as the list of its cases.
unfoldable pub ssl_version_of : ℕ → String
ssl_version_of = entry (
    "CURL_SSLVERSION_DEFAULT" ∷ "CURL_SSLVERSION_TLSv1" ∷ "CURL_SSLVERSION_SSLv2"
    ∷ "CURL_SSLVERSION_SSLv3" ∷ "CURL_SSLVERSION_TLSv1_0" ∷ "CURL_SSLVERSION_TLSv1_1"
    ∷ "CURL_SSLVERSION_TLSv1_2" ∷ "CURL_SSLVERSION_TLSv1_3" ∷ "CURL_SSLVERSION_MAX_DEFAULT"
    ∷ "CURL_SSLVERSION_MAX_TLSv1_0" ∷ "CURL_SSLVERSION_MAX_TLSv1_1" ∷ "CURL_SSLVERSION_MAX_TLSv1_2"
    ∷ "CURL_SSLVERSION_MAX_TLSv1_3" ∷ [])

unfoldable pub http_auth_of : ℕ → String
http_auth_of = entry (
    "CURLAUTH_BASIC" ∷ "CURLAUTH_DIGEST" ∷ "CURLAUTH_DIGEST_IE" ∷ "CURLAUTH_GSSNEGOTIATE"
    ∷ "CURLAUTH_NTLM" ∷ "CURLAUTH_ANY" ∷ "CURLAUTH_ANYSAFE" ∷ "CURLAUTH_NTLM_WB" ∷ [])

-- Case 5 stands before case 4, which is joined with the default.
unfoldable pub proxy_auth_of : ℕ → String
proxy_auth_of i =
    if i == 0
    then "CURLAUTH_BASIC"
    else if i == 1
    then "CURLAUTH_DIGEST"
    else if i == 2
    then "CURLAUTH_GSSNEGOTIATE"
    else if i == 3
    then "CURLAUTH_NTLM"
    else if i == 5
    then "CURLAUTH_ANYSAFE"
    else "CURLAUTH_ANY"

unfoldable pub post_redir_of : ℕ → String
post_redir_of = entry (
    "CURL_REDIR_POST_301" ∷ "CURL_REDIR_POST_302" ∷ "CURL_REDIR_POST_303" ∷ "CURL_REDIR_POST_ALL"
    ∷ [])

unfoldable pub ip_resolve_of : ℕ → String
ip_resolve_of = entry ("CURL_IPRESOLVE_WHATEVER" ∷ "CURL_IPRESOLVE_V4" ∷ "CURL_IPRESOLVE_V6" ∷ [])

unfoldable pub ftp_ssl_auth_of : ℕ → String
ftp_ssl_auth_of = entry ("CURLFTPAUTH_DEFAULT" ∷ "CURLFTPAUTH_SSL" ∷ "CURLFTPAUTH_TLS" ∷ [])

unfoldable pub ftp_file_method_of : ℕ → String
ftp_file_method_of = entry ("1" ∷ "1" ∷ "2" ∷ "3" ∷ [])

unfoldable pub ssh_auth_types_of : ℕ → String
ssh_auth_types_of = entry (
    "CURLSSH_AUTH_PUBLICKEY" ∷ "CURLSSH_AUTH_PASSWORD" ∷ "CURLSSH_AUTH_HOST"
    ∷ "CURLSSH_AUTH_KEYBOARD" ∷ "CURLSSH_AUTH_ANY" ∷ "CURLSSH_AUTH_NONE" ∷ "CURLSSH_AUTH_AGENT"
    ∷ "CURLSSH_AUTH_DEFAULT" ∷ [])

unfoldable pub tls_auth_type_of : ℕ → String
tls_auth_type_of = entry ("CURL_TLSAUTH_NONE" ∷ "CURL_TLSAUTH_SRP" ∷ [])

unfoldable pub gss_api_delegation_of : ℕ → String
gss_api_delegation_of =
    entry ("CURLGSSAPI_DELEGATION_FLAG" ∷ "CURLGSSAPI_DELEGATION_POLICY_FLAG" ∷ [])

unfoldable pub proxy_type_of : ℕ → String
proxy_type_of = entry (
    "CURLPROXY_HTTP" ∷ "CURLPROXY_HTTP_1_0" ∷ "CURLPROXY_SOCKS4" ∷ "CURLPROXY_SOCKS4A"
    ∷ "CURLPROXY_SOCKS5" ∷ "CURLPROXY_SOCKS5_HOSTNAME" ∷ [])

unfoldable pub time_cond_of : ℕ → String
time_cond_of i = if i == 0 then "CURL_TIMECOND_IFMODSINCE" else "CURL_TIMECOND_IFUNMODSINCE"

-- TclCurl_FTPClearCommandChannelOpt and TclCurl_FTPSSLMethod of generic/ftp.c, on the index.
unfoldable pub ftp_ssl_ccc_of : ℕ → String
ftp_ssl_ccc_of =
    entry ("CURLFTPSSL_CCC_NONE" ∷ "CURLFTPSSL_CCC_PASSIVE" ∷ "CURLFTPSSL_CCC_ACTIVE" ∷ [])

unfoldable pub ftp_ssl_method_of : ℕ → String
ftp_ssl_method_of =
    entry ("CURLUSESSL_NONE" ∷ "CURLUSESSL_TRY" ∷ "CURLUSESSL_CONTROL" ∷ "CURLUSESSL_ALL" ∷ [])
