-- ===== src/Options/Table/Second.antt =====
-- Rows of TCLCURL_OPTION_LIST of generic/curl_setopts.h, from -progressproc to -ftpalternativetouser.
use tclcurl_ng.Base.{List, [], ◌∷◌, none, some}
use tclcurl_ng.Options.{
  OptionDef, cancel_trans_var_name, command, debug_proc, encoding, ftp_file_method, ftp_ssl,
  ftp_ssl_auth, http200_aliases, http_auth, http_version, ip_resolve, obsolete, prequote_list,
  progress_proc, proxy_auth, proxy_type, read_proc, setopt_char, setopt_curl_off_t, setopt_int,
  setopt_long, setopt_shandle, write_proc,
}
use tclcurl_ng.Options.Table.Row.{row}

abbrev pub second_rows : List OptionDef
second_rows =
    (row "CURLOPT_PROGRESSPROC" "-progressproc" progress_proc "0" none)
    ∷ (row "CURLOPT_CANCELTRANSVARNAME" "-canceltransvarname" cancel_trans_var_name "0" none)
    ∷ (row "CURLOPT_WRITEPROC" "-writeproc" write_proc "0" none)
    ∷ (row "CURLOPT_READPROC" "-readproc" read_proc "0" none)
    ∷ (row "CURLOPT_SSL_VERIFYHOST" "-sslverifyhost" setopt_long "CURLOPT_SSL_VERIFYHOST" none)
    ∷ (row "CURLOPT_COOKIEJAR" "-cookiejar" setopt_char "CURLOPT_COOKIEJAR" none)
    ∷ (row "CURLOPT_SSL_CIPHER_LIST" "-sslcipherlist" setopt_char "CURLOPT_SSL_CIPHER_LIST" none)
    ∷ (row "CURLOPT_HTTP_VERSION" "-httpversion" http_version "CURLOPT_HTTP_VERSION" none)
    ∷ (row "CURLOPT_FTP_USE_EPSV" "-ftpuseepsv" setopt_long "CURLOPT_FTP_USE_EPSV" none)
    ∷ (row "CURLOPT_SSLCERTTYPE" "-sslcerttype" setopt_char "CURLOPT_SSLCERTTYPE" none)
    ∷ (row "CURLOPT_SSLKEY" "-sslkey" setopt_char "CURLOPT_SSLKEY" none)
    ∷ (row "CURLOPT_SSLKEYTYPE" "-sslkeytype" setopt_char "CURLOPT_SSLKEYTYPE" none)
    ∷ (row "CURLOPT_SSLKEYPASSWD" "-sslkeypasswd" setopt_char "CURLOPT_KEYPASSWD" none)
    ∷ (row "CURLOPT_SSL_ENGINE" "-sslengine" setopt_char "CURLOPT_SSLENGINE" none)
    ∷ (row "CURLOPT_SSL_ENGINEDEFAULT" "-sslenginedefault" setopt_long "CURLOPT_SSLENGINE_DEFAULT"
        none)
    ∷ (row "CURLOPT_PREQUOTE" "-prequote" prequote_list "0" none)
    ∷ (row "CURLOPT_DEBUGPROC" "-debugproc" debug_proc "0" none)
    ∷ (row "CURLOPT_DNS_CACHE_TIMEOUT" "-dnscachetimeout" setopt_long "CURLOPT_DNS_CACHE_TIMEOUT"
        none)
    ∷ (row "CURLOPT_COOKIESESSION" "-cookiesession" setopt_long "CURLOPT_COOKIESESSION" none)
    ∷ (row "CURLOPT_CAPATH" "-capath" setopt_char "CURLOPT_CAPATH" none)
    ∷ (row "CURLOPT_BUFFERSIZE" "-buffersize" setopt_long "CURLOPT_BUFFERSIZE" none)
    ∷ (row "CURLOPT_NOSIGNAL" "-nosignal" setopt_long "CURLOPT_NOSIGNAL" none)
    ∷ (row "CURLOPT_ENCODING" "-encoding" encoding "CURLOPT_ACCEPT_ENCODING" none)
    ∷ (row "CURLOPT_PROXYTYPE" "-proxytype" proxy_type "0" none)
    ∷ (row "CURLOPT_HTTP200ALIASES" "-http200aliases" http200_aliases "0" none)
    ∷ (row "CURLOPT_UNRESTRICTED_AUTH" "-unrestrictedauth" setopt_int "CURLOPT_UNRESTRICTED_AUTH"
        none)
    ∷ (row "CURLOPT_FTP_USE_EPRT" "-ftpuseeprt" setopt_long "CURLOPT_FTP_USE_EPRT" none)
    ∷ (row "CURLOPT_NOSUCHOPTION" "-command" command "0" none)
    ∷ (row "CURLOPT_HTTPAUTH" "-httpauth" http_auth "0" none)
    ∷ (row "CURLOPT_FTP_CREATE_MISSING_DIRS" "-ftpcreatemissingdirs" setopt_long
        "CURLOPT_FTP_CREATE_MISSING_DIRS" none)
    ∷ (row "CURLOPT_PROXYAUTH" "-proxyauth" proxy_auth "0" none)
    ∷ (row "CURLOPT_FTP_RESPONSE_TIMEOUT" "-ftpresponsetimeout" setopt_long
        "CURLOPT_FTP_RESPONSE_TIMEOUT" none)
    ∷ (row "CURLOPT_IPRESOLVE" "-ipresolve" ip_resolve "0" none)
    ∷ (row "CURLOPT_MAXFILESIZE" "-maxfilesize" setopt_long "CURLOPT_MAXFILESIZE" none)
    ∷ (row "CURLOPT_NETRC_FILE" "-netrcfile" setopt_char "CURLOPT_NETRC_FILE" none)
    ∷ (row "CURLOPT_FTP_SSL" "-ftpssl" ftp_ssl "CURLOPT_USE_SSL" none)
    ∷ (row "CURLOPT_SHARE" "-share" setopt_shandle "CURLOPT_SHARE" none)
    ∷ (row "CURLOPT_PORT" "-port" setopt_long "CURLOPT_PORT" none)
    ∷ (row "CURLOPT_TCP_NODELAY" "-tcpnodelay" setopt_long "CURLOPT_TCP_NODELAY" none)
    ∷ (row "CURLOPT_AUTOREFERER" "-autoreferer" setopt_long "CURLOPT_AUTOREFERER" none)
    ∷ (row "CURLOPT_SOURCE_HOST" "-sourcehost" obsolete "0" (some "option is obsolete"))
    ∷ (row "CURLOPT_SOURCE_USERPWD" "-sourceuserpwd" obsolete "0" (some "option is obsolete"))
    ∷ (row "CURLOPT_SOURCE_PATH" "-sourcepath" obsolete "0" (some "option is obsolete"))
    ∷ (row "CURLOPT_SOURCE_PORT" "-sourceport" obsolete "0"
        (some "option is obsolete, check '-ftpport'"))
    ∷ (row "CURLOPT_PASV_HOST" "-pasvhost" obsolete "0"
        (some "option is obsolete, check '-ftpport'"))
    ∷ (row "CURLOPT_SOURCE_PREQUOTE" "-sourceprequote" obsolete "0" (some "option is obsolete"))
    ∷ (row "CURLOPT_SOURCE_POSTQUOTE" "-sourcepostquote" obsolete "0" (some "option is obsolete"))
    ∷ (row "CURLOPT_FTPSSLAUTH" "-ftpsslauth" ftp_ssl_auth "0" none)
    ∷ (row "CURLOPT_SOURCE_URL" "-sourceurl" obsolete "0" (some "option is obsolete"))
    ∷ (row "CURLOPT_SOURCE_QUOTE" "-sourcequote" obsolete "0" (some "option is obsolete"))
    ∷ (row "CURLOPT_FTP_ACCOUNT" "-ftpaccount" setopt_char "CURLOPT_FTP_ACCOUNT" none)
    ∷ (row "CURLOPT_IGNORE_CONTENT_LENGTH" "-ignorecontentlength" setopt_long
        "CURLOPT_IGNORE_CONTENT_LENGTH" none)
    ∷ (row "CURLOPT_COOKIELIST" "-cookielist" setopt_char "CURLOPT_COOKIELIST" none)
    ∷ (row "CURLOPT_FTP_SKIP_PASV_IP" "-ftpskippasvip" setopt_long "CURLOPT_FTP_SKIP_PASV_IP" none)
    ∷ (row "CURLOPT_FTP_FILEMETHOD" "-ftpfilemethod" ftp_file_method "0" none)
    ∷ (row "CURLOPT_LOCALPORT" "-localport" setopt_long "CURLOPT_LOCALPORT" none)
    ∷ (row "CURLOPT_LOCALPORTRANGE" "-localportrange" setopt_long "CURLOPT_LOCALPORTRANGE" none)
    ∷ (row "CURLOPT_MAX_SEND_SPEED_LARGE" "-maxsendspeed" setopt_curl_off_t
        "CURLOPT_MAX_SEND_SPEED_LARGE" none)
    ∷ (row "CURLOPT_MAX_RECV_SPEED_LARGE" "-maxrecvspeed" setopt_curl_off_t
        "CURLOPT_MAX_RECV_SPEED_LARGE" none)
    ∷ (row "CURLOPT_FTP_ALTERNATIVE_TO_USER" "-ftpalternativetouser" setopt_char
        "CURLOPT_FTP_ALTERNATIVE_TO_USER" none)
    ∷ []
