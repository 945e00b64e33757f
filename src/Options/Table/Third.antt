-- ===== src/Options/Table/Third.antt =====
-- Rows of TCLCURL_OPTION_LIST of generic/curl_setopts.h, from -sslsessionidcache to -cainfoblob.
use tclcurl_ng.Base.{List, [], ◌∷◌, none}
use tclcurl_ng.Options.{
  OptionDef, cainfo_blob, chunk_bgn_proc, chunk_bgn_var, chunk_end_proc, fnmatch_proc, ftp_ssl,
  ftp_ssl_ccc, gss_api_delegation, mail_rcpt, post_redir, protocol_mask, resolve_list, setopt_char,
  setopt_int, setopt_long, ssh_auth_types, ssh_key_function, telnet_options, tls_auth_type,
}
use tclcurl_ng.Options.Table.Row.{row}

abbrev pub third_rows : List OptionDef
third_rows =
    (row "CURLOPT_SSL_SESSIONID_CACHE" "-sslsessionidcache" setopt_long
      "CURLOPT_SSL_SESSIONID_CACHE" none)
    ∷ (row "CURLOPT_SSH_AUTH_TYPES" "-sshauthtypes" ssh_auth_types "0" none)
    ∷ (row "CURLOPT_SSH_PUBLIC_KEYFILE" "-sshpublickeyfile" setopt_char "CURLOPT_SSH_PUBLIC_KEYFILE"
        none)
    ∷ (row "CURLOPT_SSH_PRIVATE_KEYFILE" "-sshprivatekeyfile" setopt_char
        "CURLOPT_SSH_PRIVATE_KEYFILE" none)
    ∷ (row "CURLOPT_TIMEOUT_MS" "-timeoutms" setopt_long "CURLOPT_TIMEOUT_MS" none)
    ∷ (row "CURLOPT_CONNECTTIMEOUT_MS" "-connecttimeoutms" setopt_long "CURLOPT_CONNECTTIMEOUT_MS"
        none)
    ∷ (row "CURLOPT_HTTP_CONTENT_DECODING" "-contentdecoding" setopt_long
        "CURLOPT_HTTP_CONTENT_DECODING" none)
    ∷ (row "CURLOPT_HTTP_TRANSFER_DECODING" "-transferdecoding" setopt_long
        "CURLOPT_HTTP_TRANSFER_DECODING" none)
    ∷ (row "CURLOPT_NEW_FILE_PERMS" "-newfileperms" setopt_long "CURLOPT_NEW_FILE_PERMS" none)
    ∷ (row "CURLOPT_NEW_DIRECTORY_PERMS" "-newdirectoryperms" setopt_long
        "CURLOPT_NEW_DIRECTORY_PERMS" none)
    ∷ (row "CURLOPT_KEYPASSWD" "-keypasswd" setopt_char "CURLOPT_KEYPASSWD" none)
    ∷ (row "CURLOPT_APPEND" "-append" setopt_int "CURLOPT_APPEND" none)
    ∷ (row "CURLOPT_DIRLISTONLY" "-dirlistonly" setopt_int "CURLOPT_DIRLISTONLY" none)
    ∷ (row "CURLOPT_USE_SSL" "-usessl" ftp_ssl "CURLOPT_USE_SSL" none)
    ∷ (row "CURLOPT_POST301" "-post301" post_redir "0" none)
    ∷ (row "CURLOPT_SSH_HOST_PUBLIC_KEY_MD5" "-sshhostpublickeymd5" setopt_char
        "CURLOPT_SSH_HOST_PUBLIC_KEY_MD5" none)
    ∷ (row "CURLOPT_PROXY_TRANSFER_MODE" "-proxytransfermode" setopt_long
        "CURLOPT_PROXY_TRANSFER_MODE" none)
    ∷ (row "CURLOPT_CRLFILE" "-crlfile" setopt_char "CURLOPT_CRLFILE" none)
    ∷ (row "CURLOPT_ISSUERCERT" "-issuercert" setopt_char "CURLOPT_ISSUERCERT" none)
    ∷ (row "CURLOPT_ADDRESS_SCOPE" "-addressscope" setopt_long "CURLOPT_ADDRESS_SCOPE" none)
    ∷ (row "CURLOPT_CERTINFO" "-certinfo" setopt_long "CURLOPT_CERTINFO" none)
    ∷ (row "CURLOPT_POSTREDIR" "-postredir" post_redir "0" none)
    ∷ (row "CURLOPT_USERNAME" "-username" setopt_char "CURLOPT_USERNAME" none)
    ∷ (row "CURLOPT_PASSWORD" "-password" setopt_char "CURLOPT_PASSWORD" none)
    ∷ (row "CURLOPT_PROXYUSERNAME" "-proxyuser" setopt_char "CURLOPT_PROXYUSERNAME" none)
    ∷ (row "CURLOPT_PROXYPASSWORD" "-proxypassword" setopt_char "CURLOPT_PROXYPASSWORD" none)
    ∷ (row "CURLOPT_TFTP_BLKSIZE" "-tftpblksize" setopt_long "CURLOPT_TFTP_BLKSIZE" none)
    ∷ (row "CURLOPT_PROXY_SERVICE_NAME" "-socks5gssapiservice" setopt_char
        "CURLOPT_PROXY_SERVICE_NAME" none)
    ∷ (row "CURLOPT_SOCKS5_GSSAPI_NEC" "-socks5gssapinec" setopt_long "CURLOPT_SOCKS5_GSSAPI_NEC"
        none)
    ∷ (row "CURLOPT_PROTOCOLS_STR" "-protocols" protocol_mask "CURLOPT_PROTOCOLS_STR" none)
    ∷ (row "CURLOPT_REDIR_PROTOCOLS_STR" "-redirprotocols" protocol_mask
        "CURLOPT_REDIR_PROTOCOLS_STR" none)
    ∷ (row "CURLOPT_FTP_SSL_CCC" "-ftpsslccc" ftp_ssl_ccc "0" none)
    ∷ (row "CURLOPT_SSH_KNOWNHOSTS" "-sshknownhosts" setopt_char "CURLOPT_SSH_KNOWNHOSTS" none)
    ∷ (row "CURLOPT_SSH_KEYFUNCTION" "-sshkeyproc" ssh_key_function "0" none)
    ∷ (row "CURLOPT_MAIL_FROM" "-mailfrom" setopt_char "CURLOPT_MAIL_FROM" none)
    ∷ (row "CURLOPT_MAIL_RCPT" "-mailrcpt" mail_rcpt "0" none)
    ∷ (row "CURLOPT_FTP_USE_PRET" "-ftpusepret" setopt_long "CURLOPT_FTP_USE_PRET" none)
    ∷ (row "CURLOPT_WILDCARDMATCH" "-wildcardmatch" setopt_long "CURLOPT_WILDCARDMATCH" none)
    ∷ (row "CURLOPT_CHUNK_BGN_PROC" "-chunkbgnproc" chunk_bgn_proc "0" none)
    ∷ (row "CURLOPT_CHUNK_BGN_VAR" "-chunkbgnvar" chunk_bgn_var "0" none)
    ∷ (row "CURLOPT_CHUNK_END_PROC" "-chunkendproc" chunk_end_proc "0" none)
    ∷ (row "CURLOPT_FNMATCH_PROC" "-fnmatchproc" fnmatch_proc "0" none)
    ∷ (row "CURLOPT_RESOLVE" "-resolve" resolve_list "0" none)
    ∷ (row "CURLOPT_TLSAUTH_USERNAME" "-tlsauthusername" setopt_char "CURLOPT_TLSAUTH_USERNAME"
        none)
    ∷ (row "CURLOPT_TLSAUTH_PASSWORD" "-tlsauthpassword" setopt_char "CURLOPT_TLSAUTH_PASSWORD"
        none)
    ∷ (row "CURLOPT_TLSAUTH_TYPE" "-tlsauthtype" tls_auth_type "0" none)
    ∷ (row "CURLOPT_TRANSFER_ENCODING" "-transferencoding" setopt_long "CURLOPT_TRANSFER_ENCODING"
        none)
    ∷ (row "CURLOPT_GSSAPI_DELEGATION" "-gssapidelegation" gss_api_delegation "0" none)
    ∷ (row "CURLOPT_NOPROXY" "-noproxy" setopt_char "CURLOPT_NOPROXY" none)
    ∷ (row "CURLOPT_TELNETOPTIONS" "-telnetoptions" telnet_options "0" none)
    ∷ (row "CURLOPT_CAINFO_BLOB" "-cainfoblob" cainfo_blob "0" none)
    ∷ []
