-- ===== src/Options/Table/First.antt =====
-- Rows of TCLCURL_OPTION_LIST of generic/curl_setopts.h, from -url to -bodyvar.
use tclcurl_ng.Base.{List, [], ◌∷◌, none, some}
use tclcurl_ng.Options.{
  OptionDef, body_var, error_buffer, header_var, http_header_list, http_post, mute, netrc, obsolete,
  out_file, post_field_size, post_fields, post_quote_list, quote_list, read_data, setopt_char,
  setopt_int, setopt_long, ssl_version, stderr_file, time_condition, transfer_text, write_header,
}
use tclcurl_ng.Options.Table.Row.{row}

abbrev pub first_rows : List OptionDef
first_rows =
    (row "CURLOPT_URL" "-url" setopt_char "CURLOPT_URL" none)
    ∷ (row "CURLOPT_FILE" "-file" out_file "0" none)
    ∷ (row "CURLOPT_READDATA" "-infile" read_data "0" none)
    ∷ (row "CURLOPT_USERAGENT" "-useragent" setopt_char "CURLOPT_USERAGENT" none)
    ∷ (row "CURLOPT_REFERER" "-referer" setopt_char "CURLOPT_REFERER" none)
    ∷ (row "CURLOPT_VERBOSE" "-verbose" setopt_int "CURLOPT_VERBOSE" none)
    ∷ (row "CURLOPT_HEADER" "-header" setopt_int "CURLOPT_HEADER" none)
    ∷ (row "CURLOPT_NOBODY" "-nobody" setopt_int "CURLOPT_NOBODY" none)
    ∷ (row "CURLOPT_PROXY" "-proxy" setopt_char "CURLOPT_PROXY" none)
    ∷ (row "CURLOPT_PROXYPORT" "-proxyport" setopt_long "CURLOPT_PROXYPORT" none)
    ∷ (row "CURLOPT_HTTPPROXYTUNNEL" "-httpproxytunnel" setopt_int "CURLOPT_HTTPPROXYTUNNEL" none)
    ∷ (row "CURLOPT_FAILONERROR" "-failonerror" setopt_int "CURLOPT_FAILONERROR" none)
    ∷ (row "CURLOPT_TIMEOUT" "-timeout" setopt_long "CURLOPT_TIMEOUT" none)
    ∷ (row "CURLOPT_LOW_SPEED_LIMIT" "-lowspeedlimit" setopt_long "CURLOPT_LOW_SPEED_LIMIT" none)
    ∷ (row "CURLOPT_LOW_SPEED_TIME" "-lowspeedtime" setopt_long "CURLOPT_LOW_SPEED_TIME" none)
    ∷ (row "CURLOPT_RESUME_FROM" "-resumefrom" setopt_long "CURLOPT_RESUME_FROM" none)
    ∷ (row "CURLOPT_INFILESIZE" "-infilesize" setopt_long "CURLOPT_INFILESIZE" none)
    ∷ (row "CURLOPT_UPLOAD" "-upload" setopt_int "CURLOPT_UPLOAD" none)
    ∷ (row "CURLOPT_FTPLISTONLY" "-ftplistonly" setopt_int "CURLOPT_DIRLISTONLY" none)
    ∷ (row "CURLOPT_FTPAPPEND" "-ftpappend" setopt_int "CURLOPT_APPEND" none)
    ∷ (row "CURLOPT_NETRC" "-netrc" netrc "0" none)
    ∷ (row "CURLOPT_FOLLOWLOCATION" "-followlocation" setopt_int "CURLOPT_FOLLOWLOCATION" none)
    ∷ (row "CURLOPT_TRANSFERTEXT" "-transfertext" transfer_text "CURLOPT_TRANSFERTEXT" none)
    ∷ (row "CURLOPT_PUT" "-put" setopt_int "CURLOPT_UPLOAD" none)
    ∷ (row "CURLOPT_MUTE" "-mute" mute "0" none)
    ∷ (row "CURLOPT_USERPWD" "-userpwd" setopt_char "CURLOPT_USERPWD" none)
    ∷ (row "CURLOPT_PROXYUSERPWD" "-proxyuserpwd" setopt_char "CURLOPT_PROXYUSERPWD" none)
    ∷ (row "CURLOPT_RANGE" "-range" setopt_char "CURLOPT_RANGE" none)
    ∷ (row "CURLOPT_ERRORBUFFER" "-errorbuffer" error_buffer "0" none)
    ∷ (row "CURLOPT_HTTPGET" "-httpget" setopt_long "CURLOPT_HTTPGET" none)
    ∷ (row "CURLOPT_POST" "-post" setopt_int "CURLOPT_POST" none)
    ∷ (row "CURLOPT_POSTFIELDS" "-postfields" post_fields "0" none)
    ∷ (row "CURLOPT_POSTFIELDSIZE_LARGE" "-postfieldsize" post_field_size "0" none)
    ∷ (row "CURLOPT_FTPPORT" "-ftpport" setopt_char "CURLOPT_FTPPORT" none)
    ∷ (row "CURLOPT_COOKIE" "-cookie" setopt_char "CURLOPT_COOKIE" none)
    ∷ (row "CURLOPT_COOKIEFILE" "-cookiefile" setopt_char "CURLOPT_COOKIEFILE" none)
    ∷ (row "CURLOPT_HTTPHEADER" "-httpheader" http_header_list "0" none)
    ∷ (row "CURLOPT_HTTPPOST" "-httppost" http_post "0" none)
    ∷ (row "CURLOPT_SSLCERT" "-sslcert" setopt_char "CURLOPT_SSLCERT" none)
    ∷ (row "CURLOPT_SSLCERTPASSWD" "-sslcertpasswd" setopt_char "CURLOPT_SSLCERTPASSWD" none)
    ∷ (row "CURLOPT_SSLVERSION" "-sslversion" ssl_version "0" none)
    ∷ (row "CURLOPT_CRLF" "-crlf" setopt_int "CURLOPT_CRLF" none)
    ∷ (row "CURLOPT_QUOTE" "-quote" quote_list "0" none)
    ∷ (row "CURLOPT_POSTQUOTE" "-postquote" post_quote_list "0" none)
    ∷ (row "CURLOPT_WRITEHEADER" "-writeheader" write_header "0" none)
    ∷ (row "CURLOPT_TIMECONDITION" "-timecondition" time_condition "0" none)
    ∷ (row "CURLOPT_TIMEVALUE" "-timevalue" setopt_long "CURLOPT_TIMEVALUE" none)
    ∷ (row "CURLOPT_CUSTOMREQUEST" "-customrequest" setopt_char "CURLOPT_CUSTOMREQUEST" none)
    ∷ (row "CURLOPT_STDERR" "-stderr" stderr_file "0" none)
    ∷ (row "CURLOPT_INTERFACE" "-interface" setopt_char "CURLOPT_INTERFACE" none)
    ∷ (row "CURLOPT_SSL_VERIFYPEER" "-sslverifypeer" setopt_long "CURLOPT_SSL_VERIFYPEER" none)
    ∷ (row "CURLOPT_CAINFO" "-cainfo" setopt_char "CURLOPT_CAINFO" none)
    ∷ (row "CURLOPT_FILETIME" "-filetime" setopt_long "CURLOPT_FILETIME" none)
    ∷ (row "CURLOPT_MAXREDIRS" "-maxredirs" setopt_long "CURLOPT_MAXREDIRS" none)
    ∷ (row "CURLOPT_MAXCONNECTS" "-maxconnects" setopt_long "CURLOPT_MAXCONNECTS" none)
    ∷ (row "CURLOPT_CLOSEPOLICY" "-closepolicy" obsolete "0" (some "option is obsolete"))
    ∷ (row "CURLOPT_CONNECTTIMEOUT" "-connecttimeout" setopt_long "CURLOPT_CONNECTTIMEOUT" none)
    ∷ (row "CURLOPT_NOPROGRESS" "-noprogress" setopt_long "CURLOPT_NOPROGRESS" none)
    ∷ (row "CURLOPT_HEADERVAR" "-headervar" header_var "0" none)
    ∷ (row "CURLOPT_BODYVAR" "-bodyvar" body_var "0" none)
    ∷ []
