-- ===== src/Info.antt =====
-- The getinfo command: curlGetInfo and TclCurl_GetInfo of generic/curl_getinfo.c. What libcurl writes
-- through the last argument of curl_easy_getinfo is the parameter `infos`.
pub mod Answer
use tclcurl_ng.Base.{
  ℕ, zero, suc, String, List, [], ◌∷◌, ◌++◌, Option, none, some, Bool, true, false, ◌==◌,
  if◌then◌else◌, get_elem?, length, str_eq,
}
use tclcurl_ng.Api.{
  Tcl, Answers, Infos, Value, text, number, real, words, certificates, easy_getinfo, slist_free_all,
}
use tclcurl_ng.Api.Monad.{
  State, Status, ok, error, M, pure, ◌>>=◌, ◌>>◌, get, get_state, set_result, call, tcl_message,
  object,
}
use tclcurl_ng.Options.Table.Names.{member}

-- The type of the value that a case of the switch asks for.
pub data InfoKind : Type 0 where
  string long double wide auth slist certs : InfoKind

abbrev pub get_info_table : List String
get_info_table =
    "effectiveurl" ∷ "httpcode" ∷ "responsecode" ∷ "filetime" ∷ "totaltime" ∷ "namelookuptime"
    ∷ "connecttime" ∷ "pretransfertime" ∷ "sizeupload" ∷ "sizedownload" ∷ "speeddownload"
    ∷ "speedupload" ∷ "headersize" ∷ "requestsize" ∷ "sslverifyresult" ∷ "contentlengthdownload"
    ∷ "contentlengthupload" ∷ "starttransfertime" ∷ "contenttype" ∷ "redirecttime" ∷ "redirectcount"
    ∷ "httpauthavail" ∷ "proxyauthavail" ∷ "oserrno" ∷ "numconnects" ∷ "sslengines"
    ∷ "httpconnectcode" ∷ "cookielist" ∷ "ftpentrypath" ∷ "redirecturl" ∷ "primaryip"
    ∷ "appconnecttime" ∷ "certinfo" ∷ "conditionunmet" ∷ "primaryport" ∷ "localip" ∷ "localport"
    ∷ []

-- The cases of the switch, in the order of the enumeration.
abbrev pub info_cases : List (InfoKind × String)
info_cases =
    (string, "CURLINFO_EFFECTIVE_URL")
    ∷ (long, "CURLINFO_RESPONSE_CODE")
    ∷ (long, "CURLINFO_RESPONSE_CODE")
    ∷ (long, "CURLINFO_FILETIME")
    ∷ (double, "CURLINFO_TOTAL_TIME")
    ∷ (double, "CURLINFO_NAMELOOKUP_TIME")
    ∷ (double, "CURLINFO_CONNECT_TIME")
    ∷ (double, "CURLINFO_PRETRANSFER_TIME")
    ∷ (wide, "CURLINFO_SIZE_UPLOAD_T")
    ∷ (wide, "CURLINFO_SIZE_DOWNLOAD_T")
    ∷ (wide, "CURLINFO_SPEED_DOWNLOAD_T")
    ∷ (wide, "CURLINFO_SPEED_UPLOAD_T")
    ∷ (long, "CURLINFO_HEADER_SIZE")
    ∷ (long, "CURLINFO_REQUEST_SIZE")
    ∷ (long, "CURLINFO_SSL_VERIFYRESULT")
    ∷ (wide, "CURLINFO_CONTENT_LENGTH_DOWNLOAD_T")
    ∷ (wide, "CURLINFO_CONTENT_LENGTH_UPLOAD_T")
    ∷ (double, "CURLINFO_STARTTRANSFER_TIME")
    ∷ (string, "CURLINFO_CONTENT_TYPE")
    ∷ (double, "CURLINFO_REDIRECT_TIME")
    ∷ (long, "CURLINFO_REDIRECT_COUNT")
    ∷ (auth, "CURLINFO_HTTPAUTH_AVAIL")
    ∷ (auth, "CURLINFO_PROXYAUTH_AVAIL")
    ∷ (long, "CURLINFO_OS_ERRNO")
    ∷ (long, "CURLINFO_NUM_CONNECTS")
    ∷ (slist, "CURLINFO_SSL_ENGINES")
    ∷ (long, "CURLINFO_HTTP_CONNECTCODE")
    ∷ (slist, "CURLINFO_COOKIELIST")
    ∷ (string, "CURLINFO_FTP_ENTRY_PATH")
    ∷ (string, "CURLINFO_REDIRECT_URL")
    ∷ (string, "CURLINFO_PRIMARY_IP")
    ∷ (double, "CURLINFO_APPCONNECT_TIME")
    ∷ (certs, "CURLINFO_CERTINFO")
    ∷ (long, "CURLINFO_CONDITION_UNMET")
    ∷ (long, "CURLINFO_PRIMARY_PORT")
    ∷ (string, "CURLINFO_LOCAL_IP")
    ∷ (long, "CURLINFO_LOCAL_PORT")
    ∷ []

abbrev pub text_of : Option String → String
text_of none = ""
text_of (some s) = s

abbrev pub word_if : Bool → String → List String
word_if true word = word ∷ []
word_if false word = []

-- The words of the authentication methods whose bits are set.
abbrev pub auth_words : List String → List String
auth_words mask =
    word_if (member "CURLAUTH_BASIC" mask) "basic"
    ++ (word_if (member "CURLAUTH_DIGEST" mask) "digest"
        ++ (word_if (member "CURLAUTH_GSSNEGOTIATE" mask) "gssnegotiate"
            ++ word_if (member "CURLAUTH_NTLM" mask) "NTLM"))

-- The two loops on the certificates.
unfoldable pub append_certs : List (List String) → List String
append_certs [] = []
append_certs (lines ∷ rest) = lines ++ append_certs rest

module _ (ask : Answers) (infos : Infos) where
  -- What a case does with the value that libcurl has written.
  unfoldable pub read_info : InfoKind → M Value
  read_info string = do s ← get_state; pure (text (text_of (infos.char_ptr s.calls)))
  read_info long = do s ← get_state; pure (number (infos.long_number s.calls))
  read_info double = do s ← get_state; pure (real (infos.double_number s.calls))
  read_info wide = do s ← get_state; pure (number (infos.curl_off_t s.calls))
  read_info auth = do s ← get_state; pure (words (auth_words (infos.mask s.calls)))
  read_info slist = do
    s ← get_state
    let list = infos.slist_ptr s.calls
    call ask (slist_free_all list)
    pure (words list)
  read_info certs = do
    s ← get_state
    let list = infos.certinfo s.calls
    pure (certificates (length list) (append_certs list))

  -- curlGetInfo; `none` is NULL.
  unfoldable pub get_info_case : Option (InfoKind × String) → M (Option Value)
  get_info_case none = pure none
  get_info_case (some (kind, opt)) = do
    d ← get
    code ← call ask (easy_getinfo d.curl opt)
    if code == 0 then (do v ← read_info kind; pure (some v)) else pure none

module _ (tcl : Tcl) (ask : Answers) (infos : Infos) where
  unfoldable pub get_info_at : Option ℕ → M (Option Value)
  get_info_at none = do set_result tcl_message; pure none
  get_info_at (some i) = get_info_case ask infos (get_elem? info_cases i)

  -- TclCurl_GetInfo
  unfoldable pub get_info : String → M (Option Value)
  get_info word = get_info_at (tcl.get_index get_info_table word)
