-- ===== src/Mime/Transfer.antt =====
-- TclCurl_SetPostData and TclCurl_ResetPostData of generic/curl_mime.c.
use tclcurl_ng.Base.{
  ℤ, pos, negsuc, String, Option, none, some, Bool, true, false, ◌==◌, if◌then◌else◌,
}
use tclcurl_ng.Api.{Answers, tcl_free, mime_free, int, text, null, pointer}
use tclcurl_ng.Api.Monad.{
  Status, ok, error, M, pure, ◌>>=◌, ◌>>◌, get, modify, call, set_result, literal,
}
use tclcurl_ng.Options.{setopt}

abbrev pub is_nonnegative : ℤ → Bool
is_nonnegative (pos n) = true
is_nonnegative (negsuc n) = false

module _ (ask : Answers) where
  abbrev pub post_error : String → M Status
  post_error message = do set_result (literal message); pure error

  unfoldable pub set_mime : M Status
  set_mime = do
    d ← get
    if d.mime == 0 then pure ok else (do
      code ← setopt ask "CURLOPT_MIMEPOST" (pointer d.mime)
      if code == 0 then pure ok else (do
        call ask (mime_free d.mime)
        modify λ d. record d { mime = 0 }
        post_error "Error setting the data to post"))

  unfoldable pub set_fields : String → M Status
  set_fields fields = do
    code ← setopt ask "CURLOPT_COPYPOSTFIELDS" (text fields)
    if code == 0 then set_mime else post_error "Error setting the data to post"

  unfoldable pub set_post : Option String → ℤ → M Status
  set_post none size = set_mime
  set_post (some fields) size =
      if is_nonnegative size
      then (do
        code ← setopt ask "CURLOPT_POSTFIELDSIZE_LARGE" (int size)
        if code == 0 then set_fields fields else post_error "Error setting POST field size")
      else set_fields fields

  -- TclCurl_SetPostData
  unfoldable pub set_post_data : M Status
  set_post_data = do d ← get; set_post d.post_fields d.post_field_size

  -- TclCurl_ResetPostData
  unfoldable pub reset_post_data : M (Unit {0})
  reset_post_data = do
    d ← get
    call ask (tcl_free d.post_fields)
    modify λ d. record d { post_fields = none; post_field_size = negsuc 0 }
    setopt ask "CURLOPT_COPYPOSTFIELDS" null
    setopt ask "CURLOPT_POSTFIELDSIZE_LARGE" (int (negsuc 0))
    if d.mime == 0
        then pure tt
        else (do call ask (mime_free d.mime); modify λ d. record d { mime = 0 })
    setopt ask "CURLOPT_MIMEPOST" null
    pure tt
