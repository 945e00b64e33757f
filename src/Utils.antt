-- ===== src/Utils.antt =====
-- TclCurl_StripSpaces and TclCurl_BuildProtocolMask of generic/curl_utils.c, which no option calls in
-- the default configuration. A C string is the list of its characters without the 0 at its end.
pub mod Strip
pub mod Words
use tclcurl_ng.Base.{
  ℕ, zero, suc, String, List, [], ◌∷◌, ◌++◌, Option, none, some, Bool, true, false, ◌||◌,
  if◌then◌else◌, get_elem?,
}
use tclcurl_ng.Api.{Tcl}
use tclcurl_ng.Options.Choices.{entry}

-- The segment that has begun, if one has.
abbrev pub close : Option (List ℕ) → List (List ℕ)
close none = []
close (some word) = word ∷ []

abbrev pub extend : Option (List ℕ) → ℕ → List ℕ
extend none c = c ∷ []
extend (some word) c = word ++ c ∷ []

-- What is left of the segment at the last character, which the second loop does not look at.
abbrev pub finish : Option (List ℕ) → ℕ → List (List ℕ)
finish none c = []
finish (some word) c = (word ++ c ∷ []) ∷ []

-- The last loop: the segments, moved together. Without a segment the string stays as it was.
unfoldable pub join : List (List ℕ) → List ℕ
join [] = []
join (word ∷ words) = word ++ join words

abbrev pub joined : List ℕ → List (List ℕ) → List ℕ
joined str [] = str
joined str (word ∷ words) = join (word ∷ words)

module _ (is_space : ℕ → Bool) where
  -- The first loop: the spaces at the start are passed over.
  unfoldable pub skip : List ℕ → List ℕ
  skip [] = []
  skip (c ∷ cs) = let rest = skip cs in if is_space c then rest else c ∷ cs

  -- The second loop, from the first character that is no space; `word` is `none` in a strand of spaces.
  unfoldable pub segments : Option (List ℕ) → List ℕ → List (List ℕ)
  segments word [] = []
  segments word (c ∷ []) = finish word c
  segments word (c ∷ d ∷ cs) =
      let cut = segments none (d ∷ cs) in
      let on = segments (some (extend word c)) (d ∷ cs) in
      if is_space c then close word ++ cut else on

  -- The second loop starts behind `end` on a string without anything but spaces: `none`.
  abbrev pub strip_from : List ℕ → List ℕ → Option (List ℕ)
  strip_from str [] = none
  strip_from str (c ∷ cs) = some (joined str (segments none (c ∷ cs)))

  -- TclCurl_StripSpaces; `none` stands for reading and writing outside the string.
  unfoldable pub strip_spaces : List ℕ → Option (List ℕ)
  strip_spaces str = strip_from str (skip str)

abbrev pub protocol_names : List String
protocol_names =
    "http" ∷ "https" ∷ "ftp" ∷ "ftps" ∷ "scp" ∷ "sftp" ∷ "telnet" ∷ "ldap" ∷ "ldaps" ∷ "dict"
    ∷ "file" ∷ "tftp" ∷ "imap" ∷ "imaps" ∷ "pop3" ∷ "pop3s" ∷ "smtp" ∷ "smtps" ∷ "rtsp" ∷ "rtmp"
    ∷ "rtmpt" ∷ "rtmpe" ∷ "rtmpte" ∷ "rtmps" ∷ "rtmpts" ∷ "gopher" ∷ "all" ∷ []

-- The cases of the switch.
abbrev pub protocol_masks : List String
protocol_masks =
    "CURLPROTO_HTTP" ∷ "CURLPROTO_HTTPS" ∷ "CURLPROTO_FTP" ∷ "CURLPROTO_FTPS" ∷ "CURLPROTO_SCP"
    ∷ "CURLPROTO_SFTP" ∷ "CURLPROTO_TELNET" ∷ "CURLPROTO_LDAP" ∷ "CURLPROTO_LDAPS"
    ∷ "CURLPROTO_DICT" ∷ "CURLPROTO_FILE" ∷ "CURLPROTO_TFTP" ∷ "CURLPROTO_IMAP" ∷ "CURLPROTO_IMAPS"
    ∷ "CURLPROTO_POP3" ∷ "CURLPROTO_POP3S" ∷ "CURLPROTO_SMTP" ∷ "CURLPROTO_SMTPS" ∷ "CURLPROTO_RTSP"
    ∷ "CURLPROTO_RTMP" ∷ "CURLPROTO_RTMPT" ∷ "CURLPROTO_RTMPE" ∷ "CURLPROTO_RTMPTE"
    ∷ "CURLPROTO_RTMPS" ∷ "CURLPROTO_RTMPTS" ∷ "CURLPROTO_GOPHER" ∷ "CURLPROTO_ALL" ∷ []

module _ (tcl : Tcl) (value : String → ℕ) (bit_or : ℕ → ℕ → ℕ) where
  -- The loop, with the mask so far. TCL_ERROR is 1.
  unfoldable pub mask_loop : ℕ → List String → ℕ
  mask_loop mask [] = mask
  mask_loop mask (o ∷ os) = elim (tcl.get_index protocol_names o) [
    | none ↦ 1
    | some i ↦ mask_loop (bit_or mask (value (entry protocol_masks i))) os
  ]

  -- TclCurl_BuildProtocolMask, with the numbers of the constants and the operator |.
  unfoldable pub build_protocol_mask : List String → ℕ
  build_protocol_mask os = mask_loop 0 os
