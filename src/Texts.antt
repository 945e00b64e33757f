-- ===== src/Texts.antt =====
-- The commands of generic/tclcurl.c that answer with texts of libcurl: curlVersion, curlEscape,
-- curlUnescape, curlVersionInfo and the three commands that explain an error code. A command is a
-- function from its words to what it returns and leaves as its result; libcurl's texts are parameters.
pub mod Features
use tclcurl_ng.Base.{
  ℕ, ℤ, zero, suc, ◌≡◌, refl, sym, ap, ◌∙◌, ◌↔◌, ◌⊎◌, inl, inr, String, List, [], ◌∷◌, ◌++◌, Option,
  none, some, Bool, true, false, ◌||◌, arith, str_eq, Bool-cases, Option-cases,
}
use tclcurl_ng.Api.{Tcl, Value, text, number, words}
use tclcurl_ng.Api.Monad.{
  Status, ok, error, fault, Message, object, literal, tcl_message, wrong_num_args,
}
use tclcurl_ng.Info.{word_if, text_of}
use tclcurl_ng.Options.Table.Names.{member}

abbrev pub Answer : Type 0
Answer = Status × Message

abbrev pub fails : Message → Answer
fails message = (error, message)

abbrev pub says : Value → Answer
says value = (ok, object value)

-- curlVersion; `obj_printf` is Tcl_ObjPrintf with the words that it inserts.
unfoldable pub curl_version :
    (obj_printf : String → List String → String) → (tclcurl libcurl : String) → Answer
curl_version obj_printf tclcurl libcurl =
    says (text (obj_printf "TclCurl Version %s (%s)" (tclcurl ∷ libcurl ∷ [])))

abbrev pub or_bad_parameter : String → Option String → Answer
or_bad_parameter message none = fails (literal message)
or_bad_parameter message (some s) = says (text s)

-- curlEscape; the word is read without a check that there is one.
unfoldable pub curl_escape : (easy_escape : String → Option String) → List String → Answer
curl_escape easy_escape [] = (fault, tcl_message)
curl_escape easy_escape (o ∷ os) = or_bad_parameter "curl::escape bad parameter" (easy_escape o)

-- curlUnescape
unfoldable pub curl_unescape : (easy_unescape : String → Option String) → List String → Answer
curl_unescape easy_unescape [] = (fault, tcl_message)
curl_unescape easy_unescape (o ∷ os) =
    or_bad_parameter "curl::unescape bad parameter" (easy_unescape o)

-- What curl_version_info tells: `features` are the names of the constants whose bits are set, and
-- `version_num` is printed with %X.
pub record VersionInfo : Type 0 where
  pub version : Option String
  pub version_num : String
  pub host : Option String
  pub features : List String
  pub ssl_version : Option String
  pub ssl_version_num : ℤ
  pub libz_version : Option String
  pub protocols : List String

abbrev pub version_info_table : List String
version_info_table =
    "-version" ∷ "-versionnum" ∷ "-host" ∷ "-features" ∷ "-sslversion" ∷ "-sslversionnum"
    ∷ "-libzversion" ∷ "-protocols" ∷ []

-- Case 3; the test of CURL_VERSION_CONV stands behind its `break`.
unfoldable pub feature_words : List String → List String
feature_words features =
    word_if (member "CURL_VERSION_IPV6" features) "IPV6"
    ++ (word_if (member "CURL_VERSION_KERBEROS4" features) "KERBEROS4"
        ++ (word_if (member "CURL_VERSION_SSL" features) "SSL"
            ++ (word_if (member "CURL_VERSION_LIBZ" features) "LIBZ"
                ++ (word_if (member "CURL_VERSION_NTLM" features) "NTLM"
                    ++ (word_if (member "CURL_VERSION_GSSNEGOTIATE" features) "GSSNEGOTIATE"
                        ++ (word_if (member "CURL_VERSION_DEBUG" features) "DEBUG"
                            ++ (word_if (member "CURL_VERSION_ASYNCHDNS" features) "ASYNCHDNS"
                                ++ (word_if (member "CURL_VERSION_SPNEGO" features) "SPNEGO"
                                    ++ (word_if (member "CURL_VERSION_LARGEFILE" features)
                                          "LARGEFILE"
                                        ++ (word_if (member "CURL_VERSION_IDN" features) "IDN"
                                            ++ word_if (member "CURL_VERSION_SSPI" features)
                                                "SSPI"))))))))))

-- The switch
unfoldable pub version_value : VersionInfo → ℕ → Value
version_value info zero = text (text_of info.version)
version_value info (suc zero) = text info.version_num
version_value info (suc (suc zero)) = text (text_of info.host)
version_value info (suc (suc (suc zero))) = words (feature_words info.features)
version_value info (suc (suc (suc (suc zero)))) = text (text_of info.ssl_version)
version_value info (suc (suc (suc (suc (suc zero))))) = number info.ssl_version_num
version_value info (suc (suc (suc (suc (suc (suc zero)))))) = text (text_of info.libz_version)
version_value info (suc (suc (suc (suc (suc (suc (suc i))))))) = words info.protocols

abbrev pub version_at : VersionInfo → Option ℕ → Answer
version_at info none = fails tcl_message
version_at info (some i) = says (version_value info i)

-- curlVersionInfo
unfoldable pub curl_version_info : Tcl → VersionInfo → List String → Answer
curl_version_info tcl info (o ∷ []) = version_at info (tcl.get_index version_info_table o)
curl_version_info tcl info os = fails (literal "usage: curl::versioninfo -option")

-- Which of the three functions explains the code.
pub data ErrorType : Type 0 where
  easy share multi : ErrorType

module _ (tcl : Tcl) (strerror : ErrorType → ℤ → String)
    (obj_printf : String → List String → String) where
  -- curlErrorStrings; the int that it returns is 1 for an error.
  unfoldable pub error_strings : ErrorType → String → Answer
  error_strings type o = elim (tcl.get_int o) [
    | none ↦ fails (literal (obj_printf "Invalid error code: %s" (o ∷ [])))
    | some code ↦ says (text (strerror type code))
  ]

  abbrev pub string_error : ErrorType → List String → Answer
  string_error type [] = fails (wrong_num_args "errorCode")
  string_error type (o ∷ os) = error_strings type o

  -- curlEasyStringError, curlShareStringError and curlMultiStringError
  unfoldable pub easy_string_error : List String → Answer
  easy_string_error = string_error easy

  unfoldable pub share_string_error : List String → Answer
  share_string_error = string_error share

  unfoldable pub multi_string_error : List String → Answer
  multi_string_error = string_error multi
