-- ===== src/Texts/Features.antt =====
-- The features that versioninfo names.
use tclcurl_ng.Base.{
  ◌≡◌, refl, ap, ◌∙◌, String, List, [], ◌∷◌, ◌++◌, Bool, true, false, ◌||◌, ◌&&◌, arith, str_eq,
  Bool-cases, inl, inr,
}
use tclcurl_ng.Api.{Tcl, IsTcl, words}
use tclcurl_ng.Api.Monad.{ok, object}
use tclcurl_ng.Info.{word_if}
use tclcurl_ng.Options.Table.Names.{member}
use tclcurl_ng.Texts.{
  VersionInfo, version_info_table, feature_words, version_value, curl_version_info,
}

-- The constants of libcurl with the words that versioninfo has for them.
abbrev pub feature_table : List (String × String)
feature_table =
    ("CURL_VERSION_IPV6", "IPV6")
    ∷ ("CURL_VERSION_KERBEROS4", "KERBEROS4")
    ∷ ("CURL_VERSION_SSL", "SSL")
    ∷ ("CURL_VERSION_LIBZ", "LIBZ")
    ∷ ("CURL_VERSION_NTLM", "NTLM")
    ∷ ("CURL_VERSION_GSSNEGOTIATE", "GSSNEGOTIATE")
    ∷ ("CURL_VERSION_DEBUG", "DEBUG")
    ∷ ("CURL_VERSION_ASYNCHDNS", "ASYNCHDNS")
    ∷ ("CURL_VERSION_SPNEGO", "SPNEGO")
    ∷ ("CURL_VERSION_LARGEFILE", "LARGEFILE")
    ∷ ("CURL_VERSION_IDN", "IDN")
    ∷ ("CURL_VERSION_SSPI", "SSPI")
    ∷ []

abbrev pub named : String → List String → List (String × String) → Bool
named word features [] = false
named word features ((constant, w) ∷ rest) =
    (member constant features && str_eq w word) || named word features rest

abbrev pub listed : String → List (String × String) → Bool
listed word [] = false
listed word ((constant, w) ∷ rest) = str_eq w word || listed word rest

or_left : (a b : Bool) → (a || b) ≡ false → a ≡ false
or_left true b e = e
or_left false b e = refl

or_right : (a b : Bool) → (a || b) ≡ false → b ≡ false
or_right true b e = absurd (ground arith)
or_right false b e = e

module _ (word : String) (features : List String) where
  step :
      (b : Bool) (w : String) (rest : List String) {r : Bool}
      → member word rest ≡ r
      → member word (word_if b w ++ rest) ≡ ((b && str_eq w word) || r)
  step true w rest e = ap (λ (x : Bool). str_eq w word || x) e
  step false w rest e = e

  last_step : (b : Bool) (w : String) → member word (word_if b w) ≡ ((b && str_eq w word) || false)
  last_step true w = refl
  last_step false w = refl

  feature_words-named : member word (feature_words features) ≡ named word features feature_table
  unfolding feature_words
  feature_words-named = step _ "IPV6" _ (
      step _ "KERBEROS4" _ (
        step _ "SSL" _ (
          step _ "LIBZ" _ (
            step _ "NTLM" _ (
              step _ "GSSNEGOTIATE" _ (
                step _ "DEBUG" _ (
                  step _ "ASYNCHDNS" _ (
                    step _ "SPNEGO" _
                      (step _ "LARGEFILE" _ (step _ "IDN" _ (last_step _ "SSPI")))))))))))

  named-listed :
      (table : List (String × String))
      → listed word table ≡ false
      → named word features table ≡ false
  named-listed [] e = refl
  named-listed ((constant, w) ∷ rest) e =
      let other = or_left (str_eq w word) (listed word rest) e in
      let later = named-listed rest (or_right (str_eq w word) (listed word rest) e) in
      elim (Bool-cases (member constant features)) [
        | inl set ↦ rw (set, other, later) refl
        | inr unset ↦ rw (unset, later) refl
      ]

-- `versioninfo -features`, where the search for words is exact, answers with a list that holds a word
-- exactly if a constant of the table for that word is among the features of libcurl; the word CONV is
-- never in it, whatever the features.
pub curl_version_info-features :
    (tcl : Tcl) (exact : IsTcl tcl) (info : VersionInfo)
    → (curl_version_info tcl info ("-features" ∷ [])
        ≡ (ok, object (words (feature_words info.features))))
      × ((word : String)
          → member word (feature_words info.features) ≡ named word info.features feature_table)
      × (member "CONV" (feature_words info.features) ≡ false)
unfolding curl_version_info version_value
curl_version_info-features tcl exact info = (
  rw (exact.exact version_info_table "-features") refl,
  λ word. feature_words-named word info.features,
  feature_words-named "CONV" info.features ∙ named-listed "CONV" info.features feature_table refl,
)
