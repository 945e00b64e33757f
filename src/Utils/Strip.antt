-- ===== src/Utils/Strip.antt =====
-- What TclCurl_StripSpaces leaves of a string.
use tclcurl_ng.Base.{
  ℕ, suc, ◌+◌, ◌≤◌, ◌≡◌, ◌⊎◌, refl, ap, List, [], ◌∷◌, ◌++◌, Option, none, some, Bool, true, false,
  arith, if◌then◌else◌, length, length-append, Bool-cases, inl, inr,
}
use tclcurl_ng.Utils.{skip, close, extend, finish, segments, join, joined, strip_spaces}

abbrev pub all_spaces : (ℕ → Bool) → List ℕ → Bool
all_spaces is_space [] = true
all_spaces is_space (c ∷ cs) = if is_space c then all_spaces is_space cs else false

abbrev pub begun : Option (List ℕ) → ℕ
begun none = 0
begun (some word) = 1

abbrev pub length_of : Option (List ℕ) → ℕ
length_of none = 0
length_of (some word) = length word

close-length : (word : Option (List ℕ)) → length (close word) ≡ begun word
close-length none = refl
close-length (some word) = refl

join-close :
    (word : Option (List ℕ)) (words : List (List ℕ))
    → length (join (close word ++ words)) ≡ length_of word + length (join words)
unfolding join
join-close none words = omega arith
join-close (some word) words = length-append word (join words)

extend-length : (word : Option (List ℕ)) (c : ℕ) → length (extend word c) ≡ suc (length_of word)
extend-length none c = refl
extend-length (some word) c = omega (arith, length-append word (c ∷ []))

finish-few : (word : Option (List ℕ)) (c : ℕ) → length (finish word c) ≤ 1
finish-few none c = omega arith
finish-few (some word) c = omega arith

finish-short :
    (word : Option (List ℕ)) (c : ℕ) → length (join (finish word c)) ≤ suc (length_of word)
unfolding join
finish-short none c = omega arith
finish-short (some word) c =
    omega (arith, length-append word (c ∷ []), length-append (word ++ c ∷ []) [])

module _ (is_space : ℕ → Bool) where
  skip-all : (str : List ℕ) → skip is_space str ≡ [] → all_spaces is_space str ≡ true
  unfolding skip
  skip-all [] e = refl
  skip-all (c ∷ cs) e = elim (Bool-cases (is_space c)) [
    | inl space ↦ ground (arith, space, skip-all cs)
    | inr other ↦ ground (arith, other)
  ]

  skip-some : (str : List ℕ) → all_spaces is_space str ≡ true → skip is_space str ≡ []
  unfolding skip
  skip-some [] e = refl
  skip-some (c ∷ cs) e = elim (Bool-cases (is_space c)) [
    | inl space ↦ ground (arith, space, skip-some cs)
    | inr other ↦ ground (arith, other)
  ]

  skip-shorter : (str : List ℕ) → length (skip is_space str) ≤ length str
  unfolding skip
  skip-shorter [] = omega arith
  skip-shorter (c ∷ cs) = elim (Bool-cases (is_space c)) [
    | inl space ↦ rw space (omega (arith, skip-shorter cs))
    | inr other ↦ rw other (omega arith)
  ]

  segments-few :
      (word : Option (List ℕ)) (cs : List ℕ)
      → length (segments is_space word cs) ≤ begun word + length cs
  unfolding segments
  segments-few word [] = omega arith
  segments-few word (c ∷ []) = omega (arith, finish-few word c)
  segments-few word (c ∷ d ∷ cs) = elim (Bool-cases (is_space c)) [
    | inl space ↦
        let cut = segments is_space none (d ∷ cs) in
        rw space (
          omega
            (arith, length-append (close word) cut, close-length word, segments-few none (d ∷ cs)))
    | inr other ↦ rw other (omega (arith, segments-few (some (extend word c)) (d ∷ cs)))
  ]

  segments-short :
      (word : Option (List ℕ)) (cs : List ℕ)
      → length (join (segments is_space word cs)) ≤ length_of word + length cs
  unfolding segments join
  segments-short word [] = omega arith
  segments-short word (c ∷ []) = omega (arith, finish-short word c)
  segments-short word (c ∷ d ∷ cs) = elim (Bool-cases (is_space c)) [
    | inl space ↦
        let cut = segments is_space none (d ∷ cs) in
        rw space (omega (arith, join-close word cut, segments-short none (d ∷ cs)))
    | inr other ↦
        rw other
          (omega (arith, extend-length word c, segments-short (some (extend word c)) (d ∷ cs)))
  ]

  joined-short :
      (str : List ℕ) (words : List (List ℕ))
      → length (join words) ≤ length str
      → length (joined str words) ≤ length str
  joined-short str [] h = omega arith
  joined-short str (word ∷ words) h = h

-- What TclCurl_StripSpaces does with its memory: it goes out of the string, or it needs room for no
-- more segments than the string has characters, and leaves no more characters than there were.
pub record InBounds (is_space : ℕ → Bool) (str : List ℕ) : Type 0 where
  pub result : List ℕ
  pub run : strip_spaces is_space str ≡ some result
  pub few_segments : length (segments is_space none (skip is_space str)) ≤ length str
  pub no_longer : length result ≤ length str

module _ (is_space : ℕ → Bool) (str : List ℕ) where
  stripped :
      (rest : List ℕ)
      → skip is_space str ≡ rest
      → ((strip_spaces is_space str ≡ none) × (all_spaces is_space str ≡ true))
        ⊎ (InBounds is_space str × (all_spaces is_space str ≡ false))
  unfolding strip_spaces
  stripped [] e = rw e (inl (refl, skip-all is_space str e))
  stripped (c ∷ cs) e =
      let words = segments is_space none (c ∷ cs) in
      let short = ap length e in
      let bound = skip-shorter is_space str in
      let few = segments-few is_space none (c ∷ cs) in
      inr (
        record {
          result = joined str words;
          run = rw e refl;
          few_segments = rw e (omega (arith, few, short, bound));
          no_longer =
              joined-short is_space str words
                (omega (arith, segments-short is_space none (c ∷ cs), short, bound));
        },
        elim (Bool-cases (all_spaces is_space str)) [
          | inl all ↦ absurd (ground (arith, skip-some is_space str all, e))
          | inr some_other ↦ some_other
        ],
      )

  -- TclCurl_StripSpaces stays in the string exactly if it has a character that is no space; then the
  -- segments fit in the array that it allocates, one place for each character, and the result is no
  -- longer than the string.
  pub strip_spaces-InBounds :
      ((strip_spaces is_space str ≡ none) × (all_spaces is_space str ≡ true))
      ⊎ (InBounds is_space str × (all_spaces is_space str ≡ false))
  strip_spaces-InBounds = stripped (skip is_space str) refl
