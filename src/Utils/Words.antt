-- ===== src/Utils/Words.antt =====
-- When TclCurl_StripSpaces strips the spaces and nothing else.
use tclcurl_ng.Base.{
  ℕ, ◌≡◌, ◌≢◌, refl, sym, ap, ◌∙◌, List, [], ◌∷◌, ◌++◌, Option, none, some, Bool, true, false, not,
  ◌&&◌, arith, if◌then◌else◌, Bool-cases, inl, inr,
}
use tclcurl_ng.Utils.{skip, close, extend, finish, segments, join, joined, strip_from, strip_spaces}

abbrev pub visible : (ℕ → Bool) → List ℕ → List ℕ
visible is_space [] = []
visible is_space (c ∷ cs) = if is_space c then visible is_space cs else c ∷ visible is_space cs

-- The last two characters are there and are no spaces.
abbrev pub ends_well : (ℕ → Bool) → List ℕ → Bool
ends_well is_space [] = false
ends_well is_space (c ∷ []) = false
ends_well is_space (c ∷ d ∷ []) = not (is_space c) && not (is_space d)
ends_well is_space (c ∷ d ∷ e ∷ cs) = ends_well is_space (d ∷ e ∷ cs)

abbrev content : Option (List ℕ) → List ℕ
content none = []
content (some word) = word

append-nil : (xs : List ℕ) → xs ++ [] ≡ xs
append-nil [] = refl
append-nil (x ∷ xs) = ap (λ (l : List ℕ). x ∷ l) (append-nil xs)

append_assoc : (xs ys zs : List ℕ) → (xs ++ ys) ++ zs ≡ xs ++ (ys ++ zs)
append_assoc [] ys zs = refl
append_assoc (x ∷ xs) ys zs = ap (λ (l : List ℕ). x ∷ l) (append_assoc xs ys zs)

join-close :
    (word : Option (List ℕ)) (words : List (List ℕ))
    → join (close word ++ words) ≡ content word ++ join words
unfolding join
join-close none words = refl
join-close (some word) words = refl

content-extend :
    (word : Option (List ℕ)) (c : ℕ) (l : List ℕ)
    → content (some (extend word c)) ++ l ≡ content word ++ (c ∷ l)
content-extend none c l = refl
content-extend (some word) c l = append_assoc word (c ∷ []) l

join-finish :
    (word : Option (List ℕ)) (c d : ℕ)
    → join (finish (some (extend word c)) d) ≡ content word ++ (c ∷ d ∷ [])
unfolding join
join-finish word c d = append-nil (extend word c ++ d ∷ []) ∙ content-extend word c (d ∷ [])

module _ (is_space : ℕ → Bool) where
  pair :
      (c d : ℕ)
      → ends_well is_space (c ∷ d ∷ []) ≡ true
      → (is_space c ≡ false) × (is_space d ≡ false)
  pair c d e = ground arith

  segments-visible :
      (word : Option (List ℕ)) (cs : List ℕ)
      → ends_well is_space cs ≡ true
      → join (segments is_space word cs) ≡ content word ++ visible is_space cs
  unfolding segments
  segments-visible word [] e = ground arith
  segments-visible word (c ∷ []) e = ground arith
  segments-visible word (c ∷ d ∷ []) e =
      let (first, second) = pair c d e in rw (first, second) (join-finish word c d)
  segments-visible word (c ∷ d ∷ e ∷ cs) well = elim (Bool-cases (is_space c)) [
    | inl space ↦
        let cut = segments is_space none (d ∷ e ∷ cs) in
        rw space (
          join-close word cut
          ∙ ap (λ (l : List ℕ). content word ++ l) (segments-visible none (d ∷ e ∷ cs) well))
    | inr other ↦ rw other (
        segments-visible (some (extend word c)) (d ∷ e ∷ cs) well
        ∙ content-extend word c (visible is_space (d ∷ e ∷ cs)))
  ]

  skip-visible : (str : List ℕ) → visible is_space (skip is_space str) ≡ visible is_space str
  unfolding skip
  skip-visible [] = refl
  skip-visible (c ∷ cs) = elim (Bool-cases (is_space c)) [
    | inl space ↦ rw space (skip-visible cs)
    | inr other ↦ rw (other, other) refl
  ]

  skip-ends_well :
      (str : List ℕ) → ends_well is_space str ≡ true → ends_well is_space (skip is_space str) ≡ true
  unfolding skip
  skip-ends_well [] e = e
  skip-ends_well (c ∷ []) e = ground arith
  skip-ends_well (c ∷ d ∷ []) e = let (first, second) = pair c d e in rw (first, first, second) refl
  skip-ends_well (c ∷ d ∷ e ∷ cs) well = elim (Bool-cases (is_space c)) [
    | inl space ↦ rw space (skip-ends_well (d ∷ e ∷ cs) well)
    | inr other ↦ rw other well
  ]

  joined-visible :
      (str : List ℕ) (words : List (List ℕ)) (cs : List ℕ)
      → ends_well is_space cs ≡ true
      → join words ≡ visible is_space cs
      → joined str words ≡ visible is_space cs
  unfolding join
  joined-visible str [] cs well e = absurd (nonempty cs well (sym e))
    where
      nonempty : (cs : List ℕ) → ends_well is_space cs ≡ true → visible is_space cs ≢ []
      nonempty [] well e = ground arith
      nonempty (c ∷ []) well e = ground arith
      nonempty (c ∷ d ∷ []) well e = ground arith
      nonempty (c ∷ d ∷ f ∷ cs) well e = elim (Bool-cases (is_space c)) [
        | inl space ↦ nonempty (d ∷ f ∷ cs) well (ground arith)
        | inr other ↦ ground arith
      ]
  joined-visible str (word ∷ words) cs well e = e

  from :
      (str rest : List ℕ)
      → ends_well is_space rest ≡ true
      → strip_from is_space str rest ≡ some (visible is_space rest)
  from str [] well = ground arith
  from str (c ∷ cs) well = ap some (
      joined-visible str (segments is_space none (c ∷ cs)) (c ∷ cs) well
        (segments-visible none (c ∷ cs) well))

  -- Of a string whose last two characters are no spaces, TclCurl_StripSpaces leaves exactly the
  -- characters that are no spaces, in their order.
  pub strip_spaces-visible :
      (str : List ℕ)
      → ends_well is_space str ≡ true
      → strip_spaces is_space str ≡ some (visible is_space str)
  unfolding strip_spaces
  strip_spaces-visible str well =
      from str (skip is_space str) (skip-ends_well str well) ∙ ap some (skip-visible str)
