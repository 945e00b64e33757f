-- ===== src/Share/Chain.antt =====
-- The user list of a share handle as a list of addresses, and how writes to the links affect it.
use tclcurl_ng.Base.{
  ℕ, zero, suc, ◌≤◌, ◌<◌, ◌≡◌, refl, ◌≢◌, Bool, true, false, ◌||◌, List, [], ◌∷◌, arith, ◌==◌,
  if◌then◌else◌, length, inl, inr, Bool-cases,
}
use tclcurl_ng.Share.{update}

abbrev pub has : ℕ → List ℕ → Bool
has e [] = false
has e (x ∷ xs) = (x == e) || has e xs

abbrev pub Distinct : List ℕ → Type 0
Distinct [] = Unit
Distinct (x ∷ xs) = (has x xs ≡ false) × Distinct xs

abbrev pub remove : ℕ → List ℕ → List ℕ
remove e [] = []
remove e (x ∷ xs) = if x == e then xs else x ∷ remove e xs

-- From the address `p` the links `nx` lead through the handles `xs` to NULL.
abbrev pub Chain : (ℕ → ℕ) → ℕ → List ℕ → Type 0
Chain nx p [] = p ≡ 0
Chain nx p (x ∷ xs) = (p ≡ x) × (0 < x) × Chain nx (nx x) xs

pub Chain-frame :
    (nx nx' : ℕ → ℕ) (p : ℕ) (xs : List ℕ)
    → ((a : ℕ) → has a xs ≡ true → nx' a ≡ nx a)
    → Chain nx p xs
    → Chain nx' p xs
Chain-frame nx nx' p [] same c = c
Chain-frame nx nx' p (x ∷ xs) same c =
    let rest = Chain-frame nx nx' (nx x) xs (λ a h. same a (ground arith)) c.2 in
    (c.0, c.1, ground (arith, same x))

pub Chain-update :
    (nx : ℕ → ℕ) (k v p : ℕ) (xs : List ℕ)
    → has k xs ≡ false
    → Chain nx p xs
    → Chain (update nx k v) p xs
Chain-update nx k v p xs out c =
    Chain-frame nx (update nx k v) p xs
      (λ a h. elim (Bool-cases (a == k)) [ inl e ↦ absurd (absent a e h) | inr n ↦ ground arith ]) c
  where
    absent : (a : ℕ) → (a == k) ≡ true → has a xs ≡ true → ⊥
    absent a e h = ground arith

pub has-remove_self : (e : ℕ) (xs : List ℕ) → Distinct xs → has e (remove e xs) ≡ false
has-remove_self e [] d = refl
has-remove_self e (x ∷ xs) d = ground (arith, has-remove_self e xs d.1)

pub has-remove : (a e : ℕ) (xs : List ℕ) → has a (remove e xs) ≡ true → has a xs ≡ true
has-remove a e [] h = h
has-remove a e (x ∷ xs) h = ground (arith, has-remove a e xs)

pub has-remove_ne : (a e : ℕ) (xs : List ℕ) → a ≢ e → has a xs ≡ true → has a (remove e xs) ≡ true
has-remove_ne a e [] n h = h
has-remove_ne a e (x ∷ xs) n h = ground (arith, has-remove_ne a e xs n)

pub remove_absent : (e : ℕ) (xs : List ℕ) → has e xs ≡ false → remove e xs ≡ xs
remove_absent e [] h = refl
remove_absent e (x ∷ xs) h = ground (arith, remove_absent e xs)

pub Distinct-remove : (e : ℕ) (xs : List ℕ) → Distinct xs → Distinct (remove e xs)
Distinct-remove e [] d = tt
Distinct-remove e (x ∷ xs) d = ground (arith, Distinct-remove e xs d.1, has-remove x e xs)

length-remove : (e : ℕ) (xs : List ℕ) → length xs ≤ suc (length (remove e xs))
length-remove e [] = omega arith
length-remove e (x ∷ xs) = ground (arith, length-remove e xs)

-- Distinct addresses below `n` are at most `n` many.
pub length-le :
    (n : ℕ) (xs : List ℕ) → Distinct xs → ((a : ℕ) → has a xs ≡ true → a < n) → length xs ≤ n
length-le zero [] d h = omega arith
length-le zero (x ∷ xs) d h = absurd (ground (arith, h x))
length-le (suc n) xs d h =
    omega (arith, length-remove n xs, length-le n (remove n xs) (Distinct-remove n xs d) below)
  where
    below : (a : ℕ) → has a (remove n xs) ≡ true → a < n
    below a m = ground (arith, h a, has-remove a n xs, has-remove_self n xs d)
