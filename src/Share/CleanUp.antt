-- ===== src/Share/CleanUp.antt =====
-- Deleting a share handle cuts off all its users.
use tclcurl_ng.Base.{
  ℕ, zero, suc, ◌<◌, ◌≡◌, refl, ◌≢◌, true, false, List, [], ◌∷◌, some, arith, ◌==◌, inl, inr,
  length, Bool-cases,
}
use tclcurl_ng.Share.{Store, update, clear_links, clear_users, clean_up}
use tclcurl_ng.Share.Chain.{has, Distinct, Chain, Chain-frame, Chain-update}
use tclcurl_ng.Share.Rep.{Users, Rep, dissolve}
use tclcurl_ng.Share.Sound.{fuel_enough, not_elsewhere}

-- `g` is 0 at the handles `xs` and `f` elsewhere.
record Wiped (xs : List ℕ) (f g : ℕ → ℕ) : Type 0 where
  inside : (b : ℕ) → has b xs ≡ true → g b ≡ 0
  outside : (b : ℕ) → has b xs ≡ false → g b ≡ f b

Wiped-nil : (f : ℕ → ℕ) → Wiped [] f f
Wiped-nil f = record { inside = λ b h. cc; outside = λ b h. refl }

Wiped-cons : (x : ℕ) (xs : List ℕ) (f g : ℕ → ℕ) → Wiped xs (update f x 0) g → Wiped (x ∷ xs) f g
Wiped-cons x xs f g w = record {
  inside = λ b h. ground (arith, w.inside b, w.outside b);
  outside = λ b h. ground (arith, w.outside b);
}

clear_users_lem :
    (k p : ℕ) (s : Store) (xs : List ℕ)
    → Chain s.next_shared p xs
    → Distinct xs
    → length xs < k
    → (tk : ℕ → ℕ) × (nx : ℕ → ℕ) × (clear_users k p s
        ≡ some (xs, record s { share_token = tk; next_shared = nx }))
      × Wiped xs s.share_token tk
      × Wiped xs s.next_shared nx
unfolding clear_users clear_links
clear_users_lem zero p s xs c d fuel = absurd (omega arith)
clear_users_lem (suc k) p s [] c d fuel =
    (s.share_token, s.next_shared, rw c, Wiped-nil s.share_token, Wiped-nil s.next_shared)
clear_users_lem (suc k) p s (x ∷ xs) c d fuel =
    let s' = clear_links x s in
    let (tk, nx, run, t, n) =
      clear_users_lem k (s.next_shared x) s' xs
        (Chain-update s.next_shared x 0 (s.next_shared x) xs d.0 c.2) d.1 (omega arith) in
    (tk, nx, ground arith, Wiped-cons x xs s.share_token tk t, Wiped-cons x xs s.next_shared nx n)

module _ (t : ℕ) {s : Store} {l : Users} (r : Rep s l) {tk nx : ℕ → ℕ}
    (wt : Wiped (l t) s.share_token tk) (wn : Wiped (l t) s.next_shared nx) where
  after-Chain :
      (u : ℕ) → update s.alive t false u ≡ true → Chain nx (update s.users t 0 u) (dissolve t l u)
  after-Chain u live = elim (Bool-cases (u == t)) [
    | inl own ↦ rw own refl
    | inr n ↦ rw n (
        Chain-frame s.next_shared nx (s.users u) (l u)
          (λ a h. wn.outside a (not_elsewhere r t a (λ p. ground (arith, r.token_of_has u a h))))
          (r.chain u (ground arith)))
  ]

  after-token : (u b : ℕ) → has b (dissolve t l u) ≡ true → tk b ≡ u
  after-token u b h = elim (Bool-cases (has b (l t))) [
    | inl inside ↦ ground (arith, r.token_of_has t b, r.token_of_has u b)
    | inr outside ↦ ground (arith, r.token_of_has u b, wt.outside b)
  ]

  after-has : (b : ℕ) → tk b ≢ 0 → has b (dissolve t l (tk b)) ≡ true
  after-has b n = elim (Bool-cases (has b (l t))) [
    | inl inside ↦ absurd (n (wt.inside b inside))
    | inr outside ↦ rw (wt.outside b outside) (ground (arith, r.has_of_token b, wt.outside b))
  ]

  after-alive : (b : ℕ) → tk b ≢ 0 → update s.alive t false (tk b) ≡ true
  after-alive b n = elim (Bool-cases (has b (l t))) [
    | inl inside ↦ absurd (n (wt.inside b inside))
    | inr outside ↦
        rw (wt.outside b outside) (ground (arith, r.has_of_token b, r.token_alive b, wt.outside b))
  ]

-- Deleting a live share handle runs to its end, cuts off exactly its users, in the order of its
-- list, and leaves the lists of the other share handles as they were.
pub clean_up-Rep :
    (t : ℕ) {s : Store} {l : Users}
    → Rep s l
    → s.alive t ≡ true
    → (s' : Store) × (clean_up t s ≡ some (l t, s'))
      × Rep s' (dissolve t l)
      × (s'.alive t ≡ false)
      × ((e : ℕ) → has e (l t) ≡ true → s'.share_token e ≡ 0)
unfolding clean_up
clean_up-Rep t {s} {l} r live =
    let (tk, nx, run, wt, wn) =
      clear_users_lem (suc s.limit) (s.users t) s (l t) (r.chain t live) (r.distinct t)
        (fuel_enough r t) in
    (
      record s {
        share_token = tk;
        next_shared = nx;
        users = update s.users t 0;
        alive = update s.alive t false;
      },
      rw (run, clean_up),
      record {
        chain = after-Chain t r wt wn;
        distinct = λ u. ground (arith, r.distinct u);
        token_of_has = after-token t r wt wn;
        null_empty = ground (arith, r.null_empty);
        has_of_token = after-has t r wt wn;
        token_alive = after-alive t r wt wn;
        below_limit = λ u b h. ground (arith, r.below_limit u b);
      },
      ground arith,
      wt.inside,
    )
