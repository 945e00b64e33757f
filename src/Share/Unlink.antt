-- ===== src/Share/Unlink.antt =====
-- The loop of curlDetachShareHandle takes one handle out of a user list.
use tclcurl_ng.Base.{
  ℕ, zero, suc, ◌<◌, ◌≡◌, refl, ◌≢◌, false, List, [], ◌∷◌, some, arith, ◌==◌, inl, inr, length,
  Bool-cases,
}
use tclcurl_ng.Share.{Store, update, head, next, read, write, unlink_loop}
use tclcurl_ng.Share.Chain.{has, Distinct, remove, Chain, Chain-update}

-- The loop started at the `nextSharedHandle` field of a handle `a` outside the list.
unlink_next :
    (k a e : ℕ) (s : Store) (xs : List ℕ)
    → Chain s.next_shared (s.next_shared a) xs
    → Distinct (a ∷ xs)
    → length xs < k
    → (nx : ℕ → ℕ) × (unlink_loop k (next a) e s ≡ some (record s { next_shared = nx }))
      × Chain nx (nx a) (remove e xs)
      × ((b : ℕ) → has b (a ∷ xs) ≡ false → nx b ≡ s.next_shared b)
unfolding unlink_loop read write
unlink_next zero a e s xs c d fuel = absurd (omega arith)
unlink_next (suc k) a e s [] c d fuel = (s.next_shared, rw c, c, λ b h. refl)
unlink_next (suc k) a e s (x ∷ xs) c d fuel = elim (Bool-cases (x == e)) [
  | inl hit ↦
      let nx = update s.next_shared a (s.next_shared e) in
      let from : nx a ≡ s.next_shared x = ground arith in
      let rest =
        Chain-update s.next_shared a (s.next_shared e) (s.next_shared x) xs (ground arith) c.2 in
      (nx, ground arith, rw (hit, from) rest, ground arith)
  | inr miss ↦
      let (nx, run, chain, same) = unlink_next k x e s xs c.2 d.1 (omega arith) in
      (nx, ground arith, rw miss (ground (arith, same a), c.1, chain), ground (arith, same))
]

-- The loop as curlDetachShareHandle starts it, at the head of the list of the share handle `t`.
pub unlink_head :
    (k t e : ℕ) (s : Store) (xs : List ℕ)
    → Chain s.next_shared (s.users t) xs
    → Distinct xs
    → length xs < k
    → (us : ℕ → ℕ) × (nx : ℕ → ℕ) × (unlink_loop k (head t) e s
        ≡ some (record s { users = us; next_shared = nx }))
      × Chain nx (us t) (remove e xs)
      × ((u : ℕ) → u ≢ t → us u ≡ s.users u)
      × ((b : ℕ) → has b xs ≡ false → nx b ≡ s.next_shared b)
unfolding unlink_loop read write
unlink_head zero t e s xs c d fuel = absurd (omega arith)
unlink_head (suc k) t e s [] c d fuel = (s.users, s.next_shared, rw c, c, λ u h. refl, λ b h. refl)
unlink_head (suc k) t e s (x ∷ xs) c d fuel = elim (Bool-cases (x == e)) [
  | inl hit ↦
      let us = update s.users t (s.next_shared e) in
      let from : us t ≡ s.next_shared x = ground arith in
      (us, s.next_shared, ground arith, rw (hit, from) (c.2), ground arith, λ b h. refl)
  | inr miss ↦
      let (nx, run, chain, same) = unlink_next k x e s xs c.2 d (omega arith) in
      (s.users, nx, ground arith, rw miss (c.0, c.1, chain), λ u h. refl, ground (arith, same))
]
