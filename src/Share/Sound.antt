-- ===== src/Share/Sound.antt =====
-- The operations on share links do what they say on the user lists.
use tclcurl_ng.Base.{
  sym, ◌∙◌, ==_iff, ℕ, suc, ◌<◌, ◌≡◌, zero, refl, ◌≢◌, true, false, some, arith, ◌==◌, inl, inr,
  length, Bool-cases,
}
use mathlib.Core.Path.{fun_ext}
use tclcurl_ng.Share.{Store, update, head, unlink_loop, clear_links, detach, link}
use tclcurl_ng.Share.Chain.{
  has, Distinct, remove, Chain, Chain-frame, Chain-update, has-remove, has-remove_self,
  has-remove_ne, remove_absent, Distinct-remove, length-le,
}
use tclcurl_ng.Share.Unlink.{unlink_head}
use tclcurl_ng.Share.Rep.{Users, Rep, leave, join}

pub fuel_enough : {s : Store} {l : Users} → Rep s l → (t : ℕ) → length (l t) < suc s.limit
fuel_enough {s} {l} r t = omega (arith, length-le s.limit (l t) (r.distinct t) (r.below_limit t))

pub not_elsewhere :
    {s : Store} {l : Users} → Rep s l → (t e : ℕ) → s.share_token e ≢ t → has e (l t) ≡ false
not_elsewhere {l} r t e n = elim (Bool-cases (has e (l t))) [
  | inl here ↦ absurd (n (r.token_of_has t e here))
  | inr gone ↦ gone
]

-- A handle without a share handle is in no list.
pub not_anywhere :
    {s : Store} {l : Users}
    → Rep s l
    → (e : ℕ) → s.share_token e ≡ 0
    → (t : ℕ) → has e (l t) ≡ false
not_anywhere {l} r e free zero = rw r.null_empty
not_anywhere {l} r e free (suc t) = not_elsewhere r (suc t) e (ground arith)

-- The state behind the loop: the handle `e` is out of the list of its share handle `t`, and the
-- other links are as before.
record Cut (e : ℕ) (s : Store) (l : Users) (us nx : ℕ → ℕ) : Type 0 where
  used : s.share_token e ≢ 0
  chain : Chain nx (us (s.share_token e)) (remove e (l (s.share_token e)))
  other : (u : ℕ) → u ≢ s.share_token e → us u ≡ s.users u
  same : (b : ℕ) → has b (l (s.share_token e)) ≡ false → nx b ≡ s.next_shared b

module _ (e : ℕ) {s : Store} {l : Users} {us nx : ℕ → ℕ} (r : Rep s l) (c : Cut e s l us nx) where
  gone : (t : ℕ) → has e (remove e (l t)) ≡ false
  gone t = has-remove_self e (l t) (r.distinct t)

  Cut-Chain_other :
      (u : ℕ)
      → u ≢ s.share_token e
      → s.alive u ≡ true
      → Chain (update nx e 0) (us u) (remove e (l u))
  Cut-Chain_other u n live =
      let out = not_elsewhere r u e (λ p. n (sym p)) in
      rw (remove_absent e (l u) out, c.other u n)
        (Chain-update nx e 0 (s.users u) (l u) out (
          Chain-frame s.next_shared nx (s.users u) (l u)
            (λ a h.
              c.same a
                (not_elsewhere r (s.share_token e) a (λ p. n (sym (r.token_of_has u a h) ∙ p))))
            (r.chain u live)))

  Cut-Chain : (u : ℕ) → s.alive u ≡ true → Chain (update nx e 0) (us u) (remove e (l u))
  Cut-Chain u live = elim (Bool-cases (u == s.share_token e)) [
    | inl own ↦ rw ((==_iff u (s.share_token e)).0 own) (
        Chain-update nx e 0 (us (s.share_token e)) (remove e (l (s.share_token e)))
          (gone (s.share_token e)) c.chain)
    | inr n ↦ Cut-Chain_other u (ground arith) live
  ]

  Cut-token : (t b : ℕ) → has b (remove e (l t)) ≡ true → update s.share_token e 0 b ≡ t
  Cut-token t b h = ground (arith, has-remove b e (l t) h, r.token_of_has t b, gone t)

  Cut-has :
      (b : ℕ)
      → update s.share_token e 0 b ≢ 0
      → has b (remove e (l (update s.share_token e 0 b))) ≡ true
  Cut-has b n = elim (Bool-cases (b == e)) [
    | inl p ↦ absurd (n (rw p))
    | inr p ↦
        rw p
          (has-remove_ne b e (l (s.share_token b)) (ground arith) (r.has_of_token b (ground arith)))
  ]

  Cut-Rep : Rep (clear_links e (record s { users = us; next_shared = nx })) (leave e l)
  unfolding clear_links
  Cut-Rep = record {
    chain = Cut-Chain;
    distinct = λ t. Distinct-remove e (l t) (r.distinct t);
    token_of_has = Cut-token;
    null_empty = rw r.null_empty;
    has_of_token = Cut-has;
    token_alive = λ b n. ground (arith, r.token_alive b);
    below_limit = λ t b h. r.below_limit t b (has-remove b e (l t) h);
  }

free-Rep :
    (e : ℕ) {s : Store} {l : Users}
    → Rep s l
    → s.share_token e ≡ 0
    → Rep (record s { next_shared = update s.next_shared e 0 }) (leave e l)
free-Rep e {s} {l} r free =
    let out = not_anywhere r e free in
    rw (fun_ext λ t. remove_absent e (l t) (out t)) (record {
      chain = λ t live. Chain-update s.next_shared e 0 (s.users t) (l t) (out t) (r.chain t live);
      distinct = r.distinct;
      token_of_has = r.token_of_has;
      null_empty = r.null_empty;
      has_of_token = r.has_of_token;
      token_alive = r.token_alive;
      below_limit = r.below_limit;
    })

detach_free :
    (e : ℕ) (s : Store)
    → s.share_token e ≡ 0
    → detach e s ≡ record s { next_shared = update s.next_shared e 0 }
unfolding detach
detach_free e s free = ground arith

detach_used :
    (e : ℕ) (s s' : Store)
    → s.share_token e ≢ 0
    → s.alive (s.share_token e) ≡ true
    → unlink_loop (suc s.limit) (head (s.share_token e)) e s ≡ some s'
    → detach e s ≡ clear_links e s'
unfolding detach
detach_used e s s' used live run = ground arith

-- curlDetachShareHandle takes the handle out of the list that it is in, and out of no other; the
-- loop ends.
pub detach-Rep : (e : ℕ) {s : Store} {l : Users} → Rep s l → Rep (detach e s) (leave e l)
detach-Rep e {s} {l} r = elim (Bool-cases (s.share_token e == 0)) [
  | inl free ↦ rw (detach_free e s (ground arith)) (free-Rep e r (ground arith))
  | inr used ↦
      let t = s.share_token e in
      let live = r.token_alive e (ground arith) in
      let (us, nx, run, chain, other, same) =
        unlink_head (suc s.limit) t e s (l t) (r.chain t live) (r.distinct t) (fuel_enough r t) in
      rw (detach_used e s (record s { users = us; next_shared = nx }) (ground arith) live run)
        (Cut-Rep e r (record { used = ground arith; chain = chain; other = other; same = same }))
]

module _ (e t : ℕ) {s : Store} {l : Users} (r : Rep s l) (live : s.alive t ≡ true) (nonnull : t ≢ 0)
    (free : s.share_token e ≡ 0) where
  link-Chain :
      0 < e
      → (u : ℕ) → s.alive u ≡ true
      → Chain (update s.next_shared e (s.users t)) (update s.users t e u) (join e t l u)
  link-Chain pos u alive = elim (Bool-cases (u == t)) [
    | inl own ↦
        let back =
          Chain-update s.next_shared e (s.users t) (s.users t) (l t) (not_anywhere r e free t)
            (r.chain t live) in
        rw (own, (==_iff e e).1 refl) (refl, pos, back)
    | inr n ↦ rw n (
        Chain-update s.next_shared e (s.users t) (s.users u) (l u) (not_anywhere r e free u)
          (r.chain u alive))
  ]

  link-Distinct : (u : ℕ) → Distinct (join e t l u)
  link-Distinct u = elim (Bool-cases (u == t)) [
    | inl own ↦ rw own (not_anywhere r e free t, r.distinct t)
    | inr n ↦ rw n (r.distinct u)
  ]

  link-token : (u b : ℕ) → has b (join e t l u) ≡ true → update s.share_token e t b ≡ u
  link-token u b h = ground (arith, r.token_of_has u b, r.token_of_has t b, not_anywhere r e free u)

  link-has :
      (b : ℕ)
      → update s.share_token e t b ≢ 0
      → has b (join e t l (update s.share_token e t b)) ≡ true
  link-has b n = ground (arith, r.has_of_token b)

  -- curlLinkEasyToShare puts a handle that uses no share handle in front of the list of a live one.
  pub link-Rep : 0 < e → e < s.limit → Rep (link e t s) (join e t l)
  unfolding link
  link-Rep pos below = record {
    chain = link-Chain pos;
    distinct = link-Distinct;
    token_of_has = link-token;
    null_empty = ground (arith, r.null_empty);
    has_of_token = link-has;
    token_alive = λ b n. ground (arith, r.token_alive b);
    below_limit = λ u b h. ground (arith, r.below_limit u b, r.below_limit t b);
  }
