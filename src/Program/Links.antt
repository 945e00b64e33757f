-- ===== src/Program/Links.antt =====
-- The links between the handles of a program: whatever is done, they stay lists of users, and the
-- users are easy handles that exist.
use tclcurl_ng.Base.{
  ℕ, ◌<◌, ◌≡◌, ◌≢◌, refl, sym, ap, ◌∙◌, ◌⊎◌, inl, inr, String, [], Option, none, some, true, ◌==◌,
  ==_iff, arith, Bool-cases,
}
use tclcurl_ng.Api.Easy.{CurlObjData}
use tclcurl_ng.Api.Monad.{State}
use tclcurl_ng.Handle.{Duplicate}
use tclcurl_ng.Handle.Links.Outcome.{Outcome, IsFresh}
use tclcurl_ng.Options.Untouched.Links.{Linked, Moved}
use tclcurl_ng.Program.{Program, IsUnused, enter, leave, place}
use tclcurl_ng.Share.{update}
use tclcurl_ng.Share.Chain.{has}
use tclcurl_ng.Share.Rep.{Users, Rep}

pub record IsLinked (p : Program) : Type 0 where
  pub users : Users
  pub rep : Rep p.shares users
  pub exist : (t e : ℕ) → has e (users t) ≡ true → p.easy e ≢ none
  pub owned : (e : ℕ) → p.easy e ≡ none → p.shares.share_token e ≡ 0
  pub ranged : (e : ℕ) (d : CurlObjData) → p.easy e ≡ some d → (0 < e) × (e < p.shares.limit)
  pub live : (o : String) → p.commands o ≢ 0 → p.shares.alive (p.commands o) ≡ true

-- A share handle has no user without a struct.
pub linked :
    {p : Program} (l : Users)
    → Rep p.shares l
    → ((e : ℕ) → p.easy e ≡ none → p.shares.share_token e ≡ 0)
    → ((e : ℕ) (d : CurlObjData) → p.easy e ≡ some d → (0 < e) × (e < p.shares.limit))
    → ((o : String) → p.commands o ≢ 0 → p.shares.alive (p.commands o) ≡ true)
    → IsLinked p
linked {p} l rep owned ranged live = record {
  users = l;
  rep = rep;
  exist = λ t e inside gone.
      let zero_token : t ≡ 0 = sym (rep.token_of_has t e inside) ∙ owned e gone in
      let empty : l t ≡ [] = ap l zero_token ∙ rep.null_empty in cc (sym inside ∙ ap (has e) empty);
  owned = owned;
  ranged = ranged;
  live = live;
}

pub update_cases :
    (f : ℕ → Option CurlObjData) (e : ℕ) (own : Option CurlObjData) (j : ℕ)
    → ((j ≡ e) × (update f e own j ≡ own)) ⊎ ((j ≢ e) × (update f e own j ≡ f j))
update_cases f e own j = elim (Bool-cases (j == e)) [
  | inl same ↦ inl ((==_iff j e).0 same, rw same refl)
  | inr other ↦ inr (ground arith, rw other refl)
]

some-ne-none : {d : CurlObjData} → some d ≢ none
some-ne-none h = cc

module _ (p : Program) (v : IsLinked p) (e : ℕ) (d : CurlObjData) (here : p.easy e ≡ some d) where
  pub enter-Linked : Linked (enter p e d)
  enter-Linked = record {
    users = v.users;
    rep = v.rep;
    positive = (v.ranged e d here).0;
    below = (v.ranged e d here).1;
    live = v.live;
  }

  pub enter-IsFresh : {new : ℕ} → IsUnused p new → IsFresh new (enter p e d)
  enter-IsFresh {new} u = record {
    free = v.owned new u.unused;
    positive = u.positive;
    below = u.below;
    apart = λ same. cc (sym here ∙ ap p.easy (sym same) ∙ u.unused);
  }

  -- The range of an address, after a function of the handle.
  ranged_after :
      (own : Option CurlObjData) (j : ℕ) (d' : CurlObjData)
      → update p.easy e own j ≡ some d'
      → (0 < j) × (j < p.shares.limit)
  ranged_after own j d' there = elim (update_cases p.easy e own j) [
    | inl (same, now) ↦ rw same (v.ranged e d here)
    | inr (other, before) ↦ v.ranged j d' (sym before ∙ there)
  ]

  module _ (own : Option CurlObjData) (after : State)
      (cut : own ≡ none → after.shares.share_token e ≡ 0) where
    -- After a function of the handle at `e` that leaves it the struct `own`, or none.
    pub Moved-IsLinked : Moved (enter p e d) after → IsLinked (leave (update p.easy e own) after)
    Moved-IsLinked m =
        let k = m.keep enter-Linked in
        linked k.users k.rep
          (λ j gone. elim (update_cases p.easy e own j) [
            | inl (same, now) ↦ ap after.shares.share_token same ∙ cut (sym now ∙ gone)
            | inr (other, before) ↦ m.change.others j other ∙ v.owned j (sym before ∙ gone)
          ])
          (λ j d' there. rw m.change.alike.1 (ranged_after own j d' there)) k.live

    -- After a command that may also have made the duplicate `copy` at the address `new`.
    pub Outcome-IsLinked :
        (new : ℕ) (copy : Option Duplicate)
        → IsUnused p new
        → Outcome new (enter p e d) copy after
        → IsLinked (leave (place new copy (update p.easy e own)) after)
    Outcome-IsLinked new none u m =
        let k = m.kept in
        linked k.users k.rep
          (λ j gone. elim (update_cases p.easy e own j) [
            | inl (same, now) ↦ ap after.shares.share_token same ∙ cut (sym now ∙ gone)
            | inr (other, before) ↦ elim (Bool-cases (j == new)) [
              | inl spare ↦ ap after.shares.share_token ((==_iff j new).0 spare) ∙ m.spare refl
              | inr apart ↦ m.others j other (ground arith) ∙ v.owned j (sym before ∙ gone)
            ]
          ])
          (λ j d' there. rw m.limit (ranged_after own j d' there)) k.live
    Outcome-IsLinked new (some copy) u m =
        let k = m.kept in
        let easy = update p.easy e own in
        linked k.users k.rep
          (λ j gone. elim (update_cases easy new (some copy.easy) j) [
            | inl (same, now) ↦ absurd (some-ne-none (sym now ∙ gone))
            | inr (apart, earlier) ↦ elim (update_cases p.easy e own j) [
              | inl (same, now) ↦
                  ap after.shares.share_token same ∙ cut (sym now ∙ sym earlier ∙ gone)
              | inr (other, before) ↦
                  m.others j other apart ∙ v.owned j (sym before ∙ sym earlier ∙ gone)
            ]
          ])
          (λ j d' there. elim (update_cases easy new (some copy.easy) j) [
            | inl (same, now) ↦ rw (m.limit, same) (u.positive, u.below)
            | inr (apart, earlier) ↦ rw m.limit (ranged_after own j d' (sym earlier ∙ there))
          ])
          k.live
