-- ===== src/Handle/Copy.antt =====
-- What duphandle makes of the links of share handles, and the new handle.
use mathlib.Core.Path.{fun_ext}
use tclcurl_ng.Base.{
  ℕ, ◌<◌, ◌≡◌, ◌≢◌, refl, sym, ap, ◌∙◌, ◌⊎◌, inl, inr, String, List, ◌∷◌, Option, none, some, arith,
  ◌==◌, ==_iff, if◌then◌else◌, Bool-cases,
}
use tclcurl_ng.Api.{Answers, easy_duphandle, create_command}
use tclcurl_ng.Api.Easy.{CurlObjData}
use tclcurl_ng.Api.Monad.{State, literal}
use tclcurl_ng.Commands.Free.{IsFirstFree, create_obj_cmd-IsFirstFree}
use tclcurl_ng.Handle.{Duplicate, copy_links, copy_curl_data, name_duplicate, dup_handle}
use tclcurl_ng.Share.{Store, update, link}
use tclcurl_ng.Share.Chain.{Chain-update}
use tclcurl_ng.Share.Rep.{Users, Rep, join}
use tclcurl_ng.Share.Sound.{link-Rep, not_anywhere}
use tclcurl_ng.Transfer.Balance.{one-null, held}

update_twice {ℓ} :
    {A : Type ℓ} (f : ℕ → A) (k : ℕ) (a b : A) → update (update f k a) k b ≡ update f k b
update_twice f k a b =
    fun_ext λ j. elim (Bool-cases (j == k)) [ inl e ↦ rw e refl | inr e ↦ rw e refl ]

pub update_same : (f : ℕ → ℕ) (k a : ℕ) → f k ≡ a → update f k a ≡ f
update_same f k a e = fun_ext λ j. elim (Bool-cases (j == k)) [
  | inl h ↦ rw h (sym e ∙ ap f (sym ((==_iff j k).0 h)))
  | inr h ↦ rw h refl
]

-- Linking writes both fields that were copied.
link_copied : (old new t : ℕ) (s : Store) → link new t (copy_links old new s) ≡ link new t s
unfolding link
link_copied old new t s =
    ap
      (λ (f : ℕ → ℕ). record s {
        share_token = f;
        next_shared = update (update s.next_shared new (s.next_shared old)) new (s.users t);
        users = update s.users t new;
      })
      (update_twice s.share_token new (s.share_token old) t)
    ∙ ap
        (λ (f : ℕ → ℕ). record s {
          share_token = update s.share_token new t;
          next_shared = f;
          users = update s.users t new;
        })
        (update_twice s.next_shared new (s.next_shared old) (s.users t))

-- A handle in no list may have any link.
pub stray-Rep :
    (e v : ℕ) {s : Store} {l : Users}
    → Rep s l
    → s.share_token e ≡ 0
    → Rep (record s { next_shared = update s.next_shared e v }) l
stray-Rep e v {s} {l} r free = record {
  chain = λ t live.
      Chain-update s.next_shared e v (s.users t) (l t) (not_anywhere r e free t) (r.chain t live);
  distinct = r.distinct;
  token_of_has = r.token_of_has;
  null_empty = r.null_empty;
  has_of_token = r.has_of_token;
  token_alive = r.token_alive;
  below_limit = r.below_limit;
}

copied-Rep :
    (old new : ℕ) {s : Store} {l : Users}
    → Rep s l
    → s.share_token old ≡ 0
    → s.share_token new ≡ 0
    → Rep (copy_links old new s) l
copied-Rep old new {s} {l} r e free =
    let same : update s.share_token new (s.share_token old) ≡ s.share_token =
      update_same s.share_token new (s.share_token old) (free ∙ sym e) in
    rw same (stray-Rep new (s.next_shared old) r free)

-- The users after a duplicate `new` of the handle `old`.
abbrev pub users_with : (old new : ℕ) → Store → Users → Users
users_with old new s l = if s.share_token old == 0 then l else join new (s.share_token old) l

-- The two ends of duphandle.
pub record IsNotDuplicated (before : State) (r : Option Duplicate × State) : Type 0 where
  pub nothing : r.0 ≡ none
  pub same_shares : r.1.shares ≡ before.shares
  pub message : r.1.result ≡ literal "Couldn't create new handle."

pub record IsDuplicated (print : ℕ → String) (taken : List String) (new : ℕ) (l : Users)
    (before : State) (r : Option Duplicate × State) : Type 0 where
  pub new_handle : Duplicate
  pub made : r.0 ≡ some new_handle
  pub first_free : IsFirstFree print taken 0 (some new_handle.created)
  pub no_file : (p : ℕ) → 0 < p → held p new_handle.easy ≡ 0
  pub original : r.1.easy ≡ before.easy
  pub users : Rep r.1.shares (users_with before.self new before.shares l)

module _ (ask : Answers) (print : ℕ → String) (taken : List String) (new : ℕ) (l : Users)
    (before : State) (injective : (i j : ℕ) → print i ≡ print j → i ≡ j) where
  -- The new command, on a state that differs from the one before in its links and calls.
  name_duplicate-IsDuplicated :
      (copy : CurlObjData) (s : State)
      → ((p : ℕ) → 0 < p → held p copy ≡ 0)
      → s.easy ≡ before.easy
      → Rep s.shares (users_with before.self new before.shares l)
      → IsDuplicated print taken new l before (name_duplicate ask print copy taken s)
  unfolding name_duplicate
  name_duplicate-IsDuplicated copy s closed same r =
      let f = create_obj_cmd-IsFirstFree print injective taken in
      let name = print f.number in
      rw f.run (record {
        new_handle = record {
          easy = record copy { token = ask (create_command name ∷ s.calls) };
          created = (name, name ∷ taken);
        };
        made = refl;
        first_free = record {
          number = f.number;
          run = refl;
          free = f.free;
          above = f.above;
          all_taken = f.all_taken;
        };
        no_file = closed;
        original = same;
        users = r;
      })

  -- duphandle, where the links represent lists of users, the new struct has an address of the store
  -- that no user has, and snprintf prints different numbers differently: either libcurl gives no handle
  -- and no link has changed; or there is a new handle, under the first free name from curl0 on, that
  -- holds no file and is one more user of the share handle of the original, if that has one. The
  -- refusal because of a deleted share handle does not happen.
  pub dup_handle-IsDuplicated :
      Rep before.shares l
      → before.shares.share_token new ≡ 0
      → 0 < new
      → new < before.shares.limit
      → IsNotDuplicated before (dup_handle ask print new taken before)
        ⊎ IsDuplicated print taken new l before (dup_handle ask print new taken before)
  unfolding dup_handle copy_curl_data
  dup_handle-IsDuplicated r free positive below =
      let calls = easy_duphandle before.easy.curl ∷ before.calls in
      let t = before.shares.share_token before.self in
      let copy = record (copy_curl_data before.easy) { curl = ask calls } in
      elim (Bool-cases (ask calls == 0)) [
        | inl refused ↦
            rw refused (inl (record { nothing = refl; same_shares = refl; message = refl }))
        | inr given ↦ elim (Bool-cases (t == 0)) [
          | inl alone ↦
              let s = record before {
                calls = calls;
                shares = copy_links before.self new before.shares;
              } in
              let v =
                name_duplicate-IsDuplicated copy s
                  (λ p positive. omega (arith, one-null p positive)) refl
                  (rw alone (copied-Rep before.self new r ((==_iff t 0).0 alone) free)) in
              rw (given, alone) (inr v)
          | inr shared ↦
              let n : t ≢ 0 = ground arith in
              let live = r.token_alive before.self n in
              let s = record before {
                calls = calls;
                shares = link new t (copy_links before.self new before.shares);
              } in
              let same = link_copied before.self new t before.shares in
              let v =
                name_duplicate-IsDuplicated copy s
                  (λ p positive. omega (arith, one-null p positive)) refl
                  (rw (shared, same) (link-Rep new t r live n free positive below)) in
              rw (given, shared, live) (inr v)
        ]
      ]
