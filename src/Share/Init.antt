-- ===== src/Share/Init.antt =====
-- A new share handle: curlShareInitObjCmd of generic/tclcurl.c, compiled with TCL_THREADS.
use tclcurl_ng.Base.{
  ℕ, ◌≡◌, ◌≢◌, refl, sym, ap, ◌∙◌, ◌⊎◌, inl, inr, String, List, [], ◌∷◌, Option, none, some, true,
  false, ◌==◌, ==_iff, if◌then◌else◌, arith, Bool-cases,
}
use tclcurl_ng.Api.{Answers, share_init, create_command, share_lock_func, share_unlock_func}
use tclcurl_ng.Api.Monad.{Status, ok, error, literal}
use tclcurl_ng.Commands.{create_share_obj_cmd}
use tclcurl_ng.Commands.Free.{IsFirstFree, create_share_obj_cmd-IsFirstFree}
use tclcurl_ng.Share.{Store, update}
use tclcurl_ng.Share.Chain.{has, Chain}
use tclcurl_ng.Share.Command.{Shared, failed}
use tclcurl_ng.Share.Rep.{Users, Rep}

-- The struct and the command of the share handle `t`, without users.
abbrev pub add_share : (t shandle : ℕ) → Store → Store
add_share t shandle s = record s {
  users = update s.users t 0;
  shandle = update s.shandle t shandle;
  alive = update s.alive t true;
}

-- The name and the token of the new command; the two calls of curl_share_setopt follow.
abbrev pub register :
    Answers → (shandle : ℕ) → Option (String × List String) → Shared → Status × Shared
register ask shandle none s = (ok, s)
register ask shandle (some (name, names)) s = (
  ok,
  record {
    store = add_share (ask (create_command name ∷ s.calls)) shandle s.store;
    calls = share_unlock_func shandle ∷ share_lock_func shandle ∷ create_command name ∷ s.calls;
    result = literal name;
  },
)

-- curlShareInitObjCmd
unfoldable pub share_init_obj_cmd :
    Answers → (print : ℕ → String) → (taken : List String) → Shared → Status × Shared
share_init_obj_cmd ask print taken s =
    let calls = share_init ∷ s.calls in
    let s' = record s { calls = calls } in
    if ask calls == 0
    then failed (literal "Couldn't create share handle") s'
    else register ask (ask calls) (create_share_obj_cmd print taken) s'

module _ (t : ℕ) {s : Store} {l : Users} (r : Rep s l) (n : t ≢ 0) (fresh : s.alive t ≡ false) where
  -- A token that is not live has no users.
  nobody : (xs : List ℕ) → l t ≡ xs → xs ≡ []
  nobody [] e = refl
  nobody (x ∷ xs) e =
      let inside : has x (l t) ≡ true = rw (e, (==_iff x x).1 refl) refl in
      let same = r.token_of_has t x inside in
      let live : s.alive t ≡ true =
        ap s.alive (sym same) ∙ r.token_alive x (λ z. n (sym same ∙ z)) in
      absurd (ground (arith, live, fresh))

  add_share-Chain :
      (shandle a : ℕ)
      → update s.alive t true a ≡ true
      → Chain s.next_shared (update s.users t 0 a) (l a)
  add_share-Chain shandle a live = elim (Bool-cases (a == t)) [
    | inl same ↦
        let e : l a ≡ [] = ap l ((==_iff a t).0 same) ∙ nobody (l t) refl in rw (same, e) refl
    | inr other ↦ rw other (r.chain a (ground (arith, other)))
  ]

  add_share-alive : (e : ℕ) → s.share_token e ≢ 0 → update s.alive t true (s.share_token e) ≡ true
  add_share-alive e m = elim (Bool-cases (s.share_token e == t)) [
    | inl same ↦ rw same refl
    | inr other ↦ rw other (r.token_alive e m)
  ]

  pub add_share-Rep : (shandle : ℕ) → Rep (add_share t shandle s) l
  add_share-Rep shandle = record {
    chain = add_share-Chain shandle;
    distinct = r.distinct;
    token_of_has = r.token_of_has;
    null_empty = r.null_empty;
    has_of_token = r.has_of_token;
    token_alive = add_share-alive;
    below_limit = r.below_limit;
  }

-- The two ends of curl::shareinit.
pub record IsNoShare (before : Shared) (r : Status × Shared) : Type 0 where
  pub failed : r.0 ≡ error
  pub same_store : r.1.store ≡ before.store

pub record IsNewShare (print : ℕ → String) (taken : List String) (t : ℕ) (l : Users)
    (r : Status × Shared) : Type 0 where
  pub succeeded : r.0 ≡ ok
  pub name : String
  pub first_free : IsFirstFree print taken 1 (some (name, name ∷ taken))
  pub result : r.1.result ≡ literal name
  pub alive : r.1.store.alive t ≡ true
  pub no_users : r.1.store.users t ≡ 0
  pub users : Rep r.1.store l

-- curl::shareinit, where snprintf prints different numbers differently, the links represent lists of
-- users, and Tcl gives a new command a token `t` that no live share handle has: either libcurl gives no
-- handle, which is an error without an effect on the links; or there is a new live share handle, under
-- the first free name from scurl1 on, without users, and the links represent the same lists.
pub share_init_obj_cmd-Rep :
    (ask : Answers) (print : ℕ → String) (taken : List String) (t : ℕ) (s : Shared) (l : Users)
    → ((i j : ℕ) → print i ≡ print j → i ≡ j)
    → ((name : String) → ask (create_command name ∷ share_init ∷ s.calls) ≡ t)
    → Rep s.store l
    → t ≢ 0
    → s.store.alive t ≡ false
    → IsNoShare s (share_init_obj_cmd ask print taken s)
      ⊎ IsNewShare print taken t l (share_init_obj_cmd ask print taken s)
unfolding share_init_obj_cmd
share_init_obj_cmd-Rep ask print taken t s l injective gives r n fresh =
    let f = create_share_obj_cmd-IsFirstFree print injective taken in
    let name = print f.number in
    let shandle = ask (share_init ∷ s.calls) in
    elim (Bool-cases (shandle == 0)) [
      | inl refused ↦ rw refused (inl (record { failed = refl; same_store = refl }))
      | inr given ↦
          rw (given, f.run, gives name)
            (inr (record {
              succeeded = refl;
              name = name;
              first_free = record {
                number = f.number;
                run = refl;
                free = f.free;
                above = f.above;
                all_taken = f.all_taken;
              };
              result = refl;
              alive = rw ((==_iff t t).1 refl) refl;
              no_users = rw ((==_iff t t).1 refl) refl;
              users = add_share-Rep t r n fresh shandle;
            }))
    ]
