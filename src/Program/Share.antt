-- ===== src/Program/Share.antt =====
-- What deleting a share handle leaves of the other share handles.
use tclcurl_ng.Base.{
  ℕ, zero, suc, ◌≡◌, refl, ap, String, ◌∙◌, ◌⊎◌, inl, inr, List, [], ◌∷◌, Option, none, some, Bool,
  true, false, ◌==◌, arith, Bool-cases, Option-cases,
}
use tclcurl_ng.Api.{Tcl, Answers, share_init}
use tclcurl_ng.Commands.{create_share_obj_cmd}
use tclcurl_ng.Share.{Store, update, clear_users, clear_links, clean_up}
use tclcurl_ng.Share.CleanUp.{clean_up-Rep}
use tclcurl_ng.Share.Command.{
  Shared, share_obj_cmd, clean_up_end, clean_up_share_cmd, set_lock, lock_arguments,
  cleanup_arguments, dispatch, share_cmd, lock_data,
}
use tclcurl_ng.Share.Init.{share_init_obj_cmd}
use tclcurl_ng.Share.Rep.{Users, Rep, dissolve}

-- The store `s'` is `s` without the share handle `t`.
pub record Without (t : ℕ) (l : Users) (s s' : Store) : Type 0 where
  pub rep : Rep s' (dissolve t l)
  pub alive : s'.alive ≡ update s.alive t false
  pub limit : s'.limit ≡ s.limit

clear_users-same :
    (k e : ℕ) (s s' : Store) (es : List ℕ)
    → clear_users k e s ≡ some (es, s')
    → (s'.alive ≡ s.alive) × (s'.limit ≡ s.limit)
unfolding clear_users clear_links
clear_users-same zero e s s' es h = absurd (ground (arith, h))
clear_users-same (suc k) e s s' es h = elim (Bool-cases (e == 0)) [
  | inl last ↦ ground (arith, last)
  | inr more ↦ elim (Option-cases (clear_users k (s.next_shared e) (clear_links e s))) [
    | inl out ↦ absurd (ground (arith, out, more))
    | inr ((es', s''), rest) ↦
        let ih = clear_users-same k (s.next_shared e) (clear_links e s) s'' es' rest in
        let e' : s'' ≡ s' = ground (arith, h, rest, more) in ground (arith, ih, e')
  ]
]

module _ (t : ℕ) {s : Store} {l : Users} (r : Rep s l) (live : s.alive t ≡ true) where
  clean_up-Without :
      (es : List ℕ) (s' : Store)
      → clean_up t s ≡ some (es, s')
      → Rep s' (dissolve t l)
      → Without t l s s'
  unfolding clean_up
  clean_up-Without es s' run rep = elim (Option-cases (clear_users (suc s.limit) (s.users t) s)) [
    | inl out ↦ absurd (ground (arith, out, run))
    | inr ((es', s''), cut) ↦
        let same = clear_users-same (suc s.limit) (s.users t) s s'' es' cut in
        let e : s' ≡ record s'' { users = update s''.users t 0; alive = update s''.alive t false } =
          ground (arith, cut, run) in
        record {
          rep = rep;
          alive = ap (λ (x : Store). x.alive) e ∙ ap (λ (f : ℕ → Bool). update f t false) same.0;
          limit = ap (λ (x : Store). x.limit) e ∙ same.1;
        }
  ]

-- Deleting a live share handle.
pub clean_up_share_cmd-Without :
    (curl : ℕ → ℕ) (t : ℕ) (s : Shared) (l : Users)
    → Rep s.store l
    → s.store.alive t ≡ true
    → Without t l s.store (clean_up_share_cmd curl t s).store
unfolding clean_up_share_cmd clean_up_end
clean_up_share_cmd-Without curl t s l r live =
    let (s', run, rep, dead, alone) = clean_up-Rep t r live in
    rw run (clean_up-Without t r live (l t) s' run rep)

-- The command of a live share handle changes no link, or it deletes the handle.
module _ (tcl : Tcl) (curl : ℕ → ℕ) (t : ℕ) (s : Shared) (l : Users) (r : Rep s.store l)
    (live : s.store.alive t ≡ true) where
  abbrev Ends : Shared → Type 0
  Ends s' = (s'.store ≡ s.store) ⊎ Without t l s.store s'.store

  set_lock-Ends : (lock : Bool) (o : Option ℕ) → Ends (set_lock tcl curl t lock o s).1
  unfolding set_lock
  set_lock-Ends lock none = inl refl
  set_lock-Ends lock (some i) = inl refl

  lock_arguments-Ends :
      (lock : Bool) (os : List String) → Ends (lock_arguments tcl curl t lock os s).1
  unfolding lock_arguments
  lock_arguments-Ends lock [] = inl refl
  lock_arguments-Ends lock (o ∷ []) = set_lock-Ends lock (tcl.get_index lock_data o)
  lock_arguments-Ends lock (o ∷ o' ∷ os) = inl refl

  cleanup_arguments-Ends : (os : List String) → Ends (cleanup_arguments tcl curl t os s).1
  unfolding cleanup_arguments
  cleanup_arguments-Ends (o ∷ os) = inl refl
  cleanup_arguments-Ends [] = elim (Bool-cases (s.store.users t == 0)) [
    | inl unused ↦ rw unused (inr (clean_up_share_cmd-Without curl t s l r live))
    | inr used ↦ rw used (inl refl)
  ]

  dispatch-Ends : (o : Option ℕ) (os : List String) → Ends (dispatch tcl curl t o os s).1
  unfolding dispatch
  dispatch-Ends none os = inl refl
  dispatch-Ends (some zero) os = lock_arguments-Ends true os
  dispatch-Ends (some (suc zero)) os = lock_arguments-Ends false os
  dispatch-Ends (some (suc (suc zero))) os = cleanup_arguments-Ends os
  dispatch-Ends (some (suc (suc (suc i)))) os = inl refl

  pub share_obj_cmd-Ends : (args : List String) → Ends (share_obj_cmd tcl curl t args s).1
  unfolding share_obj_cmd
  share_obj_cmd-Ends [] = inl refl
  share_obj_cmd-Ends (o ∷ os) = dispatch-Ends (tcl.get_index share_cmd o) os

-- curl::shareinit gives no easy handle a share handle, and no share handle goes away.
module _ (ask : Answers) (print : ℕ → String) (taken : List String) (s : Shared) where
  pub record Grown (s' : Shared) : Type 0 where
    pub limit : s'.store.limit ≡ s.store.limit
    pub tokens : s'.store.share_token ≡ s.store.share_token
    pub alive : (u : ℕ) → s.store.alive u ≡ true → s'.store.alive u ≡ true

  pub share_init_obj_cmd-Grown : Grown (share_init_obj_cmd ask print taken s).1
  unfolding share_init_obj_cmd
  share_init_obj_cmd-Grown = elim (Bool-cases (ask (share_init ∷ s.calls) == 0)) [
    | inl refused ↦ rw refused (record { limit = refl; tokens = refl; alive = λ u h. h })
    | inr given ↦ elim (Option-cases (create_share_obj_cmd print taken)) [
      | inl e ↦ rw (given, e) (record { limit = refl; tokens = refl; alive = λ u h. h })
      | inr ((name, names), e) ↦
          rw (given, e) (record { limit = refl; tokens = refl; alive = λ u h. ground (arith, h) })
    ]
  ]
