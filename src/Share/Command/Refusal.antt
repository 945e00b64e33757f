-- ===== src/Share/Command/Refusal.antt =====
-- A share handle that is in use is not cleaned up by its command.
use tclcurl_ng.Base.{
  ℕ, ◌≡◌, ◌≢◌, refl, ap, ◌⊎◌, inl, inr, ◌==◌, ==_iff, true, false, Bool-cases, List, [], ◌∷◌, arith,
}
use tclcurl_ng.Api.{Tcl, IsTcl, share_cleanup}
use tclcurl_ng.Api.Monad.{Status, ok, error}
use tclcurl_ng.Share.Chain.{Chain}
use tclcurl_ng.Share.Rep.{Users, Rep, dissolve}
use tclcurl_ng.Share.CleanUp.{clean_up-Rep}
use tclcurl_ng.Share.Command.{
  Shared, unset_share, clean_up_end, clean_up_share_cmd, share_cmd, cleanup_arguments, dispatch,
  share_obj_cmd,
}

-- The end of `cleanup` on a share handle that has users and on one that has none.
pub record IsRefused (before : Shared) (r : Status × Shared) : Type 0 where
  pub status : r.0 ≡ error
  pub same_store : r.1.store ≡ before.store
  pub same_calls : r.1.calls ≡ before.calls

pub record IsDeleted (t : ℕ) (l : Users) (before : Shared) (r : Status × Shared) : Type 0 where
  pub status : r.0 ≡ ok
  pub represented : Rep r.1.store (dissolve t l)
  pub dead : r.1.store.alive t ≡ false
  pub one_call : r.1.calls ≡ share_cleanup (before.store.shandle t) ∷ before.calls

Chain-empty : (nx : ℕ → ℕ) (p : ℕ) (xs : List ℕ) → Chain nx p xs → (p == 0) ≡ true → xs ≡ []
Chain-empty nx p [] c e = refl
Chain-empty nx p (x ∷ xs) c e = absurd (ground (arith, (==_iff p 0).0 e, c.0, c.1))

Chain-used : (nx : ℕ → ℕ) (p : ℕ) (xs : List ℕ) → Chain nx p xs → (p == 0) ≡ false → xs ≢ []
Chain-used nx p [] c e = absurd (ground (arith, (==_iff p 0).1 c))
Chain-used nx p (x ∷ xs) c e = ground arith

module _ (tcl : Tcl) (curl : ℕ → ℕ) (t : ℕ) (s : Shared) (l : Users) where
  -- Deleting the command of a share handle without users.
  delete_unused :
      Rep s.store l
      → s.store.alive t ≡ true
      → l t ≡ []
      → IsDeleted t l s (ok, clean_up_share_cmd curl t s)
  unfolding clean_up_share_cmd clean_up_end unset_share
  delete_unused r live e =
      let (s', run, rep, dead, alone) = clean_up-Rep t r live in
      rw run (record {
        status = refl;
        represented = rep;
        dead = dead;
        one_call = ap (λ es. share_cleanup (s.store.shandle t) ∷ unset_share curl es s.calls) e;
      })

  cleanup_end :
      Rep s.store l
      → s.store.alive t ≡ true
      → (IsRefused s (cleanup_arguments tcl curl t [] s) × (l t ≢ []))
        ⊎ (IsDeleted t l s (cleanup_arguments tcl curl t [] s) × (l t ≡ []))
  unfolding cleanup_arguments
  cleanup_end r live =
      let chain = r.chain t live in
      elim (Bool-cases (s.store.users t == 0)) [
        | inl unused ↦
            let e = Chain-empty s.store.next_shared (s.store.users t) (l t) chain unused in
            rw unused (inr (delete_unused r live e, e))
        | inr used ↦ rw used (
            inl (
              record { status = refl; same_store = refl; same_calls = refl },
              Chain-used s.store.next_shared (s.store.users t) (l t) chain used,
            ))
      ]

  -- The word cleanup on the command of a live share handle, where the links represent lists of users:
  -- with a user it is an error that changes nothing and calls nothing; with none the handle is
  -- deleted by one call of curl_share_cleanup, and the links represent the lists as they were.
  pub share_obj_cmd-cleanup :
      IsTcl tcl
      → Rep s.store l
      → s.store.alive t ≡ true
      → (IsRefused s (share_obj_cmd tcl curl t ("cleanup" ∷ []) s) × (l t ≢ []))
        ⊎ (IsDeleted t l s (share_obj_cmd tcl curl t ("cleanup" ∷ []) s) × (l t ≡ []))
  unfolding share_obj_cmd dispatch
  share_obj_cmd-cleanup v r live = rw (v.exact share_cmd "cleanup") (cleanup_end r live)
