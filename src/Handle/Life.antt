-- ===== src/Handle/Life.antt =====
-- What init, reset and delete leave behind.
use tclcurl_ng.Base.{
  ℕ, ◌+◌, ◌≡◌, ◌≢◌, ◌↔◌, refl, sym, ap, ◌∙◌, String, List, ◌∷◌, none, arith, ◌==◌, Bool-cases,
  Option-cases, inl, inr,
}
use tclcurl_ng.Api.{Answers, global_init, easy_init, easy_cleanup}
use tclcurl_ng.Api.Easy.{CurlObjData, blank}
use tclcurl_ng.Api.Monad.{State}
use tclcurl_ng.Commands.{create_obj_cmd}
use tclcurl_ng.Handle.{init_obj_cmd, reset_handle, delete_cmd, free_space, freed}
use tclcurl_ng.Handle.Quiet.{quiet-Run, free_space-Run, call_all-calls}
use tclcurl_ng.Options.Sharing.{detach_share_handle}
use tclcurl_ng.Options.Sharing.Users.{detach_share_handle_lem}
use tclcurl_ng.Options.Sound.{IsSound}
use tclcurl_ng.Share.{Store, detach, clear_links}
use tclcurl_ng.Share.Rep.{Users, Rep, leave}
use tclcurl_ng.Share.Sound.{detach-Rep}
use tclcurl_ng.Transfer.Balance.{one, opened, closed, held, Balanced}
use tclcurl_ng.Transfer.Running.{Run, performed}

module _ (ask : Answers) (s : State) where
  detach_share_handle-easy : (detach_share_handle ask s).1.easy ≡ s.easy
  unfolding detach_share_handle
  detach_share_handle-easy = ground arith

  pub detach_share_handle-Run :
      {fp : ℕ} (n : ℕ) → Run fp ask n s → Run fp ask n (detach_share_handle ask s).1
  unfolding detach_share_handle
  detach_share_handle-Run n v = ground arith

  free_space-easy : (d : CurlObjData) → (free_space ask d s).1.easy ≡ s.easy
  unfolding free_space
  free_space-easy d = ap (λ (s : State). s.easy) (call_all-calls ask (freed d) s)

  free_space-shares : (d : CurlObjData) → (free_space ask d s).1.shares ≡ s.shares
  unfolding free_space
  free_space-shares d = ap (λ (s : State). s.shares) (call_all-calls ask (freed d) s)

module _ (ask : Answers) (s : State) where
  abbrev detached : State
  detached = (detach_share_handle ask s).1

  pub reset_handle-easy : (reset_handle ask s).1.easy ≡ blank s.easy.curl s.easy.token
  unfolding reset_handle
  reset_handle-easy =
      let e = free_space-easy ask detached detached.easy ∙ detach_share_handle-easy ask s in
      ap (λ (d : CurlObjData). blank d.curl d.token) e

  reset_handle-shares : (reset_handle ask s).1.shares ≡ detach s.self s.shares
  unfolding reset_handle
  reset_handle-shares = free_space-shares ask detached detached.easy ∙ detach_share_handle_lem ask s

module _ (ask : Answers) (print : ℕ → String) (taken : List String) (memory : State) where
  init_obj_cmd-easy :
      (init_obj_cmd ask print taken memory).0 ≢ none
      → (init_obj_cmd ask print taken memory).1.easy
        ≡ blank
            (init_obj_cmd ask print taken memory).1.easy.curl
            (init_obj_cmd ask print taken memory).1.easy.token
  unfolding init_obj_cmd
  init_obj_cmd-easy made = elim (Bool-cases (ask (easy_init ∷ global_init ∷ memory.calls) == 0)) [
    | inl e ↦ let z : (init_obj_cmd ask print taken memory).0 ≡ none = rw e refl in absurd (made z)
    | inr e ↦ elim (Option-cases (create_obj_cmd print taken)) [
      | inl f ↦ rw (e, f) refl
      | inr (created, f) ↦ rw (e, f) refl
    ]
  ]

detach-cleared :
    (e : ℕ) (s : Store) → ((detach e s).share_token e ≡ 0) × ((detach e s).next_shared e ≡ 0)
unfolding detach clear_links
detach-cleared e s = ground arith

-- reset takes the handle out of the list of users of its share handle.
pub reset_handle-Rep :
    (ask : Answers) (s : State) (l : Users)
    → Rep s.shares l
    → Rep (reset_handle ask s).1.shares (leave s.self l)
reset_handle-Rep ask s l r = rw (reset_handle-shares ask s) (detach-Rep s.self r)

-- Where the links represent lists of users: a reset handle has the very fields of CurlObjData that
-- curl::init gave to a handle with its CURL and its token, whatever memory that started from and
-- whatever was done to the handle since; its two links are NULL, as memset leaves them; and the links
-- represent the same lists without it, so that no share handle points to it any more.
pub reset_handle-init_obj_cmd :
    (ask : Answers) (print : ℕ → String) (taken : List String) (memory s : State) (l : Users)
    → (init_obj_cmd ask print taken memory).0 ≢ none
    → s.easy.curl ≡ (init_obj_cmd ask print taken memory).1.easy.curl
    → s.easy.token ≡ (init_obj_cmd ask print taken memory).1.easy.token
    → Rep s.shares l
    → ((reset_handle ask s).1.easy ≡ (init_obj_cmd ask print taken memory).1.easy)
      × ((reset_handle ask s).1.shares.share_token s.self ≡ 0)
      × ((reset_handle ask s).1.shares.next_shared s.self ≡ 0)
      × Rep (reset_handle ask s).1.shares (leave s.self l)
reset_handle-init_obj_cmd ask print taken memory s l made curl token r =
    let (no_token, no_next) = detach-cleared s.self s.shares in
    (
      reset_handle-easy ask s
          ∙ ap (λ (c : ℕ). blank c s.easy.token) curl
          ∙ ap (λ (t : ℕ). blank (init_obj_cmd ask print taken memory).1.easy.curl t) token
          ∙ sym (init_obj_cmd-easy ask print taken memory made),
      rw (reset_handle-shares ask s) no_token,
      rw (reset_handle-shares ask s) no_next,
      reset_handle-Rep ask s l r,
    )

held-blank : (fp : ℕ) → one fp 0 ≡ 0 → (curl token : ℕ) → held fp (blank curl token) ≡ 0
held-blank fp not_null curl token = omega (arith, not_null)

module _ {fp : ℕ} (ask : Answers) (s : State) (v : IsSound fp ask s) where
  reset_counts :
      (opened ask fp (reset_handle ask s).1.calls
        ≡ closed fp (reset_handle ask s).1.calls + held fp s.easy)
      × (performed (reset_handle ask s).1.calls ≡ performed s.calls)
  unfolding reset_handle
  reset_counts =
      let v1 =
        detach_share_handle-Run ask s (performed s.calls) (record { files = v; started = refl }) in
      let v2 = free_space-Run ask (performed s.calls) (detached ask s).easy (detached ask s) v1 in
      let e =
        free_space-easy ask (detached ask s) (detached ask s).easy
        ∙ detach_share_handle-easy ask s in
      let same = ap (held fp) e in
      (omega (arith, v2.files.balanced, same), omega (arith, v2.started))

  -- From a sound state, reset keeps account of a FILE pointer exactly if no field of the handle holds
  -- it: reset clears the FILE pointers without closing them. It starts no transfer.
  pub reset_handle-Balanced :
      (Balanced fp ask (reset_handle ask s).1 ↔ (held fp s.easy ≡ 0))
      × (performed (reset_handle ask s).1.calls ≡ performed s.calls)
  reset_handle-Balanced =
      let same : held fp (reset_handle ask s).1.easy ≡ 0 =
        ap (held fp) (reset_handle-easy ask s)
        ∙ held-blank fp v.not_null s.easy.curl s.easy.token in
      let (counts, started) = reset_counts in
      ((λ b. omega (arith, counts, b, same), λ h. omega (arith, counts, h, same)), started)

-- delete does so too, and keeps the files sound.
pub delete_cmd-Rep :
    (ask : Answers) (s : State) (l : Users)
    → Rep s.shares l
    → Rep (delete_cmd ask s).1.shares (leave s.self l)
unfolding delete_cmd
delete_cmd-Rep ask s l r =
    let s1 = detached ask s in
    let s2 = record s1 { calls = easy_cleanup s1.easy.curl ∷ s1.calls } in
    rw (free_space-shares ask s2 s1.easy ∙ detach_share_handle_lem ask s) (detach-Rep s.self r)

pub delete_cmd-Run :
    {fp : ℕ} (ask : Answers) (n : ℕ) (s : State)
    → Run fp ask n s
    → Run fp ask n (delete_cmd ask s).1
unfolding delete_cmd
delete_cmd-Run ask n s v =
    let s1 = detached ask s in
    free_space-Run ask n s1.easy (record s1 { calls = easy_cleanup s1.easy.curl ∷ s1.calls })
      (quiet-Run ask n (easy_cleanup s1.easy.curl) s1 refl (detach_share_handle-Run ask s n v))
