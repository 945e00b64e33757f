-- ===== src/Multi/Session.antt =====
-- The life of a multi handle, from curl::multiinit to its deletion.
use tclcurl_ng.Base.{
  ℕ, ◌≡◌, ◌≢◌, refl, ◌∙◌, String, List, ◌∷◌, Option, none, some, Bool, ◌==◌, arith, inl, inr,
  Bool-cases, Option-cases,
}
use mathlib.Core.Path.{subst}
use tclcurl_ng.Api.{Tcl, Answers, MultiAnswers, multi_init, multi_perform, multi_cleanup, tcl_free}
use tclcurl_ng.Api.Monad.{Status, State}
use tclcurl_ng.Commands.{create_multi_obj_cmd}
use tclcurl_ng.Handle.{Created}
use tclcurl_ng.Multi.Command.{
  empty_list, free_nodes, init_multi_obj_cmd, multi_delete_cmd, get_active_transfers, return_code,
}
use tclcurl_ng.Multi.Dispatch.{MultiCommandId, cleanup, dispatch}
use tclcurl_ng.Multi.Events.{event_check, event_proc, post}
use tclcurl_ng.Multi.Monad.{MultiState}
use tclcurl_ng.Multi.Own.{Keeps, dispatch-Keeps}

module _ (tcl : Tcl) (ask : Answers) (libcurl : MultiAnswers) (snprintf : ℕ → String → String)
    (print : ℕ → String) (limit : ℕ) where
  -- The states of a multi handle: after curl::multiinit, after any of its commands but cleanup, and
  -- after the steps of the event loop. In between, anything may happen to the easy handles and the log.
  pub data MultiSession : MultiState → Type 0 where
    opened :
        {created : Created} {s : MultiState} (taken : List String) (memory : MultiState)
        → init_multi_obj_cmd ask print limit taken memory ≡ some (some created, s)
        → MultiSession s
    obeyed :
        {status : Status} {s s' : MultiState} (known : String → Bool) (p fuel : ℕ)
        (id : MultiCommandId) (args : List String)
        → id ≢ cleanup
        → dispatch tcl ask libcurl known p fuel id args s ≡ some (status, s')
        → MultiSession s
        → MultiSession s'
    checked :
        {s : MultiState} → MultiSession s → MultiSession (event_check tcl ask libcurl snprintf s)
    served :
        {s : MultiState} → MultiSession s → MultiSession (event_proc tcl ask libcurl snprintf s)
    elsewhere :
        {s : MultiState} (host : State) → MultiSession s → MultiSession (record s { host = host })

  event_check-list :
      (s : MultiState)
      → (event_check tcl ask libcurl snprintf s).multi.handle_list ≡ s.multi.handle_list
  unfolding event_check get_active_transfers
  event_check-list s = ground arith

  post-list :
      (o : Option String) (s : MultiState)
      → (post tcl ask libcurl snprintf o s).multi.handle_list ≡ s.multi.handle_list
  post-list none s = refl
  post-list (some script) s = refl

  event_proc-list :
      (s : MultiState)
      → (event_proc tcl ask libcurl snprintf s).multi.handle_list ≡ s.multi.handle_list
  unfolding event_proc
  event_proc-list s =
      let calls = multi_perform s.multi.mcurl ∷ s.host.calls in
      elim (Bool-cases (libcurl.running_transfers calls == 0)) [
        | inl idle ↦ rw idle (post-list s.multi.post_command _)
        | inr busy ↦ rw busy refl
      ]

  init-list :
      (taken : List String) (memory : MultiState)
      → Keeps (empty_list limit) (init_multi_obj_cmd ask print limit taken memory)
  unfolding init_multi_obj_cmd
  init-list taken memory = elim (Bool-cases (ask (multi_init ∷ memory.host.calls) == 0)) [
    | inl refused ↦ rw refused refl
    | inr given ↦ elim (Option-cases (create_multi_obj_cmd print taken)) [
      | inl e ↦ rw (given, e) refl
      | inr (created, e) ↦ rw (given, e) refl
    ]
  ]

  MultiSession-list : {s : MultiState} → MultiSession s → s.multi.handle_list ≡ empty_list limit
  MultiSession-list (opened taken memory e) =
      subst (λ r. Keeps (empty_list limit) r) e (init-list taken memory)
  MultiSession-list (obeyed {status} {s} {s'} known p fuel id args n e before) =
      subst (λ r. Keeps (empty_list limit) r) e
        (dispatch-Keeps tcl ask libcurl (empty_list limit) known p fuel id args s n
          (MultiSession-list before))
  MultiSession-list (checked {s} before) = event_check-list s ∙ MultiSession-list before
  MultiSession-list (served {s} before) = event_proc-list s ∙ MultiSession-list before
  MultiSession-list (elsewhere host before) = MultiSession-list before

  -- What deleting a multi handle does.
  pub record IsDeleted (before : MultiState) (r : Option (Status × MultiState)) : Type 0 where
    pub status : Status
    pub after : MultiState
    pub run : r ≡ some (status, after)
    pub calls :
        after.host.calls
        ≡ tcl_free before.multi.post_command
          ∷ multi_cleanup before.multi.mcurl
          ∷ multi_cleanup before.multi.mcurl
          ∷ before.host.calls

  -- In every state that a multi handle reaches from curl::multiinit by its own commands other than
  -- cleanup and by the steps of the event loop, the list in its own struct is empty, however many easy
  -- handles were added; so deleting the handle returns and frees no name of an easy handle, and it
  -- calls curl_multi_cleanup on the same pointer twice.
  pub MultiSession-IsDeleted :
      {s : MultiState}
      → MultiSession s
      → (s.multi.handle_list ≡ empty_list limit) × IsDeleted s (multi_delete_cmd tcl ask libcurl s)
  unfolding multi_delete_cmd free_nodes return_code
  MultiSession-IsDeleted {s} session =
      let e = MultiSession-list session in
      (e, rw e (record { status = _; after = _; run = refl; calls = refl }))
