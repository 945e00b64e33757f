-- ===== src/Multi/Events.antt =====
-- The transfers that Tcl's event loop drives after `auto`: curlEventCheck and curlEventProc of
-- generic/multi.c as the steps of the loop. Tcl calls the check procedure of an event source while it
-- exists, and the procedure of an event that is in the queue; the event goes away as that returns 1.
-- `snprintf n s` is what snprintf with %s leaves of `s` in a buffer of `n` bytes. A post command that
-- itself works on the multi handle is not modelled.
use tclcurl_ng.Base.{
  ==_iff, ◌∙◌, ℕ, suc, ◌+◌, ◌-◌, ◌≤◌, ◌<◌, ℤ, ◌≡◌, refl, String, List, [], ◌∷◌, Option, none, some,
  ◌==◌, if◌then◌else◌, arith, Bool-cases, inl, inr,
}
use tclcurl_ng.Api.{
  Tcl, Answers, Call, MultiAnswers, multi_perform, global_eval, delete_event_source, queue_event,
}
use tclcurl_ng.Mime.Transfer.{is_nonnegative}
use tclcurl_ng.Multi.Monad.{MultiState, log, modify_multi}
use tclcurl_ng.Multi.Command.{get_active_transfers}

-- The calls of curl_multi_perform in a log.
abbrev pub performs : Call → ℕ
performs (multi_perform m) = 1
performs _ = 0

abbrev pub performed : List Call → ℕ
performed [] = 0
performed (c ∷ cs) = performs c + performed cs

module _ (tcl : Tcl) (ask : Answers) (libcurl : MultiAnswers) (snprintf : ℕ → String → String) where
  -- What curlEventCheck does with the result of select.
  abbrev pub after_select : Option (ℤ × MultiState) → MultiState → MultiState
  after_select none s = s
  after_select (some (code, s)) before =
      if s.multi.running_transfers == 0
      then log delete_event_source (record s { sources = s.sources - 1 })
      else if is_nonnegative code
      then log queue_event (record s { queued = suc s.queued })
      else s

  -- curlEventCheck
  unfoldable pub event_check : MultiState → MultiState
  event_check s = after_select (get_active_transfers tcl ask libcurl s) s

  abbrev pub post : Option String → MultiState → MultiState
  post none s = s
  post (some script) s = log (global_eval (snprintf 299 script)) s

  -- curlEventProc, with the end of its event
  unfoldable pub event_proc : MultiState → MultiState
  event_proc s =
      let called = log (multi_perform s.multi.mcurl) s in
      let running = libcurl.running_transfers called.host.calls in
      let s' =
        modify_multi (λ d. record d { running_transfers = running })
          (record called { queued = called.queued - 1 }) in
      if running == 0 then post s'.multi.post_command s' else s'

  -- Some steps of the event loop, with the number of checks and of served events.
  pub data Steps (start : MultiState) : (checks serves : ℕ) → MultiState → Type 0 where
    none_yet : Steps start 0 0 start
    checked :
        {c k : ℕ} {s : MultiState}
        → Steps start c k s
        → 0 < s.sources
        → Steps start (suc c) k (event_check s)
    served :
        {c k : ℕ} {s : MultiState}
        → Steps start c k s
        → 0 < s.queued
        → Steps start c (suc k) (event_proc s)

  module _ (s : MultiState) where
    event_check-performed : performed (event_check s).host.calls ≡ performed s.host.calls
    unfolding event_check get_active_transfers
    event_check-performed = ground arith

    event_check-running : (event_check s).multi.running_transfers ≡ s.multi.running_transfers
    unfolding event_check get_active_transfers
    event_check-running = ground arith

    event_check-falls :
        s.multi.running_transfers ≡ 0
        → 0 < s.sources
        → suc ((event_check s).sources + (event_check s).queued) ≡ s.sources + s.queued
    unfolding event_check get_active_transfers
    event_check-falls idle there = ground arith

    post-same :
        (o : Option String)
        → (performed (post o s).host.calls ≡ performed s.host.calls)
          × ((post o s).multi.running_transfers ≡ s.multi.running_transfers)
          × ((post o s).sources ≡ s.sources)
          × ((post o s).queued ≡ s.queued)
    post-same none = (refl, refl, refl, refl)
    post-same (some script) = (omega arith, refl, refl, refl)

  module _ (n : ℕ)
      (quiet : (cs : List Call) → n ≤ performed cs → libcurl.running_transfers cs ≡ 0) where
    served_lem :
        (s : MultiState)
        → 0 < s.queued
        → (performed (event_proc s).host.calls ≡ suc (performed s.host.calls))
          × (n ≤ suc (performed s.host.calls) → (event_proc s).multi.running_transfers ≡ 0)
          × (suc ((event_proc s).sources + (event_proc s).queued) ≡ s.sources + s.queued)
    unfolding event_proc
    served_lem s waiting =
        let calls = multi_perform s.multi.mcurl ∷ s.host.calls in
        let running = libcurl.running_transfers calls in
        let s' =
          modify_multi (λ d. record d { running_transfers = running })
            (record (log (multi_perform s.multi.mcurl) s) { queued = s.queued - 1 }) in
        let (a, b, c, d) = post-same s' s.multi.post_command in
        elim (Bool-cases (running == 0)) [
          | inl idle ↦
              rw idle
                (omega (arith, a), λ h. b ∙ (==_iff running 0).0 idle, omega (arith, c, d, waiting))
          | inr busy ↦
              rw busy (omega arith, λ h. quiet calls (omega (arith, h)), omega (arith, waiting))
        ]

    Steps-running :
        {start : MultiState} {c k : ℕ} {s : MultiState}
        → Steps start c k s
        → (performed s.host.calls ≡ performed start.host.calls + k)
          × (0 < k → n ≤ performed s.host.calls → s.multi.running_transfers ≡ 0)
    Steps-running none_yet = (omega arith, λ none_served. absurd (omega (arith, none_served)))
    Steps-running (checked {s} steps there) =
        let (count, idle) = Steps-running steps in
        let same = event_check-performed s in
        (
          same ∙ count,
          λ some_served h. event_check-running s ∙ idle some_served (omega (arith, h, same)),
        )
    Steps-running (served {s} steps waiting) =
        let (count, idle) = Steps-running steps in
        let (one, ended, falls) = served_lem s waiting in
        (omega (arith, count, one), λ some_served h. ended (omega (arith, h, one)))

    -- From a state with no transfer running, each step takes one source or event away.
    Steps-falls :
        {start : MultiState} {c k : ℕ} {s : MultiState}
        → start.multi.running_transfers ≡ 0
        → n ≤ performed start.host.calls
        → Steps start c k s
        → (c + k + (s.sources + s.queued) ≡ start.sources + start.queued)
          × (s.multi.running_transfers ≡ 0)
          × (n ≤ performed s.host.calls)
    Steps-falls idle enough none_yet = (omega arith, idle, enough)
    Steps-falls idle enough (checked {s} steps there) =
        let (total, still, more) = Steps-falls idle enough steps in
        let falls = event_check-falls s still there in
        (
          omega (arith, total, falls),
          event_check-running s ∙ still,
          omega (arith, more, event_check-performed s),
        )
    Steps-falls idle enough (served {s} steps waiting) =
        let (total, still, more) = Steps-falls idle enough steps in
        let (one, ended, falls) = served_lem s waiting in
        (omega (arith, total, falls), ended (omega (arith, more)), omega (arith, more, one))

    -- Where libcurl reports no running transfer from its `n`th call of curl_multi_perform on: as soon as
    -- the event loop has served `n` events, and one at least, every further step takes away one event
    -- source or one queued event, and no transfer is running. So the loop, in whatever order its steps
    -- come, has as many steps left as there are sources and events, and then nothing to do.
    pub Steps-silent :
        {start : MultiState} {c₁ k₁ c₂ k₂ : ℕ} {s₁ s₂ : MultiState}
        → Steps start c₁ k₁ s₁
        → n ≤ k₁
        → 0 < k₁
        → Steps s₁ c₂ k₂ s₂
        → (c₂ + k₂ + (s₂.sources + s₂.queued) ≡ s₁.sources + s₁.queued)
          × (s₂.multi.running_transfers ≡ 0)
    Steps-silent first many some_served later =
        let (count, idle) = Steps-running first in
        let (total, still, more) =
          Steps-falls (idle some_served (omega (arith, count, many))) (omega (arith, count, many))
            later in
        (total, still)
