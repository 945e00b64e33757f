-- ===== src/Transfer/Wires/Events.antt =====
-- What the callbacks of generic/tclcurl.c do to the function for received data and its argument.
use tclcurl_ng.Base.{
  ℤ, String, List, [], ◌∷◌, Option, none, some, arith, inl, inr, ◌==◌, Bool-cases, Option-cases,
}
use tclcurl_ng.Api.{Tcl, Answers, Results, Word, number, script, eval_words}
use tclcurl_ng.Api.Monad.{State, ◌>>=◌, pure}
use tclcurl_ng.Callbacks
use tclcurl_ng.Callbacks.{
  body_reader, take_cancel, set_header, header_reader, progress_callback, write_proc_invoke,
  read_proc_invoke, debug_proc_invoke, chunk_var, file_type, set_info, chunk_bgn_invoke,
  chunk_end_invoke, fnmatch_invoke, ssh_key_callback, FileInfo,
}
use tclcurl_ng.Callbacks.Events.{Event, chunk_bgn, run_event, run_events}
use tclcurl_ng.Transfer.Wires.{Calm, Calm-refl, Calm-trans}

module _ (tcl : Tcl) (ask : Answers) (results : Results) (s : State) where
  set_info-Calm :
      (var : String) (info : FileInfo) → Calm ask s (set_info tcl ask results var info s).1
  unfolding set_info
  set_info-Calm var info = elim (Option-cases (file_type info.filetype)) [
    | inl e ↦ rw e (ground arith)
    | inr (word, e) ↦ rw e (ground arith)
  ]

  chunk_var-Calm : (var : Option String) → Calm ask s (chunk_var tcl ask results var s).1
  unfolding chunk_var
  chunk_var-Calm none = ground arith
  chunk_var-Calm (some var) = Calm-refl

  evaluate-Calm :
      (words : List Word)
      → Calm ask s
          ((do
            done ← Callbacks.evaluate tcl ask results words
            r ← Callbacks.int_result tcl ask results done
            pure (Callbacks.chunk_bgn_code r))
            s).1
  evaluate-Calm words = elim (Bool-cases (ask (eval_words words ∷ s.calls) == 0)) [
    | inl e ↦ rw e (ground arith)
    | inr e ↦ rw e (ground arith)
  ]

module _ (tcl : Tcl) (ask : Answers) (results : Results) where
  chunk_bgn-Calm :
      (s : State) (info : FileInfo) (r : ℤ)
      → Calm ask s (run_event tcl ask results (chunk_bgn info r) s).1
  unfolding run_event chunk_bgn_invoke
  chunk_bgn-Calm s info r =
      let (var, s1) = chunk_var tcl ask results s.easy.chunk_bgn_var s in
      let s2 = (set_info tcl ask results var info s1).1 in
      Calm-trans (chunk_var-Calm tcl ask results s s.easy.chunk_bgn_var) (
        Calm-trans (set_info-Calm tcl ask results s1 var info) (
          evaluate-Calm tcl ask results s2
            (script (Callbacks.text_of s2.easy.chunk_bgn_proc) ∷ number r ∷ [])))

  run_event-Calm : (s : State) (event : Event) → Calm ask s (run_event tcl ask results event s).1
  unfolding run_event body_reader header_reader set_header progress_callback take_cancel
      write_proc_invoke read_proc_invoke debug_proc_invoke chunk_end_invoke fnmatch_invoke
      ssh_key_callback
  run_event-Calm s (chunk_bgn info r) = chunk_bgn-Calm s info r
  run_event-Calm s _ = ground arith

  pub run_events-Calm :
      (events : List Event) (s : State) → Calm ask s (run_events tcl ask results events s).1
  unfolding run_events
  run_events-Calm [] s = Calm-refl
  run_events-Calm (e ∷ es) s =
      Calm-trans (run_event-Calm s e) (run_events-Calm es (run_event tcl ask results e s).1)
