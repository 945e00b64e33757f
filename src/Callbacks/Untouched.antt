-- ===== src/Callbacks/Untouched.antt =====
-- No callback touches the links between easy and share handles.
use tclcurl_ng.Base.{
  ℕ, ℤ, refl, String, List, [], ◌∷◌, Option, none, some, arith, inl, inr, ◌==◌, Bool-cases,
  Option-cases,
}
use tclcurl_ng.Api.{Tcl, Answers, Results, Word, number, script, eval_words}
use tclcurl_ng.Api.Monad.{State, ◌>>=◌, pure}
use tclcurl_ng.Callbacks
use tclcurl_ng.Callbacks.{
  body_reader, take_cancel, set_header, header_reader, progress_callback, write_proc_invoke,
  read_proc_invoke, debug_proc_invoke, chunk_var, file_type, set_info, chunk_bgn_invoke,
  chunk_end_invoke, fnmatch_invoke, ssh_key_callback, FileInfo, KeyType, KeyMatch,
}
use tclcurl_ng.Callbacks.Events.{
  Event, header, body, progress, write_proc, read_proc, debug, chunk_bgn, chunk_end, fnmatch,
  ssh_key, run_event, run_events,
}
use tclcurl_ng.Options.Untouched.{Untouched, Untouched-trans, Untouched-refl}

module _ (tcl : Tcl) (ask : Answers) (results : Results) (s : State) where
  set_info-Untouched :
      (var : String) (info : FileInfo) → Untouched s (set_info tcl ask results var info s).1
  unfolding set_info
  set_info-Untouched var info = elim (Option-cases (file_type info.filetype)) [
    | inl e ↦ rw e (record { same_shares = refl; same_self = refl; same_commands = refl })
    | inr (word, e) ↦ rw e (record { same_shares = refl; same_self = refl; same_commands = refl })
  ]

  chunk_var-Untouched : (var : Option String) → Untouched s (chunk_var tcl ask results var s).1
  unfolding chunk_var
  chunk_var-Untouched none = ground arith
  chunk_var-Untouched (some var) = Untouched-refl

  header-Untouched :
      (line : String) (size : ℕ) → Untouched s (run_event tcl ask results (header line size) s).1
  unfolding run_event header_reader set_header
  header-Untouched line size = ground arith

  progress-Untouched :
      (a b c d : ℤ) → Untouched s (run_event tcl ask results (progress a b c d) s).1
  unfolding run_event progress_callback take_cancel
  progress-Untouched a b c d = ground arith

  write_proc-Untouched :
      (chunk : List ℕ) → Untouched s (run_event tcl ask results (write_proc chunk) s).1
  unfolding run_event write_proc_invoke take_cancel
  write_proc-Untouched chunk = ground arith

  read_proc-Untouched : (room : ℕ) → Untouched s (run_event tcl ask results (read_proc room) s).1
  unfolding run_event read_proc_invoke take_cancel
  read_proc-Untouched room = ground arith

  debug-Untouched :
      (t : ℤ) (chunk : List ℕ) → Untouched s (run_event tcl ask results (debug t chunk) s).1
  unfolding run_event debug_proc_invoke take_cancel
  debug-Untouched t chunk = ground arith

  chunk_end-Untouched : Untouched s (run_event tcl ask results chunk_end s).1
  unfolding run_event chunk_end_invoke
  chunk_end-Untouched = ground arith

  fnmatch-Untouched : (p f : String) → Untouched s (run_event tcl ask results (fnmatch p f) s).1
  unfolding run_event fnmatch_invoke
  fnmatch-Untouched p f = ground arith

  ssh_key-Untouched :
      (k f : KeyType × String) (m : KeyMatch)
      → Untouched s (run_event tcl ask results (ssh_key k f m) s).1
  unfolding run_event ssh_key_callback
  ssh_key-Untouched k f m = ground arith

evaluate-Untouched :
    (tcl : Tcl) (ask : Answers) (results : Results) (words : List Word) (s : State)
    → Untouched s
        ((do
          done ← Callbacks.evaluate tcl ask results words
          r ← Callbacks.int_result tcl ask results done
          pure (Callbacks.chunk_bgn_code r))
          s).1
evaluate-Untouched tcl ask results words s =
    elim (Bool-cases (ask (eval_words words ∷ s.calls) == 0)) [
      | inl e ↦ rw e (record { same_shares = refl; same_self = refl; same_commands = refl })
      | inr e ↦ rw e (record { same_shares = refl; same_self = refl; same_commands = refl })
    ]

module _ (tcl : Tcl) (ask : Answers) (results : Results) where
  chunk_bgn-Untouched :
      (s : State) (info : FileInfo) (r : ℤ)
      → Untouched s (run_event tcl ask results (chunk_bgn info r) s).1
  unfolding run_event chunk_bgn_invoke
  chunk_bgn-Untouched s info r =
      let (var, s1) = chunk_var tcl ask results s.easy.chunk_bgn_var s in
      let s2 = (set_info tcl ask results var info s1).1 in
      Untouched-trans (chunk_var-Untouched tcl ask results s s.easy.chunk_bgn_var) (
        Untouched-trans (set_info-Untouched tcl ask results s1 var info) (
          evaluate-Untouched tcl ask results
            (script (Callbacks.text_of s2.easy.chunk_bgn_proc) ∷ number r ∷ []) s2))

  run_event-Untouched :
      (s : State) (event : Event) → Untouched s (run_event tcl ask results event s).1
  unfolding run_event body_reader
  run_event-Untouched s (header l z) = header-Untouched tcl ask results s l z
  run_event-Untouched s (body chunk) = ground arith
  run_event-Untouched s (progress a b c d) = progress-Untouched tcl ask results s a b c d
  run_event-Untouched s (write_proc chunk) = write_proc-Untouched tcl ask results s chunk
  run_event-Untouched s (read_proc room) = read_proc-Untouched tcl ask results s room
  run_event-Untouched s (debug t chunk) = debug-Untouched tcl ask results s t chunk
  run_event-Untouched s (chunk_bgn i r) = chunk_bgn-Untouched s i r
  run_event-Untouched s chunk_end = chunk_end-Untouched tcl ask results s
  run_event-Untouched s (fnmatch p f) = fnmatch-Untouched tcl ask results s p f
  run_event-Untouched s (ssh_key k f m) = ssh_key-Untouched tcl ask results s k f m

  pub run_events-Untouched :
      (events : List Event) (s : State) → Untouched s (run_events tcl ask results events s).1
  unfolding run_events
  run_events-Untouched [] s = Untouched-refl
  run_events-Untouched (e ∷ es) s =
      Untouched-trans (run_event-Untouched s e)
        (run_events-Untouched es (run_event tcl ask results e s).1)
