-- ===== src/Transfer/Running.antt =====
-- What opening files, posting data and the callbacks keep true: the files are sound, and the number
-- of started transfers stays.
use tclcurl_ng.Base.{
  ℕ, ◌+◌, ℤ, ◌≡◌, String, List, [], ◌∷◌, Option, none, some, arith, inl, inr, ◌==◌, Bool-cases,
  Option-cases,
}
use tclcurl_ng.Api.{
  Tcl, Answers, Results, Call, easy_perform, set_word, set_var, Word, number, script, eval_words,
}
use tclcurl_ng.Callbacks
use tclcurl_ng.Api.Monad.{◌>>=◌, pure}
use tclcurl_ng.Api.Monad.{State}
use tclcurl_ng.Callbacks.{
  body_reader, take_cancel, set_header, header_reader, progress_callback, write_proc_invoke,
  read_proc_invoke, debug_proc_invoke, chunk_var, file_type, set_info, chunk_bgn_invoke,
  chunk_end_invoke, fnmatch_invoke, ssh_key_callback,
}
use tclcurl_ng.Options.Files.{close_out, close_in}
use tclcurl_ng.Callbacks.Events.{
  Event, header, body, progress, write_proc, read_proc, debug, chunk_bgn, chunk_end, fnmatch,
  ssh_key, run_event, run_events,
}
use tclcurl_ng.Callbacks.{FileInfo, KeyType, KeyMatch}
use tclcurl_ng.Mime.Transfer.{set_fields, set_mime}
use tclcurl_ng.Options.Sound.{IsSound}
use tclcurl_ng.Transfer.{open_file, open_out, open_in, open_header, open_stderr}

abbrev pub performs : Call → ℕ
performs (easy_perform h) = 1
performs _ = 0

-- The transfers that were started.
abbrev pub performed : List Call → ℕ
performed [] = 0
performed (c ∷ cs) = performs c + performed cs

-- The files are sound, and `n` transfers were started.
pub record Run (fp : ℕ) (ask : Answers) (n : ℕ) (s : State) : Type 0 where
  pub files : IsSound fp ask s
  pub started : performed s.calls ≡ n

module _ {fp : ℕ} (ask : Answers) (n : ℕ) (s : State) (v : Run fp ask n s) where
  pub open_out-Run : Run fp ask n (open_out ask s).1
  unfolding open_out open_file
  open_out-Run = ground arith

  pub open_in-Run : Run fp ask n (open_in ask s).1
  unfolding open_in open_file
  open_in-Run = ground arith

  pub open_header-Run : Run fp ask n (open_header ask s).1
  unfolding open_header open_file
  open_header-Run = ground arith

  pub open_stderr-Run : Run fp ask n (open_stderr ask s).1
  unfolding open_stderr open_file
  open_stderr-Run = ground arith

  pub set_mime-Run : Run fp ask n (set_mime ask s).1
  unfolding set_mime
  set_mime-Run = ground arith

  pub set_fields-Run : (fields : String) → Run fp ask n (set_fields ask fields s).1
  unfolding set_fields set_mime
  set_fields-Run fields = ground arith

  pub close_out-Run : Run fp ask n (close_out ask s).1 × ((close_out ask s).1.easy.out_handle ≡ 0)
  unfolding close_out
  close_out-Run = ground arith

  pub close_in-Run : Run fp ask n (close_in ask s).1 × ((close_in ask s).1.easy.in_handle ≡ 0)
  unfolding close_in
  close_in-Run = ground arith

module _ {fp : ℕ} (ask : Answers) (n : ℕ) where
  set_word-Run :
      (var key : String) (w : Word) {s : State}
      → Run fp ask n s
      → Run fp ask n (record s { calls = set_word var key w ∷ s.calls })
  set_word-Run var key w v = ground arith

  set_var-Run :
      (var : String) (key : Option String) (w : String) {s : State}
      → Run fp ask n s
      → Run fp ask n (record s { calls = set_var var key w ∷ s.calls })
  set_var-Run var key w v = ground arith

  chunk_var-Run :
      (tcl : Tcl) (results : Results) (var : Option String) {s : State}
      → Run fp ask n s
      → Run fp ask n (chunk_var tcl ask results var s).1
  unfolding chunk_var
  chunk_var-Run tcl results none v = ground arith
  chunk_var-Run tcl results (some var) v = v

  words-Run :
      (var : String) (info : FileInfo) {s : State}
      → Run fp ask n s
      → Run fp ask n (record s {
        calls =
            set_word var "flags" (number info.flags)
            ∷ set_word var "hardlinks" (number info.hardlinks)
            ∷ set_word var "size" (number info.size)
            ∷ set_word var "gid" (number info.gid)
            ∷ set_word var "uid" (number info.uid)
            ∷ set_word var "perm" (number info.perm)
            ∷ set_word var "time" (number info.time)
            ∷ s.calls;
      })
  words-Run var info v = set_word-Run var "flags" (number info.flags) (
      set_word-Run var "hardlinks" (number info.hardlinks) (
        set_word-Run var "size" (number info.size) (
          set_word-Run var "gid" (number info.gid) (
            set_word-Run var "uid" (number info.uid) (
              set_word-Run var "perm" (number info.perm)
                (set_word-Run var "time" (number info.time) v))))))

  set_info-Run :
      (tcl : Tcl) (results : Results) (s : State)
      → Run fp ask n s
      → (var : String) (info : FileInfo) → Run fp ask n (set_info tcl ask results var info s).1
  unfolding set_info
  set_info-Run tcl results s v var info =
      let named = set_var-Run var (some "filename") info.filename v in
      elim (Option-cases (file_type info.filetype)) [
        | inl e ↦ rw e (words-Run var info named)
        | inr (word, e) ↦ rw e (words-Run var info (set_var-Run var (some "filetype") word named))
      ]

evaluate-Run :
    {fp : ℕ} (ask : Answers) (n : ℕ) (tcl : Tcl) (results : Results) (words : List Word) (s : State)
    → Run fp ask n s
    → Run fp ask n
        ((do
          done ← Callbacks.evaluate tcl ask results words
          r ← Callbacks.int_result tcl ask results done
          pure (Callbacks.chunk_bgn_code r))
          s).1
evaluate-Run {fp} ask n tcl results words s v =
    let logged : Run fp ask n (record s { calls = eval_words words ∷ s.calls }) = ground arith in
    elim (Bool-cases (ask (eval_words words ∷ s.calls) == 0)) [
      | inl e ↦ rw e logged
      | inr e ↦ rw e logged
    ]

module _ {fp : ℕ} (tcl : Tcl) (ask : Answers) (results : Results) (n : ℕ) (s : State)
    (v : Run fp ask n s) where
  header-Run :
      (line : String) (size : ℕ) → Run fp ask n (run_event tcl ask results (header line size) s).1
  unfolding run_event header_reader set_header
  header-Run line size = ground arith

  progress-Run : (a b c d : ℤ) → Run fp ask n (run_event tcl ask results (progress a b c d) s).1
  unfolding run_event progress_callback take_cancel
  progress-Run a b c d = ground arith

  write_proc-Run :
      (chunk : List ℕ) → Run fp ask n (run_event tcl ask results (write_proc chunk) s).1
  unfolding run_event write_proc_invoke take_cancel
  write_proc-Run chunk = ground arith

  read_proc-Run : (room : ℕ) → Run fp ask n (run_event tcl ask results (read_proc room) s).1
  unfolding run_event read_proc_invoke take_cancel
  read_proc-Run room = ground arith

  debug-Run :
      (t : ℤ) (chunk : List ℕ) → Run fp ask n (run_event tcl ask results (debug t chunk) s).1
  unfolding run_event debug_proc_invoke take_cancel
  debug-Run t chunk = ground arith

  chunk_bgn-Run :
      (info : FileInfo) (r : ℤ) → Run fp ask n (run_event tcl ask results (chunk_bgn info r) s).1
  unfolding run_event chunk_bgn_invoke
  chunk_bgn-Run info r =
      let var = chunk_var tcl ask results s.easy.chunk_bgn_var s in
      let s' = (set_info tcl ask results var.0 info var.1).1 in
      let v' =
        set_info-Run ask n tcl results var.1
          (chunk_var-Run ask n tcl results s.easy.chunk_bgn_var v) var.0 info in
      evaluate-Run ask n tcl results
        (script (Callbacks.text_of s'.easy.chunk_bgn_proc) ∷ number r ∷ []) s' v'

  chunk_end-Run : Run fp ask n (run_event tcl ask results chunk_end s).1
  unfolding run_event chunk_end_invoke
  chunk_end-Run = ground arith

  fnmatch-Run : (p f : String) → Run fp ask n (run_event tcl ask results (fnmatch p f) s).1
  unfolding run_event fnmatch_invoke
  fnmatch-Run p f = ground arith

  ssh_key-Run :
      (k f : KeyType × String) (m : KeyMatch)
      → Run fp ask n (run_event tcl ask results (ssh_key k f m) s).1
  unfolding run_event ssh_key_callback
  ssh_key-Run k f m = ground arith

  run_event-Run : (event : Event) → Run fp ask n (run_event tcl ask results event s).1
  unfolding run_event body_reader
  run_event-Run (header l z) = header-Run l z
  run_event-Run (body chunk) = ground arith
  run_event-Run (progress a b c d) = progress-Run a b c d
  run_event-Run (write_proc chunk) = write_proc-Run chunk
  run_event-Run (read_proc room) = read_proc-Run room
  run_event-Run (debug t chunk) = debug-Run t chunk
  run_event-Run (chunk_bgn i r) = chunk_bgn-Run i r
  run_event-Run chunk_end = chunk_end-Run
  run_event-Run (fnmatch p f) = fnmatch-Run p f
  run_event-Run (ssh_key k f m) = ssh_key-Run k f m

pub run_events-Run :
    {fp : ℕ} (tcl : Tcl) (ask : Answers) (results : Results) (n : ℕ) (events : List Event)
    (s : State)
    → Run fp ask n s
    → Run fp ask n (run_events tcl ask results events s).1
unfolding run_events
run_events-Run tcl ask results n [] s v = v
run_events-Run tcl ask results n (e ∷ es) s v =
    run_events-Run tcl ask results n es (run_event tcl ask results e s).1
      (run_event-Run tcl ask results n s v e)
