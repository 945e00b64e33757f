-- ===== src/Transfer/Perform.antt =====
-- curlPerform leaves no file open and no POST data behind, and its failures start no transfer.
use tclcurl_ng.Base.{
  ℕ, suc, ℤ, pos, negsuc, ◌≡◌, refl, String, List, ◌∷◌, Option, none, some, arith, ◌⊎◌, inl, inr,
  ◌==◌, Bool-cases,
}
use tclcurl_ng.Api.{Tcl, Answers, Results, easy_perform}
use tclcurl_ng.Api.Monad.{State, Status, ok, error, fault, M}
use tclcurl_ng.Options.Files.{close_out, close_in, close_header, close_stderr}
use tclcurl_ng.Callbacks.Events.{Event, run_events}
use tclcurl_ng.Mime.Transfer.{set_post_data, set_post, reset_post_data}
use tclcurl_ng.Options.Sound.{IsSound}
use tclcurl_ng.Transfer.Balance.{opened, closed, held}
use tclcurl_ng.Transfer.{
  open_out, open_in, open_header, open_files, close_files, after_perform, and_then,
  set_body_var_name, eval_command, easy_transfer, perform, or_error,
}
use tclcurl_ng.Api.Monad.{code}
use tclcurl_ng.Api.{Arg, int, easy_setopt}
use tclcurl_ng.Transfer.Running.{
  Run, performed, open_out-Run, open_in-Run, open_header-Run, open_stderr-Run, set_mime-Run,
  set_fields-Run, run_events-Run,
}

-- What a transfer leaves behind: a FILE pointer closed as often as fopen gave it, and no POST data.
pub record IsClean (fp : ℕ) (ask : Answers) (s : State) : Type 0 where
  pub closed_all : opened ask fp s.calls ≡ closed fp s.calls
  pub none_held : held fp s.easy ≡ 0
  pub no_fields : s.easy.post_fields ≡ none
  pub no_size : s.easy.post_field_size ≡ negsuc 0
  pub no_mime : s.easy.mime ≡ 0

module _ {fp : ℕ} (ask : Answers) (n : ℕ) (s : State) where
  pub close_files-Run :
      Run fp ask n s → Run fp ask n (close_files ask s).1 × (held fp (close_files ask s).1.easy ≡ 0)
  unfolding close_files close_out close_in close_header close_stderr
  close_files-Run v = ground arith

  pub reset-IsClean :
      performed s.calls ≡ n
      → opened ask fp s.calls ≡ closed fp s.calls
      → held fp s.easy ≡ 0
      → IsClean fp ask (reset_post_data ask s).1 × (performed (reset_post_data ask s).1.calls ≡ n)
  unfolding reset_post_data
  reset-IsClean p e h = ground arith

  pub set_body-IsClean :
      (o : Option String)
      → performed s.calls ≡ n
      → IsClean fp ask s
      → IsClean fp ask (set_body_var_name ask o s).1
        × (performed (set_body_var_name ask o s).1.calls ≡ n)
  unfolding set_body_var_name
  set_body-IsClean none p c = (c, p)
  set_body-IsClean (some name) p c = ground arith

  eval_command-IsClean :
      (o : Option String)
      → performed s.calls ≡ n
      → IsClean fp ask s
      → IsClean fp ask (eval_command ask o s).1 × (performed (eval_command ask o s).1.calls ≡ n)
  unfolding eval_command
  eval_command-IsClean none p c = (c, p)
  eval_command-IsClean (some command) p c = ground arith

after_perform-IsClean :
    {fp : ℕ} (ask : Answers) (n : ℕ) (s : State)
    → Run fp ask n s
    → IsClean fp ask (after_perform ask s).1 × (performed (after_perform ask s).1.calls ≡ n)
unfolding after_perform
after_perform-IsClean ask n s v =
    let s1 = (close_files ask s).1 in
    let (v1, h1) = close_files-Run ask n s v in
    let s2 = (reset_post_data ask s1).1 in
    let (c2, p2) = reset-IsClean ask n s1 v1.started (ground arith) h1 in
    let s3 = (set_body_var_name ask s2.easy.body_var_name s2).1 in
    let (c3, p3) = set_body-IsClean ask n s2 s2.easy.body_var_name p2 c2 in
    eval_command-IsClean ask n s3 s3.easy.command p3 c3

module _ {fp : ℕ} (tcl : Tcl) (ask : Answers) (results : Results) (n : ℕ) (s : State)
    (v : Run fp ask n s) where
  easy_transfer-IsClean :
      (events : List Event)
      → IsClean fp ask (easy_transfer tcl ask results events s).1
        × (performed (easy_transfer tcl ask results events s).1.calls ≡ suc n)
  unfolding easy_transfer
  easy_transfer-IsClean events =
      let s1 = (run_events tcl ask results events s).1 in
      let v1 = run_events-Run tcl ask results n events s v in
      after_perform-IsClean ask (suc n)
        (record s1 {
          calls = easy_perform s.easy.curl ∷ s1.calls;
          result = code (ask (easy_perform s.easy.curl ∷ s1.calls));
        })
        (ground arith)

-- The two ways in which curlPerform ends.
pub record IsTransfer (fp : ℕ) (ask : Answers) (before : State) (exit_code : ℕ) (after : State)
    : Type 0 where
  pub clean : IsClean fp ask after
  pub one_transfer : performed after.calls ≡ suc (performed before.calls)

pub record IsRefusal (fp : ℕ) (ask : Answers) (before : State) (exit_code : ℕ) (after : State)
    : Type 0 where
  pub exit_one : exit_code ≡ 1
  pub no_transfer : performed after.calls ≡ performed before.calls
  pub sound : IsSound fp ask after

module _ {fp : ℕ} (ask : Answers) (n : ℕ) where
  and_then-Run :
      (status : Status) (rest : M Status) (s : State)
      → Run fp ask n s
      → Run fp ask n (rest s).1
      → Run fp ask n (and_then ask status rest s).1
  and_then-Run ok rest s v w = w
  and_then-Run error rest s v w = v
  and_then-Run fault rest s v w = v

  pub open_files-Run : (s : State) → Run fp ask n s → Run fp ask n (open_files ask s).1
  unfolding open_files
  open_files-Run s v =
      let (st1, s1) = open_out ask s in
      let v1 = open_out-Run ask n s v in
      let (st2, s2) = open_in ask s1 in
      let v2 = open_in-Run ask n s1 v1 in
      let (st3, s3) = open_header ask s2 in
      let v3 = open_header-Run ask n s2 v2 in
      and_then-Run st1 _ s1 v1
        (and_then-Run st2 _ s2 v2 (and_then-Run st3 _ s3 v3 (open_stderr-Run ask n s3 v3)))

  setopt-Run :
      (o : String) (a : Arg) (s : State)
      → Run fp ask n s
      → Run fp ask n (record s { calls = easy_setopt s.easy.curl o a ∷ s.calls })
  setopt-Run o a s v = ground arith

  pub set_post-Run :
      (fields : Option String) (size : ℤ) (s : State)
      → Run fp ask n s
      → Run fp ask n (set_post ask fields size s).1
  unfolding set_post
  set_post-Run none size s v = set_mime-Run ask n s v
  set_post-Run (some fields) (negsuc m) s v = set_fields-Run ask n s v fields
  set_post-Run (some fields) (pos m) s v =
      let calls = easy_setopt s.easy.curl "CURLOPT_POSTFIELDSIZE_LARGE" (int (pos m)) ∷ s.calls in
      let logged = setopt-Run "CURLOPT_POSTFIELDSIZE_LARGE" (int (pos m)) s v in
      elim (Bool-cases (ask calls == 0)) [
        | inl e ↦ rw e (set_fields-Run ask n (record s { calls = calls }) logged fields)
        | inr e ↦ rw e (ground arith)
      ]

module _ (fp : ℕ) (tcl : Tcl) (ask : Answers) (results : Results) (s : State) where
  abbrev Outcome : ℕ × State → Type 0
  Outcome r = IsTransfer fp ask s r.0 r.1 ⊎ IsRefusal fp ask s r.0 r.1

  or_error-Outcome :
      (status : Status) (rest : M ℕ) (s' : State)
      → Run fp ask (performed s.calls) s'
      → Outcome (rest s')
      → Outcome (or_error tcl ask results status rest s')
  or_error-Outcome ok rest s' v w = w
  or_error-Outcome error rest s' v w =
      inr (record { exit_one = refl; no_transfer = v.started; sound = v.files })
  or_error-Outcome fault rest s' v w =
      inr (record { exit_one = refl; no_transfer = v.started; sound = v.files })

  -- For a FILE pointer `fp` that is not NULL: from a state that is sound for it, whatever callbacks
  -- libcurl makes, curlPerform ends in one of two ways. Either exactly one transfer was started, `fp`
  -- was closed as often as fopen gave it and is in no field, and no POST data is left; or no transfer
  -- was started, the answer is TCL_ERROR, and the state is sound again.
  pub perform_lem :
      (events : List Event)
      → IsSound fp ask s
      → IsTransfer fp ask s
          (perform tcl ask results events s).0
          (perform tcl ask results events s).1
        ⊎ IsRefusal fp ask s
            (perform tcl ask results events s).0
            (perform tcl ask results events s).1
  unfolding perform set_post_data
  perform_lem events v =
      let n = performed s.calls in
      let start : Run fp ask n s = record { files = v; started = refl } in
      let (st1, s1) = open_files ask s in
      let v1 = open_files-Run ask n s start in
      let (st2, s2) = set_post ask s1.easy.post_fields s1.easy.post_field_size s1 in
      let v2 = set_post-Run ask n s1.easy.post_fields s1.easy.post_field_size s1 v1 in
      let (c, p) = easy_transfer-IsClean tcl ask results n s2 v2 events in
      or_error-Outcome st1 _ s1 v1
        (or_error-Outcome st2 _ s2 v2 (inl (record { clean = c; one_transfer = p })))
