-- ===== src/Transfer/Sound.antt =====
-- What curlPerform leaves of the files, on every way through it.
use tclcurl_ng.Base.{ℕ, suc, refl, String, List, ◌∷◌, Option, none, some, arith}
use tclcurl_ng.Api.{Tcl, Answers, Results, easy_perform}
use tclcurl_ng.Api.Monad.{State, Status, ok, error, fault, M, code}
use tclcurl_ng.Callbacks.Events.{Event, run_events}
use tclcurl_ng.Mime.Transfer.{set_post_data, set_post, reset_post_data}
use tclcurl_ng.Options.Sound.{IsSound}
use tclcurl_ng.Transfer.{
  open_files, close_files, after_perform, set_body_var_name, eval_command, easy_transfer, perform,
  or_error,
}
use tclcurl_ng.Transfer.Perform.{close_files-Run, open_files-Run, set_post-Run}
use tclcurl_ng.Transfer.Running.{Run, performed, run_events-Run}

module _ {fp : ℕ} (ask : Answers) (n : ℕ) (s : State) where
  pub reset_post_data-Run : Run fp ask n s → Run fp ask n (reset_post_data ask s).1
  unfolding reset_post_data
  reset_post_data-Run v = ground arith

  pub set_body_var_name-Run :
      (o : Option String) → Run fp ask n s → Run fp ask n (set_body_var_name ask o s).1
  unfolding set_body_var_name
  set_body_var_name-Run none v = v
  set_body_var_name-Run (some name) v = ground arith

  eval_command-Run : (o : Option String) → Run fp ask n s → Run fp ask n (eval_command ask o s).1
  unfolding eval_command
  eval_command-Run none v = v
  eval_command-Run (some script) v = ground arith

after_perform-Run :
    {fp : ℕ} (ask : Answers) (n : ℕ) (s : State)
    → Run fp ask n s
    → Run fp ask n (after_perform ask s).1
unfolding after_perform
after_perform-Run ask n s v =
    let s1 = (close_files ask s).1 in
    let v1 = (close_files-Run ask n s v).0 in
    let s2 = (reset_post_data ask s1).1 in
    let v2 = reset_post_data-Run ask n s1 v1 in
    let s3 = (set_body_var_name ask s2.easy.body_var_name s2).1 in
    let v3 = set_body_var_name-Run ask n s2 s2.easy.body_var_name v2 in
    eval_command-Run ask n s3 s3.easy.command v3

module _ {fp : ℕ} (tcl : Tcl) (ask : Answers) (results : Results) (n : ℕ) where
  easy_transfer-Run :
      (events : List Event) (s : State)
      → Run fp ask n s
      → Run fp ask (suc n) (easy_transfer tcl ask results events s).1
  unfolding easy_transfer
  easy_transfer-Run events s v =
      let s1 = (run_events tcl ask results events s).1 in
      let v1 = run_events-Run tcl ask results n events s v in
      after_perform-Run ask (suc n)
        (record s1 {
          calls = easy_perform s.easy.curl ∷ s1.calls;
          result = code (ask (easy_perform s.easy.curl ∷ s1.calls));
        })
        (ground arith)

  or_error-IsSound :
      (status : Status) (rest : M ℕ) (s : State)
      → Run fp ask n s
      → IsSound fp ask (rest s).1
      → IsSound fp ask (or_error tcl ask results status rest s).1
  or_error-IsSound ok rest s v w = w
  or_error-IsSound error rest s v w = v.files
  or_error-IsSound fault rest s v w = v.files

pub perform-IsSound :
    {fp : ℕ} (tcl : Tcl) (ask : Answers) (results : Results) (events : List Event) (s : State)
    → IsSound fp ask s
    → IsSound fp ask (perform tcl ask results events s).1
unfolding perform set_post_data
perform-IsSound tcl ask results events s v =
    let n = performed s.calls in
    let (st1, s1) = open_files ask s in
    let v1 = open_files-Run ask n s (record { files = v; started = refl }) in
    let (st2, s2) = set_post ask s1.easy.post_fields s1.easy.post_field_size s1 in
    let v2 = set_post-Run ask n s1.easy.post_fields s1.easy.post_field_size s1 v1 in
    or_error-IsSound tcl ask results n st1 _ s1 v1 (
      or_error-IsSound tcl ask results n st2 _ s2 v2
        (easy_transfer-Run tcl ask results n events s2 v2).files)
