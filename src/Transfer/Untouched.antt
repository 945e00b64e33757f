-- ===== src/Transfer/Untouched.antt =====
-- A transfer, with whatever callbacks, leaves the links between easy and share handles alone.
use tclcurl_ng.Base.{ℕ, ℤ, refl, String, List, ◌∷◌, Option, none, some, arith}
use tclcurl_ng.Api.{Tcl, Answers, Results, easy_perform}
use tclcurl_ng.Api.Monad.{State, Status, ok, error, fault, M, code}
use tclcurl_ng.Callbacks.Events.{Event, run_events}
use tclcurl_ng.Callbacks.Untouched.{run_events-Untouched}
use tclcurl_ng.Mime.Transfer.{set_post_data, set_post, set_fields, set_mime, reset_post_data}
use tclcurl_ng.Options.Files.{close_out, close_in, close_header, close_stderr}
use tclcurl_ng.Options.Untouched.{Untouched, Untouched-trans, Untouched-refl}
use tclcurl_ng.Transfer.{
  open_file, open_out, open_in, open_header, open_stderr, open_files, and_then, close_files,
  set_body_var_name, eval_command, after_perform, easy_transfer, or_error, perform,
}

module _ (ask : Answers) (s : State) where
  open_out-Untouched : Untouched s (open_out ask s).1
  unfolding open_out open_file
  open_out-Untouched = ground arith

  open_in-Untouched : Untouched s (open_in ask s).1
  unfolding open_in open_file
  open_in-Untouched = ground arith

  open_header-Untouched : Untouched s (open_header ask s).1
  unfolding open_header open_file
  open_header-Untouched = ground arith

  open_stderr-Untouched : Untouched s (open_stderr ask s).1
  unfolding open_stderr open_file
  open_stderr-Untouched = ground arith

  set_mime-Untouched : Untouched s (set_mime ask s).1
  unfolding set_mime
  set_mime-Untouched = ground arith

  set_fields-Untouched : (fields : String) → Untouched s (set_fields ask fields s).1
  unfolding set_fields set_mime
  set_fields-Untouched fields = ground arith

  set_post-Untouched :
      (fields : Option String) (size : ℤ) → Untouched s (set_post ask fields size s).1
  unfolding set_post set_fields set_mime
  set_post-Untouched none size = set_mime-Untouched
  set_post-Untouched (some fields) size = ground arith

  pub set_post_data-Untouched : Untouched s (set_post_data ask s).1
  unfolding set_post_data
  set_post_data-Untouched = set_post-Untouched s.easy.post_fields s.easy.post_field_size

  close_out-Untouched : Untouched s (close_out ask s).1
  unfolding close_out
  close_out-Untouched = ground arith

  close_in-Untouched : Untouched s (close_in ask s).1
  unfolding close_in
  close_in-Untouched = ground arith

  close_header-Untouched : Untouched s (close_header ask s).1
  unfolding close_header
  close_header-Untouched = ground arith

  close_stderr-Untouched : Untouched s (close_stderr ask s).1
  unfolding close_stderr
  close_stderr-Untouched = ground arith

  pub reset_post_data-Untouched : Untouched s (reset_post_data ask s).1
  unfolding reset_post_data
  reset_post_data-Untouched = ground arith

  pub set_body_var_name-Untouched : (o : Option String) → Untouched s (set_body_var_name ask o s).1
  unfolding set_body_var_name
  set_body_var_name-Untouched none = Untouched-refl
  set_body_var_name-Untouched (some name) = ground arith

  eval_command-Untouched : (o : Option String) → Untouched s (eval_command ask o s).1
  unfolding eval_command
  eval_command-Untouched none = Untouched-refl
  eval_command-Untouched (some command) = ground arith

module _ (ask : Answers) where
  pub open_files-Untouched : (s : State) → Untouched s (open_files ask s).1
  unfolding open_files
  open_files-Untouched s =
      let p1 = open_out-Untouched ask s in
      let s1 = (open_out ask s).1 in
      let p2 = open_in-Untouched ask s1 in
      let s2 = (open_in ask s1).1 in
      let p3 = open_header-Untouched ask s2 in
      let s3 = (open_header ask s2).1 in
      and_then-Untouched (open_out ask s).0 _ p1 (
        and_then-Untouched (open_in ask s1).0 _ (Untouched-trans p1 p2) (
          and_then-Untouched (open_header ask s2).0 _ (Untouched-trans p1 (Untouched-trans p2 p3)) (
            Untouched-trans p1
              (Untouched-trans p2 (Untouched-trans p3 (open_stderr-Untouched ask s3))))))
    where
      and_then-Untouched :
          (status : Status) (rest : M Status) {t : State}
          → Untouched s t
          → Untouched s (rest t).1
          → Untouched s (and_then ask status rest t).1
      and_then-Untouched ok rest v w = w
      and_then-Untouched error rest v w = v
      and_then-Untouched fault rest v w = v

  pub close_files-Untouched : (s : State) → Untouched s (close_files ask s).1
  unfolding close_files
  close_files-Untouched s =
      let s1 = (close_out ask s).1 in
      let s2 = (close_in ask s1).1 in
      let s3 = (close_header ask s2).1 in
      Untouched-trans (close_out-Untouched ask s) (
        Untouched-trans (close_in-Untouched ask s1)
          (Untouched-trans (close_header-Untouched ask s2) (close_stderr-Untouched ask s3)))

  after_perform-Untouched : (s : State) → Untouched s (after_perform ask s).1
  unfolding after_perform
  after_perform-Untouched s =
      let s1 = (close_files ask s).1 in
      let s2 = (reset_post_data ask s1).1 in
      let s3 = (set_body_var_name ask s2.easy.body_var_name s2).1 in
      Untouched-trans (close_files-Untouched s) (
        Untouched-trans (reset_post_data-Untouched ask s1) (
          Untouched-trans (set_body_var_name-Untouched ask s2 s2.easy.body_var_name)
            (eval_command-Untouched ask s3 s3.easy.command)))

module _ (tcl : Tcl) (ask : Answers) (results : Results) where
  easy_transfer-Untouched :
      (events : List Event) (s : State) → Untouched s (easy_transfer tcl ask results events s).1
  unfolding easy_transfer
  easy_transfer-Untouched events s =
      let s1 = (run_events tcl ask results events s).1 in
      let calls = easy_perform s.easy.curl ∷ s1.calls in
      let s2 : State = record s1 { calls = calls; result = code (ask calls) } in
      let step : Untouched s1 s2 = record {
        same_shares = refl;
        same_self = refl;
        same_commands = refl;
      } in
      Untouched-trans (run_events-Untouched tcl ask results events s)
        (Untouched-trans step (after_perform-Untouched ask s2))

  or_error-Untouched :
      (status : Status) (rest : M ℕ) {s t : State}
      → Untouched s t
      → Untouched s (rest t).1
      → Untouched s (or_error tcl ask results status rest t).1
  or_error-Untouched ok rest v w = w
  or_error-Untouched error rest v w = v
  or_error-Untouched fault rest v w = v

  pub perform-Untouched :
      (events : List Event) (s : State) → Untouched s (perform tcl ask results events s).1
  unfolding perform
  perform-Untouched events s =
      let p1 = open_files-Untouched ask s in
      let s1 = (open_files ask s).1 in
      let p2 = Untouched-trans p1 (set_post_data-Untouched ask s1) in
      let s2 = (set_post_data ask s1).1 in
      or_error-Untouched (open_files ask s).0 _ p1 (
        or_error-Untouched (set_post_data ask s1).0 _ p2
          (Untouched-trans p2 (easy_transfer-Untouched events s2)))
