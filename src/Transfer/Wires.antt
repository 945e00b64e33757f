-- ===== src/Transfer/Wires.antt =====
-- What the parts of curlPerform in generic/tclcurl.c do to the function for received data and its
-- argument.
pub mod Events
pub mod Perform
use tclcurl_ng.Base.{
  ℕ, ℤ, ◌≡◌, refl, sym, ap, ◌∙◌, String, List, [], ◌∷◌, Option, none, some, Bool, true, false, not,
  ◌&&◌, arith, inl, inr, ◌==◌, Bool-cases, Option-cases,
}
use tclcurl_ng.Api.{Tcl, Answers, Results, Word, number, script, eval_words}
use tclcurl_ng.Api.Monad.{State, Status, ok, error, fault, M, ◌>>=◌, pure}
use tclcurl_ng.Callbacks
use tclcurl_ng.Callbacks.{
  body_reader, take_cancel, set_header, header_reader, progress_callback, write_proc_invoke,
  read_proc_invoke, debug_proc_invoke, chunk_var, file_type, set_info, chunk_bgn_invoke,
  chunk_end_invoke, fnmatch_invoke, ssh_key_callback, FileInfo, KeyType, KeyMatch,
}
use tclcurl_ng.Callbacks.Events.{
  Event, header, body, progress, write_proc, read_proc, debug, chunk_bgn, chunk_end, fnmatch,
  ssh_key, run_event, run_events,
}
use tclcurl_ng.Mime.Transfer.{set_post_data, set_post, set_fields, set_mime, reset_post_data}
use tclcurl_ng.Options.Files.{close_out, close_in, close_header, close_stderr}
use tclcurl_ng.Options.Wires.{write_function, write_data, all_suit}
use tclcurl_ng.Transfer.{
  open_file, open_in, open_header, open_stderr, close_files, set_body_var_name, eval_command,
  after_perform,
}

-- What leaves the write function and its argument alone.
pub record Calm (ask : Answers) (before after : State) : Type 0 where
  pub same_flag : after.easy.out_flag ≡ before.easy.out_flag
  pub same_curl : after.easy.curl ≡ before.easy.curl
  pub same_function : write_function ask after ≡ write_function ask before
  pub same_data : write_data ask after ≡ write_data ask before
  pub same_past :
      all_suit ask after.easy.curl after.calls ≡ all_suit ask before.easy.curl before.calls

pub Calm-refl : {ask : Answers} {s : State} → Calm ask s s
Calm-refl = record {
  same_flag = refl;
  same_curl = refl;
  same_function = refl;
  same_data = refl;
  same_past = refl;
}

pub Calm-trans : {ask : Answers} {a b c : State} → Calm ask a b → Calm ask b c → Calm ask a c
Calm-trans p q = record {
  same_flag = q.same_flag ∙ p.same_flag;
  same_curl = q.same_curl ∙ p.same_curl;
  same_function = q.same_function ∙ p.same_function;
  same_data = q.same_data ∙ p.same_data;
  same_past = q.same_past ∙ p.same_past;
}

module _ (ask : Answers) (s : State) where
  pub open_in-Calm : Calm ask s (open_in ask s).1
  unfolding open_in open_file
  open_in-Calm = ground arith

  pub open_header-Calm : Calm ask s (open_header ask s).1
  unfolding open_header open_file
  open_header-Calm = ground arith

  pub open_stderr-Calm : Calm ask s (open_stderr ask s).1
  unfolding open_stderr open_file
  open_stderr-Calm = ground arith

  set_mime-Calm : Calm ask s (set_mime ask s).1
  unfolding set_mime
  set_mime-Calm = ground arith

  set_post-Calm : (fields : Option String) (size : ℤ) → Calm ask s (set_post ask fields size s).1
  unfolding set_post set_fields set_mime
  set_post-Calm none size = set_mime-Calm
  set_post-Calm (some fields) size = ground arith

  pub set_post_data-Calm : Calm ask s (set_post_data ask s).1
  unfolding set_post_data
  set_post_data-Calm = set_post-Calm s.easy.post_fields s.easy.post_field_size

  close_out-Calm : Calm ask s (close_out ask s).1
  unfolding close_out
  close_out-Calm = ground arith

  close_in-Calm : Calm ask s (close_in ask s).1
  unfolding close_in
  close_in-Calm = ground arith

  close_header-Calm : Calm ask s (close_header ask s).1
  unfolding close_header
  close_header-Calm = ground arith

  close_stderr-Calm : Calm ask s (close_stderr ask s).1
  unfolding close_stderr
  close_stderr-Calm = ground arith

  pub reset_post_data-Calm : Calm ask s (reset_post_data ask s).1
  unfolding reset_post_data
  reset_post_data-Calm = ground arith

  pub set_body_var_name-Calm : (o : Option String) → Calm ask s (set_body_var_name ask o s).1
  unfolding set_body_var_name
  set_body_var_name-Calm none = Calm-refl
  set_body_var_name-Calm (some name) = ground arith

  eval_command-Calm : (o : Option String) → Calm ask s (eval_command ask o s).1
  unfolding eval_command
  eval_command-Calm none = Calm-refl
  eval_command-Calm (some command) = ground arith

module _ (ask : Answers) where
  pub close_files-Calm : (s : State) → Calm ask s (close_files ask s).1
  unfolding close_files
  close_files-Calm s =
      let s1 = (close_out ask s).1 in
      let s2 = (close_in ask s1).1 in
      let s3 = (close_header ask s2).1 in
      Calm-trans (close_out-Calm ask s) (
        Calm-trans (close_in-Calm ask s1)
          (Calm-trans (close_header-Calm ask s2) (close_stderr-Calm ask s3)))

  pub after_perform-Calm : (s : State) → Calm ask s (after_perform ask s).1
  unfolding after_perform
  after_perform-Calm s =
      let s1 = (close_files ask s).1 in
      let s2 = (reset_post_data ask s1).1 in
      let s3 = (set_body_var_name ask s2.easy.body_var_name s2).1 in
      Calm-trans (close_files-Calm s) (
        Calm-trans (reset_post_data-Calm ask s1) (
          Calm-trans (set_body_var_name-Calm ask s2 s2.easy.body_var_name)
            (eval_command-Calm ask s3 s3.easy.command)))
