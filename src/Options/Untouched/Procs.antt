-- ===== src/Options/Untouched/Procs.antt =====
-- The handlers of the options that name a Tcl variable or procedure.
use tclcurl_ng.Base.{String, some, arith}
use tclcurl_ng.Api.{Answers}
use tclcurl_ng.Api.Monad.{State}
use tclcurl_ng.Options.{OptionDef}
use tclcurl_ng.Options.Untouched.{Untouched, Untouched-trans}
use tclcurl_ng.Options.Procs.{
  handle_chunk_bgn_var, stop_output, stop_input, install_write_proc, install_read_proc,
  handle_header_var, handle_body_var, handle_progress_proc, handle_cancel_trans_var_name,
  handle_write_proc, handle_read_proc, handle_debug_proc, handle_ssh_key_function,
  handle_chunk_bgn_proc, handle_chunk_end_proc, handle_fnmatch_proc,
}

module _ (ask : Answers) (s : State) where
  stop_output-Untouched : Untouched s (stop_output ask s).1
  unfolding stop_output
  stop_output-Untouched = ground arith

  stop_input-Untouched : Untouched s (stop_input ask s).1
  unfolding stop_input
  stop_input-Untouched = ground arith

  install_write_proc-Untouched : Untouched s (install_write_proc ask s).1
  unfolding install_write_proc
  install_write_proc-Untouched = ground arith

module _ (ask : Answers) (o : String) (s : State) where
  install_read_proc-Untouched : Untouched s (install_read_proc ask o s).1
  unfolding install_read_proc
  install_read_proc-Untouched = ground arith

module _ (ask : Answers) (o : String) (s : State) where
  pub handle_header_var-Untouched : Untouched s (handle_header_var ask o s).1
  unfolding handle_header_var
  handle_header_var-Untouched = ground arith

  pub handle_body_var-Untouched : Untouched s (handle_body_var ask o s).1
  unfolding handle_body_var
  handle_body_var-Untouched = ground arith

  pub handle_progress_proc-Untouched : Untouched s (handle_progress_proc ask o s).1
  unfolding handle_progress_proc
  handle_progress_proc-Untouched = ground arith

  pub handle_cancel_trans_var_name-Untouched : Untouched s (handle_cancel_trans_var_name ask o s).1
  unfolding handle_cancel_trans_var_name
  handle_cancel_trans_var_name-Untouched = ground arith

  pub handle_write_proc-Untouched : Untouched s (handle_write_proc ask o s).1
  unfolding handle_write_proc
  handle_write_proc-Untouched =
      let s' : State = record s { easy = record s.easy { write_proc = some o } } in
      Untouched-trans (ground arith) (
        Untouched-trans (stop_output-Untouched ask s')
          (install_write_proc-Untouched ask (stop_output ask s').1))

  pub handle_read_proc-Untouched : Untouched s (handle_read_proc ask o s).1
  unfolding handle_read_proc
  handle_read_proc-Untouched =
      let s' : State = record s { easy = record s.easy { read_proc = some o } } in
      Untouched-trans (ground arith) (
        Untouched-trans (stop_input-Untouched ask s')
          (install_read_proc-Untouched ask o (stop_input ask s').1))

  pub handle_debug_proc-Untouched : Untouched s (handle_debug_proc ask o s).1
  unfolding handle_debug_proc
  handle_debug_proc-Untouched = ground arith

  pub handle_ssh_key_function-Untouched : Untouched s (handle_ssh_key_function ask o s).1
  unfolding handle_ssh_key_function
  handle_ssh_key_function-Untouched = ground arith

  pub handle_chunk_bgn_proc-Untouched : Untouched s (handle_chunk_bgn_proc ask o s).1
  unfolding handle_chunk_bgn_proc
  handle_chunk_bgn_proc-Untouched = ground arith

  pub handle_chunk_end_proc-Untouched : Untouched s (handle_chunk_end_proc ask o s).1
  unfolding handle_chunk_end_proc
  handle_chunk_end_proc-Untouched = ground arith

  pub handle_fnmatch_proc-Untouched : Untouched s (handle_fnmatch_proc ask o s).1
  unfolding handle_fnmatch_proc
  handle_fnmatch_proc-Untouched = ground arith

  pub handle_chunk_bgn_var-Untouched :
      (def : OptionDef) → Untouched s (handle_chunk_bgn_var ask def o s).1
  unfolding handle_chunk_bgn_var
  handle_chunk_bgn_var-Untouched def = ground arith
