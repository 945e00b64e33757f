-- ===== src/Options/Sound/Procs.antt =====
-- The handlers of the options that name a Tcl variable or procedure.
use tclcurl_ng.Base.{ℕ, String, some, arith}
use tclcurl_ng.Api.{Answers}
use tclcurl_ng.Api.Monad.{State}
use tclcurl_ng.Options.{OptionDef}
use tclcurl_ng.Options.Sound.{IsSound}
use tclcurl_ng.Options.Procs.{
  handle_chunk_bgn_var, stop_output, stop_input, install_write_proc, install_read_proc,
  handle_header_var, handle_body_var, handle_progress_proc, handle_cancel_trans_var_name,
  handle_write_proc, handle_read_proc, handle_debug_proc, handle_ssh_key_function,
  handle_chunk_bgn_proc, handle_chunk_end_proc, handle_fnmatch_proc,
}

module _ {fp : ℕ} (ask : Answers) (s : State) (v : IsSound fp ask s) where
  stop_output-IsSound : IsSound fp ask (stop_output ask s).1
  unfolding stop_output
  stop_output-IsSound = ground arith

  stop_input-IsSound : IsSound fp ask (stop_input ask s).1
  unfolding stop_input
  stop_input-IsSound = ground arith

  install_write_proc-IsSound : IsSound fp ask (install_write_proc ask s).1
  unfolding install_write_proc
  install_write_proc-IsSound = ground arith

module _ {fp : ℕ} (ask : Answers) (o : String) (s : State) (v : IsSound fp ask s) where
  install_read_proc-IsSound : IsSound fp ask (install_read_proc ask o s).1
  unfolding install_read_proc
  install_read_proc-IsSound = ground arith

module _ {fp : ℕ} (ask : Answers) (o : String) (s : State) (v : IsSound fp ask s) where
  pub handle_header_var-IsSound : IsSound fp ask (handle_header_var ask o s).1
  unfolding handle_header_var
  handle_header_var-IsSound = ground arith

  pub handle_body_var-IsSound : IsSound fp ask (handle_body_var ask o s).1
  unfolding handle_body_var
  handle_body_var-IsSound = ground arith

  pub handle_progress_proc-IsSound : IsSound fp ask (handle_progress_proc ask o s).1
  unfolding handle_progress_proc
  handle_progress_proc-IsSound = ground arith

  pub handle_cancel_trans_var_name-IsSound : IsSound fp ask (handle_cancel_trans_var_name ask o s).1
  unfolding handle_cancel_trans_var_name
  handle_cancel_trans_var_name-IsSound = ground arith

  pub handle_write_proc-IsSound : IsSound fp ask (handle_write_proc ask o s).1
  unfolding handle_write_proc
  handle_write_proc-IsSound =
      let s' = record s { easy = record s.easy { write_proc = some o } } in
      install_write_proc-IsSound ask (stop_output ask s').1
        (stop_output-IsSound ask s' (ground arith))

  pub handle_read_proc-IsSound : IsSound fp ask (handle_read_proc ask o s).1
  unfolding handle_read_proc
  handle_read_proc-IsSound =
      let s' = record s { easy = record s.easy { read_proc = some o } } in
      install_read_proc-IsSound ask o (stop_input ask s').1
        (stop_input-IsSound ask s' (ground arith))

  pub handle_debug_proc-IsSound : IsSound fp ask (handle_debug_proc ask o s).1
  unfolding handle_debug_proc
  handle_debug_proc-IsSound = ground arith

  pub handle_ssh_key_function-IsSound : IsSound fp ask (handle_ssh_key_function ask o s).1
  unfolding handle_ssh_key_function
  handle_ssh_key_function-IsSound = ground arith

  pub handle_chunk_bgn_proc-IsSound : IsSound fp ask (handle_chunk_bgn_proc ask o s).1
  unfolding handle_chunk_bgn_proc
  handle_chunk_bgn_proc-IsSound = ground arith

  pub handle_chunk_end_proc-IsSound : IsSound fp ask (handle_chunk_end_proc ask o s).1
  unfolding handle_chunk_end_proc
  handle_chunk_end_proc-IsSound = ground arith

  pub handle_fnmatch_proc-IsSound : IsSound fp ask (handle_fnmatch_proc ask o s).1
  unfolding handle_fnmatch_proc
  handle_fnmatch_proc-IsSound = ground arith

  pub handle_chunk_bgn_var-IsSound :
      (def : OptionDef) → IsSound fp ask (handle_chunk_bgn_var ask def o s).1
  unfolding handle_chunk_bgn_var
  handle_chunk_bgn_var-IsSound def = ground arith
