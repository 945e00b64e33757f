-- ===== src/Options/Wires/Writers.antt =====
-- -file, -bodyvar and -writeproc of generic/curl_setopts.c, by the write function and its argument.
use tclcurl_ng.Base.{String, arith}
use tclcurl_ng.Api.{Answers}
use tclcurl_ng.Api.Monad.{State}
use tclcurl_ng.Options.Files.{handle_out_file}
use tclcurl_ng.Options.Procs.{handle_body_var, handle_write_proc}
use tclcurl_ng.Options.Wires.{IsWired, Accepts}

module _ (ask : Answers) (acc : Accepts ask) (o : String) (s : State) (v : IsWired ask s) where
  pub handle_out_file-IsWired : IsWired ask (handle_out_file ask o s).1
  unfolding handle_out_file
  handle_out_file-IsWired = grind (arith, acc.functions, acc.arguments)

  pub handle_body_var-IsWired : IsWired ask (handle_body_var ask o s).1
  unfolding handle_body_var
  handle_body_var-IsWired = grind (arith, acc.functions, acc.arguments)

  pub handle_write_proc-IsWired : IsWired ask (handle_write_proc ask o s).1
  unfolding handle_write_proc
  handle_write_proc-IsWired = grind (arith, acc.functions, acc.arguments)
