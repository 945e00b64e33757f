-- ===== src/Options/Untouched/Files.antt =====
-- The handlers of the options that name a file.
use tclcurl_ng.Base.{String, arith}
use tclcurl_ng.Api.{Answers}
use tclcurl_ng.Api.Monad.{State}
use tclcurl_ng.Options.Untouched.{Untouched}
use tclcurl_ng.Options.Files.{
  handle_out_file, handle_read_data, handle_write_header, handle_stderr_file,
}

module _ (ask : Answers) (o : String) (s : State) where
  pub handle_out_file-Untouched : Untouched s (handle_out_file ask o s).1
  unfolding handle_out_file
  handle_out_file-Untouched = ground arith

  pub handle_read_data-Untouched : Untouched s (handle_read_data ask o s).1
  unfolding handle_read_data
  handle_read_data-Untouched = ground arith

  pub handle_write_header-Untouched : Untouched s (handle_write_header ask o s).1
  unfolding handle_write_header
  handle_write_header-Untouched = ground arith

  pub handle_stderr_file-Untouched : Untouched s (handle_stderr_file ask o s).1
  unfolding handle_stderr_file
  handle_stderr_file-Untouched = ground arith
