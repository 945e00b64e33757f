-- ===== src/Options/Sound/Files.antt =====
-- The handlers of the options that name a file.
use tclcurl_ng.Base.{ℕ, String, arith}
use tclcurl_ng.Api.{Answers}
use tclcurl_ng.Api.Monad.{State}
use tclcurl_ng.Options.Sound.{IsSound}
use tclcurl_ng.Options.Files.{
  handle_out_file, handle_read_data, handle_write_header, handle_stderr_file,
}

module _ {fp : ℕ} (ask : Answers) (o : String) (s : State) (v : IsSound fp ask s) where
  pub handle_out_file-IsSound : IsSound fp ask (handle_out_file ask o s).1
  unfolding handle_out_file
  handle_out_file-IsSound = ground arith

  pub handle_read_data-IsSound : IsSound fp ask (handle_read_data ask o s).1
  unfolding handle_read_data
  handle_read_data-IsSound = ground arith

  pub handle_write_header-IsSound : IsSound fp ask (handle_write_header ask o s).1
  unfolding handle_write_header
  handle_write_header-IsSound = ground arith

  pub handle_stderr_file-IsSound : IsSound fp ask (handle_stderr_file ask o s).1
  unfolding handle_stderr_file
  handle_stderr_file-IsSound = ground arith
