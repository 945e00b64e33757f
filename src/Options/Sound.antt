-- ===== src/Options/Sound.antt =====
-- What every option keeps true of an easy handle's files.
pub mod Parts
pub mod Files
pub mod Procs
pub mod Slists
pub mod Misc
pub mod Commands
use tclcurl_ng.Base.{ℕ, String, ◌≡◌, ◌≢◌, Bool, true, Option, none}
use tclcurl_ng.Api.{Answers}
use tclcurl_ng.Api.Monad.{State}
use tclcurl_ng.Transfer.Balance.{one, Balanced}

-- The FILE pointer `p`, which is not NULL, was closed as often as fopen gave it, but for the fields
-- that hold it now; and a flag that asks for a file to be opened stands beside a name to open, so that
-- fopen is never given NULL.
pub record IsSound (p : ℕ) (ask : Answers) (s : State) : Type 0 where
  pub not_null : one p 0 ≡ 0
  pub balanced : Balanced p ask s
  pub out_named : s.easy.out_flag ≡ true → s.easy.out_file ≢ none
  pub in_named : s.easy.in_flag ≡ true → s.easy.in_file ≢ none
  pub header_named : s.easy.header_flag ≡ true → s.easy.header_file ≢ none
  pub stderr_named : s.easy.stderr_flag ≡ true → s.easy.stderr_file ≢ none
