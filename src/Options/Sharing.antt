-- ===== src/Options/Sharing.antt =====
-- The -share option: SetoptSHandle of generic/curl_setopts.c and the calls of libcurl that
-- curlDetachShareHandle of generic/tclcurl.c makes.
pub mod Users
use tclcurl_ng.Base.{ℕ, String, ◌||◌, ◌==◌, if◌then◌else◌}
use tclcurl_ng.Api.{Answers, easy_setopt, get_command_info, null, pointer}
use tclcurl_ng.Api.Monad.{
  Status, ok, error, fault, M, pure, ◌>>=◌, ◌>>◌, get_state, modify_shares, call, State,
}
use tclcurl_ng.Share.{Store, detach, link}
use tclcurl_ng.Options.{OptionDef, error_set_opt, setopt}

module _ (ask : Answers) where
  unfoldable pub detach_share_handle : M (Unit {0})
  detach_share_handle = do
    s ← get_state
    if s.shares.share_token s.self == 0 || s.easy.curl == 0
        then pure tt
        else (do setopt ask "CURLOPT_SHARE" null; pure tt)
    modify_shares (detach s.self)

  -- The rest of SetoptSHandle once libcurl has accepted the share handle `t`.
  unfoldable pub attach : ℕ → M Status
  unfolding detach_share_handle
  attach t = do
    s ← get_state
    if s.shares.share_token s.self == t
        then pure ok
        else (do detach_share_handle; modify_shares (link s.self t); pure ok)

  -- Tcl_GetCommandInfo on a name that no share handle has; its answer 0 stands for no command. The
  -- client data of another command is taken for the struct of a share handle: what is read there,
  -- and written if curl_easy_setopt accepts it, is not modelled, and `fault` stands for it.
  abbrev pub other_command : String → M Status
  other_command o = do
    found ← call ask (get_command_info o)
    if found == 0 then pure error else pure fault

  unfoldable pub handle_setopt_shandle : OptionDef → String → M Status
  unfolding attach error_set_opt
  handle_setopt_shandle def o = do
    s ← get_state
    if s.commands o == 0 then other_command o else (do
      code ← setopt ask def.curl_opt (pointer (s.shares.shandle (s.commands o)))
      if code == 0 then attach (s.commands o) else (do error_set_opt def o; pure error))
