-- ===== src/Handle/Command.antt =====
-- The command of an easy handle: curlObjCmd of generic/tclcurl.c. `new` is the address that Tcl_Alloc
-- gives to a duplicate, `events` the callbacks that libcurl makes during a transfer.
use tclcurl_ng.Base.{
  ℕ, String, List, [], ◌∷◌, Option, none, some, ◌==◌, if◌then◌else◌, get_elem?, length, Bool, not,
  ltb, ◌||◌, ◌+◌, ◌%◌,
}
use tclcurl_ng.Api.{
  Tcl, Answers, Results, Infos, Value, delete_command, easy_pause, set_error_buffer,
}
use tclcurl_ng.Api.Monad.{
  Status, ok, error, fault, M, pure, ◌>>=◌, ◌>>◌, get, call, set_result, wrong_num_args, object,
  when,
}
use tclcurl_ng.Callbacks.Events.{Event}
use tclcurl_ng.Handle.{Duplicate, delete_cmd, dup_handle, reset_handle}
use tclcurl_ng.Info.{get_info}
use tclcurl_ng.Options.Run.{set_opts_transfer, config_transfer}
use tclcurl_ng.Transfer
use tclcurl_ng.Transfer.{name_of}

-- tclcurl_cmd_id
pub data CmdId : Type 0 where
  setopt perform getinfo cleanup configure duphandle reset pause resume : CmdId

abbrev pub command_table : List String
command_table =
    "setopt" ∷ "perform" ∷ "getinfo" ∷ "cleanup" ∷ "configure" ∷ "duphandle" ∷ "reset" ∷ "pause"
    ∷ "resume" ∷ []

abbrev pub cmd_ids : List CmdId
cmd_ids = setopt ∷ perform ∷ getinfo ∷ cleanup ∷ configure ∷ duphandle ∷ reset ∷ pause ∷ resume ∷ []

abbrev pub cmd_at : Option ℕ → Option CmdId
cmd_at none = none
cmd_at (some i) = get_elem? cmd_ids i

-- What the command returns, with the handle that duphandle has made.
abbrev pub Reply : Type 0
Reply = Status × Option Duplicate

abbrev pub reply : Status → M Reply
reply status = pure (status, none)

-- Tcl_WrongNumArgs, then TCL_ERROR.
unfoldable pub wrong : String → M Reply
wrong message = do set_result (wrong_num_args message); reply error

-- `objc < 4 || objc % 2` on the arguments behind two words
abbrev pub accepts_pairs : List String → Bool
accepts_pairs args = not (ltb (2 + length args) 4 || (2 + length args) % 2 == 1)

-- The effects of the world during one command.
pub record Situation : Type 0 where
  pub events : List Event
  pub new : ℕ
  pub taken : List String

module _ (tcl : Tcl) (ask : Answers) (results : Results) (infos : Infos) (print : ℕ → String)
    (world : Situation) where
  -- What follows a failed curlPerform.
  unfoldable pub report_error : M Reply
  report_error = do
    d ← get
    when d.error_buffer
        (do call ask (set_error_buffer (name_of d.error_buffer_name) d.error_buffer_key); pure tt)
    reply error

  unfoldable pub perform_cmd : M Reply
  perform_cmd = do
    code ← Transfer.perform tcl ask results world.events
    if code == 0 then reply ok else report_error

  abbrev pub info_reply : Option Value → M Reply
  info_reply none = reply error
  info_reply (some value) = do set_result (object value); reply ok

  -- Tcl_DeleteCommandFromToken calls curlDeleteCmd.
  unfoldable pub cleanup_cmd : M Reply
  cleanup_cmd = do d ← get; call ask (delete_command d.token); delete_cmd ask; reply ok

  abbrev pub duplicate_reply : Option Duplicate → M Reply
  duplicate_reply none = reply error
  duplicate_reply (some copy) = pure (ok, some copy)

  -- TCL_ERROR is 1.
  unfoldable pub pause_cmd : String → M Reply
  pause_cmd mask = do
    d ← get
    code ← call ask (easy_pause d.curl mask)
    if code == 1 then reply error else reply ok

  -- The switch, on the words after the command's name and its first word.
  unfoldable pub run_cmd : CmdId → List String → M Reply
  run_cmd setopt (name ∷ value ∷ []) = do
    status ← set_opts_transfer tcl ask name value
    reply status
  run_cmd setopt args = wrong "option value"
  run_cmd perform [] = perform_cmd
  run_cmd perform args = wrong ""
  run_cmd getinfo (word ∷ []) = do value ← get_info tcl ask infos word; info_reply value
  run_cmd getinfo args = wrong "option"
  run_cmd cleanup [] = cleanup_cmd
  run_cmd cleanup args = wrong ""
  run_cmd configure args =
      if accepts_pairs args
      then (do status ← config_transfer tcl ask args; reply status)
      else wrong "option value ?option value ...?"
  run_cmd duphandle [] = do copy ← dup_handle ask print world.new world.taken; duplicate_reply copy
  run_cmd duphandle args = wrong ""
  run_cmd reset [] = do reset_handle ask; reply ok
  run_cmd reset args = wrong ""
  run_cmd pause [] = pause_cmd "CURLPAUSE_ALL"
  run_cmd pause args = wrong ""
  run_cmd resume [] = pause_cmd "CURLPAUSE_CONT"
  run_cmd resume args = wrong ""

  -- The table has no NULL at its end: the search for an unknown word reads on behind it.
  unfoldable pub run_found : Option CmdId → List String → M Reply
  run_found none args = reply fault
  run_found (some id) args = run_cmd id args

  -- curlObjCmd, on the words after the command's name.
  unfoldable pub curl_obj_cmd : List String → M Reply
  curl_obj_cmd [] = wrong "option arg ?arg?"
  curl_obj_cmd (word ∷ args) = run_found (cmd_at (tcl.get_index command_table word)) args
