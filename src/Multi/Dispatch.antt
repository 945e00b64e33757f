-- ===== src/Multi/Dispatch.antt =====
-- The commands of a multi handle by their words, in generic/multi.c and the tables of generic/multi.h:
-- curlMultiObjCmd with its dispatch, and the options of curlMultiConfigTransfer.
use tclcurl_ng.Base.{
  ℕ, ℤ, String, List, [], ◌∷◌, Option, none, some, Bool, if◌then◌else◌, get_elem?,
}
use tclcurl_ng.Api.{Tcl, Answers, MultiAnswers, multi_setopt, delete_command}
use tclcurl_ng.Api.Monad.{
  Status, ok, error, fault, tcl_message, setting_option, empty_value, wrong_num_args,
}
use tclcurl_ng.Multi.Monad.{Run, pure, ◌>>=◌, ◌>>◌, get, modify, log, say}
use tclcurl_ng.Multi.Command.{
  is_zero, return_code, add_multi_handle, remove_multi_handle, curl_multi_perform, multi_delete_cmd,
  multi_get_info, active_transfers, auto_transfer,
}
use tclcurl_ng.Options.Choices.{entry}

-- TclCurlMultiCommandId
pub data MultiCommandId : Type 0 where
  addhandle removehandle perform cleanup getinfo active auto configure : MultiCommandId

abbrev pub multi_config_table : List String
multi_config_table = "-pipelining" ∷ "-maxconnects" ∷ []

abbrev pub multi_config_options : List String
multi_config_options = "CURLMOPT_PIPELINING" ∷ "CURLMOPT_MAXCONNECTS" ∷ []

-- The rows of TCLCURL_MULTI_COMMAND_LIST.
abbrev pub multi_command_table : List String
multi_command_table =
    "addhandle" ∷ "removehandle" ∷ "perform" ∷ "cleanup" ∷ "getinfo" ∷ "active" ∷ "auto"
    ∷ "configure" ∷ []

abbrev pub multi_command_ids : List MultiCommandId
multi_command_ids =
    addhandle ∷ removehandle ∷ perform ∷ cleanup ∷ getinfo ∷ active ∷ auto ∷ configure ∷ []

abbrev pub command_at : Option ℕ → Option MultiCommandId
command_at none = none
command_at (some i) = get_elem? multi_command_ids i

module _ (tcl : Tcl) (ask : Answers) (libcurl : MultiAnswers) where
  abbrev pub refuse_option : ℕ → String → Run Status
  refuse_option i o = do modify (say (setting_option (entry multi_config_table i) o)); pure error

  -- SetMultiOptLong, on the number that the object holds.
  unfoldable pub set_multi_opt_long : Option ℤ → ℕ → String → Run Status
  set_multi_opt_long none i o = refuse_option i o
  set_multi_opt_long (some n) i o = do
    s ← get
    modify (log (multi_setopt s.multi.mcurl (entry multi_config_options i) n))
    s ← get
    if is_zero (libcurl.multi_code s.host.calls) then pure ok else refuse_option i o

  -- curlMultiSetOpts: both rows of the table have SetMultiOptLong.
  unfoldable pub multi_set_opts : String → ℕ → Run Status
  multi_set_opts o i = set_multi_opt_long (tcl.get_long o) i o

  abbrev pub refuse : Run Status
  refuse = do modify (say tcl_message); pure error

  abbrev pub missing_value : Option ℕ → Run Status
  missing_value none = refuse
  missing_value (some i) = do modify (say (empty_value (entry multi_config_table i))); pure error

  abbrev pub set_found : Option ℕ → String → Run Status
  set_found none o = refuse
  set_found (some i) o = multi_set_opts o i

  abbrev pub unless_error : Status → Run Status → Run Status
  unless_error ok rest = rest
  unless_error other rest = pure other

  -- curlMultiConfigTransfer
  unfoldable pub multi_config_transfer : List String → Run Status
  multi_config_transfer [] = pure ok
  multi_config_transfer (name ∷ []) = missing_value (tcl.get_index multi_config_table name)
  multi_config_transfer (name ∷ o ∷ rest) =
      let later = multi_config_transfer rest in
      (do status ← set_found (tcl.get_index multi_config_table name) o; unless_error status later)

  -- Tcl_DeleteCommandFromToken calls curlMultiDeleteCmd, whose result it ignores.
  unfoldable pub multi_cleanup_cmd : Run Status
  multi_cleanup_cmd = do
    s ← get
    modify (log (delete_command s.multi.token))
    multi_delete_cmd tcl ask libcurl
    pure ok

  -- Where no word names an easy handle, curlGetEasyHandle returns NULL, which the caller reads.
  abbrev pub if_known : (known : String → Bool) → List String → (String → Run Status) → Run Status
  if_known known [] f = pure fault
  if_known known (name ∷ args) f = if known name then f name else pure fault

  -- The functions of multiCommandDispatch; the status of getinfo, active, auto and configure is
  -- ignored, and no function checks how many words there are.
  unfoldable pub dispatch :
      (known : String → Bool) → (p fuel : ℕ) → MultiCommandId → List String → Run Status
  dispatch known p fuel addhandle args =
      if_known known args
        λ name. (do code ← add_multi_handle tcl ask libcurl p name; return_code code)
  dispatch known p fuel removehandle args =
      if_known known args λ name. (do code ← remove_multi_handle tcl ask libcurl; return_code code)
  dispatch known p fuel perform args = curl_multi_perform tcl ask libcurl fuel
  dispatch known p fuel cleanup args = multi_cleanup_cmd
  dispatch known p fuel getinfo args = do multi_get_info tcl ask libcurl; pure ok
  dispatch known p fuel active args = do active_transfers tcl ask libcurl; pure ok
  dispatch known p fuel auto args = do auto_transfer tcl ask libcurl fuel args; pure ok
  dispatch known p fuel configure args = do multi_config_transfer args; pure ok

  abbrev pub dispatch_found :
      (known : String → Bool) → (p fuel : ℕ) → Option MultiCommandId → List String → Run Status
  dispatch_found known p fuel none args = refuse
  dispatch_found known p fuel (some id) args = dispatch known p fuel id args

  -- curlMultiObjCmd, on the words after the command's name. `known` tells the names of easy handles,
  -- and the first word's handle is the state's `host`.
  unfoldable pub curl_multi_obj_cmd :
      (known : String → Bool) → (p fuel : ℕ) → List String → Run Status
  curl_multi_obj_cmd known p fuel [] = do
    modify (say (wrong_num_args "option arg ?arg?"))
    pure error
  curl_multi_obj_cmd known p fuel (word ∷ args) =
      dispatch_found known p fuel (command_at (tcl.get_index multi_command_table word)) args
