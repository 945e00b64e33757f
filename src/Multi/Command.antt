-- ===== src/Multi/Command.antt =====
-- What a multi handle does, in generic/multi.c: from curlInitMultiObjCmd to curlMultiAutoTransfer. `fuel` bounds the loops on libcurl's answers.
use tclcurl_ng.Base.{
  ℕ, zero, suc, ℤ, pos, negsuc, String, List, [], ◌∷◌, Option, none, some, Bool, true, false, ◌==◌,
  if◌then◌else◌,
}
use tclcurl_ng.Api.{
  Tcl, Answers, MultiAnswers, Msg, Value, number, transfer_message, multi_init, multi_add,
  multi_remove, multi_perform, multi_cleanup, multi_fdset, multi_info_read, select_files,
  create_command, create_event_source, tcl_free,
}
use tclcurl_ng.Api.Monad.{Status, ok, error, literal, object}
use tclcurl_ng.Commands.{create_multi_obj_cmd}
use tclcurl_ng.Handle.{Created}
use tclcurl_ng.Mime.Transfer.{set_post_data, reset_post_data}
use tclcurl_ng.Multi.{EasyHandleList, easy_handle_list_add, easy_handle_list_remove, get_easy_name}
use tclcurl_ng.Multi.Monad.{
  Run, pure, and_then, ◌>>=◌, ◌>>◌, get, modify, on_easy, log, say, modify_multi,
}
use tclcurl_ng.Transfer.{open_files, close_files, set_body_var_name}

abbrev pub is_positive : ℤ → Bool
is_positive (pos zero) = false
is_positive (pos (suc n)) = true
is_positive (negsuc n) = false

abbrev pub is_zero : ℤ → Bool
is_zero (pos n) = n == 0
is_zero (negsuc n) = false

-- curlReturnCURLMcode
unfoldable pub return_code : ℤ → Run Status
return_code code = do
  modify (say (object (number code)))
  pure (if is_positive code then error else ok)

-- A list without nodes, in memory whose nodes lie below `limit`.
abbrev pub empty_list : ℕ → EasyHandleList
empty_list limit = record {
  first = 0;
  last = 0;
  curl = λ p. 0;
  name = λ p. "";
  next = λ p. 0;
  limit = limit;
}

abbrev pub text_of : Option (Option String) → String
text_of (some (some name)) = name
text_of _ = ""

-- The loop of curlMultiDeleteCmd; of what it frees, the names are logged.
unfoldable pub free_nodes : ℕ → (here : ℕ) → Run (Unit {0})
free_nodes zero here s = none
free_nodes (suc k) here s =
    let list = s.multi.handle_list in
    let rest = free_nodes k (list.next here) (log (tcl_free (some (list.name here))) s) in
    if here == 0 then some (tt, s) else rest

module _ (ask : Answers) (print : ℕ → String) where
  abbrev pub register : Option Created → Run (Option Created)
  register none = pure none
  register (some (name, names)) = do
    modify (log (create_command name))
    s ← get
    modify (modify_multi λ d. record d { token = ask s.host.calls })
    modify (say (literal name))
    pure (some (name, names))

  -- curlInitMultiObjCmd, on a struct from Tcl_Alloc with any contents; `none` is TCL_ERROR.
  unfoldable pub init_multi_obj_cmd : (limit : ℕ) → (taken : List String) → Run (Option Created)
  init_multi_obj_cmd limit taken = do
    modify (log multi_init)
    s ← get
    let mcurl = ask s.host.calls
    modify (
        modify_multi λ d. record {
          mcurl = mcurl;
          token = 0;
          handle_list = empty_list limit;
          running_transfers = 0;
          post_command = none;
        })
    if mcurl == 0
        then (do modify (say (literal "Couldn't open curl multi handle")); pure none)
        else register (create_multi_obj_cmd print taken)

module _ (tcl : Tcl) (ask : Answers) (libcurl : MultiAnswers) where
  -- curl_multi_perform
  unfoldable pub multi_perform_call : Run ℤ
  multi_perform_call = do
    s ← get
    modify (log (multi_perform s.multi.mcurl))
    s ← get
    pure (libcurl.multi_code s.host.calls)

  -- The rest of curlAddMultiHandle once files and POST data are in place; `p` is the node that
  -- Tcl_Alloc returns.
  unfoldable pub add_to_list : (p : ℕ) → String → Run ℤ
  add_to_list p name = do
    s ← get
    modify (log (multi_add s.multi.mcurl s.host.easy.curl))
    s ← get
    modify λ s. record s { at_mcurl = easy_handle_list_add p s.host.easy.curl name s.at_mcurl }
    pure (libcurl.multi_code s.host.calls)

  -- TCL_ERROR is 1.
  abbrev pub or_one : Status → Run ℤ → Run ℤ
  or_one ok rest = rest
  or_one other rest = pure (pos 1)

  -- curlAddMultiHandle
  unfoldable pub add_multi_handle : (p : ℕ) → String → Run ℤ
  add_multi_handle p name = do
    status ← on_easy (open_files ask)
    or_one status (do status ← on_easy (set_post_data ask); or_one status (add_to_list p name))

  -- What remains of the list once the loop has ended.
  abbrev pub keep_list : Option EasyHandleList → Run (Unit {0})
  keep_list none s = none
  keep_list (some list) s = some (tt, record s { at_mcurl = list })

  -- curlRemoveMultiHandle
  unfoldable pub remove_multi_handle : Run ℤ
  remove_multi_handle = do
    s ← get
    modify (log (multi_remove s.multi.mcurl s.host.easy.curl))
    s ← get
    let code = libcurl.multi_code s.host.calls
    keep_list (easy_handle_list_remove s.host.easy.curl s.at_mcurl)
    on_easy (close_files ask)
    on_easy (reset_post_data ask)
    s ← get
    on_easy (set_body_var_name ask s.host.easy.body_var_name)
    pure code

  -- The loop of curlMultiPerform, from the code before.
  unfoldable pub perform_loop : ℕ → ℤ → Run ℤ
  perform_loop k (pos n) s = some (pos n, s)
  perform_loop zero (negsuc n) s = none
  perform_loop (suc k) (negsuc n) s = and_then (perform_loop k) (multi_perform_call s)

  -- curlMultiPerform
  unfoldable pub curl_multi_perform : (fuel : ℕ) → Run Status
  curl_multi_perform fuel = do
    code ← perform_loop fuel (negsuc 0)
    s ← get
    if is_zero code
        then (do return_code (pos (libcurl.running_transfers s.host.calls)); pure ok)
        else (do return_code code; pure error)

  -- curlMultiDeleteCmd with curlMultiFreeSpace, which cleans the multi handle up a second time.
  unfoldable pub multi_delete_cmd : Run Status
  multi_delete_cmd = do
    s ← get
    free_nodes (suc s.multi.handle_list.limit) s.multi.handle_list.first
    modify (log (multi_cleanup s.multi.mcurl))
    s ← get
    let code = libcurl.multi_code s.host.calls
    modify (log (multi_cleanup s.multi.mcurl))
    modify (log (tcl_free s.multi.post_command))
    return_code code

  abbrev pub info_value : Option Msg → EasyHandleList → Value
  info_value none list = transfer_message "" (pos 0) (pos 0) (pos 0)
  info_value (some m) list =
      transfer_message (text_of (get_easy_name m.easy_handle list)) m.msg m.result m.msg_left

  -- curlMultiGetInfo
  unfoldable pub multi_get_info : Run Status
  multi_get_info = do
    s ← get
    modify (log (multi_info_read s.multi.mcurl))
    s ← get
    modify (say (object (info_value (libcurl.message s.host.calls) s.at_mcurl)))
    pure ok

  -- curlMultiGetActiveTransfers
  unfoldable pub get_active_transfers : Run ℤ
  get_active_transfers = do
    s ← get
    modify (log (multi_fdset s.multi.mcurl))
    modify (log (select_files s.multi.mcurl))
    s ← get
    pure (libcurl.select_code s.host.calls)

  abbrev pub is_minus_one : ℤ → Bool
  is_minus_one (pos n) = false
  is_minus_one (negsuc n) = n == 0

  -- curlMultiActiveTransfers
  unfoldable pub active_transfers : Run Status
  active_transfers = do
    code ← get_active_transfers
    if is_minus_one code then pure error else (do modify (say (object (number code))); pure ok)

  -- The loop of curlMultiAutoTransfer: CURLM_CALL_MULTI_PERFORM is -1.
  unfoldable pub auto_loop : ℕ → Run (Unit {0})
  auto_loop zero s = none
  auto_loop (suc k) s =
      let s' = log (multi_perform s.multi.mcurl) s in
      let done =
        modify_multi (λ d. record d { running_transfers = libcurl.running_transfers s'.host.calls })
          s' in
      let rest = auto_loop k done in
      if is_minus_one (libcurl.multi_code s'.host.calls) then rest else some (tt, done)

  -- `auto -command script`, with any word in the place of -command
  abbrev pub keep_post_command : List String → Run (Unit {0})
  keep_post_command (word ∷ script ∷ []) = do
    s ← get
    modify (log (tcl_free s.multi.post_command))
    modify (modify_multi λ d. record d { post_command = some script })
  keep_post_command args = pure tt

  -- curlMultiAutoTransfer
  unfoldable pub auto_transfer : (fuel : ℕ) → List String → Run Status
  auto_transfer fuel args = do
    keep_post_command args
    modify λ s. log create_event_source (record s { sources = suc s.sources })
    auto_loop fuel
    pure ok
