-- ===== src/Transfer.antt =====
-- A transfer on an easy handle: curlOpenFiles, curlOpenFile, curlCloseFiles, curlSetBodyVarName,
-- curlseek and curlPerform of generic/tclcurl.c.
pub mod Balance
pub mod Running
pub mod Perform
pub mod Sound
pub mod Untouched
pub mod Wires
use tclcurl_ng.Base.{
  ℕ, zero, suc, ℤ, pos, negsuc, String, List, [], ◌∷◌, Option, none, some, Bool, true, false, not,
  ◌==◌, if◌then◌else◌,
}
use tclcurl_ng.Api.{
  Tcl, Answers, Results, Call, fopen, fclose, fseek, easy_perform, global_eval, tcl_free, set_bytes,
  Arg, file, callback, seek,
}
use tclcurl_ng.Api.Easy.{CurlObjData, MemoryStruct}
use tclcurl_ng.Api.Monad.{
  Status, ok, error, M, pure, ◌>>=◌, ◌>>◌, get, modify, call, set_result, code, could_not_open,
  when,
}
use tclcurl_ng.Options.{setopt}
use tclcurl_ng.Options.Files.{close_out, close_in, close_header, close_stderr}
use tclcurl_ng.Callbacks.Events.{Event, run_events}
use tclcurl_ng.Mime.Transfer.{set_post_data, reset_post_data}

-- A NULL name does not reach fopen: see IsSound in Options/Sound.
abbrev pub name_of : Option String → String
name_of none = ""
name_of (some s) = s

abbrev pub is_one : ℤ → Bool
is_one (pos n) = n == 1
is_one (negsuc n) = false

-- The mode that curlOpenFile passes to fopen.
abbrev pub open_mode : (writing text : Bool) → String
open_mode true true = "w"
open_mode true false = "wb"
open_mode false true = "r"
open_mode false false = "rb"

-- The two uses of `*handle` in curlOpenFile: the old file, and the place for the new one.
pub record Slot : Type 0 where
  pub read : CurlObjData → ℕ
  pub write : ℕ → CurlObjData → CurlObjData

abbrev pub out_slot : Slot
out_slot = record { read = λ d. d.out_handle; write = λ p d. record d { out_handle = p } }

abbrev pub in_slot : Slot
in_slot = record { read = λ d. d.in_handle; write = λ p d. record d { in_handle = p } }

abbrev pub header_slot : Slot
header_slot = record { read = λ d. d.header_handle; write = λ p d. record d { header_handle = p } }

abbrev pub stderr_slot : Slot
stderr_slot = record { read = λ d. d.stderr_handle; write = λ p d. record d { stderr_handle = p } }

module _ (ask : Answers) where
  -- curlOpenFile
  unfoldable pub open_file : Slot → String → (writing text : Bool) → M Status
  open_file slot name writing text = do
    d ← get
    when (not (slot.read d == 0)) (do call ask (fclose (slot.read d)); pure tt)
    p ← call ask (fopen name (open_mode writing text))
    modify (slot.write p)
    if p == 0 then (do set_result (could_not_open name); pure error) else pure ok

  abbrev pub and_then : Status → M Status → M Status
  and_then ok rest = rest
  and_then other rest = pure error

  -- The four parts of curlOpenFiles.
  unfoldable pub open_out : M Status
  open_out = do
    d ← get
    if d.out_flag
        then (do
          status ← open_file out_slot (name_of d.out_file) true (is_one d.transfer_text)
          and_then status (do d ← get; setopt ask "CURLOPT_WRITEDATA" (file d.out_handle); pure ok))
        else pure ok

  unfoldable pub open_in : M Status
  open_in = do
    d ← get
    if d.in_flag
        then (do
          status ← open_file in_slot (name_of d.in_file) false (is_one d.transfer_text)
          and_then status (do
            d ← get
            setopt ask "CURLOPT_READDATA" (file d.in_handle)
            when d.any_auth_flag (do
              setopt ask "CURLOPT_SEEKFUNCTION" (callback seek)
              setopt ask "CURLOPT_SEEKDATA" (file d.in_handle)
              pure tt)
            pure ok))
        else pure ok

  unfoldable pub open_header : M Status
  open_header = do
    d ← get
    if d.header_flag
        then (do
          status ← open_file header_slot (name_of d.header_file) true true
          and_then status
              (do d ← get; setopt ask "CURLOPT_HEADERDATA" (file d.header_handle); pure ok))
        else pure ok

  unfoldable pub open_stderr : M Status
  open_stderr = do
    d ← get
    if d.stderr_flag
        then (do
          status ← open_file stderr_slot (name_of d.stderr_file) true true
          and_then status (do d ← get; setopt ask "CURLOPT_STDERR" (file d.stderr_handle); pure ok))
        else pure ok

  -- curlOpenFiles
  unfoldable pub open_files : M Status
  open_files = do
    status ← open_out
    and_then status (do
      status ← open_in
      and_then status (do status ← open_header; and_then status open_stderr))

  -- curlCloseFiles
  unfoldable pub close_files : M (Unit {0})
  close_files = do close_out ask; close_in ask; close_header ask; close_stderr ask

  -- curlSetBodyVarName
  unfoldable pub set_body_var_name : Option String → M (Unit {0})
  set_body_var_name none = pure tt
  set_body_var_name (some name) = do
    d ← get
    call ask (set_bytes name d.body_var.memory d.body_var.size)
    modify λ d. record d { body_var = record { memory = []; size = 0 } }

  unfoldable pub eval_command : Option String → M (Unit {0})
  eval_command none = pure tt
  eval_command (some script) = do call ask (global_eval script); pure tt

  -- What follows curl_easy_perform in curlPerform.
  unfoldable pub after_perform : M (Unit {0})
  after_perform = do
    close_files
    reset_post_data ask
    d ← get
    set_body_var_name d.body_var_name
    d ← get
    eval_command d.command

  -- curlseek: the offset is ignored. The answer 0 to fseek stands for success, another for -1.
  unfoldable pub curl_seek : (stream : ℕ) → (offset origin : ℤ) → M String
  curl_seek stream offset origin = do
    r ← call ask (fseek stream origin)
    pure (if r == 0 then "CURLIOE_OK" else "CURLIOE_FAILRESTART")

module _ (tcl : Tcl) (ask : Answers) (results : Results) where
  -- curl_easy_perform: libcurl makes the calls `events` of the handle's callbacks, and returns.
  unfoldable pub easy_transfer : List Event → M ℕ
  easy_transfer events = do
    d ← get
    run_events tcl ask results events
    exit_code ← call ask (easy_perform d.curl)
    set_result (code exit_code)
    after_perform ask
    pure exit_code

  abbrev pub or_error : Status → M ℕ → M ℕ
  or_error ok rest = rest
  or_error other rest = pure 1

  -- curlPerform; TCL_ERROR is 1
  unfoldable pub perform : List Event → M ℕ
  perform events = do
    status ← open_files ask
    or_error status (do status ← set_post_data ask; or_error status (easy_transfer events))
