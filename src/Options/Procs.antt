-- ===== src/Options/Procs.antt =====
-- The options that name a Tcl variable or procedure which a callback of the transfer uses: handlers
-- of generic/curl_setopts.c.
use tclcurl_ng.Base.{String, Option, none, some, false, not, ◌==◌, if◌then◌else◌, str_eq}
use tclcurl_ng.Api.{
  Answers, tcl_free, link_var, unlink_var, Arg, null, self, callback, header_reader, body_reader,
  progress_callback, write_proc_invoke, read_proc_invoke, debug_proc_invoke, ssh_key_callback,
  chunk_bgn_invoke, chunk_end_invoke, fnmatch_invoke,
}
use tclcurl_ng.Api.Monad.{Status, ok, error, M, pure, ◌>>=◌, ◌>>◌, get, modify, call, when}
use tclcurl_ng.Options.{OptionDef, error_set_opt, setopt}
use tclcurl_ng.Options.Files.{close_out, close_in, close_header}

module _ (ask : Answers) where
  -- `if (curl_easy_setopt(curlHandle,opt,a)) return TCL_ERROR;` and what follows it.
  abbrev pub try_setopt : String → Arg → M Status → M Status
  try_setopt opt a rest = do code ← setopt ask opt a; if code == 0 then rest else pure error

  unfoldable pub handle_header_var : String → M Status
  unfolding close_header
  handle_header_var o = do
    d ← get
    when d.header_flag (do
      close_header ask
      setopt ask "CURLOPT_HEADERDATA" null
      modify λ d. record d { header_flag = false })
    try_setopt "CURLOPT_HEADERFUNCTION" (callback header_reader) (do
      call ask (tcl_free d.header_var)
      modify λ d. record d { header_var = some o }
      try_setopt "CURLOPT_HEADERDATA" self (pure ok))

  -- The block of -bodyvar and -writeproc that gives up an output file.
  unfoldable pub stop_output : M (Unit {0})
  unfolding close_out
  stop_output = do
    d ← get
    when d.out_flag (do close_out ask; setopt ask "CURLOPT_WRITEDATA" null; pure tt)
    modify λ d. record d { out_flag = false }

  -- The block of -readproc that gives up an input file.
  unfoldable pub stop_input : M (Unit {0})
  unfolding close_in
  stop_input = do
    d ← get
    when d.in_flag (do close_in ask; setopt ask "CURLOPT_READDATA" null; pure tt)
    modify λ d. record d { in_flag = false }

  unfoldable pub handle_body_var : String → M Status
  unfolding stop_output
  handle_body_var o = do
    d ← get
    call ask (tcl_free d.body_var_name)
    modify λ d. record d { body_var_name = some o }
    stop_output
    try_setopt "CURLOPT_WRITEFUNCTION" (callback body_reader)
        (try_setopt "CURLOPT_WRITEDATA" self (pure ok))

  unfoldable pub handle_progress_proc : String → M Status
  handle_progress_proc o = do
    d ← get
    call ask (tcl_free d.progress_proc)
    modify λ d. record d { progress_proc = some o }
    if not (str_eq o "")
        then (try_setopt "CURLOPT_XFERINFOFUNCTION" (callback progress_callback)
            (try_setopt "CURLOPT_XFERINFODATA" self (pure ok)))
        else (try_setopt "CURLOPT_XFERINFOFUNCTION" null (pure ok))

  abbrev pub unlink_old : Option String → M (Unit {0})
  unlink_old none = pure tt
  unlink_old (some name) = do call ask (unlink_var name); call ask (tcl_free (some name)); pure tt

  unfoldable pub handle_cancel_trans_var_name : String → M Status
  handle_cancel_trans_var_name o = do
    d ← get
    unlink_old d.cancel_trans_var_name
    modify λ d. record d { cancel_trans_var_name = some o }
    call ask (link_var o)
    pure ok

  unfoldable pub install_write_proc : M Status
  install_write_proc = do
    code ← setopt ask "CURLOPT_WRITEFUNCTION" (callback write_proc_invoke)
    if not (code == 0) then (do setopt ask "CURLOPT_WRITEFUNCTION" null; pure error) else (do
      code ← setopt ask "CURLOPT_WRITEDATA" self
      if not (code == 0) then (do setopt ask "CURLOPT_WRITEFUNCTION" null; pure error) else pure ok)

  unfoldable pub handle_write_proc : String → M Status
  unfolding stop_output install_write_proc
  handle_write_proc o = do
    modify λ d. record d { write_proc = some o }
    stop_output
    install_write_proc

  unfoldable pub install_read_proc : String → M Status
  install_read_proc o =
      if not (str_eq o "")
      then (try_setopt "CURLOPT_READFUNCTION" (callback read_proc_invoke)
          (try_setopt "CURLOPT_READDATA" self (pure ok)))
      else (do setopt ask "CURLOPT_READFUNCTION" null; pure ok)

  unfoldable pub handle_read_proc : String → M Status
  unfolding stop_input install_read_proc
  handle_read_proc o = do
    modify λ d. record d { read_proc = some o }
    stop_input
    install_read_proc o

  unfoldable pub handle_debug_proc : String → M Status
  handle_debug_proc o = do
    modify λ d. record d { debug_proc = some o }
    try_setopt "CURLOPT_DEBUGFUNCTION" (callback debug_proc_invoke)
        (try_setopt "CURLOPT_DEBUGDATA" self (pure ok))

  unfoldable pub handle_ssh_key_function : String → M Status
  handle_ssh_key_function o = try_setopt "CURLOPT_SSH_KEYFUNCTION" (callback ssh_key_callback) (
      try_setopt "CURLOPT_SSH_KEYDATA" self
        (do modify λ d. record d { sshkeycall_proc = some o }; pure ok))

  unfoldable pub handle_chunk_bgn_proc : String → M Status
  handle_chunk_bgn_proc o = do
    modify λ d. record d { chunk_bgn_proc = some o }
    if not (str_eq o "")
        then (try_setopt "CURLOPT_CHUNK_BGN_FUNCTION" (callback chunk_bgn_invoke)
            (try_setopt "CURLOPT_CHUNK_DATA" self (pure ok)))
        else (do setopt ask "CURLOPT_CHUNK_BGN_FUNCTION" null; pure ok)

  unfoldable pub handle_chunk_bgn_var : OptionDef → String → M Status
  unfolding error_set_opt
  handle_chunk_bgn_var def o = do
    modify λ d. record d { chunk_bgn_var = some o }
    if str_eq o "" then (do error_set_opt def "invalid var name"; pure error) else pure ok

  unfoldable pub handle_chunk_end_proc : String → M Status
  handle_chunk_end_proc o = do
    modify λ d. record d { chunk_end_proc = some o }
    if not (str_eq o "")
        then (try_setopt "CURLOPT_CHUNK_END_FUNCTION" (callback chunk_end_invoke) (pure ok))
        else (do setopt ask "CURLOPT_CHUNK_END_FUNCTION" null; pure ok)

  unfoldable pub handle_fnmatch_proc : String → M Status
  handle_fnmatch_proc o = do
    modify λ d. record d { fnmatch_proc = some o }
    if not (str_eq o "")
        then (try_setopt "CURLOPT_FNMATCH_FUNCTION" (callback fnmatch_invoke)
            (try_setopt "CURLOPT_FNMATCH_DATA" self (pure ok)))
        else (do setopt ask "CURLOPT_FNMATCH_FUNCTION" null; pure ok)
