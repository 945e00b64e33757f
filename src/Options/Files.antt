-- ===== src/Options/Files.antt =====
-- The options that name a file: the handlers of -file, -infile, -writeheader and -stderr in
-- generic/curl_setopts.c.
use tclcurl_ng.Base.{String, none, some, true, false, not, ◌&&◌, ◌==◌, if◌then◌else◌, str_eq}
use tclcurl_ng.Api.{Answers, tcl_free, fclose, null, stdin_file, stdout_file, stderr_file}
use tclcurl_ng.Api.Monad.{Status, ok, M, pure, ◌>>=◌, ◌>>◌, get, modify, call, when}
use tclcurl_ng.Options.{setopt}

module _ (ask : Answers) where
  -- `if (handle != NULL) { fclose(handle); handle = NULL; }` for each of the four files.
  unfoldable pub close_out : M (Unit {0})
  close_out = do
    d ← get
    when (not (d.out_handle == 0))
        (do call ask (fclose d.out_handle); modify λ d. record d { out_handle = 0 })

  unfoldable pub close_in : M (Unit {0})
  close_in = do
    d ← get
    when (not (d.in_handle == 0))
        (do call ask (fclose d.in_handle); modify λ d. record d { in_handle = 0 })

  unfoldable pub close_header : M (Unit {0})
  close_header = do
    d ← get
    when (not (d.header_handle == 0))
        (do call ask (fclose d.header_handle); modify λ d. record d { header_handle = 0 })

  unfoldable pub close_stderr : M (Unit {0})
  close_stderr = do
    d ← get
    when (not (d.stderr_handle == 0))
        (do call ask (fclose d.stderr_handle); modify λ d. record d { stderr_handle = 0 })

  unfoldable pub handle_out_file : String → M Status
  unfolding close_out
  handle_out_file o = do
    d ← get
    call ask (tcl_free d.out_file)
    modify λ d. record d { out_file = some o }
    when d.out_flag close_out
    if not (str_eq o "") && not (str_eq o "stdout")
        then (modify λ d. record d { out_flag = true })
        else (do
          modify λ d. record d { out_flag = false }
          setopt ask "CURLOPT_WRITEDATA" stdout_file
          modify λ d. record d { out_file = none })
    setopt ask "CURLOPT_WRITEFUNCTION" null
    pure ok

  unfoldable pub handle_read_data : String → M Status
  unfolding close_in
  handle_read_data o = do
    d ← get
    call ask (tcl_free d.in_file)
    modify λ d. record d { in_file = some o }
    when d.in_flag close_in
    if not (str_eq o "") && not (str_eq o "stdin")
        then (modify λ d. record d { in_flag = true })
        else (do
          setopt ask "CURLOPT_READDATA" stdin_file
          modify λ d. record d { in_flag = false; in_file = none })
    setopt ask "CURLOPT_READFUNCTION" null
    pure ok

  unfoldable pub handle_write_header : String → M Status
  unfolding close_header
  handle_write_header o = do
    d ← get
    call ask (tcl_free d.header_file)
    modify λ d. record d { header_file = some o }
    when d.header_flag (do close_header; setopt ask "CURLOPT_HEADERDATA" null; pure tt)
    if not (str_eq o "") && not (str_eq o "stdout") && not (str_eq o "stderr")
        then (modify λ d. record d { header_flag = true })
        else (do
          setopt ask "CURLOPT_HEADERDATA"
              (if not (str_eq o "stdout") then stderr_file else stdout_file)
          modify λ d. record d { header_flag = false; header_file = none })
    pure ok

  unfoldable pub handle_stderr_file : String → M Status
  handle_stderr_file o = do
    d ← get
    call ask (tcl_free d.stderr_file)
    modify λ d. record d { stderr_file = some o }
    if not (str_eq o "") && not (str_eq o "stdout") && not (str_eq o "stderr")
        then (modify λ d. record d { stderr_flag = true })
        else (do
          modify λ d. record d { stderr_flag = false }
          setopt ask "CURLOPT_STDERR" (if not (str_eq o "stdout") then stderr_file else stdout_file)
          modify λ d. record d { stderr_file = none })
    pure ok
