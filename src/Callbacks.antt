-- ===== src/Callbacks.antt =====
-- The functions that libcurl calls back during a transfer (generic/tclcurl.c): they collect the body
-- and the headers, and run the user's Tcl procedures. What they return is libcurl's constant by name,
-- or a number.
pub mod Events
pub mod Body
pub mod Untouched
use tclcurl_ng.Base.{
  ℕ, zero, suc, ◌+◌, ◌*◌, ℤ, pos, negsuc, String, List, [], ◌∷◌, ◌++◌, Option, none, some, Bool,
  true, false, ◌==◌, if◌then◌else◌, map, length,
}
use tclcurl_ng.Api.{
  Tcl, Answers, Results, Call, eval_words, set_var, set_word, append_var, Word, script, name,
  number, bytes, pair,
}
use tclcurl_ng.Api.Easy.{CurlObjData, MemoryStruct}
use tclcurl_ng.Api.Monad.{State, M, pure, ◌>>=◌, ◌>>◌, get, get_state, modify, call}

-- A NULL name: the callbacks are installed only by the options that set it.
abbrev pub text_of : Option String → String
text_of none = ""
text_of (some s) = s

abbrev pub is_set : Option String → Bool
is_set none = false
is_set (some s) = true

-- curlBodyReader; `chunk` is the `size * nmemb` bytes at `ptr`, which fit an int
unfoldable pub body_reader : List ℕ → M ℕ
body_reader chunk = do
  modify λ d. record d {
    body_var = record {
      memory = d.body_var.memory ++ chunk;
      size = d.body_var.size + length chunk;
    };
  }
  pure (length chunk)

-- The start of the progress, write, read and debug callbacks: was the transfer cancelled?
unfoldable pub take_cancel : M Bool
take_cancel = do
  d ← get
  if is_set d.cancel_trans_var_name
      then (if d.cancel_trans
          then (do modify λ d. record d { cancel_trans = false }; pure true)
          else pure false)
      else pure false

-- The word for a file type in curlChunkBgnProcInvoke.
unfoldable pub file_type : ℕ → Option String
file_type zero = some "file"
file_type (suc zero) = some "directory"
file_type (suc (suc zero)) = some "symlink"
file_type (suc (suc (suc zero))) = some "device block"
file_type (suc (suc (suc (suc zero)))) = some "device char"
file_type (suc (suc (suc (suc (suc zero))))) = some "named pipe"
file_type (suc (suc (suc (suc (suc (suc zero)))))) = some "socket"
file_type (suc (suc (suc (suc (suc (suc (suc zero))))))) = some "door"
file_type (suc (suc (suc (suc (suc (suc (suc (suc zero)))))))) = some "error"
file_type (suc (suc (suc (suc (suc (suc (suc (suc (suc n))))))))) = none

-- `struct curl_fileinfo`, as far as it is read
pub record FileInfo : Type 0 where
  pub filename : String
  pub filetype : ℕ
  pub time : ℤ
  pub perm : ℤ
  pub uid : ℤ
  pub gid : ℤ
  pub size : ℤ
  pub hardlinks : ℤ
  pub flags : ℤ

-- The `switch` statements on the int that the user's procedure returns.
unfoldable pub chunk_bgn_code : Option ℤ → String
chunk_bgn_code (some (pos zero)) = "CURL_CHUNK_BGN_FUNC_OK"
chunk_bgn_code (some (pos (suc zero))) = "CURL_CHUNK_BGN_FUNC_SKIP"
chunk_bgn_code _ = "CURL_CHUNK_BGN_FUNC_FAIL"

unfoldable pub chunk_end_code : Option ℤ → String
chunk_end_code none = "CURL_CHUNK_END_FUNC_FAIL"
chunk_end_code (some (pos (suc zero))) = "CURL_CHUNK_BGN_FUNC_FAIL"
chunk_end_code (some _) = "CURL_CHUNK_END_FUNC_OK"

unfoldable pub fnmatch_code : Option ℤ → String
fnmatch_code (some (pos zero)) = "CURL_FNMATCHFUNC_MATCH"
fnmatch_code (some (pos (suc zero))) = "CURL_FNMATCHFUNC_NOMATCH"
fnmatch_code _ = "CURL_FNMATCHFUNC_FAIL"

unfoldable pub ssh_key_code : Option ℤ → String
ssh_key_code (some (pos zero)) = "CURLKHSTAT_FINE_ADD_TO_FILE"
ssh_key_code (some (pos (suc zero))) = "CURLKHSTAT_FINE"
ssh_key_code (some (pos (suc (suc zero)))) = "CURLKHSTAT_REJECT"
ssh_key_code (some (pos (suc (suc (suc zero))))) = "CURLKHSTAT_DEFER"
ssh_key_code _ = "CURLKHSTAT_REJECT"

-- curlsshkeyextract: the type is CURLKHTYPE_RSA1, RSA, DSS or another
pub data KeyType : Type 0 where
  rsa1 rsa dss other_key : KeyType

pub data KeyMatch : Type 0 where
  match_ok mismatch missing last : KeyMatch

unfoldable pub key_type_word : KeyType → String
key_type_word rsa1 = "rsa1"
key_type_word rsa = "rsa"
key_type_word dss = "dss"
key_type_word other_key = "unknnown"

unfoldable pub key_match_word : KeyMatch → String
key_match_word match_ok = "match"
key_match_word mismatch = "mismatch"
key_match_word missing = "missing"
key_match_word last = "error"

-- What curlReadProcInvoke returns, with the bytes that it has copied to `ptr`.
pub data ReadResult : Type 0 where
  abort : ReadResult
  copied : List ℕ → ReadResult

module _ (tcl : Tcl) (ask : Answers) (results : Results) where
  -- Tcl_EvalObjEx or Tcl_EvalObjv: the answer 0 is TCL_OK
  abbrev pub evaluate : List Word → M Bool
  evaluate words = do r ← call ask (eval_words words); pure (r == 0)

  -- Tcl_GetIntFromObj on the interpreter's result, looked at if the script was fine
  abbrev pub int_result : Bool → M (Option ℤ)
  int_result false = pure none
  int_result true = do s ← get_state; pure (results.int_result s.calls)

  abbrev pub set_status : String → Option String → M (Unit {0})
  set_status var none = pure tt
  set_status var (some status) = do call ask (set_var var (some "http") status); pure tt

  unfoldable pub set_header : String → Option (String × String) → M (Unit {0})
  set_header var none = pure tt
  set_header var (some (key, content)) = do
    if tcl.is_set_cookie key
        then (call ask (append_var var key content))
        else (call ask (set_var var (some key) content))
    pure tt

  -- curlHeaderReader, on a line of `size` bytes. The code takes the bytes for a string that ends with
  -- NUL; libcurl does not promise that, and what is read where it does not is not modelled.
  unfoldable pub header_reader : String → ℕ → M ℕ
  header_reader line size = do
    d ← get
    set_header (text_of d.header_var) (tcl.header_line line)
    set_status (text_of d.header_var) (tcl.status_line line)
    pure size

  -- curlProgressCallback
  unfoldable pub progress_callback : (dltotal dlnow ultotal ulnow : ℤ) → M ℤ
  unfolding take_cancel
  progress_callback dltotal dlnow ultotal ulnow = do
    cancelled ← take_cancel
    if cancelled then pure (negsuc 0) else (do
      d ← get
      done ← evaluate (
          name (text_of d.progress_proc)
          ∷ number dltotal
          ∷ number dlnow
          ∷ number ultotal
          ∷ number ulnow
          ∷ [])
      pure (if done then pos 0 else negsuc 0))

  abbrev pub write_words : Option (List String) → List ℕ → M ℤ
  write_words none chunk = pure (negsuc 0)
  write_words (some words) chunk = do
    done ← evaluate (map name words ++ bytes chunk ∷ [])
    pure (if done then pos (length chunk) else negsuc 0)

  -- curlWriteProcInvoke; Tcl_SplitList parses as Tcl_ListObjGetElements does
  unfoldable pub write_proc_invoke : List ℕ → M ℤ
  unfolding take_cancel
  write_proc_invoke chunk = do
    cancelled ← take_cancel
    if cancelled
        then pure (negsuc 0)
        else (do d ← get; write_words (tcl.list_elements (text_of d.write_proc)) chunk)

  -- curlReadProcInvoke; `room` is the `size * nmemb` bytes at `ptr`
  unfoldable pub read_proc_invoke : (room : ℕ) → M ReadResult
  unfolding take_cancel
  read_proc_invoke room = do
    cancelled ← take_cancel
    if cancelled then pure abort else (do
      d ← get
      done ← evaluate (script (text_of d.read_proc) ∷ number (pos room) ∷ [])
      s ← get_state
      pure (if done then copied (results.bytes_result s.calls) else abort))

  -- curlDebugProcInvoke
  unfoldable pub debug_proc_invoke : (info_type : ℤ) → List ℕ → M ℤ
  unfolding take_cancel
  debug_proc_invoke info_type chunk = do
    cancelled ← take_cancel
    if cancelled then pure (negsuc 0) else (do
      d ← get
      evaluate (name (text_of d.debug_proc) ∷ number info_type ∷ bytes chunk ∷ [])
      pure (pos 0))

  abbrev pub set_type : String → Option String → M (Unit {0})
  set_type var none = pure tt
  set_type var (some word) = do call ask (set_var var (some "filetype") word); pure tt

  -- The variable that curlChunkBgnProcInvoke fills, under its default name if none was set.
  unfoldable pub chunk_var : Option String → M String
  chunk_var none = do modify λ d. record d { chunk_bgn_var = some "fileData" }; pure "fileData"
  chunk_var (some var) = pure var

  -- The elements that curlChunkBgnProcInvoke sets from `fileinfoPtr`.
  unfoldable pub set_info : String → FileInfo → M (Unit {0})
  set_info var info = do
    call ask (set_var var (some "filename") info.filename)
    set_type var (file_type info.filetype)
    call ask (set_word var "time" (number info.time))
    call ask (set_word var "perm" (number info.perm))
    call ask (set_word var "uid" (number info.uid))
    call ask (set_word var "gid" (number info.gid))
    call ask (set_word var "size" (number info.size))
    call ask (set_word var "hardlinks" (number info.hardlinks))
    call ask (set_word var "flags" (number info.flags))
    pure tt

  -- curlChunkBgnProcInvoke
  unfoldable pub chunk_bgn_invoke : FileInfo → (remains : ℤ) → M String
  chunk_bgn_invoke info remains = do
    d ← get
    var ← chunk_var d.chunk_bgn_var
    set_info var info
    d ← get
    done ← evaluate (script (text_of d.chunk_bgn_proc) ∷ number remains ∷ [])
    r ← int_result done
    pure (chunk_bgn_code r)

  -- curlChunkEndProcInvoke
  unfoldable pub chunk_end_invoke : M String
  chunk_end_invoke = do
    d ← get
    done ← evaluate (script (text_of d.chunk_end_proc) ∷ [])
    r ← int_result done
    pure (chunk_end_code r)

  -- curlfnmatchProcInvoke
  unfoldable pub fnmatch_invoke : (pattern' filename : String) → M String
  fnmatch_invoke pattern' filename = do
    d ← get
    done ← evaluate (script (text_of d.fnmatch_proc) ∷ script pattern' ∷ script filename ∷ [])
    r ← int_result done
    pure (fnmatch_code r)

  -- curlsshkeycallback; the two keys come with their types
  unfoldable pub ssh_key_callback : (known found : KeyType × String) → KeyMatch → M String
  ssh_key_callback known found m = do
    d ← get
    done ← evaluate (
        name (text_of d.sshkeycall_proc)
        ∷ pair (key_type_word known.0) known.1
        ∷ pair (key_type_word found.0) found.1
        ∷ name (key_match_word m)
        ∷ [])
    r ← int_result done
    pure (ssh_key_code r)
