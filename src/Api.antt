-- ===== src/Api.antt =====
-- What the code calls outside the repository, and the state that a command works on.
-- The constants of curl.h are written as their C names, since their numbers are libcurl's.
-- A Tcl value is modelled by its string representation, a pointer by a number with 0 for NULL.
pub mod Easy
pub mod Monad
use tclcurl_ng.Base.{
  ℕ, ℤ, String, List, Option, some, get_elem?, str_eq, if◌then◌else◌, Bool, true, false, ◌≡◌, none,
  [], ◌∷◌, suc, zero, Option-cases, ◌⊎◌, inl, inr,
}

-- The C functions of this repository that are handed to libcurl.
pub data Callback : Type 0 where
  header_reader body_reader progress_callback write_proc_invoke read_proc_invoke : Callback
  debug_proc_invoke ssh_key_callback chunk_bgn_invoke chunk_end_invoke fnmatch_invoke : Callback
  seek : Callback

-- The third argument of curl_easy_setopt.
pub data Arg : Type 0 where
  null stdin_file stdout_file stderr_file self : Arg
  int : ℤ → Arg
  constant : String → Arg
  text : String → Arg
  slist : List String → Arg
  file : ℕ → Arg
  pointer : ℕ → Arg
  callback : Callback → Arg
  blob : String → Arg
  error_buffer : Arg

-- A word of a command that a callback evaluates. `script` is text that Tcl parses itself.
pub data Word : Type 0 where
  script : String → Word
  name : String → Word
  number : ℤ → Word
  bytes : List ℕ → Word
  pair : String → String → Word

-- A Tcl object that a command leaves as its result. A double is given by its digits.
pub data Value : Type 0 where
  text : String → Value
  number : ℤ → Value
  real : String → Value
  words : List String → Value
  certificates : ℕ → List String → Value
  transfer_message : String → (msg result msg_left : ℤ) → Value

-- The foreign calls with an effect, in the order in which they are made.
pub data Call : Type 0 where
  easy_setopt : ℕ → String → Arg → Call
  easy_perform easy_cleanup easy_reset easy_duphandle : ℕ → Call
  easy_pause : ℕ → String → Call
  slist_free_all : List String → Call
  tcl_free : Option String → Call
  free_error_buffer : Bool → Call
  fopen : String → String → Call
  fclose : ℕ → Call
  fseek : ℕ → ℤ → Call
  unlink_var link_var : String → Call
  global_eval : String → Call
  eval_words : List Word → Call
  append_var : String → String → String → Call
  set_word : String → String → Word → Call
  set_var : String → Option String → String → Call
  set_bytes : String → List ℕ → ℕ → Call
  delete_command : ℕ → Call
  global_init easy_init multi_init : Call
  create_command get_command_info : String → Call
  free_bytes : List ℕ → Call
  set_error_buffer : String → Option String → Call
  easy_getinfo : ℕ → String → Call
  multi_add multi_remove : (multi easy : ℕ) → Call
  multi_perform multi_cleanup multi_fdset multi_info_read : ℕ → Call
  multi_setopt : ℕ → String → ℤ → Call
  select_files : ℕ → Call
  create_event_source delete_event_source queue_event : Call
  mutex_lock mutex_unlock : String → Call
  share_setopt : ℕ → (lock : Bool) → String → Call
  share_cleanup share_lock_func share_unlock_func : ℕ → Call
  share_init : Call
  mime_free mime_init mime_addpart : ℕ → Call
  mime_name mime_filedata mime_type mime_filename : ℕ → String → Call
  mime_data : ℕ → String → ℕ → Call
  mime_headers : ℕ → List String → Call

-- The value that each call returns, as any function of the calls made so far, newest first.
abbrev pub Answers : Type 0
Answers = List Call → ℕ

-- The documented behaviour of the Tcl library that the option code relies on.
pub record Tcl : Type 0 where
  pub get_index : List String → String → Option ℕ
  pub get_int : String → Option ℤ
  pub get_long : String → Option ℤ
  pub get_wide : String → Option ℤ
  pub list_elements : String → Option (List String)
  -- Tcl_RegExpExec with the two patterns of curlHeaderReader: a header's name and content, and the
  -- text of a status line
  pub header_line : String → Option (String × String)
  pub status_line : String → Option String
  -- Tcl_StringCaseMatch with the pattern Set-Cookie, ignoring case
  pub is_set_cookie : String → Bool
  -- Tcl_RegExpExec with the pattern (.*)(?:\()(.*)(?:\)): none for an error, some none for no match
  pub match_array : String → Option (Option (String × String))

-- What curl_easy_getinfo writes through its last argument, as any function of the calls made so far:
-- for a mask, the names of the constants of curl.h whose bit is set; for certificates, the list of
-- each one.
pub record Infos : Type 0 where
  pub char_ptr : List Call → Option String
  pub long_number : List Call → ℤ
  pub double_number : List Call → String
  pub curl_off_t : List Call → ℤ
  pub mask : List Call → List String
  pub slist_ptr : List Call → List String
  pub certinfo : List Call → List (List String)

-- What curl_multi_info_read returns where it does not return NULL.
pub record Msg : Type 0 where
  pub easy_handle : ℕ
  pub msg : ℤ
  pub result : ℤ
  pub msg_left : ℤ

-- What the calls on a multi handle answer, as any function of the calls made so far: the CURLMcode, the
-- number of running transfers, the message, and the result of select.
pub record MultiAnswers : Type 0 where
  pub multi_code : List Call → ℤ
  pub running_transfers : List Call → ℕ
  pub message : List Call → Option Msg
  pub select_code : List Call → ℤ

-- What the interpreter holds after a script, as any function of the calls made so far: its result
-- as an int if it is one, and as bytes.
pub record Results : Type 0 where
  pub int_result : List Call → Option ℤ
  pub bytes_result : List Call → List ℕ

-- Tcl_GetIndexFromObj with TCL_EXACT: the first entry that is the value, and an error if none is.
abbrev pub find_index : List String → String → Option ℕ
find_index [] o = none
find_index (x ∷ xs) o =
    let rest = find_index xs o in
    if str_eq x o then some 0 else elim rest [ none ↦ none | some i ↦ some (suc i) ]

pub record IsTcl (tcl : Tcl) : Type 0 where
  pub exact : (table : List String) (o : String) → tcl.get_index table o ≡ find_index table o
