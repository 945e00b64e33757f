-- ===== src/Options/Wires.antt =====
-- The function that libcurl calls with received data, and the argument that it gives it: fwrite wants a
-- FILE pointer, the callbacks of generic/tclcurl.c want the struct of the handle.
pub mod Writers
pub mod Others
pub mod Commands
use tclcurl_ng.Base.{
  ℕ, ◌≡◌, String, List, Option, none, some, Bool, true, false, [], ◌∷◌, ◌==◌, ◌&&◌, if◌then◌else◌,
}
use tclcurl_ng.Api.{
  Answers, Arg, Call, Callback, easy_setopt, easy_perform, multi_add, null, stdin_file, stdout_file,
  stderr_file, self, int, constant, text, slist, file, pointer, callback, blob, error_buffer,
  header_reader, body_reader, progress_callback, write_proc_invoke, read_proc_invoke,
  debug_proc_invoke, ssh_key_callback, chunk_bgn_invoke, chunk_end_invoke, fnmatch_invoke, seek,
}
use tclcurl_ng.Api.Monad.{State}
use tclcurl_ng.Options.Apart.{setting}

-- An option that was never set, or a NULL function, stands for libcurl's default: fwrite to stdout.
abbrev pub is_default : Option Arg → Bool
is_default none = true
is_default (some null) = true
is_default (some _) = false

abbrev pub is_stream : Option Arg → Bool
is_stream none = true
is_stream (some stdout_file) = true
is_stream (some (file p)) = true
is_stream (some _) = false

abbrev pub is_self : Option Arg → Bool
is_self (some self) = true
is_self (some _) = false
is_self none = false

-- The argument has the type that the function casts it to.
abbrev pub suits : (function argument : Option Arg) → Bool
suits none a = is_stream a
suits (some null) a = is_stream a
suits (some (callback body_reader)) a = is_self a
suits (some (callback write_proc_invoke)) a = is_self a
suits (some _) a = false

abbrev pub wired : (out_flag : Bool) → (function argument : Option Arg) → Bool
wired true f a = is_default f
wired false f a = suits f a

abbrev pub write_function : Answers → State → Option Arg
write_function ask s = setting ask s.easy.curl "CURLOPT_WRITEFUNCTION" s.calls

abbrev pub write_data : Answers → State → Option Arg
write_data ask s = setting ask s.easy.curl "CURLOPT_WRITEDATA" s.calls

-- At each curl_easy_perform and each curl_multi_add_handle so far the argument suited the function.
abbrev pub all_suit : Answers → ℕ → List Call → Bool
all_suit ask h [] = true
all_suit ask h (easy_perform h' ∷ cs) =
    let rest = all_suit ask h cs in
    if h' == h
    then suits (setting ask h "CURLOPT_WRITEFUNCTION" cs) (setting ask h "CURLOPT_WRITEDATA" cs)
      && rest
    else rest
all_suit ask h (multi_add m h' ∷ cs) =
    let rest = all_suit ask h cs in
    if h' == h
    then suits (setting ask h "CURLOPT_WRITEFUNCTION" cs) (setting ask h "CURLOPT_WRITEDATA" cs)
      && rest
    else rest
all_suit ask h (_ ∷ cs) = all_suit ask h cs

-- While no file is to be opened the argument suits the function; otherwise the function is fwrite, and
-- opening the file will set the argument.
pub record IsWired (ask : Answers) (s : State) : Type 0 where
  pub ready : wired s.easy.out_flag (write_function ask s) (write_data ask s) ≡ true
  pub past : all_suit ask s.easy.curl s.calls ≡ true

-- libcurl documents that it accepts any function and any argument.
pub record Accepts (ask : Answers) : Type 0 where
  pub functions :
      (h : ℕ) (a : Arg) (log : List Call) → ask (easy_setopt h "CURLOPT_WRITEFUNCTION" a ∷ log) ≡ 0
  pub arguments :
      (h : ℕ) (a : Arg) (log : List Call) → ask (easy_setopt h "CURLOPT_WRITEDATA" a ∷ log) ≡ 0
