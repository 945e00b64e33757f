-- ===== src/Handle.antt =====
-- The life of an easy handle: curlInitObjCmd, curlDeleteCmd, curlFreeSpace, curlResetHandle,
-- curlCopyCurlData and curlDupHandle of generic/tclcurl.c. The struct that a function works on is the
-- state's `easy`; `print` is snprintf with curl%d, and `taken` the names of the commands there are.
pub mod Command
pub mod Quiet
pub mod Life
pub mod Copy
pub mod Arity
pub mod Parts
pub mod Sound
pub mod Session
pub mod Links
pub mod Wires
use tclcurl_ng.Base.{
  ℕ, negsuc, String, List, [], ◌∷◌, ◌++◌, Option, none, some, Bool, true, false, ◌==◌,
  if◌then◌else◌,
}
use tclcurl_ng.Api.{
  Answers, Call, global_init, easy_init, easy_cleanup, easy_reset, easy_duphandle, create_command,
  slist_free_all, tcl_free, free_bytes, free_error_buffer, unlink_var, mime_free,
}
use tclcurl_ng.Api.Easy.{CurlObjData, blank}
use tclcurl_ng.Api.Monad.{
  State, M, pure, ◌>>=◌, ◌>>◌, get, get_state, modify, modify_shares, set_result, call, literal,
}
use tclcurl_ng.Share.{Store, link, update}
use tclcurl_ng.Options.Sharing.{detach_share_handle}
use tclcurl_ng.Commands.{create_obj_cmd}

-- A command that was made for a handle: its name, and all names with it.
abbrev pub Created : Type 0
Created = String × List String

-- A NULL memory is not freed; `bodyVar.memory` of no bytes stands for NULL, or for a block of no bytes
-- in a duplicate, whose free is left out.
abbrev pub free_memory : List ℕ → List Call
free_memory [] = []
free_memory (b ∷ bs) = free_bytes (b ∷ bs) ∷ []

abbrev pub free_cancel_var : Option String → List Call
free_cancel_var none = []
free_cancel_var (some var) = unlink_var var ∷ tcl_free (some var) ∷ []

abbrev pub free_mime : ℕ → List Call
free_mime mime = if mime == 0 then [] else mime_free mime ∷ []

-- The calls of curlFreeSpace, the first one first. `proxy` and `randomFile` are never set.
unfoldable pub freed : CurlObjData → List Call
freed d =
    slist_free_all d.header_list
    ∷ slist_free_all d.quote
    ∷ slist_free_all d.prequote
    ∷ slist_free_all d.postquote
    ∷ tcl_free d.out_file
    ∷ tcl_free d.in_file
    ∷ tcl_free d.post_fields
    ∷ tcl_free none
    ∷ free_error_buffer d.error_buffer
    ∷ tcl_free d.error_buffer_name
    ∷ tcl_free d.error_buffer_key
    ∷ tcl_free d.stderr_file
    ∷ tcl_free none
    ∷ tcl_free d.header_var
    ∷ tcl_free d.body_var_name
    ∷ (free_memory d.body_var.memory
        ++ (tcl_free d.progress_proc
            ∷ (free_cancel_var d.cancel_trans_var_name
                ++ (tcl_free d.write_proc
                    ∷ tcl_free d.read_proc
                    ∷ tcl_free d.debug_proc
                    ∷ slist_free_all d.http200aliases
                    ∷ tcl_free d.sshkeycall_proc
                    ∷ slist_free_all d.mailrcpt
                    ∷ tcl_free d.chunk_bgn_proc
                    ∷ tcl_free d.chunk_bgn_var
                    ∷ tcl_free d.chunk_end_proc
                    ∷ tcl_free d.fnmatch_proc
                    ∷ slist_free_all d.resolve
                    ∷ slist_free_all d.telnetoptions
                    ∷ (free_mime d.mime ++ tcl_free d.command ∷ [])))))

-- curlCopyCurlData. The bytes of the body and all strings are copied, so they are equal here. A body of
-- no bytes gets a block of no bytes, not NULL; [] stands for both.
unfoldable pub copy_curl_data : CurlObjData → CurlObjData
copy_curl_data d = record d {
  header_list = [];
  quote = [];
  prequote = [];
  postquote = [];
  out_handle = 0;
  out_flag = false;
  in_handle = 0;
  in_flag = false;
  header_handle = 0;
  header_flag = false;
  stderr_handle = 0;
  stderr_flag = false;
  http200aliases = [];
  mailrcpt = [];
  resolve = [];
  telnetoptions = [];
  mime = 0;
}

module _ (ask : Answers) where
  unfoldable pub call_all : List Call → M (Unit {0})
  call_all [] = pure tt
  call_all (c ∷ cs) = do call ask c; call_all cs

  -- curlFreeSpace
  unfoldable pub free_space : CurlObjData → M (Unit {0})
  free_space d = call_all (freed d)

  -- curlDeleteCmd; the struct is freed after it.
  unfoldable pub delete_cmd : M (Unit {0})
  delete_cmd = do detach_share_handle ask; d ← get; call ask (easy_cleanup d.curl); free_space d

  -- curlResetHandle
  unfoldable pub reset_handle : M (Unit {0})
  reset_handle = do
    detach_share_handle ask
    d ← get
    free_space d
    modify λ d. blank d.curl d.token
    d ← get
    call ask (easy_reset d.curl)
    pure tt

module _ (ask : Answers) (print : ℕ → String) where
  -- Tcl_CreateObjCommand with the name that was found.
  abbrev pub register : Option Created → M (Option Created × ℕ)
  register none = pure (none, 0)
  register (some (name, names)) = do
    token ← call ask (create_command name)
    set_result (literal name)
    pure (some (name, names), token)

  -- curlInitObjCmd, on a struct from Tcl_Alloc with any contents; `none` is TCL_ERROR.
  unfoldable pub init_obj_cmd : (taken : List String) → M (Option Created)
  init_obj_cmd taken = do
    modify λ d. blank 0 0
    call ask global_init
    curl ← call ask easy_init
    if curl == 0 then (do set_result (literal "Couldn't open curl handle"); pure none) else (do
      (created, token) ← register (create_obj_cmd print taken)
      modify λ d. record d { curl = curl; token = token }
      pure created)

-- `memcpy` on the two fields that Share keeps.
abbrev pub copy_links : (old new : ℕ) → Store → Store
copy_links old new s = record s {
  share_token = update s.share_token new (s.share_token old);
  next_shared = update s.next_shared new (s.next_shared old);
}

-- A duplicate: its struct and its command.
pub record Duplicate : Type 0 where
  pub easy : CurlObjData
  pub created : Created

module _ (ask : Answers) (print : ℕ → String) where
  abbrev pub duplicate : CurlObjData → Option Created × ℕ → Option Duplicate
  duplicate copy (none, token) = none
  duplicate copy (some created, token) =
      some (record { easy = record copy { token = token }; created = created })

  -- The end of curlDupHandle: the command of the new handle.
  unfoldable pub name_duplicate : CurlObjData → (taken : List String) → M (Option Duplicate)
  name_duplicate copy taken = do
    r ← register ask print (create_obj_cmd print taken)
    pure (duplicate copy r)

  -- curlDupHandle, with the address `new` from Tcl_Alloc; `none` is TCL_ERROR.
  unfoldable pub dup_handle : (new : ℕ) → (taken : List String) → M (Option Duplicate)
  dup_handle new taken = do
    d ← get
    curl ← call ask (easy_duphandle d.curl)
    if curl == 0 then (do set_result (literal "Couldn't create new handle."); pure none) else (do
      s ← get_state
      let copy = record (copy_curl_data d) { curl = curl }
      let t = s.shares.share_token s.self
      modify_shares (copy_links s.self new)
      if t == 0
          then name_duplicate copy taken
          else if s.shares.alive t
          then (do modify_shares (link new t); name_duplicate copy taken)
          else (do
            call ask (easy_cleanup curl)
            free_space ask copy
            set_result (literal "Couldn't duplicate handle with deleted share handle.")
            pure none))
