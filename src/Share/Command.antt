-- ===== src/Share/Command.antt =====
-- The command of a share handle, curlShareObjCmd of generic/tclcurl.c, and what curlCleanUpShareCmd
-- does when it is deleted.
pub mod Refusal
use tclcurl_ng.Base.{
  ℕ, zero, suc, ◌==◌, if◌then◌else◌, Bool, true, false, String, List, [], ◌∷◌, Option, none, some,
}
use tclcurl_ng.Api.{Tcl, Call, easy_setopt, share_setopt, share_cleanup, null}
use tclcurl_ng.Api.Monad.{
  Message, Status, ok, error, fault, tcl_message, wrong_num_args, literal, no_message,
}
use tclcurl_ng.Share.{Store, clean_up}

-- The store, the calls of libcurl so far and the interpreter's result.
pub record Shared : Type 0 where
  pub store : Store
  pub calls : List Call
  pub result : Message

-- The calls for the easy handles that are cut off, in order; `curl` is the `curl` field of each.
unfoldable pub unset_share : (curl : ℕ → ℕ) → List ℕ → List Call → List Call
unset_share curl [] calls = calls
unset_share curl (e ∷ es) calls =
    unset_share curl es
      (if curl e == 0 then calls else easy_setopt (curl e) "CURLOPT_SHARE" null ∷ calls)

-- curlCleanUpShareCmd, on the outcome of its loop; `none` stands for no fuel left.
unfoldable pub clean_up_end :
    (curl : ℕ → ℕ) → (shandle : ℕ) → Option (List ℕ × Store) → Shared → Shared
clean_up_end curl shandle none s = s
clean_up_end curl shandle (some (es, store)) s = record s {
  store = store;
  calls = share_cleanup shandle ∷ unset_share curl es s.calls;
}

-- curlCleanUpShareCmd
unfoldable pub clean_up_share_cmd : (curl : ℕ → ℕ) → (t : ℕ) → Shared → Shared
clean_up_share_cmd curl t s = clean_up_end curl (s.store.shandle t) (clean_up t s.store) s

abbrev pub share_cmd : List String
share_cmd = "share" ∷ "unshare" ∷ "cleanup" ∷ []

abbrev pub lock_data : List String
lock_data = "cookies" ∷ "dns" ∷ []

-- The inner `switch`; another index leaves the initial 0.
unfoldable pub data_to_lock : ℕ → String
data_to_lock zero = "CURL_LOCK_DATA_COOKIE"
data_to_lock (suc zero) = "CURL_LOCK_DATA_DNS"
data_to_lock (suc (suc i)) = "0"

abbrev pub failed : Message → Shared → Status × Shared
failed message s = (error, record s { result = message })

module _ (tcl : Tcl) (curl : ℕ → ℕ) (t : ℕ) where
  -- Cases 0 and 1, on the looked up word: the result of curl_share_setopt is not looked at.
  unfoldable pub set_lock : (lock : Bool) → Option ℕ → Shared → Status × Shared
  set_lock lock none s = failed tcl_message s
  set_lock lock (some i) s =
      (ok, record s { calls = share_setopt (s.store.shandle t) lock (data_to_lock i) ∷ s.calls })

  unfoldable pub lock_arguments : (lock : Bool) → List String → Shared → Status × Shared
  lock_arguments lock (o ∷ []) s = set_lock lock (tcl.get_index lock_data o) s
  lock_arguments lock _ s = failed (wrong_num_args "arg") s

  -- Case 2
  unfoldable pub cleanup_arguments : List String → Shared → Status × Shared
  cleanup_arguments [] s =
      if s.store.users t == 0
      then (ok, clean_up_share_cmd curl t s)
      else failed (literal "Share handle is still attached to one or more easy handles.") s
  cleanup_arguments (o ∷ os) s = failed (wrong_num_args "") s

  unfoldable pub dispatch : Option ℕ → List String → Shared → Status × Shared
  dispatch none os s = failed tcl_message s
  dispatch (some zero) os s = lock_arguments true os s
  dispatch (some (suc zero)) os s = lock_arguments false os s
  dispatch (some (suc (suc zero))) os s = cleanup_arguments os s
  dispatch (some (suc (suc (suc i)))) os s = (ok, s)

  -- curlShareObjCmd, on the words after the command's name.
  unfoldable pub share_obj_cmd : List String → Shared → Status × Shared
  share_obj_cmd [] s = failed (wrong_num_args "option arg ?arg?") s
  share_obj_cmd (o ∷ os) s = dispatch (tcl.get_index share_cmd o) os s
