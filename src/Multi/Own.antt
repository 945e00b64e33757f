-- ===== src/Multi/Own.antt =====
-- The list in the multi handle's own struct stays as it is, whatever its commands do.
use tclcurl_ng.Base.{
  ℕ, zero, suc, ℤ, pos, negsuc, ◌≡◌, ◌≢◌, refl, String, List, [], ◌∷◌, Option, none, some, Bool,
  inl, inr, Bool-cases, Option-cases,
}
use tclcurl_ng.Api.{
  Tcl, Answers, MultiAnswers, multi_perform, multi_fdset, select_files, multi_setopt,
}
use tclcurl_ng.Options.Choices.{entry}
use tclcurl_ng.Api.Monad.{Status, ok, error, fault}
use tclcurl_ng.Mime.Transfer.{set_post_data}
use tclcurl_ng.Transfer.{open_files}
use tclcurl_ng.Multi.{EasyHandleList, easy_handle_list_remove}
use tclcurl_ng.Multi.Monad.{MultiState, Run, and_then, log}
use tclcurl_ng.Multi.Command.{
  is_zero, return_code, multi_perform_call, add_to_list, or_one, add_multi_handle,
  remove_multi_handle, perform_loop, curl_multi_perform, multi_get_info, get_active_transfers,
  active_transfers, is_minus_one, auto_loop, keep_post_command, auto_transfer,
}
use tclcurl_ng.Multi.Dispatch.{
  MultiCommandId, addhandle, removehandle, perform, cleanup, getinfo, active, auto, configure,
  set_multi_opt_long, multi_set_opts, missing_value, set_found, unless_error, multi_config_transfer,
  multi_config_table, multi_config_options, if_known, dispatch,
}

-- If there is an end, the list is `own`.
abbrev pub Keeps {ℓ} : {A : Type ℓ} → EasyHandleList → Option (A × MultiState) → Type 0
Keeps own none = Unit
Keeps own (some (a, s)) = s.multi.handle_list ≡ own

bind-Keeps :
    {A B : Type 0} (own : EasyHandleList) (r : Option (A × MultiState)) (f : A → Run B)
    → Keeps own r
    → ((a : A) (s : MultiState) → s.multi.handle_list ≡ own → Keeps own (f a s))
    → Keeps own (and_then f r)
bind-Keeps own none f k h = tt
bind-Keeps own (some (a, s)) f k h = h a s k

module _ (tcl : Tcl) (ask : Answers) (libcurl : MultiAnswers) (own : EasyHandleList) where
  return_code-Keeps :
      (code : ℤ) (s : MultiState) → s.multi.handle_list ≡ own → Keeps own (return_code code s)
  unfolding return_code
  return_code-Keeps code s e = e

  or_one-Keeps :
      (status : Status) (rest : Run ℤ) (s : MultiState)
      → s.multi.handle_list ≡ own
      → Keeps own (rest s)
      → Keeps own (or_one tcl ask libcurl status rest s)
  or_one-Keeps ok rest s e k = k
  or_one-Keeps error rest s e k = e
  or_one-Keeps fault rest s e k = e

  add_multi_handle-Keeps :
      (p : ℕ) (name : String) (s : MultiState)
      → s.multi.handle_list ≡ own
      → Keeps own (add_multi_handle tcl ask libcurl p name s)
  unfolding add_multi_handle add_to_list
  add_multi_handle-Keeps p name s e =
      let (st1, h1) = open_files ask s.host in
      let (st2, h2) = set_post_data ask h1 in
      or_one-Keeps st1 _ (record s { host = h1 }) e
        (or_one-Keeps st2 _ (record s { host = h2 }) e e)

  remove_multi_handle-Keeps :
      (s : MultiState)
      → s.multi.handle_list ≡ own
      → Keeps own (remove_multi_handle tcl ask libcurl s)
  unfolding remove_multi_handle
  remove_multi_handle-Keeps s e =
      elim (Option-cases (easy_handle_list_remove s.host.easy.curl s.at_mcurl)) [
        | inl gone ↦ rw gone tt
        | inr (list, left) ↦ rw left e
      ]

  perform_loop-Keeps :
      (k : ℕ) (code : ℤ) (s : MultiState)
      → s.multi.handle_list ≡ own
      → Keeps own (perform_loop tcl ask libcurl k code s)
  unfolding perform_loop multi_perform_call
  perform_loop-Keeps k (pos n) s e = e
  perform_loop-Keeps zero (negsuc n) s e = tt
  perform_loop-Keeps (suc k) (negsuc n) s e = perform_loop-Keeps k _ _ e

  curl_multi_perform-Keeps :
      (fuel : ℕ) (s : MultiState)
      → s.multi.handle_list ≡ own
      → Keeps own (curl_multi_perform tcl ask libcurl fuel s)
  unfolding curl_multi_perform return_code
  curl_multi_perform-Keeps fuel s e =
      bind-Keeps own (perform_loop tcl ask libcurl fuel (negsuc 0) s) _
        (perform_loop-Keeps fuel (negsuc 0) s e)
        (λ code t k. elim (Bool-cases (is_zero code)) [ inl z ↦ rw z k | inr z ↦ rw z k ])

  active_transfers-Keeps :
      (s : MultiState) → s.multi.handle_list ≡ own → Keeps own (active_transfers tcl ask libcurl s)
  unfolding active_transfers get_active_transfers
  active_transfers-Keeps s e =
      let calls =
        (log (select_files s.multi.mcurl) (log (multi_fdset s.multi.mcurl) s)).host.calls in
      elim (Bool-cases (is_minus_one tcl ask libcurl (libcurl.select_code calls))) [
        | inl z ↦ rw z e
        | inr z ↦ rw z e
      ]

  auto_loop-Keeps :
      (k : ℕ) (s : MultiState)
      → s.multi.handle_list ≡ own
      → Keeps own (auto_loop tcl ask libcurl k s)
  unfolding auto_loop
  auto_loop-Keeps zero s e = tt
  auto_loop-Keeps (suc k) s e =
      let called = log (multi_perform s.multi.mcurl) s in
      elim (Bool-cases (is_minus_one tcl ask libcurl (libcurl.multi_code called.host.calls))) [
        | inl again ↦ rw again (auto_loop-Keeps k _ e)
        | inr done ↦ rw done e
      ]

  keep_post_command-Keeps :
      (args : List String) (s : MultiState)
      → s.multi.handle_list ≡ own
      → Keeps own (keep_post_command tcl ask libcurl args s)
  keep_post_command-Keeps [] s e = e
  keep_post_command-Keeps (a ∷ []) s e = e
  keep_post_command-Keeps (a ∷ b ∷ []) s e = e
  keep_post_command-Keeps (a ∷ b ∷ c ∷ args) s e = e

  auto_transfer-Keeps :
      (fuel : ℕ) (args : List String) (s : MultiState)
      → s.multi.handle_list ≡ own
      → Keeps own (auto_transfer tcl ask libcurl fuel args s)
  unfolding auto_transfer
  auto_transfer-Keeps fuel args s e =
      bind-Keeps own (keep_post_command tcl ask libcurl args s) _ (keep_post_command-Keeps args s e)
        (λ u t k.
          bind-Keeps own (auto_loop tcl ask libcurl fuel _) _ (auto_loop-Keeps fuel _ k)
            (λ v w j. j))

  set_multi_opt_long-Keeps :
      (n : Option ℤ) (i : ℕ) (o : String) (s : MultiState)
      → s.multi.handle_list ≡ own
      → Keeps own (set_multi_opt_long tcl ask libcurl n i o s)
  unfolding set_multi_opt_long
  set_multi_opt_long-Keeps none i o s e = e
  set_multi_opt_long-Keeps (some n) i o s e =
      let called = log (multi_setopt s.multi.mcurl (entry multi_config_options i) n) s in
      elim (Bool-cases (is_zero (libcurl.multi_code called.host.calls))) [
        | inl z ↦ rw z e
        | inr z ↦ rw z e
      ]

  set_found-Keeps :
      (i : Option ℕ) (o : String) (s : MultiState)
      → s.multi.handle_list ≡ own
      → Keeps own (set_found tcl ask libcurl i o s)
  unfolding multi_set_opts
  set_found-Keeps none o s e = e
  set_found-Keeps (some i) o s e = set_multi_opt_long-Keeps (tcl.get_long o) i o s e

  missing_value-Keeps :
      (i : Option ℕ) (s : MultiState)
      → s.multi.handle_list ≡ own
      → Keeps own (missing_value tcl ask libcurl i s)
  missing_value-Keeps none s e = e
  missing_value-Keeps (some i) s e = e

  unless_error-Keeps :
      (status : Status) (rest : Run Status) (s : MultiState)
      → s.multi.handle_list ≡ own
      → Keeps own (rest s)
      → Keeps own (unless_error tcl ask libcurl status rest s)
  unless_error-Keeps ok rest s e k = k
  unless_error-Keeps error rest s e k = e
  unless_error-Keeps fault rest s e k = e

  config-Keeps :
      (args : List String) (s : MultiState)
      → s.multi.handle_list ≡ own
      → Keeps own (multi_config_transfer tcl ask libcurl args s)
  unfolding multi_config_transfer
  config-Keeps [] s e = e
  config-Keeps (name ∷ []) s e = missing_value-Keeps (tcl.get_index multi_config_table name) s e
  config-Keeps (name ∷ o ∷ rest) s e =
      bind-Keeps own (set_found tcl ask libcurl (tcl.get_index multi_config_table name) o s) _
        (set_found-Keeps (tcl.get_index multi_config_table name) o s e)
        (λ status t k.
          unless_error-Keeps status (multi_config_transfer tcl ask libcurl rest) t k
            (config-Keeps rest t k))

  if_known-Keeps :
      (known : String → Bool) (args : List String) (f : String → Run Status) (s : MultiState)
      → s.multi.handle_list ≡ own
      → ((name : String) → Keeps own (f name s))
      → Keeps own (if_known tcl ask libcurl known args f s)
  if_known-Keeps known [] f s e h = e
  if_known-Keeps known (name ∷ args) f s e h = elim (Bool-cases (known name)) [
    | inl there ↦ rw there (h name)
    | inr unknown ↦ rw unknown e
  ]

  pub dispatch-Keeps :
      (known : String → Bool) (p fuel : ℕ) (id : MultiCommandId) (args : List String)
      (s : MultiState)
      → id ≢ cleanup
      → s.multi.handle_list ≡ own
      → Keeps own (dispatch tcl ask libcurl known p fuel id args s)
  unfolding dispatch multi_get_info
  dispatch-Keeps known p fuel addhandle args s n e = if_known-Keeps known args _ s e λ name.
      bind-Keeps own (add_multi_handle tcl ask libcurl p name s) _
        (add_multi_handle-Keeps p name s e) (λ code t k. return_code-Keeps code t k)
  dispatch-Keeps known p fuel removehandle args s n e = if_known-Keeps known args _ s e λ name.
      bind-Keeps own (remove_multi_handle tcl ask libcurl s) _ (remove_multi_handle-Keeps s e)
        (λ code t k. return_code-Keeps code t k)
  dispatch-Keeps known p fuel perform args s n e = curl_multi_perform-Keeps fuel s e
  dispatch-Keeps known p fuel cleanup args s n e = absurd (n refl)
  dispatch-Keeps known p fuel getinfo args s n e = e
  dispatch-Keeps known p fuel active args s n e =
      bind-Keeps own (active_transfers tcl ask libcurl s) _ (active_transfers-Keeps s e)
        (λ a t k. k)
  dispatch-Keeps known p fuel auto args s n e =
      bind-Keeps own (auto_transfer tcl ask libcurl fuel args s) _
        (auto_transfer-Keeps fuel args s e) (λ a t k. k)
  dispatch-Keeps known p fuel configure args s n e =
      bind-Keeps own (multi_config_transfer tcl ask libcurl args s) _ (config-Keeps args s e)
        (λ a t k. k)
