-- ===== src/Multi/Files.antt =====
-- addhandle and removehandle keep the files of the easy handle sound, whatever the list looks like.
use tclcurl_ng.Base.{◌∷◌, ℕ, ℤ, refl, String, Option, none, some, Option-cases, inl, inr}
use tclcurl_ng.Api.{Tcl, Answers, MultiAnswers, multi_add, multi_remove}
use tclcurl_ng.Api.Monad.{Status, ok, error, fault}
use tclcurl_ng.Handle.Quiet.{quiet-Run}
use tclcurl_ng.Mime.Transfer.{set_post_data, set_post, reset_post_data}
use tclcurl_ng.Multi.{easy_handle_list_remove}
use tclcurl_ng.Multi.Command.{add_to_list, or_one, add_multi_handle, remove_multi_handle}
use tclcurl_ng.Multi.Monad
use tclcurl_ng.Multi.Monad.{MultiState}
use tclcurl_ng.Options.Sound.{IsSound}
use tclcurl_ng.Transfer.{open_files, close_files}
use tclcurl_ng.Transfer.Perform.{close_files-Run, open_files-Run, set_post-Run}
use tclcurl_ng.Transfer.Running.{performed}
use tclcurl_ng.Transfer.Sound.{reset_post_data-Run, set_body_var_name-Run}

-- If there is an end, the files are sound then.
abbrev pub EndsSound : ℕ → Answers → Option (ℤ × MultiState) → Type 0
EndsSound fp ask none = Unit
EndsSound fp ask (some (code, s)) = IsSound fp ask s.host

module _ {fp : ℕ} (tcl : Tcl) (ask : Answers) (libcurl : MultiAnswers) where
  or_one-EndsSound :
      (status : Status) (rest : Monad.Run ℤ) (s : MultiState)
      → IsSound fp ask s.host
      → EndsSound fp ask (rest s)
      → EndsSound fp ask (or_one tcl ask libcurl status rest s)
  or_one-EndsSound ok rest s v w = w
  or_one-EndsSound error rest s v w = v
  or_one-EndsSound fault rest s v w = v

  add_to_list-EndsSound :
      (p : ℕ) (name : String) (s : MultiState)
      → IsSound fp ask s.host
      → EndsSound fp ask (add_to_list tcl ask libcurl p name s)
  unfolding add_to_list
  add_to_list-EndsSound p name s v =
      (quiet-Run ask (performed s.host.calls) (multi_add s.multi.mcurl s.host.easy.curl) s.host refl
        (record { files = v; started = refl })).files

  pub add_multi_handle-EndsSound :
      (p : ℕ) (name : String) (s : MultiState)
      → IsSound fp ask s.host
      → EndsSound fp ask (add_multi_handle tcl ask libcurl p name s)
  unfolding add_multi_handle set_post_data
  add_multi_handle-EndsSound p name s v =
      let n = performed s.host.calls in
      let (st1, h1) = open_files ask s.host in
      let v1 = open_files-Run ask n s.host (record { files = v; started = refl }) in
      let (st2, h2) = set_post ask h1.easy.post_fields h1.easy.post_field_size h1 in
      let v2 = set_post-Run ask n h1.easy.post_fields h1.easy.post_field_size h1 v1 in
      or_one-EndsSound st1 _ (record s { host = h1 }) v1.files
        (or_one-EndsSound st2 _ (record s { host = h2 }) v2.files
          (add_to_list-EndsSound p name (record s { host = h2 }) v2.files))

  pub remove_multi_handle-EndsSound :
      (s : MultiState)
      → IsSound fp ask s.host
      → EndsSound fp ask (remove_multi_handle tcl ask libcurl s)
  unfolding remove_multi_handle
  remove_multi_handle-EndsSound s v =
      let n = performed s.host.calls in
      let curl = s.host.easy.curl in
      let c = multi_remove s.multi.mcurl curl in
      let h0 = record s.host { calls = c ∷ s.host.calls } in
      let v0 = quiet-Run ask n c s.host refl (record { files = v; started = refl }) in
      let h1 = (close_files ask h0).1 in
      let v1 = (close_files-Run ask n h0 v0).0 in
      let h2 = (reset_post_data ask h1).1 in
      let v2 = reset_post_data-Run ask n h1 v1 in
      elim (Option-cases (easy_handle_list_remove curl s.at_mcurl)) [
        | inl e ↦ rw e tt
        | inr (list, e) ↦ rw e (set_body_var_name-Run ask n h2 h2.easy.body_var_name v2).files
      ]
