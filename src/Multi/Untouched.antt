-- ===== src/Multi/Untouched.antt =====
-- addhandle and removehandle leave the links between easy and share handles alone.
use tclcurl_ng.Base.{◌∷◌, ℕ, ℤ, ◌≡◌, String, Option, none, some, Option-cases, inl, inr}
use mathlib.Core.Path.{subst}
use tclcurl_ng.Api.{Tcl, Answers, MultiAnswers, multi_remove}
use tclcurl_ng.Api.Monad.{State, Status, ok, error, fault}
use tclcurl_ng.Mime.Transfer.{set_post_data, reset_post_data}
use tclcurl_ng.Multi.{easy_handle_list_remove}
use tclcurl_ng.Multi.Command.{add_to_list, or_one, add_multi_handle, remove_multi_handle}
use tclcurl_ng.Multi.Monad
use tclcurl_ng.Multi.Monad.{MultiState}
use tclcurl_ng.Options.Untouched.{Untouched, Untouched-trans, unlinked}
use tclcurl_ng.Transfer.{open_files, close_files}
use tclcurl_ng.Transfer.Untouched.{
  open_files-Untouched, close_files-Untouched, set_post_data-Untouched, reset_post_data-Untouched,
  set_body_var_name-Untouched,
}

-- If there is an end, the links are as at the start.
abbrev EndsUntouched : State → Option (ℤ × MultiState) → Type 0
EndsUntouched before none = Unit
EndsUntouched before (some (code, s)) = Untouched before s.host

module _ (tcl : Tcl) (ask : Answers) (libcurl : MultiAnswers) where
  or_one-EndsUntouched :
      (before : State) (status : Status) (rest : Monad.Run ℤ) (s : MultiState)
      → Untouched before s.host
      → EndsUntouched before (rest s)
      → EndsUntouched before (or_one tcl ask libcurl status rest s)
  or_one-EndsUntouched before ok rest s v w = w
  or_one-EndsUntouched before error rest s v w = v
  or_one-EndsUntouched before fault rest s v w = v

  add_multi_handle-EndsUntouched :
      (p : ℕ) (name : String) (s : MultiState)
      → EndsUntouched s.host (add_multi_handle tcl ask libcurl p name s)
  unfolding add_multi_handle add_to_list
  add_multi_handle-EndsUntouched p name s =
      let (st1, h1) = open_files ask s.host in
      let v1 = open_files-Untouched ask s.host in
      let (st2, h2) = set_post_data ask h1 in
      let v2 = Untouched-trans v1 (set_post_data-Untouched ask h1) in
      or_one-EndsUntouched s.host st1 _ (record s { host = h1 }) v1
        (or_one-EndsUntouched s.host st2 _ (record s { host = h2 }) v2
          (Untouched-trans v2 unlinked))

  remove_multi_handle-EndsUntouched :
      (s : MultiState) → EndsUntouched s.host (remove_multi_handle tcl ask libcurl s)
  unfolding remove_multi_handle
  remove_multi_handle-EndsUntouched s =
      let curl = s.host.easy.curl in
      let h0 = record s.host { calls = multi_remove s.multi.mcurl curl ∷ s.host.calls } in
      let h1 = (close_files ask h0).1 in
      let v1 : Untouched s.host h1 = Untouched-trans unlinked (close_files-Untouched ask h0) in
      let h2 = (reset_post_data ask h1).1 in
      let v2 = Untouched-trans v1 (reset_post_data-Untouched ask h1) in
      elim (Option-cases (easy_handle_list_remove curl s.at_mcurl)) [
        | inl e ↦ rw e tt
        | inr (list, e) ↦
            rw e (Untouched-trans v2 (set_body_var_name-Untouched ask h2 h2.easy.body_var_name))
      ]

  module _ (m after : MultiState) (code : ℤ) where
    pub add_multi_handle-Untouched :
        (p : ℕ) (name : String)
        → add_multi_handle tcl ask libcurl p name m ≡ some (code, after)
        → Untouched m.host after.host
    add_multi_handle-Untouched p name e =
        subst (λ x. EndsUntouched m.host x) e (add_multi_handle-EndsUntouched p name m)

    pub remove_multi_handle-Untouched :
        remove_multi_handle tcl ask libcurl m ≡ some (code, after) → Untouched m.host after.host
    remove_multi_handle-Untouched e =
        subst (λ x. EndsUntouched m.host x) e (remove_multi_handle-EndsUntouched m)
