-- ===== src/Multi/Wires.antt =====
-- What addhandle and removehandle of generic/multi.c do to the function for received data and its
-- argument.
use mathlib.Core.Path.{subst}
use tclcurl_ng.Base.{
  ℕ, ℤ, ◌≡◌, refl, String, ◌∷◌, Option, none, some, true, arith, Option-cases, inl, inr,
}
use tclcurl_ng.Api.{Tcl, Answers, MultiAnswers, multi_remove}
use tclcurl_ng.Api.Monad.{State, Status, ok, error, fault}
use tclcurl_ng.Mime.Transfer.{set_post_data, reset_post_data}
use tclcurl_ng.Multi.{easy_handle_list_remove}
use tclcurl_ng.Multi.Command.{add_to_list, or_one, add_multi_handle, remove_multi_handle}
use tclcurl_ng.Multi.Monad
use tclcurl_ng.Multi.Monad.{MultiState}
use tclcurl_ng.Options.Wires.{IsWired, Accepts}
use tclcurl_ng.Transfer.{open_files, close_files}
use tclcurl_ng.Transfer.Wires.{
  Calm, Calm-trans, set_post_data-Calm, close_files-Calm, reset_post_data-Calm,
  set_body_var_name-Calm,
}
use tclcurl_ng.Transfer.Wires.Perform.{
  fits, Calm-fits, Calm-IsWired, open_files-IsWired, open_files-fits,
}

-- If there is an end, the function and its argument are together then.
abbrev EndsWired : Answers → Option (ℤ × MultiState) → Type 0
EndsWired ask none = Unit
EndsWired ask (some (code, s)) = IsWired ask s.host

module _ (tcl : Tcl) (ask : Answers) (libcurl : MultiAnswers) where
  or_one-EndsWired :
      (status : Status) (rest : Monad.Run ℤ) (s : MultiState)
      → IsWired ask s.host
      → (status ≡ ok → EndsWired ask (rest s))
      → EndsWired ask (or_one tcl ask libcurl status rest s)
  or_one-EndsWired ok rest s v w = w refl
  or_one-EndsWired error rest s v w = v
  or_one-EndsWired fault rest s v w = v

  add_to_list-EndsWired :
      (p : ℕ) (name : String) (s : MultiState)
      → IsWired ask s.host
      → fits ask s.host ≡ true
      → EndsWired ask (add_to_list tcl ask libcurl p name s)
  unfolding add_to_list
  add_to_list-EndsWired p name s v e = record { ready = v.ready; past = ground (arith, v.past, e) }

  add_multi_handle-EndsWired :
      (p : ℕ) (name : String) (s : MultiState)
      → Accepts ask
      → IsWired ask s.host
      → EndsWired ask (add_multi_handle tcl ask libcurl p name s)
  unfolding add_multi_handle
  add_multi_handle-EndsWired p name s acc v =
      let (st1, h1) = open_files ask s.host in
      let v1 = open_files-IsWired ask acc s.host v in
      let (st2, h2) = set_post_data ask h1 in
      let c = set_post_data-Calm ask h1 in
      let v2 = Calm-IsWired ask c v1 in
      or_one-EndsWired st1 _ (record s { host = h1 }) v1
        (λ opened.
          or_one-EndsWired st2 _ (record s { host = h2 }) v2
            (λ posted.
              add_to_list-EndsWired p name (record s { host = h2 }) v2
                (Calm-fits ask c (open_files-fits ask acc s.host v opened))))

  remove_multi_handle-EndsWired :
      (s : MultiState) → IsWired ask s.host → EndsWired ask (remove_multi_handle tcl ask libcurl s)
  unfolding remove_multi_handle
  remove_multi_handle-EndsWired s v =
      let curl = s.host.easy.curl in
      let h0 : State = record s.host { calls = multi_remove s.multi.mcurl curl ∷ s.host.calls } in
      let step : Calm ask s.host h0 = ground arith in
      let h1 = (close_files ask h0).1 in
      let h2 = (reset_post_data ask h1).1 in
      let c = Calm-trans step (
        Calm-trans (close_files-Calm ask h0) (
          Calm-trans (reset_post_data-Calm ask h1)
            (set_body_var_name-Calm ask h2 h2.easy.body_var_name))) in
      elim (Option-cases (easy_handle_list_remove curl s.at_mcurl)) [
        | inl e ↦ rw e tt
        | inr (list, e) ↦ rw e (Calm-IsWired ask c v)
      ]

  module _ (m after : MultiState) (code : ℤ) (v : IsWired ask m.host) where
    pub add_multi_handle-IsWired :
        (p : ℕ) (name : String)
        → Accepts ask
        → add_multi_handle tcl ask libcurl p name m ≡ some (code, after)
        → IsWired ask after.host
    add_multi_handle-IsWired p name acc e =
        subst (λ x. EndsWired ask x) e (add_multi_handle-EndsWired p name m acc v)

    pub remove_multi_handle-IsWired :
        remove_multi_handle tcl ask libcurl m ≡ some (code, after) → IsWired ask after.host
    remove_multi_handle-IsWired e =
        subst (λ x. EndsWired ask x) e (remove_multi_handle-EndsWired m v)
