-- ===== src/Multi/Sound.antt =====
-- What addhandle and removehandle do to the easy handle and to the list of handles, together.
use tclcurl_ng.Base.{
  ℕ, ◌<◌, ℤ, pos, ◌≡◌, refl, ◌⊎◌, inl, inr, String, List, [], ◌∷◌, ◌++◌, Option, some, false, arith,
}
use tclcurl_ng.Api.{Tcl, Answers, MultiAnswers, multi_add, multi_remove}
use tclcurl_ng.Api.Monad.{State, Status, ok, error, fault}
use tclcurl_ng.Handle.Quiet.{quiet-Run}
use tclcurl_ng.Mime.Transfer.{set_post_data, set_post, reset_post_data}
use tclcurl_ng.Multi.Add.{easy_handle_list_add-Holds}
use tclcurl_ng.Multi.Command.{add_to_list, or_one, add_multi_handle, remove_multi_handle}
use tclcurl_ng.Multi.Handles.{Holds}
use tclcurl_ng.Multi.Monad.{MultiState}
use tclcurl_ng.Multi.Monad
use tclcurl_ng.Multi.Remove.{remove_entry, easy_handle_list_remove-Holds}
use tclcurl_ng.Options.Sound.{IsSound}
use tclcurl_ng.Share.Chain.{has}
use tclcurl_ng.Transfer.{open_files, close_files}
use tclcurl_ng.Transfer.Perform.{
  IsClean, close_files-Run, open_files-Run, set_post-Run, reset-IsClean, set_body-IsClean,
}
use tclcurl_ng.Transfer.Running.{performed}
use tclcurl_ng.Transfer.Sound.{reset_post_data-Run, set_body_var_name-Run}

-- The two ends of addhandle, with the list `l` before and the result `r`.
pub record IsAdded (fp : ℕ) (ask : Answers) (name : String) (l : List (ℕ × String))
    (before : MultiState) (r : Option (ℤ × MultiState)) : Type 0 where
  pub code : ℤ
  pub after : MultiState
  pub run : r ≡ some (code, after)
  pub list : Holds after.at_mcurl (l ++ (after.host.easy.curl, name) ∷ [])
  pub own : after.multi ≡ before.multi
  pub sound : IsSound fp ask after.host

pub record IsNotAdded (fp : ℕ) (ask : Answers) (before : MultiState) (r : Option (ℤ × MultiState))
    : Type 0 where
  pub after : MultiState
  pub run : r ≡ some (pos 1, after)
  pub list : after.at_mcurl ≡ before.at_mcurl
  pub own : after.multi ≡ before.multi
  pub sound : IsSound fp ask after.host

module _ (fp : ℕ) (tcl : Tcl) (ask : Answers) (libcurl : MultiAnswers) (p : ℕ) (name : String)
    (l : List (ℕ × String)) (before : MultiState) where
  abbrev Outcome : Option (ℤ × MultiState) → Type 0
  Outcome r = IsAdded fp ask name l before r ⊎ IsNotAdded fp ask before r

  or_one-Outcome :
      (status : Status) (rest : Monad.Run ℤ) (s : MultiState)
      → s.at_mcurl ≡ before.at_mcurl
      → s.multi ≡ before.multi
      → IsSound fp ask s.host
      → Outcome (rest s)
      → Outcome (or_one tcl ask libcurl status rest s)
  or_one-Outcome ok rest s e m v w = w
  or_one-Outcome error rest s e m v w =
      inr (record { after = s; run = refl; list = e; own = m; sound = v })
  or_one-Outcome fault rest s e m v w =
      inr (record { after = s; run = refl; list = e; own = m; sound = v })

  add_to_list-IsAdded :
      (host : State) (v : Holds before.at_mcurl l)
      → 0 < p
      → p < before.at_mcurl.limit
      → has p v.nodes ≡ false
      → IsSound fp ask host
      → IsAdded fp ask name l before
          (add_to_list tcl ask libcurl p name (record before { host = host }))
  unfolding add_to_list
  add_to_list-IsAdded host v positive below out sound = record {
    code = _;
    after = _;
    run = refl;
    list = easy_handle_list_add-Holds p host.easy.curl name v positive below out;
    own = refl;
    sound =
        (quiet-Run ask (performed host.calls) (multi_add before.multi.mcurl host.easy.curl) host
          refl (record { files = sound; started = refl })).files;
  }

  -- addhandle, with a node at an address that the list does not use yet, on a list of nodes that holds
  -- `l` and an easy handle with sound files: it returns. Either the files or the POST data could not be
  -- prepared: the answer is 1 and the list has not changed; or the handle stands at the end of the list
  -- with its name, also where libcurl has refused it. Neither way touches the multi handle's own
  -- struct, and the files stay sound.
  pub add_multi_handle-Holds :
      (v : Holds before.at_mcurl l)
      → 0 < p
      → p < before.at_mcurl.limit
      → has p v.nodes ≡ false
      → IsSound fp ask before.host
      → IsAdded fp ask name l before (add_multi_handle tcl ask libcurl p name before)
        ⊎ IsNotAdded fp ask before (add_multi_handle tcl ask libcurl p name before)
  unfolding add_multi_handle set_post_data
  add_multi_handle-Holds v positive below out sound =
      let n = performed before.host.calls in
      let (st1, h1) = open_files ask before.host in
      let v1 = open_files-Run ask n before.host (record { files = sound; started = refl }) in
      let (st2, h2) = set_post ask h1.easy.post_fields h1.easy.post_field_size h1 in
      let v2 = set_post-Run ask n h1.easy.post_fields h1.easy.post_field_size h1 v1 in
      or_one-Outcome st1 _ (record before { host = h1 }) refl refl v1.files
        (or_one-Outcome st2 _ (record before { host = h2 }) refl refl v2.files
          (inl (add_to_list-IsAdded h2 v positive below out v2.files)))

-- What removehandle leaves.
pub record IsRemoved (fp : ℕ) (ask : Answers) (l : List (ℕ × String)) (before : MultiState)
    (r : Option (ℤ × MultiState)) : Type 0 where
  pub code : ℤ
  pub after : MultiState
  pub run : r ≡ some (code, after)
  pub list : Holds after.at_mcurl (remove_entry before.host.easy.curl l)
  pub own : after.multi ≡ before.multi
  pub clean : IsClean fp ask after.host
  pub sound : IsSound fp ask after.host

-- removehandle, on a list that holds `l` and an easy handle with files that are sound for a FILE pointer
-- `fp`: it returns. The first entry of the handle is out of the list, also where libcurl answers an
-- error; `fp` was closed as often as fopen gave it and is in no field, no POST data is left, and the
-- multi handle's own struct is untouched.
pub remove_multi_handle-IsRemoved :
    {fp : ℕ} (tcl : Tcl) (ask : Answers) (libcurl : MultiAnswers) (l : List (ℕ × String))
    (before : MultiState)
    → Holds before.at_mcurl l
    → IsSound fp ask before.host
    → IsRemoved fp ask l before (remove_multi_handle tcl ask libcurl before)
unfolding remove_multi_handle
remove_multi_handle-IsRemoved tcl ask libcurl l before v sound =
    let n = performed before.host.calls in
    let curl = before.host.easy.curl in
    let c = multi_remove before.multi.mcurl curl in
    let h0 = record before.host { calls = c ∷ before.host.calls } in
    let v0 = quiet-Run ask n c before.host refl (record { files = sound; started = refl }) in
    let (list, e, holds) = easy_handle_list_remove-Holds curl before.at_mcurl l v in
    let h1 = (close_files ask h0).1 in
    let (v1, none_held) = close_files-Run ask n h0 v0 in
    let h2 = (reset_post_data ask h1).1 in
    let (c2, p2) = reset-IsClean ask n h1 v1.started (ground arith) none_held in
    let v2 = reset_post_data-Run ask n h1 v1 in
    let (c3, p3) = set_body-IsClean ask n h2 h2.easy.body_var_name p2 c2 in
    let v3 = set_body_var_name-Run ask n h2 h2.easy.body_var_name v2 in
    rw e (record {
      code = _;
      after = _;
      run = refl;
      list = holds;
      own = refl;
      clean = c3;
      sound = v3.files;
    })
