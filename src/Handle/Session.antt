-- ===== src/Handle/Session.antt =====
-- The life of one easy handle as the commands that a script gives it, from curl::init on.
use mathlib.Core.Path.{subst}
use tclcurl_ng.Base.{
  ℤ, ℕ, ◌<◌, ◌≡◌, ◌≢◌, refl, String, List, [], ◌∷◌, Option, none, some, Bool, true, false, not,
  arith, str_eq, ◌==◌, Bool-cases, inl, inr, Option-cases,
}
use tclcurl_ng.Api.{
  MultiAnswers, Tcl, IsTcl, Answers, Results, Infos, find_index, global_init, easy_init,
}
use tclcurl_ng.Api.Monad.{State}
use tclcurl_ng.Commands.{create_obj_cmd}
use tclcurl_ng.Handle.{init_obj_cmd}
use tclcurl_ng.Handle.Command.{reset, command_table, Situation, cmd_at, curl_obj_cmd}
use tclcurl_ng.Handle.Sound.{first_word, curl_obj_cmd-IsSound}
use tclcurl_ng.Callbacks.Events.{Event, run_events}
use tclcurl_ng.Multi.Command.{add_multi_handle, remove_multi_handle}
use tclcurl_ng.Multi.Files.{EndsSound, add_multi_handle-EndsSound, remove_multi_handle-EndsSound}
use tclcurl_ng.Multi.Monad.{MultiState}
use tclcurl_ng.Transfer.Running.{performed, run_events-Run}
use tclcurl_ng.Options.Sound.{IsSound}
use tclcurl_ng.Transfer.Balance.{one, one-null, held, opened, closed}

-- The command `cleanup` deletes the handle.
abbrev pub ends : List String → Bool
ends (word ∷ []) = str_eq word "cleanup"
ends _ = false

module _ (tcl : Tcl) (ask : Answers) (results : Results) (infos : Infos) (libcurl : MultiAnswers)
    (print : ℕ → String) where
  -- The states of a handle, and whether its command still exists. Besides its own commands a multi
  -- handle may take it in and give it back, and libcurl calls its procedures back while a multi handle
  -- performs. No reset finds a file open.
  pub data Session : Bool → State → Type 0 where
    started :
        (taken : List String) (memory : State)
        → (init_obj_cmd ask print taken memory).0 ≢ none
        → ((p : ℕ) → opened ask p memory.calls ≡ closed p memory.calls)
        → Session true (init_obj_cmd ask print taken memory).1
    obeyed :
        {s : State} (world : Situation) (args : List String)
        → (cmd_at (find_index command_table (first_word args)) ≡ some reset
            → (p : ℕ) → 0 < p
            → held p s.easy ≡ 0)
        → Session true s
        → Session (not (ends args)) (curl_obj_cmd tcl ask results infos print world args s).1
    called_back :
        {s : State} (events : List Event)
        → Session true s
        → Session true (run_events tcl ask results events s).1
    added :
        {code : ℤ} {after : MultiState} (p : ℕ) (name : String) (m : MultiState)
        → add_multi_handle tcl ask libcurl p name m ≡ some (code, after)
        → Session true m.host
        → Session true after.host
    removed :
        {code : ℤ} {after : MultiState} (m : MultiState)
        → remove_multi_handle tcl ask libcurl m ≡ some (code, after)
        → Session true m.host
        → Session true after.host

module _ {fp : ℕ} (ask : Answers) (print : ℕ → String) (taken : List String) (memory : State) where
  init_obj_cmd-IsSound :
      (init_obj_cmd ask print taken memory).0 ≢ none
      → one fp 0 ≡ 0
      → opened ask fp memory.calls ≡ closed fp memory.calls
      → IsSound fp ask (init_obj_cmd ask print taken memory).1
  unfolding init_obj_cmd
  init_obj_cmd-IsSound made not_null e =
      elim (Bool-cases (ask (easy_init ∷ global_init ∷ memory.calls) == 0)) [
        | inl refused ↦
            let z : (init_obj_cmd ask print taken memory).0 ≡ none = rw refused refl in
            absurd (made z)
        | inr given ↦ elim (Option-cases (create_obj_cmd print taken)) [
          | inl f ↦ rw (given, f) (ground arith)
          | inr (created, f) ↦ rw (given, f) (ground arith)
        ]
      ]

module _ {fp : ℕ} (ask : Answers) where
  end-IsSound :
      {r : Option (ℤ × MultiState)} {code : ℤ} {after : MultiState}
      → r ≡ some (code, after)
      → EndsSound fp ask r
      → IsSound fp ask after.host
  end-IsSound e v = subst (λ x. EndsSound fp ask x) e v

-- In every state that a handle reaches from curl::init by its own commands, by addhandle and
-- removehandle of multi handles and by callbacks, where the search for a word is exact, no earlier file
-- of the log was left open, and no reset finds a file open: each file ever opened has been closed or is
-- held by one of the handle's four fields, each FILE pointer counted by itself, and a flag to open a
-- file stands beside a name. A command that faults is taken up to the read at which it does.
pub Session-IsSound :
    (fp : ℕ) (positive : 0 < fp) (tcl : Tcl) (exact : IsTcl tcl) (ask : Answers) (results : Results)
    (infos : Infos) (libcurl : MultiAnswers) (print : ℕ → String) {alive : Bool} {s : State}
    → Session tcl ask results infos libcurl print alive s
    → IsSound fp ask s
Session-IsSound fp positive tcl exact ask results infos libcurl print
      (started taken memory made e) =
    init_obj_cmd-IsSound ask print taken memory made (one-null fp positive) (e fp)
Session-IsSound fp positive tcl exact ask results infos libcurl print
      (obeyed {s} world args h before) =
    curl_obj_cmd-IsSound tcl exact ask results infos print world s
      (Session-IsSound fp positive tcl exact ask results infos libcurl print before) args
      (λ r. h r fp positive)
Session-IsSound fp positive tcl exact ask results infos libcurl print
      (called_back {s} events before) =
    let v = Session-IsSound fp positive tcl exact ask results infos libcurl print before in
    (run_events-Run tcl ask results (performed s.calls) events s
      (record { files = v; started = refl })).files
Session-IsSound fp positive tcl exact ask results infos libcurl print (added p name m e before) =
    end-IsSound ask e (
      add_multi_handle-EndsSound tcl ask libcurl p name m
        (Session-IsSound fp positive tcl exact ask results infos libcurl print before))
Session-IsSound fp positive tcl exact ask results infos libcurl print (removed m e before) =
    end-IsSound ask e (
      remove_multi_handle-EndsSound tcl ask libcurl m
        (Session-IsSound fp positive tcl exact ask results infos libcurl print before))
