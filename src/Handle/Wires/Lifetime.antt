-- ===== src/Handle/Wires/Lifetime.antt =====
-- The function for received data and its argument over the life of an easy handle of
-- generic/tclcurl.c.
use tclcurl_ng.Base.{
  ℕ, ℤ, ◌≡◌, refl, String, List, [], ◌∷◌, some, ◌==◌, Bool-cases, Option-cases, inl, inr,
}
use tclcurl_ng.Api.{Tcl, IsTcl, Answers, Results, Infos, MultiAnswers, easy_init, global_init}
use tclcurl_ng.Api.Monad.{State}
use tclcurl_ng.Callbacks.Events.{Event, run_events}
use tclcurl_ng.Commands.{create_obj_cmd}
use tclcurl_ng.Handle.{init_obj_cmd}
use tclcurl_ng.Handle.Command.{Situation, curl_obj_cmd}
use tclcurl_ng.Handle.Wires.{curl_obj_cmd-IsWired}
use tclcurl_ng.Multi.Command.{add_multi_handle, remove_multi_handle}
use tclcurl_ng.Multi.Monad.{MultiState}
use tclcurl_ng.Multi.Wires.{add_multi_handle-IsWired, remove_multi_handle-IsWired}
use tclcurl_ng.Options.Wires.{IsWired, Accepts}
use tclcurl_ng.Transfer.Wires.Events.{run_events-Calm}
use tclcurl_ng.Transfer.Wires.Perform.{Calm-IsWired}

module _ (tcl : Tcl) (ask : Answers) (results : Results) (infos : Infos) (libcurl : MultiAnswers)
    (print : ℕ → String) where
  -- The states of a handle from curl::init on, with a log that begins there.
  pub data Lifetime : State → Type 0 where
    started :
        (taken : List String) (memory : State)
        → memory.calls ≡ []
        → Lifetime (init_obj_cmd ask print taken memory).1
    obeyed :
        {s : State} (world : Situation) (args : List String)
        → Lifetime s
        → Lifetime (curl_obj_cmd tcl ask results infos print world args s).1
    called_back :
        {s : State} (events : List Event)
        → Lifetime s
        → Lifetime (run_events tcl ask results events s).1
    added :
        {code : ℤ} {after : MultiState} (p : ℕ) (name : String) (m : MultiState)
        → add_multi_handle tcl ask libcurl p name m ≡ some (code, after)
        → Lifetime m.host
        → Lifetime after.host
    removed :
        {code : ℤ} {after : MultiState} (m : MultiState)
        → remove_multi_handle tcl ask libcurl m ≡ some (code, after)
        → Lifetime m.host
        → Lifetime after.host

init_obj_cmd-IsWired :
    (ask : Answers) (print : ℕ → String) (taken : List String) (memory : State)
    → memory.calls ≡ []
    → IsWired ask (init_obj_cmd ask print taken memory).1
unfolding init_obj_cmd
init_obj_cmd-IsWired ask print taken memory e =
    elim (Bool-cases (ask (easy_init ∷ global_init ∷ memory.calls) == 0)) [
      | inl refused ↦ rw (refused, e) (record { ready = refl; past = refl })
      | inr given ↦ elim (Option-cases (create_obj_cmd print taken)) [
        | inl f ↦ rw (given, f, e) (record { ready = refl; past = refl })
        | inr (created, f) ↦ rw (given, f, e) (record { ready = refl; past = refl })
      ]
    ]

-- In every state that an easy handle reaches from curl::init by its commands, by addhandle and
-- removehandle and by callbacks, with a log that begins there, if the search for words is exact and
-- libcurl accepts CURLOPT_WRITEFUNCTION and CURLOPT_WRITEDATA: each curl_easy_perform and each
-- curl_multi_add_handle so far found the write function with an argument of the type that it casts to,
-- and unless a file is to be opened it has one now.
pub Lifetime-IsWired :
    (tcl : Tcl) (exact : IsTcl tcl) (ask : Answers) (acc : Accepts ask) (results : Results)
    (infos : Infos) (libcurl : MultiAnswers) (print : ℕ → String) {s : State}
    → Lifetime tcl ask results infos libcurl print s
    → IsWired ask s
Lifetime-IsWired tcl exact ask acc results infos libcurl print (started taken memory e) =
    init_obj_cmd-IsWired ask print taken memory e
Lifetime-IsWired tcl exact ask acc results infos libcurl print (obeyed {s} world args before) =
    curl_obj_cmd-IsWired tcl exact ask acc results infos print world s
      (Lifetime-IsWired tcl exact ask acc results infos libcurl print before) args
Lifetime-IsWired tcl exact ask acc results infos libcurl print (called_back {s} events before) =
    Calm-IsWired ask (run_events-Calm tcl ask results events s)
      (Lifetime-IsWired tcl exact ask acc results infos libcurl print before)
Lifetime-IsWired tcl exact ask acc results infos libcurl print (added {code} {after} p name m e b) =
    add_multi_handle-IsWired tcl ask libcurl m after code
      (Lifetime-IsWired tcl exact ask acc results infos libcurl print b) p name acc e
Lifetime-IsWired tcl exact ask acc results infos libcurl print (removed {code} {after} m e before) =
    remove_multi_handle-IsWired tcl ask libcurl m after code
      (Lifetime-IsWired tcl exact ask acc results infos libcurl print before) e
