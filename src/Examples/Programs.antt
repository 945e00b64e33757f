-- ===== src/Examples/Programs.antt =====
-- The theorems on whole programs at concrete inputs.
use tclcurl_ng.Base.{ℕ, [], ◌∷◌, refl, false, some, ◌≡◌, ◌≢◌, arith}
use tclcurl_ng.Api.Easy.{blank}
use tclcurl_ng.Examples.{tcl, tcl-IsTcl, results, strokes, strokes_injective, handle}
use tclcurl_ng.Examples.Handles.{infos}
use tclcurl_ng.Examples.Transfers.{libcurl}
use tclcurl_ng.Handle.Command.{Situation, curl_obj_cmd, run_found, run_cmd}
use tclcurl_ng.Handle.Wires.Lifetime.{Lifetime, Lifetime-IsWired}
use tclcurl_ng.Options.Faults.Commands.{is_unfit, set_opts_transfer-no_fault}
use tclcurl_ng.Options.Table.{option_table, curl_option_defs}
use tclcurl_ng.Options.Wires.{Accepts, IsWired}
use tclcurl_ng.Api.Monad.{State, fault}
use tclcurl_ng.Program.{
  enter, Program, nothing, create, create_share, obey, created, share_created, obeyed, started,
  continued, IsUnused, Reach,
}
use tclcurl_ng.Program.Links.{IsLinked}
use tclcurl_ng.Program.Steps.{Reach-IsLinked}
use tclcurl_ng.Handle.{init_obj_cmd}
use tclcurl_ng.Commands.{create_obj_cmd, create_share_obj_cmd, create_command, free_loop}
use tclcurl_ng.Share.Init.{share_init_obj_cmd}
use tclcurl_ng.Api.{Answers, Call, easy_setopt, get_command_info}
use tclcurl_ng.Share.{clear_links}

-- A libcurl that accepts every option, a Tcl without other commands, and 4 for any new handle or token.
abbrev answer : Call → ℕ
answer (easy_setopt h opt a) = 0
answer (get_command_info o) = 0
answer _ = 4

abbrev ask : Answers
ask [] = 0
ask (c ∷ cs) = answer c

-- One easy handle at address 3, then a share handle as well.
abbrev one_handle : Program
one_handle = create tcl ask results infos libcurl strokes 3 [] (blank 7 7) (nothing 5)

abbrev two_handles : Program
two_handles = create_share tcl ask results infos libcurl strokes 4 [] one_handle

fresh : one_handle.shares.alive 4 ≡ false
unfolding create init_obj_cmd create_obj_cmd create_command free_loop clear_links
fresh = refl

here : two_handles.easy 3 ≡ some (blank 4 4)
unfolding create init_obj_cmd create_share create_obj_cmd create_command free_loop
here = refl

spare : IsUnused two_handles 2
unfolding create init_obj_cmd create_share create_obj_cmd create_command free_loop clear_links
    share_init_obj_cmd create_share_obj_cmd
spare = record { unused = refl; positive = ground arith; below = ground arith }

abbrev room : Situation
room = record { events = []; new = 2; taken = [] }

share_fit : is_unfit tcl (λ o. false) (tcl.get_index option_table "CURLOPT_SHARE") "i" ≡ false
unfolding option_table curl_option_defs
share_fit = refl

sane :
    (curl_obj_cmd tcl ask results infos strokes room
      ("setopt" ∷ "CURLOPT_SHARE" ∷ "i" ∷ [])
      (enter two_handles 3 (blank 4 4))).0.0
    ≢ fault
unfolding curl_obj_cmd run_found run_cmd
sane =
    set_opts_transfer-no_fault tcl ask (λ o. false) (λ o log e. refl) "CURLOPT_SHARE" "i"
      (enter two_handles 3 (blank 4 4)) share_fit

-- The easy handle uses the share handle, and is duplicated at address 2.
sharing : Reach tcl ask results infos libcurl strokes 5 (
    obey tcl ask results infos libcurl strokes room 3
      (blank 4 4)
      ("setopt" ∷ "CURLOPT_SHARE" ∷ "i" ∷ [])
      two_handles)
sharing =
    continued
      (continued
        (continued started (
          created (nothing 5) 3 [] (blank 7 7)
            (record { unused = refl; positive = ground arith; below = ground arith })))
        (share_created one_handle 4 [] (ground arith) fresh (λ name. refl)))
      (obeyed two_handles 3 (blank 4 4) room ("setopt" ∷ "CURLOPT_SHARE" ∷ "i" ∷ []) here spare
        sane)

Reach-IsLinked_example : IsLinked (
    obey tcl ask results infos libcurl strokes room 3
      (blank 4 4)
      ("setopt" ∷ "CURLOPT_SHARE" ∷ "i" ∷ [])
      two_handles)
Reach-IsLinked_example =
    Reach-IsLinked tcl ask results infos libcurl strokes strokes_injective tcl-IsTcl sharing

accepts : Accepts ask
accepts = record { functions = λ h a log. refl; arguments = λ h a log. refl }

-- A handle that is to collect the body in a variable, and transfers.
abbrev made : State
made = (init_obj_cmd ask strokes [] handle).1

abbrev told : State
told =
    (curl_obj_cmd tcl ask results infos strokes room ("configure" ∷ "-bodyvar" ∷ "page" ∷ [])
      made).1

abbrev transferred : State
transferred = (curl_obj_cmd tcl ask results infos strokes room ("perform" ∷ []) told).1

collected : Lifetime tcl ask results infos libcurl strokes transferred
collected = Lifetime.obeyed room ("perform" ∷ []) (
    Lifetime.obeyed room ("configure" ∷ "-bodyvar" ∷ "page" ∷ []) (Lifetime.started [] handle refl))

Lifetime-IsWired_example : IsWired ask transferred
Lifetime-IsWired_example =
    Lifetime-IsWired tcl tcl-IsTcl ask accepts results infos libcurl strokes collected
