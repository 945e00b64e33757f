-- ===== src/Examples/Handles.antt =====
-- The theorems on the life of an easy handle and on getinfo at concrete inputs.
use tclcurl_ng.Base.{
  ◌≡◌, ◌≢◌, ◌⊎◌, ◌↔◌, refl, [], ◌∷◌, none, some, pos, true, false, arith, str_eq, if◌then◌else◌,
}
use tclcurl_ng.Api.{Infos, Answers, Tcl, get_command_info}
use tclcurl_ng.Api.Monad.{State, error, fault, wrong_num_args}
use tclcurl_ng.Commands.{create_obj_cmd, create_command, free_loop}
use tclcurl_ng.Examples.{
  tcl, tcl-IsTcl, ask, results, nobody, one_user-Rep, handle, handle-IsSound, strokes,
  strokes_injective,
}
use tclcurl_ng.Callbacks.Events.{body, run_events}
use tclcurl_ng.Examples.Transfers.{libcurl}
use tclcurl_ng.Handle.{init_obj_cmd, reset_handle, dup_handle}
use tclcurl_ng.Handle.Arity.{curl_obj_cmd-wrong}
use tclcurl_ng.Handle.Command.{Situation, pause, curl_obj_cmd}
use tclcurl_ng.Handle.Copy.{IsNotDuplicated, IsDuplicated, dup_handle-IsDuplicated}
use tclcurl_ng.Handle.Life.{reset_handle-init_obj_cmd, reset_handle-Balanced}
use tclcurl_ng.Handle.Session.{Session, started, obeyed, called_back, Session-IsSound}
use tclcurl_ng.Options.Faults.Commands.{any_unfit, config_transfer-no_fault}
use tclcurl_ng.Options.Run.{config_transfer}
use tclcurl_ng.Options.Table.{config_table, curl_option_defs}
use tclcurl_ng.Info.{get_info}
use tclcurl_ng.Info.Answer.{IsUnknown, IsUnanswered, IsAnswered, get_info_lem}
use tclcurl_ng.Options.Sound.{IsSound}
use tclcurl_ng.Share.{link}
use tclcurl_ng.Share.Rep.{Rep, leave, join}
use tclcurl_ng.Transfer.Balance.{held, Balanced}
use tclcurl_ng.Transfer.Running.{performed}

-- A libcurl that gives a handle.
abbrev generous : Answers
generous log = 4

abbrev memory : State
memory = record handle { easy = record handle.easy { curl = 4; token = 4 } }

made : (init_obj_cmd generous strokes [] handle).0 ≢ none
unfolding init_obj_cmd create_obj_cmd create_command free_loop
made e = ground arith

reset_handle-init_obj_cmd_example :
    ((reset_handle generous memory).1.easy ≡ (init_obj_cmd generous strokes [] handle).1.easy)
    × ((reset_handle generous memory).1.shares.share_token memory.self ≡ 0)
    × ((reset_handle generous memory).1.shares.next_shared memory.self ≡ 0)
    × Rep (reset_handle generous memory).1.shares (leave memory.self (join 2 1 nobody))
unfolding init_obj_cmd create_obj_cmd create_command free_loop
reset_handle-init_obj_cmd_example =
    reset_handle-init_obj_cmd generous strokes [] handle memory (join 2 1 nobody) made refl refl
      one_user-Rep

reset_handle-Balanced_example :
    (Balanced 7 ask (reset_handle ask handle).1 ↔ (held 7 handle.easy ≡ 0))
    × (performed (reset_handle ask handle).1.calls ≡ performed handle.calls)
reset_handle-Balanced_example = reset_handle-Balanced ask handle handle-IsSound

dup_handle-IsDuplicated_example :
    IsNotDuplicated handle (dup_handle generous strokes 4 ("" ∷ []) handle)
    ⊎ IsDuplicated strokes
        ("" ∷ [])
        4
        (join 2 1 nobody)
        handle
        (dup_handle generous strokes 4 ("" ∷ []) handle)
unfolding link
dup_handle-IsDuplicated_example =
    dup_handle-IsDuplicated generous strokes ("" ∷ []) 4 (join 2 1 nobody) handle strokes_injective
      one_user-Rep refl (ground arith) (ground arith)

abbrev pub infos : Infos
infos = record {
  char_ptr = λ cs. some "http://tcl.tk";
  long_number = λ cs. pos 200;
  double_number = λ cs. "0.5";
  curl_off_t = λ cs. pos 9;
  mask = λ cs. "CURLAUTH_BASIC" ∷ [];
  slist_ptr = λ cs. "openssl" ∷ [];
  certinfo = λ cs. [];
}

get_info_lem_example :
    IsUnknown "sslengines" handle (get_info tcl ask infos "sslengines" handle)
    ⊎ IsUnanswered ask "sslengines" handle (get_info tcl ask infos "sslengines" handle)
    ⊎ IsAnswered ask infos "sslengines" handle (get_info tcl ask infos "sslengines" handle)
get_info_lem_example = get_info_lem tcl tcl-IsTcl ask infos "sslengines" handle

abbrev world : Situation
world = record { events = []; new = 4; taken = [] }

curl_obj_cmd-wrong_example :
    curl_obj_cmd tcl ask results infos strokes world ("pause" ∷ "now" ∷ []) handle
    ≡ ((error, none), record handle { result = wrong_num_args "" })
curl_obj_cmd-wrong_example =
    curl_obj_cmd-wrong tcl tcl-IsTcl ask results infos strokes world handle "pause" ("now" ∷ [])
      pause refl refl

-- Every value is a list of two words.
abbrev pairing : Tcl
pairing = record tcl { list_elements = λ o. some ("name" ∷ o ∷ []) }

paired :
    any_unfit pairing
      (λ o. str_eq o "curl0")
      ("-httppost" ∷ "photo" ∷ "-share" ∷ "scurl1" ∷ "-url" ∷ "tcl.tk" ∷ [])
    ≡ false
unfolding config_table curl_option_defs
paired = refl

-- The only command there is but those of share handles is curl0.
abbrev one_command : Answers
one_command [] = 0
one_command (get_command_info o ∷ log) = if str_eq o "curl0" then 1 else 0
one_command _ = 0

config_transfer-no_fault_example :
    (config_transfer pairing one_command
      ("-httppost" ∷ "photo" ∷ "-share" ∷ "scurl1" ∷ "-url" ∷ "tcl.tk" ∷ [])
      handle).0
    ≢ fault
config_transfer-no_fault_example =
    config_transfer-no_fault pairing one_command (λ o. str_eq o "curl0") (λ o log e. rw e refl)
      ("-httppost" ∷ "photo" ∷ "-share" ∷ "scurl1" ∷ "-url" ∷ "tcl.tk" ∷ []) handle paired

opened_handle :
    Session tcl generous results infos libcurl strokes true
      (init_obj_cmd generous strokes [] handle).1
unfolding init_obj_cmd
opened_handle = started [] handle made (λ p. refl)

Session-IsSound_example :
    IsSound 4 generous
      (curl_obj_cmd tcl generous results infos strokes world
        ("perform" ∷ [])
        (run_events tcl generous results
          (body (72 ∷ []) ∷ [])
          (init_obj_cmd generous strokes [] handle).1).1).1
Session-IsSound_example =
    Session-IsSound 4 (ground arith) tcl tcl-IsTcl generous results infos libcurl strokes (
      obeyed world ("perform" ∷ []) (λ e p positive. ground arith)
        (called_back (body (72 ∷ []) ∷ []) opened_handle))
