-- ===== src/Examples/Transfers.antt =====
-- The theorems on multi handles at concrete inputs.
use tclcurl_ng.Base.{ℕ, ◌+◌, ◌≡◌, ◌⊎◌, refl, String, [], ◌∷◌, none, some, pos, arith, suc}
use tclcurl_ng.Api.{MultiAnswers}
use tclcurl_ng.Api.{create_command as create_command_call, multi_init, multi_perform, global_eval}
use tclcurl_ng.Api.Monad.{literal}
use tclcurl_ng.Commands.{create_multi_obj_cmd, multi_loop}
use tclcurl_ng.Multi.Session.{MultiSession, opened, IsDeleted, MultiSession-IsDeleted}
use tclcurl_ng.Examples.{
  strokes, tcl, ask, handle, handle-IsSound, no_handles, two_handles, two_handles-Holds,
}
use tclcurl_ng.Multi.Command.{
  empty_list, init_multi_obj_cmd, multi_delete_cmd, add_multi_handle, remove_multi_handle,
  curl_multi_perform, get_active_transfers,
}
use tclcurl_ng.Multi.Events.{
  event_check, event_proc, Steps, none_yet, checked, served, Steps-silent,
}
use tclcurl_ng.Multi.Loop.{called, IsLast, outcome, curl_multi_perform-returns}
use tclcurl_ng.Multi.Monad.{MultiState}
use tclcurl_ng.Multi.Sound.{
  IsAdded, IsNotAdded, add_multi_handle-Holds, IsRemoved, remove_multi_handle-IsRemoved,
}

-- A libcurl that has nothing to do.
abbrev pub libcurl : MultiAnswers
libcurl = record {
  multi_code = λ cs. pos 0;
  running_transfers = λ cs. 0;
  message = λ cs. none;
  select_code = λ cs. pos 1;
}

abbrev multi_handle : MultiState
multi_handle = record {
  multi = record {
    mcurl = 8;
    token = 1;
    handle_list = no_handles;
    running_transfers = 1;
    post_command = some "puts done";
  };
  at_mcurl = two_handles;
  host = handle;
  sources = 1;
  queued = 0;
}

curl_multi_perform-returns_example :
    (extra : ℕ) × IsLast tcl ask libcurl extra multi_handle
    × (curl_multi_perform tcl ask libcurl 1 multi_handle
        ≡ outcome tcl ask libcurl (called (suc extra) multi_handle))
curl_multi_perform-returns_example =
    curl_multi_perform-returns tcl ask libcurl 0 1 multi_handle refl (ground arith)

abbrev prefix : ℕ → String → String
prefix n script = script

abbrev after_one : MultiState
after_one = event_proc tcl ask libcurl prefix (event_check tcl ask libcurl prefix multi_handle)

one_round : Steps tcl ask libcurl prefix multi_handle 1 1 after_one
unfolding event_check event_proc get_active_transfers
one_round = served (checked none_yet (ground arith)) (ground arith)

last_check :
    Steps tcl ask libcurl prefix after_one 1 0 (event_check tcl ask libcurl prefix after_one)
unfolding event_check event_proc get_active_transfers
last_check = checked none_yet (ground arith)

Steps-silent_example :
    (1
        + 0
        + ((event_check tcl ask libcurl prefix after_one).sources
            + (event_check tcl ask libcurl prefix after_one).queued)
      ≡ after_one.sources + after_one.queued)
    × ((event_check tcl ask libcurl prefix after_one).multi.running_transfers ≡ 0)
Steps-silent_example =
    Steps-silent tcl ask libcurl prefix 1 (λ cs h. refl) one_round (ground arith) (ground arith)
      last_check

add_multi_handle-Holds_example :
    IsAdded 7 ask "curl2"
      ((40, "curl0") ∷ (50, "curl1") ∷ [])
      multi_handle
      (add_multi_handle tcl ask libcurl 4 "curl2" multi_handle)
    ⊎ IsNotAdded 7 ask multi_handle (add_multi_handle tcl ask libcurl 4 "curl2" multi_handle)
add_multi_handle-Holds_example =
    add_multi_handle-Holds 7 tcl ask libcurl 4 "curl2" ((40, "curl0") ∷ (50, "curl1") ∷ [])
      multi_handle two_handles-Holds (ground arith) (ground arith) refl handle-IsSound

remove_multi_handle-IsRemoved_example :
    IsRemoved 7 ask
      ((40, "curl0") ∷ (50, "curl1") ∷ [])
      multi_handle
      (remove_multi_handle tcl ask libcurl multi_handle)
remove_multi_handle-IsRemoved_example =
    remove_multi_handle-IsRemoved tcl ask libcurl ((40, "curl0") ∷ (50, "curl1") ∷ []) multi_handle
      two_handles-Holds handle-IsSound

abbrev opened_multi : MultiState
opened_multi = record multi_handle {
  multi = record {
    mcurl = 4;
    token = 4;
    handle_list = empty_list 9;
    running_transfers = 0;
    post_command = none;
  };
  host = record handle { calls = create_command_call "i" ∷ multi_init ∷ []; result = literal "i" };
}

first_multi : MultiSession tcl (λ log. 4) libcurl prefix strokes 9 opened_multi
unfolding init_multi_obj_cmd create_multi_obj_cmd multi_loop
first_multi = opened [] multi_handle refl

MultiSession-IsDeleted_example :
    (opened_multi.multi.handle_list ≡ empty_list 9)
    × IsDeleted tcl
        (λ log. 4)
        libcurl
        prefix
        strokes
        9
        opened_multi
        (multi_delete_cmd tcl (λ log. 4) libcurl opened_multi)
MultiSession-IsDeleted_example =
    MultiSession-IsDeleted tcl (λ log. 4) libcurl prefix strokes 9 first_multi

-- With two events in the queue when the last transfer ends, the post command is evaluated twice.
abbrev two_events : MultiState
two_events = record multi_handle { host = record handle { calls = [] }; queued = 2 }

post_twice :
    (event_proc tcl ask libcurl prefix (event_proc tcl ask libcurl prefix two_events)).host.calls
    ≡ global_eval "puts done" ∷ multi_perform 8 ∷ global_eval "puts done" ∷ multi_perform 8 ∷ []
unfolding event_proc
post_twice = refl
