-- ===== src/Examples.antt =====
-- The theorems at concrete inputs: a small Tcl, a libcurl that accepts every call, and a handle at
-- address 3 beside a share handle with token 1 and one user, the handle at address 2.
pub mod Handles
pub mod Transfers
pub mod Others
pub mod Programs
use tclcurl_ng.Base.{
  ℕ, ◌≡◌, ◌≢◌, suc, zero, refl, sym, ap, ◌∙◌, pos, negsuc, String, [], ◌∷◌, none, some, true, false,
  arith, ◌==◌, if◌then◌else◌, ◌⊎◌, ◌↔◌, ◌≤◌, ◌<◌, length, get_elem?,
}
use tclcurl_ng.Api.{
  get_command_info, Tcl, IsTcl, Answers, Results, Call, fopen, find_index, easy_setopt, constant,
}
use tclcurl_ng.Api.Easy.{blank}
use tclcurl_ng.Api.Monad.{State, ok, error, fault, no_message, ◌>>=◌}
use tclcurl_ng.Share.{Store, link, detach, clean_up}
use tclcurl_ng.Share.Chain.{has}
use tclcurl_ng.Share.Rep.{Users, Rep, leave, join, dissolve}
use tclcurl_ng.Share.Sound.{detach-Rep, link-Rep}
use tclcurl_ng.Share.CleanUp.{clean_up-Rep}
use tclcurl_ng.TclSize.{size_t_to_tcl_size, tcl_size_to_size_t, size_round_trip}
use tclcurl_ng.Options.{Handler, OptionDef, setopt_shandle, setopt_char}
use tclcurl_ng.Options.Choices.{sslversion, ssl_version_of, http_auth_of, proxy_auth_of}
use tclcurl_ng.Options.Choices.Handlers.{choice, handle_http_auth, handle_post_redir}
use tclcurl_ng.Options.Choices.Words.{
  differ, run_handler-injective, TellsApart, handle_post_redir-never_all,
  proxy_auth_of-http_auth_of,
}
use tclcurl_ng.Options.Slists.{header_list, list_option}
use tclcurl_ng.Options.Slists.Branches.{IsField, ListEnd, list_option-ListEnd}
use tclcurl_ng.Options.Sharing.{handle_setopt_shandle}
use tclcurl_ng.Options.Sharing.Users.{handle_setopt_shandle-Rep}
use tclcurl_ng.Options.Run.{set_opts_transfer, config_transfer, run_handler, unless_error}
use tclcurl_ng.Options.Sequence.{config_transfer-append}
use tclcurl_ng.Options.Sound.{IsSound}
use tclcurl_ng.Options.Sound.Commands.{config_transfer-IsSound}
use tclcurl_ng.Options.Table.{curl_option_defs}
use tclcurl_ng.Options.Table.Names.{set_opts_transfer-config_transfer}
use tclcurl_ng.Mime.{add_pairs, curl_form_table}
use tclcurl_ng.Mime.Pairs.{add_pairs-no_fault, add_pairs-fault}
use tclcurl_ng.Callbacks.{progress_callback, take_cancel}
use tclcurl_ng.Callbacks.Body.{run_events-body}
use tclcurl_ng.Callbacks.Events.{body, run_events}
use tclcurl_ng.Transfer.Balance.{one}
use tclcurl_ng.Transfer.{perform}
use tclcurl_ng.Transfer.Perform.{IsTransfer, IsRefusal, perform_lem}
use tclcurl_ng.Multi.{EasyHandleList, easy_handle_list_add, easy_handle_list_remove, get_easy_name}
use tclcurl_ng.Multi.Handles.{Nodes, Holds, get_easy_name-find_name}
use tclcurl_ng.Multi.Remove.{easy_handle_list_remove-Holds}
use tclcurl_ng.Commands.{fits, create_obj_cmd, create_share_obj_cmd, create_multi_obj_cmd}
use tclcurl_ng.Commands.Free.{IsFirstFree, create_commands_lem}
use tclcurl_ng.Share.Command.{Shared, share_obj_cmd}
use tclcurl_ng.Share.Command.Refusal.{IsRefused, IsDeleted, share_obj_cmd-cleanup}

abbrev pub tcl : Tcl
tcl = record {
  get_index = find_index;
  get_int = λ o. some (pos 1);
  get_long = λ o. some (pos 1);
  get_wide = λ o. some (pos 1);
  list_elements = λ o. some (o ∷ []);
  header_line = λ o. none;
  status_line = λ o. none;
  is_set_cookie = λ o. false;
  match_array = λ o. some none;
}

pub tcl-IsTcl : IsTcl tcl
tcl-IsTcl = record { exact = λ table o. refl }

abbrev answer : Call → ℕ
answer (fopen name mode) = 7
answer _ = 0

abbrev pub ask : Answers
ask [] = 0
ask (c ∷ cs) = answer c

abbrev pub results : Results
results = record { int_result = λ cs. some (pos 0); bytes_result = λ cs. [] }

abbrev empty_store : Store
empty_store = record {
  share_token = λ e. 0;
  next_shared = λ e. 0;
  users = λ t. 0;
  shandle = λ t. 9;
  alive = λ t. t == 1;
  limit = 5;
}

abbrev pub nobody : Users
nobody = λ t. []

empty_store-Rep : Rep empty_store nobody
empty_store-Rep = record {
  chain = λ t live. refl;
  distinct = λ t. tt;
  token_of_has = λ t e h. ground arith;
  null_empty = refl;
  has_of_token = λ e n. ground arith;
  token_alive = λ e n. ground arith;
  below_limit = λ t e h. ground arith;
}

abbrev pub one_user : Store
one_user = link 2 1 empty_store

pub one_user-Rep : Rep one_user (join 2 1 nobody)
one_user-Rep = link-Rep 2 1 empty_store-Rep refl (ground arith) refl (ground arith) (ground arith)

abbrev pub handle : State
handle = record {
  easy = record (blank 4 5) { out_file = some "page.html"; out_flag = true };
  self = 3;
  shares = one_user;
  commands = λ o. 1;
  calls = [];
  result = no_message;
}

pub handle-IsSound : IsSound 7 ask handle
unfolding one
handle-IsSound = ground arith

perform_lem_example :
    IsTransfer 7 ask handle
      (perform tcl ask results (body (72 ∷ []) ∷ []) handle).0
      (perform tcl ask results (body (72 ∷ []) ∷ []) handle).1
    ⊎ IsRefusal 7 ask handle
        (perform tcl ask results (body (72 ∷ []) ∷ []) handle).0
        (perform tcl ask results (body (72 ∷ []) ∷ []) handle).1
perform_lem_example = perform_lem 7 tcl ask results handle (body (72 ∷ []) ∷ []) handle-IsSound

clean_up-Rep_example :
    (s' : Store) × (clean_up 1 one_user ≡ some (2 ∷ [], s'))
    × Rep s' (dissolve 1 (join 2 1 nobody))
    × (s'.alive 1 ≡ false)
    × ((e : ℕ) → has e (2 ∷ []) ≡ true → s'.share_token e ≡ 0)
unfolding link
clean_up-Rep_example = clean_up-Rep 1 one_user-Rep refl

detach-Rep_example : Rep (detach 2 one_user) (leave 2 (join 2 1 nobody))
detach-Rep_example = detach-Rep 2 one_user-Rep

link-Rep_example : Rep (link 3 1 one_user) (join 3 1 (join 2 1 nobody))
unfolding link
link-Rep_example = link-Rep 3 1 one_user-Rep refl (ground arith) refl (ground arith) (ground arith)

abbrev share_row : OptionDef
share_row = record {
  option_name = "CURLOPT_SHARE";
  config_name = "-share";
  handler = setopt_shandle;
  curl_opt = "CURLOPT_SHARE";
  error_message = none;
}

handle_setopt_shandle-Rep_example :
    ((l' : Users) × Rep (handle_setopt_shandle ask share_row "scurl1" handle).1.shares l'
      × (has 3 (l' 1) ≡ true)
      × ((handle_setopt_shandle ask share_row "scurl1" handle).0 ≡ ok))
    ⊎ (((handle_setopt_shandle ask share_row "scurl1" handle).1.shares ≡ one_user)
        × ((handle_setopt_shandle ask share_row "scurl1" handle).0 ≡ error))
    ⊎ ((handle.commands "scurl1" ≡ 0)
        × (ask (get_command_info "scurl1" ∷ []) ≢ 0)
        × ((handle_setopt_shandle ask share_row "scurl1" handle).0 ≡ fault))
unfolding link
handle_setopt_shandle-Rep_example =
    handle_setopt_shandle-Rep ask share_row "scurl1" handle (join 2 1 nobody) one_user-Rep
      (ground arith) (ground arith) (λ n. refl)

config_transfer-IsSound_example :
    IsSound 7 ask (config_transfer tcl ask ("-file" ∷ "other.html" ∷ "-infile" ∷ []) handle).1
config_transfer-IsSound_example =
    config_transfer-IsSound tcl ask ("-file" ∷ "other.html" ∷ "-infile" ∷ []) handle handle-IsSound

abbrev url_row : OptionDef
url_row = record {
  option_name = "CURLOPT_URL";
  config_name = "-url";
  handler = setopt_char;
  curl_opt = "CURLOPT_URL";
  error_message = none;
}

url_row_first : get_elem? curl_option_defs 0 ≡ some url_row
unfolding curl_option_defs
url_row_first = refl

set_opts_transfer-config_transfer_example :
    (set_opts_transfer tcl ask "CURLOPT_URL" "http://tcl.tk" handle
      ≡ run_handler tcl ask setopt_char url_row "http://tcl.tk" handle)
    × (config_transfer tcl ask ("-url" ∷ "http://tcl.tk" ∷ []) handle
        ≡ run_handler tcl ask setopt_char url_row "http://tcl.tk" handle)
set_opts_transfer-config_transfer_example =
    set_opts_transfer-config_transfer tcl ask tcl-IsTcl 0 "http://tcl.tk" handle url_row_first

config_transfer-append_example :
    ((config_transfer tcl ask ("-url" ∷ "http://tcl.tk" ∷ []) handle).0 ≢ ok
      → config_transfer tcl ask ("-url" ∷ "http://tcl.tk" ∷ "-unknown" ∷ []) handle
        ≡ config_transfer tcl ask ("-url" ∷ "http://tcl.tk" ∷ []) handle)
    × ((config_transfer tcl ask ("-url" ∷ "http://tcl.tk" ∷ []) handle).0 ≡ ok
        → config_transfer tcl ask ("-url" ∷ "http://tcl.tk" ∷ "-unknown" ∷ []) handle
          ≡ config_transfer tcl ask
              ("-unknown" ∷ [])
              (config_transfer tcl ask ("-url" ∷ "http://tcl.tk" ∷ []) handle).1)
config_transfer-append_example =
    config_transfer-append tcl ask (("-url", "http://tcl.tk") ∷ []) ("-unknown" ∷ []) handle

header_list-IsField : IsField header_list
header_list-IsField = record { read_write = λ l d. refl; curl_write = λ l d. refl }

list_option-ListEnd_example :
    ListEnd tcl ask header_list "CURLOPT_HTTPHEADER" "Accept: text/html" handle
      (list_option tcl ask header_list "CURLOPT_HTTPHEADER" "Header list invalid" none url_row
        "Accept: text/html" handle).0
      (list_option tcl ask header_list "CURLOPT_HTTPHEADER" "Header list invalid" none url_row
        "Accept: text/html" handle).1
list_option-ListEnd_example =
    list_option-ListEnd tcl ask header_list header_list-IsField "CURLOPT_HTTPHEADER"
      "Header list invalid" none url_row "Accept: text/html" handle

run_handler-injective_example :
    (run_handler tcl ask Handler.ssl_version url_row "tlsv1_1" handle).1.calls
    ≢ (run_handler tcl ask Handler.ssl_version url_row "tlsv1_2" handle).1.calls
run_handler-injective_example =
    run_handler-injective tcl ask sslversion ssl_version_of "CURLOPT_SSLVERSION" url_row "tlsv1_1"
      "tlsv1_2" handle tcl-IsTcl TellsApart.ssl_version (ground arith) (ground arith)
      (differ "tlsv1_1" "tlsv1_2" refl)

handle_post_redir-never_all_example :
    (handle_post_redir tcl ask url_row "all" handle).1.calls
    ≢ easy_setopt 4 "CURLOPT_POSTREDIR" (constant "CURL_REDIR_POST_ALL") ∷ []
handle_post_redir-never_all_example =
    handle_post_redir-never_all tcl ask url_row "all" handle tcl-IsTcl

proxy_auth_of-http_auth_of_example : (proxy_auth_of 1 ≡ http_auth_of 1) ↔ (1 < 2)
proxy_auth_of-http_auth_of_example = proxy_auth_of-http_auth_of 1 (ground arith)

add_pairs-no_fault_example :
    (add_pairs tcl ask url_row 8 ("name" ∷ "login" ∷ "contents" ∷ "me" ∷ []) handle).0 ≢ fault
add_pairs-no_fault_example =
    add_pairs-no_fault tcl ask url_row 8 (("name", "login") ∷ ("contents", "me") ∷ []) handle

add_pairs-fault_example :
    ((add_pairs tcl ask url_row 8 ("name" ∷ "login" ∷ "contents" ∷ []) handle).0 ≡ fault) ↔ (
      ((add_pairs tcl ask url_row 8 ("name" ∷ "login" ∷ []) handle).0 ≡ ok)
      × (tcl.get_index curl_form_table "contents" ≢ none))
add_pairs-fault_example =
    add_pairs-fault tcl ask url_row 8 (("name", "login") ∷ []) "contents" handle

run_events-body_example :
    ((run_events tcl ask results
        (body (72 ∷ 105 ∷ []) ∷ body (33 ∷ []) ∷ [])
        handle).1.easy.body_var.memory
      ≡ 72 ∷ 105 ∷ 33 ∷ [])
    × ((run_events tcl ask results
          (body (72 ∷ 105 ∷ []) ∷ body (33 ∷ []) ∷ [])
          handle).1.easy.body_var.size
        ≡ length
            (run_events tcl ask results
              (body (72 ∷ 105 ∷ []) ∷ body (33 ∷ []) ∷ [])
              handle).1.easy.body_var.memory)
run_events-body_example =
    run_events-body tcl ask results ((72 ∷ 105 ∷ []) ∷ (33 ∷ []) ∷ []) handle refl

size_round_trip_example :
    (size_t_to_tcl_size 100 7 ≡ some (pos 7)) ↔ ((tcl_size_to_size_t (pos 7) ≡ some 7) × (7 ≤ 100))
size_round_trip_example = size_round_trip 100 7 (pos 7)

abbrev pub no_handles : EasyHandleList
no_handles = record { first = 0; last = 0; curl = λ p. 0; name = λ p. ""; next = λ p. 0; limit = 9 }

pub no_handles-Nodes : Nodes no_handles []
no_handles-Nodes = record {
  chain = refl;
  distinct = tt;
  last_node = refl;
  below_limit = λ a h. ground arith;
}

abbrev pub no_handles_held : Holds no_handles []
no_handles_held = record { nodes = []; linked = no_handles-Nodes; held = refl }

abbrev pub two_handles : EasyHandleList
two_handles = record {
  first = 3;
  last = 5;
  curl = λ p. if p == 3 then 40 else 50;
  name = λ p. if p == 3 then "curl0" else "curl1";
  next = λ p. if p == 3 then 5 else 0;
  limit = 9;
}

pub two_handles-Nodes : Nodes two_handles (3 ∷ 5 ∷ [])
two_handles-Nodes = record {
  chain = (refl, ground arith, (refl, ground arith, refl));
  distinct = (refl, (refl, tt));
  last_node = refl;
  below_limit = λ a h. ground arith;
}

abbrev pub two_handles-Holds : Holds two_handles ((40, "curl0") ∷ (50, "curl1") ∷ [])
two_handles-Holds = record { nodes = 3 ∷ 5 ∷ []; linked = two_handles-Nodes; held = refl }

easy_handle_list_remove-Holds_example :
    (s' : EasyHandleList) × (easy_handle_list_remove 50 two_handles ≡ some s')
    × Holds s' ((40, "curl0") ∷ [])
easy_handle_list_remove-Holds_example =
    easy_handle_list_remove-Holds 50 two_handles ((40, "curl0") ∷ (50, "curl1") ∷ [])
      two_handles-Holds

get_easy_name-find_name_example : get_easy_name 50 two_handles ≡ some (some "curl1")
get_easy_name-find_name_example =
    get_easy_name-find_name 50 two_handles ((40, "curl0") ∷ (50, "curl1") ∷ []) two_handles-Holds

-- A stand-in for snprintf: the number in strokes.
abbrev pub strokes : ℕ → String
strokes zero = String.[]
strokes (suc n) = String.◌∷◌ "i" (strokes n)

abbrev tally : String → ℕ
tally String.[] = 0
tally (String.◌∷◌ c s) = suc (tally s)

tally-strokes : (n : ℕ) → tally (strokes n) ≡ n
tally-strokes zero = refl
tally-strokes (suc n) = ap suc (tally-strokes n)

pub strokes_injective : (i j : ℕ) → strokes i ≡ strokes j → i ≡ j
strokes_injective i j e = sym (tally-strokes i) ∙ ap tally e ∙ tally-strokes j

short_strokes : (j : ℕ) → 1 ≤ j → j < 4 → fits (strokes j) ≡ true
short_strokes zero low high = refl
short_strokes (suc zero) low high = refl
short_strokes (suc (suc zero)) low high = refl
short_strokes (suc (suc (suc zero))) low high = refl
short_strokes (suc (suc (suc (suc j)))) low high = absurd (omega (arith, high))

create_commands_lem_example :
    IsFirstFree strokes ("" ∷ "i" ∷ []) 0 (create_obj_cmd strokes ("" ∷ "i" ∷ []))
    × IsFirstFree strokes ("" ∷ "i" ∷ []) 1 (create_share_obj_cmd strokes ("" ∷ "i" ∷ []))
    × IsFirstFree strokes ("" ∷ "i" ∷ []) 1 (create_multi_obj_cmd strokes ("" ∷ "i" ∷ []))
create_commands_lem_example =
    create_commands_lem strokes strokes_injective ("" ∷ "i" ∷ []) short_strokes

abbrev pub shared : Shared
shared = record { store = one_user; calls = []; result = no_message }

share_obj_cmd-cleanup_example :
    (IsRefused shared (share_obj_cmd tcl (λ e. 4) 1 ("cleanup" ∷ []) shared)
      × (join 2 1 nobody 1 ≢ []))
    ⊎ (IsDeleted 1 (join 2 1 nobody) shared (share_obj_cmd tcl (λ e. 4) 1 ("cleanup" ∷ []) shared)
        × (join 2 1 nobody 1 ≡ []))
unfolding link
share_obj_cmd-cleanup_example =
    share_obj_cmd-cleanup tcl (λ e. 4) 1 shared (join 2 1 nobody) tcl-IsTcl one_user-Rep refl
