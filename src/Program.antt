-- ===== src/Program.antt =====
-- All easy and share handles of an interpreter, and what a script, libcurl and Tcl may do to them. A
-- command works on the struct of its own handle; the links in between are in one store.
pub mod Share
pub mod Links
pub mod Kept
pub mod Steps
use tclcurl_ng.Base.{
  ℕ, ℤ, ◌<◌, ◌≡◌, ◌≢◌, String, List, [], ◌∷◌, Option, none, some, Bool, true, false, ◌==◌, str_eq,
  if◌then◌else◌,
}
use tclcurl_ng.Api.{Tcl, Answers, Results, Infos, MultiAnswers, Call, create_command, share_init}
use tclcurl_ng.Api.Easy.{CurlObjData}
use tclcurl_ng.Api.Monad.{State, Message, Status, ok, error, fault, literal, no_message}
use tclcurl_ng.Callbacks.Events.{Event, run_events}
use tclcurl_ng.Handle.{Created, Duplicate, init_obj_cmd, delete_cmd}
use tclcurl_ng.Handle.Command.{Situation, Reply, curl_obj_cmd}
use tclcurl_ng.Handle.Session.{ends}
use tclcurl_ng.Multi.Command.{add_multi_handle, remove_multi_handle}
use tclcurl_ng.Multi.Monad.{MultiState}
use tclcurl_ng.Share.{Store, update, clear_links}
use tclcurl_ng.Share.Command.{Shared, share_obj_cmd, clean_up_share_cmd}
use tclcurl_ng.Share.Init.{share_init_obj_cmd}

-- The structs of the easy handles by their addresses, the links, the token of the share handle behind
-- each command name, the log of calls and the interpreter's result.
pub record Program : Type 0 where
  pub easy : ℕ → Option CurlObjData
  pub shares : Store
  pub commands : String → ℕ
  pub calls : List Call
  pub result : Message

-- No handles.
abbrev pub nothing : (limit : ℕ) → Program
nothing limit = record {
  easy = λ e. none;
  shares = record {
    share_token = λ e. 0;
    next_shared = λ e. 0;
    users = λ t. 0;
    shandle = λ t. 0;
    alive = λ t. false;
    limit = limit;
  };
  commands = λ o. 0;
  calls = [];
  result = no_message;
}

-- An address of the store that no handle has, such as Tcl_Alloc returns.
pub record IsUnused (p : Program) (e : ℕ) : Type 0 where
  pub unused : p.easy e ≡ none
  pub positive : 0 < e
  pub below : e < p.shares.limit

-- A function of the handle at `e` starts on its struct, and ends with the handles `easy`.
abbrev pub enter : Program → ℕ → CurlObjData → State
enter p e d = record {
  easy = d;
  self = e;
  shares = p.shares;
  commands = p.commands;
  calls = p.calls;
  result = p.result;
}

abbrev pub leave : (ℕ → Option CurlObjData) → State → Program
leave easy s = record {
  easy = easy;
  shares = s.shares;
  commands = s.commands;
  calls = s.calls;
  result = s.result;
}

abbrev pub put : ℕ → Program → State → Program
put e p s = leave (update p.easy e (some s.easy)) s

abbrev pub place : ℕ → Option Duplicate → (ℕ → Option CurlObjData) → ℕ → Option CurlObjData
place new none easy = easy
place new (some copy) easy = update easy new (some copy.easy)

abbrev pub if_created : Option Created → CurlObjData → Option CurlObjData
if_created none d = none
if_created (some created) d = some d

-- The state that the functions of a share handle see.
abbrev pub shared : Program → Shared
shared p = record { store = p.shares; calls = p.calls; result = p.result }

abbrev pub curl_of : Option CurlObjData → ℕ
curl_of none = 0
curl_of (some d) = d.curl

-- Tcl forgets the name of a deleted command.
abbrev pub forget : ℕ → (String → ℕ) → String → ℕ
forget t commands o = if commands o == t then 0 else commands o

abbrev pub names_left : ℕ → Store → (String → ℕ) → String → ℕ
names_left t store commands = if store.alive t then commands else forget t commands

abbrev pub bind : ℕ → Message → (String → ℕ) → String → ℕ
bind t (literal name) commands o = if str_eq o name then t else commands o
bind t _ commands o = commands o

abbrev pub bind_name : ℕ → Status → Message → (String → ℕ) → String → ℕ
bind_name t ok said commands = bind t said commands
bind_name t error _ commands = commands
bind_name t fault _ commands = commands

abbrev pub end_share : (t : ℕ) → Program → Shared → Program
end_share t p s = record p {
  shares = s.store;
  commands = names_left t s.store p.commands;
  calls = s.calls;
  result = s.result;
}

module _ (tcl : Tcl) (ask : Answers) (results : Results) (infos : Infos) (libcurl : MultiAnswers)
    (print : ℕ → String) where
  -- curl::init, with a struct at `e` that holds any memory: memset clears its links too.
  unfoldable pub create :
      (e : ℕ) → (taken : List String) → (memory : CurlObjData) → Program → Program
  create e taken memory p =
      let p' = record p { shares = clear_links e p.shares } in
      let (created, s) = init_obj_cmd ask print taken (enter p' e memory) in
      leave (update p.easy e (if_created created s.easy)) s

  -- The command of the handle at `e`.
  unfoldable pub obey : Situation → (e : ℕ) → CurlObjData → List String → Program → Program
  obey world e d args p =
      let r = curl_obj_cmd tcl ask results infos print world args (enter p e d) in
      leave (place world.new r.0.1 (update p.easy e (if ends args then none else some r.1.easy)))
        r.1

  -- Tcl deletes the command of the handle at `e` by itself, such as by rename.
  unfoldable pub delete : (e : ℕ) → CurlObjData → Program → Program
  delete e d p = let r = delete_cmd ask (enter p e d) in leave (update p.easy e none) r.1

  -- curl::shareinit; `t` is the token of the new command.
  unfoldable pub create_share : (t : ℕ) → (taken : List String) → Program → Program
  create_share t taken p =
      let (status, s) = share_init_obj_cmd ask print taken (shared p) in
      record p {
        shares = s.store;
        commands = bind_name t status s.result p.commands;
        calls = s.calls;
        result = s.result;
      }

  -- The command of the share handle `t`.
  unfoldable pub obey_share : (t : ℕ) → List String → Program → Program
  obey_share t args p =
      end_share t p (share_obj_cmd tcl (λ e. curl_of (p.easy e)) t args (shared p)).1

  -- Tcl deletes the command of the share handle `t` by itself.
  unfoldable pub delete_share : (t : ℕ) → Program → Program
  delete_share t p = end_share t p (clean_up_share_cmd (λ e. curl_of (p.easy e)) t (shared p))

  -- A step. No command of an easy handle ends in a fault. Multi handles take an easy handle in and give it back, and while one of them performs
  -- libcurl calls procedures of an easy handle back.
  pub data Step : Program → Program → Type 0 where
    created :
        (p : Program) (e : ℕ) (taken : List String) (memory : CurlObjData)
        → IsUnused p e
        → Step p (create e taken memory p)
    obeyed :
        (p : Program) (e : ℕ) (d : CurlObjData) (world : Situation) (args : List String)
        → p.easy e ≡ some d
        → IsUnused p world.new
        → (curl_obj_cmd tcl ask results infos print world args (enter p e d)).0.0 ≢ fault
        → Step p (obey world e d args p)
    called_back :
        (p : Program) (e : ℕ) (d : CurlObjData) (events : List Event)
        → p.easy e ≡ some d
        → Step p (put e p (run_events tcl ask results events (enter p e d)).1)
    added :
        (p : Program) (e : ℕ) (d : CurlObjData) (node : ℕ) (name : String) (m after : MultiState)
        (code : ℤ)
        → p.easy e ≡ some d
        → m.host ≡ enter p e d
        → add_multi_handle tcl ask libcurl node name m ≡ some (code, after)
        → Step p (put e p after.host)
    removed :
        (p : Program) (e : ℕ) (d : CurlObjData) (m after : MultiState) (code : ℤ)
        → p.easy e ≡ some d
        → m.host ≡ enter p e d
        → remove_multi_handle tcl ask libcurl m ≡ some (code, after)
        → Step p (put e p after.host)
    deleted : (p : Program) (e : ℕ) (d : CurlObjData) → p.easy e ≡ some d → Step p (delete e d p)
    share_created :
        (p : Program) (t : ℕ) (taken : List String)
        → t ≢ 0
        → p.shares.alive t ≡ false
        → ((name : String) → ask (create_command name ∷ share_init ∷ p.calls) ≡ t)
        → Step p (create_share t taken p)
    share_obeyed :
        (p : Program) (t : ℕ) (args : List String)
        → p.shares.alive t ≡ true
        → Step p (obey_share t args p)
    share_deleted : (p : Program) (t : ℕ) → p.shares.alive t ≡ true → Step p (delete_share t p)

  -- The states of a program that starts without handles.
  pub data Reach (limit : ℕ) : Program → Type 0 where
    started : Reach limit (nothing limit)
    continued : {p q : Program} → Reach limit p → Step p q → Reach limit q
