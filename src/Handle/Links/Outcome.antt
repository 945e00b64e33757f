-- ===== src/Handle/Links/Outcome.antt =====
-- What each command of an easy handle does to the links between easy and share handles.
use tclcurl_ng.Base.{
  ℕ, ◌<◌, ◌≡◌, ◌≢◌, ◌∙◌, String, List, [], ◌∷◌, Option, none, some, ◌==◌, Bool-cases, inl, inr,
}
use tclcurl_ng.Api.{Tcl, IsTcl, Answers, Results, Infos, Value, easy_pause, delete_command}
use tclcurl_ng.Api.Monad.{State, Status}
use tclcurl_ng.Handle.{Duplicate, dup_handle}
use tclcurl_ng.Handle.Copy.{users_with, dup_handle-IsDuplicated}
use tclcurl_ng.Handle.Command.{
  CmdId, setopt, perform, getinfo, cleanup, configure, duphandle, reset, pause, resume,
  command_table, Situation, wrong, accepts_pairs, report_error, perform_cmd, info_reply,
  cleanup_cmd, duplicate_reply, pause_cmd, run_cmd, run_found, cmd_at, curl_obj_cmd,
}
use tclcurl_ng.Handle.Links.{
  delete_cmd-Moved, delete_cmd-alone, reset_handle-Moved, get_info-Untouched, Framed,
  dup_handle-Framed,
}
use tclcurl_ng.Info.{get_info}
use tclcurl_ng.Options.Untouched.{Untouched, Untouched-trans, Untouched-refl, unlinked}
use tclcurl_ng.Options.Untouched.Links.{
  Linked, Moved, Moved-trans, Untouched-Moved, set_opts_transfer-Moved, config_transfer-Moved,
}
use tclcurl_ng.Share.Rep.{Users, Rep}
use tclcurl_ng.Transfer
use tclcurl_ng.Transfer.Untouched.{perform-Untouched}

-- What a command of a handle leaves of the links, where `new` is the address of a duplicate.
pub record Outcome (new : ℕ) (before : State) (copy : Option Duplicate) (after : State)
    : Type 0 where
  pub alive : after.shares.alive ≡ before.shares.alive
  pub limit : after.shares.limit ≡ before.shares.limit
  pub same_commands : after.commands ≡ before.commands
  pub others :
      (j : ℕ) → j ≢ before.self → j ≢ new → after.shares.share_token j ≡ before.shares.share_token j
  pub spare : copy ≡ none → after.shares.share_token new ≡ 0
  pub kept : Linked after

-- The address of a duplicate is one of the store that no handle has.
pub record IsFresh (new : ℕ) (s : State) : Type 0 where
  pub free : s.shares.share_token new ≡ 0
  pub positive : 0 < new
  pub below : new < s.shares.limit
  pub apart : new ≢ s.self

module _ (ask : Answers) (print : ℕ → String) (injective : (i j : ℕ) → print i ≡ print j → i ≡ j)
    (new : ℕ) (s : State) (v : Linked s) (f : IsFresh new s) where
  Moved-Outcome :
      {after : State} (copy : Option Duplicate) → Moved s after → Outcome new s copy after
  Moved-Outcome copy m = record {
    alive = m.change.alike.0;
    limit = m.change.alike.1;
    same_commands = m.change.same_commands;
    others = λ j n n'. m.change.others j n;
    spare = λ e. m.change.others new f.apart ∙ f.free;
    kept = m.keep v;
  }

  Framed-Outcome :
      {after : State} (l : Users) (copy : Option Duplicate)
      → Framed new s after
      → Rep after.shares l
      → (copy ≡ none → after.shares.share_token new ≡ 0)
      → Outcome new s copy after
  Framed-Outcome l copy r rep spare = record {
    alive = r.alike.0;
    limit = r.alike.1;
    same_commands = r.same_commands;
    others = λ j n n'. r.others j n';
    spare = spare;
    kept = record {
      users = l;
      rep = rep;
      positive = rw r.same_self v.positive;
      below = rw (r.same_self, r.alike.1) v.below;
      live = rw (r.same_commands, r.alike.0) v.live;
    };
  }

  dup_handle-Outcome :
      (taken : List String)
      → Outcome new s (dup_handle ask print new taken s).0 (dup_handle ask print new taken s).1
  dup_handle-Outcome taken =
      let frame = dup_handle-Framed ask print taken new s in
      let r = dup_handle ask print new taken s in
      elim (dup_handle-IsDuplicated ask print taken new v.users s injective v.rep f.free f.positive
        f.below) [
          | inl none_made ↦
              Framed-Outcome v.users r.0 frame (rw none_made.same_shares v.rep)
                (λ e. rw none_made.same_shares f.free)
          | inr made ↦
              Framed-Outcome (users_with s.self new s.shares v.users) r.0 frame made.users
                (λ e. cc (e, made.made))
        ]

module _ (tcl : Tcl) (exact : IsTcl tcl) (ask : Answers) (results : Results) (infos : Infos)
    (print : ℕ → String) (world : Situation) where
  report_error-Untouched :
      (s : State) → Untouched s (report_error tcl ask results infos print world s).1
  unfolding report_error
  report_error-Untouched s = elim (Bool-cases s.easy.error_buffer) [
    | inl wanted ↦ rw wanted unlinked
    | inr unwanted ↦ rw unwanted unlinked
  ]

  perform_cmd-Untouched :
      (s : State) → Untouched s (perform_cmd tcl ask results infos print world s).1
  unfolding perform_cmd
  perform_cmd-Untouched s =
      let r = Transfer.perform tcl ask results world.events s in
      let u = perform-Untouched tcl ask results world.events s in
      elim (Bool-cases (r.0 == 0)) [
        | inl fine ↦ rw fine u
        | inr failed ↦ rw failed (Untouched-trans u (report_error-Untouched r.1))
      ]

  pause_cmd-Untouched :
      (mask : String) (s : State)
      → Untouched s (pause_cmd tcl ask results infos print world mask s).1
  unfolding pause_cmd
  pause_cmd-Untouched mask s =
      elim (Bool-cases (ask (easy_pause s.easy.curl mask ∷ s.calls) == 1)) [
        | inl failed ↦ rw failed unlinked
        | inr fine ↦ rw fine unlinked
      ]

  info_reply-Untouched :
      (o : Option Value) {s t : State}
      → Untouched s t
      → Untouched s (info_reply tcl ask results infos print world o t).1
  info_reply-Untouched none u = u
  info_reply-Untouched (some value) u = Untouched-trans u unlinked

  wrong-Untouched : (message : String) (s : State) → Untouched s (wrong message s).1
  unfolding wrong
  wrong-Untouched message s = unlinked

  cleanup_cmd-Moved : (s : State) → Moved s (cleanup_cmd tcl ask results infos print world s).1
  unfolding cleanup_cmd
  cleanup_cmd-Moved s =
      Moved-trans (Untouched-Moved unlinked)
        (delete_cmd-Moved ask (record s { calls = delete_command s.easy.token ∷ s.calls }))

  cleanup_cmd-alone :
      (s : State)
      → (cleanup_cmd tcl ask results infos print world s).1.shares.share_token s.self ≡ 0
  unfolding cleanup_cmd
  cleanup_cmd-alone s =
      delete_cmd-alone ask (record s { calls = delete_command s.easy.token ∷ s.calls })

module _ (tcl : Tcl) (exact : IsTcl tcl) (ask : Answers) (results : Results) (infos : Infos)
    (print : ℕ → String) (injective : (i j : ℕ) → print i ≡ print j → i ≡ j) (world : Situation)
    (s : State) (v : Linked s) (f : IsFresh world.new s) where
  abbrev Ends : (Status × Option Duplicate) × State → Type 0
  Ends r = Outcome world.new s r.0.1 r.1

  moved : {after : State} {copy : Option Duplicate} → Moved s after → Outcome world.new s copy after
  moved {copy} m = Moved-Outcome ask print injective world.new s v f copy m

  untouched :
      {after : State} {copy : Option Duplicate} → Untouched s after → Outcome world.new s copy after
  untouched u = moved (Untouched-Moved u)

  wrong-Outcome : (message : String) → Ends (wrong message s)
  unfolding wrong
  wrong-Outcome message = untouched unlinked

  duplicate_reply-Outcome :
      (o : Option Duplicate) (t : State)
      → Outcome world.new s o t
      → Ends (duplicate_reply tcl ask results infos print world o t)
  duplicate_reply-Outcome none t w = w
  duplicate_reply-Outcome (some copy) t w = w

  run_cmd-Outcome :
      (id : CmdId) (args : List String) → Ends (run_cmd tcl ask results infos print world id args s)
  unfolding run_cmd
  run_cmd-Outcome setopt [] = wrong-Outcome "option value"
  run_cmd-Outcome setopt (a ∷ []) = wrong-Outcome "option value"
  run_cmd-Outcome setopt (a ∷ b ∷ []) = moved (set_opts_transfer-Moved tcl ask a b s)
  run_cmd-Outcome setopt (a ∷ b ∷ c ∷ args) = wrong-Outcome "option value"
  run_cmd-Outcome getinfo [] = wrong-Outcome "option"
  run_cmd-Outcome getinfo (a ∷ []) =
      let r = get_info tcl ask infos a s in
      untouched (
        info_reply-Untouched tcl exact ask results infos print world r.0
          (get_info-Untouched tcl ask infos a s exact))
  run_cmd-Outcome getinfo (a ∷ b ∷ args) = wrong-Outcome "option"
  run_cmd-Outcome configure args = elim (Bool-cases (accepts_pairs args)) [
    | inl pairs ↦ rw pairs (moved (config_transfer-Moved tcl ask args s))
    | inr odd ↦ rw odd (wrong-Outcome "option value ?option value ...?")
  ]
  run_cmd-Outcome perform [] =
      untouched (perform_cmd-Untouched tcl exact ask results infos print world s)
  run_cmd-Outcome perform (a ∷ args) = wrong-Outcome ""
  run_cmd-Outcome cleanup [] = moved (cleanup_cmd-Moved tcl exact ask results infos print world s)
  run_cmd-Outcome cleanup (a ∷ args) = wrong-Outcome ""
  run_cmd-Outcome duphandle [] =
      let r = dup_handle ask print world.new world.taken s in
      duplicate_reply-Outcome r.0 r.1
        (dup_handle-Outcome ask print injective world.new s v f world.taken)
  run_cmd-Outcome duphandle (a ∷ args) = wrong-Outcome ""
  run_cmd-Outcome reset [] = moved (reset_handle-Moved ask s)
  run_cmd-Outcome reset (a ∷ args) = wrong-Outcome ""
  run_cmd-Outcome pause [] =
      untouched (pause_cmd-Untouched tcl exact ask results infos print world "CURLPAUSE_ALL" s)
  run_cmd-Outcome pause (a ∷ args) = wrong-Outcome ""
  run_cmd-Outcome resume [] =
      untouched (pause_cmd-Untouched tcl exact ask results infos print world "CURLPAUSE_CONT" s)
  run_cmd-Outcome resume (a ∷ args) = wrong-Outcome ""

  run_found-Outcome :
      (o : Option CmdId) (args : List String)
      → Ends (run_found tcl ask results infos print world o args s)
  unfolding run_found
  run_found-Outcome none args = untouched Untouched-refl
  run_found-Outcome (some id) args = run_cmd-Outcome id args

  -- Any words given to a handle whose links are sound: the links stay sound, only the handle and a
  -- duplicate may have another share handle, and no share handle appears or goes away.
  pub curl_obj_cmd-Outcome :
      (args : List String) → Ends (curl_obj_cmd tcl ask results infos print world args s)
  unfolding curl_obj_cmd
  curl_obj_cmd-Outcome [] = wrong-Outcome "option arg ?arg?"
  curl_obj_cmd-Outcome (word ∷ args) =
      run_found-Outcome (cmd_at (tcl.get_index command_table word)) args

module _ (tcl : Tcl) (exact : IsTcl tcl) (ask : Answers) (results : Results) (infos : Infos)
    (print : ℕ → String) (world : Situation) (s : State) where
  -- The word cleanup cuts the handle off.
  pub curl_obj_cmd-cleanup :
      (curl_obj_cmd tcl ask results infos print world ("cleanup" ∷ []) s).1.shares.share_token
        s.self
      ≡ 0
  unfolding curl_obj_cmd run_found run_cmd
  curl_obj_cmd-cleanup =
      rw (exact.exact command_table "cleanup")
        (cleanup_cmd-alone tcl exact ask results infos print world s)
