-- ===== src/Handle/Links.antt =====
-- What deleting, resetting and duplicating an easy handle does to the links between easy and share
-- handles, and that getinfo leaves them alone.
pub mod Outcome
use tclcurl_ng.Base.{
  ℕ, ◌<◌, ◌≡◌, ◌≢◌, refl, sym, ap, ◌∙◌, String, List, [], ◌∷◌, Option, none, some, Bool, true,
  false, arith, ◌==◌, ==_iff, Bool-cases, Option-cases, inl, inr,
}
use tclcurl_ng.Api.{
  Tcl, IsTcl, Answers, Results, Infos, Value, Call, find_index, easy_duphandle, easy_cleanup,
  easy_reset, easy_pause, delete_command, create_command,
}
use tclcurl_ng.Api.Easy.{CurlObjData, blank}
use tclcurl_ng.Api.Monad.{State, Status, literal, when, call, ◌>>◌, pure}
use tclcurl_ng.Commands.{create_obj_cmd}
use tclcurl_ng.Handle.{
  Duplicate, call_all, free_space, freed, delete_cmd, reset_handle, copy_links, copy_curl_data,
  name_duplicate, dup_handle,
}
use tclcurl_ng.Handle.Copy.{users_with, dup_handle-IsDuplicated}
use tclcurl_ng.Handle.Command.{
  CmdId, setopt, perform, getinfo, cleanup, configure, duphandle, reset, pause, resume,
  command_table, Situation, wrong, accepts_pairs, report_error, perform_cmd, info_reply,
  cleanup_cmd, duplicate_reply, pause_cmd, run_cmd, run_found, cmd_at, curl_obj_cmd, Reply,
}
use tclcurl_ng.Info.{InfoKind, read_info, get_info_case, get_info_at, get_info}
use tclcurl_ng.Info.Answer.{get_info_lem}
use tclcurl_ng.Options.Sharing.{detach_share_handle}
use tclcurl_ng.Options.Sharing.Users.{detach_share_handle_lem, detach-Alike}
use tclcurl_ng.Options.Untouched.{Untouched, Untouched-trans, Untouched-refl, unlinked}
use tclcurl_ng.Options.Untouched.Links.{
  Linked, Rearranged, Moved, Moved-refl, Moved-trans, Untouched-Moved, Rearranged-Linked,
  detach_share_handle-Moved, set_opts_transfer-Moved, config_transfer-Moved,
}
use tclcurl_ng.Share.{Store, link, update}
use tclcurl_ng.Share.Rep.{Users, Rep}
use tclcurl_ng.Transfer
use tclcurl_ng.Transfer.Untouched.{perform-Untouched}

call_all-Untouched :
    (ask : Answers) (cs : List Call) (s : State) → Untouched s (call_all ask cs s).1
unfolding call_all
call_all-Untouched ask [] s = Untouched-refl
call_all-Untouched ask (c ∷ cs) s =
    Untouched-trans unlinked (call_all-Untouched ask cs (record s { calls = c ∷ s.calls }))

module _ (ask : Answers) (s : State) where
  abbrev detached : State
  detached = (detach_share_handle ask s).1

  pub free_space-Untouched : (d : CurlObjData) → Untouched s (free_space ask d s).1
  unfolding free_space
  free_space-Untouched d = call_all-Untouched ask (freed d) s

module _ (ask : Answers) (s : State) where
  pub delete_cmd-Moved : Moved s (delete_cmd ask s).1
  unfolding delete_cmd
  delete_cmd-Moved =
      let s1 = detached ask s in
      let s2 : State = record s1 { calls = easy_cleanup s1.easy.curl ∷ s1.calls } in
      Moved-trans (detach_share_handle-Moved ask s)
        (Untouched-Moved (Untouched-trans unlinked (free_space-Untouched ask s2 s1.easy)))

  pub delete_cmd-alone : (delete_cmd ask s).1.shares.share_token s.self ≡ 0
  unfolding delete_cmd
  delete_cmd-alone =
      let s1 = detached ask s in
      let s2 : State = record s1 { calls = easy_cleanup s1.easy.curl ∷ s1.calls } in
      let freed = (free_space-Untouched ask s2 s1.easy).same_shares in
      ap (λ (x : Store). x.share_token s.self) freed
      ∙ ap (λ (x : Store). x.share_token s.self) (detach_share_handle_lem ask s)
      ∙ (detach-Alike s.self s.shares).1

  pub reset_handle-Moved : Moved s (reset_handle ask s).1
  unfolding reset_handle
  reset_handle-Moved =
      let s1 = detached ask s in
      Moved-trans (detach_share_handle-Moved ask s)
        (Untouched-Moved (Untouched-trans (free_space-Untouched ask s1 s1.easy) unlinked))

module _ (tcl : Tcl) (ask : Answers) (infos : Infos) where
  pub get_info-Untouched :
      (word : String) (s : State) → IsTcl tcl → Untouched s (get_info tcl ask infos word s).1
  get_info-Untouched word s exact = elim (get_info_lem tcl exact ask infos word s) [
    | inl unknown ↦ rw unknown.result unlinked
    | inr (inl refused) ↦ rw refused.result unlinked
    | inr (inr answered) ↦ rw answered.result unlinked
  ]

-- What duphandle leaves of the links: only the new handle has another share handle.
pub record Framed (new : ℕ) (before after : State) : Type 0 where
  pub alike :
      (after.shares.alive ≡ before.shares.alive) × (after.shares.limit ≡ before.shares.limit)
  pub same_self : after.self ≡ before.self
  pub same_commands : after.commands ≡ before.commands
  pub others : (j : ℕ) → j ≢ new → after.shares.share_token j ≡ before.shares.share_token j

Untouched-Framed : {new : ℕ} {a b c : State} → Framed new a b → Untouched b c → Framed new a c
Untouched-Framed {new} {a} f u = record {
  alike = rw u.same_shares f.alike;
  same_self = u.same_self ∙ f.same_self;
  same_commands = u.same_commands ∙ f.same_commands;
  others = rw u.same_shares f.others;
}

module _ (ask : Answers) (print : ℕ → String) (taken : List String) where
  name_duplicate-Untouched :
      (copy : CurlObjData) (s : State) → Untouched s (name_duplicate ask print copy taken s).1
  unfolding name_duplicate
  name_duplicate-Untouched copy s = elim (Option-cases (create_obj_cmd print taken)) [
    | inl e ↦ rw e unlinked
    | inr ((name, names), e) ↦ rw e unlinked
  ]

  module _ (new : ℕ) (s : State) where
    abbrev copied : List Call → State
    copied calls = record s { calls = calls; shares = copy_links s.self new s.shares }

    abbrev linked : List Call → State
    linked calls = record s {
      calls = calls;
      shares = link new (s.shares.share_token s.self) (copy_links s.self new s.shares);
    }

    copied-Framed : (calls : List Call) → Framed new s (copied calls)
    copied-Framed calls = record {
      alike = (refl, refl);
      same_self = refl;
      same_commands = refl;
      others = λ j n. ground arith;
    }

    linked-Framed : (calls : List Call) → Framed new s (linked calls)
    unfolding link
    linked-Framed calls = record {
      alike = (refl, refl);
      same_self = refl;
      same_commands = refl;
      others = λ j n. ground arith;
    }

    pub dup_handle-Framed : Framed new s (dup_handle ask print new taken s).1
    unfolding dup_handle
    dup_handle-Framed =
        let calls = easy_duphandle s.easy.curl ∷ s.calls in
        let t = s.shares.share_token s.self in
        let copy = record (copy_curl_data s.easy) { curl = ask calls } in
        let alone = name_duplicate-Untouched copy (copied calls) in
        let shared = name_duplicate-Untouched copy (linked calls) in
        let ended = free_space-Untouched ask (copied (easy_cleanup (ask calls) ∷ calls)) copy in
        elim (Bool-cases (ask calls == 0)) [
          | inl refused ↦ rw refused (record {
            alike = (refl, refl);
            same_self = refl;
            same_commands = refl;
            others = λ j n. refl;
          })
          | inr given ↦ elim (Bool-cases (t == 0)) [
            | inl free ↦ rw (given, free) (Untouched-Framed (copied-Framed calls) alone)
            | inr used ↦ elim (Bool-cases (s.shares.alive t)) [
              | inl live ↦ rw (given, used, live) (Untouched-Framed (linked-Framed calls) shared)
              | inr dead ↦
                  rw (given, used, dead)
                    (Untouched-Framed (copied-Framed (easy_cleanup (ask calls) ∷ calls))
                      (Untouched-trans ended unlinked))
            ]
          ]
        ]
