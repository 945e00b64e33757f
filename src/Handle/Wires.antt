-- ===== src/Handle/Wires.antt =====
-- What the words of curlObjCmd in generic/tclcurl.c do to the function for received data and its
-- argument.
pub mod Lifetime
use tclcurl_ng.Base.{
  ℕ, ◌≡◌, ◌≢◌, refl, ap, String, List, [], ◌∷◌, Option, none, some, Bool, true, false, arith, inl,
  inr, ◌==◌, ◌&&◌, Bool-cases, Option-cases,
}
use tclcurl_ng.Api.{
  Tcl, IsTcl, Answers, Results, Infos, Value, Call, easy_pause, delete_command, easy_init,
  global_init, easy_duphandle, easy_cleanup, easy_reset, easy_getinfo, set_error_buffer,
}
use tclcurl_ng.Api.Easy.{CurlObjData, blank}
use tclcurl_ng.Api.Monad.{State, Status}
use tclcurl_ng.Commands.{create_obj_cmd}
use tclcurl_ng.Handle.{
  Duplicate, dup_handle, call_all, free_space, freed, free_memory, free_cancel_var, free_mime,
  delete_cmd, reset_handle, copy_links, copy_curl_data, name_duplicate, init_obj_cmd,
}
use tclcurl_ng.Handle.Command.{
  CmdId, setopt, perform, getinfo, cleanup, configure, duphandle, reset, pause, resume,
  command_table, Situation, wrong, accepts_pairs, report_error, perform_cmd, info_reply,
  cleanup_cmd, duplicate_reply, pause_cmd, run_cmd, run_found, cmd_at, curl_obj_cmd,
}
use tclcurl_ng.Info.{get_info}
use tclcurl_ng.Info.Answer.{get_info_lem}
use tclcurl_ng.Options.Sharing.{detach_share_handle}
use tclcurl_ng.Options.Wires.{IsWired, Accepts}
use tclcurl_ng.Options.Wires.Commands.{set_opts_transfer-IsWired, config_transfer-IsWired}
use tclcurl_ng.Share.{link}
use tclcurl_ng.Transfer
use tclcurl_ng.Transfer.Wires.{Calm, Calm-refl, Calm-trans}
use tclcurl_ng.Transfer.Wires.Perform.{Calm-IsWired, perform-IsWired}

module _ (ask : Answers) where
  free_space-Calm : (d : CurlObjData) (s : State) → Calm ask s (free_space ask d s).1
  unfolding free_space freed call_all
  free_space-Calm d s = ground arith

  detach_share_handle-Calm : (s : State) → Calm ask s (detach_share_handle ask s).1
  unfolding detach_share_handle
  detach_share_handle-Calm s = ground arith

module _ (tcl : Tcl) (exact : IsTcl tcl) (ask : Answers) (infos : Infos) where
  get_info-Calm : (word : String) (s : State) → Calm ask s (get_info tcl ask infos word s).1
  get_info-Calm word s = elim (get_info_lem tcl exact ask infos word s) [
    | inl unknown ↦ rw unknown.result (ground arith)
    | inr (inl refused) ↦ rw refused.result (ground arith)
    | inr (inr answered) ↦ rw answered.result (ground arith)
  ]

module _ (ask : Answers) (print : ℕ → String) (taken : List String) where
  name_duplicate-Calm :
      (copy : CurlObjData) (s : State) → Calm ask s (name_duplicate ask print copy taken s).1
  unfolding name_duplicate
  name_duplicate-Calm copy s = elim (Option-cases (create_obj_cmd print taken)) [
    | inl e ↦ rw e Calm-refl
    | inr ((name, names), e) ↦ rw e (ground arith)
  ]

  dup_handle-Calm : (new : ℕ) (s : State) → Calm ask s (dup_handle ask print new taken s).1
  unfolding dup_handle
  dup_handle-Calm new s =
      let calls = easy_duphandle s.easy.curl ∷ s.calls in
      let t = s.shares.share_token s.self in
      let copy = record (copy_curl_data s.easy) { curl = ask calls } in
      let copied : State = record s { calls = calls; shares = copy_links s.self new s.shares } in
      let linked : State = record copied { shares = link new t copied.shares } in
      let ended : State = record copied { calls = easy_cleanup (ask calls) ∷ calls } in
      let first : Calm ask s copied = ground arith in
      let second : Calm ask s linked = ground arith in
      let third : Calm ask s ended = ground arith in
      elim (Bool-cases (ask calls == 0)) [
        | inl refused ↦ rw refused (ground arith)
        | inr given ↦ elim (Bool-cases (t == 0)) [
          | inl free ↦ rw (given, free) (Calm-trans first (name_duplicate-Calm copy copied))
          | inr used ↦ elim (Bool-cases (s.shares.alive t)) [
            | inl live ↦
                rw (given, used, live) (Calm-trans second (name_duplicate-Calm copy linked))
            | inr dead ↦
                rw (given, used, dead)
                  (Calm-trans third (Calm-trans (free_space-Calm ask copy ended) (ground arith)))
          ]
        ]
      ]

module _ (ask : Answers) where
  delete_cmd-Calm : (s : State) → Calm ask s (delete_cmd ask s).1
  unfolding delete_cmd
  delete_cmd-Calm s =
      let s1 = (detach_share_handle ask s).1 in
      let s2 : State = record s1 { calls = easy_cleanup s1.easy.curl ∷ s1.calls } in
      let step : Calm ask s1 s2 = ground arith in
      Calm-trans (detach_share_handle-Calm ask s) (Calm-trans step (free_space-Calm ask s1.easy s2))

  -- libcurl forgets the function and its argument.
  reset_handle-IsWired : (s : State) → IsWired ask s → IsWired ask (reset_handle ask s).1
  unfolding reset_handle
  reset_handle-IsWired s v =
      let s1 = (detach_share_handle ask s).1 in
      let c = Calm-trans (detach_share_handle-Calm ask s) (free_space-Calm ask s1.easy s1) in
      let w = Calm-IsWired ask c v in
      let d = (free_space ask s1.easy s1).1.easy in ground (arith, w.past)

module _ (tcl : Tcl) (exact : IsTcl tcl) (ask : Answers) (acc : Accepts ask) (results : Results)
    (infos : Infos) (print : ℕ → String) (world : Situation) (s : State) (v : IsWired ask s) where
  keeps : {t : State} → Calm ask s t → IsWired ask t
  keeps c = Calm-IsWired ask c v

  report_error-Calm : (t : State) → Calm ask t (report_error tcl ask results infos print world t).1
  unfolding report_error
  report_error-Calm t = ground arith

  perform_cmd-IsWired : IsWired ask (perform_cmd tcl ask results infos print world s).1
  unfolding perform_cmd
  perform_cmd-IsWired =
      let r = Transfer.perform tcl ask results world.events s in
      let w = perform-IsWired tcl ask results world.events s acc v in
      elim (Bool-cases (r.0 == 0)) [
        | inl fine ↦ rw fine w
        | inr failed ↦ rw failed (Calm-IsWired ask (report_error-Calm r.1) w)
      ]

  cleanup_cmd-Calm : Calm ask s (cleanup_cmd tcl ask results infos print world s).1
  unfolding cleanup_cmd
  cleanup_cmd-Calm =
      let t : State = record s { calls = delete_command s.easy.token ∷ s.calls } in
      let step : Calm ask s t = ground arith in Calm-trans step (delete_cmd-Calm ask t)

  pause_cmd-Calm :
      (mask : String) → Calm ask s (pause_cmd tcl ask results infos print world mask s).1
  unfolding pause_cmd
  pause_cmd-Calm mask = ground arith

  info_reply-Calm :
      (o : Option Value) (t : State)
      → Calm ask t (info_reply tcl ask results infos print world o t).1
  info_reply-Calm none t = Calm-refl
  info_reply-Calm (some value) t = ground arith

  duplicate_reply-Calm :
      (o : Option Duplicate) (t : State)
      → Calm ask t (duplicate_reply tcl ask results infos print world o t).1
  duplicate_reply-Calm none t = Calm-refl
  duplicate_reply-Calm (some copy) t = Calm-refl

  wrong-IsWired : (message : String) → IsWired ask (wrong message s).1
  unfolding wrong
  wrong-IsWired message = keeps (ground arith)

  run_cmd-IsWired :
      (id : CmdId) (args : List String)
      → IsWired ask (run_cmd tcl ask results infos print world id args s).1
  unfolding run_cmd
  run_cmd-IsWired setopt [] = wrong-IsWired "option value"
  run_cmd-IsWired setopt (a ∷ []) = wrong-IsWired "option value"
  run_cmd-IsWired setopt (a ∷ b ∷ []) = set_opts_transfer-IsWired tcl ask acc a b s v
  run_cmd-IsWired setopt (a ∷ b ∷ c ∷ args) = wrong-IsWired "option value"
  run_cmd-IsWired getinfo [] = wrong-IsWired "option"
  run_cmd-IsWired getinfo (a ∷ []) =
      let r = get_info tcl ask infos a s in
      keeps (Calm-trans (get_info-Calm tcl exact ask infos a s) (info_reply-Calm r.0 r.1))
  run_cmd-IsWired getinfo (a ∷ b ∷ args) = wrong-IsWired "option"
  run_cmd-IsWired configure args = elim (Bool-cases (accepts_pairs args)) [
    | inl pairs ↦ rw pairs (config_transfer-IsWired tcl ask acc args s v)
    | inr odd ↦ rw odd (wrong-IsWired "option value ?option value ...?")
  ]
  run_cmd-IsWired perform [] = perform_cmd-IsWired
  run_cmd-IsWired perform (a ∷ args) = wrong-IsWired ""
  run_cmd-IsWired cleanup [] = keeps cleanup_cmd-Calm
  run_cmd-IsWired cleanup (a ∷ args) = wrong-IsWired ""
  run_cmd-IsWired duphandle [] =
      let r = dup_handle ask print world.new world.taken s in
      keeps (
        Calm-trans (dup_handle-Calm ask print world.taken world.new s)
          (duplicate_reply-Calm r.0 r.1))
  run_cmd-IsWired duphandle (a ∷ args) = wrong-IsWired ""
  run_cmd-IsWired reset [] = reset_handle-IsWired ask s v
  run_cmd-IsWired reset (a ∷ args) = wrong-IsWired ""
  run_cmd-IsWired pause [] = keeps (pause_cmd-Calm "CURLPAUSE_ALL")
  run_cmd-IsWired pause (a ∷ args) = wrong-IsWired ""
  run_cmd-IsWired resume [] = keeps (pause_cmd-Calm "CURLPAUSE_CONT")
  run_cmd-IsWired resume (a ∷ args) = wrong-IsWired ""

  run_found-IsWired :
      (o : Option CmdId) (args : List String)
      → IsWired ask (run_found tcl ask results infos print world o args s).1
  unfolding run_found
  run_found-IsWired none args = v
  run_found-IsWired (some id) args = run_cmd-IsWired id args

  pub curl_obj_cmd-IsWired :
      (args : List String) → IsWired ask (curl_obj_cmd tcl ask results infos print world args s).1
  unfolding curl_obj_cmd
  curl_obj_cmd-IsWired [] = wrong-IsWired "option arg ?arg?"
  curl_obj_cmd-IsWired (word ∷ args) =
      run_found-IsWired (cmd_at (tcl.get_index command_table word)) args
