-- ===== src/Handle/Sound.antt =====
-- Every command of an easy handle keeps its files sound, except a reset that forgets an open file.
use tclcurl_ng.Base.{
  ℕ, ◌≡◌, refl, ap, String, List, [], ◌∷◌, Option, none, some, inl, inr, ◌==◌, Bool-cases,
}
use tclcurl_ng.Api.{
  Tcl, IsTcl, Answers, Results, Infos, Value, easy_getinfo, find_index, set_error_buffer,
  delete_command, easy_pause,
}
use tclcurl_ng.Api.Monad.{State}
use tclcurl_ng.Handle.{Duplicate, dup_handle}
use tclcurl_ng.Handle.Command.{
  CmdId, setopt, perform, getinfo, cleanup, configure, duphandle, reset, pause, resume,
  command_table, Situation, wrong, accepts_pairs, report_error, perform_cmd, info_reply,
  cleanup_cmd, duplicate_reply, pause_cmd, run_cmd, run_found, cmd_at, curl_obj_cmd,
}
use tclcurl_ng.Handle.Life.{delete_cmd-Run}
use tclcurl_ng.Info.{get_info}
use tclcurl_ng.Info.Answer.{asked, get_info_lem}
use tclcurl_ng.Options.Sound.{IsSound}
use tclcurl_ng.Options.Sound.Commands.{set_opts_transfer-IsSound, config_transfer-IsSound}
use tclcurl_ng.Transfer
use tclcurl_ng.Transfer.Balance.{held}
use tclcurl_ng.Transfer.Running.{performed}
use tclcurl_ng.Transfer.Sound.{perform-IsSound}
use tclcurl_ng.Handle.Parts.{
  elsewhere, quiet-IsSound, when-IsSound, dup_handle-IsSound, reset_handle-IsSound, frees-IsSound,
}

abbrev pub first_word : List String → String
first_word [] = ""
first_word (word ∷ args) = word

module _ {fp : ℕ} (tcl : Tcl) (exact : IsTcl tcl) (ask : Answers) (results : Results)
    (infos : Infos) (print : ℕ → String) (world : Situation) (s : State)
    (v : IsSound fp ask s) where
  get_info-IsSound : (word : String) → IsSound fp ask (get_info tcl ask infos word s).1
  get_info-IsSound word = elim (get_info_lem tcl exact ask infos word s) [
    | inl unknown ↦ rw unknown.result (elsewhere _ refl refl v)
    | inr (inl refused) ↦
        rw refused.result (quiet-IsSound ask (easy_getinfo s.easy.curl refused.opt) s refl v)
    | inr (inr answered) ↦ rw answered.result (
        frees-IsSound ask (record s { calls = asked s answered.opt })
          (quiet-IsSound ask (easy_getinfo s.easy.curl answered.opt) s refl v) answered.kind
          (infos.slist_ptr (asked s answered.opt)))
  ]

  report_error-IsSound :
      (t : State)
      → IsSound fp ask t
      → IsSound fp ask (report_error tcl ask results infos print world t).1
  unfolding report_error
  report_error-IsSound t w =
      when-IsSound ask
        (set_error_buffer (Transfer.name_of t.easy.error_buffer_name) t.easy.error_buffer_key) t
        t.easy.error_buffer refl w

  perform_cmd-IsSound : IsSound fp ask (perform_cmd tcl ask results infos print world s).1
  unfolding perform_cmd
  perform_cmd-IsSound =
      let r = Transfer.perform tcl ask results world.events s in
      let w = perform-IsSound tcl ask results world.events s v in
      elim (Bool-cases (r.0 == 0)) [
        | inl fine ↦ rw fine w
        | inr failed ↦ rw failed (report_error-IsSound r.1 w)
      ]

  cleanup_cmd-IsSound : IsSound fp ask (cleanup_cmd tcl ask results infos print world s).1
  unfolding cleanup_cmd
  cleanup_cmd-IsSound =
      let t = record s { calls = delete_command s.easy.token ∷ s.calls } in
      let w = quiet-IsSound ask (delete_command s.easy.token) s refl v in
      (delete_cmd-Run ask (performed t.calls) t (record { files = w; started = refl })).files

  pause_cmd-IsSound :
      (mask : String) → IsSound fp ask (pause_cmd tcl ask results infos print world mask s).1
  unfolding pause_cmd
  pause_cmd-IsSound mask =
      let c = easy_pause s.easy.curl mask in
      elim (Bool-cases (ask (c ∷ s.calls) == 1)) [
        | inl failed ↦ rw failed (quiet-IsSound ask c s refl v)
        | inr fine ↦ rw fine (quiet-IsSound ask c s refl v)
      ]

  info_reply-IsSound :
      (o : Option Value) (t : State)
      → IsSound fp ask t
      → IsSound fp ask (info_reply tcl ask results infos print world o t).1
  info_reply-IsSound none t w = w
  info_reply-IsSound (some value) t w = elsewhere _ refl refl w

  duplicate_reply-IsSound :
      (o : Option Duplicate) (t : State)
      → IsSound fp ask t
      → IsSound fp ask (duplicate_reply tcl ask results infos print world o t).1
  duplicate_reply-IsSound none t w = w
  duplicate_reply-IsSound (some copy) t w = w

  wrong-IsSound : (message : String) → IsSound fp ask (wrong message s).1
  unfolding wrong
  wrong-IsSound message = elsewhere _ refl refl v

  run_cmd-IsSound :
      (id : CmdId) (args : List String)
      → (id ≡ reset → held fp s.easy ≡ 0)
      → IsSound fp ask (run_cmd tcl ask results infos print world id args s).1
  unfolding run_cmd
  run_cmd-IsSound setopt [] h = wrong-IsSound "option value"
  run_cmd-IsSound setopt (a ∷ []) h = wrong-IsSound "option value"
  run_cmd-IsSound setopt (a ∷ b ∷ []) h = set_opts_transfer-IsSound tcl ask a b s v
  run_cmd-IsSound setopt (a ∷ b ∷ c ∷ args) h = wrong-IsSound "option value"
  run_cmd-IsSound getinfo [] h = wrong-IsSound "option"
  run_cmd-IsSound getinfo (a ∷ []) h =
      let r = get_info tcl ask infos a s in info_reply-IsSound r.0 r.1 (get_info-IsSound a)
  run_cmd-IsSound getinfo (a ∷ b ∷ args) h = wrong-IsSound "option"
  run_cmd-IsSound configure args h = elim (Bool-cases (accepts_pairs args)) [
    | inl pairs ↦ rw pairs (config_transfer-IsSound tcl ask args s v)
    | inr odd ↦ rw odd (wrong-IsSound "option value ?option value ...?")
  ]
  run_cmd-IsSound perform [] h = perform_cmd-IsSound
  run_cmd-IsSound perform (a ∷ args) h = wrong-IsSound ""
  run_cmd-IsSound cleanup [] h = cleanup_cmd-IsSound
  run_cmd-IsSound cleanup (a ∷ args) h = wrong-IsSound ""
  run_cmd-IsSound duphandle [] h =
      let r = dup_handle ask print world.new world.taken s in
      duplicate_reply-IsSound r.0 r.1 (dup_handle-IsSound ask print world.taken world.new s v)
  run_cmd-IsSound duphandle (a ∷ args) h = wrong-IsSound ""
  run_cmd-IsSound reset [] h = reset_handle-IsSound ask s v (h refl)
  run_cmd-IsSound reset (a ∷ args) h = wrong-IsSound ""
  run_cmd-IsSound pause [] h = pause_cmd-IsSound "CURLPAUSE_ALL"
  run_cmd-IsSound pause (a ∷ args) h = wrong-IsSound ""
  run_cmd-IsSound resume [] h = pause_cmd-IsSound "CURLPAUSE_CONT"
  run_cmd-IsSound resume (a ∷ args) h = wrong-IsSound ""

  run_found-IsSound :
      (o : Option CmdId) (args : List String)
      → (o ≡ some reset → held fp s.easy ≡ 0)
      → IsSound fp ask (run_found tcl ask results infos print world o args s).1
  unfolding run_found
  run_found-IsSound none args h = v
  run_found-IsSound (some id) args h = run_cmd-IsSound id args (λ e. h (ap some e))

  -- Any words after the name of an easy handle keep its files sound, where the search for a word is
  -- exact, whatever callbacks libcurl makes and whatever it answers: no FILE is lost, and a flag to open
  -- a file stands beside a name. A reset has to find no file open.
  pub curl_obj_cmd-IsSound :
      (args : List String)
      → (cmd_at (find_index command_table (first_word args)) ≡ some reset → held fp s.easy ≡ 0)
      → IsSound fp ask (curl_obj_cmd tcl ask results infos print world args s).1
  unfolding curl_obj_cmd
  curl_obj_cmd-IsSound [] h = wrong-IsSound "option arg ?arg?"
  curl_obj_cmd-IsSound (word ∷ args) h =
      rw (exact.exact command_table word)
        (run_found-IsSound (cmd_at (find_index command_table word)) args h)
