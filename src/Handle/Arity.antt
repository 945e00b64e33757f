-- ===== src/Handle/Arity.antt =====
-- The number of words that each command of an easy handle takes.
use tclcurl_ng.Base.{
  ℕ, ◌+◌, ◌%◌, ◌≡◌, refl, String, List, [], ◌∷◌, none, some, Bool, false, ◌&&◌, not, ◌||◌, arith,
  ◌==◌, leb, ltb, length,
}
use tclcurl_ng.Api.{Tcl, IsTcl, Answers, Results, Infos, find_index}
use tclcurl_ng.Api.Monad.{State, error, wrong_num_args}
use tclcurl_ng.Handle.Command.{
  CmdId, setopt, perform, getinfo, cleanup, configure, duphandle, reset, pause, resume,
  command_table, Situation, wrong, run_cmd, run_found, cmd_at, curl_obj_cmd,
}

-- How many words may stand behind the command's own.
abbrev pub takes : CmdId → ℕ → Bool
takes setopt n = n == 2
takes getinfo n = n == 1
takes configure n = leb 2 n && n % 2 == 0
takes _ n = n == 0

abbrev pub usage : CmdId → String
usage setopt = "option value"
usage getinfo = "option"
usage configure = "option value ?option value ...?"
usage _ = ""

odd-refused :
    (n : ℕ) → (leb 2 n && n % 2 == 0) ≡ false → not (ltb (2 + n) 4 || (2 + n) % 2 == 1) ≡ false
odd-refused n e = ground arith

module _ (tcl : Tcl) (exact : IsTcl tcl) (ask : Answers) (results : Results) (infos : Infos)
    (print : ℕ → String) (world : Situation) (s : State) where
  run_cmd-wrong :
      (id : CmdId) (args : List String)
      → takes id (length args) ≡ false
      → run_cmd tcl ask results infos print world id args s
        ≡ ((error, none), record s { result = wrong_num_args (usage id) })
  unfolding run_cmd wrong
  run_cmd-wrong setopt [] e = refl
  run_cmd-wrong setopt (a ∷ []) e = refl
  run_cmd-wrong setopt (a ∷ b ∷ []) e = ground arith
  run_cmd-wrong setopt (a ∷ b ∷ c ∷ args) e = refl
  run_cmd-wrong getinfo [] e = refl
  run_cmd-wrong getinfo (a ∷ []) e = ground arith
  run_cmd-wrong getinfo (a ∷ b ∷ args) e = refl
  run_cmd-wrong configure args e = rw (odd-refused (length args) e) refl
  run_cmd-wrong perform [] e = ground arith
  run_cmd-wrong perform (a ∷ args) e = refl
  run_cmd-wrong cleanup [] e = ground arith
  run_cmd-wrong cleanup (a ∷ args) e = refl
  run_cmd-wrong duphandle [] e = ground arith
  run_cmd-wrong duphandle (a ∷ args) e = refl
  run_cmd-wrong reset [] e = ground arith
  run_cmd-wrong reset (a ∷ args) e = refl
  run_cmd-wrong pause [] e = ground arith
  run_cmd-wrong pause (a ∷ args) e = refl
  run_cmd-wrong resume [] e = ground arith
  run_cmd-wrong resume (a ∷ args) e = refl

  -- A command of the table with another number of words than it takes is refused, where the search for
  -- a word is exact: it returns an error with the command's usage, makes no call, and changes neither
  -- the handle nor any link.
  pub curl_obj_cmd-wrong :
      (word : String) (args : List String) (id : CmdId)
      → cmd_at (find_index command_table word) ≡ some id
      → takes id (length args) ≡ false
      → curl_obj_cmd tcl ask results infos print world (word ∷ args) s
        ≡ ((error, none), record s { result = wrong_num_args (usage id) })
  unfolding curl_obj_cmd run_found
  curl_obj_cmd-wrong word args id known e =
      rw (exact.exact command_table word, known) (run_cmd-wrong id args e)
