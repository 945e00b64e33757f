-- ===== src/Options/Faults/Commands.antt =====
-- When setopt and configure of generic/curl_setopts.c read outside an array.
use tclcurl_ng.Base.{
  ℕ, ◌≡◌, ◌≢◌, ap, String, List, [], ◌∷◌, Option, none, some, Bool, true, false, ◌&&◌, ◌||◌, arith,
  get_elem?,
}
use tclcurl_ng.Api.{Tcl, Answers, Call, get_command_info}
use tclcurl_ng.Api.Monad.{State, Status, M, ok, error, fault}
use tclcurl_ng.Options.{OptionDef, Handler}
use tclcurl_ng.Options.Faults.{is_odd_list, handler-no_fault}
use tclcurl_ng.Options.Run.{
  run_def, set_opts, set_found, set_opts_transfer, missing_value, unless_error, config_transfer,
}
use tclcurl_ng.Options.Table.{curl_option_defs, option_table, config_table}

abbrev is_post : Handler → Bool
is_post Handler.http_post = true
is_post _ = false

abbrev is_share : Handler → Bool
is_share Handler.setopt_shandle = true
is_share _ = false

-- A row that takes an -httppost list.
abbrev posts : Option OptionDef → Bool
posts none = false
posts (some def) = is_post def.handler

-- The row of -share.
abbrev shares : Option OptionDef → Bool
shares none = false
shares (some def) = is_share def.handler

abbrev row_is_unfit : Tcl → (foreign : String → Bool) → Option OptionDef → String → Bool
row_is_unfit tcl foreign def o =
    (posts def && is_odd_list (tcl.list_elements o)) || (shares def && foreign o)

-- The option at an index takes a list of pairs, and the value has a word too many; or it takes the name
-- of a share handle, and the value is that of another command.
abbrev pub is_unfit : Tcl → (foreign : String → Bool) → Option ℕ → String → Bool
is_unfit tcl foreign none o = false
is_unfit tcl foreign (some i) o = row_is_unfit tcl foreign (get_elem? curl_option_defs i) o

-- So for some value among the words of configure.
abbrev pub any_unfit : Tcl → (foreign : String → Bool) → List String → Bool
any_unfit tcl foreign [] = false
any_unfit tcl foreign (name ∷ []) = false
any_unfit tcl foreign (name ∷ o ∷ rest) =
    is_unfit tcl foreign (tcl.get_index config_table name) o || any_unfit tcl foreign rest

or_parts : (a b : Bool) → (a || b) ≡ false → (a ≡ false) × (b ≡ false)
or_parts a b e = ground (arith, e)

and_rest : (a b : Bool) → (a && b) ≡ false → a ≡ true → b ≡ false
and_rest a b e t = ground (arith, e, t)

module _ (tcl : Tcl) (ask : Answers) (foreign : String → Bool)
    (others : (o : String) (log : List Call)
      → foreign o ≡ false
      → ask (get_command_info o ∷ log) ≡ 0) where
  run_def-no_fault :
      (def : Option OptionDef) (o : String) (s : State)
      → row_is_unfit tcl foreign def o ≡ false
      → (run_def tcl ask def o s).0 ≢ fault
  unfolding run_def
  run_def-no_fault none o s e = ground arith
  run_def-no_fault (some def) o s e =
      let odd = is_odd_list (tcl.list_elements o) in
      let (lists, names) =
        or_parts (is_post def.handler && odd) (is_share def.handler && foreign o) e in
      handler-no_fault tcl ask def def.handler o s
        (λ post. and_rest (is_post def.handler) odd lists (ap is_post post))
        (λ share log.
          others o log (and_rest (is_share def.handler) (foreign o) names (ap is_share share)))

  set_found-no_fault :
      (i : Option ℕ) (o : String) (s : State)
      → is_unfit tcl foreign i o ≡ false
      → (set_found tcl ask i o s).0 ≢ fault
  unfolding set_found set_opts
  set_found-no_fault none o s e = ground arith
  set_found-no_fault (some i) o s e = run_def-no_fault (get_elem? curl_option_defs i) o s e

  pub set_opts_transfer-no_fault :
      (name o : String) (s : State)
      → is_unfit tcl foreign (tcl.get_index option_table name) o ≡ false
      → (set_opts_transfer tcl ask name o s).0 ≢ fault
  unfolding set_opts_transfer
  set_opts_transfer-no_fault name o s e = set_found-no_fault (tcl.get_index option_table name) o s e

  missing-no_fault : (i : Option ℕ) (s : State) → (missing_value tcl ask i s).0 ≢ fault
  missing-no_fault none s = ground arith
  missing-no_fault (some i) s = ground arith

  unless_error-no_fault :
      (status : Status) (rest : M Status) (s : State)
      → status ≢ fault
      → (rest s).0 ≢ fault
      → (unless_error tcl ask status rest s).0 ≢ fault
  unless_error-no_fault ok rest s n m = m
  unless_error-no_fault error rest s n m = n
  unless_error-no_fault fault rest s n m = n

  -- configure, with any words, neither reads behind the array of an -httppost list nor takes the client
  -- data of a command that is no share handle, provided that no -httppost value is a list with an odd
  -- number of words, and no -share value is a foreign name. The names that are not foreign are those
  -- of share handles and those of no command.
  pub config_transfer-no_fault :
      (words : List String) (s : State)
      → any_unfit tcl foreign words ≡ false
      → (config_transfer tcl ask words s).0 ≢ fault
  unfolding config_transfer
  config_transfer-no_fault [] s e = ground arith
  config_transfer-no_fault (name ∷ []) s e = missing-no_fault (tcl.get_index config_table name) s
  config_transfer-no_fault (name ∷ o ∷ rest) s e =
      let i = tcl.get_index config_table name in
      let (here, later) = or_parts (is_unfit tcl foreign i o) (any_unfit tcl foreign rest) e in
      let step = set_found tcl ask i o s in
      unless_error-no_fault step.0 (config_transfer tcl ask rest) step.1
        (set_found-no_fault i o s here) (config_transfer-no_fault rest step.1 later)
