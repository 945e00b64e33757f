-- ===== src/Options/Wires/Commands.antt =====
-- What setopt and configure of generic/curl_setopts.c do to the write function and its argument.
use tclcurl_ng.Base.{
  ℕ, zero, suc, ◌≡◌, refl, ap, ◌∙◌, String, List, [], ◌∷◌, Option, none, some, Bool, true, false,
  not, ◌&&◌, ◌||◌, arith, inl, inr, Bool-cases, get_elem?,
}
use tclcurl_ng.Api.{Tcl, Answers}
use tclcurl_ng.Api.Monad.{State, Status, M, ok, error, fault}
use tclcurl_ng.Options.{OptionDef, Handler}
use tclcurl_ng.Options.Apart.{targets}
use tclcurl_ng.Options.Apart.Handlers.{run_handler-Same}
use tclcurl_ng.Options.Run.{
  run_handler, run_def, set_opts, set_found, set_opts_transfer, missing_value, unless_error,
  config_transfer,
}
use tclcurl_ng.Options.Table.{curl_option_defs, option_table, config_table}
use tclcurl_ng.Options.Table.Names.{member}
use tclcurl_ng.Options.Wires.{IsWired, Accepts}
use tclcurl_ng.Options.Wires.Others.{writes, aside, all_aside, table_aside, run_handler-Idle}
use tclcurl_ng.Options.Wires.Writers.{
  handle_out_file-IsWired, handle_body_var-IsWired, handle_write_proc-IsWired,
}

and_parts : (a b : Bool) → (a && b) ≡ true → (a ≡ true) × (b ≡ true)
and_parts a b e = ground (arith, e)

aside_parts :
    (w f d : Bool) → w ≡ false → (w || (not f && not d)) ≡ true → (f ≡ false) × (d ≡ false)
aside_parts w f d n e = ground (arith, n, e)

all_aside_row :
    (defs : List OptionDef) (i : ℕ) {def : OptionDef}
    → all_aside defs ≡ true
    → get_elem? defs i ≡ some def
    → aside def ≡ true
all_aside_row [] i all e = ground (arith, e)
all_aside_row (x ∷ xs) zero {def} all e =
    let same : def ≡ x = cc in ap aside same ∙ (and_parts (aside x) (all_aside xs) all).0
all_aside_row (x ∷ xs) (suc i) all e =
    all_aside_row xs i (and_parts (aside x) (all_aside xs) all).1 e

module _ (tcl : Tcl) (ask : Answers) (acc : Accepts ask) where
  writer-IsWired :
      (k : Handler) (def : OptionDef) (o : String) (s : State)
      → writes k ≡ true
      → IsWired ask s
      → IsWired ask (run_handler tcl ask k def o s).1
  unfolding run_handler
  writer-IsWired Handler.out_file def o s w v = handle_out_file-IsWired ask acc o s v
  writer-IsWired Handler.body_var def o s w v = handle_body_var-IsWired ask acc o s v
  writer-IsWired Handler.write_proc def o s w v = handle_write_proc-IsWired ask acc o s v
  writer-IsWired _ def o s w v = cc

  aside-IsWired :
      (def : OptionDef) (o : String) (s : State)
      → writes def.handler ≡ false
      → aside def ≡ true
      → IsWired ask s
      → IsWired ask (run_handler tcl ask def.handler def o s).1
  aside-IsWired def o s w a v =
      let i = run_handler-Idle tcl ask def o s def.handler w in
      let h = s.easy.curl in
      let free =
        aside_parts (writes def.handler) (member "CURLOPT_WRITEFUNCTION" (targets def.handler def))
          (member "CURLOPT_WRITEDATA" (targets def.handler def)) w a in
      let f = run_handler-Same tcl ask h "CURLOPT_WRITEFUNCTION" def o s def.handler free.0 in
      let d = run_handler-Same tcl ask h "CURLOPT_WRITEDATA" def o s def.handler free.1 in
      record {
        ready = rw (i.same_flag, i.same_curl, f, d) v.ready;
        past = rw (i.same_curl, i.same_past h) v.past;
      }

  row-IsWired :
      (def : OptionDef) (o : String) (s : State)
      → aside def ≡ true
      → IsWired ask s
      → IsWired ask (run_handler tcl ask def.handler def o s).1
  row-IsWired def o s a v = elim (Bool-cases (writes def.handler)) [
    | inl writer ↦ writer-IsWired def.handler def o s writer v
    | inr other ↦ aside-IsWired def o s other a v
  ]

  run_def-IsWired :
      (def : Option OptionDef) (o : String) (s : State)
      → ((d : OptionDef) → def ≡ some d → aside d ≡ true)
      → IsWired ask s
      → IsWired ask (run_def tcl ask def o s).1
  unfolding run_def
  run_def-IsWired none o s a v = v
  run_def-IsWired (some def) o s a v = row-IsWired def o s (a def refl) v

  set_found-IsWired :
      (i : Option ℕ) (o : String) (s : State)
      → IsWired ask s
      → IsWired ask (set_found tcl ask i o s).1
  unfolding set_found set_opts
  set_found-IsWired none o s v = record { ready = v.ready; past = v.past }
  set_found-IsWired (some i) o s v =
      run_def-IsWired (get_elem? curl_option_defs i) o s
        (λ d e. all_aside_row curl_option_defs i table_aside e) v

  pub set_opts_transfer-IsWired :
      (name o : String) (s : State)
      → IsWired ask s
      → IsWired ask (set_opts_transfer tcl ask name o s).1
  unfolding set_opts_transfer
  set_opts_transfer-IsWired name o s v = set_found-IsWired (tcl.get_index option_table name) o s v

  missing-IsWired :
      (i : Option ℕ) (s : State) → IsWired ask s → IsWired ask (missing_value tcl ask i s).1
  missing-IsWired none s v = record { ready = v.ready; past = v.past }
  missing-IsWired (some i) s v = record { ready = v.ready; past = v.past }

  unless_error-IsWired :
      (status : Status) (rest : M Status) (s : State)
      → IsWired ask s
      → IsWired ask (rest s).1
      → IsWired ask (unless_error tcl ask status rest s).1
  unless_error-IsWired ok rest s v w = w
  unless_error-IsWired error rest s v w = v
  unless_error-IsWired fault rest s v w = v

  pub config_transfer-IsWired :
      (words : List String) (s : State)
      → IsWired ask s
      → IsWired ask (config_transfer tcl ask words s).1
  unfolding config_transfer
  config_transfer-IsWired [] s v = v
  config_transfer-IsWired (name ∷ []) s v = missing-IsWired (tcl.get_index config_table name) s v
  config_transfer-IsWired (name ∷ o ∷ rest) s v =
      let step = set_found tcl ask (tcl.get_index config_table name) o s in
      let after = set_found-IsWired (tcl.get_index config_table name) o s v in
      unless_error-IsWired step.0 (config_transfer tcl ask rest) step.1 after
        (config_transfer-IsWired rest step.1 after)
