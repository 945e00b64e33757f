-- ===== src/Options/Apart/Commands.antt =====
-- setopt and configure of generic/curl_setopts.c by the options of libcurl that their words do not name.
use tclcurl_ng.Base.{
  ap, sym, Bool, true, not, ◌||◌, str_eq, eq_iff, ℕ, ◌≡◌, refl, ◌∙◌, String, List, [], ◌∷◌, ◌++◌,
  Option, none, some, false, arith, get_elem?,
}
use tclcurl_ng.Api.{Tcl, Answers}
use tclcurl_ng.Api.Monad.{State}
use tclcurl_ng.Options.{OptionDef, Handler}
use tclcurl_ng.Options.Apart.{setting, targets}
use tclcurl_ng.Options.Apart.Handlers.{run_handler-Same}
use tclcurl_ng.Options.Run.{run_def, set_opts, set_found, set_opts_transfer}
use tclcurl_ng.Options.Table.{curl_option_defs, option_table, config_table}
use tclcurl_ng.Options.Table.Names.{member}

-- The option of libcurl that a row is for: the one that it names, where the handler does not say.
abbrev pub purpose : Handler → OptionDef → List String
purpose Handler.protocol_mask def = def.curl_opt ∷ []
purpose k def = targets k def

-- A row whose handler sets another option than the row names: the one of -redirprotocols.
abbrev pub strays : Handler → OptionDef → Bool
strays Handler.protocol_mask def = not (str_eq def.curl_opt "CURLOPT_PROTOCOLS_STR")
strays k def = false

abbrev pub row_strays : Option OptionDef → Bool
row_strays none = false
row_strays (some def) = strays def.handler def

abbrev pub index_strays : Option ℕ → Bool
index_strays none = false
index_strays (some i) = row_strays (get_elem? curl_option_defs i)

abbrev pub any_strays : Tcl → List String → Bool
any_strays tcl [] = false
any_strays tcl (name ∷ []) = false
any_strays tcl (name ∷ o ∷ rest) =
    index_strays (tcl.get_index config_table name) || any_strays tcl rest

targets-purpose :
    (k : Handler) (def : OptionDef) → strays k def ≡ false → targets k def ≡ purpose k def
targets-purpose Handler.protocol_mask def e =
    let same : str_eq def.curl_opt "CURLOPT_PROTOCOLS_STR" ≡ true = ground (arith, e) in
    ap (λ o. o ∷ []) (sym ((eq_iff def.curl_opt "CURLOPT_PROTOCOLS_STR").0 same))
targets-purpose _ def e = refl

-- The options of libcurl behind a row of the table, a word and the words of configure.
abbrev pub row_targets : Option OptionDef → List String
row_targets none = []
row_targets (some def) = purpose def.handler def

abbrev pub index_targets : Option ℕ → List String
index_targets none = []
index_targets (some i) = row_targets (get_elem? curl_option_defs i)

abbrev pub word_targets : Tcl → List String → List String
word_targets tcl [] = []
word_targets tcl (name ∷ []) = []
word_targets tcl (name ∷ o ∷ rest) =
    index_targets (tcl.get_index config_table name) ++ word_targets tcl rest

module _ (tcl : Tcl) (ask : Answers) (h : ℕ) (opt : String) where
  abbrev Keeps : State → State → Type 0
  Keeps s s' = setting ask h opt s'.calls ≡ setting ask h opt s.calls

  run_def-Keeps :
      (def : Option OptionDef) (o : String) (s : State)
      → row_strays def ≡ false
      → member opt (row_targets def) ≡ false
      → Keeps s (run_def tcl ask def o s).1
  unfolding run_def
  run_def-Keeps none o s e m = refl
  run_def-Keeps (some def) o s e m =
      let here = ap (member opt) (targets-purpose def.handler def e) ∙ m in
      run_handler-Same tcl ask h opt def o s def.handler here

  set_found-Keeps :
      (i : Option ℕ) (o : String) (s : State)
      → index_strays i ≡ false
      → member opt (index_targets i) ≡ false
      → Keeps s (set_found tcl ask i o s).1
  unfolding set_found set_opts
  set_found-Keeps none o s e m = refl
  set_found-Keeps (some i) o s e m = run_def-Keeps (get_elem? curl_option_defs i) o s e m

  -- The same of setopt.
  set_opts_transfer-setting :
      (name o : String) (s : State)
      → index_strays (tcl.get_index option_table name) ≡ false
      → member opt (index_targets (tcl.get_index option_table name)) ≡ false
      → Keeps s (set_opts_transfer tcl ask name o s).1
  unfolding set_opts_transfer
  set_opts_transfer-setting name o s e m = set_found-Keeps (tcl.get_index option_table name) o s e m
