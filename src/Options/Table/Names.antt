-- ===== src/Options/Table/Names.antt =====
-- The two ways to reach a row of the option table by name, and the list of `configure`.
use tclcurl_ng.Base.{
  ℕ, zero, suc, ◌≡◌, refl, String, List, [], ◌∷◌, some, Bool, true, false, arith, inl, inr, not,
  ◌&&◌, ◌||◌, str_eq, eq_iff, Bool-cases, get_elem?, map,
}
use tclcurl_ng.Api.{Tcl, IsTcl, Answers, find_index}
use tclcurl_ng.Api.Monad.{State, Status, ok, error, fault, pure}
use tclcurl_ng.Options.{OptionDef}
use tclcurl_ng.Options.Table.{curl_option_defs, option_table, config_table}
use tclcurl_ng.Options.Run.{
  run_handler, run_def, set_opts, set_found, set_opts_transfer, config_transfer, unless_error,
}

abbrev pub member : String → List String → Bool
member o [] = false
member o (x ∷ xs) = str_eq x o || member o xs

abbrev pub unique : List String → Bool
unique [] = true
unique (x ∷ xs) = not (member x xs) && unique xs

str_eq_refl : (x : String) → str_eq x x ≡ true
str_eq_refl x = (eq_iff x x).1 refl

member-get_elem? :
    (xs : List String) (i : ℕ) {o : String} → get_elem? xs i ≡ some o → member o xs ≡ true
member-get_elem? [] i e = ground arith
member-get_elem? (x ∷ xs) zero {o} e =
    let same : x ≡ o = ground arith in rw ((eq_iff x o).1 same) refl
member-get_elem? (x ∷ xs) (suc i) {o} e = ground (arith, member-get_elem? xs i e)

-- In a table without repetition each entry is found at its own index.
pub find_index-unique :
    (xs : List String) (i : ℕ) {o : String}
    → unique xs ≡ true
    → get_elem? xs i ≡ some o
    → find_index xs o ≡ some i
find_index-unique [] i u e = ground arith
find_index-unique (x ∷ xs) zero {o} u e =
    let same : x ≡ o = ground arith in rw ((eq_iff x o).1 same) refl
find_index-unique (x ∷ xs) (suc i) {o} u e =
    let later = find_index-unique xs i {o = o} (ground arith) e in
    elim (Bool-cases (str_eq x o)) [
      | inl same ↦
          let inside = member-get_elem? xs i e in
          let there : member x xs ≡ true = rw ((eq_iff x o).0 same) inside in
          ground (arith, there, u)
      | inr other ↦ rw (other, later) refl
    ]

option_table-unique : unique option_table ≡ true
unfolding option_table curl_option_defs
option_table-unique = refl

config_table-unique : unique config_table ≡ true
unfolding config_table curl_option_defs
config_table-unique = refl

get_elem?-map :
    (f : OptionDef → String) (xs : List OptionDef) (i : ℕ) {def : OptionDef}
    → get_elem? xs i ≡ some def
    → get_elem? (map f xs) i ≡ some (f def)
get_elem?-map f [] i e = ground arith
get_elem?-map f (x ∷ xs) zero e = ground arith
get_elem?-map f (x ∷ xs) (suc i) e = get_elem?-map f xs i e

option_table_row :
    (i : ℕ) {def : OptionDef}
    → get_elem? curl_option_defs i ≡ some def
    → find_index option_table def.option_name ≡ some i
unfolding option_table
option_table_row i e =
    find_index-unique option_table i option_table-unique
      (get_elem?-map (λ def. def.option_name) curl_option_defs i e)

config_table_row :
    (i : ℕ) {def : OptionDef}
    → get_elem? curl_option_defs i ≡ some def
    → find_index config_table def.config_name ≡ some i
unfolding config_table
config_table_row i e =
    find_index-unique config_table i config_table-unique
      (get_elem?-map (λ def. def.config_name) curl_option_defs i e)

module _ (tcl : Tcl) (ask : Answers) (v : IsTcl tcl) where
  unless_error_ok :
      (status : Status) (s : State) → unless_error tcl ask status (pure ok) s ≡ (status, s)
  unless_error_ok ok s = refl
  unless_error_ok error s = refl
  unless_error_ok fault s = refl

  -- With a conforming Tcl library, for every row of the option table: `setopt` with the row's first
  -- name and `configure` with its second name both run exactly that row's handler on the value.
  pub set_opts_transfer-config_transfer :
      (i : ℕ) {def : OptionDef} (o : String) (s : State)
      → get_elem? curl_option_defs i ≡ some def
      → (set_opts_transfer tcl ask def.option_name o s ≡ run_handler tcl ask def.handler def o s)
        × (config_transfer tcl ask (def.config_name ∷ o ∷ []) s
            ≡ run_handler tcl ask def.handler def o s)
  unfolding set_opts_transfer config_transfer set_found set_opts run_def
  set_opts_transfer-config_transfer i {def} o s row = (
    rw (v.exact option_table def.option_name, option_table_row i row, row) refl,
    rw (v.exact config_table def.config_name, config_table_row i row, row) (unless_error_ok _ _),
  )
