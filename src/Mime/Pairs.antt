-- ===== src/Mime/Pairs.antt =====
-- The argument list of -httppost: pairs of a word and a value.
use tclcurl_ng.Base.{ℕ, ◌≡◌, ◌≢◌, refl, String, List, [], ◌∷◌, ◌++◌, Option, none, some, arith, ◌↔◌}
use tclcurl_ng.Api.{Tcl, Answers}
use tclcurl_ng.Api.Monad.{State, Status, ok, error, fault, M}
use tclcurl_ng.Options.{OptionDef}
use tclcurl_ng.Options.Sequence.{arguments}
use tclcurl_ng.Mime.{
  FormOption, name, contents, file, contenttype, contentheader, filename, buffername, buffer,
  filecontent, no_option, curl_form_table, form_option, add_headers, add_data, add_to_part,
  one_pair, add_pairs, proceed,
}

module _ (tcl : Tcl) (ask : Answers) (def : OptionDef) (part : ℕ) where
  add_headers_no_fault :
      (h : Option (List String)) (s : State) → (add_headers tcl ask def part h s).0 ≢ fault
  unfolding add_headers
  add_headers_no_fault none s = ground arith
  add_headers_no_fault (some h) s = ground arith

  add_data_no_fault :
      (v : String) (size : Option ℕ) (s : State) → (add_data tcl ask def part v size s).0 ≢ fault
  unfolding add_data
  add_data_no_fault v none s = ground arith
  add_data_no_fault v (some size) s = ground arith

  add_to_part_no_fault :
      (f : FormOption) (v : String) (s : State) → (add_to_part tcl ask def part f v s).0 ≢ fault
  unfolding add_to_part
  add_to_part_no_fault name v s = ground arith
  add_to_part_no_fault contents v s = add_data_no_fault v _ s
  add_to_part_no_fault file v s = ground arith
  add_to_part_no_fault contenttype v s = ground arith
  add_to_part_no_fault contentheader v s = add_headers_no_fault (tcl.list_elements v) s
  add_to_part_no_fault filename v s = ground arith
  add_to_part_no_fault buffername v s = ground arith
  add_to_part_no_fault buffer v s = add_data_no_fault v _ s
  add_to_part_no_fault filecontent v s = ground arith
  add_to_part_no_fault no_option v s = ground arith

  one_pair_no_fault :
      (i : Option ℕ) (v : String) (s : State) → (one_pair tcl ask def part i (some v) s).0 ≢ fault
  unfolding one_pair
  one_pair_no_fault none v s = ground arith
  one_pair_no_fault (some i) v s = add_to_part_no_fault (form_option i) v s

  proceed_no_fault :
      (status : Status) (rest : M Status) (s : State)
      → status ≢ fault
      → (rest s).0 ≢ fault
      → (proceed tcl ask def status rest s).0 ≢ fault
  proceed_no_fault ok rest s n m = m
  proceed_no_fault error rest s n m = n
  proceed_no_fault fault rest s n m = n

  -- On an -httppost list of pairs, whatever its words and the answers, the loop never reads outside
  -- the array.
  pub add_pairs-no_fault :
      (pairs : List (String × String)) (s : State)
      → (add_pairs tcl ask def part (arguments pairs) s).0 ≢ fault
  unfolding add_pairs
  add_pairs-no_fault [] s = ground arith
  add_pairs-no_fault ((k, v) ∷ pairs) s =
      let (status, s') = one_pair tcl ask def part (tcl.get_index curl_form_table k) (some v) s in
      proceed_no_fault status _ s' (one_pair_no_fault (tcl.get_index curl_form_table k) v s)
        (add_pairs-no_fault pairs s')

  one_word :
      (i : Option ℕ) (s : State)
      → ((one_pair tcl ask def part i none s).0 ≡ fault) ↔ ((ok ≡ ok) × (i ≢ none))
  unfolding one_pair
  one_word none s = ground arith
  one_word (some i) s = ground arith

  step :
      (status : Status) (longer shorter : M Status) (s : State) (P : Type 0)
      → status ≢ fault
      → ((longer s).0 ≡ fault) ↔ (((shorter s).0 ≡ ok) × P)
      → ((proceed tcl ask def status longer s).0 ≡ fault)
        ↔ (((proceed tcl ask def status shorter s).0 ≡ ok) × P)
  step ok longer shorter s P n e = e
  step error longer shorter s P n e = ground arith
  step fault longer shorter s P n e = absurd (n refl)

  -- On an -httppost list with a word more than its pairs, the loop reads behind the array exactly when
  -- the pairs are added without an error and the last word is in the table.
  pub add_pairs-fault :
      (pairs : List (String × String)) (k : String) (s : State)
      → ((add_pairs tcl ask def part (arguments pairs ++ k ∷ []) s).0 ≡ fault) ↔ (
          ((add_pairs tcl ask def part (arguments pairs) s).0 ≡ ok)
          × (tcl.get_index curl_form_table k ≢ none))
  unfolding add_pairs
  add_pairs-fault [] k s = one_word (tcl.get_index curl_form_table k) s
  add_pairs-fault ((k', v) ∷ pairs) k s =
      let (status, s') = one_pair tcl ask def part (tcl.get_index curl_form_table k') (some v) s in
      step status (add_pairs tcl ask def part (arguments pairs ++ k ∷ []))
        (add_pairs tcl ask def part (arguments pairs)) s' _
        (one_pair_no_fault (tcl.get_index curl_form_table k') v s) (add_pairs-fault pairs k s')
