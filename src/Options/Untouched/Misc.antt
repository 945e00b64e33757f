-- ===== src/Options/Untouched/Misc.antt =====
-- The handlers of Options/Misc, of -share and of -httppost.
use tclcurl_ng.Base.{
  ℕ, ℤ, String, List, [], ◌∷◌, Option, none, some, ◌==◌, arith, Bool-cases, inl, inr,
}
use tclcurl_ng.Api.{Tcl, Answers, mime_addpart, mime_init}
use tclcurl_ng.Api.Monad.{State, Status, M, ok, error, fault}
use tclcurl_ng.Options.{OptionDef, set_int}
use tclcurl_ng.Options.Untouched.{Untouched, Untouched-trans, Untouched-refl}
use tclcurl_ng.Options.Misc.{
  handle_post_fields, handle_command, handle_mute, handle_obsolete, handle_error_buffer,
  pass_buffer, set_buffer_names, handle_protocol_mask, handle_post_field_size, store_transfer_text,
  handle_transfer_text,
}
use tclcurl_ng.TclSize.{tcl_size_to_size_t}
use tclcurl_ng.Mime.{
  form_option, FormOption, name, add_to_part, one_pair, add_pairs, proceed, add_part, with_mime,
  handle_http_post, curl_form_table,
}

module _ (ask : Answers) (s : State) where
  pub handle_post_fields-Untouched : (o : String) → Untouched s (handle_post_fields ask o s).1
  unfolding handle_post_fields
  handle_post_fields-Untouched o = ground arith

  pub handle_command-Untouched : (o : String) → Untouched s (handle_command ask o s).1
  unfolding handle_command
  handle_command-Untouched o = ground arith

  pub handle_mute-Untouched : Untouched s (handle_mute ask s).1
  unfolding handle_mute
  handle_mute-Untouched = Untouched-refl

  pub handle_obsolete-Untouched : (def : OptionDef) → Untouched s (handle_obsolete ask def s).1
  unfolding handle_obsolete
  handle_obsolete-Untouched def = ground arith

  pub handle_protocol_mask-Untouched :
      (xs : Option (List String)) → Untouched s (handle_protocol_mask ask xs s).1
  unfolding handle_protocol_mask
  handle_protocol_mask-Untouched none = ground arith
  handle_protocol_mask-Untouched (some xs) = ground arith

  pub handle_post_field_size-Untouched :
      (def : OptionDef) (o : String) (n : Option ℤ)
      → Untouched s (handle_post_field_size ask def o n s).1
  unfolding handle_post_field_size
  handle_post_field_size-Untouched def o none = ground arith
  handle_post_field_size-Untouched def o (some n) = ground arith

  pass_buffer-Untouched : (name : Option String) → Untouched s (pass_buffer ask name s).1
  unfolding pass_buffer
  pass_buffer-Untouched none = ground arith
  pass_buffer-Untouched (some array) = ground arith

  store_transfer_text-Untouched :
      (n : Option ℤ) (status : Status) → Untouched s (store_transfer_text ask n status s).1
  store_transfer_text-Untouched (some n) ok = ground arith
  store_transfer_text-Untouched (some n) error = ground arith
  store_transfer_text-Untouched (some n) fault = ground arith
  store_transfer_text-Untouched none ok = Untouched-refl
  store_transfer_text-Untouched none error = Untouched-refl
  store_transfer_text-Untouched none fault = Untouched-refl

  set_buffer_names-Untouched :
      (o : String) (names : Option (String × String))
      → Untouched s (set_buffer_names ask o names s).1
  unfolding set_buffer_names
  set_buffer_names-Untouched o none = ground arith
  set_buffer_names-Untouched o (some (array, key)) = ground arith

module _ (ask : Answers) (s : State) where
  pub handle_error_buffer-Untouched :
      (o : String) (names : Option (Option (String × String)))
      → Untouched s (handle_error_buffer ask o names s).1
  unfolding handle_error_buffer
  handle_error_buffer-Untouched o none = ground arith
  handle_error_buffer-Untouched o (some none) = ground arith
  handle_error_buffer-Untouched o (some (some (array, key))) = ground arith

  pub handle_transfer_text-Untouched :
      (tcl : Tcl) (def : OptionDef) (o : String)
      → Untouched s (handle_transfer_text tcl ask def o s).1
  unfolding handle_transfer_text set_int
  handle_transfer_text-Untouched tcl def o = ground arith

module _ (tcl : Tcl) (ask : Answers) (def : OptionDef) (part : ℕ) where
  add_to_part-Untouched :
      (kind : FormOption) (value : String) (s : State)
      → Untouched s (add_to_part tcl ask def part kind value s).1
  unfolding add_to_part tcl_size_to_size_t
  add_to_part-Untouched name value s = ground arith
  add_to_part-Untouched _ value s = ground arith

  proceed-Untouched :
      (status : Status) (rest : M Status) (s : State)
      → ((s' : State) → Untouched s' (rest s').1)
      → Untouched s (proceed tcl ask def status rest s).1
  proceed-Untouched ok rest s keep = keep s
  proceed-Untouched error rest s keep = Untouched-refl
  proceed-Untouched fault rest s keep = Untouched-refl

  one_pair-Untouched :
      (i : Option ℕ) (value : Option String) (s : State)
      → Untouched s (one_pair tcl ask def part i value s).1
  unfolding one_pair
  one_pair-Untouched none value s = ground arith
  one_pair-Untouched (some i) none s = Untouched-refl
  one_pair-Untouched (some i) (some value) s = add_to_part-Untouched (form_option i) value s

  add_pairs-Untouched :
      (xs : List String) (s : State) → Untouched s (add_pairs tcl ask def part xs s).1
  unfolding add_pairs
  add_pairs-Untouched [] s = Untouched-refl
  add_pairs-Untouched (k ∷ []) s = one_pair-Untouched (tcl.get_index curl_form_table k) none s
  add_pairs-Untouched (k ∷ o ∷ rest) s =
      let step = one_pair tcl ask def part (tcl.get_index curl_form_table k) (some o) s in
      Untouched-trans (one_pair-Untouched (tcl.get_index curl_form_table k) (some o) s) (
        proceed-Untouched step.0 (add_pairs tcl ask def part rest) step.1
          (λ s'. add_pairs-Untouched rest s'))

module _ (tcl : Tcl) (ask : Answers) (def : OptionDef) where
  add_part-Untouched : (xs : List String) (s : State) → Untouched s (add_part tcl ask def xs s).1
  unfolding add_part
  add_part-Untouched xs s =
      let s' : State = record s { calls = mime_addpart s.easy.mime ∷ s.calls } in
      let part = ask s'.calls in
      elim (Bool-cases (part == 0)) [
        | inl full ↦ rw full (ground arith)
        | inr added ↦
            rw added (Untouched-trans (ground arith) (add_pairs-Untouched tcl ask def part xs s'))
      ]

  with_mime-Untouched : (xs : List String) (s : State) → Untouched s (with_mime tcl ask def xs s).1
  unfolding with_mime
  with_mime-Untouched xs s =
      let calls = mime_init s.easy.curl ∷ s.calls in
      let s' : State = record s { calls = calls; easy = record s.easy { mime = ask calls } } in
      elim (Bool-cases (s.easy.mime == 0)) [
        | inl first ↦ elim (Bool-cases (ask calls == 0)) [
          | inl full ↦ rw (first, full) (ground arith)
          | inr made ↦ rw (first, made) (Untouched-trans (ground arith) (add_part-Untouched xs s'))
        ]
        | inr later ↦ rw later (add_part-Untouched xs s)
      ]

  pub handle_http_post-Untouched :
      (xs : Option (List String)) (s : State) → Untouched s (handle_http_post tcl ask def xs s).1
  unfolding handle_http_post
  handle_http_post-Untouched none s = ground arith
  handle_http_post-Untouched (some xs) s = with_mime-Untouched xs s
