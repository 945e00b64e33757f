-- ===== src/Options/Sound/Misc.antt =====
-- The handlers of Options/Misc, of -share and of -httppost.
use tclcurl_ng.Base.{
  ℕ, ℤ, String, List, [], ◌∷◌, Option, none, some, ◌==◌, arith, Bool-cases, inl, inr,
}
use tclcurl_ng.Api.{Tcl, Answers, mime_addpart, mime_init}
use tclcurl_ng.Api.Monad.{State, Status, M, ok, error, fault}
use tclcurl_ng.Options.{OptionDef, set_int}
use tclcurl_ng.Options.Sound.{IsSound}
use tclcurl_ng.Options.Sharing.{attach, handle_setopt_shandle}
use tclcurl_ng.Options.Misc.{
  handle_post_fields, handle_command, handle_mute, handle_obsolete, handle_error_buffer,
  pass_buffer, set_buffer_names, handle_protocol_mask, handle_post_field_size, store_transfer_text,
  handle_transfer_text,
}
use tclcurl_ng.TclSize.{tcl_size_to_size_t}
use tclcurl_ng.Mime.{
  form_option, FormOption, name, add_to_part, one_pair, add_pairs, proceed, add_part, with_mime,
  handle_http_post, curl_form_table,
}

module _ {fp : ℕ} (ask : Answers) (s : State) (v : IsSound fp ask s) where
  pub handle_post_fields-IsSound : (o : String) → IsSound fp ask (handle_post_fields ask o s).1
  unfolding handle_post_fields
  handle_post_fields-IsSound o = ground arith

  pub handle_command-IsSound : (o : String) → IsSound fp ask (handle_command ask o s).1
  unfolding handle_command
  handle_command-IsSound o = ground arith

  pub handle_mute-IsSound : IsSound fp ask (handle_mute ask s).1
  unfolding handle_mute
  handle_mute-IsSound = v

  pub handle_obsolete-IsSound : (def : OptionDef) → IsSound fp ask (handle_obsolete ask def s).1
  unfolding handle_obsolete
  handle_obsolete-IsSound def = ground arith

  pub handle_protocol_mask-IsSound :
      (xs : Option (List String)) → IsSound fp ask (handle_protocol_mask ask xs s).1
  unfolding handle_protocol_mask
  handle_protocol_mask-IsSound none = ground arith
  handle_protocol_mask-IsSound (some xs) = ground arith

  pub handle_post_field_size-IsSound :
      (def : OptionDef) (o : String) (n : Option ℤ)
      → IsSound fp ask (handle_post_field_size ask def o n s).1
  unfolding handle_post_field_size
  handle_post_field_size-IsSound def o none = ground arith
  handle_post_field_size-IsSound def o (some n) = ground arith

  pass_buffer-IsSound : (name : Option String) → IsSound fp ask (pass_buffer ask name s).1
  unfolding pass_buffer
  pass_buffer-IsSound none = ground arith
  pass_buffer-IsSound (some array) = ground arith

  store_transfer_text-IsSound :
      (n : Option ℤ) (status : Status) → IsSound fp ask (store_transfer_text ask n status s).1
  store_transfer_text-IsSound (some n) ok = ground arith
  store_transfer_text-IsSound (some n) error = ground arith
  store_transfer_text-IsSound (some n) fault = ground arith
  store_transfer_text-IsSound none ok = v
  store_transfer_text-IsSound none error = v
  store_transfer_text-IsSound none fault = v

  set_buffer_names-IsSound :
      (o : String) (names : Option (String × String))
      → IsSound fp ask (set_buffer_names ask o names s).1
  unfolding set_buffer_names
  set_buffer_names-IsSound o none = ground arith
  set_buffer_names-IsSound o (some (array, key)) = ground arith

  attach-IsSound : (t : ℕ) → IsSound fp ask (attach ask t s).1
  unfolding attach
  attach-IsSound t = ground arith

module _ {fp : ℕ} (ask : Answers) (s : State) (v : IsSound fp ask s) where
  pub handle_error_buffer-IsSound :
      (o : String) (names : Option (Option (String × String)))
      → IsSound fp ask (handle_error_buffer ask o names s).1
  unfolding handle_error_buffer
  handle_error_buffer-IsSound o none = ground arith
  handle_error_buffer-IsSound o (some none) = ground arith
  handle_error_buffer-IsSound o (some (some (array, key))) = ground arith

  pub handle_setopt_shandle-IsSound :
      (def : OptionDef) (o : String) → IsSound fp ask (handle_setopt_shandle ask def o s).1
  unfolding handle_setopt_shandle
  handle_setopt_shandle-IsSound def o = ground arith

  pub handle_transfer_text-IsSound :
      (tcl : Tcl) (def : OptionDef) (o : String)
      → IsSound fp ask (handle_transfer_text tcl ask def o s).1
  unfolding handle_transfer_text set_int
  handle_transfer_text-IsSound tcl def o = ground arith

module _ {fp : ℕ} (tcl : Tcl) (ask : Answers) (def : OptionDef) (part : ℕ) where
  add_to_part-IsSound :
      (kind : FormOption) (value : String) (s : State)
      → IsSound fp ask s
      → IsSound fp ask (add_to_part tcl ask def part kind value s).1
  unfolding add_to_part tcl_size_to_size_t
  add_to_part-IsSound name value s v = ground arith
  add_to_part-IsSound _ value s v = ground arith

  proceed-IsSound :
      (status : Status) (rest : M Status) (s : State)
      → IsSound fp ask s
      → ((s' : State) → IsSound fp ask s' → IsSound fp ask (rest s').1)
      → IsSound fp ask (proceed tcl ask def status rest s).1
  proceed-IsSound ok rest s v keep = keep s v
  proceed-IsSound error rest s v keep = v
  proceed-IsSound fault rest s v keep = v

  one_pair-IsSound :
      (i : Option ℕ) (value : Option String) (s : State)
      → IsSound fp ask s
      → IsSound fp ask (one_pair tcl ask def part i value s).1
  unfolding one_pair
  one_pair-IsSound none value s v = ground arith
  one_pair-IsSound (some i) none s v = v
  one_pair-IsSound (some i) (some value) s v = add_to_part-IsSound (form_option i) value s v

  add_pairs-IsSound :
      (xs : List String) (s : State)
      → IsSound fp ask s
      → IsSound fp ask (add_pairs tcl ask def part xs s).1
  unfolding add_pairs
  add_pairs-IsSound [] s v = v
  add_pairs-IsSound (k ∷ []) s v = one_pair-IsSound (tcl.get_index curl_form_table k) none s v
  add_pairs-IsSound (k ∷ o ∷ rest) s v =
      let step = one_pair tcl ask def part (tcl.get_index curl_form_table k) (some o) s in
      let after = one_pair-IsSound (tcl.get_index curl_form_table k) (some o) s v in
      proceed-IsSound step.0 (add_pairs tcl ask def part rest) step.1 after
        (λ s' v'. add_pairs-IsSound rest s' v')

module _ {fp : ℕ} (tcl : Tcl) (ask : Answers) (def : OptionDef) where
  add_part-IsSound :
      (xs : List String) (s : State)
      → IsSound fp ask s
      → IsSound fp ask (add_part tcl ask def xs s).1
  unfolding add_part
  add_part-IsSound xs s v =
      let s' = record s { calls = mime_addpart s.easy.mime ∷ s.calls } in
      let part = ask s'.calls in
      let v' : IsSound fp ask s' = ground arith in
      elim (Bool-cases (part == 0)) [
        | inl full ↦ rw full (ground arith)
        | inr added ↦ rw added (add_pairs-IsSound tcl ask def part xs s' v')
      ]

  with_mime-IsSound :
      (xs : List String) (s : State)
      → IsSound fp ask s
      → IsSound fp ask (with_mime tcl ask def xs s).1
  unfolding with_mime
  with_mime-IsSound xs s v =
      let calls = mime_init s.easy.curl ∷ s.calls in
      let s' = record s { calls = calls; easy = record s.easy { mime = ask calls } } in
      let v' : IsSound fp ask s' = ground arith in
      elim (Bool-cases (s.easy.mime == 0)) [
        | inl first ↦ elim (Bool-cases (ask calls == 0)) [
          | inl full ↦ rw (first, full) (ground arith)
          | inr made ↦ rw (first, made) (add_part-IsSound xs s' v')
        ]
        | inr later ↦ rw later (add_part-IsSound xs s v)
      ]

  pub handle_http_post-IsSound :
      (xs : Option (List String)) (s : State)
      → IsSound fp ask s
      → IsSound fp ask (handle_http_post tcl ask def xs s).1
  unfolding handle_http_post
  handle_http_post-IsSound none s v = ground arith
  handle_http_post-IsSound (some xs) s v = with_mime-IsSound xs s v
