-- ===== src/Options/Wires/Others.antt =====
-- The handlers of generic/curl_setopts.c other than -file, -bodyvar and -writeproc, by the write
-- function, its argument and the flag to open a file.
use tclcurl_ng.Base.{
  ℕ, ◌≢◌, ◌≡◌, ◌∙◌, ◌==◌, refl, String, List, [], ◌∷◌, Option, none, some, Bool, true, false, not,
  ◌||◌, ◌&&◌, arith, inl, inr, Bool-cases, Option-cases,
}
use tclcurl_ng.Api.{Tcl, Answers, mime_addpart, mime_init}
use tclcurl_ng.Api.Monad.{State, Status, M, ok, error, fault}
use tclcurl_ng.Options.{OptionDef, Handler, set_int, set_long, set_curl_off_t, set_char}
use tclcurl_ng.Options.Apart.{targets}
use tclcurl_ng.Options.Table.Names.{member}
use tclcurl_ng.Options.Choices.Handlers
use tclcurl_ng.Options.Slists
use tclcurl_ng.Options.Files
use tclcurl_ng.Options.Procs
use tclcurl_ng.Options.Misc
use tclcurl_ng.Options.Sharing
use tclcurl_ng.Options.Sharing.{attach, detach_share_handle}
use tclcurl_ng.Mime.{
  FormOption, name, form_option, add_to_part, one_pair, add_pairs, proceed, add_part, with_mime,
  handle_http_post, curl_form_table,
}
use tclcurl_ng.TclSize.{tcl_size_to_size_t}
use tclcurl_ng.Options.Run.{run_handler}
use tclcurl_ng.Options.Wires.{all_suit}
use tclcurl_ng.Options.Table.{curl_option_defs}

-- The handlers that change the write function.
abbrev pub writes : Handler → Bool
writes Handler.out_file = true
writes Handler.body_var = true
writes Handler.write_proc = true
writes _ = false

-- A row with another handler has neither option among its targets.
abbrev pub aside : OptionDef → Bool
aside def =
    writes def.handler
    || (not (member "CURLOPT_WRITEFUNCTION" (targets def.handler def))
        && not (member "CURLOPT_WRITEDATA" (targets def.handler def)))

abbrev pub all_aside : List OptionDef → Bool
all_aside [] = true
all_aside (def ∷ defs) = aside def && all_aside defs

pub table_aside : all_aside curl_option_defs ≡ true
unfolding curl_option_defs
table_aside = refl

-- What such a handler leaves alone.
pub record Idle (ask : Answers) (before after : State) : Type 0 where
  pub same_flag : after.easy.out_flag ≡ before.easy.out_flag
  pub same_curl : after.easy.curl ≡ before.easy.curl
  pub same_past : (h : ℕ) → all_suit ask h after.calls ≡ all_suit ask h before.calls

Idle-refl : {ask : Answers} (s : State) → Idle ask s s
Idle-refl s = record { same_flag = refl; same_curl = refl; same_past = λ h. refl }

Idle-trans : {ask : Answers} {a b c : State} → Idle ask a b → Idle ask b c → Idle ask a c
Idle-trans p q = record {
  same_flag = q.same_flag ∙ p.same_flag;
  same_curl = q.same_curl ∙ p.same_curl;
  same_past = λ h. q.same_past h ∙ p.same_past h;
}

module _ (ask : Answers) (s : State) where
  stop_input-Idle : Idle ask s (Procs.stop_input ask s).1
  unfolding Procs.stop_input
  stop_input-Idle = ground arith

  install_read_proc-Idle : (o : String) → Idle ask s (Procs.install_read_proc ask o s).1
  unfolding Procs.install_read_proc
  install_read_proc-Idle o = ground arith

module _ (tcl : Tcl) (ask : Answers) (def : OptionDef) (o : String) (s : State) where
  read_proc-Idle : Idle ask s (run_handler tcl ask Handler.read_proc def o s).1
  unfolding run_handler Procs.handle_read_proc
  read_proc-Idle =
      let s1 : State = record s { easy = record s.easy { read_proc = some o } } in
      let s2 = (Procs.stop_input ask s1).1 in
      Idle-trans {b = s1} (record { same_flag = refl; same_curl = refl; same_past = λ h. refl })
        (Idle-trans (stop_input-Idle ask s1) (install_read_proc-Idle ask s2 o))

  shandle-Idle : Idle ask s (run_handler tcl ask Handler.setopt_shandle def o s).1
  unfolding run_handler Sharing.handle_setopt_shandle attach detach_share_handle
  shandle-Idle = ground arith

  other-Idle :
      (k : Handler)
      → k ≢ Handler.http_post
      → writes k ≡ false
      → Idle ask s (run_handler tcl ask k def o s).1
  unfolding run_handler set_char set_int set_long set_curl_off_t Misc.handle_post_fields
      Misc.handle_post_field_size Files.handle_out_file Files.handle_read_data Handlers.handle_netrc
      Misc.handle_transfer_text Misc.handle_mute Misc.handle_error_buffer
      Slists.handle_http_header_list Handlers.handle_ssl_version Slists.handle_quote_list
      Slists.handle_post_quote_list Files.handle_write_header Handlers.handle_time_condition
      Files.handle_stderr_file Procs.handle_header_var Procs.handle_body_var
      Procs.handle_progress_proc Procs.handle_cancel_trans_var_name Procs.handle_write_proc
      Procs.handle_read_proc Handlers.handle_http_version Slists.handle_prequote_list
      Procs.handle_debug_proc Handlers.handle_encoding Handlers.handle_proxy_type
      Slists.handle_http200_aliases Misc.handle_command Handlers.handle_http_auth
      Handlers.handle_proxy_auth Handlers.handle_ip_resolve Handlers.handle_ftp_ssl
      Misc.handle_obsolete Handlers.handle_ftp_ssl_auth Handlers.handle_ftp_file_method
      Handlers.handle_ssh_auth_types Handlers.handle_post_redir Misc.handle_protocol_mask
      Handlers.handle_ftp_ssl_ccc Procs.handle_ssh_key_function Slists.handle_mail_rcpt
      Procs.handle_chunk_bgn_proc Procs.handle_chunk_bgn_var Procs.handle_chunk_end_proc
      Procs.handle_fnmatch_proc Slists.handle_resolve_list Handlers.handle_tls_auth_type
      Handlers.handle_gss_api_delegation Slists.handle_telnet_options Misc.handle_cainfo_blob
  other-Idle Handler.setopt_shandle n w = shandle-Idle
  other-Idle Handler.http_post n w = absurd (n refl)
  other-Idle Handler.read_proc n w = read_proc-Idle
  other-Idle Handler.out_file n w = cc
  other-Idle Handler.body_var n w = cc
  other-Idle Handler.write_proc n w = cc
  other-Idle _ n w = ground arith

module _ (tcl : Tcl) (ask : Answers) (def : OptionDef) where
  add_to_part-Idle :
      (part : ℕ) (kind : FormOption) (value : String) (s : State)
      → Idle ask s (add_to_part tcl ask def part kind value s).1
  unfolding add_to_part tcl_size_to_size_t
  add_to_part-Idle part name value s = record {
    same_flag = refl;
    same_curl = refl;
    same_past = λ h. refl;
  }
  add_to_part-Idle part _ value s = ground arith

  one_pair-Idle :
      (part : ℕ) (i : Option ℕ) (v : Option String) (s : State)
      → Idle ask s (one_pair tcl ask def part i v s).1
  unfolding one_pair
  one_pair-Idle part none v s = record { same_flag = refl; same_curl = refl; same_past = λ h. refl }
  one_pair-Idle part (some i) none s = Idle-refl s
  one_pair-Idle part (some i) (some v) s = add_to_part-Idle part (form_option i) v s

  add_pairs-Idle :
      (part : ℕ) (xs : List String) (s : State) → Idle ask s (add_pairs tcl ask def part xs s).1
  unfolding add_pairs
  add_pairs-Idle part [] s = Idle-refl s
  add_pairs-Idle part (k ∷ []) s = one_pair-Idle part (tcl.get_index curl_form_table k) none s
  add_pairs-Idle part (k ∷ v ∷ rest) s =
      let i = tcl.get_index curl_form_table k in
      let r = one_pair tcl ask def part i (some v) s in
      proceed-Idle r.0 (add_pairs tcl ask def part rest) (one_pair-Idle part i (some v) s)
        (add_pairs-Idle part rest r.1)
    where
      proceed-Idle :
          (status : Status) (rest : M Status) {s t : State}
          → Idle ask s t
          → Idle ask t (rest t).1
          → Idle ask s (proceed tcl ask def status rest t).1
      proceed-Idle ok rest v w = ground (arith, v, w)
      proceed-Idle error rest v w = v
      proceed-Idle fault rest v w = v

  add_part-Idle : (xs : List String) (s : State) → Idle ask s (add_part tcl ask def xs s).1
  unfolding add_part
  add_part-Idle xs s =
      let part = ask (mime_addpart s.easy.mime ∷ s.calls) in
      let s' : State = record s { calls = mime_addpart s.easy.mime ∷ s.calls } in
      elim (Bool-cases (part == 0)) [
        | inl refused ↦
            rw refused (record { same_flag = refl; same_curl = refl; same_past = λ h. refl })
        | inr given ↦ rw given (
            Idle-trans (record { same_flag = refl; same_curl = refl; same_past = λ h. refl })
              (add_pairs-Idle part xs s'))
      ]

  with_mime-Idle : (xs : List String) (s : State) → Idle ask s (with_mime tcl ask def xs s).1
  unfolding with_mime
  with_mime-Idle xs s =
      let mime = ask (mime_init s.easy.curl ∷ s.calls) in
      let s' : State = record s {
        easy = record s.easy { mime = mime };
        calls = mime_init s.easy.curl ∷ s.calls;
      } in
      elim (Bool-cases (s.easy.mime == 0)) [
        | inl first ↦ elim (Bool-cases (mime == 0)) [
          | inl refused ↦
              rw (first, refused)
                (record { same_flag = refl; same_curl = refl; same_past = λ h. refl })
          | inr given ↦
              rw (first, given)
                (Idle-trans (record { same_flag = refl; same_curl = refl; same_past = λ h. refl })
                  (add_part-Idle xs s'))
        ]
        | inr again ↦ rw again (add_part-Idle xs s)
      ]

  http_post-Idle :
      (o : String) (s : State) → Idle ask s (run_handler tcl ask Handler.http_post def o s).1
  unfolding run_handler handle_http_post
  http_post-Idle o s = elim (Option-cases (tcl.list_elements o)) [
    | inl e ↦ rw e (record { same_flag = refl; same_curl = refl; same_past = λ h. refl })
    | inr (xs, e) ↦ rw e (with_mime-Idle xs s)
  ]

pub run_handler-Idle :
    (tcl : Tcl) (ask : Answers) (def : OptionDef) (o : String) (s : State) (k : Handler)
    → writes k ≡ false
    → Idle ask s (run_handler tcl ask k def o s).1
run_handler-Idle tcl ask def o s Handler.http_post w = http_post-Idle tcl ask def o s
run_handler-Idle tcl ask def o s k w = other-Idle tcl ask def o s k (λ e. cc) w
