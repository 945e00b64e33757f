-- ===== src/Options/Apart/Handlers.antt =====
-- Each handler of generic/curl_setopts.c by the options of libcurl that are not among its targets.
use tclcurl_ng.Base.{
  ℕ, ◌≢◌, ◌≡◌, ◌∙◌, ◌==◌, refl, String, List, [], ◌∷◌, Option, none, some, false, arith, inl, inr,
  Bool-cases,
}
use tclcurl_ng.Api.{Tcl, Answers, mime_addpart, mime_init}
use tclcurl_ng.Api.Monad.{State, Status, M, ok, error, fault}
use tclcurl_ng.Options.{OptionDef, Handler, set_int, set_long, set_curl_off_t, set_char}
use tclcurl_ng.Options.Apart.{setting, targets}
use tclcurl_ng.Options.Table.Names.{member}
use tclcurl_ng.Options.Choices.Handlers
use tclcurl_ng.Options.Slists
use tclcurl_ng.Options.Files
use tclcurl_ng.Options.Procs
use tclcurl_ng.Options.Misc
use tclcurl_ng.Options.Sharing
use tclcurl_ng.Options.Sharing.{attach, detach_share_handle}
use tclcurl_ng.Mime.{
  FormOption, name, form_option, add_to_part, one_pair, add_pairs, proceed, add_part, with_mime,
  handle_http_post, curl_form_table,
}
use tclcurl_ng.TclSize.{tcl_size_to_size_t}
use tclcurl_ng.Options.Run.{run_handler}

abbrev reading : List String
reading = "CURLOPT_READDATA" ∷ "CURLOPT_READFUNCTION" ∷ []

stop_input-Same :
    (ask : Answers) (h : ℕ) (opt : String) (s : State)
    → member opt reading ≡ false
    → setting ask h opt (Procs.stop_input ask s).1.calls ≡ setting ask h opt s.calls
unfolding Procs.stop_input
stop_input-Same ask h opt s m = ground arith

install_read_proc-Same :
    (ask : Answers) (h : ℕ) (opt o : String) (s : State)
    → member opt reading ≡ false
    → setting ask h opt (Procs.install_read_proc ask o s).1.calls ≡ setting ask h opt s.calls
unfolding Procs.install_read_proc
install_read_proc-Same ask h opt o s m = ground arith

module _ (tcl : Tcl) (ask : Answers) (h : ℕ) (opt : String) (def : OptionDef) (o : String)
    (s : State) where
  abbrev pub Same : Handler → Type 0
  Same k =
      member opt (targets k def) ≡ false
      → setting ask h opt (run_handler tcl ask k def o s).1.calls ≡ setting ask h opt s.calls

  read_proc-Same : Same Handler.read_proc
  unfolding run_handler Procs.handle_read_proc
  read_proc-Same m =
      let s1 : State = record s { easy = record s.easy { read_proc = some o } } in
      install_read_proc-Same ask h opt o (Procs.stop_input ask s1).1 m
      ∙ stop_input-Same ask h opt s1 m

  other-Same : (k : Handler) → k ≢ Handler.setopt_shandle → k ≢ Handler.http_post → Same k
  unfolding run_handler set_char set_int set_long set_curl_off_t Misc.handle_post_fields
      Misc.handle_post_field_size Files.handle_out_file Files.handle_read_data Handlers.handle_netrc
      Misc.handle_transfer_text Misc.handle_mute Misc.handle_error_buffer
      Slists.handle_http_header_list Handlers.handle_ssl_version Slists.handle_quote_list
      Slists.handle_post_quote_list Files.handle_write_header Handlers.handle_time_condition
      Files.handle_stderr_file Procs.handle_header_var Procs.handle_body_var
      Procs.handle_progress_proc Procs.handle_cancel_trans_var_name Procs.handle_write_proc
      Procs.handle_read_proc Handlers.handle_http_version Slists.handle_prequote_list
      Procs.handle_debug_proc Handlers.handle_encoding Handlers.handle_proxy_type
      Slists.handle_http200_aliases Misc.handle_command Handlers.handle_http_auth
      Handlers.handle_proxy_auth Handlers.handle_ip_resolve Handlers.handle_ftp_ssl
      Misc.handle_obsolete Handlers.handle_ftp_ssl_auth Handlers.handle_ftp_file_method
      Handlers.handle_ssh_auth_types Handlers.handle_post_redir Misc.handle_protocol_mask
      Handlers.handle_ftp_ssl_ccc Procs.handle_ssh_key_function Slists.handle_mail_rcpt
      Procs.handle_chunk_bgn_proc Procs.handle_chunk_bgn_var Procs.handle_chunk_end_proc
      Procs.handle_fnmatch_proc Slists.handle_resolve_list Handlers.handle_tls_auth_type
      Handlers.handle_gss_api_delegation Slists.handle_telnet_options Misc.handle_cainfo_blob
  other-Same Handler.setopt_shandle n n' m = absurd (n refl)
  other-Same Handler.http_post n n' m = absurd (n' refl)
  other-Same Handler.read_proc n n' m = read_proc-Same m
  other-Same Handler.setopt_char n n' m = ground arith
  other-Same _ n n' m = ground arith

-- -httppost builds the MIME data and sets no option.
module _ (tcl : Tcl) (ask : Answers) (h : ℕ) (opt : String) (def : OptionDef) where
  abbrev Keeps : State → State → Type 0
  Keeps s s' = setting ask h opt s'.calls ≡ setting ask h opt s.calls

  add_to_part-Keeps :
      (part : ℕ) (kind : FormOption) (value : String) (s : State)
      → Keeps s (add_to_part tcl ask def part kind value s).1
  unfolding add_to_part tcl_size_to_size_t
  add_to_part-Keeps part name value s = refl
  add_to_part-Keeps part _ value s = ground arith

  one_pair-Keeps :
      (part : ℕ) (i : Option ℕ) (v : Option String) (s : State)
      → Keeps s (one_pair tcl ask def part i v s).1
  unfolding one_pair
  one_pair-Keeps part none v s = refl
  one_pair-Keeps part (some i) none s = refl
  one_pair-Keeps part (some i) (some v) s = add_to_part-Keeps part (form_option i) v s

  proceed-Keeps :
      (status : Status) (rest : M Status) (s t : State)
      → Keeps s t
      → Keeps t (rest t).1
      → Keeps s (proceed tcl ask def status rest t).1
  proceed-Keeps ok rest s t v w = w ∙ v
  proceed-Keeps error rest s t v w = v
  proceed-Keeps fault rest s t v w = v

  add_pairs-Keeps :
      (part : ℕ) (xs : List String) (s : State) → Keeps s (add_pairs tcl ask def part xs s).1
  unfolding add_pairs
  add_pairs-Keeps part [] s = refl
  add_pairs-Keeps part (k ∷ []) s = one_pair-Keeps part (tcl.get_index curl_form_table k) none s
  add_pairs-Keeps part (k ∷ v ∷ rest) s =
      let i = tcl.get_index curl_form_table k in
      let r = one_pair tcl ask def part i (some v) s in
      proceed-Keeps r.0 (add_pairs tcl ask def part rest) s r.1 (one_pair-Keeps part i (some v) s)
        (add_pairs-Keeps part rest r.1)

  add_part-Keeps : (xs : List String) (s : State) → Keeps s (add_part tcl ask def xs s).1
  unfolding add_part
  add_part-Keeps xs s =
      let part = ask (mime_addpart s.easy.mime ∷ s.calls) in
      let s' : State = record s { calls = mime_addpart s.easy.mime ∷ s.calls } in
      elim (Bool-cases (part == 0)) [
        | inl refused ↦ rw refused refl
        | inr given ↦ rw given (add_pairs-Keeps part xs s')
      ]

  with_mime-Keeps : (xs : List String) (s : State) → Keeps s (with_mime tcl ask def xs s).1
  unfolding with_mime
  with_mime-Keeps xs s =
      let mime = ask (mime_init s.easy.curl ∷ s.calls) in
      let s' : State = record s {
        easy = record s.easy { mime = mime };
        calls = mime_init s.easy.curl ∷ s.calls;
      } in
      elim (Bool-cases (s.easy.mime == 0)) [
        | inl first ↦ elim (Bool-cases (mime == 0)) [
          | inl refused ↦ rw (first, refused) refl
          | inr given ↦ rw (first, given) (add_part-Keeps xs s')
        ]
        | inr again ↦ rw again (add_part-Keeps xs s)
      ]

  handle_http_post-Keeps :
      (o : Option (List String)) (s : State) → Keeps s (handle_http_post tcl ask def o s).1
  unfolding handle_http_post
  handle_http_post-Keeps none s = refl
  handle_http_post-Keeps (some xs) s = with_mime-Keeps xs s

module _ (tcl : Tcl) (ask : Answers) (h : ℕ) (opt : String) (def : OptionDef) (o : String)
    (s : State) where
  shandle-Same : Same tcl ask h opt def o s Handler.setopt_shandle
  unfolding run_handler Sharing.handle_setopt_shandle attach detach_share_handle
  shandle-Same m = ground arith

  http_post-Same : Same tcl ask h opt def o s Handler.http_post
  unfolding run_handler
  http_post-Same m = handle_http_post-Keeps tcl ask h opt def (tcl.list_elements o) s

  pub run_handler-Same : (k : Handler) → Same tcl ask h opt def o s k
  run_handler-Same Handler.setopt_shandle m = shandle-Same m
  run_handler-Same Handler.http_post m = http_post-Same m
  run_handler-Same k m = other-Same tcl ask h opt def o s k (λ e. cc) (λ e. cc) m
