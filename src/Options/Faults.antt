-- ===== src/Options/Faults.antt =====
-- When the handler of an option reads outside an array: the handlers of generic/curl_setopts.c and the
-- loop of -httppost in generic/curl_mime.c.
pub mod Commands
use tclcurl_ng.Base.{
  ℕ, ℤ, ◌≢◌, ◌≡◌, ◌∙◌, ◌==◌, ◌&&◌, ◌||◌, refl, sym, ap, String, List, [], ◌∷◌, Option, none, some,
  Bool, true, false, arith, inl, inr, Bool-cases, Option-cases,
}
use tclcurl_ng.Api.{Call, get_command_info, Tcl, Answers, mime_addpart, mime_init}
use tclcurl_ng.Api.Monad.{State, Status, M, ok, error, fault}
use tclcurl_ng.Options.{OptionDef, Handler, set_int, set_long, set_curl_off_t, set_char}
use tclcurl_ng.Options.Apart.{setting, targets}
use tclcurl_ng.Options.Table.Names.{member}
use tclcurl_ng.Options.Choices.Handlers
use tclcurl_ng.Options.Slists
use tclcurl_ng.Options.Files
use tclcurl_ng.Options.Procs
use tclcurl_ng.Options.Misc
use tclcurl_ng.Options.Sharing
use tclcurl_ng.Options.Sharing.{attach, detach_share_handle}
use tclcurl_ng.Mime.{
  FormOption, name, form_option, add_to_part, one_pair, add_pairs, proceed, add_part, with_mime,
  handle_http_post, curl_form_table,
}
use tclcurl_ng.TclSize.{tcl_size_to_size_t}
use tclcurl_ng.Options.Run.{run_handler}
use tclcurl_ng.Mime.Pairs.{add_pairs-no_fault}
use tclcurl_ng.Options.Sequence.{arguments}

abbrev pub is_odd : List String → Bool
is_odd [] = false
is_odd (x ∷ []) = true
is_odd (x ∷ y ∷ xs) = is_odd xs

-- A value that is a list with an odd number of words.
abbrev pub is_odd_list : Option (List String) → Bool
is_odd_list none = false
is_odd_list (some xs) = is_odd xs

abbrev pairs_of : List String → List (String × String)
pairs_of [] = []
pairs_of (x ∷ []) = []
pairs_of (x ∷ y ∷ xs) = (x, y) ∷ pairs_of xs

arguments-pairs_of : (xs : List String) → is_odd xs ≡ false → arguments (pairs_of xs) ≡ xs
arguments-pairs_of [] e = refl
arguments-pairs_of (x ∷ []) e = ground (arith, e)
arguments-pairs_of (x ∷ y ∷ xs) e = ap (λ zs. x ∷ y ∷ zs) (arguments-pairs_of xs e)

module _ (tcl : Tcl) (ask : Answers) (def : OptionDef) where
  add_part-no_fault :
      (xs : List String) (s : State) → is_odd xs ≡ false → (add_part tcl ask def xs s).0 ≢ fault
  unfolding add_part
  add_part-no_fault xs s e =
      let part = ask (mime_addpart s.easy.mime ∷ s.calls) in
      let s' : State = record s { calls = mime_addpart s.easy.mime ∷ s.calls } in
      let fine : (add_pairs tcl ask def part xs s').0 ≢ fault =
        rw (sym (arguments-pairs_of xs e)) (add_pairs-no_fault tcl ask def part (pairs_of xs) s') in
      elim (Bool-cases (part == 0)) [
        | inl refused ↦ rw refused (ground arith)
        | inr given ↦ rw given fine
      ]

  with_mime-no_fault :
      (xs : List String) (s : State) → is_odd xs ≡ false → (with_mime tcl ask def xs s).0 ≢ fault
  unfolding with_mime
  with_mime-no_fault xs s e =
      let mime = ask (mime_init s.easy.curl ∷ s.calls) in
      let s' : State = record s {
        easy = record s.easy { mime = mime };
        calls = mime_init s.easy.curl ∷ s.calls;
      } in
      elim (Bool-cases (s.easy.mime == 0)) [
        | inl first ↦ elim (Bool-cases (mime == 0)) [
          | inl refused ↦ rw (first, refused) (ground arith)
          | inr given ↦ rw (first, given) (add_part-no_fault xs s' e)
        ]
        | inr again ↦ rw again (add_part-no_fault xs s e)
      ]

  http_post-no_fault :
      (o : String) (s : State)
      → is_odd_list (tcl.list_elements o) ≡ false
      → (run_handler tcl ask Handler.http_post def o s).0 ≢ fault
  unfolding run_handler handle_http_post
  http_post-no_fault o s e = elim (Option-cases (tcl.list_elements o)) [
    | inl f ↦ rw f (ground arith)
    | inr (xs, f) ↦ rw f (with_mime-no_fault xs s (ap is_odd_list (sym f) ∙ e))
  ]

  install-no_fault : (o : String) (s : State) → (Procs.install_read_proc ask o s).0 ≢ fault
  unfolding Procs.install_read_proc
  install-no_fault o s = ground arith

  read_proc-no_fault :
      (o : String) (s : State) → (run_handler tcl ask Handler.read_proc def o s).0 ≢ fault
  unfolding run_handler Procs.handle_read_proc
  read_proc-no_fault o s =
      let s1 : State = record s { easy = record s.easy { read_proc = some o } } in
      install-no_fault o (Procs.stop_input ask s1).1

  shandle-no_fault :
      (o : String) (s : State)
      → ((log : List Call) → ask (get_command_info o ∷ log) ≡ 0)
      → (run_handler tcl ask Handler.setopt_shandle def o s).0 ≢ fault
  unfolding run_handler Sharing.handle_setopt_shandle attach
  shandle-no_fault o s nobody = ground (arith, nobody s.calls)

  other-no_fault :
      (k : Handler) (o : String) (s : State)
      → k ≢ Handler.http_post
      → k ≢ Handler.setopt_shandle
      → (run_handler tcl ask k def o s).0 ≢ fault
  unfolding run_handler set_char set_int set_long set_curl_off_t Misc.handle_post_fields
      Misc.handle_post_field_size Files.handle_out_file Files.handle_read_data Handlers.handle_netrc
      Misc.handle_transfer_text Misc.handle_mute Misc.handle_error_buffer
      Slists.handle_http_header_list Handlers.handle_ssl_version Slists.handle_quote_list
      Slists.handle_post_quote_list Files.handle_write_header Handlers.handle_time_condition
      Files.handle_stderr_file Procs.handle_header_var Procs.handle_body_var
      Procs.handle_progress_proc Procs.handle_cancel_trans_var_name Procs.handle_write_proc
      Procs.handle_read_proc Handlers.handle_http_version Slists.handle_prequote_list
      Procs.handle_debug_proc Handlers.handle_encoding Handlers.handle_proxy_type
      Slists.handle_http200_aliases Misc.handle_command Handlers.handle_http_auth
      Handlers.handle_proxy_auth Handlers.handle_ip_resolve Handlers.handle_ftp_ssl
      Misc.handle_obsolete Handlers.handle_ftp_ssl_auth Handlers.handle_ftp_file_method
      Handlers.handle_ssh_auth_types Handlers.handle_post_redir Misc.handle_protocol_mask
      Handlers.handle_ftp_ssl_ccc Procs.handle_ssh_key_function Slists.handle_mail_rcpt
      Procs.handle_chunk_bgn_proc Procs.handle_chunk_bgn_var Procs.handle_chunk_end_proc
      Procs.handle_fnmatch_proc Slists.handle_resolve_list Handlers.handle_tls_auth_type
      Handlers.handle_gss_api_delegation Slists.handle_telnet_options Misc.handle_cainfo_blob
  other-no_fault Handler.http_post o s n m = absurd (n refl)
  other-no_fault Handler.read_proc o s n m = read_proc-no_fault o s
  other-no_fault Handler.setopt_shandle o s n m = absurd (m refl)
  other-no_fault _ o s n m = ground arith

  pub handler-no_fault :
      (k : Handler) (o : String) (s : State)
      → (k ≡ Handler.http_post → is_odd_list (tcl.list_elements o) ≡ false)
      → (k ≡ Handler.setopt_shandle → (log : List Call) → ask (get_command_info o ∷ log) ≡ 0)
      → (run_handler tcl ask k def o s).0 ≢ fault
  handler-no_fault Handler.http_post o s e c = http_post-no_fault o s (e refl)
  handler-no_fault Handler.setopt_shandle o s e c = shandle-no_fault o s (c refl)
  handler-no_fault k o s e c = other-no_fault k o s (λ f. cc) (λ f. cc)
