-- ===== src/Options.antt =====
-- The option machinery of generic/curl_setopts.h and generic/curl_setopts.c: what a row of the
-- option table holds, and the setters for one value (SetoptInt to SetoptBlob, SetoptsList).
pub mod Slists
pub mod Choices
pub mod Files
pub mod Procs
pub mod Sharing
pub mod Misc
pub mod Table
pub mod Run
pub mod Sequence
pub mod Sound
pub mod Untouched
pub mod Apart
pub mod Faults
pub mod Wires
use tclcurl_ng.Base.{ℕ, ℤ, String, Bool, List, [], Option, none, some, ◌==◌, if◌then◌else◌}
use tclcurl_ng.Api.{
  Tcl, Answers, Call, easy_setopt, slist_free_all, tcl_free, fclose, Arg, int, text, slist, blob,
}
use tclcurl_ng.Api.Easy.{CurlObjData}
use tclcurl_ng.Api.Monad.{
  Message, setting_option, Status, ok, error, M, pure, ◌>>=◌, ◌>>◌, get, modify, set_result, call,
}

-- The functions of the `handler` column.
pub data Handler : Type 0 where
  setopt_char setopt_int setopt_long setopt_curl_off_t post_fields post_field_size : Handler
  setopt_shandle out_file read_data netrc transfer_text mute error_buffer : Handler
  http_header_list ssl_version quote_list post_quote_list write_header : Handler
  time_condition stderr_file header_var body_var progress_proc : Handler
  cancel_trans_var_name write_proc read_proc http_version prequote_list : Handler
  debug_proc encoding proxy_type http200_aliases command http_auth proxy_auth : Handler
  ip_resolve ftp_ssl obsolete ftp_ssl_auth ftp_file_method ssh_auth_types : Handler
  post_redir protocol_mask ftp_ssl_ccc ssh_key_function mail_rcpt : Handler
  chunk_bgn_proc chunk_bgn_var chunk_end_proc fnmatch_proc resolve_list : Handler
  tls_auth_type gss_api_delegation telnet_options cainfo_blob http_post : Handler

-- A row of the option table. `curl_opt` is "0" in the rows whose handler does not read it.
pub record OptionDef : Type 0 where
  pub option_name : String
  pub config_name : String
  pub handler : Handler
  pub curl_opt : String
  pub error_message : Option String

-- curlErrorSetOpt
unfoldable pub error_set_opt : OptionDef → String → M (Unit {0})
error_set_opt def par = set_result (setting_option def.config_name par)

module _ (ask : Answers) where
  -- curl_easy_setopt on the handle's own `CURL *`
  abbrev pub setopt : String → Arg → M ℕ
  setopt opt a = do d ← get; call ask (easy_setopt d.curl opt a)

  -- What follows a call of curl_easy_setopt in the setters.
  unfoldable pub report : OptionDef → String → ℕ → M Status
  unfolding error_set_opt
  report def par code = if code == 0 then pure ok else (do error_set_opt def par; pure error)

  unfoldable pub setopt_number : Option ℤ → String → OptionDef → String → M Status
  unfolding report error_set_opt
  setopt_number none opt def o = do error_set_opt def o; pure error
  setopt_number (some n) opt def o = setopt opt (int n) >>= report def o

  -- SetoptChar
  unfoldable pub set_char : String → OptionDef → String → M Status
  unfolding report
  set_char opt def o = do
    code ← setopt opt (text o)
    status ← report def o code
    call ask (tcl_free (some o))
    pure status

  -- SetoptBlob; Tcl_GetByteArrayFromObj does not return NULL
  unfoldable pub set_blob : String → OptionDef → String → M Status
  unfolding report
  set_blob opt def o = setopt opt (blob o) >>= report def "..."

module _ (tcl : Tcl) (ask : Answers) where
  -- SetoptInt
  unfoldable pub set_int : String → OptionDef → String → M Status
  unfolding setopt_number
  set_int opt def o = setopt_number ask (tcl.get_int o) opt def o

  -- SetoptLong
  unfoldable pub set_long : String → OptionDef → String → M Status
  unfolding setopt_number
  set_long opt def o = setopt_number ask (tcl.get_long o) opt def o

  -- SetoptCurlOffT
  unfoldable pub set_curl_off_t : String → OptionDef → String → M Status
  unfolding setopt_number
  set_curl_off_t opt def o = setopt_number ask (tcl.get_wide o) opt def o
