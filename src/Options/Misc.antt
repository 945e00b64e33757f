-- ===== src/Options/Misc.antt =====
-- The remaining option handlers of generic/curl_setopts.c, and TclCurl_ErrorBuffer and
-- TclCurl_JoinList of generic/curl_utils.c.
use Prim.Native.String
use tclcurl_ng.Base.{
  ℤ, String, List, [], ◌∷◌, Option, none, some, true, false, ◌==◌, if◌then◌else◌, str_eq,
}
use tclcurl_ng.Api.{Tcl, Answers, tcl_free, free_error_buffer, text, error_buffer}
use tclcurl_ng.Api.Monad.{
  Status, ok, error, M, pure, ◌>>=◌, ◌>>◌, get, modify, call, set_result, tcl_message,
}
use tclcurl_ng.Options.{OptionDef, error_set_opt, setopt, set_int, set_blob}

-- The loop of TclCurl_JoinList after the first element.
unfoldable pub join_rest : String → List String → String
join_rest sep [] = ""
join_rest sep (x ∷ xs) = String.◌++◌ sep (String.◌++◌ x (join_rest sep xs))

unfoldable pub join_list : String → List String → String
unfolding join_rest
join_list sep [] = ""
join_list sep (x ∷ xs) = String.◌++◌ x (join_rest sep xs)

abbrev pub get_or_null : Option String → String
get_or_null none = "option is obsolete"
get_or_null (some m) = m

module _ (ask : Answers) where
  unfoldable pub handle_post_fields : String → M Status
  handle_post_fields o = do
    d ← get
    call ask (tcl_free d.post_fields)
    modify λ d. record d { post_fields = some o }
    pure ok

  unfoldable pub handle_command : String → M Status
  handle_command o = do
    d ← get
    call ask (tcl_free d.command)
    modify λ d. record d { command = some o }
    pure ok

  unfoldable pub handle_mute : M Status
  handle_mute = pure ok

  unfoldable pub handle_obsolete : OptionDef → M Status
  unfolding error_set_opt
  handle_obsolete def = do error_set_opt def (get_or_null def.error_message); pure error

  -- curl is at least 7.77
  unfoldable pub handle_cainfo_blob : OptionDef → String → M Status
  unfolding set_blob
  handle_cainfo_blob = set_blob ask "CURLOPT_CAINFO_BLOB"

  -- The `switch` of TclCurl_ErrorBuffer for exit codes 0 and 1.
  unfoldable pub set_buffer_names : String → Option (String × String) → M (Unit {0})
  set_buffer_names o none = do
    if str_eq o ""
        then (modify λ d. record d { error_buffer = false })
        else (modify λ d. record d { error_buffer_name = some o })
    modify λ d. record d { error_buffer_key = none }
  set_buffer_names o (some (array, key)) =
      modify λ d. record d { error_buffer_name = some array; error_buffer_key = some key }

  unfoldable pub pass_buffer : Option String → M Status
  pass_buffer (some name) = do
    modify λ d. record d { error_buffer = true }
    code ← setopt ask "CURLOPT_ERRORBUFFER" error_buffer
    if code == 0 then pure ok else (do
      call ask (free_error_buffer true)
      modify λ d. record d { error_buffer = false }
      pure error)
  pass_buffer none = do d ← get; call ask (free_error_buffer d.error_buffer); pure ok

  -- TclCurl_ErrorBuffer
  unfoldable pub handle_error_buffer : String → Option (Option (String × String)) → M Status
  unfolding set_buffer_names pass_buffer
  handle_error_buffer o none = do call ask (tcl_free (some o)); pure error
  handle_error_buffer o (some names) = do
    set_buffer_names o names
    call ask (tcl_free (some o))
    d ← get
    pass_buffer d.error_buffer_name

  -- TclCurl_HandleProtocolMask, on the elements of the list
  unfoldable pub handle_protocol_mask : Option (List String) → M Status
  unfolding join_list
  handle_protocol_mask none = do set_result tcl_message; pure error
  handle_protocol_mask (some protocols) = do
    setopt ask "CURLOPT_PROTOCOLS_STR" (text (join_list "," protocols))
    pure ok

  unfoldable pub handle_post_field_size : OptionDef → String → Option ℤ → M Status
  unfolding error_set_opt
  handle_post_field_size def o none = do error_set_opt def o; pure error
  handle_post_field_size def o (some n) = do modify λ d. record d { post_field_size = n }; pure ok

  abbrev pub store_transfer_text : Option ℤ → Status → M Status
  store_transfer_text (some n) ok = do modify λ d. record d { transfer_text = n }; pure ok
  store_transfer_text none ok = pure ok
  store_transfer_text n _ = pure error

module _ (tcl : Tcl) (ask : Answers) where
  unfoldable pub handle_transfer_text : OptionDef → String → M Status
  unfolding set_int
  handle_transfer_text def o =
      set_int tcl ask def.curl_opt def o >>= store_transfer_text ask (tcl.get_int o)
