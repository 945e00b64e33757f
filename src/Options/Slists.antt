-- ===== src/Options/Slists.antt =====
-- The options that hold a `struct curl_slist *`: SetoptsList of generic/tclcurl.c and its handlers
-- in generic/curl_setopts.c.
pub mod Branches
use tclcurl_ng.Base.{ℕ, String, List, [], Option, none, some, ◌==◌, if◌then◌else◌}
use tclcurl_ng.Api.{Tcl, Answers, slist_free_all, slist}
use tclcurl_ng.Api.Easy.{CurlObjData}
use tclcurl_ng.Api.Monad.{Status, ok, error, M, pure, ◌>>=◌, ◌>>◌, get, modify, call}
use tclcurl_ng.Options.{OptionDef, error_set_opt, setopt}

-- A field of the struct, such as `&curlData->quote`.
pub record Field : Type 0 where
  pub read : CurlObjData → List String
  pub write : List String → CurlObjData → CurlObjData

abbrev pub header_list : Field
header_list = record { read = λ d. d.header_list; write = λ l d. record d { header_list = l } }

abbrev pub quote : Field
quote = record { read = λ d. d.quote; write = λ l d. record d { quote = l } }

abbrev pub prequote : Field
prequote = record { read = λ d. d.prequote; write = λ l d. record d { prequote = l } }

abbrev pub postquote : Field
postquote = record { read = λ d. d.postquote; write = λ l d. record d { postquote = l } }

abbrev pub http200aliases : Field
http200aliases = record {
  read = λ d. d.http200aliases;
  write = λ l d. record d { http200aliases = l };
}

abbrev pub mailrcpt : Field
mailrcpt = record { read = λ d. d.mailrcpt; write = λ l d. record d { mailrcpt = l } }

abbrev pub resolve : Field
resolve = record { read = λ d. d.resolve; write = λ l d. record d { resolve = l } }

abbrev pub telnetoptions : Field
telnetoptions = record {
  read = λ d. d.telnetoptions;
  write = λ l d. record d { telnetoptions = l };
}

abbrev pub maybe_report : OptionDef → Option String → M (Unit {0})
maybe_report def none = pure tt
maybe_report def (some message) = error_set_opt def message

module _ (tcl : Tcl) (ask : Answers) where
  -- The elements are appended one by one; an append does not fail while there is memory.
  unfoldable pub fill : Field → Option (List String) → M Status
  fill f none = pure error
  fill f (some xs) = do modify (f.write xs); pure ok

  unfoldable pub setopts_list : Field → String → M Status
  unfolding fill
  setopts_list f o = do
    d ← get
    call ask (slist_free_all (f.read d))
    modify (f.write [])
    fill f (tcl.list_elements o)

  -- The call of curl_easy_setopt with the new list; if libcurl refuses it, the list is freed.
  unfoldable pub pass_list : Field → String → OptionDef → Option String → M Status
  pass_list f opt def refused = do
    d ← get
    code ← setopt ask opt (slist (f.read d))
    if code == 0 then pure ok else (do
      maybe_report def refused
      call ask (slist_free_all (f.read d))
      modify (f.write [])
      pure error)

  unfoldable pub after_list :
      Field
      → String
      → OptionDef
      → (invalid : String) → (refused : Option String) → Status
      → M Status
  unfolding pass_list error_set_opt
  after_list f opt def invalid refused ok = pass_list f opt def refused
  after_list f opt def invalid refused _ = do error_set_opt def invalid; pure error

  unfoldable pub list_option :
      Field
      → String
      → (invalid : String) → (refused : Option String) → OptionDef
      → String
      → M Status
  unfolding setopts_list after_list
  list_option f opt invalid refused def o =
      setopts_list f o >>= after_list f opt def invalid refused

  unfoldable pub handle_http_header_list : OptionDef → String → M Status
  unfolding list_option
  handle_http_header_list = list_option header_list "CURLOPT_HTTPHEADER" "Header list invalid" none

  unfoldable pub handle_quote_list : OptionDef → String → M Status
  unfolding list_option
  handle_quote_list =
      list_option quote "CURLOPT_QUOTE" "quote list invalid" (some "quote list invalid")

  unfoldable pub handle_post_quote_list : OptionDef → String → M Status
  unfolding list_option
  handle_post_quote_list =
      list_option postquote "CURLOPT_POSTQUOTE" "postquote invalid" (some "postquote invalid")

  unfoldable pub handle_prequote_list : OptionDef → String → M Status
  unfolding list_option
  handle_prequote_list =
      list_option prequote "CURLOPT_PREQUOTE" "prequote invalid" (some "prequote invalid")

  unfoldable pub handle_http200_aliases : OptionDef → String → M Status
  unfolding list_option
  handle_http200_aliases =
      list_option http200aliases "CURLOPT_HTTP200ALIASES" "http200aliases invalid"
        (some "http200aliases invalid")

  unfoldable pub handle_mail_rcpt : OptionDef → String → M Status
  unfolding list_option
  handle_mail_rcpt =
      list_option mailrcpt "CURLOPT_MAIL_RCPT" "mailrcpt invalid" (some "mailrcpt invalid")

  unfoldable pub handle_resolve_list : OptionDef → String → M Status
  unfolding list_option
  handle_resolve_list =
      list_option resolve "CURLOPT_RESOLVE" "invalid list" (some "resolve list invalid")

  unfoldable pub handle_telnet_options : OptionDef → String → M Status
  unfolding list_option
  handle_telnet_options =
      list_option telnetoptions "CURLOPT_TELNETOPTIONS" "invalid list"
        (some "telnetoptions list invalid")
