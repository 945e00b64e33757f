-- ===== src/Options/Choices/Words.antt =====
-- What the words of the tables in Options/Choices become.
use tclcurl_ng.Base.{
  ℕ, zero, suc, ◌<◌, ◌≡◌, ◌≢◌, refl, sym, ap, ◌∙◌, String, List, [], ◌∷◌, Option, none, some, true,
  false, arith, ◌==◌, ==_iff, ◌↔◌, inl, inr, str_eq, eq_iff, Bool-cases, Option-cases, get_elem?,
  length,
}
use tclcurl_ng.Api.{Tcl, IsTcl, Answers, find_index, Call, easy_setopt, constant}
use tclcurl_ng.Api.Monad.{State, Status, M}
use tclcurl_ng.Options.Run.{run_handler}
use tclcurl_ng.Options.{OptionDef, Handler, report, error_set_opt}
use tclcurl_ng.Options.Choices
use tclcurl_ng.Options.Choices.{
  set_constant, http_auth_methods, http_auth_of, proxy_auth_of, postredir, post_redir_of,
}
use tclcurl_ng.Options.Choices.Handlers.{
  choice, handle_http_auth, handle_post_redir, handle_ssl_version, handle_ip_resolve,
  handle_ftp_ssl, handle_ftp_ssl_auth, handle_ssh_auth_types, handle_ftp_ssl_ccc,
  handle_tls_auth_type, handle_gss_api_delegation,
}
use tclcurl_ng.Options.Table.Names.{unique, find_index-unique}

-- A word that is found is the entry at its index.
pub differ : (a b : String) → str_eq a b ≡ false → a ≢ b
differ a b n e = ground (arith, (eq_iff a b).1 e)

get_elem?-find_index :
    (xs : List String) (o : String) (i : ℕ) → find_index xs o ≡ some i → get_elem? xs i ≡ some o
get_elem?-find_index [] o i e = ground arith
get_elem?-find_index (x ∷ xs) o i e = elim (Bool-cases (str_eq x o)) [
  | inl same ↦ let p = (eq_iff x o).0 same in let z : 0 ≡ i = ground arith in rw (sym z) (ap some p)
  | inr other ↦ elim (Option-cases (find_index xs o)) [
    | inl none_there ↦ ground arith
    | inr (k, found) ↦
        let z : suc k ≡ i = ground arith in rw (sym z) (get_elem?-find_index xs o k found)
  ]
]

abbrev images : List String → (ℕ → String) → List String
images [] const = []
images (x ∷ xs) const = const 0 ∷ images xs (λ i. const (suc i))

get_elem?-images :
    (xs : List String) (const : ℕ → String) (i : ℕ) {o : String}
    → get_elem? xs i ≡ some o
    → get_elem? (images xs const) i ≡ some (const i)
get_elem?-images [] const i e = ground arith
get_elem?-images (x ∷ xs) const zero e = refl
get_elem?-images (x ∷ xs) const (suc i) e = get_elem?-images xs (λ i. const (suc i)) i e

-- The handlers that are a `choice`, with the table, the `switch` statement that gives each word a
-- constant of its own, and the option.
pub data TellsApart : Handler → List String → (ℕ → String) → String → Type 0 where
  ssl_version :
      TellsApart Handler.ssl_version Choices.sslversion Choices.ssl_version_of "CURLOPT_SSLVERSION"
  ip_resolve :
      TellsApart Handler.ip_resolve Choices.ipresolve Choices.ip_resolve_of "CURLOPT_IPRESOLVE"
  ftp_ssl : TellsApart Handler.ftp_ssl Choices.ftpssl Choices.ftp_ssl_method_of "CURLOPT_USE_SSL"
  ftp_ssl_auth :
      TellsApart Handler.ftp_ssl_auth Choices.ftpsslauth Choices.ftp_ssl_auth_of
        "CURLOPT_FTPSSLAUTH"
  ssh_auth_types :
      TellsApart Handler.ssh_auth_types Choices.sshauthtypes Choices.ssh_auth_types_of
        "CURLOPT_SSH_AUTH_TYPES"
  post_redir :
      TellsApart Handler.post_redir Choices.postredir Choices.post_redir_of "CURLOPT_POSTREDIR"
  ftp_ssl_ccc :
      TellsApart Handler.ftp_ssl_ccc Choices.ftpsslccc Choices.ftp_ssl_ccc_of "CURLOPT_FTP_SSL_CCC"
  tls_auth_type :
      TellsApart Handler.tls_auth_type Choices.tlsauth Choices.tls_auth_type_of
        "CURLOPT_TLSAUTH_TYPE"
  gss_api_delegation :
      TellsApart Handler.gss_api_delegation Choices.gssapidelegation Choices.gss_api_delegation_of
        "CURLOPT_GSSAPI_DELEGATION"

images-unique :
    {k : Handler} {table : List String} {const : ℕ → String} {opt : String}
    → TellsApart k table const opt
    → unique (images table const) ≡ true
unfolding Choices.ssl_version_of Choices.http_auth_of Choices.ip_resolve_of
    Choices.ftp_ssl_method_of Choices.ftp_ssl_auth_of Choices.ssh_auth_types_of
    Choices.post_redir_of Choices.ftp_ssl_ccc_of Choices.tls_auth_type_of
    Choices.gss_api_delegation_of
images-unique ssl_version = refl
images-unique ip_resolve = refl
images-unique ftp_ssl = refl
images-unique ftp_ssl_auth = refl
images-unique ssh_auth_types = refl
images-unique post_redir = refl
images-unique ftp_ssl_ccc = refl
images-unique tls_auth_type = refl
images-unique gss_api_delegation = refl

some_inj {ℓ} : {A : Type ℓ} {a b : A} → some a ≡ some b → a ≡ b
some_inj {a = a} e = ap (λ o. elim o [ none ↦ a | some x ↦ x ]) e

some_of : {o : Option ℕ} → o ≢ none → (i : ℕ) × (o ≡ some i)
some_of {o = none} n = absurd (n refl)
some_of {o = some i} n = (i, refl)

-- The constant in the last call.
last_constant : List Call → String
last_constant (easy_setopt h opt (constant c) ∷ cs) = c
last_constant _ = ""

same_index :
    (table : List String) (const : ℕ → String) (o o' : String) (i j : ℕ)
    → unique (images table const) ≡ true
    → find_index table o ≡ some i
    → find_index table o' ≡ some j
    → const i ≡ const j
    → o ≡ o'
same_index table const o o' i j u e f c =
    let x = get_elem?-find_index table o i e in
    let y = get_elem?-find_index table o' j f in
    let p = find_index-unique (images table const) i u (get_elem?-images table const i x) in
    let q = find_index-unique (images table const) j u (get_elem?-images table const j y) in
    let r : i ≡ j = some_inj (sym p ∙ ap (find_index (images table const)) c ∙ q) in
    some_inj (sym x ∙ ap (get_elem? table) r ∙ y)

last_constant-same :
    {h h' : ℕ} {opt opt' c c' : String} {cs cs' : List Call}
    → easy_setopt h opt (constant c) ∷ cs ≡ easy_setopt h' opt' (constant c') ∷ cs'
    → c ≡ c'
unfolding last_constant
last_constant-same e = ap last_constant e

module _ (tcl : Tcl) (ask : Answers) where
  choice_calls :
      (table : List String) (const : ℕ → String) (opt : String) (def : OptionDef) (o : String)
      (s : State) (i : ℕ)
      → tcl.get_index table o ≡ some i
      → (choice tcl ask table const opt def o s).1.calls
        ≡ easy_setopt s.easy.curl opt (constant (const i)) ∷ s.calls
  unfolding choice set_constant report error_set_opt
  choice_calls table const opt def o s i e = ground arith

  choice_silent :
      (table : List String) (const : ℕ → String) (opt : String) (def : OptionDef) (o : String)
      (s : State)
      → tcl.get_index table o ≡ none
      → (choice tcl ask table const opt def o s).1.calls ≡ s.calls
  unfolding choice
  choice_silent table const opt def o s e = ground arith

  run_handler-choice :
      {k : Handler} {table : List String} {const : ℕ → String} {opt : String}
      → TellsApart k table const opt
      → (def : OptionDef) (o : String)
      → run_handler tcl ask k def o ≡ choice tcl ask table const opt def o
  unfolding run_handler handle_ssl_version handle_ip_resolve handle_ftp_ssl handle_ftp_ssl_auth
      handle_ssh_auth_types handle_post_redir handle_ftp_ssl_ccc handle_tls_auth_type
      handle_gss_api_delegation
  run_handler-choice ssl_version def o = refl
  run_handler-choice ip_resolve def o = refl
  run_handler-choice ftp_ssl def o = refl
  run_handler-choice ftp_ssl_auth def o = refl
  run_handler-choice ssh_auth_types def o = refl
  run_handler-choice post_redir def o = refl
  run_handler-choice ftp_ssl_ccc def o = refl
  run_handler-choice tls_auth_type def o = refl
  run_handler-choice gss_api_delegation def o = refl

  choice-same :
      {k : Handler} (table : List String) (const : ℕ → String) (opt : String) (def : OptionDef)
      (o o' : String) (s : State)
      → IsTcl tcl
      → TellsApart k table const opt
      → find_index table o ≢ none
      → find_index table o' ≢ none
      → (choice tcl ask table const opt def o s).1.calls
        ≡ (choice tcl ask table const opt def o' s).1.calls
      → o ≡ o'
  choice-same table const opt def o o' s v apart known known' same =
      let (i, e) = some_of known in
      let (j, f) = some_of known' in
      let p = choice_calls table const opt def o s i (v.exact table o ∙ e) in
      let q = choice_calls table const opt def o' s j (v.exact table o' ∙ f) in
      same_index table const o o' i j (images-unique apart) e f
        (last_constant-same (sym p ∙ same ∙ q))

  -- With a conforming Tcl library and one of the nine handlers in TellsApart: two different words of
  -- the handler's table make it pass different values to libcurl.
  pub run_handler-injective :
      {k : Handler} (table : List String) (const : ℕ → String) (opt : String) (def : OptionDef)
      (o o' : String) (s : State)
      → IsTcl tcl
      → TellsApart k table const opt
      → find_index table o ≢ none
      → find_index table o' ≢ none
      → o ≢ o'
      → (run_handler tcl ask k def o s).1.calls ≢ (run_handler tcl ask k def o' s).1.calls
  run_handler-injective table const opt def o o' s v apart known known' n same =
      let p = ap (λ (m : M Status). (m s).1.calls) (run_handler-choice apart def o) in
      let q = ap (λ (m : M Status). (m s).1.calls) (run_handler-choice apart def o') in
      n (choice-same table const opt def o o' s v apart known known' (sym p ∙ same ∙ q))

  set_constant-easy :
      (opt : String) (def : OptionDef) (c : String) (s : State)
      → (set_constant ask opt def c s).1.easy ≡ s.easy
  unfolding set_constant report error_set_opt
  set_constant-easy opt def c s = ground arith

  any_index :
      (o : String) (i : ℕ)
      → find_index http_auth_methods o ≡ some i
      → ((i == 5) ≡ true) ↔ (o ≡ "any")
  any_index o i e = (
    λ five. some_inj (
        sym (get_elem?-find_index http_auth_methods o i e)
        ∙ ap (get_elem? http_auth_methods) ((==_iff i 5).0 five)),
    λ any. (==_iff i 5).1 (some_inj (sym e ∙ ap (find_index http_auth_methods) any)),
  )

  -- With a conforming Tcl library and a word of the table: -httpauth sets anyAuthFlag, by which a
  -- later transfer installs the seek callback, exactly for the word any.
  handle_http_auth-any_auth_flag :
      (def : OptionDef) (o : String) (s : State)
      → IsTcl tcl
      → find_index http_auth_methods o ≢ none
      → ((handle_http_auth tcl ask def o s).1.easy.any_auth_flag ≡ true) ↔ (o ≡ "any")
  unfolding handle_http_auth
  handle_http_auth-any_auth_flag def o s v known =
      let (i, e) = some_of known in
      let flagged = record s { easy = record s.easy { any_auth_flag = i == 5 } } in
      rw
        (
          v.exact http_auth_methods o,
          e,
          set_constant-easy "CURLOPT_HTTPAUTH" def (http_auth_of i) flagged,
        )
        (any_index o i e)

  never_all :
      (i : ℕ) {o : String}
      → get_elem? postredir i ≡ some o
      → post_redir_of i ≢ "CURL_REDIR_POST_ALL"
  unfolding post_redir_of
  never_all zero e = differ _ _ refl
  never_all (suc zero) e = differ _ _ refl
  never_all (suc (suc zero)) e = differ _ _ refl
  never_all (suc (suc (suc i))) e = ground arith

  -- With a conforming Tcl library: whatever the word, -postredir does not pass CURL_REDIR_POST_ALL.
  pub handle_post_redir-never_all :
      (def : OptionDef) (o : String) (s : State)
      → IsTcl tcl
      → (handle_post_redir tcl ask def o s).1.calls
        ≢ easy_setopt s.easy.curl "CURLOPT_POSTREDIR" (constant "CURL_REDIR_POST_ALL") ∷ s.calls
  unfolding handle_post_redir
  handle_post_redir-never_all def o s v same = elim (Option-cases (find_index postredir o)) [
    | inl e ↦
        let p : length s.calls ≡ suc (length s.calls) = ap length (
          sym (
            choice_silent postredir post_redir_of "CURLOPT_POSTREDIR" def o s
              (v.exact postredir o ∙ e))
          ∙ same) in
        ground arith
    | inr (i, e) ↦
        let p =
          choice_calls postredir post_redir_of "CURLOPT_POSTREDIR" def o s i
            (v.exact postredir o ∙ e) in
        never_all i (get_elem?-find_index postredir o i e) (last_constant-same (sym p ∙ same))
  ]

-- -proxyauth and -httpauth read the same table of eight words, but they agree on the constant only for
-- the first two, basic and digest.
pub proxy_auth_of-http_auth_of :
    (i : ℕ) → i < length http_auth_methods → (proxy_auth_of i ≡ http_auth_of i) ↔ (i < 2)
unfolding proxy_auth_of http_auth_of
proxy_auth_of-http_auth_of zero small = ground arith
proxy_auth_of-http_auth_of (suc zero) small = ground arith
proxy_auth_of-http_auth_of (suc (suc zero)) small =
    (λ e. absurd (differ _ _ refl e), λ l. absurd (ground arith))
proxy_auth_of-http_auth_of (suc (suc (suc zero))) small =
    (λ e. absurd (differ _ _ refl e), λ l. absurd (ground arith))
proxy_auth_of-http_auth_of (suc (suc (suc (suc zero)))) small =
    (λ e. absurd (differ _ _ refl e), λ l. absurd (ground arith))
proxy_auth_of-http_auth_of (suc (suc (suc (suc (suc zero))))) small =
    (λ e. absurd (differ _ _ refl e), λ l. absurd (ground arith))
proxy_auth_of-http_auth_of (suc (suc (suc (suc (suc (suc zero)))))) small =
    (λ e. absurd (differ _ _ refl e), λ l. absurd (ground arith))
proxy_auth_of-http_auth_of (suc (suc (suc (suc (suc (suc (suc zero))))))) small =
    (λ e. absurd (differ _ _ refl e), λ l. absurd (ground arith))
proxy_auth_of-http_auth_of (suc (suc (suc (suc (suc (suc (suc (suc i)))))))) small = ground arith
