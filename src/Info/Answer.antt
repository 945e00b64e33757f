-- ===== src/Info/Answer.antt =====
-- What getinfo answers for any word, and the calls of libcurl that it makes.
use tclcurl_ng.Base.{
  ℕ, zero, suc, ◌<◌, ◌≡◌, ◌≢◌, refl, ap, ◌⊎◌, inl, inr, String, List, [], ◌∷◌, ◌++◌, Option, none,
  some, false, arith, ◌==◌, ==_iff, Bool-cases, Option-cases, get_elem?, length, str_eq,
}
use tclcurl_ng.Api.{
  Tcl, IsTcl, Answers, Infos, Value, Call, easy_getinfo, slist_free_all, find_index,
}
use tclcurl_ng.Api.Monad.{State, tcl_message}
use tclcurl_ng.Info.{
  InfoKind, string, long, double, wide, auth, slist, certs, get_info_table, info_cases, read_info,
  get_info_case, get_info_at, get_info,
}
use tclcurl_ng.Options.Table.Names.{member}

find_index-member : (xs : List String) (o : String) → find_index xs o ≡ none → member o xs ≡ false
find_index-member [] o e = refl
find_index-member (x ∷ xs) o e = elim (Bool-cases (str_eq x o)) [
  | inl same ↦ ground arith
  | inr other ↦ elim (Option-cases (find_index xs o)) [
    | inl nowhere ↦ rw (other, find_index-member xs o nowhere) refl
    | inr (i, later) ↦ ground arith
  ]
]

find_index-below :
    (xs : List String) (o : String) (i : ℕ) → find_index xs o ≡ some i → i < length xs
find_index-below [] o i e = ground arith
find_index-below (x ∷ xs) o i e = elim (Option-cases (find_index xs o)) [
  | inl nowhere ↦ ground arith
  | inr (j, later) ↦ ground (arith, find_index-below xs o j later)
]

get_elem?-below {ℓ} :
    {A : Type ℓ} (xs : List A) (i : ℕ) → i < length xs → (x : A) × (get_elem? xs i ≡ some x)
get_elem?-below [] i below = ground arith
get_elem?-below (x ∷ xs) zero below = (x, refl)
get_elem?-below (x ∷ xs) (suc i) below = get_elem?-below xs i (omega (arith, below))

-- The three ends of getinfo for `word`, whose result is `r`.
pub record IsUnknown (word : String) (s : State) (r : Option Value × State) : Type 0 where
  pub unlisted : member word get_info_table ≡ false
  pub result : r ≡ (none, record s { result = tcl_message })

abbrev pub asked : State → String → List Call
asked s opt = easy_getinfo s.easy.curl opt ∷ s.calls

-- The case of the switch for `word`.
pub record IsCase (word : String) (kind : InfoKind) (opt : String) : Type 0 where
  pub index : ℕ
  pub listed : find_index get_info_table word ≡ some index
  pub case : get_elem? info_cases index ≡ some (kind, opt)

pub record IsUnanswered (ask : Answers) (word : String) (s : State) (r : Option Value × State)
    : Type 0 where
  pub kind : InfoKind
  pub opt : String
  pub known : IsCase word kind opt
  pub refused : ask (asked s opt) ≢ 0
  pub result : r ≡ (none, record s { calls = asked s opt })

-- What is freed after the answer: the list of a slist, once.
abbrev pub frees : InfoKind → List String → List Call
frees slist list = slist_free_all list ∷ []
frees _ list = []

pub record IsAnswered (ask : Answers) (infos : Infos) (word : String) (s : State)
    (r : Option Value × State) : Type 0 where
  pub kind : InfoKind
  pub opt : String
  pub known : IsCase word kind opt
  pub accepted : ask (asked s opt) ≡ 0
  pub value : Value
  pub result :
      r
      ≡ (some value, record s { calls = frees kind (infos.slist_ptr (asked s opt)) ++ asked s opt })

read_info_lem :
    (ask : Answers) (infos : Infos) (kind : InfoKind) (s : State)
    → (read_info ask infos kind s).1
      ≡ record s { calls = frees kind (infos.slist_ptr s.calls) ++ s.calls }
unfolding read_info
read_info_lem ask infos string s = refl
read_info_lem ask infos long s = refl
read_info_lem ask infos double s = refl
read_info_lem ask infos wide s = refl
read_info_lem ask infos auth s = refl
read_info_lem ask infos slist s = refl
read_info_lem ask infos certs s = refl

module _ (tcl : Tcl) (exact : IsTcl tcl) (ask : Answers) (infos : Infos) (word : String)
    (s : State) where
  -- getinfo, where the search for a word is exact, ends in one of three ways. A word outside the table
  -- makes no call and leaves the search's message. A word of the table makes one call of
  -- curl_easy_getinfo, with the constant of its case: if libcurl refuses, there is no value; if it
  -- accepts, there is one, and a slist that libcurl gave is freed exactly once, the certificates not.
  -- Nothing else of the state changes.
  pub get_info_lem :
      IsUnknown word s (get_info tcl ask infos word s)
      ⊎ IsUnanswered ask word s (get_info tcl ask infos word s)
      ⊎ IsAnswered ask infos word s (get_info tcl ask infos word s)
  unfolding get_info get_info_at get_info_case
  get_info_lem =
      let at = exact.exact get_info_table word in
      elim (Option-cases (find_index get_info_table word)) [
        | inl e ↦
            rw (at, e)
              (inl (record { unlisted = find_index-member get_info_table word e; result = refl }))
        | inr (i, e) ↦
            let ((kind, opt), c) =
              get_elem?-below info_cases i (find_index-below get_info_table word i e) in
            let known : IsCase word kind opt = record { index = i; listed = e; case = c } in
            elim (Bool-cases (ask (asked s opt) == 0)) [
              | inl accepted ↦
                  let ended = read_info_lem ask infos kind (record s { calls = asked s opt }) in
                  rw (at, e, c, accepted)
                    (inr (
                      inr (record {
                        kind = kind;
                        opt = opt;
                        known = known;
                        accepted = (==_iff (ask (asked s opt)) 0).0 accepted;
                        value = (read_info ask infos kind (record s { calls = asked s opt })).0;
                        result =
                            ap
                              (λ (t : State). (
                                some
                                    (read_info ask infos kind (record s { calls = asked s opt })).0,
                                t,
                              ))
                              ended;
                      })))
              | inr refused ↦
                  rw (at, e, c, refused)
                    (inr (
                      inl (record {
                        kind = kind;
                        opt = opt;
                        known = known;
                        refused = λ z. ground arith;
                        result = refl;
                      })))
            ]
      ]
