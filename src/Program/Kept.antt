-- ===== src/Program/Kept.antt =====
-- The parts of the steps of a program: a struct that comes or is cleared, a share handle that goes
-- away, and a name for a new one.
use tclcurl_ng.Base.{
  ℕ, ◌≡◌, ◌≢◌, refl, sym, ap, ◌∙◌, inl, inr, String, List, [], ◌∷◌, Option, Bool, true, false, ◌==◌,
  ==_iff, arith, Bool-cases, Option-cases, str_eq, eq_iff,
}
use tclcurl_ng.Api.{Answers, easy_init, global_init}
use tclcurl_ng.Api.Easy.{CurlObjData}
use tclcurl_ng.Api.Monad.{State, Status, ok, error, fault, Message, literal}
use tclcurl_ng.Commands.{create_obj_cmd}
use tclcurl_ng.Handle.{init_obj_cmd}
use tclcurl_ng.Handle.Copy.{stray-Rep, update_same}
use tclcurl_ng.Handle.Session.{ends}
use tclcurl_ng.Options.Untouched.{Untouched, unlinked}
use tclcurl_ng.Program.{
  Program, nothing, IsUnused, enter, leave, forget, bind, bind_name, end_share,
}
use tclcurl_ng.Program.Links.{IsLinked, linked, update_cases}
use tclcurl_ng.Program.Share.{Without}
use tclcurl_ng.Share.{Store, update, clear_links}
use tclcurl_ng.Share.Chain.{has}
use tclcurl_ng.Share.Command.{Shared}
use tclcurl_ng.Share.Rep.{Users, Rep, dissolve}

pub nothing-IsLinked : (limit : ℕ) → IsLinked (nothing limit)
nothing-IsLinked limit = record {
  users = λ t. [];
  rep = record {
    chain = λ t live. refl;
    distinct = λ t. tt;
    token_of_has = λ t e h. absurd (ground (arith, h));
    null_empty = refl;
    has_of_token = λ e n. absurd (n refl);
    token_alive = λ e n. absurd (n refl);
    below_limit = λ t e h. absurd (ground (arith, h));
  };
  exist = λ t e h. absurd (ground (arith, h));
  owned = λ e n. refl;
  ranged = λ e d h. absurd (ground (arith, h));
  live = λ o n. absurd (n refl);
}

pub init_obj_cmd-Untouched :
    (ask : Answers) (print : ℕ → String) (taken : List String) (s : State)
    → Untouched s (init_obj_cmd ask print taken s).1
unfolding init_obj_cmd
init_obj_cmd-Untouched ask print taken s =
    elim (Bool-cases (ask (easy_init ∷ global_init ∷ s.calls) == 0)) [
      | inl refused ↦ rw refused unlinked
      | inr given ↦ elim (Option-cases (create_obj_cmd print taken)) [
        | inl e ↦ rw (given, e) unlinked
        | inr ((name, names), e) ↦ rw (given, e) unlinked
      ]
    ]

-- Clearing the links of an address that no handle has.
clear_links-Rep :
    (e : ℕ) {s : Store} {l : Users} → Rep s l → s.share_token e ≡ 0 → Rep (clear_links e s) l
unfolding clear_links
clear_links-Rep e {s} r free = rw (update_same s.share_token e 0 free) (stray-Rep e 0 r free)

pub clear_links-same :
    (e : ℕ) (s : Store)
    → ((clear_links e s).alive ≡ s.alive)
      × ((clear_links e s).limit ≡ s.limit)
      × ((clear_links e s).share_token ≡ update s.share_token e 0)
unfolding clear_links
clear_links-same e s = (refl, refl, refl)

pub ends_cleanup : (args : List String) → ends args ≡ true → args ≡ "cleanup" ∷ []
ends_cleanup [] h = absurd (ground (arith, h))
ends_cleanup (word ∷ []) h = ap (λ (x : String). x ∷ []) ((eq_iff word "cleanup").0 h)
ends_cleanup (a ∷ b ∷ args) h = absurd (ground (arith, h))

module _ (ask : Answers) (print : ℕ → String) (p : Program) (v : IsLinked p) where
  pub cleared-IsLinked :
      (e : ℕ) → IsUnused p e → IsLinked (record p { shares = clear_links e p.shares })
  cleared-IsLinked e u =
      let (alive, limit, tokens) = clear_links-same e p.shares in
      let free = v.owned e u.unused in
      linked v.users (clear_links-Rep e v.rep free)
        (λ j gone.
          ap (λ (f : ℕ → ℕ). f j) (tokens ∙ update_same p.shares.share_token e 0 free)
          ∙ v.owned j gone)
        (λ j d there. rw limit (v.ranged j d there)) (λ o n. rw alive (v.live o n))

  -- An unused address gets a struct, by a function that leaves the links alone.
  pub filled-IsLinked :
      (e : ℕ) (own : Option CurlObjData) (memory : CurlObjData) (after : State)
      → IsUnused p e
      → Untouched (enter p e memory) after
      → IsLinked (leave (update p.easy e own) after)
  filled-IsLinked e own memory after u w =
      linked v.users (rw w.same_shares v.rep)
        (λ j gone. rw w.same_shares (elim (update_cases p.easy e own j) [
          | inl (same, now) ↦ ap p.shares.share_token same ∙ v.owned e u.unused
          | inr (other, before) ↦ v.owned j (sym before ∙ gone)
        ]))
        (λ j d there. rw w.same_shares (elim (update_cases p.easy e own j) [
          | inl (same, now) ↦ rw same (u.positive, u.below)
          | inr (other, before) ↦ v.ranged j d (sym before ∙ there)
        ]))
        (λ o n.
          rw (w.same_shares, w.same_commands)
            (v.live o (λ z. n (ap (λ (f : String → ℕ). f o) w.same_commands ∙ z))))

dissolve-has : (t u e : ℕ) (l : Users) → has e (dissolve t l u) ≡ true → has e (l u) ≡ true
dissolve-has t u e l h = elim (Bool-cases (u == t)) [
  | inl same ↦ absurd (ground (arith, h, same))
  | inr other ↦ ground (arith, h, other)
]

module _ (p : Program) (v : IsLinked p) (t : ℕ) where
  live_left :
      (o : String)
      → forget t p.commands o ≢ 0
      → update p.shares.alive t false (forget t p.commands o) ≡ true
  live_left o n = elim (Bool-cases (p.commands o == t)) [
    | inl gone ↦ absurd (n (rw gone refl))
    | inr other ↦ let m : p.commands o ≢ 0 = λ z. n (rw other z) in rw (other, other) (v.live o m)
  ]

  -- A share handle goes away.
  pub Without-IsLinked :
      {s : Shared} → Without t v.users p.shares s.store → IsLinked (end_share t p s)
  Without-IsLinked {s} w =
      let dead : s.store.alive t ≡ false = rw (w.alive, (==_iff t t).1 refl) refl in
      rw dead (
        linked (dissolve t v.users) w.rep
          (λ j gone. elim (Bool-cases (s.store.share_token j == 0)) [
            | inl alone ↦ (==_iff (s.store.share_token j) 0).0 alone
            | inr used ↦
                let u = s.store.share_token j in
                let inside = w.rep.has_of_token j (ground (arith, used)) in
                absurd (v.exist u j (dissolve-has t u j v.users inside) gone)
          ])
          (λ j d there. rw w.limit (v.ranged j d there)) (λ o n. rw w.alive (live_left o n)))

  pub same-IsLinked :
      {s : Shared} → p.shares.alive t ≡ true → s.store ≡ p.shares → IsLinked (end_share t p s)
  same-IsLinked {s} live same =
      let still : s.store.alive t ≡ true = rw same live in
      rw still (
        linked v.users (rw same v.rep) (λ j gone. rw same (v.owned j gone))
          (λ j d there. rw same (v.ranged j d there)) (λ o n. rw same (v.live o n)))

module _ (t : ℕ) (commands : String → ℕ) (alive : ℕ → Bool)
    (old : (o : String) → commands o ≢ 0 → alive (commands o) ≡ true) where
  bind-live :
      (said : Message)
      → alive t ≡ true
      → (o : String) → bind t said commands o ≢ 0
      → alive (bind t said commands o) ≡ true
  bind-live (literal name) new o n = elim (Bool-cases (str_eq o name)) [
    | inl same ↦ rw same new
    | inr other ↦ let m : commands o ≢ 0 = λ z. n (rw other z) in rw other (old o m)
  ]
  bind-live _ new o n = old o n

  pub bind_name-live :
      (status : Status) (said : Message)
      → (status ≡ ok → alive t ≡ true)
      → (o : String) → bind_name t status said commands o ≢ 0
      → alive (bind_name t status said commands o) ≡ true
  bind_name-live ok said new o n = bind-live said (new refl) o n
  bind_name-live error said new o n = old o n
  bind_name-live fault said new o n = old o n
