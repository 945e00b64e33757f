-- ===== src/Options/Untouched/Links.antt =====
-- The commands setopt and configure keep the links of share handles a representation of lists.
use tclcurl_ng.Base.{
  ℕ, ◌<◌, ◌≡◌, ◌≢◌, refl, ap, ◌∙◌, inl, inr, String, List, [], ◌∷◌, Option, none, some, true, false,
  ◌==◌, arith, Bool-cases, get_elem?,
}
use tclcurl_ng.Api.{Tcl, Answers, easy_setopt, get_command_info, pointer}
use tclcurl_ng.Api.Monad.{State, Status, M, ok, error, fault}
use tclcurl_ng.Options.{OptionDef, Handler, error_set_opt}
use tclcurl_ng.Options.Run.{
  run_handler, run_def, set_opts, set_found, set_opts_transfer, missing_value, unless_error,
  config_transfer,
}
use tclcurl_ng.Options.Sharing.{detach_share_handle, attach, handle_setopt_shandle}
use tclcurl_ng.Options.Sharing.Users.{
  Alike, detach-Alike, detach-others, detach_share_handle_lem, handle_setopt_shandle-Rep,
}
use tclcurl_ng.Options.Table.{curl_option_defs, option_table, config_table}
use tclcurl_ng.Options.Untouched.{Untouched, unlinked}
use tclcurl_ng.Options.Untouched.Commands.{run_handler-Untouched}
use tclcurl_ng.Share.{Store, link}
use tclcurl_ng.Share.Rep.{Users, Rep, leave}
use tclcurl_ng.Share.Sound.{detach-Rep}

-- The links represent lists of users, the handle has an address of the store, and a command name
-- stands for no share handle or for a live one.
pub record Linked (s : State) : Type 0 where
  pub users : Users
  pub rep : Rep s.shares users
  pub positive : 0 < s.self
  pub below : s.self < s.shares.limit
  pub live : (o : String) → s.commands o ≢ 0 → s.shares.alive (s.commands o) ≡ true

pub Untouched-Linked : {a b : State} → Untouched a b → Linked a → Linked b
Untouched-Linked u v = record {
  users = v.users;
  rep = rw u.same_shares v.rep;
  positive = rw u.same_self v.positive;
  below = rw (u.same_self, u.same_shares) v.below;
  live = rw (u.same_commands, u.same_shares) v.live;
}

-- What an option may change of the links: the handle itself moves from one list to another.
pub record Rearranged (before after : State) : Type 0 where
  pub alike : Alike before.shares after.shares
  pub same_self : after.self ≡ before.self
  pub same_commands : after.commands ≡ before.commands
  pub others : (j : ℕ) → j ≢ before.self → after.shares.share_token j ≡ before.shares.share_token j

pub Rearranged-refl : (s : State) → Rearranged s s
Rearranged-refl s = record {
  alike = (refl, refl);
  same_self = refl;
  same_commands = refl;
  others = λ j n. refl;
}

pub Rearranged-Linked :
    {a b : State} (l : Users) → Rearranged a b → Rep b.shares l → Linked a → Linked b
Rearranged-Linked l r rep v = record {
  users = l;
  rep = rep;
  positive = rw r.same_self v.positive;
  below = rw (r.same_self, r.alike.1) v.below;
  live = rw (r.same_commands, r.alike.0) v.live;
}

-- A step of a command on the links.
pub record Moved (before after : State) : Type 0 where
  pub change : Rearranged before after
  pub keep : Linked before → Linked after

pub Moved-refl : (s : State) → Moved s s
Moved-refl s = record { change = Rearranged-refl s; keep = λ v. v }

pub Moved-trans : {a b c : State} → Moved a b → Moved b c → Moved a c
Moved-trans p q = record {
  change = record {
    alike = (q.change.alike.0 ∙ p.change.alike.0, q.change.alike.1 ∙ p.change.alike.1);
    same_self = q.change.same_self ∙ p.change.same_self;
    same_commands = q.change.same_commands ∙ p.change.same_commands;
    others = λ j n. q.change.others j (λ e. n (e ∙ p.change.same_self)) ∙ p.change.others j n;
  };
  keep = λ v. q.keep (p.keep v);
}

pub Untouched-Moved : {a b : State} → Untouched a b → Moved a b
Untouched-Moved u = record {
  change = record {
    alike = (ap (λ (s : Store). s.alive) u.same_shares, ap (λ (s : Store). s.limit) u.same_shares);
    same_self = u.same_self;
    same_commands = u.same_commands;
    others = λ j n. ap (λ (s : Store). s.share_token j) u.same_shares;
  };
  keep = Untouched-Linked u;
}

module _ (ask : Answers) (s : State) where
  detach_share_handle-same :
      ((detach_share_handle ask s).1.self ≡ s.self)
      × ((detach_share_handle ask s).1.commands ≡ s.commands)
  unfolding detach_share_handle
  detach_share_handle-same = ground arith

  pub detach_share_handle-Rearranged : Rearranged s (detach_share_handle ask s).1
  unfolding detach_share_handle
  detach_share_handle-Rearranged =
      let (alike, free) = detach-Alike s.self s.shares in
      rw (detach_share_handle_lem ask s) (record {
        alike = alike;
        same_self = detach_share_handle-same.0;
        same_commands = detach_share_handle-same.1;
        others = λ j n. detach-others s.self j s.shares n;
      })

  -- Leaving a share handle.
  pub detach_share_handle-Moved : Moved s (detach_share_handle ask s).1
  detach_share_handle-Moved = record {
    change = detach_share_handle-Rearranged;
    keep = λ v.
        Rearranged-Linked (leave s.self v.users) detach_share_handle-Rearranged
          (rw (detach_share_handle_lem ask s) (detach-Rep s.self v.rep)) v;
  }

  attach-others :
      (t j : ℕ) → j ≢ s.self → (attach ask t s).1.shares.share_token j ≡ s.shares.share_token j
  unfolding attach link
  attach-others t j n =
      let m = detach-others s.self j s.shares n in
      elim (Bool-cases (s.shares.share_token s.self == t)) [
        | inl same ↦ rw same refl
        | inr other ↦ rw (other, detach_share_handle_lem ask s) (ground (arith, m))
      ]

  attach-Rearranged : (t : ℕ) → Rearranged s (attach ask t s).1
  unfolding attach link
  attach-Rearranged t =
      let (alike, free) = detach-Alike s.self s.shares in
      let frame = attach-others t in
      elim (Bool-cases (s.shares.share_token s.self == t)) [
        | inl same ↦ rw same (Rearranged-refl s)
        | inr other ↦
            let e : s.shares.share_token s.self == t ≡ false = other in
            record {
              alike = rw (e, detach_share_handle_lem ask s) alike;
              same_self = rw e detach_share_handle-same.0;
              same_commands = rw e detach_share_handle-same.1;
              others = frame;
            }
      ]

module _ (ask : Answers) (def : OptionDef) (o : String) (s : State) where
  handle_setopt_shandle-Rearranged : Rearranged s (handle_setopt_shandle ask def o s).1
  unfolding handle_setopt_shandle error_set_opt
  handle_setopt_shandle-Rearranged =
      let c = easy_setopt s.easy.curl def.curl_opt (pointer (s.shares.shandle (s.commands o))) in
      let asked : State = record s { calls = c ∷ s.calls } in
      let r = attach-Rearranged ask asked (s.commands o) in
      elim (Bool-cases (s.commands o == 0)) [
        | inl unknown ↦ elim (Bool-cases (ask (get_command_info o ∷ s.calls) == 0)) [
          | inl nobody ↦ rw (unknown, nobody) (Untouched-Moved unlinked).change
          | inr other ↦ rw (unknown, other) (Untouched-Moved unlinked).change
        ]
        | inr known ↦ elim (Bool-cases (ask asked.calls == 0)) [
          | inl fine ↦
              rw (known, fine)
                (record {
                  alike = r.alike;
                  same_self = r.same_self;
                  same_commands = r.same_commands;
                  others = r.others;
                })
          | inr bad ↦ rw (known, bad) (Untouched-Moved unlinked).change
        ]
      ]

  -- Before the read that the model stops at.
  unmoved : s.commands o ≡ 0 → (handle_setopt_shandle ask def o s).1.shares ≡ s.shares
  unfolding handle_setopt_shandle
  unmoved e = ground (arith, e)

  handle_setopt_shandle-Moved : Moved s (handle_setopt_shandle ask def o s).1
  handle_setopt_shandle-Moved = record {
    change = handle_setopt_shandle-Rearranged;
    keep = λ v.
        elim (handle_setopt_shandle-Rep ask def o s v.users v.rep v.positive v.below (v.live o)) [
          | inl (l, rep, inside, succeeded) ↦
              Rearranged-Linked l handle_setopt_shandle-Rearranged rep v
          | inr (inl (same, failed)) ↦
              Rearranged-Linked v.users handle_setopt_shandle-Rearranged (rw same v.rep) v
          | inr (inr (none_there, someone, failed)) ↦
              Rearranged-Linked v.users handle_setopt_shandle-Rearranged
                (rw (unmoved none_there) v.rep) v
        ];
  }

module _ (tcl : Tcl) (ask : Answers) where
  shandle-Moved :
      (def : OptionDef) (o : String) (s : State)
      → Moved s (run_handler tcl ask Handler.setopt_shandle def o s).1
  unfolding run_handler
  shandle-Moved def o s = handle_setopt_shandle-Moved ask def o s

  run_handler-Moved :
      (h : Handler) (def : OptionDef) (o : String) (s : State)
      → Moved s (run_handler tcl ask h def o s).1
  run_handler-Moved Handler.setopt_shandle def o s = shandle-Moved def o s
  run_handler-Moved h def o s = Untouched-Moved (run_handler-Untouched tcl ask h def o s (λ e. cc))

  run_def-Moved :
      (def : Option OptionDef) (o : String) (s : State) → Moved s (run_def tcl ask def o s).1
  unfolding run_def
  run_def-Moved none o s = Moved-refl s
  run_def-Moved (some def) o s = run_handler-Moved def.handler def o s

  set_found-Moved : (i : Option ℕ) (o : String) (s : State) → Moved s (set_found tcl ask i o s).1
  unfolding set_found set_opts
  set_found-Moved none o s = Untouched-Moved unlinked
  set_found-Moved (some i) o s = run_def-Moved (get_elem? curl_option_defs i) o s

  pub set_opts_transfer-Moved :
      (name o : String) (s : State) → Moved s (set_opts_transfer tcl ask name o s).1
  unfolding set_opts_transfer
  set_opts_transfer-Moved name o s = set_found-Moved (tcl.get_index option_table name) o s

  missing-Moved : (i : Option ℕ) (s : State) → Moved s (missing_value tcl ask i s).1
  missing-Moved none s = Untouched-Moved unlinked
  missing-Moved (some i) s = Untouched-Moved unlinked

  unless_error-Moved :
      (status : Status) (rest : M Status) {s t : State}
      → Moved s t
      → Moved t (rest t).1
      → Moved s (unless_error tcl ask status rest t).1
  unless_error-Moved ok rest v w = Moved-trans v w
  unless_error-Moved error rest v w = v
  unless_error-Moved fault rest v w = v

  pub config_transfer-Moved :
      (words : List String) (s : State) → Moved s (config_transfer tcl ask words s).1
  unfolding config_transfer
  config_transfer-Moved [] s = Moved-refl s
  config_transfer-Moved (name ∷ []) s = missing-Moved (tcl.get_index config_table name) s
  config_transfer-Moved (name ∷ o ∷ rest) s =
      let step = set_found tcl ask (tcl.get_index config_table name) o s in
      unless_error-Moved step.0 (config_transfer tcl ask rest)
        (set_found-Moved (tcl.get_index config_table name) o s) (config_transfer-Moved rest step.1)

  -- The command `configure name o ...`, with any words and whatever libcurl answers, unless it faults:
  -- takes the client data of a command that is no share handle, or reads behind an -httppost list. It
  -- leaves the links between easy and share handles a representation of lists of users, the handle at
  -- an address of the store and every named share handle live.
  pub config_transfer-Linked :
      (words : List String) (s : State)
      → (config_transfer tcl ask words s).0 ≢ fault
      → Linked s
      → Linked (config_transfer tcl ask words s).1
  config_transfer-Linked words s sane v = (config_transfer-Moved words s).keep v
