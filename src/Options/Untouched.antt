-- ===== src/Options/Untouched.antt =====
-- What no option but -share touches: the links between easy and share handles.
pub mod Parts
pub mod Files
pub mod Procs
pub mod Slists
pub mod Misc
pub mod Commands
pub mod Links
use tclcurl_ng.Base.{ℕ, String, List, ◌≡◌, refl, ◌∙◌}
use tclcurl_ng.Api.{Call}
use tclcurl_ng.Api.Easy.{CurlObjData}
use tclcurl_ng.Api.Monad.{State, Message}
use tclcurl_ng.Share.{Store}

-- Of the handle the links, the address and the command names stay.
pub record Untouched (before after : State) : Type 0 where
  pub same_shares : after.shares ≡ before.shares
  pub same_self : after.self ≡ before.self
  pub same_commands : after.commands ≡ before.commands

pub Untouched-trans : {a b c : State} → Untouched a b → Untouched b c → Untouched a c
Untouched-trans p q = record {
  same_shares = q.same_shares ∙ p.same_shares;
  same_self = q.same_self ∙ p.same_self;
  same_commands = q.same_commands ∙ p.same_commands;
}

pub Untouched-refl : {a : State} → Untouched a a
Untouched-refl = record { same_shares = refl; same_self = refl; same_commands = refl }

-- A state with other fields of the handle, other calls or another result.
pub unlinked :
    {easy easy' : CurlObjData} {self : ℕ} {shares : Store} {commands : String → ℕ}
    {calls calls' : List Call} {result result' : Message}
    → Untouched
        (record {
          easy = easy;
          self = self;
          shares = shares;
          commands = commands;
          calls = calls;
          result = result;
        })
        (record {
          easy = easy';
          self = self;
          shares = shares;
          commands = commands;
          calls = calls';
          result = result';
        })
unlinked = record { same_shares = refl; same_self = refl; same_commands = refl }
