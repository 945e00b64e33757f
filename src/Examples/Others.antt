-- ===== src/Examples/Others.antt =====
-- The theorems on share handles, texts and the utilities at concrete inputs.
use tclcurl_ng.Base.{
  ℕ, ◌+◌, ◌≡◌, refl, ◌⊎◌, String, [], ◌∷◌, List, none, some, Bool, true, false, ◌==◌, pos, arith,
}
use tclcurl_ng.Api.{Answers}
use tclcurl_ng.Api.Monad.{ok, object}
use tclcurl_ng.Api.{words, Call}
use tclcurl_ng.Examples.{
  tcl, tcl-IsTcl, ask, handle, nobody, one_user-Rep, shared, strokes, strokes_injective,
}
use tclcurl_ng.Options.Run.{config_transfer}
use tclcurl_ng.Options.Faults.Commands.{any_unfit, config_transfer-no_fault}
use tclcurl_ng.Options.Table.{config_table, curl_option_defs}
use tclcurl_ng.Options.Untouched.Links.{Linked, config_transfer-Linked}
use tclcurl_ng.Options.Table.Names.{member}
use tclcurl_ng.Share.{link}
use tclcurl_ng.Share.Init.{IsNoShare, IsNewShare, share_init_obj_cmd, share_init_obj_cmd-Rep}
use tclcurl_ng.Share.Lock.{
  cookie, dns, total, locks, unlocks, holds, share_lock_func, share_unlock_func, unused, locked,
  unlocked, Locking-balanced,
}
use tclcurl_ng.Share.Rep.{join}
use tclcurl_ng.Texts.{VersionInfo, curl_version_info, feature_words}
use tclcurl_ng.Texts.Features.{named, feature_table, curl_version_info-features}
use tclcurl_ng.Utils
use tclcurl_ng.Utils.{strip_spaces}
use tclcurl_ng.Utils.Strip.{all_spaces, InBounds, strip_spaces-InBounds}

-- A Tcl and a libcurl that answer 2 to every call: the token 2 is not live yet.
abbrev twos : Answers
twos log = 2

share_init_obj_cmd-Rep_example :
    IsNoShare shared (share_init_obj_cmd twos strokes ("i" ∷ []) shared)
    ⊎ IsNewShare strokes
        ("i" ∷ [])
        2
        (join 2 1 nobody)
        (share_init_obj_cmd twos strokes ("i" ∷ []) shared)
unfolding link
share_init_obj_cmd-Rep_example =
    share_init_obj_cmd-Rep twos strokes ("i" ∷ []) 2 shared (join 2 1 nobody) strokes_injective
      (λ name. refl) one_user-Rep (ground arith) refl

handle-Linked : Linked handle
unfolding link
handle-Linked = record {
  users = join 2 1 nobody;
  rep = one_user-Rep;
  positive = ground arith;
  below = ground arith;
  live = λ o n. refl;
}

-- The handle at address 3 becomes a user of the share handle, beside the one at address 2.
fit : any_unfit tcl (λ o. false) ("-share" ∷ "scurl1" ∷ "-infile" ∷ []) ≡ false
unfolding config_table curl_option_defs
fit = refl

config_transfer-Linked_example :
    Linked (config_transfer tcl ask ("-share" ∷ "scurl1" ∷ "-infile" ∷ []) handle).1
config_transfer-Linked_example =
    config_transfer-Linked tcl ask ("-share" ∷ "scurl1" ∷ "-infile" ∷ []) handle
      (config_transfer-no_fault tcl ask (λ o. false) (λ o log e. refl)
        ("-share" ∷ "scurl1" ∷ "-infile" ∷ []) handle fit)
      handle-Linked

abbrev log : List Call
log = share_unlock_func dns (share_lock_func dns (share_lock_func cookie []))

Locking-balanced_example :
    total (locks "cookieLock") log
    ≡ total (unlocks "cookieLock") log + holds "cookieLock" (cookie ∷ [])
Locking-balanced_example =
    Locking-balanced "cookieLock" (unlocked dns (locked dns (locked cookie unused)))

abbrev info : VersionInfo
info = record {
  version = some "8.5.0";
  version_num = "80500";
  host = some "x86_64";
  features = "CURL_VERSION_SSL" ∷ "CURL_VERSION_CONV" ∷ [];
  ssl_version = none;
  ssl_version_num = pos 0;
  libz_version = none;
  protocols = "http" ∷ [];
}

curl_version_info-features_example :
    (curl_version_info tcl info ("-features" ∷ [])
      ≡ (ok, object (words (feature_words info.features))))
    × ((word : String)
        → member word (feature_words info.features) ≡ named word info.features feature_table)
    × (member "CONV" (feature_words info.features) ≡ false)
curl_version_info-features_example = curl_version_info-features tcl tcl-IsTcl info

abbrev is_space : ℕ → Bool
is_space c = c == 32

strip_spaces-InBounds_example :
    ((strip_spaces is_space (97 ∷ 32 ∷ 98 ∷ []) ≡ none)
      × (all_spaces is_space (97 ∷ 32 ∷ 98 ∷ []) ≡ true))
    ⊎ (InBounds is_space (97 ∷ 32 ∷ 98 ∷ []) × (all_spaces is_space (97 ∷ 32 ∷ 98 ∷ []) ≡ false))
strip_spaces-InBounds_example = strip_spaces-InBounds is_space (97 ∷ 32 ∷ 98 ∷ [])

-- A last word of one character is lost.
lost_letter : strip_spaces is_space (97 ∷ 32 ∷ 98 ∷ []) ≡ some (97 ∷ [])
unfolding strip_spaces Utils.skip Utils.segments Utils.join
lost_letter = refl
