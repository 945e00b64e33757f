-- ===== src/Multi/Monad.antt =====
-- struct curlMultiObjData of generic/multi.h, the state of one command on a multi handle, and the monad
-- in which the functions of generic/multi.c run.
use tclcurl_ng.Base.{ℕ, String, Option, none, some, ◌∷◌}
use tclcurl_ng.Api.{Call}
use tclcurl_ng.Api.Monad.{State, Message, M}
use tclcurl_ng.Multi.{EasyHandleList}

-- Without the sets of file descriptors that go from curl_multi_fdset to select.
pub record CurlMultiObjData : Type 0 where
  pub mcurl : ℕ
  pub token : ℕ
  pub handle_list : EasyHandleList
  pub running_transfers : ℕ
  pub post_command : Option String

-- `at_mcurl` is the memory behind `mcurl` where the list functions find the fields of a struct
-- curlMultiObjData: they are handed `mcurl` in its place. What libcurl itself writes there is not
-- modelled. `host` is the easy handle that a name stands for, with the log of calls and the result.
-- `sources` and `queued` count the event sources and the queued events for the multi handle.
pub record MultiState : Type 0 where
  pub multi : CurlMultiObjData
  pub at_mcurl : EasyHandleList
  pub host : State
  pub sources : ℕ
  pub queued : ℕ

-- `none` stands for a loop that does not end.
abbrev pub Run : Type 0 → Type 0
Run A = MultiState → Option (A × MultiState)

abbrev pub pure : {A : Type 0} → A → Run A
pure a s = some (a, s)

abbrev pub and_then :
    {A B : Type 0} → (A → Run B) → Option (A × MultiState) → Option (B × MultiState)
and_then f none = none
and_then f (some (a, s)) = f a s

infixl 5 ◌>>=◌ ◌>>◌
abbrev pub ◌>>=◌ : {A B : Type 0} → Run A → (A → Run B) → Run B
◌>>=◌ m f s = and_then f (m s)

abbrev pub ◌>>◌ : {A B : Type 0} → Run A → Run B → Run B
m >> k = m >>= λ _. k

abbrev pub get : Run MultiState
get s = some (s, s)

abbrev pub modify : (MultiState → MultiState) → Run (Unit {0})
modify f s = some (tt, f s)

-- A function of an easy handle, on the one that the name stands for.
abbrev pub on_easy : {A : Type 0} → M A → Run A
on_easy m s = let (a, host) = m s.host in some (a, record s { host = host })

abbrev pub log : Call → MultiState → MultiState
log c s = record s { host = record s.host { calls = c ∷ s.host.calls } }

abbrev pub say : Message → MultiState → MultiState
say message s = record s { host = record s.host { result = message } }

abbrev pub modify_multi : (CurlMultiObjData → CurlMultiObjData) → MultiState → MultiState
modify_multi f s = record s { multi = f s.multi }
