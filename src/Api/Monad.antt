-- ===== src/Api/Monad.antt =====
-- The state of one command on an easy handle, and the monad in which its C functions run.
use tclcurl_ng.Base.{ℕ, String, List, ◌∷◌, Bool, true, false}
use tclcurl_ng.Api.{Call, Answers, Value}
use tclcurl_ng.Share.{Store}
use tclcurl_ng.Api.Easy.{CurlObjData}

-- The interpreter's result object.
pub data Message : Type 0 where
  no_message tcl_message : Message
  setting_option : String → String → Message
  empty_value : String → Message
  wrong_num_args : String → Message
  could_not_open : String → Message
  literal : String → Message
  code : ℕ → Message
  object : Value → Message

-- `self` is the address of the easy handle's struct; `commands` gives the token of the share
-- handle behind a command name, 0 if there is no such command.
pub record State : Type 0 where
  pub easy : CurlObjData
  pub self : ℕ
  pub shares : Store
  pub commands : String → ℕ
  pub calls : List Call
  pub result : Message

-- The int that a C function returns where it stands for TCL_OK or TCL_ERROR. `fault` stands for a
-- read outside an array, after which C promises nothing.
pub data Status : Type 0 where
  ok error fault : Status

abbrev pub M : Type 0 → Type 0
M A = State → A × State

abbrev pub pure : {A : Type 0} → A → M A
pure a s = (a, s)

infixl 5 ◌>>=◌ ◌>>◌
abbrev pub ◌>>=◌ : {A B : Type 0} → M A → (A → M B) → M B
◌>>=◌ m f s = let (a, s') = m s in f a s'

abbrev pub ◌>>◌ : {A B : Type 0} → M A → M B → M B
m >> k = m >>= λ _. k

abbrev pub get : M CurlObjData
get s = (s.easy, s)

abbrev pub modify : (CurlObjData → CurlObjData) → M (Unit {0})
modify f s = (tt, record s { easy = f s.easy })

abbrev pub set_result : Message → M (Unit {0})
set_result m s = (tt, record s { result = m })

-- A foreign call is logged, and its answer may depend on all calls so far.
abbrev pub call : Answers → Call → M ℕ
call answer c s = (answer (c ∷ s.calls), record s { calls = c ∷ s.calls })

abbrev pub get_state : M State
get_state s = (s, s)

abbrev pub modify_shares : (Store → Store) → M (Unit {0})
modify_shares f s = (tt, record s { shares = f s.shares })

abbrev pub when : Bool → M (Unit {0}) → M (Unit {0})
when true m = m
when false m = pure tt
