-- ===== src/Share/Lock.antt =====
-- The lock functions of share handles: curlShareLockFunc and curlShareUnLockFunc of
-- generic/tclcurl.c. A mutex is named by its variable.
use tclcurl_ng.Base.{
  ℕ, ◌+◌, ◌≡◌, refl, String, List, [], ◌∷◌, Option, none, some, Bool, true, false, arith, str_eq,
}
use tclcurl_ng.Api.{Call, mutex_lock, mutex_unlock}

-- The values of curl_lock_data: the four that the functions treat, and the others.
pub data LockData : Type 0 where
  cookie dns ssl_session connect : LockData
  another : String → LockData

abbrev pub mutex_of : LockData → Option String
mutex_of cookie = some "cookieLock"
mutex_of dns = some "dnsLock"
mutex_of ssl_session = some "sslLock"
mutex_of connect = some "connectLock"
mutex_of (another kind) = none

-- curlShareLockFunc, on the calls so far
unfoldable pub share_lock_func : LockData → List Call → List Call
share_lock_func cookie calls = mutex_lock "cookieLock" ∷ calls
share_lock_func dns calls = mutex_lock "dnsLock" ∷ calls
share_lock_func ssl_session calls = mutex_lock "sslLock" ∷ calls
share_lock_func connect calls = mutex_lock "connectLock" ∷ calls
share_lock_func (another kind) calls = calls

-- curlShareUnLockFunc
unfoldable pub share_unlock_func : LockData → List Call → List Call
share_unlock_func cookie calls = mutex_unlock "cookieLock" ∷ calls
share_unlock_func dns calls = mutex_unlock "dnsLock" ∷ calls
share_unlock_func ssl_session calls = mutex_unlock "sslLock" ∷ calls
share_unlock_func connect calls = mutex_unlock "connectLock" ∷ calls
share_unlock_func (another kind) calls = calls

abbrev pub one_if : Bool → ℕ
one_if true = 1
one_if false = 0

abbrev pub locks : String → Call → ℕ
locks m (mutex_lock n) = one_if (str_eq n m)
locks m _ = 0

abbrev pub unlocks : String → Call → ℕ
unlocks m (mutex_unlock n) = one_if (str_eq n m)
unlocks m _ = 0

abbrev pub total : (Call → ℕ) → List Call → ℕ
total f [] = 0
total f (c ∷ cs) = f c + total f cs

-- Whether a mutex guards the data.
abbrev pub guards : String → LockData → ℕ
guards m d = elim (mutex_of d) [ none ↦ 0 | some n ↦ one_if (str_eq n m) ]

abbrev pub holds : String → List LockData → ℕ
holds m [] = 0
holds m (d ∷ ds) = guards m d + holds m ds

-- What libcurl may do: it locks data, and unlocks what it has locked last. The data that it has locked
-- stand first.
pub data Locking : List LockData → List Call → Type 0 where
  unused : Locking [] []
  locked :
      {ds : List LockData} {calls : List Call} (d : LockData)
      → Locking ds calls
      → Locking (d ∷ ds) (share_lock_func d calls)
  unlocked :
      {ds : List LockData} {calls : List Call} (d : LockData)
      → Locking (d ∷ ds) calls
      → Locking ds (share_unlock_func d calls)

lock_lem :
    (m : String) (d : LockData) (calls : List Call)
    → (total (locks m) (share_lock_func d calls) ≡ guards m d + total (locks m) calls)
      × (total (unlocks m) (share_lock_func d calls) ≡ total (unlocks m) calls)
unfolding share_lock_func
lock_lem m cookie calls = (refl, omega arith)
lock_lem m dns calls = (refl, omega arith)
lock_lem m ssl_session calls = (refl, omega arith)
lock_lem m connect calls = (refl, omega arith)
lock_lem m (another kind) calls = (omega arith, refl)

unlock_lem :
    (m : String) (d : LockData) (calls : List Call)
    → (total (unlocks m) (share_unlock_func d calls) ≡ guards m d + total (unlocks m) calls)
      × (total (locks m) (share_unlock_func d calls) ≡ total (locks m) calls)
unfolding share_unlock_func
unlock_lem m cookie calls = (refl, omega arith)
unlock_lem m dns calls = (refl, omega arith)
unlock_lem m ssl_session calls = (refl, omega arith)
unlock_lem m connect calls = (refl, omega arith)
unlock_lem m (another kind) calls = (omega arith, refl)

-- While libcurl locks data and unlocks what it has locked last, each mutex has been locked as often as
-- it has been unlocked, and once more for each of the locked data that it guards.
pub Locking-balanced :
    (m : String) {ds : List LockData} {calls : List Call}
    → Locking ds calls
    → total (locks m) calls ≡ total (unlocks m) calls + holds m ds
Locking-balanced m unused = refl
Locking-balanced m (locked {ds} {calls} d before) =
    let (a, b) = lock_lem m d calls in
    let balanced = Locking-balanced m before in omega (arith, a, b, balanced)
Locking-balanced m (unlocked {ds} {calls} d before) =
    let (a, b) = unlock_lem m d calls in
    let balanced = Locking-balanced m before in omega (arith, a, b, balanced)
