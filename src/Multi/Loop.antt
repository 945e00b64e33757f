-- ===== src/Multi/Loop.antt =====
-- The loops on curl_multi_perform end once libcurl gives another code than CURLM_CALL_MULTI_PERFORM.
use tclcurl_ng.Base.{
  ℕ, zero, suc, ◌<◌, ◌≤◌, ℤ, pos, negsuc, ◌≡◌, refl, ◌∙◌, Option, some, true, false, arith,
  if◌then◌else◌, inl, inr, Bool-cases,
}
use tclcurl_ng.Api.{Tcl, Answers, MultiAnswers, multi_perform}
use tclcurl_ng.Api.Monad.{Status, ok, error}
use tclcurl_ng.Mime.Transfer.{is_nonnegative}
use tclcurl_ng.Multi.Monad.{MultiState, log, say}
use tclcurl_ng.Api.Monad.{object}
use tclcurl_ng.Api.{number}
use tclcurl_ng.Multi.Command.{
  is_zero, return_code, multi_perform_call, perform_loop, curl_multi_perform,
}

-- The state after `n` calls of curl_multi_perform.
abbrev pub called : ℕ → MultiState → MultiState
called zero s = s
called (suc n) s = called n (log (multi_perform s.multi.mcurl) s)

module _ (tcl : Tcl) (ask : Answers) (libcurl : MultiAnswers) where
  abbrev pub code_of : MultiState → ℤ
  code_of s = libcurl.multi_code s.host.calls

  -- The call after `extra` calls from `s` on is the first whose code is nonnegative.
  pub record IsLast (extra : ℕ) (s : MultiState) : Type 0 where
    pub ends : is_nonnegative (code_of (called (suc extra) s)) ≡ true
    pub goes_on : (i : ℕ) → i < extra → is_nonnegative (code_of (called (suc i) s)) ≡ false

  loop-stops :
      (k : ℕ) (code : ℤ) (s : MultiState)
      → is_nonnegative code ≡ true
      → perform_loop tcl ask libcurl k code s ≡ some (code, s)
  unfolding perform_loop
  loop-stops k (pos n) s e = refl
  loop-stops k (negsuc n) s e = ground arith

  loop-calls :
      (k : ℕ) (code : ℤ) (s : MultiState)
      → is_nonnegative code ≡ false
      → perform_loop tcl ask libcurl (suc k) code s
        ≡ perform_loop tcl ask libcurl k (code_of (called 1 s)) (called 1 s)
  unfolding perform_loop multi_perform_call
  loop-calls k (pos n) s e = ground arith
  loop-calls k (negsuc n) s e = refl

  loop-IsLast :
      (k extra : ℕ) (code : ℤ) (s : MultiState)
      → is_nonnegative code ≡ false
      → IsLast extra s
      → extra < k
      → perform_loop tcl ask libcurl k code s
        ≡ some (code_of (called (suc extra) s), called (suc extra) s)
  loop-IsLast zero extra code s e v h = absurd (omega (arith, h))
  loop-IsLast (suc k) zero code s e v h =
      loop-calls k code s e ∙ loop-stops k (code_of (called 1 s)) (called 1 s) v.ends
  loop-IsLast (suc k) (suc extra) code s e v h =
      loop-calls k code s e
      ∙ loop-IsLast k extra (code_of (called 1 s)) (called 1 s) (v.goes_on 0 (omega arith))
          (record { ends = v.ends; goes_on = λ i below. v.goes_on (suc i) (omega (arith, below)) })
          (omega (arith, h))

  -- From any code on that is nonnegative there is a first one.
  first :
      (n : ℕ) (s : MultiState)
      → is_nonnegative (code_of (called (suc n) s)) ≡ true
      → (extra : ℕ) × (extra ≤ n) × IsLast extra s
  first zero s e =
      (0, omega arith, record { ends = e; goes_on = λ i below. absurd (omega (arith, below)) })
  first (suc n) s e = elim (Bool-cases (is_nonnegative (code_of (called 1 s)))) [
    | inl at_once ↦ (
      0,
      omega arith,
      record { ends = at_once; goes_on = λ i below. absurd (omega (arith, below)) },
    )
    | inr later ↦
        let (extra, bound, v) = first n (called 1 s) e in
        (suc extra, omega (arith, bound), record { ends = v.ends; goes_on = go extra s later v })
  ]
    where
      go :
          (extra : ℕ) (s : MultiState)
          → is_nonnegative (code_of (called 1 s)) ≡ false
          → IsLast extra (called 1 s)
          → (i : ℕ) → i < suc extra
          → is_nonnegative (code_of (called (suc i) s)) ≡ false
      go extra s later v zero below = later
      go extra s later v (suc i) below = v.goes_on i (omega (arith, below))

  -- What the perform command answers after the calls that lead to `s`.
  abbrev pub outcome : MultiState → Option (Status × MultiState)
  outcome s =
      if is_zero (code_of s)
      then some (ok, say (object (number (pos (libcurl.running_transfers s.host.calls)))) s)
      else some (error, say (object (number (code_of s))) s)

  -- If libcurl's code is nonnegative after some `suc n` calls of curl_multi_perform, then the perform
  -- command of a multi handle returns, with any fuel beyond `n`: it stops after the first call whose code
  -- is nonnegative. If that is 0, the command succeeds with the number of running transfers; else it
  -- fails with the code.
  pub curl_multi_perform-returns :
      (n fuel : ℕ) (s : MultiState)
      → is_nonnegative (code_of (called (suc n) s)) ≡ true
      → n < fuel
      → (extra : ℕ) × IsLast extra s
        × (curl_multi_perform tcl ask libcurl fuel s ≡ outcome (called (suc extra) s))
  unfolding curl_multi_perform return_code
  curl_multi_perform-returns n fuel s e enough =
      let (extra, bound, v) = first n s e in
      let run = loop-IsLast fuel extra (negsuc 0) s refl v (omega (arith, bound, enough)) in
      (
        extra,
        v,
        elim (Bool-cases (is_zero (code_of (called (suc extra) s)))) [
          | inl z ↦ rw (run, z) refl
          | inr z ↦ rw (run, z) refl
        ],
      )
