-- ===== src/Transfer/Balance.antt =====
-- The files that a handle opens and closes, counted in the log of calls.
use tclcurl_ng.Base.{ℕ, arith, ◌<◌, ◌+◌, ◌≡◌, List, [], ◌∷◌, ◌==◌, if◌then◌else◌}
use tclcurl_ng.Api.{Answers, Call, fopen, fclose}
use tclcurl_ng.Api.Easy.{CurlObjData}
use tclcurl_ng.Api.Monad.{State}

-- 1 for the FILE pointer `p` itself, 0 for another.
unfoldable pub one : (p q : ℕ) → ℕ
one p q = if q == p then 1 else 0

pub one-null : (p : ℕ) → 0 < p → one p 0 ≡ 0
unfolding one
one-null p positive = ground arith

abbrev pub opens : ℕ → Call → ℕ → ℕ
opens p (fopen name mode) q = one p q
opens p _ q = 0

abbrev pub closes : ℕ → Call → ℕ
closes p (fclose q) = one p q
closes p _ = 0

-- How often fopen gave `p`, and how often fclose took it.
abbrev pub opened : Answers → ℕ → List Call → ℕ
opened ask p [] = 0
opened ask p (c ∷ cs) = opens p c (ask (c ∷ cs)) + opened ask p cs

abbrev pub closed : ℕ → List Call → ℕ
closed p [] = 0
closed p (c ∷ cs) = closes p c + closed p cs

-- The fields that hold `p`.
abbrev pub held : ℕ → CurlObjData → ℕ
held p d = one p d.out_handle + one p d.in_handle + one p d.header_handle + one p d.stderr_handle

-- As often as fopen gave `p`, it was closed or is held by one of the four fields.
abbrev pub Balanced : ℕ → Answers → State → Type 0
Balanced p ask s = opened ask p s.calls ≡ closed p s.calls + held p s.easy
