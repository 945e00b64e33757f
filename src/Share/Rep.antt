-- ===== src/Share/Rep.antt =====
-- What the links of a store stand for: for each share handle the list of easy handles that use it.
use tclcurl_ng.Base.{ℕ, ◌<◌, ◌≡◌, ◌≢◌, true, List, [], ◌∷◌}
use tclcurl_ng.Share.{Store, update}
use tclcurl_ng.Share.Chain.{has, Distinct, remove, Chain}

abbrev pub Users : Type 0
Users = ℕ → List ℕ

-- The links form one list for each live share handle; a handle is in the list of its `shareToken`
-- and in no other, and a `shareToken` names a live share handle or is NULL.
pub record Rep (s : Store) (l : Users) : Type 0 where
  pub chain : (t : ℕ) → s.alive t ≡ true → Chain s.next_shared (s.users t) (l t)
  pub distinct : (t : ℕ) → Distinct (l t)
  pub token_of_has : (t e : ℕ) → has e (l t) ≡ true → s.share_token e ≡ t
  pub null_empty : l 0 ≡ []
  pub has_of_token : (e : ℕ) → s.share_token e ≢ 0 → has e (l (s.share_token e)) ≡ true
  pub token_alive : (e : ℕ) → s.share_token e ≢ 0 → s.alive (s.share_token e) ≡ true
  pub below_limit : (t e : ℕ) → has e (l t) ≡ true → e < s.limit

-- The abstract operations.
abbrev pub leave : ℕ → Users → Users
leave e l = λ t. remove e (l t)

abbrev pub join : ℕ → ℕ → Users → Users
join e t l = update l t (e ∷ l t)

abbrev pub dissolve : ℕ → Users → Users
dissolve t l = update l t []
