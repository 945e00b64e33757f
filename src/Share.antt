-- ===== src/Share.antt =====
-- The links between easy handles and share handles: curlLinkEasyToShare and curlDetachShareHandle of
-- generic/tclcurl.c, and the user list that curlCleanUpShareCmd walks. Each share handle keeps the
-- head of a list of its easy handles, which runs through their `nextSharedHandle` fields.
-- A share handle is named by its token, an easy handle by its address; 0 is NULL.
pub mod Chain
pub mod Unlink
pub mod Rep
pub mod Sound
pub mod CleanUp
pub mod Command
pub mod Init
pub mod Lock
use tclcurl_ng.Base.{
  ℕ, zero, suc, ◌∷◌, List, [], Bool, false, ◌==◌, if◌then◌else◌, Option, none, some,
}

pub record Store : Type 0 where
  -- `shareToken` and `nextSharedHandle` of each easy handle
  pub share_token : ℕ → ℕ
  pub next_shared : ℕ → ℕ
  -- `users` and `shandle` of each share handle, and whether its command still exists
  pub users : ℕ → ℕ
  pub shandle : ℕ → ℕ
  pub alive : ℕ → Bool
  -- the easy handles have addresses below this
  pub limit : ℕ

abbrev pub update {ℓ} : {A : Type ℓ} → (ℕ → A) → ℕ → A → ℕ → A
update f k v j = if j == k then v else f j

-- The place that `linkPtr` points to.
pub data Link : Type 0 where
  head : ℕ → Link
  next : ℕ → Link

unfoldable pub read : Link → Store → ℕ
read (head t) s = s.users t
read (next e) s = s.next_shared e

unfoldable pub write : Link → ℕ → Store → Store
write (head t) v s = record s { users = update s.users t v }
write (next e) v s = record s { next_shared = update s.next_shared e v }

-- The `for` loop of curlDetachShareHandle; `none` means that the fuel ran out.
unfoldable pub unlink_loop : ℕ → Link → ℕ → Store → Option Store
unfolding read write
unlink_loop zero l e s = none
unlink_loop (suc k) l e s =
    let rest = unlink_loop k (next (read l s)) e s in
    if read l s == 0
    then some s
    else if read l s == e
    then some (write l (s.next_shared e) s)
    else rest

abbrev pub or_same : Option Store → Store → Store
or_same none s = s
or_same (some s') s = s'

-- The fields that curlDetachShareHandle clears at its end.
unfoldable pub clear_links : ℕ → Store → Store
clear_links e s = record s {
  share_token = update s.share_token e 0;
  next_shared = update s.next_shared e 0;
}

unfoldable pub detach : ℕ → Store → Store
detach e s =
    if s.share_token e == 0
    then record s { next_shared = update s.next_shared e 0 }
    else if s.alive (s.share_token e)
    then clear_links e (or_same (unlink_loop (suc s.limit) (head (s.share_token e)) e s) s)
    else clear_links e s

-- curlLinkEasyToShare
unfoldable pub link : ℕ → ℕ → Store → Store
link e t s = record s {
  share_token = update s.share_token e t;
  next_shared = update s.next_shared e (s.users t);
  users = update s.users t e;
}

-- The `while` loop of curlCleanUpShareCmd, from the easy handle `e`; it also yields the handles it
-- has cut off, in order.
unfoldable pub clear_users : ℕ → ℕ → Store → Option (List ℕ × Store)
clear_users zero e s = none
clear_users (suc k) e s =
    let rest = clear_users k (s.next_shared e) (clear_links e s) in
    if e == 0 then some ([], s) else elim rest [ none ↦ none | some (es, s') ↦ some (e ∷ es, s') ]

-- Deleting the command of a share handle: the links that curlCleanUpShareCmd writes, after which the
-- handle is freed. Its calls of libcurl are in Share/Command.
unfoldable pub clean_up : ℕ → Store → Option (List ℕ × Store)
clean_up t s = elim (clear_users (suc s.limit) (s.users t) s) [
  | none ↦ none
  | some (es, s') ↦
      some (es, record s' { users = update s'.users t 0; alive = update s'.alive t false })
]
