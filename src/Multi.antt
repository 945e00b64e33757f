-- ===== src/Multi.antt =====
-- The multi handles of generic/multi.c. This file has the list of easy handles: curlEasyHandleListAdd,
-- curlEasyHandleListRemove and curlGetEasyName; a node is named by its address, 0 is NULL. The commands
-- are in Command and Dispatch, the event source in Events.
pub mod Handles
pub mod Add
pub mod Remove
pub mod Monad
pub mod Command
pub mod Dispatch
pub mod Loop
pub mod Sound
pub mod Files
pub mod Untouched
pub mod Wires
pub mod Own
pub mod Session
pub mod Events
use tclcurl_ng.Base.{ℕ, zero, suc, String, Option, none, some, ◌==◌, if◌then◌else◌}
use tclcurl_ng.Share.{update}

-- `handleListFirst` and `handleListLast` of struct curlMultiObjData, and the fields of each struct
-- easyHandleList.
pub record EasyHandleList : Type 0 where
  pub first : ℕ
  pub last : ℕ
  pub curl : ℕ → ℕ
  pub name : ℕ → String
  pub next : ℕ → ℕ
  -- nodes have addresses below this
  pub limit : ℕ

-- The node `p` that Tcl_Alloc returns, filled.
unfoldable pub fill_node : (p easy : ℕ) → String → EasyHandleList → EasyHandleList
fill_node p easy handle_name s = record s {
  curl = update s.curl p easy;
  name = update s.name p handle_name;
  next = update s.next p 0;
}

-- curlEasyHandleListAdd
unfoldable pub easy_handle_list_add : (p easy : ℕ) → String → EasyHandleList → EasyHandleList
unfolding fill_node
easy_handle_list_add p easy handle_name s =
    let s' = fill_node p easy handle_name s in
    if s.last == 0
    then record s' { first = p; last = p }
    else record s' { next = update s'.next s.last p; last = p }

-- The body of the `if` of curlEasyHandleListRemove, on the node `here` behind `before`.
unfoldable pub cut_node : (before here : ℕ) → EasyHandleList → EasyHandleList
cut_node before here s =
    let last = if here == s.last then before else s.last in
    if before == 0
    then record s { first = s.next here; last = last }
    else record s { next = update s.next before (s.next here); last = last }

-- The `while` loop; `none` means that the fuel ran out.
unfoldable pub remove_loop : ℕ → (before here easy : ℕ) → EasyHandleList → Option EasyHandleList
remove_loop zero before here easy s = none
remove_loop (suc k) before here easy s =
    let rest = remove_loop k here (s.next here) easy s in
    if here == 0
    then some s
    else if s.curl here == easy
    then some (cut_node before here s)
    else rest

-- curlEasyHandleListRemove
unfoldable pub easy_handle_list_remove : (easy : ℕ) → EasyHandleList → Option EasyHandleList
easy_handle_list_remove easy s = remove_loop (suc s.limit) 0 s.first easy s

-- The loop of curlGetEasyName; the inner `none` is its NULL.
unfoldable pub name_loop : ℕ → (here easy : ℕ) → EasyHandleList → Option (Option String)
name_loop zero here easy s = none
name_loop (suc k) here easy s =
    let rest = name_loop k (s.next here) easy s in
    if here == 0 then some none else if s.curl here == easy then some (some (s.name here)) else rest

-- curlGetEasyName
unfoldable pub get_easy_name : (easy : ℕ) → EasyHandleList → Option (Option String)
get_easy_name easy s = name_loop (suc s.limit) s.first easy s
