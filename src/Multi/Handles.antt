-- ===== src/Multi/Handles.antt =====
-- The list of nodes as a sequence of handles with their names: adding to its end, and looking up.
use tclcurl_ng.Base.{
  ℕ, zero, suc, ◌<◌, ◌≡◌, ap, ◌∙◌, true, String, List, [], ◌∷◌, map, Option, none, some, arith,
  ◌==◌, if◌then◌else◌, length,
}
use tclcurl_ng.Share.Chain.{has, Distinct, Chain, length-le}
use tclcurl_ng.Multi.{EasyHandleList, name_loop, get_easy_name}

-- The last of `xs`, and `p` if there is none.
abbrev pub last_of : ℕ → List ℕ → ℕ
last_of p [] = p
last_of p (x ∷ xs) = last_of x xs

-- The links lead through the nodes `xs`.
pub record Nodes (s : EasyHandleList) (xs : List ℕ) : Type 0 where
  pub chain : Chain s.next s.first xs
  pub distinct : Distinct xs
  pub last_node : s.last ≡ last_of 0 xs
  pub below_limit : (a : ℕ) → has a xs ≡ true → a < s.limit

abbrev pub entry_of : EasyHandleList → ℕ → ℕ × String
entry_of s p = (s.curl p, s.name p)

-- What the nodes hold.
abbrev pub entries : EasyHandleList → List ℕ → List (ℕ × String)
entries s xs = map (entry_of s) xs

-- The abstract view: the multi handle's handles with their names, in the order of adding.
pub record Holds (s : EasyHandleList) (l : List (ℕ × String)) : Type 0 where
  pub nodes : List ℕ
  pub linked : Nodes s nodes
  pub held : entries s nodes ≡ l

abbrev pub find_name : ℕ → List (ℕ × String) → Option String
find_name easy [] = none
find_name easy ((curl, name) ∷ l) = if curl == easy then some name else find_name easy l

pub enough : {s : EasyHandleList} {xs : List ℕ} → Nodes s xs → length xs < suc s.limit
enough {s} {xs} v = ground (arith, length-le s.limit xs v.distinct v.below_limit)

name_loop-entries :
    (easy : ℕ) (s : EasyHandleList) (k here : ℕ) (xs : List ℕ)
    → Chain s.next here xs
    → length xs < k
    → name_loop k here easy s ≡ some (find_name easy (entries s xs))
unfolding name_loop
name_loop-entries easy s zero here xs c fuel = ground arith
name_loop-entries easy s (suc k) here [] c fuel = ground arith
name_loop-entries easy s (suc k) here (x ∷ xs) c fuel =
    let (same, positive, rest) = c in
    let later = name_loop-entries easy s k (s.next x) xs rest (ground arith) in
    ground (arith, later)

-- curlGetEasyName: the loop ends, with the name of the first entry of the handle, or NULL if the list
-- holds none.
pub get_easy_name-find_name :
    (easy : ℕ) (s : EasyHandleList) (l : List (ℕ × String))
    → Holds s l
    → get_easy_name easy s ≡ some (find_name easy l)
unfolding get_easy_name
get_easy_name-find_name easy s l v =
    name_loop-entries easy s (suc s.limit) s.first v.nodes v.linked.chain (enough v.linked)
    ∙ ap (λ l. some (find_name easy l)) v.held
