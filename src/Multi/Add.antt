-- ===== src/Multi/Add.antt =====
-- Adding a handle to the list of a multi handle.
use tclcurl_ng.Base.{
  ℕ, ◌<◌, ◌≡◌, refl, sym, ap, ◌∙◌, true, false, ◌||◌, String, List, [], ◌∷◌, ◌++◌, map, arith, ◌==◌,
  ==_iff, Bool-cases, inl, inr,
}
use tclcurl_ng.Share.{update}
use tclcurl_ng.Share.Chain.{has, Distinct, Chain}
use tclcurl_ng.Multi.{EasyHandleList, fill_node, easy_handle_list_add}
use tclcurl_ng.Multi.Handles.{last_of, Nodes, Holds, entries}

pub has-last_of : (x : ℕ) (xs : List ℕ) → has (last_of x xs) (x ∷ xs) ≡ true
has-last_of x [] = ground (arith, (==_iff x x).1 refl)
has-last_of x (y ∷ ys) = ground (arith, has-last_of y ys)

has-append : (a n : ℕ) (xs : List ℕ) → has a (xs ++ n ∷ []) ≡ has a xs || (n == a)
has-append a n [] = ground arith
has-append a n (x ∷ xs) = ground (arith, has-append a n xs)

Distinct-append : (n : ℕ) (xs : List ℕ) → Distinct xs → has n xs ≡ false → Distinct (xs ++ n ∷ [])
Distinct-append n [] d out = (refl, tt)
Distinct-append n (x ∷ xs) d out =
    (ground (arith, has-append x n xs), Distinct-append n xs d.1 (ground arith))

last_of-append : (p n : ℕ) (xs : List ℕ) → last_of p (xs ++ n ∷ []) ≡ n
last_of-append p n [] = refl
last_of-append p n (x ∷ xs) = last_of-append x n xs

pub no_confusion : true ≡ false → ⊥
no_confusion e = ground arith

module _ (nx : ℕ → ℕ) (n : ℕ) (positive : 0 < n) where
  abbrev grown : ℕ → ℕ → ℕ
  grown last = update (update nx n 0) last n

  Chain-append :
      (p x : ℕ) (xs : List ℕ)
      → Chain nx p (x ∷ xs)
      → Distinct (x ∷ xs)
      → has n (x ∷ xs) ≡ false
      → Chain (grown (last_of x xs)) p (x ∷ (xs ++ n ∷ []))
  Chain-append p x [] c d out = (
    c.0,
    c.1,
    (ground (arith, (==_iff x x).1 refl), positive, ground (arith, (==_iff n n).1 refl)),
  )
  Chain-append p x (y ∷ ys) c d out =
      let later = Chain-append (nx x) y ys c.2 d.1 (ground arith) in
      let apart : (x == last_of y ys) ≡ false = elim (Bool-cases (x == last_of y ys)) [
        | inl e ↦
            let same = ap (λ a. has a (y ∷ ys)) ((==_iff x (last_of y ys)).0 e) in
            absurd (no_confusion (sym (has-last_of y ys) ∙ sym same ∙ d.0))
        | inr e ↦ e
      ] in
      let kept : grown (last_of y ys) x ≡ nx x = ground (arith, apart) in
      (c.0, c.1, (kept ∙ later.0, later.1, later.2))

-- No node is NULL.
pub Chain-positive :
    (nx : ℕ → ℕ) (p : ℕ) (xs : List ℕ) → Chain nx p xs → (a : ℕ) → has a xs ≡ true → 0 < a
Chain-positive nx p [] c a h = ground arith
Chain-positive nx p (x ∷ xs) c a h = elim (Bool-cases (x == a)) [
  | inl e ↦ ground (arith, (==_iff x a).0 e, c.1)
  | inr n ↦ Chain-positive nx (nx x) xs c.2 a (ground arith)
]

-- The nodes after adding the fresh node `p`.
add-Nodes :
    (p easy : ℕ) (handle_name : String) {s : EasyHandleList} (xs : List ℕ)
    → Nodes s xs
    → 0 < p
    → p < s.limit
    → has p xs ≡ false
    → Nodes (easy_handle_list_add p easy handle_name s) (xs ++ p ∷ [])
unfolding easy_handle_list_add fill_node
add-Nodes p easy handle_name {s} [] v positive below out =
    let none_last : (s.last == 0) ≡ true = ground (arith, (==_iff s.last 0).1 v.last_node) in
    rw none_last (record {
      chain = (refl, positive, ground (arith, (==_iff p p).1 refl));
      distinct = (refl, tt);
      last_node = refl;
      below_limit = λ a h. ground (arith, (==_iff p a).0);
    })
add-Nodes p easy handle_name {s} (x ∷ xs) v positive below out =
    let some_last : (s.last == 0) ≡ false = ground (
      arith,
      Chain-positive s.next s.first (x ∷ xs) v.chain s.last
          (ap (λ a. has a (x ∷ xs)) v.last_node ∙ has-last_of x xs),
    ) in
    rw (some_last, v.last_node)
      (record {
        chain = Chain-append s.next p positive s.first x xs v.chain v.distinct out;
        distinct = Distinct-append p (x ∷ xs) v.distinct out;
        last_node = sym (last_of-append x p xs);
        below_limit =
            λ a h. ground (arith, has-append a p (x ∷ xs), (==_iff p a).0, v.below_limit a);
      })

add-curl :
    (p easy : ℕ) (handle_name : String) (s : EasyHandleList)
    → (easy_handle_list_add p easy handle_name s).curl ≡ update s.curl p easy
unfolding easy_handle_list_add fill_node
add-curl p easy handle_name s = elim (Bool-cases (s.last == 0)) [
  | inl e ↦ rw e refl
  | inr e ↦ rw e refl
]

add-name :
    (p easy : ℕ) (handle_name : String) (s : EasyHandleList)
    → (easy_handle_list_add p easy handle_name s).name ≡ update s.name p handle_name
unfolding easy_handle_list_add fill_node
add-name p easy handle_name s = elim (Bool-cases (s.last == 0)) [
  | inl e ↦ rw e refl
  | inr e ↦ rw e refl
]

map-update :
    (curl : ℕ → ℕ) (name : ℕ → String) (p easy : ℕ) (handle_name : String) (xs : List ℕ)
    → has p xs ≡ false
    → map {B = ℕ × String} (λ q. (update curl p easy q, update name p handle_name q)) (xs ++ p ∷ [])
      ≡ map {B = ℕ × String} (λ q. (curl q, name q)) xs ++ (easy, handle_name) ∷ []
map-update curl name p easy handle_name [] out = rw ((==_iff p p).1 refl) refl
map-update curl name p easy handle_name (x ∷ xs) out =
    let other : (x == p) ≡ false = ground arith in
    rw (other, map-update curl name p easy handle_name xs (ground arith)) refl

entries-add :
    (p easy : ℕ) (handle_name : String) (s : EasyHandleList) (xs : List ℕ)
    → has p xs ≡ false
    → entries (easy_handle_list_add p easy handle_name s) (xs ++ p ∷ [])
      ≡ entries s xs ++ (easy, handle_name) ∷ []
entries-add p easy handle_name s xs out =
    rw (add-curl p easy handle_name s, add-name p easy handle_name s)
      (map-update s.curl s.name p easy handle_name xs out)

-- curlEasyHandleListAdd, given a node that Tcl_Alloc returns, so none of the list: the list then
-- holds the new handle with its name behind what it held.
pub easy_handle_list_add-Holds :
    (p easy : ℕ) (handle_name : String) {s : EasyHandleList} {l : List (ℕ × String)} (v : Holds s l)
    → 0 < p
    → p < s.limit
    → has p v.nodes ≡ false
    → Holds (easy_handle_list_add p easy handle_name s) (l ++ (easy, handle_name) ∷ [])
easy_handle_list_add-Holds p easy handle_name {s} {l} v positive below out = record {
  nodes = v.nodes ++ p ∷ [];
  linked = add-Nodes p easy handle_name v.nodes v.linked positive below out;
  held =
      entries-add p easy handle_name s v.nodes out ∙ ap (λ l. l ++ (easy, handle_name) ∷ []) v.held;
}
