-- ===== src/Multi/Remove.antt =====
-- Removing a handle from the list of a multi handle.
use tclcurl_ng.Base.{
  ℕ, zero, suc, ◌<◌, ◌≡◌, ◌≢◌, refl, sym, ap, ◌∙◌, true, false, String, List, [], ◌∷◌, map, some,
  arith, ◌==◌, ==_iff, if◌then◌else◌, Bool-cases, inl, inr, length,
}
use tclcurl_ng.Share.{update}
use tclcurl_ng.Share.Chain.{has, Distinct, Chain, Chain-update}
use tclcurl_ng.Multi.{EasyHandleList, cut_node, remove_loop, easy_handle_list_remove}
use tclcurl_ng.Multi.Handles.{last_of, Nodes, Holds, entries, enough}
use tclcurl_ng.Multi.Add.{has-last_of, no_confusion}

-- The nodes without the first one that holds `easy`.
abbrev pub cut : (ℕ → ℕ) → ℕ → List ℕ → List ℕ
cut curl easy [] = []
cut curl easy (x ∷ xs) = if curl x == easy then xs else x ∷ cut curl easy xs

-- The abstract operation: the first entry of `easy` is taken out.
abbrev pub remove_entry : ℕ → List (ℕ × String) → List (ℕ × String)
remove_entry easy [] = []
remove_entry easy (e ∷ l) = if e.0 == easy then l else e ∷ remove_entry easy l

entries-cut :
    (easy : ℕ) (s : EasyHandleList) (xs : List ℕ)
    → entries s (cut s.curl easy xs) ≡ remove_entry easy (entries s xs)
entries-cut easy s [] = refl
entries-cut easy s (x ∷ xs) = elim (Bool-cases (s.curl x == easy)) [
  | inl e ↦ rw e refl
  | inr e ↦ rw (e, entries-cut easy s xs) refl
]

has-cut :
    (curl : ℕ → ℕ) (easy a : ℕ) (xs : List ℕ) → has a (cut curl easy xs) ≡ true → has a xs ≡ true
has-cut curl easy a [] h = h
has-cut curl easy a (x ∷ xs) h = ground (arith, has-cut curl easy a xs)

Distinct-cut : (curl : ℕ → ℕ) (easy : ℕ) (xs : List ℕ) → Distinct xs → Distinct (cut curl easy xs)
Distinct-cut curl easy [] d = tt
Distinct-cut curl easy (x ∷ xs) d = elim (Bool-cases (curl x == easy)) [
  | inl e ↦ rw e d.1
  | inr e ↦ rw e (ground (arith, has-cut curl easy x xs), Distinct-cut curl easy xs d.1)
]

-- The node before `xs` becomes the last one exactly if `xs` is empty.
last_cut :
    (before x : ℕ) (xs : List ℕ)
    → has x xs ≡ false
    → (if x == last_of x xs then before else last_of x xs) ≡ last_of before xs
last_cut before x [] out = rw ((==_iff x x).1 refl) refl
last_cut before x (y ∷ ys) out =
    let apart : (x == last_of y ys) ≡ false = elim (Bool-cases (x == last_of y ys)) [
      | inl e ↦
          let same = ap (λ a. has a (y ∷ ys)) ((==_iff x (last_of y ys)).0 e) in
          absurd (no_confusion (sym (has-last_of y ys) ∙ sym same ∙ out))
      | inr e ↦ e
    ] in
    rw apart refl

-- What the loop makes of the nodes `xs` behind the node `before`: the handle is cut out, and links
-- of nodes further in front stay.
record Walked (easy k before here : ℕ) (s : EasyHandleList) (xs : List ℕ) : Type 0 where
  links : ℕ → ℕ
  end : ℕ
  run : remove_loop k before here easy s ≡ some (record s { next = links; last = end })
  chain : Chain links (links before) (cut s.curl easy xs)
  in_front : (a : ℕ) → has a xs ≡ false → a ≢ before → links a ≡ s.next a
  last_node : end ≡ last_of before (cut s.curl easy xs)

walk :
    (easy k before : ℕ) (s : EasyHandleList) (xs : List ℕ)
    → Chain s.next (s.next before) xs
    → Distinct xs
    → has before xs ≡ false
    → 0 < before
    → s.last ≡ last_of before xs
    → length xs < k
    → Walked easy k before (s.next before) s xs
unfolding remove_loop cut_node
walk easy zero before s xs c d out positive end fuel = ground arith
walk easy (suc k) before s [] c d out positive end fuel = record {
  links = s.next;
  end = s.last;
  run = rw c refl;
  chain = c;
  in_front = λ a o n. refl;
  last_node = end;
}
walk easy (suc k) before s (x ∷ xs) c d out positive end fuel =
    let there : (x == 0) ≡ false = ground (arith, c.1) in
    let front : (before == 0) ≡ false = ground arith in
    elim (Bool-cases (s.curl x == easy)) [
      | inl found ↦ record {
        links = update s.next before (s.next x);
        end = last_of before xs;
        run = rw (c.0, there, found, front, end, last_cut before x xs d.0) refl;
        chain =
            rw (found, (==_iff before before).1 refl)
              (Chain-update s.next before (s.next x) (s.next x) xs (ground arith) c.2);
        in_front = λ a o n. ground arith;
        last_node = rw found refl;
      }
      | inr other ↦
          let w = walk easy k x s xs c.2 d.1 d.0 c.1 end (ground arith) in
          record {
            links = w.links;
            end = w.end;
            run = rw (c.0, there, other) w.run;
            chain = rw other (
              w.in_front before (ground arith)
                    (λ e. absurd (ground (arith, (==_iff x before).1 (sym e))))
                  ∙ c.0,
              c.1,
              w.chain,
            );
            in_front = λ a o n.
                w.in_front a (ground arith) (λ e. absurd (ground (arith, (==_iff x a).1 (sym e))));
            last_node = rw other w.last_node;
          }
    ]

-- One turn of the loop, on a node that holds the handle and on one that does not.
found_step :
    (easy k before here x : ℕ) (s : EasyHandleList)
    → here ≡ x
    → (x == 0) ≡ false
    → (s.curl x == easy) ≡ true
    → remove_loop (suc k) before here easy s ≡ some (cut_node before x s)
unfolding remove_loop
found_step easy k before here x s same there found = rw (same, there, found) refl

other_step :
    (easy k before here x : ℕ) (s : EasyHandleList)
    → here ≡ x
    → (x == 0) ≡ false
    → (s.curl x == easy) ≡ false
    → remove_loop (suc k) before here easy s ≡ remove_loop k x (s.next x) easy s
unfolding remove_loop
other_step easy k before here x s same there other = rw (same, there, other) refl

-- Cutting the first node.
cut_first :
    (s : EasyHandleList) (x : ℕ) (xs : List ℕ)
    → s.last ≡ last_of x xs
    → has x xs ≡ false
    → cut_node 0 x s ≡ record s { first = s.next x; last = last_of 0 xs }
unfolding cut_node
cut_first s x xs end out =
    ap (λ (p : ℕ). record s { first = s.next x; last = p })
      (ap (λ (l : ℕ). if x == l then 0 else l) end ∙ last_cut 0 x xs out)

entries_same :
    (s s' : EasyHandleList) (xs : List ℕ)
    → s'.curl ≡ s.curl
    → s'.name ≡ s.name
    → entries s' xs ≡ entries s xs
entries_same s s' xs c n =
    ap (λ (f : ℕ → ℕ). map {B = ℕ × String} (λ q. (f q, s'.name q)) xs) c
    ∙ ap (λ (f : ℕ → String). map {B = ℕ × String} (λ q. (s.curl q, f q)) xs) n

-- What curlEasyHandleListRemove makes of the nodes.
record Removed (easy : ℕ) (s : EasyHandleList) (xs : List ℕ) : Type 0 where
  after : EasyHandleList
  run : easy_handle_list_remove easy s ≡ some after
  linked : Nodes after (cut s.curl easy xs)
  curl : after.curl ≡ s.curl
  name : after.name ≡ s.name

remove-Nodes : (easy : ℕ) (s : EasyHandleList) (xs : List ℕ) → Nodes s xs → Removed easy s xs
unfolding easy_handle_list_remove remove_loop
remove-Nodes easy s [] v = record {
  after = s;
  run = ground (arith, v.chain);
  linked = v;
  curl = refl;
  name = refl;
}
remove-Nodes easy s (x ∷ xs) v =
    let c = v.chain in
    let d = v.distinct in
    let there : (x == 0) ≡ false = ground (arith, c.1) in
    let below = λ (a : ℕ) (h : has a (cut s.curl easy (x ∷ xs)) ≡ true).
      v.below_limit a (has-cut s.curl easy a (x ∷ xs) h) in
    elim (Bool-cases (s.curl x == easy)) [
      | inl found ↦ record {
        after = record s { first = s.next x; last = last_of 0 xs };
        run =
            found_step easy s.limit 0 s.first x s c.0 there found
            ∙ ap some (cut_first s x xs v.last_node d.0);
        linked = record {
          chain = rw found c.2;
          distinct = Distinct-cut s.curl easy (x ∷ xs) d;
          last_node = rw found refl;
          below_limit = below;
        };
        curl = refl;
        name = refl;
      }
      | inr other ↦
          let w = walk easy s.limit x s xs c.2 d.1 d.0 c.1 v.last_node (ground (arith, enough v)) in
          record {
            after = record s { next = w.links; last = w.end };
            run = other_step easy s.limit 0 s.first x s c.0 there other ∙ w.run;
            linked = record {
              chain = rw other (c.0, c.1, w.chain);
              distinct = Distinct-cut s.curl easy (x ∷ xs) d;
              last_node = rw other w.last_node;
              below_limit = below;
            };
            curl = refl;
            name = refl;
          }
    ]

-- curlEasyHandleListRemove: the loop ends, and the list then holds what it held without the first
-- entry of the handle, first and last pointer included.
pub easy_handle_list_remove-Holds :
    (easy : ℕ) (s : EasyHandleList) (l : List (ℕ × String))
    → Holds s l
    → (s' : EasyHandleList) × (easy_handle_list_remove easy s ≡ some s')
      × Holds s' (remove_entry easy l)
easy_handle_list_remove-Holds easy s l v =
    let r = remove-Nodes easy s v.nodes v.linked in
    (
      r.after,
      r.run,
      record {
        nodes = cut s.curl easy v.nodes;
        linked = r.linked;
        held =
            entries_same s r.after (cut s.curl easy v.nodes) r.curl r.name
            ∙ entries-cut easy s v.nodes
            ∙ ap (remove_entry easy) v.held;
      },
    )
