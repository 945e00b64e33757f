-- ===== src/Commands/Free.antt =====
-- The search for a name ends at the first one that is free.
use tclcurl_ng.Base.{
  ◌+◌, ℕ, zero, suc, ◌<◌, ◌≤◌, ◌≡◌, ◌≢◌, refl, sym, ap, ◌∙◌, true, false, String, List, [], ◌∷◌,
  Option, some, arith, if◌then◌else◌, Bool-cases, inl, inr, length, str_eq, eq_iff, ◌==◌, ==_iff,
}
use tclcurl_ng.Options.Table.Names.{member}
use tclcurl_ng.Commands.{
  fits, multi_loop, free_loop, created, create_command, create_obj_cmd, create_share_obj_cmd,
  create_multi_obj_cmd,
}

abbrev erase : String → List String → List String
erase o [] = []
erase o (x ∷ xs) = if str_eq x o then xs else x ∷ erase o xs

length-erase :
    (o : String) (xs : List String) → member o xs ≡ true → suc (length (erase o xs)) ≡ length xs
length-erase o [] h = ground arith
length-erase o (x ∷ xs) h = ground (arith, length-erase o xs)

member-erase :
    (o p : String) (xs : List String) → p ≢ o → member p xs ≡ true → member p (erase o xs) ≡ true
member-erase o p [] n h = h
member-erase o p (x ∷ xs) n h = elim (Bool-cases (str_eq x o)) [
  | inl e ↦
      let q : (str_eq x p) ≡ false = elim (Bool-cases (str_eq x p)) [
        | inl f ↦ absurd (n (sym ((eq_iff x p).0 f) ∙ (eq_iff x o).0 e))
        | inr f ↦ f
      ] in
      rw e (ground (arith, q))
  | inr e ↦ rw e (ground (arith, member-erase o p xs n))
]

-- What the loop finds from `i`: a free name, and all names before it are taken.
pub record Found (print : ℕ → String) (taken : List String) (start : ℕ) (result : Option ℕ)
    : Type 0 where
  pub number : ℕ
  pub run : result ≡ some number
  pub free : member (print number) taken ≡ false
  pub above : start ≤ number
  pub all_taken : (i : ℕ) → start ≤ i → i < number → member (print i) taken ≡ true

-- The command that is made has the first free name from the number `start` on.
pub record IsFirstFree (print : ℕ → String) (taken : List String) (start : ℕ)
    (result : Option (String × List String)) : Type 0 where
  pub number : ℕ
  pub run : result ≡ some (print number, print number ∷ taken)
  pub free : member (print number) taken ≡ false
  pub above : start ≤ number
  pub all_taken : (i : ℕ) → start ≤ i → i < number → member (print i) taken ≡ true

module _ (print : ℕ → String) (injective : (i j : ℕ) → print i ≡ print j → i ≡ j)
    (taken : List String) where
  -- `left` holds every taken name that is still to come.
  free_loop-Found :
      (k start : ℕ) (left : List String)
      → ((j : ℕ) → start ≤ j → member (print j) taken ≡ true → member (print j) left ≡ true)
      → length left < k
      → Found print taken start (free_loop print taken k start)
  unfolding free_loop
  free_loop-Found zero start left cover fuel = ground arith
  free_loop-Found (suc k) start left cover fuel = elim (Bool-cases (member (print start) taken)) [
    | inl there ↦
        let here = cover start (ground arith) there in
        let f =
          free_loop-Found k (suc start) (erase (print start) left)
            (λ j above h.
              member-erase (print start) (print j) left
                (λ e. absurd (ground (arith, injective j start e))) (cover j (ground arith) h))
            (ground (arith, length-erase (print start) left here)) in
        record {
          number = f.number;
          run = rw there f.run;
          free = f.free;
          above = ground (arith, f.above);
          all_taken = λ i a b. elim (Bool-cases (i == start)) [
            | inl e ↦ ap (λ j. member (print j) taken) ((==_iff i start).0 e) ∙ there
            | inr e ↦ f.all_taken i (ground arith) b
          ];
        }
    | inr free ↦ record {
      number = start;
      run = rw free refl;
      free = free;
      above = ground arith;
      all_taken = λ i a b. ground arith;
    }
  ]

  create_command-IsFirstFree :
      (start : ℕ) → IsFirstFree print taken start (create_command start print taken)
  unfolding create_command
  create_command-IsFirstFree start =
      let f = free_loop-Found (suc (length taken)) start taken (λ j a h. h) (ground arith) in
      record {
        number = f.number;
        run = ap (created print taken) f.run;
        free = f.free;
        above = f.above;
        all_taken = f.all_taken;
      }

  pub create_obj_cmd-IsFirstFree : IsFirstFree print taken 0 (create_obj_cmd print taken)
  unfolding create_obj_cmd
  create_obj_cmd-IsFirstFree = create_command-IsFirstFree 0

  pub create_share_obj_cmd-IsFirstFree :
      IsFirstFree print taken 1 (create_share_obj_cmd print taken)
  unfolding create_share_obj_cmd
  create_share_obj_cmd-IsFirstFree = create_command-IsFirstFree 1

  -- While the names fit, the buffer does not matter.
  multi_loop-free_loop :
      (k i : ℕ)
      → ((j : ℕ) → i ≤ j → j < i + k → fits (print j) ≡ true)
      → multi_loop print taken k i ≡ free_loop print taken k i
  unfolding multi_loop free_loop
  multi_loop-free_loop zero i short = refl
  multi_loop-free_loop (suc k) i short =
      let here = short i (omega arith) (omega arith) in
      let later =
        multi_loop-free_loop k (suc i) (λ j a b. short j (omega (arith, a)) (omega (arith, b))) in
      ground (arith, here, later)

  -- If snprintf prints different numbers differently, and the first names from the number 1 on, one
  -- more than there are commands, have nine characters at most: the search for the name of a new easy, share
  -- or multi handle ends, with the first name from curl0, scurl1 or mcurl1 on that no command has, and
  -- just that command is added. The bound matters for a multi handle alone: its name goes to a buffer of
  -- ten bytes.
  pub create_commands_lem :
      ((j : ℕ) → 1 ≤ j → j < 1 + suc (length taken) → fits (print j) ≡ true)
      → IsFirstFree print taken 0 (create_obj_cmd print taken)
        × IsFirstFree print taken 1 (create_share_obj_cmd print taken)
        × IsFirstFree print taken 1 (create_multi_obj_cmd print taken)
  unfolding create_multi_obj_cmd create_command
  create_commands_lem short =
      let same = multi_loop-free_loop (suc (length taken)) 1 short in
      (
        create_obj_cmd-IsFirstFree,
        create_share_obj_cmd-IsFirstFree,
        rw same (create_command-IsFirstFree 1),
      )
