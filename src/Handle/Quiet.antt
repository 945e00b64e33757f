-- ===== src/Handle/Quiet.antt =====
-- Calls that open no file, close none and start no transfer, such as those of curlFreeSpace.
use tclcurl_ng.Base.{
  ℕ, ◌≡◌, refl, List, [], ◌∷◌, ◌++◌, Option, none, some, Bool, true, false, ◌&&◌, arith, ◌==◌,
  Bool-cases, inl, inr, String,
}
use tclcurl_ng.Api.{Answers, Call, fopen, fclose, easy_perform}
use tclcurl_ng.Api.Easy.{CurlObjData}
use tclcurl_ng.Api.Monad.{State}
use tclcurl_ng.Handle.{freed, free_memory, free_cancel_var, free_mime, call_all, free_space}
use tclcurl_ng.Transfer.Balance.{opens, closes}
use tclcurl_ng.Transfer.Running.{Run, performs}

abbrev pub is_quiet : Call → Bool
is_quiet (fopen name mode) = false
is_quiet (fclose p) = false
is_quiet (easy_perform h) = false
is_quiet _ = true

abbrev pub reverse_append : List Call → List Call → List Call
reverse_append [] log = log
reverse_append (c ∷ cs) log = reverse_append cs (c ∷ log)

abbrev pub all_quiet : List Call → Bool
all_quiet [] = true
all_quiet (c ∷ cs) = is_quiet c && all_quiet cs

and_left : (a b : Bool) → (a && b) ≡ true → a ≡ true
and_left true b e = refl
and_left false b e = e

and_right : (a b : Bool) → (a && b) ≡ true → b ≡ true
and_right true b e = e
and_right false b e = ground arith

and_intro : (a b : Bool) → a ≡ true → b ≡ true → (a && b) ≡ true
and_intro true b p q = q
and_intro false b p q = p

quiet-opens : (fp : ℕ) (c : Call) (p : ℕ) → is_quiet c ≡ true → opens fp c p ≡ 0
quiet-opens fp c p q = ground arith

quiet-closes : (fp : ℕ) (c : Call) → is_quiet c ≡ true → closes fp c ≡ 0
quiet-closes fp c q = ground arith

quiet-performs : (c : Call) → is_quiet c ≡ true → performs c ≡ 0
quiet-performs c q = ground arith

-- A quiet call keeps the files sound, and starts no transfer.
pub quiet-Run :
    {fp : ℕ} (ask : Answers) (n : ℕ) (c : Call) (s : State)
    → is_quiet c ≡ true
    → Run fp ask n s
    → Run fp ask n (record s { calls = c ∷ s.calls })
quiet-Run {fp} ask n c s q v = record {
  files = record {
    not_null = v.files.not_null;
    balanced =
        omega
          (arith, quiet-opens fp c (ask (c ∷ s.calls)) q, quiet-closes fp c q, v.files.balanced);
    out_named = v.files.out_named;
    in_named = v.files.in_named;
    header_named = v.files.header_named;
    stderr_named = v.files.stderr_named;
  };
  started = omega (arith, quiet-performs c q, v.started);
}

pub call_all-Run :
    {fp : ℕ} (ask : Answers) (n : ℕ) (cs : List Call) (s : State)
    → all_quiet cs ≡ true
    → Run fp ask n s
    → Run fp ask n (call_all ask cs s).1
unfolding call_all
call_all-Run ask n [] s q v = v
call_all-Run ask n (c ∷ cs) s q v =
    call_all-Run ask n cs (record s { calls = c ∷ s.calls })
      (and_right (is_quiet c) (all_quiet cs) q)
      (quiet-Run ask n c s (and_left (is_quiet c) (all_quiet cs) q) v)

-- The calls are logged in their order, and nothing else changes.
pub call_all-calls :
    (ask : Answers) (cs : List Call) (s : State)
    → (call_all ask cs s).1 ≡ record s { calls = reverse_append cs s.calls }
unfolding call_all
call_all-calls ask [] s = refl
call_all-calls ask (c ∷ cs) s = call_all-calls ask cs (record s { calls = c ∷ s.calls })

quiet-append :
    (cs ds : List Call) → all_quiet cs ≡ true → all_quiet ds ≡ true → all_quiet (cs ++ ds) ≡ true
quiet-append [] ds p q = q
quiet-append (c ∷ cs) ds p q =
    and_intro (is_quiet c) (all_quiet (cs ++ ds)) (and_left (is_quiet c) (all_quiet cs) p)
      (quiet-append cs ds (and_right (is_quiet c) (all_quiet cs) p) q)

free_memory-quiet : (m : List ℕ) → all_quiet (free_memory m) ≡ true
free_memory-quiet [] = refl
free_memory-quiet (b ∷ bs) = refl

free_cancel_var-quiet : (o : Option String) → all_quiet (free_cancel_var o) ≡ true
free_cancel_var-quiet none = refl
free_cancel_var-quiet (some var) = refl

free_mime-quiet : (mime : ℕ) → all_quiet (free_mime mime) ≡ true
free_mime-quiet mime = elim (Bool-cases (mime == 0)) [ inl e ↦ rw e refl | inr e ↦ rw e refl ]

pub freed-quiet : (d : CurlObjData) → all_quiet (freed d) ≡ true
unfolding freed
freed-quiet d =
    quiet-append (free_memory d.body_var.memory) _ (free_memory-quiet d.body_var.memory) (
      quiet-append (free_cancel_var d.cancel_trans_var_name) _
        (free_cancel_var-quiet d.cancel_trans_var_name)
        (quiet-append (free_mime d.mime) _ (free_mime-quiet d.mime) refl))

pub free_space-Run :
    {fp : ℕ} (ask : Answers) (n : ℕ) (d : CurlObjData) (s : State)
    → Run fp ask n s
    → Run fp ask n (free_space ask d s).1
unfolding free_space
free_space-Run ask n d s v = call_all-Run ask n (freed d) s (freed-quiet d) v
