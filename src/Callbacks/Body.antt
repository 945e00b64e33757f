-- ===== src/Callbacks/Body.antt =====
-- The body of a transfer, and its cancellation.
use tclcurl_ng.Base.{
  ℕ, ◌+◌, ℤ, negsuc, ◌≡◌, List, [], ◌∷◌, ◌++◌, ◌∙◌, sym, true, false, arith, map, length,
  length-append,
}
use mathlib.Core.List.{append-nil, append_assoc}
use tclcurl_ng.Api.{Tcl, Answers, Results}
use tclcurl_ng.Api.Monad.{State}
use tclcurl_ng.Callbacks.{body_reader, take_cancel, progress_callback, is_set}
use tclcurl_ng.Callbacks.Events.{body, run_event, run_events}

abbrev pub concat : List (List ℕ) → List ℕ
concat [] = []
concat (x ∷ xs) = x ++ concat xs

module _ (tcl : Tcl) (ask : Answers) (results : Results) where
  -- If the recorded size is right, any sequence of body callbacks appends its chunks in order to the
  -- collected body, and the recorded size is right again.
  pub run_events-body :
      (chunks : List (List ℕ)) (s : State)
      → s.easy.body_var.size ≡ length s.easy.body_var.memory
      → (let d = (run_events tcl ask results (map body chunks) s).1.easy in
          (d.body_var.memory ≡ s.easy.body_var.memory ++ concat chunks)
          × (d.body_var.size ≡ length d.body_var.memory))
  unfolding run_events run_event body_reader
  run_events-body [] s e = (sym (append-nil s.easy.body_var.memory), e)
  run_events-body (chunk ∷ chunks) s e =
      let m = s.easy.body_var.memory in
      let size : s.easy.body_var.size + length chunk ≡ length (m ++ chunk) =
        omega (arith, length-append m chunk, e) in
      let (later, fits) =
        run_events-body chunks (run_event tcl ask results (body chunk) s).1 size in
      (later ∙ append_assoc m chunk (concat chunks), fits)

  -- If a cancel variable is linked and set, the progress callback answers -1 without evaluating
  -- anything, and takes the request back: the next look at the variable finds no cancellation.
  progress_callback-cancelled :
      (a b c d : ℤ) (s : State)
      → is_set s.easy.cancel_trans_var_name ≡ true
      → s.easy.cancel_trans ≡ true
      → (let (r, s') = progress_callback tcl ask results a b c d s in
          (r ≡ negsuc 0) × (s'.calls ≡ s.calls) × ((take_cancel s').0 ≡ false))
  unfolding progress_callback take_cancel
  progress_callback-cancelled a b c d s named cancelled = ground arith
