-- ===== src/Transfer/Wires/Perform.antt =====
-- The function for received data and its argument through curlPerform of generic/tclcurl.c: the file is
-- opened before libcurl is handed the transfer.
use tclcurl_ng.Base.{ℕ, ◌≡◌, refl, sym, ap, ◌∙◌, List, ◌∷◌, Bool, true, arith}
use tclcurl_ng.Api.{Tcl, Answers, Results, easy_perform}
use tclcurl_ng.Api.Monad.{State, Status, M, ok, error, fault, code}
use tclcurl_ng.Callbacks.Events.{Event, run_events}
use tclcurl_ng.Mime.Transfer.{set_post_data}
use tclcurl_ng.Options.Wires.{IsWired, Accepts, suits, write_function, write_data, all_suit}
use tclcurl_ng.Transfer.{
  open_file, open_out, open_in, open_header, open_files, and_then, easy_transfer, or_error, perform,
}
use tclcurl_ng.Transfer.Wires.{
  Calm, Calm-refl, Calm-trans, open_in-Calm, open_header-Calm, open_stderr-Calm, set_post_data-Calm,
  after_perform-Calm,
}
use tclcurl_ng.Transfer.Wires.Events.{run_events-Calm}

-- The argument suits the function now.
abbrev pub fits : Answers → State → Bool
fits ask s = suits (write_function ask s) (write_data ask s)

module _ (ask : Answers) {s t : State} (c : Calm ask s t) where
  pub Calm-IsWired : IsWired ask s → IsWired ask t
  Calm-IsWired v = record {
    ready = rw (c.same_flag, c.same_function, c.same_data) v.ready;
    past = rw c.same_past v.past;
  }

  pub Calm-fits : fits ask s ≡ true → fits ask t ≡ true
  Calm-fits e = rw (c.same_function, c.same_data) e

module _ (ask : Answers) (acc : Accepts ask) (s : State) (v : IsWired ask s) where
  open_out-IsWired : IsWired ask (open_out ask s).1
  unfolding open_out open_file
  open_out-IsWired = grind (arith, acc.functions, acc.arguments, v.ready, v.past)

  open_out-fits : (open_out ask s).0 ≡ ok → fits ask (open_out ask s).1 ≡ true
  unfolding open_out open_file
  open_out-fits e = grind (arith, acc.functions, acc.arguments, v.ready, v.past, e)

module _ (ask : Answers) where
  and_then-Calm :
      (status : Status) (rest : M Status) {s t : State}
      → Calm ask s t
      → Calm ask s (rest t).1
      → Calm ask s (and_then ask status rest t).1
  and_then-Calm ok rest p q = q
  and_then-Calm error rest p q = p
  and_then-Calm fault rest p q = p

  and_then-ok :
      (status : Status) (rest : M Status) (s : State)
      → (and_then ask status rest s).0 ≡ ok
      → status ≡ ok
  and_then-ok ok rest s e = refl
  and_then-ok error rest s e = e
  and_then-ok fault rest s e = ground (arith, e)

  -- What follows curlOpenFile for received data.
  open_files-Calm : (s : State) → Calm ask (open_out ask s).1 (open_files ask s).1
  unfolding open_files
  open_files-Calm s =
      let r1 = open_out ask s in
      let r2 = open_in ask r1.1 in
      let r3 = open_header ask r2.1 in
      let p2 = open_in-Calm ask r1.1 in
      let p3 = Calm-trans p2 (open_header-Calm ask r2.1) in
      and_then-Calm r1.0 _ Calm-refl (
        and_then-Calm r2.0 _ p2
          (and_then-Calm r3.0 _ p3 (Calm-trans p3 (open_stderr-Calm ask r3.1))))

  open_files-ok : (s : State) → (open_files ask s).0 ≡ ok → (open_out ask s).0 ≡ ok
  unfolding open_files
  open_files-ok s e = and_then-ok (open_out ask s).0 _ (open_out ask s).1 e

-- What curlOpenFiles leaves.
module _ (ask : Answers) (acc : Accepts ask) (s : State) (v : IsWired ask s) where
  pub open_files-IsWired : IsWired ask (open_files ask s).1
  open_files-IsWired = Calm-IsWired ask (open_files-Calm ask s) (open_out-IsWired ask acc s v)

  pub open_files-fits : (open_files ask s).0 ≡ ok → fits ask (open_files ask s).1 ≡ true
  open_files-fits e =
      Calm-fits ask (open_files-Calm ask s) (open_out-fits ask acc s v (open_files-ok ask s e))

module _ (tcl : Tcl) (ask : Answers) (results : Results) where
  easy_transfer-IsWired :
      (events : List Event) (s : State)
      → fits ask s ≡ true
      → IsWired ask s
      → IsWired ask (easy_transfer tcl ask results events s).1
  unfolding easy_transfer
  easy_transfer-IsWired events s e v =
      let p = run_events-Calm tcl ask results events s in
      let s1 = (run_events tcl ask results events s).1 in
      let w = Calm-IsWired ask p v in
      let calls = easy_perform s.easy.curl ∷ s1.calls in
      let s2 : State = record s1 { calls = calls; result = code (ask calls) } in
      let suited : fits ask s1 ≡ true = Calm-fits ask p e in
      let now : all_suit ask s1.easy.curl (easy_perform s1.easy.curl ∷ s1.calls) ≡ true =
        ground (arith, suited, w.past) in
      let past : all_suit ask s2.easy.curl calls ≡ true =
        ap (λ h. all_suit ask s1.easy.curl (easy_perform h ∷ s1.calls)) (sym p.same_curl) ∙ now in
      Calm-IsWired ask (after_perform-Calm ask s2) (record { ready = w.ready; past = past })

  or_error-IsWired :
      (status : Status) (rest : M ℕ) (s : State)
      → IsWired ask s
      → (status ≡ ok → IsWired ask (rest s).1)
      → IsWired ask (or_error tcl ask results status rest s).1
  or_error-IsWired ok rest s v w = w refl
  or_error-IsWired error rest s v w = v
  or_error-IsWired fault rest s v w = v

  pub perform-IsWired :
      (events : List Event) (s : State)
      → Accepts ask
      → IsWired ask s
      → IsWired ask (perform tcl ask results events s).1
  unfolding perform
  perform-IsWired events s acc v =
      let r1 = open_files ask s in
      let r2 = set_post_data ask r1.1 in
      let q = set_post_data-Calm ask r1.1 in
      let v1 = open_files-IsWired ask acc s v in
      let v2 = Calm-IsWired ask q v1 in
      or_error-IsWired r1.0 _ r1.1 v1 (λ opened.
        let fitted = open_files-fits ask acc s v opened in
        or_error-IsWired r2.0 _ r2.1 v2
          (λ posted. easy_transfer-IsWired events r2.1 (Calm-fits ask q fitted) v2))
