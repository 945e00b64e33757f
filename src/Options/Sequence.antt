-- ===== src/Options/Sequence.antt =====
-- The `configure` command works its list of names and values off from the left.
use tclcurl_ng.Base.{◌≡◌, ◌≢◌, refl, ap, ◌∙◌, String, List, [], ◌∷◌, ◌++◌}
use tclcurl_ng.Api.{Tcl, Answers}
use tclcurl_ng.Api.Monad.{State, Status, M, ok, error, fault, ◌>>=◌}
use tclcurl_ng.Options.Run.{set_found, config_transfer, unless_error}
use tclcurl_ng.Options.Table.{config_table}

-- The argument list of names that each have a value.
abbrev pub arguments : List (String × String) → List String
arguments [] = []
arguments ((name, o) ∷ rest) = name ∷ o ∷ arguments rest

module _ (tcl : Tcl) (ask : Answers) where
  step :
      (set rest : List String)
      → ((s : State)
          → config_transfer tcl ask (set ++ rest) s
            ≡ (config_transfer tcl ask set >>= λ status.
                  unless_error tcl ask status (config_transfer tcl ask rest))
                s)
      → (status : Status) (s : State)
      → unless_error tcl ask status (config_transfer tcl ask (set ++ rest)) s
        ≡ (unless_error tcl ask status (config_transfer tcl ask set) >>= λ status.
              unless_error tcl ask status (config_transfer tcl ask rest))
            s
  step set rest same ok s = same s
  step set rest same error s = refl
  step set rest same fault s = refl

  all_together :
      (set : List (String × String)) (rest : List String) (s : State)
      → config_transfer tcl ask (arguments set ++ rest) s
        ≡ (config_transfer tcl ask (arguments set) >>= λ status.
              unless_error tcl ask status (config_transfer tcl ask rest))
            s
  unfolding config_transfer
  all_together [] rest s = refl
  all_together ((name, o) ∷ set) rest s =
      let (status, s') = set_found tcl ask (tcl.get_index config_table name) o s in
      step (arguments set) rest (all_together set rest) status s'

  stopped :
      (status : Status) (rest : M Status) (s : State)
      → status ≢ ok
      → unless_error tcl ask status rest s ≡ (status, s)
  stopped ok rest s n = absurd (n refl)
  stopped error rest s n = refl
  stopped fault rest s n = refl

  -- `configure` on pairs followed by more words. If the pairs alone do not succeed, the words behind
  -- them change nothing: the status and the state are those of the pairs alone. If they succeed, the
  -- rest runs from the state that they leave.
  pub config_transfer-append :
      (set : List (String × String)) (rest : List String) (s : State)
      → ((config_transfer tcl ask (arguments set) s).0 ≢ ok
          → config_transfer tcl ask (arguments set ++ rest) s
            ≡ config_transfer tcl ask (arguments set) s)
        × ((config_transfer tcl ask (arguments set) s).0 ≡ ok
            → config_transfer tcl ask (arguments set ++ rest) s
              ≡ config_transfer tcl ask rest (config_transfer tcl ask (arguments set) s).1)
  config_transfer-append set rest s =
      let r = config_transfer tcl ask (arguments set) s in
      (
        λ n. all_together set rest s ∙ stopped r.0 (config_transfer tcl ask rest) r.1 n,
        λ e.
            all_together set rest s
            ∙ ap (λ status. unless_error tcl ask status (config_transfer tcl ask rest) r.1) e,
      )
