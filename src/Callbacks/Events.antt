-- ===== src/Callbacks/Events.antt =====
-- The calls that libcurl makes of the functions in Callbacks while a transfer runs, as a sequence of
-- events that the environment chooses. The user's scripts do not reconfigure the handle meanwhile.
use tclcurl_ng.Base.{ℕ, ℤ, String, List, [], ◌∷◌}
use tclcurl_ng.Api.{Tcl, Answers, Results}
use tclcurl_ng.Api.Monad.{M, pure, ◌>>◌}
use tclcurl_ng.Callbacks
use tclcurl_ng.Callbacks.{FileInfo, KeyType, KeyMatch}

pub data Event : Type 0 where
  header : String → ℕ → Event
  body : List ℕ → Event
  progress : (dltotal dlnow ultotal ulnow : ℤ) → Event
  write_proc : List ℕ → Event
  read_proc : ℕ → Event
  debug : ℤ → List ℕ → Event
  chunk_bgn : FileInfo → ℤ → Event
  chunk_end : Event
  fnmatch : (pattern' filename : String) → Event
  ssh_key : (known found : KeyType × String) → KeyMatch → Event

module _ (tcl : Tcl) (ask : Answers) (results : Results) where
  unfoldable pub run_event : Event → M (Unit {0})
  run_event (header line size) = Callbacks.header_reader tcl ask results line size >> pure tt
  run_event (body chunk) = Callbacks.body_reader chunk >> pure tt
  run_event (progress a b c d) = Callbacks.progress_callback tcl ask results a b c d >> pure tt
  run_event (write_proc chunk) = Callbacks.write_proc_invoke tcl ask results chunk >> pure tt
  run_event (read_proc room) = Callbacks.read_proc_invoke tcl ask results room >> pure tt
  run_event (debug type' chunk) = Callbacks.debug_proc_invoke tcl ask results type' chunk >> pure tt
  run_event (chunk_bgn info remains) =
      Callbacks.chunk_bgn_invoke tcl ask results info remains >> pure tt
  run_event chunk_end = Callbacks.chunk_end_invoke tcl ask results >> pure tt
  run_event (fnmatch pattern' filename) =
      Callbacks.fnmatch_invoke tcl ask results pattern' filename >> pure tt
  run_event (ssh_key known found m) =
      Callbacks.ssh_key_callback tcl ask results known found m >> pure tt

  unfoldable pub run_events : List Event → M (Unit {0})
  run_events [] = pure tt
  run_events (e ∷ es) = run_event e >> run_events es
