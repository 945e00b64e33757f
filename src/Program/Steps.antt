-- ===== src/Program/Steps.antt =====
-- Every step of a program keeps its handles linked.
use tclcurl_ng.Base.{
  ℕ, ◌<◌, ◌≡◌, ◌≢◌, ap, ◌∙◌, inl, inr, String, List, ◌∷◌, none, some, false, if◌then◌else◌, arith,
  Bool-cases,
}
use tclcurl_ng.Api.{Tcl, IsTcl, Answers, Results, Infos, MultiAnswers, create_command, share_init}
use tclcurl_ng.Api.Easy.{CurlObjData}
use tclcurl_ng.Callbacks.Events.{run_events}
use tclcurl_ng.Handle.{init_obj_cmd, delete_cmd}
use tclcurl_ng.Handle.Command.{Situation, curl_obj_cmd}
use tclcurl_ng.Handle.Links.{delete_cmd-Moved, delete_cmd-alone}
use tclcurl_ng.Handle.Links.Outcome.{curl_obj_cmd-Outcome, curl_obj_cmd-cleanup}
use tclcurl_ng.Handle.Session.{ends}
use tclcurl_ng.Multi.Untouched.{add_multi_handle-Untouched, remove_multi_handle-Untouched}
use tclcurl_ng.Options.Untouched.Links.{Untouched-Moved}
use tclcurl_ng.Program.{
  Program, IsUnused, enter, if_created, shared, curl_of, create, obey, delete, create_share,
  obey_share, delete_share, Step, created, obeyed, called_back, added, removed, deleted,
  share_created, share_obeyed, share_deleted, Reach, started, continued,
}
use tclcurl_ng.Program.Kept.{
  nothing-IsLinked, init_obj_cmd-Untouched, ends_cleanup, clear_links-same, cleared-IsLinked,
  filled-IsLinked, Without-IsLinked, same-IsLinked, bind_name-live,
}
use tclcurl_ng.Program.Links.{
  IsLinked, linked, enter-Linked, enter-IsFresh, Moved-IsLinked, Outcome-IsLinked,
}
use tclcurl_ng.Program.Share.{
  clean_up_share_cmd-Without, share_obj_cmd-Ends, share_init_obj_cmd-Grown,
}
use tclcurl_ng.Share.{clear_links}
use tclcurl_ng.Share.Init.{share_init_obj_cmd, share_init_obj_cmd-Rep}
use tclcurl_ng.Callbacks.Untouched.{run_events-Untouched}

-- curl::shareinit, with a token that no live share handle has.
module _ (tcl : Tcl) (ask : Answers) (results : Results) (infos : Infos) (libcurl : MultiAnswers)
    (print : ℕ → String) (injective : (i j : ℕ) → print i ≡ print j → i ≡ j) where
  create_share-IsLinked :
      (p : Program) (t : ℕ) (taken : List String)
      → t ≢ 0
      → p.shares.alive t ≡ false
      → ((name : String) → ask (create_command name ∷ share_init ∷ p.calls) ≡ t)
      → IsLinked p
      → IsLinked (create_share tcl ask results infos libcurl print t taken p)
  unfolding create_share
  create_share-IsLinked p t taken n fresh gives v =
      let (status, s) = share_init_obj_cmd ask print taken (shared p) in
      let g = share_init_obj_cmd-Grown ask print taken (shared p) in
      let old = λ (o : String) (m : p.commands o ≢ 0). g.alive (p.commands o) (v.live o m) in
      let owned =
        λ (j : ℕ) (gone : p.easy j ≡ none). ap (λ (f : ℕ → ℕ). f j) g.tokens ∙ v.owned j gone in
      let ranged : (j : ℕ) (d : CurlObjData) → p.easy j ≡ some d → (0 < j) × (j < s.store.limit) =
        λ j d there. rw g.limit (v.ranged j d there) in
      elim (share_init_obj_cmd-Rep ask print taken t (shared p) v.users injective gives v.rep n
        fresh) [
          | inl no_share ↦ linked v.users (rw no_share.same_store v.rep) owned ranged (
              bind_name-live t p.commands s.store.alive old status s.result
                (λ e. cc (e, no_share.failed)))
          | inr new ↦
              linked v.users new.users owned ranged
                (bind_name-live t p.commands s.store.alive old status s.result (λ e. new.alive))
        ]

  IsUnused-cleared :
      (p : Program) (e : ℕ)
      → IsUnused p e
      → IsUnused (record p { shares = clear_links e p.shares }) e
  IsUnused-cleared p e u = record {
    unused = u.unused;
    positive = u.positive;
    below = rw (clear_links-same e p.shares).1 u.below;
  }

  -- A handle that goes away by its command is no user any more.
  cleanup_cuts :
      (exact : IsTcl tcl) (world : Situation) (p : Program) (e : ℕ) (d : CurlObjData)
      (args : List String)
      → (if ends args
          then none
          else some (curl_obj_cmd tcl ask results infos print world args (enter p e d)).1.easy)
        ≡ none
      → (curl_obj_cmd tcl ask results infos print world args (enter p e d)).1.shares.share_token e
        ≡ 0
  cleanup_cuts exact world p e d args gone = elim (Bool-cases (ends args)) [
    | inl over ↦
        rw (ends_cleanup args over)
          (curl_obj_cmd-cleanup tcl exact ask results infos print world (enter p e d))
    | inr on ↦ absurd (ground (arith, on, gone))
  ]

  -- Every step keeps the handles linked, where the search for a word is exact.
  Step-IsLinked :
      (exact : IsTcl tcl) {p q : Program}
      → Step tcl ask results infos libcurl print p q
      → IsLinked p
      → IsLinked q
  unfolding create obey delete obey_share delete_share
  Step-IsLinked exact (created p e taken memory u) v =
      let p' : Program = record p { shares = clear_links e p.shares } in
      let (made, s) = init_obj_cmd ask print taken (enter p' e memory) in
      filled-IsLinked ask print p' (cleared-IsLinked ask print p v e u) e (if_created made s.easy)
        memory s (IsUnused-cleared p e u)
        (init_obj_cmd-Untouched ask print taken (enter p' e memory))
  Step-IsLinked exact (obeyed p e d world args here u sane) v =
      let r = curl_obj_cmd tcl ask results infos print world args (enter p e d) in
      let own = if ends args then none else some r.1.easy in
      Outcome-IsLinked p v e d here own r.1 (cleanup_cuts exact world p e d args) world.new r.0.1 u
        (curl_obj_cmd-Outcome tcl exact ask results infos print injective world (enter p e d)
          (enter-Linked p v e d here) (enter-IsFresh p v e d here u) args)
  Step-IsLinked exact (called_back p e d events here) v =
      let s = (run_events tcl ask results events (enter p e d)).1 in
      Moved-IsLinked p v e d here (some s.easy) s (λ z. cc)
        (Untouched-Moved (run_events-Untouched tcl ask results events (enter p e d)))
  Step-IsLinked exact (added p e d node name m after code here there run) v =
      Moved-IsLinked p v e d here (some after.host.easy) after.host (λ z. cc)
        (rw (← there)
          (Untouched-Moved (add_multi_handle-Untouched tcl ask libcurl m after code node name run)))
  Step-IsLinked exact (removed p e d m after code here there run) v =
      Moved-IsLinked p v e d here (some after.host.easy) after.host (λ z. cc)
        (rw (← there)
          (Untouched-Moved (remove_multi_handle-Untouched tcl ask libcurl m after code run)))
  Step-IsLinked exact (deleted p e d here) v =
      Moved-IsLinked p v e d here none (delete_cmd ask (enter p e d)).1
        (λ z. delete_cmd-alone ask (enter p e d)) (delete_cmd-Moved ask (enter p e d))
  Step-IsLinked exact (share_created p t taken n fresh gives) v =
      create_share-IsLinked p t taken n fresh gives v
  Step-IsLinked exact (share_obeyed p t args live) v =
      elim (share_obj_cmd-Ends tcl (λ e. curl_of (p.easy e)) t (shared p) v.users v.rep live args) [
        | inl same ↦ same-IsLinked p v t live same
        | inr gone ↦ Without-IsLinked p v t gone
      ]
  Step-IsLinked exact (share_deleted p t live) v =
      Without-IsLinked p v t
        (clean_up_share_cmd-Without (λ e. curl_of (p.easy e)) t (shared p) v.users v.rep live)

  -- In every state that a program reaches from none of its handles by creating, using, duplicating,
  -- resetting and deleting easy handles and share handles in any order, by addhandle and removehandle of
  -- multi handles and by callbacks, where no command of an easy handle faults (takes the client data of a
  -- command that is no share handle, or reads behind an array), the search for words is exact, snprintf
  -- prints different numbers differently, Tcl_Alloc returns unused addresses and Tcl gives the command of a new share
  -- handle a token that no live one has: the links represent lists of users, every user is an easy handle
  -- that exists, every share handle that an easy handle uses is live, and so is every one with a name.
  pub Reach-IsLinked :
      (exact : IsTcl tcl) {limit : ℕ} {p : Program}
      → Reach tcl ask results infos libcurl print limit p
      → IsLinked p
  Reach-IsLinked exact {limit} started = nothing-IsLinked limit
  Reach-IsLinked exact (continued before step) =
      Step-IsLinked exact step (Reach-IsLinked exact before)
