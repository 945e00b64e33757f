-- ===== src/Handle/Parts.antt =====
-- The parts of the commands of an easy handle that keep its files sound: calls without an effect on
-- files, duphandle, reset and the frees of getinfo.
use tclcurl_ng.Base.{
  ℕ, ◌≡◌, refl, String, List, ◌∷◌, ◌++◌, Bool, true, false, arith, inl, inr, ◌==◌, Bool-cases,
  Option-cases,
}
use tclcurl_ng.Api.{Answers, Call, slist_free_all, easy_duphandle, easy_cleanup, create_command}
use tclcurl_ng.Api.Easy.{CurlObjData}
use tclcurl_ng.Api.Monad.{State, literal, when, call, pure, ◌>>◌}
use tclcurl_ng.Commands.{create_obj_cmd}
use tclcurl_ng.Handle.{copy_curl_data, copy_links, name_duplicate, dup_handle, reset_handle}
use tclcurl_ng.Handle.Life.{reset_handle-Balanced, reset_handle-easy}
use tclcurl_ng.Handle.Quiet.{is_quiet, quiet-Run, free_space-Run}
use tclcurl_ng.Info.{InfoKind, string, long, double, wide, auth, slist, certs}
use tclcurl_ng.Info.Answer.{frees}
use tclcurl_ng.Options.Sound.{IsSound}
use tclcurl_ng.Share.{link}
use tclcurl_ng.Transfer.Balance.{held}
use tclcurl_ng.Transfer.Running.{performed}

-- The links and the result do not matter.
pub elsewhere :
    {fp : ℕ} {ask : Answers} {s : State} (s' : State)
    → s'.easy ≡ s.easy
    → s'.calls ≡ s.calls
    → IsSound fp ask s
    → IsSound fp ask s'
elsewhere {ask} {s} s' e c v = record {
  not_null = v.not_null;
  balanced = rw (e, c) v.balanced;
  out_named = rw e v.out_named;
  in_named = rw e v.in_named;
  header_named = rw e v.header_named;
  stderr_named = rw e v.stderr_named;
}

pub quiet-IsSound :
    {fp : ℕ} (ask : Answers) (c : Call) (s : State)
    → is_quiet c ≡ true
    → IsSound fp ask s
    → IsSound fp ask (record s { calls = c ∷ s.calls })
quiet-IsSound ask c s q v =
    (quiet-Run ask (performed s.calls) c s q (record { files = v; started = refl })).files

pub when-IsSound :
    {fp : ℕ} (ask : Answers) (c : Call) (s : State) (b : Bool)
    → is_quiet c ≡ true
    → IsSound fp ask s
    → IsSound fp ask (when b (do call ask c; pure tt) s).1
when-IsSound ask c s true q v = quiet-IsSound ask c s q v
when-IsSound ask c s false q v = v

module _ {fp : ℕ} (ask : Answers) (print : ℕ → String) (taken : List String) where
  name_duplicate-IsSound :
      (copy : CurlObjData) (s : State)
      → IsSound fp ask s
      → IsSound fp ask (name_duplicate ask print copy taken s).1
  unfolding name_duplicate
  name_duplicate-IsSound copy s v = elim (Option-cases (create_obj_cmd print taken)) [
    | inl e ↦ rw e v
    | inr ((name, names), e) ↦ rw e (
        elsewhere (record s { calls = create_command name ∷ s.calls; result = literal name }) refl
          refl (quiet-IsSound ask (create_command name) s refl v))
  ]

  pub dup_handle-IsSound :
      (new : ℕ) (s : State) → IsSound fp ask s → IsSound fp ask (dup_handle ask print new taken s).1
  unfolding dup_handle
  dup_handle-IsSound new s v =
      let calls = easy_duphandle s.easy.curl ∷ s.calls in
      let asked = record s { calls = calls } in
      let v1 = quiet-IsSound ask (easy_duphandle s.easy.curl) s refl v in
      let t = s.shares.share_token s.self in
      let copy = record (copy_curl_data s.easy) { curl = ask calls } in
      let shares = copy_links s.self new s.shares in
      elim (Bool-cases (ask calls == 0)) [
        | inl refused ↦ rw refused (elsewhere _ refl refl v1)
        | inr given ↦ elim (Bool-cases (t == 0)) [
          | inl alone ↦
              rw (given, alone)
                (name_duplicate-IsSound copy (record asked { shares = shares })
                  (elsewhere _ refl refl v1))
          | inr shared ↦ elim (Bool-cases (s.shares.alive t)) [
            | inl live ↦
                rw (given, shared, live)
                  (name_duplicate-IsSound copy (record asked { shares = link new t shares })
                    (elsewhere _ refl refl v1))
            | inr dead ↦
                let left = record asked {
                  shares = shares;
                  calls = easy_cleanup (ask calls) ∷ calls;
                } in
                let v2 =
                  elsewhere left refl refl
                    (quiet-IsSound ask (easy_cleanup (ask calls)) asked refl v1) in
                let v3 =
                  free_space-Run ask (performed left.calls) copy left
                    (record { files = v2; started = refl }) in
                rw (given, shared, dead) (elsewhere _ refl refl v3.files)
          ]
        ]
      ]

module _ {fp : ℕ} (ask : Answers) (s : State) (v : IsSound fp ask s) where
  pub reset_handle-IsSound : held fp s.easy ≡ 0 → IsSound fp ask (reset_handle ask s).1
  reset_handle-IsSound none_held =
      let e = reset_handle-easy ask s in
      record {
        not_null = v.not_null;
        balanced = (reset_handle-Balanced ask s v).0.1 none_held;
        out_named = rw e ground arith;
        in_named = rw e ground arith;
        header_named = rw e ground arith;
        stderr_named = rw e ground arith;
      }

  pub frees-IsSound :
      (kind : InfoKind) (list : List String)
      → IsSound fp ask (record s { calls = frees kind list ++ s.calls })
  frees-IsSound string list = v
  frees-IsSound long list = v
  frees-IsSound double list = v
  frees-IsSound wide list = v
  frees-IsSound auth list = v
  frees-IsSound slist list = quiet-IsSound ask (slist_free_all list) s refl v
  frees-IsSound certs list = v
