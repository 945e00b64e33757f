-- ===== src/Options/Sharing/Users.antt =====
-- The -share option keeps the lists of users true.
use tclcurl_ng.Base.{
  ℕ, zero, suc, ◌<◌, ◌≡◌, ◌≢◌, refl, ap, String, ◌∷◌, true, arith, Bool-cases, inl, inr, ◌==◌, ◌⊎◌,
  sym, ◌∙◌, ==_iff,
}
use tclcurl_ng.Api.{Answers, easy_setopt, get_command_info, pointer}
use tclcurl_ng.Api.Monad.{State, ok, error, fault}
use tclcurl_ng.Share.{
  Store, Link, detach, unlink_loop, or_same, read, write, clear_links, head, next,
}
use tclcurl_ng.Share.Chain.{has}
use tclcurl_ng.Share.Rep.{Users, Rep, leave, join}
use tclcurl_ng.Share.Sound.{detach-Rep, link-Rep}
use tclcurl_ng.Options.{OptionDef, error_set_opt}
use tclcurl_ng.Options.Sharing.{detach_share_handle, attach, handle_setopt_shandle}

-- A store with the same share handles and room for the same easy handles.
abbrev pub Alike : Store → Store → Type 0
Alike s s' = (s'.alive ≡ s.alive) × (s'.limit ≡ s.limit)

write-Alike : (l : Link) (v : ℕ) (s : Store) → Alike s (write l v s)
unfolding write
write-Alike (head t) v s = (refl, refl)
write-Alike (next e) v s = (refl, refl)

or_same-Alike : (k : ℕ) (l : Link) (e : ℕ) (s : Store) → Alike s (or_same (unlink_loop k l e s) s)
unfolding unlink_loop
or_same-Alike zero l e s = (refl, refl)
or_same-Alike (suc k) l e s =
    let later = or_same-Alike k (next (read l s)) e s in
    let written = write-Alike l (s.next_shared e) s in
    elim (Bool-cases (read l s == 0)) [
      | inl last ↦ rw last (refl, refl)
      | inr more ↦ elim (Bool-cases (read l s == e)) [
        | inl found ↦ rw (more, found) written
        | inr other ↦ rw (more, other) later
      ]
    ]

write-tokens : (l : Link) (v : ℕ) (s : Store) → (write l v s).share_token ≡ s.share_token
unfolding write
write-tokens (head t) v s = refl
write-tokens (next e) v s = refl

or_same-tokens :
    (k : ℕ) (l : Link) (e : ℕ) (s : Store)
    → (or_same (unlink_loop k l e s) s).share_token ≡ s.share_token
unfolding unlink_loop
or_same-tokens zero l e s = refl
or_same-tokens (suc k) l e s =
    let later = or_same-tokens k (next (read l s)) e s in
    let written = write-tokens l (s.next_shared e) s in
    elim (Bool-cases (read l s == 0)) [
      | inl last ↦ rw last refl
      | inr more ↦ elim (Bool-cases (read l s == e)) [
        | inl found ↦ rw (more, found) written
        | inr other ↦ rw (more, other) later
      ]
    ]

-- Only the handle itself loses its share handle.
pub detach-others : (e j : ℕ) (s : Store) → j ≢ e → (detach e s).share_token j ≡ s.share_token j
unfolding detach clear_links
detach-others e j s n =
    let same =
      ap (λ (f : ℕ → ℕ). f j) (or_same-tokens (suc s.limit) (head (s.share_token e)) e s) in
    ground (arith, same)

pub detach-Alike : (e : ℕ) (s : Store) → Alike s (detach e s) × ((detach e s).share_token e ≡ 0)
unfolding detach clear_links
detach-Alike e s = ground (arith, or_same-Alike (suc s.limit) (head (s.share_token e)) e s)

pub detach_share_handle_lem :
    (ask : Answers) (s : State) → (detach_share_handle ask s).1.shares ≡ detach s.self s.shares
unfolding detach_share_handle
detach_share_handle_lem ask s = ground arith

module _ (ask : Answers) where
  attach-Rep :
      (t : ℕ) (s : State) (l : Users)
      → Rep s.shares l
      → 0 < s.self
      → s.self < s.shares.limit
      → t ≢ 0
      → s.shares.alive t ≡ true
      → (l' : Users) × Rep (attach ask t s).1.shares l'
        × (has s.self (l' t) ≡ true)
        × ((attach ask t s).0 ≡ ok)
  unfolding attach
  attach-Rep t s l r positive below nonnull live =
      let ((alive, limit), free) = detach-Alike s.self s.shares in
      elim (Bool-cases (s.shares.share_token s.self == t)) [
        | inl same ↦
            let e = (==_iff (s.shares.share_token s.self) t).0 same in
            rw same (l, r, rw (sym e) (r.has_of_token s.self (λ z. nonnull (sym e ∙ z))), refl)
        | inr other ↦
            rw (other, detach_share_handle_lem ask s)
              (
                join s.self t (leave s.self l),
                link-Rep s.self t (detach-Rep s.self r) (rw alive live) nonnull free positive
                    (rw limit below),
                ground (arith, (==_iff t t).1 refl, (==_iff s.self s.self).1 refl),
                refl,
              )
      ]

  logged : OptionDef → String → State → State
  logged def o s = record s {
    calls =
        easy_setopt s.easy.curl def.curl_opt (pointer (s.shares.shandle (s.commands o))) ∷ s.calls;
  }

  -- -share, where the links represent lists of users, the handle has an address of the store and a
  -- name belongs to no share handle or to a live one. Either it succeeds, the links represent lists
  -- again and the handle is among the users of that share handle; or it is an error and no link has
  -- changed; or the name is that of a command that is no share handle, and the code reads outside a
  -- struct.
  pub handle_setopt_shandle-Rep :
      (def : OptionDef) (o : String) (s : State) (l : Users)
      → Rep s.shares l
      → 0 < s.self
      → s.self < s.shares.limit
      → (s.commands o ≢ 0 → s.shares.alive (s.commands o) ≡ true)
      → ((l' : Users) × Rep (handle_setopt_shandle ask def o s).1.shares l'
          × (has s.self (l' (s.commands o)) ≡ true)
          × ((handle_setopt_shandle ask def o s).0 ≡ ok))
        ⊎ (((handle_setopt_shandle ask def o s).1.shares ≡ s.shares)
            × ((handle_setopt_shandle ask def o s).0 ≡ error))
        ⊎ ((s.commands o ≡ 0)
            × (ask (get_command_info o ∷ s.calls) ≢ 0)
            × ((handle_setopt_shandle ask def o s).0 ≡ fault))
  unfolding handle_setopt_shandle error_set_opt logged
  handle_setopt_shandle-Rep def o s l r positive below live =
      elim (Bool-cases (s.commands o == 0)) [
        | inl unknown ↦ elim (Bool-cases (ask (get_command_info o ∷ s.calls) == 0)) [
          | inl nobody ↦ rw (unknown, nobody) (inr (inl (refl, refl)))
          | inr other ↦
              let none_there : s.commands o ≡ 0 = (==_iff (s.commands o) 0).0 unknown in
              let someone : ask (get_command_info o ∷ s.calls) ≢ 0 = ground arith in
              rw (unknown, other) (inr (inr (none_there, someone, refl)))
        ]
        | inr known ↦ elim (Bool-cases (ask (logged def o s).calls == 0)) [
          | inl fine ↦
              let n : s.commands o ≢ 0 = ground arith in
              rw (known, fine)
                (inl (attach-Rep (s.commands o) (logged def o s) l r positive below n (live n)))
          | inr bad ↦ rw (known, bad) (inr (inl (refl, refl)))
        ]
      ]
