-- ===== src/Options/Slists/Branches.antt =====
-- The ways in which an option with a `struct curl_slist *` ends.
use tclcurl_ng.Base.{
  ◌≡◌, refl, ◌∙◌, Option-cases, String, List, [], ◌∷◌, Option, none, some, arith, Bool-cases, inl,
  inr, ◌==◌,
}
use tclcurl_ng.Api.{Tcl, Answers, slist_free_all, easy_setopt, slist}
use tclcurl_ng.Api.Easy.{CurlObjData}
use tclcurl_ng.Api.Monad.{State, Status, ok, error}
use tclcurl_ng.Options.{OptionDef, error_set_opt}
use tclcurl_ng.Options.Slists.{Field, fill, setopts_list, pass_list, after_list, list_option}

-- The field is a place of its own.
pub record IsField (f : Field) : Type 0 where
  pub read_write : (l : List String) (d : CurlObjData) → f.read (f.write l d) ≡ l
  pub curl_write : (l : List String) (d : CurlObjData) → (f.write l d).curl ≡ d.curl

-- The three ends: the value is no list, libcurl takes the list, or libcurl refuses it.
pub data ListEnd (tcl : Tcl) (ask : Answers) (f : Field) (opt o : String) (before : State)
    : Status → State → Type 0 where
  no_list :
      {after : State}
      → tcl.list_elements o ≡ none
      → f.read after.easy ≡ []
      → after.calls ≡ slist_free_all (f.read before.easy) ∷ before.calls
      → ListEnd tcl ask f opt o before error after
  taken :
      {after : State} (xs : List String)
      → tcl.list_elements o ≡ some xs
      → f.read after.easy ≡ xs
      → after.calls
        ≡ easy_setopt before.easy.curl opt (slist xs)
          ∷ slist_free_all (f.read before.easy)
          ∷ before.calls
      → ask after.calls ≡ 0
      → ListEnd tcl ask f opt o before ok after
  refused :
      {after : State} (xs : List String)
      → tcl.list_elements o ≡ some xs
      → f.read after.easy ≡ []
      → after.calls
        ≡ slist_free_all xs
          ∷ easy_setopt before.easy.curl opt (slist xs)
          ∷ slist_free_all (f.read before.easy)
          ∷ before.calls
      → ListEnd tcl ask f opt o before error after

module _ (tcl : Tcl) (ask : Answers) (f : Field) (v : IsField f) where
  pass_list-ListEnd :
      (opt : String) (message : Option String) (def : OptionDef) (o : String) (s s' : State)
      (xs : List String)
      → tcl.list_elements o ≡ some xs
      → f.read s'.easy ≡ xs
      → s'.easy.curl ≡ s.easy.curl
      → s'.calls ≡ slist_free_all (f.read s.easy) ∷ s.calls
      → ListEnd tcl ask f opt o s
          (pass_list tcl ask f opt def message s').0
          (pass_list tcl ask f opt def message s').1
  unfolding pass_list error_set_opt
  pass_list-ListEnd opt none def o s s' xs list field curl calls =
      elim (Bool-cases
        (ask (easy_setopt s'.easy.curl opt (slist (f.read s'.easy)) ∷ s'.calls) == 0)) [
          | inl fine ↦ rw fine (taken xs list field (rw (field, curl, calls) refl) (ground arith))
          | inr bad ↦
              rw bad (refused xs list (v.read_write [] s'.easy) (rw (field, curl, calls) refl))
        ]
  pass_list-ListEnd opt (some m) def o s s' xs list field curl calls =
      elim (Bool-cases
        (ask (easy_setopt s'.easy.curl opt (slist (f.read s'.easy)) ∷ s'.calls) == 0)) [
          | inl fine ↦ rw fine (taken xs list field (rw (field, curl, calls) refl) (ground arith))
          | inr bad ↦
              rw bad (refused xs list (v.read_write [] s'.easy) (rw (field, curl, calls) refl))
        ]

  -- A list option frees the old list first and ends in one of three ways: the value is no list, and
  -- the field is empty with no word to libcurl; libcurl takes the new list, which the field holds;
  -- or libcurl refuses it, it is freed and the field is empty. The status is ok in the second only.
  pub list_option-ListEnd :
      (opt invalid : String) (message : Option String) (def : OptionDef) (o : String) (s : State)
      → ListEnd tcl ask f opt o s
          (list_option tcl ask f opt invalid message def o s).0
          (list_option tcl ask f opt invalid message def o s).1
  unfolding list_option setopts_list fill after_list error_set_opt pass_list
  list_option-ListEnd opt invalid message def o s =
      let freed = slist_free_all (f.read s.easy) ∷ s.calls in
      let easy = f.write [] s.easy in
      elim (Option-cases (tcl.list_elements o)) [
        | inl e ↦ rw e (no_list e (v.read_write [] s.easy) refl)
        | inr (xs, e) ↦ rw e (
            pass_list-ListEnd opt message def o s
              (record s { easy = f.write xs easy; calls = freed }) xs e (v.read_write xs easy)
              (v.curl_write xs easy ∙ v.curl_write [] s.easy) refl)
      ]
