-- ===== src/Commands.antt =====
-- How a new handle gets the name of its command: curlCreateObjCmd and curlCreateShareObjCmd of
-- generic/tclcurl.c and curlCreateMultiObjCmd of generic/multi.c. The interpreter's commands are
-- the list `taken` of their names; `print` is snprintf with the format of the handle's kind.
pub mod Free
use Prim.Native.String.{count}
use tclcurl_ng.Base.{
  Bool, ltb, ℕ, zero, suc, String, List, ◌∷◌, Option, none, some, if◌then◌else◌, length,
}
use tclcurl_ng.Options.Table.Names.{member}

-- The `for` loop, from `i`; `none` means that the fuel ran out.
unfoldable pub free_loop : (print : ℕ → String) → List String → ℕ → ℕ → Option ℕ
free_loop print taken zero i = none
free_loop print taken (suc k) i =
    let rest = free_loop print taken k (suc i) in if member (print i) taken then rest else some i

-- The new name, and the commands with it.
abbrev pub created : (ℕ → String) → List String → Option ℕ → Option (String × List String)
created print taken none = none
created print taken (some i) = some (print i, print i ∷ taken)

unfoldable pub create_command :
    (start : ℕ) → (print : ℕ → String) → List String → Option (String × List String)
create_command start print taken =
    created print taken (free_loop print taken (suc (length taken)) start)

-- curlCreateObjCmd, with the format curl%d
unfoldable pub create_obj_cmd : (print : ℕ → String) → List String → Option (String × List String)
create_obj_cmd = create_command 0

-- curlCreateShareObjCmd, with the format scurl%d
unfoldable pub create_share_obj_cmd :
    (print : ℕ → String) → List String → Option (String × List String)
create_share_obj_cmd = create_command 1

-- The buffer of curlCreateMultiObjCmd has 10 bytes, of which the last is for NUL.
abbrev pub fits : String → Bool
fits name = ltb (count name) 10

-- Its `for` loop: sprintf writes each name that is tried to the buffer. `none` also stands for a name
-- that does not fit; the code overflows the buffer there.
unfoldable pub multi_loop : (print : ℕ → String) → List String → ℕ → ℕ → Option ℕ
multi_loop print taken zero i = none
multi_loop print taken (suc k) i =
    let rest = multi_loop print taken k (suc i) in
    if fits (print i) then (if member (print i) taken then rest else some i) else none

-- curlCreateMultiObjCmd, with the format mcurl%d
unfoldable pub create_multi_obj_cmd :
    (print : ℕ → String) → List String → Option (String × List String)
create_multi_obj_cmd print taken =
    created print taken (multi_loop print taken (suc (length taken)) 1)
