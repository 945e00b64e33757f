-- ===== src/TclSize.antt =====
-- The conversions of generic/tcl_size.c between size_t and Tcl_Size; `none` is the result 0.
-- `size_max` is TCL_SIZE_MAX.
use tclcurl_ng.Base.{
  ℕ, ℤ, pos, negsuc, Option, none, some, ltb, if◌then◌else◌, ◌≤◌, ◌≡◌, arith, ◌↔◌,
}

-- TclCurl_SizeT2TclSize
unfoldable pub size_t_to_tcl_size : (size_max : ℕ) → ℕ → Option ℤ
size_t_to_tcl_size size_max n = if ltb size_max n then none else some (pos n)

-- TclCurl_TclSize2SizeT
unfoldable pub tcl_size_to_size_t : ℤ → Option ℕ
tcl_size_to_size_t (pos n) = some n
tcl_size_to_size_t (negsuc n) = none

-- The two conversions are inverse to each other exactly on the sizes up to TCL_SIZE_MAX: a size n
-- becomes the Tcl_Size z if and only if z becomes n and n is at most TCL_SIZE_MAX.
pub size_round_trip :
    (size_max n : ℕ) (z : ℤ)
    → (size_t_to_tcl_size size_max n ≡ some z) ↔ ((tcl_size_to_size_t z ≡ some n) × (n ≤ size_max))
unfolding size_t_to_tcl_size tcl_size_to_size_t
size_round_trip size_max n (pos m) = ground arith
size_round_trip size_max n (negsuc m) = ground arith
