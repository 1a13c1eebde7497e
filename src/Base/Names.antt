-- ===== src/Base/Names.antt =====
-- Lists of texts that name things: membership after an append, and lists without repetition.
use text.Mathlib.TextEquality.{eq_iff}
use Prim.Native.String.{String}
use mathlib.Core.Path.{◌≡◌, refl}
use mathlib.Core.Bool.{false, ◌||◌}
use mathlib.Core.List.{List, [], ◌∷◌, ◌++◌}
use native.Mathlib.Omega.{arith}
use paygate_mcp.Base.Text.{str_eq, includes}

abbrev pub IsDistinct : List String → Type 0
IsDistinct [] = Unit {0}
IsDistinct (x ∷ xs) = (includes x xs ≡ false) × IsDistinct xs

pub includes-append :
    (k : String) (xs ys : List String) → includes k (xs ++ ys) ≡ (includes k xs || includes k ys)
unfolding includes
includes-append k [] ys = ground arith
includes-append k (x ∷ xs) ys = ground (arith, includes-append k xs ys)

pub includes-snoc :
    (k key : String) (xs : List String)
    → includes k (xs ++ key ∷ []) ≡ (includes k xs || str_eq key k)
unfolding includes
includes-snoc k key [] = ground arith
includes-snoc k key (x ∷ xs) = ground (arith, includes-snoc k key xs)

pub IsDistinct-snoc :
    (key : String) (xs : List String)
    → IsDistinct xs
    → includes key xs ≡ false
    → IsDistinct (xs ++ key ∷ [])
unfolding includes
IsDistinct-snoc key [] d h = (refl, tt)
IsDistinct-snoc key (x ∷ xs) d h = (
  ground (arith, includes-snoc x key xs, eq_iff x key, eq_iff key x),
  IsDistinct-snoc key xs d.1 (ground arith),
)
