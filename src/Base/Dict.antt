-- ===== src/Base/Dict.antt =====
-- A JavaScript `Map<string, V>` in insertion order: `set` on a key that is present keeps its place.
use Prim.Native.Nat.{ℕ, ◌+◌}
use Prim.Native.String.{String}
use mathlib.Core.Path.{◌≡◌, refl}
use mathlib.Core.Option.{Option, none, some}
use mathlib.Core.List.{List, [], ◌∷◌}
use native.Mathlib.Omega.{arith}
use text.Mathlib.TextEquality.{eq_iff}
use paygate_mcp.Base.Tests.{if◌then◌else◌}
use paygate_mcp.Base.Text.{str_eq, str_eq_refl}

abbrev pub Dict {ℓ} : Type ℓ → Type ℓ
Dict V = List (String × V)

module _ {ℓ} {V : Type ℓ} where
  unfoldable pub get : String → Dict V → Option V
  get k [] = none
  get k ((j, v) ∷ m) = if str_eq j k then some v else get k m

  unfoldable pub set : String → V → Dict V → Dict V
  set k v [] = (k, v) ∷ []
  set k v ((j, w) ∷ m) = if str_eq j k then (k, v) ∷ m else (j, w) ∷ set k v m

  unfoldable pub delete : String → Dict V → Dict V
  delete k [] = []
  delete k ((j, w) ∷ m) = if str_eq j k then delete k m else (j, w) ∷ delete k m

  pub get-set :
      (k j : String) (v : V) (m : Dict V)
      → get j (set k v m) ≡ (if str_eq k j then some v else get j m)
  unfolding get set
  get-set k j v [] = refl
  get-set k j v ((i, w) ∷ m) = ground (arith, eq_iff k j, eq_iff i k, eq_iff i j, get-set k j v m)

  pub get-delete :
      (k j : String) (m : Dict V) → get j (delete k m) ≡ (if str_eq k j then none else get j m)
  unfolding get delete
  get-delete k j [] = ground arith
  get-delete k j ((i, w) ∷ m) = ground (arith, eq_iff k j, eq_iff i k, eq_iff i j, get-delete k j m)

  -- No key is listed twice.
  abbrev pub IsMap : Dict V → Type ℓ
  IsMap [] = Unit
  IsMap ((k, v) ∷ m) = (get k m ≡ none) × IsMap m

  pub set-IsMap : (k : String) (v : V) (m : Dict V) → IsMap m → IsMap (set k v m)
  unfolding set
  set-IsMap k v [] h = (unfold get in refl, tt)
  set-IsMap k v ((i, w) ∷ m) h =
      ground (arith, eq_iff i k, eq_iff k i, get-set k i v m, set-IsMap k v m h.1)

  pub delete-IsMap : (k : String) (m : Dict V) → IsMap m → IsMap (delete k m)
  unfolding delete
  delete-IsMap k [] h = tt
  delete-IsMap k ((i, w) ∷ m) h =
      ground (arith, eq_iff i k, eq_iff k i, get-delete k i m, delete-IsMap k m h.1)

  pub get-set_self : (k : String) (v : V) (m : Dict V) → get k (set k v m) ≡ some v
  get-set_self k v m = ground (arith, get-set k k v m, str_eq_refl k)

  -- A sum over the values of a dictionary.
  unfoldable pub sum_by : (V → ℕ) → Dict V → ℕ
  sum_by f [] = 0
  sum_by f ((k, v) ∷ m) = f v + sum_by f m

  pub sum_by-set :
      (f : V → ℕ) (k : String) (v old : V) (m : Dict V)
      → get k m ≡ some old
      → sum_by f (set k v m) + f old ≡ sum_by f m + f v
  unfolding sum_by get set
  sum_by-set f k v old [] e = cc
  sum_by-set f k v old ((j, w) ∷ m) e = ground (arith, sum_by-set f k v old m)

  pub sum_by-set_new :
      (f : V → ℕ) (k : String) (v : V) (m : Dict V)
      → get k m ≡ none
      → sum_by f (set k v m) ≡ sum_by f m + f v
  unfolding sum_by get set
  sum_by-set_new f k v [] e = omega arith
  sum_by-set_new f k v ((j, w) ∷ m) e = ground (arith, sum_by-set_new f k v m)
