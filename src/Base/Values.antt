-- ===== src/Base/Values.antt =====
-- Sums over the values of a dictionary when some are removed, and predicates of all its values.
use Prim.Native.Nat.{ℕ, ◌+◌, ◌≤◌}
use Prim.Native.String.{String}
use mathlib.Core.Path.{◌≡◌, subst}
use mathlib.Core.Logic.{inl, inr}
use mathlib.Core.Option.{some}
use mathlib.Core.List.{[], ◌∷◌}
use native.Mathlib.Omega.{arith}
use paygate_mcp.Base.Tests.{Bool-cases}
use paygate_mcp.Base.Lists.{All}
use paygate_mcp.Base.Text.{str_eq}
use paygate_mcp.Base.Dict.{Dict, get, set, delete, sum_by}

module _ {ℓ} {V : Type ℓ} where
  pub sum_by-delete-le : (f : V → ℕ) (k : String) (m : Dict V) → sum_by f (delete k m) ≤ sum_by f m
  unfolding sum_by delete
  sum_by-delete-le f k [] = omega arith
  sum_by-delete-le f k ((j, w) ∷ m) = ground (arith, sum_by-delete-le f k m)

  pub sum_by-delete_found :
      (f : V → ℕ) (k : String) (v : V) (m : Dict V)
      → get k m ≡ some v
      → sum_by f (delete k m) + f v ≤ sum_by f m
  unfolding sum_by delete get
  sum_by-delete_found f k v [] e = cc
  sum_by-delete_found f k v ((j, w) ∷ m) e =
      ground (arith, sum_by-delete_found f k v m, sum_by-delete-le f k m)

  -- What holds of every value holds of a value that is found, and stays when values go or are put.
  pub All-get :
      (P : V → Type 0) (k : String) (v : V) (m : Dict V)
      → All (λ (p : String × V). P p.1) m
      → get k m ≡ some v
      → P v
  unfolding get
  All-get P k v [] h e = cc
  All-get P k v ((j, w) ∷ m) h e = elim (Bool-cases (str_eq j k)) [
    | inl same ↦ subst P (ground arith) h.0
    | inr other ↦ All-get P k v m h.1 (ground arith)
  ]

  pub All-delete :
      (P : V → Type 0) (k : String) (m : Dict V)
      → All (λ (p : String × V). P p.1) m
      → All (λ (p : String × V). P p.1) (delete k m)
  unfolding delete
  All-delete P k [] h = tt
  All-delete P k ((j, w) ∷ m) h = elim (Bool-cases (str_eq j k)) [
    | inl same ↦ rw same (All-delete P k m h.1)
    | inr other ↦ rw other (h.0, All-delete P k m h.1)
  ]

  pub All-set :
      (P : V → Type 0) (k : String) (v : V) (m : Dict V)
      → P v
      → All (λ (p : String × V). P p.1) m
      → All (λ (p : String × V). P p.1) (set k v m)
  unfolding set
  All-set P k v [] p h = (p, tt)
  All-set P k v ((j, w) ∷ m) p h = elim (Bool-cases (str_eq j k)) [
    | inl same ↦ rw same (p, h.1)
    | inr other ↦ rw other (h.0, All-set P k v m p h.1)
  ]
