-- ===== src/Base/Text.antt =====
-- Equality of texts, `includes` on lists of texts, and the append of template strings.
use Prim.Native.Nat.{ℕ, zero, suc}
use Prim.Native.String.{String}
use text.Mathlib.Text.{◌==◌}
use text.Mathlib.TextEquality.{eq_iff}
use text.Mathlib.TextPositions.{eq_refl}
use mathlib.Core.Path.{◌≡◌}
use mathlib.Core.Logic.{◌≢◌}
use mathlib.Core.Bool.{Bool, true, false, ◌||◌}
use mathlib.Core.List.{List, [], ◌∷◌}
use mathlib.Core.Option.{Option, none, some}
use native.Mathlib.Omega.{arith}

abbrev pub str_eq : String → String → Bool
str_eq j k = j == k

pub str_eq_refl : (k : String) → str_eq k k ≡ true
str_eq_refl k = eq_refl k

pub str_eq_sound : (j k : String) → str_eq j k ≡ true → j ≡ k
str_eq_sound j k h = (eq_iff j k).0 h

pub str_eq_ne : (j k : String) → j ≢ k → str_eq j k ≡ false
str_eq_ne j k h = ground (arith, eq_iff j k)

pub str_eq_comm : (j k : String) → str_eq j k ≡ str_eq k j
str_eq_comm j k = ground (arith, eq_iff j k, eq_iff k j)

-- `xs.includes(k)`
unfoldable pub includes : String → List String → Bool
includes k [] = false
includes k (x ∷ xs) = str_eq x k || includes k xs

-- `s.slice(0, n)`, in characters
unfoldable pub take_chars : ℕ → String → String
take_chars zero s = String.[]
take_chars (suc n) String.[] = String.[]
take_chars (suc n) (String.◌∷◌ c s) = String.◌∷◌ c (take_chars n s)

-- The length of a text, in characters.
unfoldable pub text_length : String → ℕ
text_length String.[] = 0
text_length (String.◌∷◌ c s) = suc (text_length s)

-- A text that is given and not empty, for JavaScript's test of a text as a condition.
unfoldable pub given : Option String → Option String
given none = none
given (some String.[]) = none
given (some (String.◌∷◌ c s)) = some (String.◌∷◌ c s)

-- `${apiKey}:tool:${toolName}`
unfoldable pub tool_key : String → String → String
tool_key key tool = Prim.Native.String.◌++◌ key (Prim.Native.String.◌++◌ ":tool:" tool)
