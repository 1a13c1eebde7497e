-- ===== src/Base/Decimal.antt =====
-- The decimal text of a natural number, as a template literal writes it, and the number read back.
use Prim.Native.Nat.{ℕ, zero, suc, ◌+◌, ◌*◌, ◌-◌, ◌/◌, ◌%◌, ◌<◌}
use Prim.Native.String.{String}
use Prim.Native.Char.{Char, code}
use mathlib.Core.Path.{◌≡◌, refl, ap, sym, ◌∙◌}
use mathlib.Core.Logic.{inl, inr}
use native.Mathlib.Omega.{arith}
use paygate_mcp.Base.Tests.{ltb, if◌then◌else◌, Bool-cases}

digit : ℕ → Char
digit zero = "0"
digit (suc zero) = "1"
digit (suc (suc zero)) = "2"
digit (suc (suc (suc zero))) = "3"
digit (suc (suc (suc (suc zero)))) = "4"
digit (suc (suc (suc (suc (suc zero))))) = "5"
digit (suc (suc (suc (suc (suc (suc zero)))))) = "6"
digit (suc (suc (suc (suc (suc (suc (suc zero))))))) = "7"
digit (suc (suc (suc (suc (suc (suc (suc (suc zero)))))))) = "8"
digit (suc (suc (suc (suc (suc (suc (suc (suc (suc n))))))))) = "9"

-- The digits of `n`, in front of `rest`.
digits_onto : ℕ → ℕ → String → String
digits_onto zero n rest = rest
digits_onto (suc f) n rest =
    let more = digits_onto f (n / 10) (String.◌∷◌ (digit (n % 10)) rest) in
    if ltb n 10 then String.◌∷◌ (digit n) rest else more

-- `${n}`. A number has no more digits than itself plus one.
unfoldable pub decimal : ℕ → String
unfolding digits_onto digit
decimal n = digits_onto (suc n) n String.[]

unfoldable pub read_from : ℕ → String → ℕ
read_from acc String.[] = acc
read_from acc (String.◌∷◌ c s) = read_from (acc * 10 + (code c - 48)) s

code-digit : (n : ℕ) → n < 10 → code (digit n) - 48 ≡ n
unfolding digit
code-digit zero h = refl
code-digit (suc zero) h = refl
code-digit (suc (suc zero)) h = refl
code-digit (suc (suc (suc zero))) h = refl
code-digit (suc (suc (suc (suc zero)))) h = refl
code-digit (suc (suc (suc (suc (suc zero))))) h = refl
code-digit (suc (suc (suc (suc (suc (suc zero)))))) h = refl
code-digit (suc (suc (suc (suc (suc (suc (suc zero))))))) h = refl
code-digit (suc (suc (suc (suc (suc (suc (suc (suc zero)))))))) h = refl
code-digit (suc (suc (suc (suc (suc (suc (suc (suc (suc n))))))))) h = omega arith

read_from-digits_onto :
    (f n : ℕ) (rest : String) → n < f → read_from 0 (digits_onto f n rest) ≡ read_from n rest
unfolding digits_onto read_from
read_from-digits_onto zero n rest h = absurd (omega arith)
read_from-digits_onto (suc f) n rest h = elim (Bool-cases (ltb n 10)) [
  | inl small ↦
      rw small (ap (λ (k : ℕ). read_from k rest) (first_digit (code-digit n (ground arith))))
  | inr big ↦ rw big (
      read_from-digits_onto f (n / 10) (String.◌∷◌ (digit (n % 10)) rest) (ground arith)
      ∙ ap (λ (k : ℕ). read_from k rest) (last_digit (code-digit (n % 10) (omega arith))))
]
  where
    first_digit : code (digit n) - 48 ≡ n → 0 * 10 + (code (digit n) - 48) ≡ n
    first_digit e = omega arith

    last_digit :
        code (digit (n % 10)) - 48 ≡ n % 10 → n / 10 * 10 + (code (digit (n % 10)) - 48) ≡ n
    last_digit e = omega arith

-- The text of a number names it alone.
pub read-decimal : (n : ℕ) → read_from 0 (decimal n) ≡ n
unfolding decimal read_from
read-decimal n = read_from-digits_onto (suc n) n String.[] (omega arith)

pub decimal_injective : (m n : ℕ) → decimal m ≡ decimal n → m ≡ n
decimal_injective m n e = sym (read-decimal m) ∙ ap (read_from 0) e ∙ read-decimal n
