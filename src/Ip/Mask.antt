-- ===== src/Ip/Mask.antt =====
-- Masking by high bits is arithmetic: the bits below are cleared.
use Prim.Native.Nat.{digits, bit_and, bit_and-bitwise}
use native.Mathlib.Decide.{dec_le}
use native.Mathlib.Nat.{
  pow-suc, div-div-eq-div-mul, mod-lt, mod-eq_of_lt, div-add-mod, add-mul-mod_self_right,
}
use paygate_mcp.Base.{
  ℕ, zero, suc, ◌+◌, ◌-◌, ◌*◌, ◌/◌, ◌%◌, ◌^◌, ◌≤◌, ◌<◌, ◌≡◌, refl, sym, ap, subst, ◌∙◌, arith, min,
}

-- The recursion that `bit_and` stands for, on `rounds` binary digits.
abbrev conj : ℕ → ℕ → ℕ → ℕ
conj rounds a b = digits (λ _. zero) min rounds a b

conj_more : (rounds a b : ℕ) → a ≤ rounds → conj (suc rounds) a b ≡ conj rounds a b
conj_more zero zero b h = refl
conj_more zero (suc a) b h = absurd (omega arith)
conj_more (suc rounds) zero b h = refl
conj_more (suc rounds) (suc a) b h =
    omega (arith, conj_more rounds (suc a / 2) (b / 2) (omega arith))

conj_enough : (rounds a b : ℕ) → a ≤ rounds → conj rounds a b ≡ bit_and a b
conj_enough zero zero b h = sym (bit_and-bitwise 0 b)
conj_enough zero (suc a) b h = absurd (omega arith)
conj_enough (suc rounds) a b h = elim (dec_le a rounds) [
  | yes le ↦ conj_more rounds a b le ∙ conj_enough rounds a b le
  | no gt ↦
      let e : a ≡ suc rounds = omega arith in
      subst (λ (r : ℕ). conj r a b ≡ bit_and a b) e (sym (bit_and-bitwise a b))
]

-- One digit at a time.
bit_and_digit : (a b : ℕ) → bit_and a b ≡ bit_and (a / 2) (b / 2) * 2 + min (a % 2) (b % 2)
bit_and_digit zero b = omega (arith, bit_and-bitwise 0 b, bit_and-bitwise 0 (b / 2))
bit_and_digit (suc a) b =
    omega (arith, bit_and-bitwise (suc a) b, conj_enough a (suc a / 2) (b / 2) (omega arith))

pub pow_pos : (k : ℕ) → 0 < 2 ^ k
pow_pos zero = omega arith
pow_pos (suc k) = omega (arith, pow-suc 2 k, pow_pos k)

bit_and_none : (rounds a : ℕ) → a ≤ rounds → bit_and a 0 ≡ 0
bit_and_none zero a h =
    omega (arith, bit_and_digit a 0, ap (λ (b : ℕ). bit_and b 0) zeroed, bit_and-bitwise 0 0)
  where
    zeroed : a / 2 ≡ 0
    zeroed = omega arith
bit_and_none (suc rounds) a h = omega (arith, bit_and_digit a 0, bit_and_none rounds (a / 2))

-- A shifted operand on the right loses as many low bits on the left.
bit_and_double : (a m : ℕ) → bit_and a (m * 2) ≡ bit_and (a / 2) m * 2
bit_and_double a m =
    let half : m * 2 / 2 ≡ m = omega arith in bit_and_digit a (m * 2) ∙ rw half (omega arith)

-- A remainder by twice `p` is a remainder by `p` and the lowest digit.
mod_double : (a p : ℕ) → 0 < p → a / 2 % p * 2 + a % 2 ≡ a % (p * 2)
mod_double a p h =
    let s : ℕ = a / 2 % p * 2 + a % 2 in
    let small : s < p * 2 = omega (arith, mod-lt (a / 2) h) in
    let whole : a ≡ s + a / 2 / p * (p * 2) = omega (arith, div-add-mod (a / 2) p) in
    sym (
      ap (λ (b : ℕ). b % (p * 2)) whole
      ∙ add-mul-mod_self_right s (a / 2 / p) (p * 2)
      ∙ mod-eq_of_lt small)

-- The low `j` bits.
bit_and_low : (j a : ℕ) → bit_and a (2 ^ j - 1) ≡ a % 2 ^ j
bit_and_low zero a = bit_and_none a a (omega arith) ∙ omega arith
bit_and_low (suc j) a =
    let half : (2 ^ suc j - 1) / 2 ≡ 2 ^ j - 1 = omega (arith, pow-suc 2 j, pow_pos j) in
    bit_and_digit a (2 ^ suc j - 1)
    ∙ rw (half, bit_and_low j (a / 2))
        (omega (
          arith,
          pow-suc 2 j,
          pow_pos j,
          ap (λ (p : ℕ). a % p) (pow-suc 2 j),
          mod_double a (2 ^ j) (pow_pos j),
        ))

-- `j` bits above `k` bits.
pub bit_and_high : (j k a : ℕ) → bit_and a ((2 ^ j - 1) * 2 ^ k) ≡ (a / 2 ^ k) % 2 ^ j * 2 ^ k
bit_and_high j zero a =
    let unit : (2 ^ j - 1) * 1 ≡ 2 ^ j - 1 = omega arith in
    let same : a / 1 ≡ a = omega arith in rw (unit, same, bit_and_low j a) (omega arith)
bit_and_high j (suc k) a =
    let twice : (2 ^ j - 1) * 2 ^ suc k ≡ (2 ^ j - 1) * 2 ^ k * 2 = rw pow-suc (omega arith) in
    let halved : a / 2 ^ suc k ≡ a / 2 / 2 ^ k =
      sym (div-div-eq-div-mul a 2 (2 ^ k) ∙ ap (λ (p : ℕ). a / p) (omega (arith, pow-suc 2 k))) in
    rw (twice, bit_and_double a ((2 ^ j - 1) * 2 ^ k), bit_and_high j k (a / 2), halved)
      (rw pow-suc (omega arith))
