-- ===== src/Ip/Prefix.antt =====
-- CIDR matching of src/store.ts is equality of network prefixes.
use native.Mathlib.Nat.{pow-suc, mod-eq_of_lt, div-lt_iff_lt-mul, mul-lt-mul_of_pos_right}
use native.Mathlib.Decide.{ℕ_discrete}
use Prim.Native.Nat.{bit_and}
use paygate_mcp.Base.{
  ℕ, zero, suc, ◌+◌, ◌-◌, ◌*◌, ◌/◌, ◌^◌, ◌≤◌, ◌<◌, ◌≡◌, ◌↔◌, sym, ap, ◌∙◌, Bool, true, false, inl,
  inr, Option, none, some, List, [], ◌∷◌, arith, ◌==◌, Option-cases,
}
use paygate_mcp.Ip.{
  split, parse_int, in_range, word, join_parts, shift_in, four_parts, ip_to_number, mask_of,
  masked_eq, match_bits, match_split, match_cidr,
}
use paygate_mcp.Ip.Mask.{bit_and_high, pow_pos}

pow-add : (j k : ℕ) → 2 ^ (j + k) ≡ 2 ^ j * 2 ^ k
pow-add zero k = let same : zero + k ≡ k = omega arith in rw same (omega arith)
pow-add (suc j) k =
    let next : suc j + k ≡ suc (j + k) = omega arith in
    rw (next, pow-suc 2 (j + k), pow-suc 2 j)
      (omega (arith, pow-add j k, mul_regroup (2 ^ j) (2 ^ k)))
  where
    mul_regroup : (x y : ℕ) → x * y * 2 ≡ x * 2 * y
    mul_regroup x y = omega arith

mul-cancel : (p x y : ℕ) → 0 < p → x * p ≡ y * p → x ≡ y
mul-cancel p x y h e = elim (ℕ_discrete x y) [
  | yes same ↦ same
  | no differ ↦ absurd (grind (arith, mul-lt-mul_of_pos_right))
]

in_range-le : (top : ℕ) (n : Option (Bool × ℕ)) {m : ℕ} → in_range top n ≡ some m → m ≤ top
in_range-le top none e = cc
in_range-le top (some (negative, n)) e = ground arith

whole_word : (bits : ℕ) → bits ≤ 32 → 2 ^ bits * 2 ^ (32 - bits) ≡ word
whole_word bits h =
    let sum : bits + (32 - bits) ≡ 32 = omega arith in
    sym (pow-add bits (32 - bits)) ∙ ap (λ (n : ℕ). 2 ^ n) sum

-- An address is a 32-bit number.
join_parts-lt : (num : ℕ) (ps : List (List ℕ)) {a : ℕ} → join_parts num ps ≡ some a → a < word
unfolding join_parts
join_parts-lt num [] e = ground arith
join_parts-lt num (p ∷ ps) e = elim (Option-cases (shift_in (in_range 255 (parse_int p)) num)) [
  | inl bad ↦ cc (rw (bad, join_parts) at e)
  | inr (num', good) ↦ join_parts-lt num' ps (rw (good, join_parts) at e)
]

ip_to_number-lt : (ip : List ℕ) {a : ℕ} → ip_to_number ip ≡ some a → a < word
unfolding ip_to_number
ip_to_number-lt ip e = go (split b'.' ip) e
  where
    go : (ps : List (List ℕ)) {a : ℕ} → four_parts ps ≡ some a → a < word
    go [] e = cc
    go (x ∷ []) e = cc
    go (x ∷ y ∷ []) e = cc
    go (x ∷ y ∷ z ∷ []) e = cc
    go (x ∷ y ∷ z ∷ w ∷ []) e = join_parts-lt 0 (x ∷ y ∷ z ∷ w ∷ []) e
    go (x ∷ y ∷ z ∷ w ∷ v ∷ vs) e = cc

mask_of_high : (bits : ℕ) → bits ≤ 32 → mask_of bits ≡ (2 ^ bits - 1) * 2 ^ (32 - bits)
mask_of_high zero h = omega arith
mask_of_high (suc b) h =
    let test : (suc b == 0) ≡ false = ground arith in
    rw test (sub_from (2 ^ suc b) (2 ^ (32 - suc b)) (whole_word (suc b) h))
  where
    sub_from : (x y : ℕ) → x * y ≡ word → word - y ≡ (x - 1) * y
    sub_from zero y e = absurd (omega (arith, e))
    sub_from (suc x) y e =
        let less : suc x - 1 ≡ x = omega arith in
        let times : suc x * y ≡ x * y + y = omega arith in rw less (omega arith)

masked :
    (bits a : ℕ)
    → bits ≤ 32
    → a < word
    → bit_and a (mask_of bits) ≡ a / 2 ^ (32 - bits) * 2 ^ (32 - bits)
masked bits a h lt =
    let small : a / 2 ^ (32 - bits) < 2 ^ bits =
      (div-lt_iff_lt-mul (pow_pos (32 - bits))).1 (omega (arith, whole_word bits h)) in
    rw (mask_of_high bits h, bit_and_high bits (32 - bits) a, mod-eq_of_lt small)

prefix_eq_iff :
    (bits a b : ℕ)
    → bits ≤ 32
    → a < word
    → b < word
    → (masked_eq bits (some a) (some b) ≡ true) ↔ (a / 2 ^ (32 - bits) ≡ b / 2 ^ (32 - bits))
prefix_eq_iff bits a b h la lb =
    rw (masked bits a h la, masked bits b h lb)
      (scaled (2 ^ (32 - bits)) (a / 2 ^ (32 - bits)) (b / 2 ^ (32 - bits)) (pow_pos (32 - bits)))
  where
    scaled : (p x y : ℕ) → 0 < p → (((x * p) == (y * p)) ≡ true) ↔ (x ≡ y)
    scaled p x y pos = (λ e. mul-cancel p x y pos (ground arith), λ e. ground arith)

-- Take a CIDR text that splits at its first slash into a range and a prefix length of 0 to 32, and
-- two dotted addresses, the client's and the range's. The client matches exactly when the two
-- addresses agree in their first `bits` bits, that is when they are equal after division by
-- 2 ^ (32 - bits); so length 0 matches every address, and 32 only the range itself.
pub match_cidr_iff :
    (ip cidr range digits : List ℕ) (rest : List (List ℕ)) (bits a b : ℕ)
    → split b'/' cidr ≡ range ∷ digits ∷ rest
    → in_range 32 (parse_int digits) ≡ some bits
    → ip_to_number ip ≡ some a
    → ip_to_number range ≡ some b
    → (match_cidr ip cidr ≡ true) ↔ (a / 2 ^ (32 - bits) ≡ b / 2 ^ (32 - bits))
unfolding match_cidr
match_cidr_iff ip cidr range digits rest bits a b s d i r =
    rw (s, match_split, d, match_bits, i, r)
      (prefix_eq_iff bits a b (in_range-le 32 (parse_int digits) d) (ip_to_number-lt ip i)
        (ip_to_number-lt range r))
