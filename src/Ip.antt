-- ===== src/Ip.antt =====
-- The IP checks of src/store.ts (checkIpInList, matchCidr, ipToNumber) and the text functions of
-- JavaScript that they call: trim, split, includes and parseInt, over the code points of a text.
-- A 32-bit number is kept modulo 2 ^ 32: `<<` wraps, and the sign that it may give is dropped by
-- the final `>>> 0` and does not matter to `===` after `&`.
pub mod Mask
pub mod Prefix
pub mod Trim
use Prim.Native.Nat.{bit_and}
use Prim.Native.Char.{code}
use paygate_mcp.Base.{
  ℕ, ◌+◌, ◌-◌, ◌*◌, ◌%◌, ◌^◌, String, ◌≡◌, refl, Bool, true, false, ◌&&◌, ◌||◌, Option, none, some,
  List, [], ◌∷◌, ltb, leb, ◌==◌, if◌then◌else◌,
}

abbrev pub codes : String → List ℕ
codes String.[] = []
codes (String.◌∷◌ c s) = code c ∷ codes s

-- The white space that `trim` and `parseInt` skip.
unfoldable pub is_space : ℕ → Bool
is_space c =
    (leb 9 c && leb c 13)
    || c == 32
    || c == 160
    || c == 0x1680
    || (leb 0x2000 c && leb c 0x200a)
    || c == 0x2028
    || c == 0x2029
    || c == 0x202f
    || c == 0x205f
    || c == 0x3000
    || c == 0xfeff

unfoldable pub trim_start : List ℕ → List ℕ
trim_start [] = []
trim_start (c ∷ s) = if is_space c then trim_start s else c ∷ s

abbrev pub cons_trimmed : ℕ → List ℕ → List ℕ
cons_trimmed c [] = if is_space c then [] else c ∷ []
cons_trimmed c (d ∷ s) = c ∷ d ∷ s

unfoldable pub trim_end : List ℕ → List ℕ
trim_end [] = []
trim_end (c ∷ s) = cons_trimmed c (trim_end s)

abbrev pub trim : List ℕ → List ℕ
trim s = trim_end (trim_start s)

-- `s === t`
unfoldable pub codes_eq : List ℕ → List ℕ → Bool
codes_eq [] [] = true
codes_eq [] (d ∷ t) = false
codes_eq (c ∷ s) [] = false
codes_eq (c ∷ s) (d ∷ t) = c == d && codes_eq s t

unfoldable pub has_code : ℕ → List ℕ → Bool
has_code d [] = false
has_code d (c ∷ s) = c == d || has_code d s

abbrev cons_head : ℕ → List (List ℕ) → List (List ℕ)
cons_head c [] = (c ∷ []) ∷ []
cons_head c (p ∷ ps) = (c ∷ p) ∷ ps

-- `s.split(d)`: there is always a first part.
unfoldable pub split : ℕ → List ℕ → List (List ℕ)
split d [] = [] ∷ []
split d (c ∷ s) = let ps = split d s in if c == d then [] ∷ ps else cons_head c ps

unfoldable pub digits_value : ℕ → List ℕ → ℕ
digits_value acc [] = acc
digits_value acc (c ∷ s) =
    let rest = digits_value (acc * 10 + (c - b'0')) s in
    if leb b'0' c && leb c b'9' then rest else acc

unfoldable pub parse_digits : List ℕ → Option ℕ
parse_digits [] = none
parse_digits (c ∷ s) = if leb b'0' c && leb c b'9' then some (digits_value 0 (c ∷ s)) else none

-- `parseInt(s, 10)`: whether it is negative, and its magnitude; `none` is NaN.
abbrev with_sign : Bool → Option ℕ → Option (Bool × ℕ)
with_sign b none = none
with_sign b (some n) = some (b, n)

abbrev parse_signed : List ℕ → Option (Bool × ℕ)
parse_signed [] = none
parse_signed (c ∷ s) =
    if c == b'-'
    then with_sign true (parse_digits s)
    else if c == b'+'
    then with_sign false (parse_digits s)
    else with_sign false (parse_digits (c ∷ s))

unfoldable pub parse_int : List ℕ → Option (Bool × ℕ)
unfolding parse_digits trim_start digits_value is_space
parse_int s = parse_signed (trim_start s)

-- A number from 0 to `top`; minus zero passes, as it does in `n < 0`.
abbrev pub in_range : ℕ → Option (Bool × ℕ) → Option ℕ
in_range top none = none
in_range top (some (negative, n)) = if (negative && ltb 0 n) || ltb top n then none else some n

abbrev word : ℕ
word = 2 ^ 32

-- The loop over the parts of an address.
abbrev shift_in : Option ℕ → ℕ → Option ℕ
shift_in none num = none
shift_in (some n) num = some ((num * 256) % word + n)

unfoldable pub join_parts : ℕ → List (List ℕ) → Option ℕ
unfolding parse_int
join_parts num [] = some (num % word)
join_parts num (p ∷ ps) = elim (shift_in (in_range 255 (parse_int p)) num) [
  | none ↦ none
  | some num' ↦ join_parts num' ps
]

abbrev four_parts : List (List ℕ) → Option ℕ
four_parts (a ∷ b ∷ c ∷ d ∷ []) = join_parts 0 (a ∷ b ∷ c ∷ d ∷ [])
four_parts _ = none

unfoldable pub ip_to_number : List ℕ → Option ℕ
unfolding join_parts split
ip_to_number ip = four_parts (split b'.' ip)

-- `bits === 0 ? 0 : (~0 << (32 - bits)) >>> 0`
abbrev pub mask_of : ℕ → ℕ
mask_of bits = if bits == 0 then 0 else word - 2 ^ (32 - bits)

abbrev pub masked_eq : ℕ → Option ℕ → Option ℕ → Bool
masked_eq bits none range = false
masked_eq bits (some a) none = false
masked_eq bits (some a) (some b) = bit_and a (mask_of bits) == bit_and b (mask_of bits)

abbrev pub match_bits : Option ℕ → Option ℕ → Option ℕ → Bool
match_bits none ip range = false
match_bits (some bits) ip range = masked_eq bits ip range

-- `const [range, bitsStr] = cidr.split('/')`
abbrev match_split : List ℕ → List (List ℕ) → Bool
match_split ip (range ∷ bits ∷ rest) =
    match_bits (in_range 32 (parse_int bits)) (ip_to_number ip) (ip_to_number range)
match_split ip _ = false

unfoldable pub match_cidr : List ℕ → List ℕ → Bool
unfolding ip_to_number parse_int split
match_cidr ip cidr = match_split ip (split b'/' cidr)

-- One entry of an allowlist against a trimmed address.
abbrev pub entry_matches : List ℕ → List ℕ → Bool
entry_matches ip allowed =
    if has_code b'/' allowed then match_cidr ip allowed else codes_eq allowed ip

unfoldable pub any_matches : List ℕ → List String → Bool
any_matches ip [] = false
any_matches ip (allowed ∷ list) = entry_matches ip (codes allowed) || any_matches ip list

-- `checkIpInList`
unfoldable pub check_ip_in_list : String → List String → Bool
unfolding any_matches
check_ip_in_list ip list = any_matches (trim (codes ip)) list

office : check_ip_in_list " 10.1.2.3 " ("192.168.0.1" ∷ "10.0.0.0/8" ∷ []) ≡ true
unfolding check_ip_in_list match_cidr trim_start trim_end is_space codes_eq has_code
office = refl

outside : check_ip_in_list "11.1.2.3" ("192.168.0.1" ∷ "10.0.0.0/8" ∷ []) ≡ false
unfolding check_ip_in_list match_cidr trim_start trim_end is_space codes_eq has_code
outside = refl
