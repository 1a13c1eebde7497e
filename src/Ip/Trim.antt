-- ===== src/Ip/Trim.antt =====
-- Trimming an address twice, as the gate's check does before it asks the store's, changes nothing.
use paygate_mcp.Base.{ℕ, ◌≡◌, refl, false, inl, inr, List, [], ◌∷◌, arith, Bool-cases}
use paygate_mcp.Ip.{is_space, trim_start, trim_end, trim}

trim_end_idem : (s : List ℕ) → trim_end (trim_end s) ≡ trim_end s
unfolding trim_end
trim_end_idem [] = refl
trim_end_idem (c ∷ s) = ground (arith, trim_end_idem s)

-- What starts with a visible character does so after its end is trimmed.
trim_start-trim_end :
    (c : ℕ) (s : List ℕ) → is_space c ≡ false → trim_start (trim_end (c ∷ s)) ≡ trim_end (c ∷ s)
unfolding trim_start trim_end
trim_start-trim_end c s h = ground arith

trim_start-trim : (s : List ℕ) → trim_start (trim s) ≡ trim s
unfolding trim_start
trim_start-trim [] = unfold trim_end in refl
trim_start-trim (c ∷ s) = elim (Bool-cases (is_space c)) [
  | inl space ↦ rw space (trim_start-trim s)
  | inr seen ↦ rw seen (trim_start-trim_end c s seen)
]

pub trim_idem : (s : List ℕ) → trim (trim s) ≡ trim s
trim_idem s = rw (trim_start-trim s) (trim_end_idem (trim_start s))
