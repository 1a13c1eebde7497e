-- ===== src/Server/Reservations/Sums.antt =====
-- Sums over the reservations of src/server.ts, when some of them are removed.
use paygate_mcp.Base.{
  ℕ, ◌≤◌, String, ◌≡◌, refl, ap, sym, ◌∙◌, inl, inr, none, [], ◌∷◌, arith, All, Bool-cases,
}
use Prim.Native.String.append
use paygate_mcp.Base.Decimal.{decimal, read_from, read-decimal}
use paygate_mcp.Base.Dict.{Dict, get, sum_by}
use paygate_mcp.Server.{Reservation}
use paygate_mcp.Server.Reservations.{reservation_id, live_only, has_lapsed}

pub sum_by-live_only-le :
    (f : Reservation → ℕ) (now : ℕ) (m : Dict Reservation) → sum_by f (live_only now m) ≤ sum_by f m
unfolding sum_by live_only
sum_by-live_only-le f now [] = omega arith
sum_by-live_only-le f now ((id, r) ∷ m) = ground (arith, sum_by-live_only-le f now m)

pub All-live_only :
    (P : Reservation → Type 0) (now : ℕ) (m : Dict Reservation)
    → All (λ (p : String × Reservation). P p.1) m
    → All (λ (p : String × Reservation). P p.1) (live_only now m)
unfolding live_only
All-live_only P now [] h = tt
All-live_only P now ((id, r) ∷ m) h = elim (Bool-cases (has_lapsed now r)) [
  | inl lapsed ↦ rw lapsed (All-live_only P now m h.1)
  | inr live ↦ rw live (h.0, All-live_only P now m h.1)
]

pub live_only_missing :
    (id : String) (now : ℕ) (m : Dict Reservation)
    → get id m ≡ none
    → get id (live_only now m) ≡ none
unfolding get live_only
live_only_missing id now [] e = refl
live_only_missing id now ((j, r) ∷ m) e = ground (arith, live_only_missing id now m)

-- Two reservations have the same id only if they have the same number.
unfoldable number_of : String → ℕ
number_of String.[] = 0
number_of (String.◌∷◌ a String.[]) = 0
number_of (String.◌∷◌ a (String.◌∷◌ b String.[])) = 0
number_of (String.◌∷◌ a (String.◌∷◌ b (String.◌∷◌ c String.[]))) = 0
number_of (String.◌∷◌ a (String.◌∷◌ b (String.◌∷◌ c (String.◌∷◌ d rest)))) = read_from 0 rest

spelled :
    (n : ℕ)
    → reservation_id n
      ≡ String.◌∷◌ "r" (String.◌∷◌ "s" (String.◌∷◌ "v" (String.◌∷◌ "_" (decimal n))))
unfolding reservation_id
spelled n =
    append.cons "r" "sv_" (decimal n)
    ∙ ap (String.◌∷◌ "r") (append.cons "s" "v_" (decimal n))
    ∙ ap (λ (t : String). String.◌∷◌ "r" (String.◌∷◌ "s" t)) (append.cons "v" "_" (decimal n))
    ∙ ap (λ (t : String). String.◌∷◌ "r" (String.◌∷◌ "s" (String.◌∷◌ "v" t)))
        (append.cons "_" String.[] (decimal n) ∙ ap (String.◌∷◌ "_") (append.nil (decimal n)))

number_of-reservation_id : (n : ℕ) → number_of (reservation_id n) ≡ n
unfolding number_of
number_of-reservation_id n = rw (spelled n) (read-decimal n)

pub reservation_id_injective : (m n : ℕ) → reservation_id m ≡ reservation_id n → m ≡ n
reservation_id_injective m n e =
    sym (number_of-reservation_id m) ∙ ap number_of e ∙ number_of-reservation_id n
