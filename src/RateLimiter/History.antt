-- ===== src/RateLimiter/History.antt =====
-- The timestamps in a window as a view of the whole history of a key.
use paygate_mcp.Base.{
  ℕ, ◌+◌, ◌≤◌, ◌<◌, ◌≡◌, refl, Bool, true, ◌&&◌, inl, inr, List, [], ◌∷◌, ◌++◌, arith, ltb, leb,
  length, filter, length-append, filter-append, Bool-cases, All,
}

-- Two filters, the second of which passes no more.
pub filter-filter {ℓ} :
    {A : Type ℓ} (p q : A → Bool) (xs : List A)
    → ((a : A) → q a ≡ true → p a ≡ true)
    → filter q (filter p xs) ≡ filter q xs
filter-filter p q [] h = refl
filter-filter p q (x ∷ xs) h = ground (arith, h x, filter-filter p q xs h)

pub length-filter_mono {ℓ} :
    {A : Type ℓ} (P : A → Type 0) (p q : A → Bool) (xs : List A)
    → ((a : A) → P a → p a ≡ true → q a ≡ true)
    → All P xs
    → length (filter p xs) ≤ length (filter q xs)
length-filter_mono P p q [] h a = omega arith
length-filter_mono P p q (x ∷ xs) h a = ground (arith, h x a.0, length-filter_mono P p q xs h a.1)

-- A call at time `s` lies in the window of `w` milliseconds that ends at `t`.
abbrev pub in_window : ℕ → ℕ → ℕ → Bool
in_window w t s = leb s t && ltb t (s + w)

-- No window of the history holds more than `n` calls.
abbrev pub IsSpread : ℕ → ℕ → List ℕ → Type 0
IsSpread w n history = (t : ℕ) → length (filter (in_window w t) history) ≤ n

module _ (w now : ℕ) (history : List ℕ) (past : All (λ s. s ≤ now) history) where
  in_window_le_live :
      (t : ℕ)
      → now ≤ t
      → length (filter (in_window w t) history) ≤ length (filter (λ s. ltb now (s + w)) history)
  in_window_le_live t h =
      length-filter_mono (λ s. s ≤ now) (in_window w t) (λ s. ltb now (s + w)) history
        (λ s le e. ground arith) past

  -- One more call, when fewer than `n` are live, keeps every window within `n`.
  pub snoc-IsSpread :
      (n : ℕ)
      → length (filter (λ s. ltb now (s + w)) history) < n
      → IsSpread w n history
      → IsSpread w n (history ++ now ∷ [])
  snoc-IsSpread n room spread t = elim (Bool-cases (leb now t)) [
    | inl after ↦ rw (filter-append (in_window w t) history (now ∷ [])) (
        ground (
          arith,
          length-append (filter (in_window w t) history) (filter (in_window w t) (now ∷ [])),
          in_window_le_live t,
        ))
    | inr before ↦ rw (filter-append (in_window w t) history (now ∷ [])) (
        ground (
          arith,
          length-append (filter (in_window w t) history) (filter (in_window w t) (now ∷ [])),
          spread t,
        ))
  ]
