-- ===== src/Server/Transfers/Exact.antt =====
-- What a transfer of credits in src/server.ts does to the balances, also when two names are of one key.
use text.Mathlib.TextEquality.{eq_iff}
use paygate_mcp.Base.{
  ℕ, ◌+◌, ◌-◌, ◌≤◌, ◌<◌, String, ◌≡◌, ◌≢◌, refl, ap, sym, ◌∙◌, ◌⊎◌, inl, inr, Option, none, some,
  arith, ltb, if◌then◌else◌, Bool-cases, Option-cases,
}
use paygate_mcp.Base.Dict.{get, get-set, sum_by-set}
use paygate_mcp.Base.Text.{str_eq, given}
use paygate_mcp.Types.{ApiKeyRecord}
use paygate_mcp.Keys.{KeyStore, get_key_raw, resolve_key}
use paygate_mcp.Server.{PayGateServer, clamp_int, max_credits}
use paygate_mcp.Server.Keyed.{IsKeyed, all_credits, resolve_key-found}
use paygate_mcp.Server.Transfers.{
  change_credits, moved, credits_or, TransferReply, missing_keys, same_key, bad_credits,
  source_not_found, destination_not_found, insufficient_credits, transferred,
  handle_credit_transfer,
}

abbrev changed : (ℕ → ℕ) → Option ApiKeyRecord → Option ApiKeyRecord
changed f none = none
changed f (some r) = some (record r { credits = f r.credits })

get-change_credits :
    (key k : String) (f : ℕ → ℕ) (s : KeyStore)
    → get k (change_credits key f s).keys
      ≡ (if str_eq key k then changed f (get k s.keys) else get k s.keys)
unfolding change_credits get_key_raw
get-change_credits key k f s = elim (Option-cases (get key s.keys)) [
  | inl missing ↦ ground (arith, eq_iff key k)
  | inr (r, found) ↦
      ground (arith, eq_iff key k, get-set key k (record r { credits = f r.credits }) s.keys)
]

all_credits-change :
    (key : String) (f : ℕ → ℕ) (r : ApiKeyRecord) (s : KeyStore)
    → get key s.keys ≡ some r
    → all_credits (change_credits key f s) + r.credits ≡ all_credits s + f r.credits
unfolding change_credits get_key_raw
all_credits-change key f r s found =
    rw (found, change_credits)
      (sum_by-set (λ (a : ApiKeyRecord). a.credits) key (record r { credits = f r.credits }) r
        s.keys found)

-- A record but for its credits.
abbrev pub rest_of : Option ApiKeyRecord → Option ApiKeyRecord
rest_of = changed (λ c. 0)

module _ (source dest : ApiKeyRecord) (amount : ℕ) (s : KeyStore)
    (from_there : get source.key s.keys ≡ some source) (to_there : get dest.key s.keys ≡ some dest)
    (enough : amount ≤ source.credits) where
  abbrev took : KeyStore
  took = change_credits source.key (λ c. c - amount) s

  get-moved :
      (k : String)
      → get k (moved source.key dest.key amount s).keys ≡ (
          if str_eq dest.key k
          then changed (λ c. c + amount) (get k took.keys)
          else get k took.keys)
  unfolding moved
  get-moved k = get-change_credits dest.key k (λ c. c + amount) took

  moved_each :
      (k : String)
      → let after = get k (moved source.key dest.key amount s).keys in
        (credits_or 0 after + (if str_eq source.key k then amount else 0)
          ≡ credits_or 0 (get k s.keys) + (if str_eq dest.key k then amount else 0))
        × (rest_of after ≡ rest_of (get k s.keys))
  moved_each k = elim (Option-cases (get k s.keys)) [
    | inl missing ↦
        rw (get-moved k, get-change_credits source.key k (λ c. c - amount) s, missing)
          (ground (arith, eq_iff source.key k, eq_iff dest.key k), ground arith)
    | inr (r, found) ↦
        rw (get-moved k, get-change_credits source.key k (λ c. c - amount) s, found)
          (ground (arith, eq_iff source.key k, eq_iff dest.key k), ground arith)
  ]

  moved_total : all_credits (moved source.key dest.key amount s) ≡ all_credits s
  unfolding moved
  moved_total = elim (Bool-cases (str_eq source.key dest.key)) [
    | inl one ↦ omega (
      arith,
      all_credits-change source.key (λ c. c - amount) source s from_there,
      all_credits-change dest.key (λ c. c + amount)
          (record dest { credits = dest.credits - amount }) took
          (get-change_credits source.key dest.key (λ c. c - amount) s ∙ rw (one, to_there) refl),
    )
    | inr two ↦ omega (
      arith,
      all_credits-change source.key (λ c. c - amount) source s from_there,
      all_credits-change dest.key (λ c. c + amount) dest took
          (get-change_credits source.key dest.key (λ c. c - amount) s ∙ rw two to_there),
    )
  ]

-- Two different names and some credits are given: the first checks are passed.
abbrev pub AreGiven : Option String → Option String → ℕ → String → String → Type 0
AreGiven from to credits f t = (given from ≡ some f) × (given to ≡ some t) × (f ≢ t) × (0 < credits)

-- The answers and what each of them means: the check that failed, and that those before it in the
-- source were passed. A transfer that goes through moves the clamped amount, and answers with the two
-- balances that are left.
abbrev pub Outcome :
    Option String → Option String → ℕ → ℕ → PayGateServer → PayGateServer → TransferReply → Type 0
Outcome from to credits now s s' missing_keys = (s' ≡ s) × ((given from ≡ none) ⊎ (given to ≡ none))
Outcome from to credits now s s' same_key =
    (s' ≡ s) × ((f : String) × (given from ≡ some f) × (given to ≡ some f))
Outcome from to credits now s s' bad_credits =
    (s' ≡ s)
    × ((f t : String) × (given from ≡ some f) × (given to ≡ some t) × (f ≢ t) × (credits ≡ 0))
Outcome from to credits now s s' source_not_found =
    (s' ≡ s) × ((f t : String) × AreGiven from to credits f t × (resolve_key f now s.store ≡ none))
Outcome from to credits now s s' (insufficient_credits has need) =
    (s' ≡ s)
    × (has < need)
    × (need ≡ clamp_int credits 1 max_credits)
    × ((f t : String) × (source : ApiKeyRecord) × AreGiven from to credits f t
        × (resolve_key f now s.store ≡ some source)
        × (has ≡ source.credits))
Outcome from to credits now s s' destination_not_found =
    (s' ≡ s)
    × ((f t : String) × (source : ApiKeyRecord) × AreGiven from to credits f t
        × (resolve_key f now s.store ≡ some source)
        × (clamp_int credits 1 max_credits ≤ source.credits)
        × (resolve_key t now s.store ≡ none))
Outcome from to credits now s s' (transferred amount from_balance to_balance) =
    (f t : String) × (source dest : ApiKeyRecord) × AreGiven from to credits f t
    × (resolve_key f now s.store ≡ some source)
    × (resolve_key t now s.store ≡ some dest)
    × (amount ≡ clamp_int credits 1 max_credits)
    × (amount ≤ source.credits)
    × (from_balance ≡ credits_or 0 (get_key_raw source.key s'.store))
    × (to_balance ≡ credits_or 0 (get_key_raw dest.key s'.store))
    × (all_credits s'.store ≡ all_credits s.store)
    × ((k : String)
        → (credits_or 0 (get_key_raw k s'.store) + (if str_eq source.key k then amount else 0)
            ≡ credits_or 0 (get_key_raw k s.store) + (if str_eq dest.key k then amount else 0))
          × (rest_of (get_key_raw k s'.store) ≡ rest_of (get_key_raw k s.store)))

-- Let every record stand under its own key. Then every request for a transfer has the outcome that its
-- answer names. It is refused, and the server is as before, for a missing name, for two equal names,
-- for no credits, for a source that is no usable key, for too few credits of it, and for a destination
-- that is no usable key; a refusal for one of these means that none of those before it was the case.
-- Otherwise two different names and some credits are given, and it goes through: the credits asked, at least 1 and at most the
-- bound, are at most the source's, the credits of all keys add up to what they did, the source has
-- that much less and the destination that much more, no other key's record changes and nothing of
-- these two but their credits, and the answer has the two balances that are left. Where both names
-- are of one key, its record stays as it is.
pub handle_credit_transfer-Outcome :
    (from to : Option String) (credits now : ℕ) (s : PayGateServer)
    → IsKeyed s.store
    → let (reply, s') = handle_credit_transfer from to credits now s in
      Outcome from to credits now s s' reply
unfolding handle_credit_transfer get_key_raw
handle_credit_transfer-Outcome from to credits now s keyed = elim (Option-cases (given from)) [
  | inl no_from ↦ rw no_from (refl, inl no_from)
  | inr (f, e) ↦ rw e (elim (Option-cases (given to)) [
    | inl no_to ↦ rw no_to (refl, inr no_to)
    | inr (t, e') ↦ rw e' (elim (Bool-cases (str_eq f t)) [
      | inl same ↦ rw same (refl, (f, e, e' ∙ ap some (sym ((eq_iff f t).0 same))))
      | inr apart ↦ rw apart (elim (Bool-cases (ltb 0 credits)) [
        | inr nothing ↦
            rw nothing (refl, (f, t, e, e', (λ same. ground (arith, eq_iff f t)), ground arith))
        | inl positive ↦ rw positive (
            let named : AreGiven from to credits f t =
              (e, e', (λ same. ground (arith, eq_iff f t)), ground arith) in
            elim (Option-cases (resolve_key f now s.store)) [
              | inl no_source ↦ rw no_source (refl, (f, t, named, no_source))
              | inr (source, there) ↦ rw there (elim (Bool-cases (ltb source.credits amount)) [
                | inl short ↦
                    rw short (refl, ground arith, refl, (f, t, source, named, there, refl))
                | inr enough ↦ rw enough (elim (Option-cases (resolve_key t now s.store)) [
                  | inl no_dest ↦
                      rw no_dest (refl, (f, t, source, named, there, ground arith, no_dest))
                  | inr (dest, there') ↦ rw there' (
                    f,
                    t,
                    source,
                    dest,
                    named,
                    there,
                    there',
                    refl,
                    ground arith,
                    refl,
                    refl,
                    moved_total source dest amount s.store
                        (resolve_key-found f source now s.store keyed there)
                        (resolve_key-found t dest now s.store keyed there') (ground arith),
                    moved_each source dest amount s.store
                        (resolve_key-found f source now s.store keyed there)
                        (resolve_key-found t dest now s.store keyed there') (ground arith),
                  )
                ])
              ])
            ])
      ])
    ])
  ])
]
  where
    amount : ℕ
    amount = clamp_int credits 1 max_credits
