-- ===== src/Ledger/Refinement.antt =====
-- The capped lists of src/credit-ledger.ts against the log that they stand for.
use mathlib.Core.List.{reverse, reverse-cons, reverse-reverse}
use text.Mathlib.TextEquality.{eq_iff}
use paygate_mcp.Base.{
  ℕ, zero, suc, ◌-◌, ◌≤◌, String, Option, List, [], ◌∷◌, ◌++◌, length, ◌≡◌, refl, sym, ap, ◌∙◌,
  drop, take, ltb, min, arith, if◌then◌else◌, Bool-cases, inl, inr, length-append,
}
use paygate_mcp.Base.Dict.{get-set, get-delete}
use paygate_mcp.Base.Text.{str_eq}
use paygate_mcp.Ledger.{
  EntryType, CreditEntry, CreditLedger, list_of, cap_list, record_entry, of_type, since_time,
  limited, get_history, count, clear,
}

-- The specification: every entry that a key has been given since it was last cleared, newest first.
abbrev pub Log : Type 0
Log = String → List CreditEntry

pub data Call : Type 0 where
  note : String → CreditEntry → Call
  wipe : String → Call

abbrev pub log_call : Call → Log → Log
log_call (note key entry) log k = if str_eq key k then entry ∷ log k else log k
log_call (wipe key) log k = if str_eq key k then [] else log k

unfoldable pub log_all : List Call → Log → Log
log_all [] log = log
log_all (c ∷ cs) log = log_all cs (log_call c log)

unfoldable pub call : Call → CreditLedger → CreditLedger
call (note key entry) l = record_entry key entry l
call (wipe key) l = clear key l

unfoldable pub run : List Call → CreditLedger → CreditLedger
run [] l = l
run (c ∷ cs) l = run cs (call c l)

-- What the ledger keeps is the newest of the log, oldest first.
abbrev pub Represents : CreditLedger → Log → Type 0
Represents l log = (key : String) → list_of key l ≡ reverse (take l.max_entries_per_key (log key))

length-reverse : (xs : List CreditEntry) → length (reverse xs) ≡ length xs
length-reverse [] = refl
length-reverse (x ∷ xs) =
    rw (reverse-cons x xs) (omega (arith, length-append (reverse xs) (x ∷ []), length-reverse xs))

drop-append :
    (n : ℕ) (xs ys : List CreditEntry) → n ≤ length xs → drop n (xs ++ ys) ≡ drop n xs ++ ys
drop-append zero xs ys h = refl
drop-append (suc n) [] ys h = absurd (omega arith)
drop-append (suc n) (x ∷ xs) ys h = drop-append n xs ys (omega arith)

drop_all : (xs : List CreditEntry) → drop (length xs) xs ≡ []
drop_all [] = refl
drop_all (x ∷ xs) = drop_all xs

take_all : (n : ℕ) (xs : List CreditEntry) → length xs ≤ n → take n xs ≡ xs
take_all zero [] h = refl
take_all zero (x ∷ xs) h = absurd (omega arith)
take_all (suc n) [] h = refl
take_all (suc n) (x ∷ xs) h = ap (◌∷◌ x) (take_all n xs (omega arith))

take-take_cons :
    (n : ℕ) (x : CreditEntry) (xs : List CreditEntry) → take n (x ∷ take n xs) ≡ take n (x ∷ xs)
take-take_cons zero x xs = refl
take-take_cons (suc n) x [] = refl
take-take_cons (suc n) x (y ∷ xs) = ap (◌∷◌ x) (take-take_cons n y xs)

drop_nil : (n : ℕ) → drop n (let none_left : List CreditEntry = [] in none_left) ≡ []
drop_nil zero = refl
drop_nil (suc n) = refl

-- Dropping all but the last `n` of a reversed list.
drop-reverse :
    (n : ℕ) (xs : List CreditEntry) → drop (length xs - n) (reverse xs) ≡ reverse (take n xs)
drop-reverse n [] = drop_nil (0 - n) ∙ sym (ap reverse (take_all n [] (omega arith)))
drop-reverse zero (x ∷ xs) =
    ap (λ (k : ℕ). drop k (reverse (x ∷ xs))) whole ∙ drop_all (reverse (x ∷ xs))
  where
    whole : suc (length xs) - 0 ≡ length (reverse (x ∷ xs))
    whole = omega (arith, length-reverse (x ∷ xs))
drop-reverse (suc n) (x ∷ xs) =
    ap (drop (suc (length xs) - suc n)) (reverse-cons x xs)
    ∙ ap (λ (k : ℕ). drop k (reverse xs ++ x ∷ [])) less
    ∙ drop-append (length xs - n) (reverse xs) (x ∷ []) (omega (arith, length-reverse xs))
    ∙ ap (λ (ys : List CreditEntry). ys ++ x ∷ []) (drop-reverse n xs)
    ∙ sym (reverse-cons x (take n xs))
  where
    less : suc (length xs) - suc n ≡ length xs - n
    less = omega arith

cap_list-reverse : (n : ℕ) (xs : List CreditEntry) → cap_list n (reverse xs) ≡ reverse (take n xs)
unfolding cap_list
cap_list-reverse n xs = elim (Bool-cases (ltb n (length xs))) [
  | inl long ↦ rw (length-reverse xs, long, drop-reverse n xs)
  | inr short ↦ rw (length-reverse xs, short, take_all n xs (ground arith))
]

cap_list-kept :
    (n : ℕ) (e : CreditEntry) (xs : List CreditEntry)
    → cap_list n (reverse (take n xs) ++ e ∷ []) ≡ reverse (take n (e ∷ xs))
cap_list-kept n e xs =
    ap (cap_list n) (sym (reverse-cons e (take n xs)))
    ∙ cap_list-reverse n (e ∷ take n xs)
    ∙ ap reverse (take-take_cons n e xs)

call-cap : (c : Call) (l : CreditLedger) → (call c l).max_entries_per_key ≡ l.max_entries_per_key
unfolding call record_entry clear
call-cap (note key entry) l = refl
call-cap (wipe key) l = refl

call-Represents :
    (c : Call) (l : CreditLedger) (log : Log)
    → Represents l log
    → Represents (call c l) (log_call c log)
unfolding call record_entry clear
call-Represents (note key entry) l log h k = elim (Bool-cases (str_eq key k)) [
  | inl same ↦
      rw (get-set key k grown l.entries, same)
        (ap (λ (xs : List CreditEntry). cap_list l.max_entries_per_key (xs ++ entry ∷ [])) (h key)
          ∙ cap_list-kept l.max_entries_per_key entry (log key)
          ∙ ap (λ j. reverse (take l.max_entries_per_key (entry ∷ log j))) ((eq_iff key k).0 same))
  | inr other ↦ rw (get-set key k grown l.entries, other) (h k)
]
  where
    grown : List CreditEntry
    grown = cap_list l.max_entries_per_key (list_of key l ++ entry ∷ [])
call-Represents (wipe key) l log h k = elim (Bool-cases (str_eq key k)) [
  | inl same ↦
      rw (get-delete key k l.entries, same)
        (ap reverse (sym (take_all l.max_entries_per_key [] (omega arith))))
  | inr other ↦ rw (get-delete key k l.entries, other) (h k)
]

run-Represents :
    (cs : List Call) (l : CreditLedger) (log : Log)
    → Represents l log
    → Represents (run cs l) (log_all cs log)
      × ((run cs l).max_entries_per_key ≡ l.max_entries_per_key)
unfolding run log_all
run-Represents [] l log h = (h, refl)
run-Represents (c ∷ cs) l log h =
    let (kept, cap) = run-Represents cs (call c l) (log_call c log) (call-Represents c l log h) in
    (kept, cap ∙ call-cap c l)

length-take : (n : ℕ) (xs : List CreditEntry) → length (take n xs) ≡ min n (length xs)
length-take zero xs = omega arith
length-take (suc n) [] = omega arith
length-take (suc n) (x ∷ xs) = omega (arith, length-take n xs)

-- The ledger refines the complete log. Let the ledger hold, of every key, the newest entries of a
-- log, as many as its bound and in the order of their recording. Then after any sequence of records
-- and clears of any keys, the history that it gives of a key is what the same filters (a type, an
-- earliest time, a greatest number, each where it is given) leave of the newest entries of the
-- complete log, as many as the bound, newest first; its count is the length of that log, or the bound
-- where that is less.
pub get_history-log :
    (cs : List Call) (l : CreditLedger) (log : Log)
    → Represents l log
    → (key : String) (type : Option EntryType) (since limit : Option ℕ)
    → let newest = take l.max_entries_per_key (log_all cs log key) in
      (get_history key type since limit (run cs l)
        ≡ limited limit (since_time since (of_type type newest)))
      × (count key (run cs l) ≡ min l.max_entries_per_key (length (log_all cs log key)))
unfolding get_history count
get_history-log cs l log h key type since limit =
    let (kept, cap) = run-Represents cs l log h in
    let stored : list_of key (run cs l)
        ≡ reverse (take l.max_entries_per_key (log_all cs log key)) =
      kept key ∙ ap (λ (n : ℕ). reverse (take n (log_all cs log key))) cap in
    (
      ap (λ (xs : List CreditEntry). limited limit (since_time since (of_type type xs)))
          (ap reverse stored ∙ reverse-reverse (take l.max_entries_per_key (log_all cs log key))),
      ap length stored
          ∙ length-reverse (take l.max_entries_per_key (log_all cs log key))
          ∙ length-take l.max_entries_per_key (log_all cs log key),
    )
