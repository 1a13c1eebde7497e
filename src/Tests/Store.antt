-- ===== src/Tests/Store.antt =====
-- The key store's results on the store with two keys.
use paygate_mcp.Base.{ℕ, ◌+◌, String, ◌≡◌, refl, false, none, some, List, [], ◌∷◌}
use paygate_mcp.Base.Dict
use paygate_mcp.Base.Dict.{sum_by}
use paygate_mcp.Base.Text.{str_eq}
use paygate_mcp.Types.{ApiKeyRecord}
use paygate_mcp.Keys.{get_key, get_key_raw, revoke_key, rotate_key, resolve_key}
use paygate_mcp.Keys.Credits.{Op, deduct, add, resume, revoke, run, total_funds, run-total_funds}
use paygate_mcp.Keys.Lifecycle.{Change, edit, rotate, run_changes, revoke_permanent}
use paygate_mcp.Keys.Aliases.{active_credits, rotate_moves, rotate_loses_alias}
use paygate_mcp.Tests.{noon, alice, store}

abbrev ops : List (ℕ × Op)
ops =
    (noon, deduct "pg_a" 5)
    ∷ (noon, add "pg_b" 10)
    ∷ (noon, revoke "pg_b")
    ∷ (noon, add "pg_b" 4)
    ∷ []

run-total_funds_example :
    let (added, s') = run ops store in total_funds s' ≡ total_funds store + added
run-total_funds_example = run-total_funds ops store

abbrev changes : List Change
changes = edit noon (resume "pg_a") ∷ rotate "pg_a" "pg_c" ∷ edit noon (add "pg_a" 5) ∷ []

revoke_permanent_example :
    get_key "pg_a" noon (run_changes changes (revoke_key "pg_a" store).1) ≡ none
revoke_permanent_example = revoke_permanent "pg_a" store changes (refl, tt) noon

alice_kept : get_key_raw "pg_a" store ≡ some alice
unfolding get_key_raw Dict.get
alice_kept = refl

free : (get_key_raw "pg_c" store ≡ none) × (get_key_raw "main" store ≡ none)
unfolding get_key_raw Dict.get
free = (refl, refl)

indexed : Dict.get "main" store.aliases ≡ some "pg_a"
unfolding Dict.get
indexed = refl

rotate_moves_example :
    let s' = (rotate_key "pg_a" "pg_c" store).1 in
    ((rotate_key "pg_a" "pg_c" store).0 ≡ some (record alice { key = "pg_c" }))
    × (get_key_raw "pg_c" s' ≡ some (record alice { key = "pg_c" }))
    × (get_key_raw "pg_a" s' ≡ some (record alice { active = false }))
    × ((other : String)
        → str_eq "pg_a" other ≡ false
        → str_eq "pg_c" other ≡ false
        → get_key_raw other s' ≡ get_key_raw other store)
    × (sum_by active_credits s'.keys ≡ sum_by active_credits store.keys)
rotate_moves_example = rotate_moves "pg_a" "pg_c" alice store alice_kept refl free.0

rotate_loses_alias_example :
    let s' = (rotate_key "pg_a" "pg_c" store).1 in
    (resolve_key "main" noon s' ≡ none)
    × ((r' : ApiKeyRecord) → get_key_raw "pg_c" s' ≡ some r' → r'.alias ≡ some "main")
rotate_loses_alias_example =
    rotate_loses_alias "main" "pg_a" "pg_c" alice store noon alice_kept refl refl indexed free.1
      free.0 refl
