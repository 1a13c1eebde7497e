-- ===== src/Gate/Listing.antt =====
-- `filterToolsForKey` of src/gate.ts: the tools that a client sees, against those that it may call. A
-- tool is its name, and an absent list of token tools is empty.
use paygate_mcp.Base.{
  ℕ, String, ◌≡◌, ◌↔◌, refl, ap, Bool, true, false, not, ◌&&◌, ◌||◌, Option, none, some, List, [],
  ◌∷◌, arith, filter, is_nonempty, or_else, if◌then◌else◌, Bool-cases, inl, inr,
}
use text.Mathlib.TextEquality.{eq_iff}
use paygate_mcp.Base.Text.{given, includes, str_eq}
use paygate_mcp.Types.{ApiKeyRecord}
use paygate_mcp.Keys.{get_key}
use paygate_mcp.Gate.{Gate}
use paygate_mcp.Gate.Checks.{Access, access_of, check_tool_acl, check_token}
use paygate_mcp.Gate.Evaluate.{policy_for}

abbrev pub is_listed : Access → List String → String → Bool
is_listed a token_tools tool =
    if is_nonempty a.allowed_tools && not (includes tool a.allowed_tools)
    then false
    else if is_nonempty a.denied_tools && includes tool a.denied_tools
    then false
    else if is_nonempty token_tools && not (includes tool token_tools)
    then false
    else true

abbrev filter_with : Access → List String → List String → Option (List String)
filter_with a token_tools tools =
    if not (is_nonempty a.allowed_tools || is_nonempty a.denied_tools)
      && not (is_nonempty token_tools)
    then none
    else some (filter (is_listed a token_tools) tools)

-- The answer, none where nothing is filtered, and the gate with what the groups answered kept.
unfoldable pub filter_tools_for_key :
    Option String → List String → List String → ℕ → Gate → Option (List String) × Gate
filter_tools_for_key api_key tools token_tools now g = elim (given api_key) [
  | none ↦ (none, g)
  | some key ↦ elim (get_key key now g.store) [
    | none ↦ (none, g)
    | some r ↦
        let (policy, m) = policy_for key r g.groups in
        (filter_with (access_of r policy) token_tools tools, record g { groups = m })
  ]
]

includes-filter :
    (p : String → Bool) (x : String) (xs : List String)
    → includes x (filter p xs) ≡ (includes x xs && p x)
unfolding includes
includes-filter p x [] = refl
includes-filter p x (y ∷ xs) = elim (Bool-cases (str_eq y x)) [
  | inl e ↦ ground (arith, ap p ((eq_iff y x).0 e), includes-filter p x xs)
  | inr e ↦ ground (arith, includes-filter p x xs)
]

module _ (a : Access) (token_tools : List String) where
  is_listed_iff :
      (tool : String)
      → (is_listed a token_tools tool ≡ true) ↔ (
          (check_tool_acl a.allowed_tools a.denied_tools tool ≡ none)
          × (check_token token_tools tool ≡ none))
  unfolding check_tool_acl check_token
  is_listed_iff tool = (λ e. (ground arith, ground arith), λ h. ground arith)

  open_to_all :
      (tool : String)
      → (not (is_nonempty a.allowed_tools || is_nonempty a.denied_tools)
          && not (is_nonempty token_tools))
        ≡ true
      → is_listed a token_tools tool ≡ true
  open_to_all tool h = ground arith

  shown_iff :
      (tools : List String) (tool : String)
      → (includes tool (or_else (filter_with a token_tools tools) tools) ≡ true) ↔ (
          (includes tool tools ≡ true)
          × (check_tool_acl a.allowed_tools a.denied_tools tool ≡ none)
          × (check_token token_tools tool ≡ none))
  shown_iff tools tool =
      let l = is_listed_iff tool in
      elim (Bool-cases (
        not (is_nonempty a.allowed_tools || is_nonempty a.denied_tools)
        && not (is_nonempty token_tools))) [
          | inl b ↦
              rw b (λ h. (h, (l.0 (open_to_all tool b)).0, (l.0 (open_to_all tool b)).1), λ h. h.0)
          | inr b ↦ rw b (
            λ h.
                let listed : is_listed a token_tools tool ≡ true =
                  ground (arith, includes-filter (is_listed a token_tools) tool tools) in
                (
                  ground (arith, includes-filter (is_listed a token_tools) tool tools),
                  (l.0 listed).0,
                  (l.0 listed).1,
                ),
            λ h.
                let listed = l.1 (h.1, h.2) in
                ground (arith, includes-filter (is_listed a token_tools) tool tools),
          )
        ]

-- Of a key that the store holds active and unexpired, the list of tools that it is shown, or all tools
-- where nothing is filtered, has exactly the tools at which neither the access lists, the group's
-- policy included, nor the token's list stop a call, in what `evaluate` checks of a call.
pub filter_tools_iff :
    (key : String) (r : ApiKeyRecord) (tools token_tools : List String) (now : ℕ) (g : Gate)
    (tool : String)
    → given (some key) ≡ some key
    → get_key key now g.store ≡ some r
    → let shown = or_else (filter_tools_for_key (some key) tools token_tools now g).0 tools in
      let access = access_of r (policy_for key r g.groups).0 in
      (includes tool shown ≡ true) ↔ (
        (includes tool tools ≡ true)
        × (check_tool_acl access.allowed_tools access.denied_tools tool ≡ none)
        × (check_token token_tools tool ≡ none))
unfolding filter_tools_for_key
filter_tools_iff key r tools token_tools now g tool named found =
    rw (filter_tools_for_key, named, found)
      (shown_iff (access_of r (policy_for key r g.groups).0) token_tools tools tool)
