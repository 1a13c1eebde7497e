-- ===== src/Gate/Guards.antt =====
-- Each guard of src/gate.ts against what it is meant to check.
use paygate_mcp.Base.{
  ℕ, String, ◌≡◌, refl, ◌↔◌, true, false, not, ◌&&◌, Option, none, some, List, [], ◌∷◌, arith,
  length, ◌==◌, is_nonempty, if◌then◌else◌,
}
use paygate_mcp.Base.Text.{includes, given}
use paygate_mcp.Ip.{codes, trim, check_ip_in_list, any_matches}
use paygate_mcp.Ip.Trim.{trim_idem}
use paygate_mcp.Types.{ApiKeyRecord, country_not_allowed, country_denied}
use paygate_mcp.Groups.{ResolvedPolicy}
use paygate_mcp.Gate.{Request}
use paygate_mcp.Gate.Checks.{
  Denial, deny_if, ◌or_next◌, access_of, any_entry, check_ip_allowlist, check_ip, check_country,
  upper, includes_codes, check_tool_acl, check_token, check_access,
}

-- A list that restricts when it has entries.
abbrev pub Permits : List String → String → Type 0
Permits list x = is_nonempty list ≡ true → includes x list ≡ true

any_entry-any_matches :
    (ip : String) (list : List String)
    → any_entry ip (trim (codes ip)) list ≡ any_matches (trim (codes ip)) list
unfolding any_entry any_matches
any_entry-any_matches ip [] = refl
any_entry-any_matches ip (a ∷ list) =
    rw (any_entry-any_matches ip list, trim_idem (codes ip)) (ground arith)

-- The gate's allowlist check, for lists that it merged itself, agrees with the store's on every list
-- that has entries; on an empty one it lets every address through.
pub check_ip_allowlist-store :
    (ip : String) (list : List String)
    → check_ip_allowlist ip list ≡ (if is_nonempty list then check_ip_in_list ip list else true)
unfolding check_ip_allowlist check_ip_in_list
check_ip_allowlist-store ip list = rw (any_entry-any_matches ip list)

check_tool_acl_iff :
    (allowed denied : List String) (tool : String)
    → (check_tool_acl allowed denied tool ≡ none)
      ↔ (Permits allowed tool × (includes tool denied ≡ false))
unfolding check_tool_acl includes
check_tool_acl_iff allowed [] tool = ground arith
check_tool_acl_iff allowed (x ∷ denied) tool = ground arith

check_token_iff :
    (tools : List String) (tool : String) → (check_token tools tool ≡ none) ↔ Permits tools tool
unfolding check_token
check_token_iff tools tool = ground arith

-- The address lies in the allowlist, where both are there.
abbrev pub AddressOk : Option String → List String → Type 0
AddressOk none list = Unit {0}
AddressOk (some ip) list = is_nonempty list ≡ true → check_ip_in_list ip list ≡ true

check_ip_iff :
    (ip : Option String) (list : List String) → (check_ip ip list ≡ none) ↔ AddressOk ip list
unfolding check_ip
check_ip_iff none list = (λ e. tt, λ u. refl)
check_ip_iff (some ip) list = ground (arith, check_ip_allowlist-store ip list)

-- A country code of two letters lies in the allowed countries, where there are any, and not in the
-- denied ones.
abbrev pub CountryOk : Option String → ApiKeyRecord → Type 0
CountryOk none r = Unit {0}
CountryOk (some country) r =
    length (upper (codes country)) ≡ 2
    → (is_nonempty r.allowed_countries ≡ true
        → includes_codes (upper (codes country)) r.allowed_countries ≡ true)
      × (includes_codes (upper (codes country)) r.denied_countries ≡ false)

country_of_two :
    (cc : List ℕ) (allowed denied : List String) (n : ℕ)
    → ((if n == 2
          then (deny_if
                (is_nonempty allowed && not (includes_codes cc allowed))
                (country_not_allowed cc)
              or_next deny_if (is_nonempty denied && includes_codes cc denied) (country_denied cc))
          else none)
        ≡ none)
      ↔ (n ≡ 2
          → (is_nonempty allowed ≡ true → includes_codes cc allowed ≡ true)
            × (includes_codes cc denied ≡ false))
unfolding includes_codes
country_of_two cc allowed [] n = ground arith
country_of_two cc allowed (x ∷ denied) n = ground arith

check_country_iff :
    (country : Option String) (r : ApiKeyRecord)
    → (check_country country r ≡ none) ↔ CountryOk country r
unfolding check_country
check_country_iff none r = (λ e. tt, λ u. refl)
check_country_iff (some country) r =
    country_of_two (upper (codes country)) r.allowed_countries r.denied_countries
      (length (upper (codes country)))

-- What a call needs of the record, the policy and the request, whatever its price.
pub record IsPermitted (policy : Option ResolvedPolicy) (q : Request) (r : ApiKeyRecord)
    : Type 0 where
  pub not_suspended : r.suspended ≡ false
  pub address : AddressOk (given q.client_ip) (access_of r policy).ip_allowlist
  pub country : CountryOk q.country r
  pub tool_allowed : Permits (access_of r policy).allowed_tools q.tool
  pub tool_not_denied : includes q.tool (access_of r policy).denied_tools ≡ false
  pub token : Permits q.token_tools q.tool

or_next-none : (d e : Option Denial) → ((d or_next e) ≡ none) ↔ ((d ≡ none) × (e ≡ none))
or_next-none none e = (λ h. (refl, h), λ h. h.1)
or_next-none (some d) e = (λ h. cc, λ h. h.0)

pub check_access_iff :
    (policy : Option ResolvedPolicy) (q : Request) (r : ApiKeyRecord)
    → (check_access policy q r ≡ none) ↔ IsPermitted policy q r
unfolding check_access
check_access_iff policy q r =
    let access = access_of r policy in
    let ip = check_ip_iff (given q.client_ip) access.ip_allowlist in
    let country = check_country_iff q.country r in
    let acl = check_tool_acl_iff access.allowed_tools access.denied_tools q.tool in
    let token = check_token_iff q.token_tools q.tool in
    (
      λ e. record {
        not_suspended = ground arith;
        address = ip.0 (ground arith);
        country = country.0 (ground arith);
        tool_allowed = (acl.0 (ground arith)).0;
        tool_not_denied = (acl.0 (ground arith)).1;
        token = token.0 (ground arith);
      },
      λ v. ground (
        arith,
        ip.1 v.address,
        country.1 v.country,
        acl.1 (v.tool_allowed, v.tool_not_denied),
        token.1 v.token,
      ),
    )
