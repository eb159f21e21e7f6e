-- ===== src/Authority/Inputs.antt =====
-- The errors of packages/authority/src/index.ts and the checks of its inputs: `text`,
-- `uniqueStrings`, `networks` and `decimal`.
use agentplace.Prelude.{
  ℕ, Bool, true, false, not, ◌&&◌, ◌||◌, List, [], ◌∷◌, ◌++◌, Option, none, some, Result, ok, throw,
  ◌>>=◌, ◌>>◌, throw_if, ltb, ◌==◌, if◌then◌else◌, length, dedup, ◌===◌,
}
use agentplace.Text.{
  Text, codes, text_eq, trim, to_lower, is_empty, is_digit, is_lower, is_letter, matches,
}
use agentplace.Decimal.{DecimalError, units, canonical_decimal}
use agentplace.Authority.Types.{NetworkPolicyRef}

-- The errors of the package, in upper case in the source.
pub data AuthorityError : Type 0 where
  invalid_mandate_capabilities mandate_capability_required invalid_mandate_networks : AuthorityError
  invalid_mandate_assets invalid_mandate_protocols invalid_mandate_destinations : AuthorityError
  act_mandate_asset_allowlist_required act_mandate_requires_agent_account : AuthorityError
  invalid_capital_limit invalid_per_action_limit invalid_period_budget : AuthorityError
  invalid_service_budget act_mandate_hard_limits_required invalid_approval_threshold :
      AuthorityError
  invalid_mandate_validity mandate_expired act_mandate_expiry_required : AuthorityError
  invalid_mandate_title invalid_mandate_purpose invalid_mandate_change_summary : AuthorityError
  invalid_mandate_id invalid_mandate_worker invalid_mandate_account : AuthorityError
  mandate_worker_not_owned mandate_account_not_owned unknown_mandate_capability : AuthorityError
  revoked_mandate_cannot_resurrect mandate_revision_conflict : AuthorityError
  invalid_mandate_status_transition duplicate_key decimal_syntax : AuthorityError
  authority_decision_not_found authority_usage_not_recordable authority_decision_stale :
      AuthorityError
  mandate_create_failed mandate_account_not_available : AuthorityError
  authority_period_budget_required authority_period_budget_exceeded_at_record : AuthorityError
  invalid_authority_envelope invalid_authority_value invalid_authority_leverage : AuthorityError
  check_violation : AuthorityError  -- of PostgreSQL

abbrev pub Outcome {ℓ} : Type ℓ → Type ℓ
Outcome A = Result AuthorityError A

-- `text(value, max, code)`
unfoldable pub text : Text → ℕ → AuthorityError → Outcome Text
text value most code =
    let normalized = trim value in
    if is_empty normalized || ltb most (length normalized) then throw code else ok normalized

-- The character classes of the patterns: lower case, and any letters, with the marks allowed
-- behind the first place.
abbrev pub id_first : ℕ → Bool
id_first c = is_lower c || is_digit c

abbrev pub id_rest : ℕ → Bool
id_rest c = id_first c || c == b'.' || c == b'_' || c == b':' || c == b'-'

abbrev pub name_first : ℕ → Bool
name_first c = is_letter c || is_digit c

abbrev pub name_rest : ℕ → Bool
name_rest c = name_first c || c == b'.' || c == b'_' || c == b':' || c == b'/' || c == b'-'

-- `CAPABILITY_ID` and `NETWORK_PART`, `ASSET_OR_PROTOCOL`, `DESTINATION`
unfoldable pub capability_id : Text → Bool
capability_id = matches id_first id_rest 127

unfoldable pub asset_or_protocol : Text → Bool
asset_or_protocol = matches name_first name_rest 127

unfoldable pub destination_pattern : Text → Bool
destination_pattern = matches name_first name_rest 255

-- The loop of `uniqueStrings`: each value trimmed, tested and put in its case.
unfoldable pub folded :
    (Text → Text) → (Text → Bool) → AuthorityError → List Text → Outcome (List Text)
folded fold pattern code [] = ok []
folded fold pattern code (raw ∷ values) = do
  throw_if (not (pattern (trim raw))) code
  rest ← folded fold pattern code values
  ok (fold (trim raw) ∷ rest)

-- `uniqueStrings(values, pattern, code)` with the case that `uppercase` chooses.
unfoldable pub unique_strings :
    (Text → Text) → (Text → Bool) → AuthorityError → List Text → Outcome (List Text)
unique_strings fold pattern code values = do
  throw_if (ltb 128 (length values)) code
  out ← folded fold pattern code values
  ok (dedup out)

abbrev pub network_key : NetworkPolicyRef → Text
network_key n = n.family ++ codes ":" ++ n.network_id

-- `out.set(key, value)` on a `Map`: a present key keeps its place.
unfoldable pub set_network : NetworkPolicyRef → List NetworkPolicyRef → List NetworkPolicyRef
set_network n [] = n ∷ []
set_network n (x ∷ out) = if network_key x === network_key n then n ∷ out else x ∷ set_network n out

unfoldable pub networks_from :
    List NetworkPolicyRef → List NetworkPolicyRef → Outcome (List NetworkPolicyRef)
networks_from out [] = ok out
networks_from out (raw ∷ values) =
    let n : NetworkPolicyRef = record {
      family = to_lower (trim raw.family);
      network_id = to_lower (trim raw.network_id);
    } in
    let rest = networks_from (set_network n out) values in
    if capability_id n.family && capability_id n.network_id
    then rest
    else throw invalid_mandate_networks

-- `networks(values)`
unfoldable pub networks : List NetworkPolicyRef → Outcome (List NetworkPolicyRef)
networks values = do
  throw_if (length values == 0 || ltb 32 (length values)) invalid_mandate_networks
  networks_from [] values

-- `units(normalized) <= 0n`, or no amount at all.
abbrev pub not_positive : Result DecimalError ℕ → Bool
not_positive (ok n) = n == 0
not_positive (throw _) = true

abbrev pub syntax {ℓ} : {A : Type ℓ} → Result DecimalError A → Outcome A
syntax (ok a) = ok a
syntax (throw _) = throw decimal_syntax

unfoldable pub decimal_text : Text → AuthorityError → Outcome Text
decimal_text value code =
    if not_positive (units (trim value))
    then throw code
    else syntax (canonical_decimal (trim value))

-- `decimal(value, code)`
unfoldable pub decimal : Option Text → AuthorityError → Outcome (Option Text)
decimal none code = ok none
decimal (some value) code = decimal_text value code >>= λ d. ok (some d)

abbrev pub is_present {ℓ} : {A : Type ℓ} → Option A → Bool
is_present none = false
is_present (some _) = true
