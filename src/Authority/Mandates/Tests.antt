-- ===== src/Authority/Mandates/Tests.antt =====
-- Runs of the calls on mandates (packages/authority/src/index.ts), and instances of the theorems
-- about them.
use agentplace.Prelude.{
  ℕ, ◌≡◌, refl, true, false, List, [], ◌∷◌, none, some, throw, ◌>>=◌, ◌>>◌, throw_if, or_throw, All,
}
use agentplace.Text.{codes, trim, to_lower, to_upper, text_eq, eq_text, matches}
use agentplace.Decimal.{units, canonical_decimal}
use agentplace.Authority.Types.{active, revoked, testnet, agent_account}
use agentplace.Authority.Samples.{policy}
use agentplace.Authority.Inputs.{
  capability_id, asset_or_protocol, destination_pattern, folded, unique_strings, set_network,
  networks_from, networks, decimal_text, decimal, text, revoked_mandate_cannot_resurrect,
}
use agentplace.Authority.Normalize.{
  budget, approval_policy, validity, normalize_lists, normalize_limits, assemble, normalize_policy,
}
use agentplace.Authority.Store.{
  Mandate, Store, find_mandate, update, expire_one, expire_mandates, get_mandate,
  validate_references, reread, on_row,
}
use agentplace.Authority.Mandates.{
  CreateMandateInput, to_active, to_paused, creates, revises, sets, revokes_all, Call,
  create_transaction, create_input, created_or_fail, create_from, create_mandate, revised,
  revise_row, revise_mandate, transition, activation_checks, with_status, set_row, set_joined,
  set_mandate_status, revoke_one, revoke_all_mandates, step, run,
}
use agentplace.Authority.Mandates.Invariant.{IsSound, run-IsSound}
use agentplace.Authority.Mandates.Revoked.{run-revoked}

-- All that a run computes with.
mandate_calls : Unit {0}
unfolding ◌>>=◌ ◌>>◌ throw_if or_throw trim to_lower to_upper eq_text matches units
    canonical_decimal capability_id asset_or_protocol destination_pattern folded unique_strings
    set_network networks_from networks decimal_text decimal budget approval_policy validity
    normalize_lists normalize_limits text assemble normalize_policy find_mandate update expire_one
    expire_mandates get_mandate validate_references create_transaction create_input reread
    created_or_fail create_from create_mandate revised revise_row on_row revise_mandate transition
    activation_checks with_status set_row set_joined set_mandate_status revoke_one
    revoke_all_mandates step run
mandate_calls = tt

abbrev empty : Store
empty = record {
  mandates = [];
  workers = codes "w-1" ∷ [];
  accounts =
      record { id = codes "acc-1"; mode = agent_account; has_left = false; status_removed = false }
      ∷ [];
  capabilities = codes "asset.transfer" ∷ codes "asset.read" ∷ [];
  events = [];
}

abbrev order : CreateMandateInput
order = record {
  id = none;
  worker_id = codes "w-1";
  account_id = codes "acc-1";
  environment = testnet;
  activate = true;
  policy = policy;
}

abbrev morning : List (ℕ × Call)
morning =
    (1000, creates order (codes "m1"))
    ∷ (1100, sets (codes "m1") to_paused)
    ∷ (1200, revises (codes "m1") 1 policy)
    ∷ (1300, sets (codes "m1") to_active)
    ∷ []

-- The one mandate after the morning's calls, and after it is revoked.
abbrev standing : Mandate
standing = record {
  id = codes "m1";
  worker_id = codes "w-1";
  account_id = codes "acc-1";
  environment = testnet;
  status = active;
  current_revision = 2;
  policy = record policy { valid_from = some (some 1200) };
  past = (1, record policy { valid_from = some (some 1000) }) ∷ [];
  activated_at = some 1000;
  paused_at = some 1100;
  expired_at = none;
  revoked_at = none;
}

run-morning : (run morning empty).mandates ≡ standing ∷ []
unfolding mandate_calls
run-morning = refl

abbrev ended : Mandate
ended = record standing { status = revoked; revoked_at = some 1400 }

abbrev after : Store
after = record empty { mandates = ended ∷ [] }

revoked_run :
    (run ((1400, revokes_all none) ∷ []) (record empty { mandates = standing ∷ [] })).mandates
    ≡ ended ∷ []
unfolding mandate_calls
revoked_run = refl

refused_run :
    (set_mandate_status (codes "m1") to_active 1500 after).1
    ≡ throw revoked_mandate_cannot_resurrect
unfolding mandate_calls
refused_run = refl

run-IsSound_example : All IsSound (run morning empty).mandates
run-IsSound_example = run-IsSound morning empty tt

found_after : find_mandate (codes "m1") after.mandates ≡ some ended
unfolding mandate_calls
found_after = refl

run-revoked_example :
    find_mandate
      (codes "m1")
      (run
        ((1500, sets (codes "m1") to_active) ∷ (1600, revises (codes "m1") 2 policy) ∷ [])
        after).mandates
    ≡ some ended
run-revoked_example =
    run-revoked (codes "m1") ended refl
      ((1500, sets (codes "m1") to_active) ∷ (1600, revises (codes "m1") 2 policy) ∷ []) after
      found_after
