-- ===== src/Authority/Decisions/Tests.antt =====
-- A run of `evaluateAuthority` (packages/authority/src/index.ts), and an instance of the theorem
-- about what it allows.
use agentplace.Prelude.{
  ◌≡◌, refl, false, [], ◌∷◌, none, some, ok, ◌>>=◌, ◌>>◌, throw_if, or_throw, sort_by, insert_by,
  or_else,
}
use agentplace.Text.{codes, trim, trim_start, to_lower, to_upper, text_eq, eq_text, matches}
use agentplace.Decimal.{
  units, canonical_decimal, from_units, add_decimal, greater_than, split_point, before_point,
  strip_zeros, pad_start, to_text, big_int, digits_from, read_digits, zeros,
}
use agentplace.Authority.Types.{
  active, testnet, agent_account, execute, allowed, ActionEnvelope, economic_write, within_mandate,
}
use agentplace.Authority.Samples.{policy}
use agentplace.Authority.Inputs.{
  text, capability_id, asset_or_protocol, destination_pattern, folded, unique_strings, set_network,
  networks_from, networks, decimal_text, decimal,
}
use agentplace.Authority.Envelope.{
  first_of, on_some, one_string, envelope_text, normalize_subject, normalize_details,
  normalize_envelope,
}
use agentplace.Authority.Evaluate.Checks
use agentplace.Authority.Evaluate.Decide
use agentplace.Authority.Store.{Mandate, find_mandate, expire_one, expire_mandates, get_mandate}
use agentplace.Authority.Period.{period_start}
use agentplace.Authority.Numeric.Postgres.{postgres}
use agentplace.Authority.Decisions.{
  AuthorityTables, Columns, DurableAuthorityDecision, is_paused, get_authority_control_state,
  spent_since, mandate_for, read_mandate, mode_of, account_mode, snapshot_of, find_decision,
  spent_under, period_spent, stored_value, decide, decided, evaluate_normalized, evaluate_authority,
}
use agentplace.Authority.Decisions.Autonomous.{IsAuthorized, evaluate_authority-IsAuthorized}

abbrev mandate : Mandate
mandate = record {
  id = codes "m1";
  worker_id = codes "w-1";
  account_id = codes "acc-1";
  environment = testnet;
  status = active;
  current_revision = 2;
  policy = record policy { valid_from = some (some 1000) };
  past = [];
  activated_at = some 1000;
  paused_at = none;
  expired_at = none;
  revoked_at = none;
}

abbrev tables : AuthorityTables
tables = record {
  store = record {
    mandates = mandate ∷ [];
    workers = [];
    accounts =
        record {
          id = codes "acc-1";
          mode = agent_account;
          has_left = false;
          status_removed = false;
        }
        ∷ [];
    capabilities = [];
    events = [];
  };
  decisions = [];
  usages = [];
  controls = [];
}

abbrev columns : Columns
columns = record {
  updated_at = λ m. 0;
  revision_created_at = λ m. 0;
  effect = λ t. some economic_write;
}

abbrev asked : ActionEnvelope
asked = record {
  worker_id = codes " w-1 ";
  account_id = codes "acc-1";
  capability_id = codes "Asset.transfer";
  operation = execute;
  environment = testnet;
  network = record { family = codes "EIP155"; network_id = codes "Base" };
  asset = some (codes "usdc");
  protocol = none;
  destination = some (codes "0xABC");
  value_usd = some (codes "12.50");
  borrowing = none;
  leverage_multiplier = none;
  reason = none;
  job_id = none;
}

abbrev answer : DurableAuthorityDecision
answer = record {
  id = codes "d1";
  evaluation = record {
    decision = allowed;
    reasons =
        Checks.reason within_mandate
          "The proposed action is inside the active deterministic mandate."
        ∷ [];
    period_spent_before_usd = codes "0";
  };
  mandate_id = some (codes "m1");
  mandate_revision = some 2;
  worker_id = codes "w-1";
  account_id = codes "acc-1";
  environment = testnet;
  action_envelope = record asked {
    worker_id = codes "w-1";
    capability_id = codes "asset.transfer";
    network = record { family = codes "eip155"; network_id = codes "base" };
    asset = some (codes "USDC");
    destination = some (codes "0xabc");
    value_usd = some (codes "12.5");
  };
  evaluated_value_usd = some (codes "12.5");
  created_at = 5000;
}

allowed_run :
    (evaluate_authority postgres columns false asked (codes "d1") 5000 tables).1 ≡ ok answer
unfolding Checks.◌>>◌ Checks.deny_if Checks.lift Checks.matches_network Checks.outside_scope
    Checks.normalized_membership Checks.exceeds Checks.leverage_refused Checks.check_status
    Checks.check_coverage Checks.check_scopes Checks.check_operation Checks.value_of Checks.over
    Checks.check_budget Checks.check_limits Decide.push_if Decide.above_threshold Decide.is_new
    Decide.approvals Decide.collect Decide.review_mandate Decide.review Decide.settle
    Decide.evaluate_authority_policy ◌>>=◌ ◌>>◌ throw_if or_throw sort_by insert_by or_else trim
    trim_start to_lower to_upper eq_text matches units canonical_decimal from_units add_decimal
    greater_than split_point before_point strip_zeros pad_start to_text big_int digits_from
    read_digits zeros text capability_id asset_or_protocol destination_pattern folded unique_strings
    set_network networks_from networks decimal_text decimal first_of on_some one_string
    envelope_text normalize_subject normalize_details normalize_envelope find_mandate expire_one
    expire_mandates get_mandate period_start is_paused get_authority_control_state spent_since
    mandate_for read_mandate mode_of account_mode snapshot_of find_decision spent_under period_spent
    stored_value decide decided evaluate_normalized evaluate_authority
allowed_run = refl

evaluate_authority-IsAuthorized_example :
    IsAuthorized postgres columns false 5000 tables
      (evaluate_authority postgres columns false asked (codes "d1") 5000 tables).0
      answer
evaluate_authority-IsAuthorized_example =
    evaluate_authority-IsAuthorized postgres columns false asked (codes "d1") 5000 tables answer
      allowed_run refl refl
