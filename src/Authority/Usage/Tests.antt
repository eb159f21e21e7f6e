-- ===== src/Authority/Usage/Tests.antt =====
-- Runs of evaluations and of their counting (packages/authority/src/index.ts), and instances of the
-- theorems about them.
use agentplace.Prelude.{
  ℕ, ◌≡◌, ◌≤◌, ◌*◌, ◌<◌, ◌+◌, ◌%◌, ◌/◌, ◌⊎◌, refl, true, List, [], ◌∷◌, none, some, ok, throw,
  ◌>>=◌, ◌>>◌, throw_if, or_throw, any, arith,
}
use agentplace.Text.{Text, codes, trim, trim_start, text_eq, eq_text}
use agentplace.Decimal.{
  units, canonical_decimal, from_units, add_decimal, greater_than, split_point, before_point,
  strip_zeros, pad_start, to_text, big_int, digits_from, read_digits, zeros,
}
use agentplace.Authority.Types.{
  active, testnet, execute, allowed, ActionEnvelope, write, week, month,
}
use agentplace.Authority.Samples.{policy}
use agentplace.Authority.Inputs.{
  authority_period_budget_exceeded_at_record, authority_decision_not_found,
}
use agentplace.Authority.Store.{Mandate, find_mandate}
use agentplace.Authority.Period.{period_start, get_utc_date, get_utc_day, week_offset, day_length}
use agentplace.Authority.Period.Bounds.{most_days, period_start-bounds}
use agentplace.Authority.Numeric.Postgres.{postgres, postgres-IsNumeric}
use agentplace.Authority.Decisions.{
  DecisionRow, BudgetUsage, AuthorityTables, Columns, find_decision, spent_since,
}
use agentplace.Authority.Usage.{
  AuthorityCall, pauses, records, recordable_columns, current_mandate, check_usage_budget,
  record_new, record_once, record_authority_usage, counts, run_authority,
}
use agentplace.Authority.Usage.Within.{IsCounted}
use agentplace.Authority.Usage.Counted.{record_authority_usage-IsCounted}
use agentplace.Authority.Usage.Once.{IsAccounted, run_authority-IsAccounted}

-- Thursday, the 15th of February 2024, at noon.
abbrev noon : ℕ
noon = 19768 * day_length + 43200000

february : get_utc_date 19768 ≡ 15
unfolding get_utc_date
february = refl

leap_day : get_utc_date 19782 ≡ 29
unfolding get_utc_date
leap_day = refl

month_start : period_start month noon ≡ 19754 * day_length
unfolding period_start get_utc_date
month_start = refl

week_start : period_start week noon ≡ 19765 * day_length
unfolding period_start get_utc_day week_offset
week_start = refl

period_start-bounds_example :
    (period_start week noon % day_length ≡ 0)
    × (period_start week noon ≤ noon)
    × (noon < period_start week noon + most_days week * day_length)
    × (week ≡ week → get_utc_day (period_start week noon / day_length) ≡ 1)
period_start-bounds_example = period_start-bounds week noon (omega arith)

abbrev mandate : Mandate
mandate = record {
  id = codes "m1";
  worker_id = codes "w-1";
  account_id = codes "acc-1";
  environment = testnet;
  status = active;
  current_revision = 2;
  policy = policy;
  past = [];
  activated_at = some 1000;
  paused_at = none;
  expired_at = none;
  revoked_at = none;
}

abbrev envelope : ActionEnvelope
envelope = record {
  worker_id = codes "w-1";
  account_id = codes "acc-1";
  capability_id = codes "asset.transfer";
  operation = execute;
  environment = testnet;
  network = record { family = codes "eip155"; network_id = codes "base" };
  asset = some (codes "USDC");
  protocol = none;
  destination = some (codes "0xabc");
  value_usd = some (codes "12.5");
  borrowing = none;
  leverage_multiplier = none;
  reason = none;
  job_id = none;
}

abbrev decision : Text → ℕ → DecisionRow
decision id value = record {
  id = id;
  mandate_id = some (codes "m1");
  mandate_revision = some 2;
  worker_id = codes "w-1";
  account_id = codes "acc-1";
  environment = testnet;
  action_envelope = envelope;
  decision = allowed;
  reasons = [];
  period_spent_before_usd = codes "0";
  evaluated_value_usd = some value;
  created_at = noon;
}

-- One decision of 12.5 dollars and one of 90, under a budget of 100 dollars a day.
abbrev tables : AuthorityTables
tables = record {
  store = record {
    mandates = mandate ∷ [];
    workers = [];
    accounts = [];
    capabilities = [];
    events = [];
  };
  decisions = decision (codes "d1") 1250000000 ∷ decision (codes "d2") 9000000000 ∷ [];
  usages = [];
  controls = [];
}

abbrev first_usage : BudgetUsage
first_usage = record {
  mandate_id = codes "m1";
  mandate_revision = 2;
  authority_decision_id = codes "d1";
  value_usd = 1250000000;
  occurred_at = noon;
}

abbrev counted_tables : AuthorityTables
counted_tables = record tables { usages = first_usage ∷ [] }

-- All that a counting computes with.
usage_calls : Unit {0}
unfolding ◌>>=◌ ◌>>◌ throw_if or_throw trim trim_start eq_text units canonical_decimal from_units
    add_decimal greater_than split_point before_point strip_zeros pad_start to_text big_int
    digits_from read_digits zeros find_mandate find_decision spent_since period_start
    recordable_columns current_mandate check_usage_budget record_new record_once
    record_authority_usage
usage_calls = tt

counts_first : record_authority_usage postgres (codes "d1") noon tables ≡ ok counted_tables
unfolding usage_calls
counts_first = refl

refuses_second :
    record_authority_usage postgres (codes "d2") noon counted_tables
    ≡ throw authority_period_budget_exceeded_at_record
unfolding usage_calls
refuses_second = refl

refuses_unknown :
    record_authority_usage postgres (codes "d3") noon counted_tables
    ≡ throw authority_decision_not_found
unfolding usage_calls
refuses_unknown = refl

record_authority_usage-IsCounted_example :
    ((any (counts (codes "d1")) tables.usages ≡ true) × (counted_tables ≡ tables))
    ⊎ IsCounted (codes "d1") noon tables counted_tables
record_authority_usage-IsCounted_example =
    record_authority_usage-IsCounted postgres (codes "d1") noon tables counted_tables
      postgres-IsNumeric counts_first

abbrev columns : Columns
columns = record { updated_at = λ m. 0; revision_created_at = λ m. 0; effect = λ t. some write }

abbrev calls : List (ℕ × AuthorityCall)
calls =
    (noon, records (codes "d1")) ∷ (noon, pauses testnet true) ∷ (noon, records (codes "d1")) ∷ []

run_authority-IsAccounted_example : IsAccounted (run_authority postgres columns calls tables)
run_authority-IsAccounted_example =
    run_authority-IsAccounted postgres columns calls tables (record { once = tt; granted = tt })
