-- ===== src/Authority/Mandates.antt =====
-- The life of the mandates of one owner, packages/authority/src/index.ts: `createMandate`,
-- `reviseMandate`, `setMandateStatus`, `revokeAllMandates`. The tables that the queries read
-- and write are the record of the module Store; a transaction that throws leaves the record as it was.
-- One call sees one clock value `now`, for the program's and the database's clock.
pub mod Keeps
pub mod Rows
pub mod Invariant
pub mod Revoked
mod Tests
use agentplace.Prelude.{
  ℕ, suc, ◌+◌, ◌≡◌, Bool, true, false, not, ◌&&◌, ◌||◌, List, [], ◌∷◌, ◌++◌, Option, none, some, ok,
  throw, ◌>>=◌, ◌>>◌, throw_if, or_throw, ◌==◌, if◌then◌else◌, length, map, dedup, filter, find,
  includes, any, ◌===◌,
}
use agentplace.Text.{Text, codes, text_eq, is_empty}
use agentplace.Authority.Types.{
  MandateStatus, draft, active, paused, expired, revoked, AuthorityEnvironment, environment_eq,
  WalletMode, agent_account, MandatePolicyInput, is_act, is_allow_list,
}
use agentplace.Authority.Inputs.{
  AuthorityError, Outcome, invalid_mandate_id, invalid_mandate_worker, invalid_mandate_account,
  mandate_worker_not_owned, mandate_account_not_owned, mandate_account_not_available,
  unknown_mandate_capability, act_mandate_requires_agent_account, revoked_mandate_cannot_resurrect,
  mandate_revision_conflict, mandate_expired, act_mandate_asset_allowlist_required,
  act_mandate_hard_limits_required, act_mandate_expiry_required, invalid_mandate_status_transition,
  duplicate_key, mandate_create_failed, text, is_present,
}
use agentplace.Authority.Normalize.{is_other_account, ends_by, normalize_policy}
use agentplace.Authority.Store.{
  Mandate, Account, EventType, mandate_has_expired, mandate_created, mandate_activated,
  mandate_revised, mandate_has_paused, mandate_has_revoked, authority_revoke_all, Event, Store,
  event, find_mandate, update, is_standing, runs_out, or_now, expire_one, expire_mandates,
  get_mandate, validate_references, reread, is_revoked, on_row,
}

pub record CreateMandateInput : Type 0 where
  pub id : Option Text
  pub worker_id : Text
  pub account_id : Text
  pub environment : AuthorityEnvironment
  pub activate : Bool  -- the requested status is `ACTIVE`, not `DRAFT`
  pub policy : MandatePolicyInput

-- `INSERT INTO mandate`, which fails on an id that is taken; the row is a draft at first, and
-- the second `UPDATE` makes it active.
abbrev pub new_mandate : CreateMandateInput → Text → MandatePolicyInput → ℕ → Mandate
new_mandate input id policy now = record {
  id = id;
  worker_id = input.worker_id;
  account_id = input.account_id;
  environment = input.environment;
  status = if input.activate then active else draft;
  current_revision = 1;
  policy = policy;
  past = [];
  activated_at = if input.activate then some now else none;
  paused_at = none;
  expired_at = none;
  revoked_at = none;
}

unfoldable pub create_transaction : CreateMandateInput → Text → ℕ → Store → Outcome Store
create_transaction input id now s = do
  mode ← validate_references s input.worker_id input.account_id input.policy
  policy ← normalize_policy input.policy (some mode) input.activate now
  throw_if (is_present (find_mandate id s.mandates)) duplicate_key
  let m = new_mandate input id policy now
  ok (record s {
    mandates = m ∷ s.mandates;
    events = event (if input.activate then mandate_activated else mandate_created) m ∷ s.events;
  })

-- The arguments, trimmed and bounded; `fresh` is the random id that is used where none is given.
unfoldable pub create_input : CreateMandateInput → Text → Outcome (CreateMandateInput × Text)
create_input input fresh = do
  id ← elim input.id [
    | none ↦ ok fresh
    | some t ↦ if is_empty t then ok fresh else text t 128 invalid_mandate_id
  ]
  worker_id ← text input.worker_id 128 invalid_mandate_worker
  account_id ← text input.account_id 160 invalid_mandate_account
  ok (record input { worker_id = worker_id; account_id = account_id }, id)

unfoldable pub created_or_fail : Store × Outcome (Option Mandate) → Store × Outcome (Option Mandate)
created_or_fail (s, ok none) = (s, throw mandate_create_failed)
created_or_fail (s, r) = (s, r)

unfoldable pub create_from :
    Outcome (CreateMandateInput × Text) → ℕ → Store → Store × Outcome (Option Mandate)
create_from (throw e) now s = (s, throw e)
create_from (ok (input, id)) now s =
    created_or_fail (reread id now s (create_transaction input id now s))

-- `createMandate`
unfoldable pub create_mandate :
    CreateMandateInput → Text → ℕ → Store → Store × Outcome (Option Mandate)
create_mandate input fresh now s = create_from (create_input input fresh) now s

-- The row after a revision; an expired mandate is a draft again.
unfoldable pub revised : MandatePolicyInput → Mandate → Mandate
revised policy m = record m {
  status = elim m.status [ expired ↦ draft | other ↦ other ];
  current_revision = suc m.current_revision;
  policy = policy;
  past = (m.current_revision, m.policy) ∷ m.past;
  expired_at = elim m.status [ draft ↦ none | expired ↦ none | _ ↦ m.expired_at ];
}

unfoldable pub revise_row : ℕ → MandatePolicyInput → ℕ → Store → Mandate → Outcome Store
revise_row expected p now s m = do
  throw_if (is_revoked m.status) revoked_mandate_cannot_resurrect
  throw_if (not (m.current_revision == expected)) mandate_revision_conflict
  mode ← validate_references s m.worker_id m.account_id p
  policy ← normalize_policy p (some mode) (is_standing m.status) now
  ok (record s {
    mandates = update m.id (revised policy) s.mandates;
    events = event mandate_revised (revised policy m) ∷ s.events;
  })

-- `reviseMandate`
unfoldable pub revise_mandate :
    Text → ℕ → MandatePolicyInput → ℕ → Store → Store × Outcome (Option Mandate)
revise_mandate id expected p now s =
    reread id now s (on_row (find_mandate id s.mandates) s (revise_row expected p now s))

-- The status that `setMandateStatus` is asked for.
pub data NextStatus : Type 0 where
  to_active to_paused to_revoked : NextStatus

abbrev pub is_to_active : NextStatus → Bool
is_to_active to_active = true
is_to_active _ = false

-- The transitions that the state machine allows.
unfoldable pub transition : MandateStatus → NextStatus → Bool
transition draft to_active = true
transition active to_paused = true
transition active to_revoked = true
transition paused to_active = true
transition paused to_revoked = true
transition expired to_revoked = true
transition _ _ = false

-- What a mandate of level ACT WITHIN MANDATE needs to become active.
unfoldable pub activation_checks : WalletMode → MandatePolicyInput → Outcome (Unit {0})
activation_checks mode p = do
  throw_if (is_other_account (some mode)) act_mandate_requires_agent_account
  throw_if (not (is_allow_list p.asset_scope) || length p.allowed_assets == 0)
      act_mandate_asset_allowlist_required
  throw_if (not (is_present p.per_action_limit_usd) || not (is_present p.period_budget))
      act_mandate_hard_limits_required
  throw_if (not (is_present p.valid_until)) act_mandate_expiry_required
  ok tt

unfoldable pub with_status : NextStatus → ℕ → Mandate → Mandate
with_status to_active now m = record m { status = active; activated_at = or_now m.activated_at now }
with_status to_paused now m = record m { status = paused; paused_at = some now }
with_status to_revoked now m = record m { status = revoked; revoked_at = some now }

abbrev pub status_event : NextStatus → EventType
status_event to_active = mandate_activated
status_event to_paused = mandate_has_paused
status_event to_revoked = mandate_has_revoked

unfoldable pub set_row : NextStatus → ℕ → Store → Mandate → WalletMode → Outcome Store
set_row next now s m mode = do
  throw_if (is_revoked m.status) revoked_mandate_cannot_resurrect
  throw_if (ends_by m.policy.valid_until now) mandate_expired
  (if is_to_active next && is_act m.policy.authority_level
      then activation_checks mode m.policy
      else ok tt)
  throw_if (not (transition m.status next)) invalid_mandate_status_transition
  ok (record s {
    mandates = update m.id (with_status next now) s.mandates;
    events = event (status_event next) m ∷ s.events;
  })

-- The query joins the account, removed or not, to the mandate; without it there is no row.
unfoldable pub set_joined : NextStatus → ℕ → Store → Mandate → Outcome Store
set_joined next now s m =
    on_row (find (λ (a : Account). a.id === m.account_id) s.accounts) s
      λ a. set_row next now s m a.mode

-- `setMandateStatus`, which expires mandates first.
unfoldable pub set_mandate_status : Text → NextStatus → ℕ → Store → Store × Outcome (Option Mandate)
set_mandate_status id next now s =
    let s' = expire_mandates now s in
    reread id now s' (on_row (find_mandate id s'.mandates) s' (set_joined next now s'))

-- `revokeAllMandates`, of one environment or of all.
abbrev pub in_environment : Option AuthorityEnvironment → Mandate → Bool
in_environment none m = true
in_environment (some e) m = m.environment === e

abbrev pub to_revoke : Option AuthorityEnvironment → Mandate → Bool
to_revoke e m = is_standing m.status && in_environment e m

unfoldable pub revoke_one : Option AuthorityEnvironment → ℕ → Mandate → Mandate
revoke_one e now m =
    if to_revoke e m then record m { status = revoked; revoked_at = some now } else m

abbrev pub environment_word : Option AuthorityEnvironment → Text
environment_word none = codes "all"
environment_word (some AuthorityEnvironment.mainnet) = codes "mainnet"
environment_word (some AuthorityEnvironment.testnet) = codes "testnet"

unfoldable pub revoke_all_mandates : Option AuthorityEnvironment → ℕ → Store → Store × ℕ
revoke_all_mandates e now s = (
  record s {
    mandates = map (revoke_one e now) s.mandates;
    events =
        record {
          event_type = authority_revoke_all;
          object_id = environment_word e;
          revision = none;
        }
          ∷ map (event mandate_has_revoked) (filter (to_revoke e) s.mandates)
        ++ s.events;
  },
  length (filter (to_revoke e) s.mandates),
)

-- Any call of the package that changes mandates.
pub data Call : Type 0 where
  creates : CreateMandateInput → Text → Call
  revises : Text → ℕ → MandatePolicyInput → Call
  sets : Text → NextStatus → Call
  revokes_all : Option AuthorityEnvironment → Call
  expires : Call

unfoldable pub step : ℕ → Call → Store → Store
step now (creates input fresh) s = (create_mandate input fresh now s).0
step now (revises id expected p) s = (revise_mandate id expected p now s).0
step now (sets id next) s = (set_mandate_status id next now s).0
step now (revokes_all e) s = (revoke_all_mandates e now s).0
step now expires s = expire_mandates now s

-- Calls one after another, each with the time at which it is made.
unfoldable pub run : List (ℕ × Call) → Store → Store
run [] s = s
run ((now, c) ∷ cs) s = run cs (step now c s)
