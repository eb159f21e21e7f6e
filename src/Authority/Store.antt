-- ===== src/Authority/Store.antt =====
-- The tables of one owner that the mandates of packages/authority/src/index.ts stand in, and what
-- the calls on them share: `expireMandates`, `getMandate`, `validateMandateReferences`.
use agentplace.Prelude.{
  ℕ, Bool, true, false, not, ◌&&◌, List, [], ◌∷◌, ◌++◌, Option, none, some, ok, throw, ◌>>=◌, ◌>>◌,
  throw_if, or_throw, ◌==◌, if◌then◌else◌, length, map, dedup, filter, find, includes, ◌===◌,
}
use agentplace.Text.{Text, text_eq}
use agentplace.Authority.Types.{
  MandateStatus, active, paused, expired, revoked, AuthorityEnvironment, environment_eq, WalletMode,
  MandatePolicyInput, is_act,
}
use agentplace.Authority.Inputs.{
  Outcome, mandate_worker_not_owned, mandate_account_not_owned, mandate_account_not_available,
  unknown_mandate_capability, act_mandate_requires_agent_account,
}
use agentplace.Authority.Normalize.{is_other_account, ends_by}

-- A row of `mandate`, with the policy of its current revision and those of the earlier ones
-- (`mandate_revision`), newest first.
pub record Mandate : Type 0 where
  pub id : Text
  pub worker_id : Text
  pub account_id : Text
  pub environment : AuthorityEnvironment
  pub status : MandateStatus
  pub current_revision : ℕ
  pub policy : MandatePolicyInput
  pub past : List (ℕ × MandatePolicyInput)
  pub activated_at : Option ℕ
  pub paused_at : Option ℕ
  pub expired_at : Option ℕ
  pub revoked_at : Option ℕ

-- A row of `wallet_resource`.
pub record Account : Type 0 where
  pub id : Text
  pub mode : WalletMode
  pub has_left : Bool  -- `removed_at` is set
  pub status_removed : Bool

pub data EventType : Type 0 where
  mandate_has_expired mandate_created mandate_activated mandate_revised : EventType
  mandate_has_paused mandate_has_revoked authority_revoke_all : EventType

-- A row of `domain_event`: its type, its object and the revision in its metadata.
pub record Event : Type 0 where
  pub event_type : EventType
  pub object_id : Text
  pub revision : Option ℕ

-- The rows of one owner; `workers` holds the ids of the Workers that are not removed.
pub record Store : Type 0 where
  pub mandates : List Mandate
  pub workers : List Text
  pub accounts : List Account
  pub capabilities : List Text
  pub events : List Event  -- newest first

abbrev pub event : EventType → Mandate → Event
event t m = record { event_type = t; object_id = m.id; revision = some m.current_revision }

unfoldable pub find_mandate : Text → List Mandate → Option Mandate
find_mandate id [] = none
find_mandate id (m ∷ ms) = let rest = find_mandate id ms in if m.id === id then some m else rest

-- `UPDATE mandate … WHERE id=…`; the id is the primary key, so one row at most is changed.
unfoldable pub update : Text → (Mandate → Mandate) → List Mandate → List Mandate
update id f [] = []
update id f (m ∷ ms) = if m.id === id then f m ∷ ms else m ∷ update id f ms

abbrev pub is_standing : MandateStatus → Bool
is_standing active = true
is_standing paused = true
is_standing _ = false

-- `expireMandates`
abbrev pub runs_out : ℕ → Mandate → Bool
runs_out now m = is_standing m.status && ends_by m.policy.valid_until now

abbrev pub or_now : Option ℕ → ℕ → Option ℕ
or_now none now = some now
or_now (some t) now = some t

unfoldable pub expire_one : ℕ → Mandate → Mandate
expire_one now m =
    if runs_out now m
    then record m { status = expired; expired_at = or_now m.expired_at now }
    else m

unfoldable pub expire_mandates : ℕ → Store → Store
expire_mandates now s = record s {
  mandates = map (expire_one now) s.mandates;
  events = map (event mandate_has_expired) (filter (runs_out now) s.mandates) ++ s.events;
}

-- `getMandate`
unfoldable pub get_mandate : Text → ℕ → Store → Store × Option Mandate
get_mandate id now s = let s' = expire_mandates now s in (s', find_mandate id s'.mandates)

-- `validateMandateReferences`: the account's mode, where Worker, account and capabilities are
-- the owner's and known.
unfoldable pub validate_references : Store → Text → Text → MandatePolicyInput → Outcome WalletMode
validate_references s worker_id account_id p = do
  throw_if (not (includes s.workers worker_id)) mandate_worker_not_owned
  account ←
      or_throw (find (λ (a : Account). a.id === account_id && not a.has_left) s.accounts)
        mandate_account_not_owned
  throw_if account.status_removed mandate_account_not_available
  throw_if (is_act p.authority_level && is_other_account (some account.mode))
      act_mandate_requires_agent_account
  throw_if
      (not (
        length (dedup (filter (includes p.allowed_capabilities) s.capabilities))
        == length (dedup p.allowed_capabilities)))
      unknown_mandate_capability
  ok account.mode

-- What follows a transaction: after a throw nothing, else the mandate is read again.
unfoldable pub reread : Text → ℕ → Store → Outcome Store → Store × Outcome (Option Mandate)
reread id now s (throw e) = (s, throw e)
reread id now s (ok s') = let (s'', m) = get_mandate id now s' in (s'', ok m)

abbrev pub is_revoked : MandateStatus → Bool
is_revoked revoked = true
is_revoked _ = false

-- `if (!row) return;`
unfoldable pub on_row {ℓ} : {R : Type ℓ} → Option R → Store → (R → Outcome Store) → Outcome Store
on_row none s f = ok s
on_row (some r) s f = f r
