-- ===== src/Risk.antt =====
-- `assessActionRisk` of packages/risk/src/index.ts. The labels and messages of the checks are left
-- out; a time that is no valid date is `none`.
pub mod Status
mod Tests
use agentplace.Prelude.{
  ℕ, Bool, true, false, ◌||◌, List, [], ◌∷◌, ◌++◌, Option, none, some, if◌then◌else◌, leb, any,
}

pub data RiskCheckStatus : Type 0 where
  pass warning failed not_available : RiskCheckStatus

pub data CheckCode : Type 0 where
  validation quote_freshness quote_availability simulation slippage destination protocol : CheckCode

pub record RiskCheck : Type 0 where
  pub code : CheckCode
  pub status : RiskCheckStatus

pub record RiskAssessment : Type 0 where
  pub status : RiskCheckStatus
  pub checks : List RiskCheck

pub data QuoteStatus : Type 0 where
  quote_available quote_missing quote_failed : QuoteStatus

pub data SimulationStatus : Type 0 where
  simulation_passed simulation_failed simulation_missing simulation_stale : SimulationStatus

pub record ActionRiskInput : Type 0 where
  pub validation_ok : Bool
  pub quote_required : Bool
  pub quote_status : Option QuoteStatus
  pub quote_expires_at : Option (Option ℕ)
  pub simulation_status : SimulationStatus
  pub slippage_bps : Option ℕ
  pub max_slippage_bps : Option ℕ
  pub destination_present : Bool
  pub protocol_present : Bool
  pub now : ℕ

abbrev pub check : CheckCode → RiskCheckStatus → RiskCheck
check code status = record { code = code; status = status }

-- A time that is no date compares as not expired.
abbrev pub has_expired : Option (Option ℕ) → ℕ → Bool
has_expired (some (some t)) now = leb t now
has_expired _ now = false

abbrev pub is_available : Option QuoteStatus → Bool
is_available (some quote_available) = true
is_available _ = false

unfoldable pub quote_checks : ActionRiskInput → List RiskCheck
quote_checks i =
    if i.quote_required
    then (if is_available i.quote_status
        then check quote_freshness (if has_expired i.quote_expires_at i.now then failed else pass)
          ∷ []
        else check quote_availability warning ∷ [])
    else []

abbrev pub simulation_check : SimulationStatus → RiskCheckStatus
simulation_check simulation_passed = pass
simulation_check simulation_failed = failed
simulation_check _ = warning

abbrev pub or_hundred : Option ℕ → ℕ
or_hundred none = 100
or_hundred (some n) = n

unfoldable pub slippage_checks : Option ℕ → Option ℕ → List RiskCheck
slippage_checks none most = []
slippage_checks (some bps) most =
    check slippage (if leb bps (or_hundred most) then pass else failed) ∷ []

unfoldable pub protocol_checks : Bool → List RiskCheck
protocol_checks true = check protocol pass ∷ []
protocol_checks false = []

unfoldable pub risk_checks : ActionRiskInput → List RiskCheck
risk_checks i =
    check validation (if i.validation_ok then pass else failed) ∷ quote_checks i
    ++ check simulation (simulation_check i.simulation_status)
      ∷ slippage_checks i.slippage_bps i.max_slippage_bps
    ++ check destination (if i.destination_present then pass else warning)
      ∷ protocol_checks i.protocol_present

abbrev pub is_failed : RiskCheck → Bool
is_failed c = elim c.status [ failed ↦ true | _ ↦ false ]

abbrev pub is_open : RiskCheck → Bool
is_open c = elim c.status [ warning ↦ true | not_available ↦ true | _ ↦ false ]

unfoldable pub risk_status : List RiskCheck → RiskCheckStatus
risk_status checks =
    if any is_failed checks then failed else if any is_open checks then warning else pass

unfoldable pub assess_action_risk : ActionRiskInput → RiskAssessment
assess_action_risk i = record { status = risk_status (risk_checks i); checks = risk_checks i }
