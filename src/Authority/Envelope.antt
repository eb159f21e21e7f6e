-- ===== src/Authority/Envelope.antt =====
-- `normalizeEnvelope` of packages/authority/src/index.ts. The tests of `operation` and
-- `environment` are left out, since their types already have no other values.
use agentplace.Prelude.{
  Bool, not, List, [], ◌∷◌, Option, none, some, ok, throw, ◌>>=◌, ◌>>◌, throw_if,
}
use agentplace.Text.{Text, to_lower, to_upper}
use agentplace.Authority.Types.{ActionEnvelope}
use agentplace.Authority.Inputs.{
  Outcome, text, capability_id, asset_or_protocol, destination_pattern, unique_strings, networks,
  decimal, invalid_authority_envelope, invalid_authority_value, invalid_authority_leverage,
}

-- `values[0]!`, of a list that is not empty where it is used
unfoldable pub first_of {ℓ} : {A : Type ℓ} → List A → Outcome A
first_of [] = throw invalid_authority_envelope
first_of (a ∷ _) = ok a

-- `if (value !== undefined) …`
unfoldable pub on_some {ℓ κ} :
    {A : Type ℓ} {B : Type κ} → Option A → (A → Outcome B) → Outcome (Option B)
on_some none f = ok none
on_some (some a) f = do b ← f a; ok (some b)

unfoldable pub one_string : (Text → Text) → (Text → Bool) → Text → Outcome Text
one_string fold pattern value = do
  values ← unique_strings fold pattern invalid_authority_envelope (value ∷ [])
  first_of values

unfoldable pub envelope_text : Text → Outcome Text
envelope_text value = text value 128 invalid_authority_envelope

-- What identifies the action: Worker, account, capability and network.
unfoldable pub normalize_subject : ActionEnvelope → Outcome ActionEnvelope
normalize_subject raw = do
  worker_id ← envelope_text raw.worker_id
  account_id ← text raw.account_id 160 invalid_authority_envelope
  capability ← envelope_text raw.capability_id
  throw_if (not (capability_id (to_lower capability))) invalid_authority_envelope
  ns ← networks (raw.network ∷ [])
  network ← first_of ns
  ok (record raw {
    worker_id = worker_id;
    account_id = account_id;
    capability_id = to_lower capability;
    network = network;
  })

-- The optional properties of the envelope.
unfoldable pub normalize_details : ActionEnvelope → Outcome ActionEnvelope
normalize_details raw = do
  asset ← on_some raw.asset (one_string to_upper asset_or_protocol)
  protocol ← on_some raw.protocol (one_string to_lower asset_or_protocol)
  destination ← on_some raw.destination (one_string to_lower destination_pattern)
  value_usd ← decimal raw.value_usd invalid_authority_value
  leverage ← decimal raw.leverage_multiplier invalid_authority_leverage
  reason ← on_some raw.reason (λ t. text t 1000 invalid_authority_envelope)
  job_id ← on_some raw.job_id envelope_text
  ok (record raw {
    asset = asset;
    protocol = protocol;
    destination = destination;
    value_usd = value_usd;
    leverage_multiplier = leverage;
    reason = reason;
    job_id = job_id;
  })

-- `normalizeEnvelope`
unfoldable pub normalize_envelope : ActionEnvelope → Outcome ActionEnvelope
normalize_envelope raw = do e ← normalize_subject raw; normalize_details e
