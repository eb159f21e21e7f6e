-- ===== src/Verification/Evidence.antt =====
-- What packages/verification/src/index.ts reads from a transaction, its receipt and the stored
-- action: `parseErc20Transfer`, `topicAddress`, `matchingTransferLogs`, `preparedPayloadMatches`,
-- `check`, and the list of supported tokens.
use agentplace.Prelude.{
  ℕ, ◌-◌, Bool, true, false, not, ◌&&◌, ◌||◌, List, [], ◌∷◌, ◌++◌, Option, none, some, ◌==◌, leb,
  if◌then◌else◌, length, take, drop, map, all, String, ◌===◌,
}
use agentplace.Text.{Text, codes, text_eq, trim, to_lower, to_upper, is_empty, is_digit}
use agentplace.Verification.Types.{
  BigInt, Field, missing, string, VerificationCheck, pass, fail, PayloadNetwork, CandidateRow,
  RpcLog, RpcReceipt, MatchingLog, PreparedPayload,
}
use agentplace.Verification.Numbers.{
  big_int_eq, same_option, bigint_value, read_big_int, lower, lower_field, string_of,
}

abbrev is_hex_digit : ℕ → Bool
is_hex_digit c = is_digit c || (leb b'a' c && leb c b'f') || (leb b'A' c && leb c b'F')

-- `/^0x[a-fA-F0-9]{n}$/`: `ADDRESS` with 40, `TX_HASH` and a topic with 64.
unfoldable pub hex_pattern : ℕ → Text → Bool
hex_pattern n (c ∷ d ∷ s) = (c == b'0' && d == b'x') && (all is_hex_digit s && length s == n)
hex_pattern n _ = false

abbrev pub transfer_topic : Text
transfer_topic = codes "0xddf252ad1be2c89b69c2b068fc378daa952ba7f163c4a11628f55a4df523b3ef"

abbrev pub transfer_selector : Text
transfer_selector = codes "0xa9059cbb"

-- `SUPPORTED_ERC20_TRANSFERS[chainId]?.[token]?.symbol`
unfoldable pub supported_symbol : ℕ → Text → Option Text
supported_symbol chain token =
    if (chain == 1 && token === codes "0xa0b86991c6218b36c1d19d4a2e9eb0ce3606eb48")
      || (chain == 42161 && token === codes "0xaf88d065e77c8cc2239327c5edb3a432268e5831")
      || (chain == 8453 && token === codes "0x833589fcd6edb6e08f4c7c32d4f71b54bda02913")
    then some (codes "USDC")
    else none

-- `check`
unfoldable pub verification_check : String → String → Bool → Text → Text → VerificationCheck
verification_check code label is_ok passed failed = record {
  code = code;
  label = label;
  status = if is_ok then pass else fail;
  message = if is_ok then passed else failed;
}

-- `text.startsWith(prefix)`
unfoldable pub starts_text : Text → Text → Bool
starts_text [] s = true
starts_text (c ∷ p) [] = false
starts_text (c ∷ p) (d ∷ s) = c == d && starts_text p s

abbrev slice : ℕ → ℕ → Text → Text
slice from to s = take (to - from) (drop from s)

unfoldable pub with_amount : Text → Option BigInt → Option (Text × BigInt)
with_amount recipient none = none
with_amount recipient (some n) = some (recipient, n)

-- `parseErc20Transfer`: the recipient and the amount.
unfoldable pub parse_erc20_transfer : Text → Option (Text × BigInt)
parse_erc20_transfer input =
    let normalized = to_lower input in
    let recipient = codes "0x" ++ drop 24 (slice 10 74 normalized) in
    if not (starts_text transfer_selector normalized) || not (length normalized == 138)
    then none
    else if not (hex_pattern 40 recipient)
    then none
    else with_amount recipient (read_big_int (trim (codes "0x" ++ slice 74 138 normalized)))

-- `topicAddress`
unfoldable pub topic_address : Option Text → Option Text
topic_address none = none
topic_address (some t) =
    if hex_pattern 64 t then some (to_lower (codes "0x" ++ drop (length t - 40) t)) else none

-- `topics[i]`
unfoldable pub topic_at : ℕ → List Text → Option Text
topic_at i [] = none
topic_at i (t ∷ ts) = let rest = topic_at (i - 1) ts in if i == 0 then some t else rest

abbrev pub or_none : Option (List Text) → List Text
or_none none = []
or_none (some ts) = ts

abbrev pub non_empty : Option Text → Option Text
non_empty none = none
non_empty (some t) = if is_empty t then none else some t

-- The tests of one round of the loop in `matchingTransferLogs`.
unfoldable pub is_transfer_log : Text → Text → Text → BigInt → RpcLog → Bool
is_transfer_log token from destination amount log =
    let topics = or_none log.topics in
    (lower log.address === to_lower token && lower (topic_at 0 topics) === transfer_topic)
    && ((same_option (topic_address (topic_at 1 topics)) (some (to_lower from))
          && same_option (topic_address (topic_at 2 topics)) (some (to_lower destination)))
        && same_option (bigint_value log.data_) (some amount))

unfoldable pub matching_logs_from : Text → Text → Text → BigInt → List RpcLog → List MatchingLog
matching_logs_from token from destination amount [] = []
matching_logs_from token from destination amount (log ∷ logs) =
    let rest = matching_logs_from token from destination amount logs in
    if is_transfer_log token from destination amount log
    then record {
      address = lower log.address;
      topics = map to_lower (or_none log.topics);
      data_ = lower log.data_;
      log_index = non_empty log.log_index;
    }
      ∷ rest
    else rest

abbrev pub no_logs : Option (List RpcLog) → List RpcLog
no_logs none = []
no_logs (some logs) = logs

-- `matchingTransferLogs`
unfoldable pub matching_transfer_logs : RpcReceipt → Text → Text → Text → BigInt → List MatchingLog
matching_transfer_logs receipt token from destination amount =
    matching_logs_from token from destination amount (no_logs receipt.logs)

-- `value === text` of an unknown value
unfoldable pub is_string : Field → Text → Bool
is_string (string t) u = t === u
is_string _ u = false

abbrev pub family_of : Option PayloadNetwork → Field
family_of none = missing
family_of (some n) = n.family

abbrev pub network_id_of : Option PayloadNetwork → Field
network_id_of none = missing
network_id_of (some n) = n.network_id

abbrev pub or_empty_text : Option Text → Text
or_empty_text none = []
or_empty_text (some t) = t

unfoldable pub payload_matches : CandidateRow → PreparedPayload → Bool
payload_matches c p =
    (is_string p.kind (codes "transfer") && is_string p.capability_id c.capability_id)
    && ((is_string p.account_id c.account_id && is_string p.environment c.environment)
        && ((lower_field (family_of p.network) === to_lower c.action_network_family
              && lower_field (network_id_of p.network) === to_lower c.action_network_id)
            && ((to_upper (string_of p.asset) === to_upper c.asset
                  && lower_field p.asset_address === lower c.asset_address)
                && (string_of p.amount_atomic === or_empty_text c.amount_atomic
                    && lower_field p.destination === lower c.destination))))

-- `preparedPayloadMatches`
unfoldable pub prepared_payload_matches : CandidateRow → Option PreparedPayload → Bool
prepared_payload_matches c none = false
prepared_payload_matches c (some p) = payload_matches c p
