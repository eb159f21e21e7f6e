-- ===== src/Router/Networks.antt =====
-- `unique` and `canonicalizeNetworkId` of packages/router/src/index.ts, with the regular
-- expressions that it uses: a replacement of runs of characters, and a search for words.
pub mod Launch
mod Tests
use agentplace.Prelude.{
  ℕ, ◌==◌, Bool, true, false, not, ◌&&◌, ◌||◌, List, [], ◌∷◌, if◌then◌else◌, leb, map, filter, take,
  dedup, ◌===◌,
}
use agentplace.Text.{
  Text, codes, text_eq, eq_text, trim, to_lower, is_empty, is_letter, is_digit, is_space,
}

-- `unique(values, max)`
unfoldable pub unique : List Text → ℕ → List Text
unique values most = take most (dedup (filter (λ v. not (is_empty v)) (map trim values)))

-- `s.replace(/[class]+/g, ' ')`, where `inside` tells that a run has been replaced already.
unfoldable pub replace_runs : (ℕ → Bool) → Bool → Text → Text
replace_runs class inside [] = []
replace_runs class inside (c ∷ s) =
    let in_run = replace_runs class true s in
    let outside = replace_runs class false s in
    if class c then (if inside then in_run else 32 ∷ in_run) else c ∷ outside

abbrev pub is_word : ℕ → Bool
is_word c = is_letter c || is_digit c || c == b'_'

-- Does the text begin with the word, up to a word boundary?
unfoldable pub begins : Text → Text → Bool
begins [] [] = true
begins [] (c ∷ s) = not (is_word c)
begins (w ∷ ws) [] = false
begins (w ∷ ws) (c ∷ s) = w == c && begins ws s

-- `/\bword\b/.test(s)` for a word that starts and ends with word characters; `after_word` tells
-- that the character before is one.
unfoldable pub word_from : Bool → Text → Text → Bool
word_from after_word word [] = false
word_from after_word word (c ∷ s) =
    (not after_word && begins word (c ∷ s)) || word_from (is_word c) word s

unfoldable pub has_word : Text → Text → Bool
has_word word s = word_from false word s

-- `s.includes(part)`
unfoldable pub starts_with : Text → Text → Bool
starts_with [] s = true
starts_with (w ∷ ws) [] = false
starts_with (w ∷ ws) (c ∷ s) = w == c && starts_with ws s

unfoldable pub includes_text : Text → Text → Bool
includes_text part [] = starts_with part []
includes_text part (c ∷ s) = starts_with part (c ∷ s) || includes_text part s

-- The text that the tests read.
unfoldable pub normalized_network : Text → Text
normalized_network value =
    replace_runs is_space false
      (replace_runs (λ c. c == b'_' || c == b'-') false (to_lower (trim value)))

-- `['ethereum', …]` in `networkEligible`
abbrev pub launch_networks : List Text
launch_networks =
    codes "ethereum" ∷ codes "base" ∷ codes "arbitrum" ∷ codes "bnb" ∷ codes "solana" ∷ []

-- The tests for a test network, each by the words that it looks for.
abbrev pub is_arbitrum_test : Text → Bool
is_arbitrum_test n =
    has_word (codes "arbitrum") n && (has_word (codes "sepolia") n || has_word (codes "testnet") n)

abbrev pub is_base_test : Text → Bool
is_base_test n =
    has_word (codes "base") n && (has_word (codes "sepolia") n || has_word (codes "testnet") n)

abbrev pub is_ethereum_test : Text → Bool
is_ethereum_test n =
    (has_word (codes "ethereum") n || has_word (codes "eth") n)
    && (has_word (codes "sepolia") n
        || has_word (codes "holesky") n
        || has_word (codes "testnet") n)

abbrev pub is_bnb_test : Text → Bool
is_bnb_test n =
    (has_word (codes "bnb") n
      || has_word (codes "bsc") n
      || has_word (codes "binance smart chain") n)
    && has_word (codes "testnet") n

abbrev pub is_solana_dev : Text → Bool
is_solana_dev n = has_word (codes "solana") n && has_word (codes "devnet") n

abbrev pub is_solana_test : Text → Bool
is_solana_test n = has_word (codes "solana") n && has_word (codes "testnet") n

unfoldable pub test_network : Text → Text → Text
test_network n otherwise =
    if is_arbitrum_test n
    then codes "arbitrum-sepolia"
    else if is_base_test n
    then codes "base-sepolia"
    else if is_ethereum_test n
    then (if includes_text (codes "holesky") n
        then codes "ethereum-holesky"
        else codes "ethereum-sepolia")
    else if is_bnb_test n
    then codes "bnb-testnet"
    else if is_solana_dev n
    then codes "solana-devnet"
    else if is_solana_test n
    then codes "solana-testnet"
    else otherwise

-- The tests for a launch network.
unfoldable pub main_network : Text → Text
main_network n =
    if has_word (codes "42161") n
      || has_word (codes "arbitrum") n
      || n === codes "arb"
      || n === codes "arb one"
    then codes "arbitrum"
    else if has_word (codes "8453") n || has_word (codes "base") n
    then codes "base"
    else if has_word (codes "56") n
        || has_word (codes "bnb") n
        || has_word (codes "bsc") n
        || has_word (codes "binance smart chain") n
    then codes "bnb"
    else if has_word (codes "1") n
        && (has_word (codes "chain") n
            || has_word (codes "mainnet") n
            || has_word (codes "ethereum") n
            || has_word (codes "eth") n)
    then codes "ethereum"
    else if has_word (codes "ethereum") n || n === codes "eth"
    then codes "ethereum"
    else if has_word (codes "solana") n || n === codes "sol"
    then codes "solana"
    else n

unfoldable pub canonicalize_network_id : Text → Text
canonicalize_network_id value =
    let n = normalized_network value in if is_empty n then [] else test_network n (main_network n)
