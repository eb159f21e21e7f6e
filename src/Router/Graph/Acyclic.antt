-- ===== src/Router/Graph/Acyclic.antt =====
-- The shape of the graphs that `normalizeGraph` (packages/router/src/index.ts) returns.
use agentplace.Prelude.{
  ℕ, suc, ◌+◌, ◌≤◌, ◌<◌, ◌≡◌, refl, sym, ap, ◌∙◌, Bool, true, false, List, [], ◌∷◌, ◌++◌, Option,
  none, some, if◌then◌else◌, leb, length, includes, All, All-filter_test, Bool-cases, inl, inr, ◌⊎◌,
  arith, ◌===◌,
}
use agentplace.Text.{Text, text_eq, eq_text_iff, trim}
use agentplace.Decimal.{read_digits}
use agentplace.Decimal.Digits.{read_digits-to_text}
use agentplace.Router.Types.{ProposedCapabilityGraphNode}
use agentplace.Router.Networks.{unique}
use agentplace.Router.Graph.{
  passed_over, clean_node, kept_nodes, cap_id, to_list, chain, or_chain, normalize_graph,
}

-- Behind nodes with the ids `seen`, every node has a new id, depends on nodes before it only, and
-- names an allowed capability. So the ids are distinct, and no node depends on itself through
-- others.
abbrev pub Forward : List Text → List Text → List ProposedCapabilityGraphNode → Type 0
Forward allowed seen [] = Unit {0}
Forward allowed seen (node ∷ nodes) =
    (includes seen node.id ≡ false)
    × (All (λ d. includes seen d ≡ true) node.depends_on)
    × (includes allowed node.capability_id ≡ true)
    × Forward allowed (node.id ∷ seen) nodes

kept_nodes-Forward :
    (known allowed ids : List Text) (nodes : List ProposedCapabilityGraphNode)
    → Forward allowed ids (kept_nodes known allowed ids nodes)
unfolding kept_nodes clean_node
kept_nodes-Forward known allowed ids [] = tt
kept_nodes-Forward known allowed ids (node ∷ nodes) =
    elim (Bool-cases (passed_over known allowed ids node)) [
      | inl y ↦ rw y (kept_nodes-Forward known allowed ids nodes)
      | inr n ↦ rw n (
        ground arith,
        All-filter_test (includes ids) (unique node.depends_on 8) (λ d h. h),
        ground arith,
        more (leb 24 (suc (length ids))) _ _
            (kept_nodes-Forward known allowed (trim node.id ∷ ids) nodes),
      )
    ]
  where
    more :
        (b : Bool) (seen : List Text) (rest : List ProposedCapabilityGraphNode)
        → Forward allowed seen rest
        → Forward allowed seen (if b then [] else rest)
    more true seen rest h = tt
    more false seen rest h = h

kept_nodes-length :
    (known allowed ids : List Text) (nodes : List ProposedCapabilityGraphNode)
    → length ids < 24
    → length (kept_nodes known allowed ids nodes) + length ids ≤ 24
unfolding kept_nodes
kept_nodes-length known allowed ids [] h = omega arith
kept_nodes-length known allowed ids (node ∷ nodes) h =
    elim (Bool-cases (passed_over known allowed ids node)) [
      | inl y ↦ rw y (kept_nodes-length known allowed ids nodes h)
      | inr n ↦ rw n (ground (arith, kept_nodes-length known allowed (trim node.id ∷ ids) nodes))
    ]

cap_id-injective : (m n : ℕ) → cap_id m ≡ cap_id n → m ≡ n
cap_id-injective m n e =
    sym (read_digits-to_text m) ∙ (ap (λ s. read_digits 0 (behind s)) e ∙ read_digits-to_text n)
  where
    behind : Text → Text
    behind (_ ∷ (_ ∷ (_ ∷ (_ ∷ s)))) = s
    behind _ = []

-- Ids of the chain up to a number.
abbrev UpTo : ℕ → List Text → Type 0
UpTo index seen = All (λ s. (j : ℕ) × (j ≤ index) × (s ≡ cap_id j)) seen

fresh_cap :
    (index : ℕ) (seen : List Text) → UpTo index seen → includes seen (cap_id (suc index)) ≡ false
fresh_cap index [] _ = refl
fresh_cap index (s ∷ seen) ((j, le, e), h) = elim (Bool-cases (s === cap_id (suc index))) [
  | inl y ↦
      let same : j ≡ suc index =
        cap_id-injective j (suc index) (sym e ∙ (eq_text_iff s (cap_id (suc index))).0 y) in
      absurd (omega arith)
  | inr n ↦ rw n (fresh_cap index seen h)
]

later : (index : ℕ) (seen : List Text) → UpTo index seen → UpTo (suc index) seen
later index [] _ = tt
later index (s ∷ seen) ((j, le, e), h) = ((j, omega arith, e), later index seen h)

allowed_more :
    (x : Text) (xs ys : List Text)
    → All (λ c. includes xs c ≡ true) ys
    → All (λ c. includes (x ∷ xs) c ≡ true) ys
allowed_more x xs [] _ = tt
allowed_more x xs (y ∷ ys) (h, hs) = (ground arith, allowed_more x xs ys hs)

allowed_self : (xs : List Text) → All (λ c. includes xs c ≡ true) xs
allowed_self [] = tt
allowed_self (x ∷ xs) = (ground (arith, eq_text_iff x x), allowed_more x xs xs (allowed_self xs))

chain-Forward :
    (allowed seen : List Text) (index : ℕ) (previous : Option Text) (capabilities : List Text)
    → UpTo index seen
    → All (λ d. includes seen d ≡ true) (to_list previous)
    → All (λ c. includes allowed c ≡ true) capabilities
    → Forward allowed seen (chain index previous capabilities)
unfolding chain
chain-Forward allowed seen index previous [] _ _ _ = tt
chain-Forward allowed seen index previous (c ∷ cs) ids last (k, ks) =
    let new = cap_id (suc index) in
    (
      fresh_cap index seen ids,
      last,
      k,
      chain-Forward allowed (new ∷ seen) (suc index) (some new) cs
          ((suc index, omega arith, refl), later index seen ids)
          (ground (arith, eq_text_iff new new), tt) ks,
    )

length-chain :
    (index : ℕ) (previous : Option Text) (capabilities : List Text)
    → length (chain index previous capabilities) ≡ length capabilities
unfolding chain
length-chain index previous [] = refl
length-chain index previous (c ∷ cs) =
    ap suc (length-chain (suc index) (some (cap_id (suc index))) cs)

or_chain-Forward :
    (capabilities : List Text) (nodes : List ProposedCapabilityGraphNode)
    → Forward capabilities [] nodes
    → length nodes ≤ 24
    → Forward capabilities [] (or_chain nodes capabilities)
      × (length (or_chain nodes capabilities) ≤ 24
          ⊎ (length (or_chain nodes capabilities) ≡ length capabilities))
unfolding or_chain
or_chain-Forward capabilities [] _ _ = (
  chain-Forward capabilities [] 0 none capabilities tt tt (allowed_self capabilities),
  inr (length-chain 0 none capabilities),
)
or_chain-Forward capabilities (node ∷ nodes) h le = (h, inl le)

-- In the graph that `normalizeGraph` returns, every node has an id of its own, depends only on
-- nodes before it, and names a required or optional capability; so there is no cycle. It has 24
-- nodes at most, or one for each capability.
pub normalize_graph-Forward :
    (proposed : List ProposedCapabilityGraphNode) (required optional known : List Text)
    → Forward (required ++ optional) [] (normalize_graph proposed required optional known)
      × (length (normalize_graph proposed required optional known) ≤ 24
          ⊎ (length (normalize_graph proposed required optional known)
              ≡ length (required ++ optional)))
unfolding normalize_graph
normalize_graph-Forward proposed required optional known =
    or_chain-Forward (required ++ optional) (kept_nodes known (required ++ optional) [] proposed)
      (kept_nodes-Forward known (required ++ optional) [] proposed)
      (omega (arith, kept_nodes-length known (required ++ optional) [] proposed))
