-- ===== src/Router/Graph.antt =====
-- `normalizeGraph` of packages/router/src/index.ts: the proposed capability graph, cleaned, or a
-- chain where nothing of it is left.
pub mod Acyclic
mod Tests
use agentplace.Prelude.{
  ℕ, suc, Bool, true, false, not, ◌&&◌, ◌||◌, List, [], ◌∷◌, ◌++◌, Option, none, some,
  if◌then◌else◌, leb, length, take, filter, includes,
}
use agentplace.Text.{Text, codes, text_eq, trim, is_empty}
use agentplace.Decimal.{to_text}
use agentplace.Router.Types.{ProposedCapabilityGraphNode}
use agentplace.Router.Networks.{unique}

-- A node is passed over without an id, with one that stands already, or with a capability that is
-- not known or not asked for.
abbrev pub passed_over : List Text → List Text → List Text → ProposedCapabilityGraphNode → Bool
passed_over known allowed ids node =
    is_empty (trim node.id)
    || includes ids (trim node.id)
    || not (includes known (trim node.capability_id))
    || not (includes allowed (trim node.capability_id))

unfoldable pub clean_node : List Text → ProposedCapabilityGraphNode → ProposedCapabilityGraphNode
clean_node ids node =
    let purpose = take 300 (trim node.purpose) in
    record {
      id = trim node.id;
      capability_id = trim node.capability_id;
      depends_on = filter (includes ids) (unique node.depends_on 8);
      purpose = if is_empty purpose then trim node.capability_id else purpose;
    }

-- The loop over the proposed nodes: `ids` are those of the nodes pushed so far.
unfoldable pub kept_nodes :
    List Text
    → List Text
    → List Text
    → List ProposedCapabilityGraphNode
    → List ProposedCapabilityGraphNode
kept_nodes known allowed ids [] = []
kept_nodes known allowed ids (node ∷ nodes) =
    let skipped = kept_nodes known allowed ids nodes in
    let pushed = kept_nodes known allowed (trim node.id ∷ ids) nodes in
    if passed_over known allowed ids node
    then skipped
    else clean_node ids node ∷ (if leb 24 (suc (length ids)) then [] else pushed)

abbrev pub cap_id : ℕ → Text
cap_id n = codes "cap_" ++ to_text n

abbrev pub to_list : Option Text → List Text
to_list none = []
to_list (some t) = t ∷ []

-- The chain of capabilities, from the index and the id of the node before.
unfoldable pub chain : ℕ → Option Text → List Text → List ProposedCapabilityGraphNode
chain index previous [] = []
chain index previous (capability ∷ rest) =
    record {
      id = cap_id (suc index);
      capability_id = capability;
      depends_on = to_list previous;
      purpose = capability;
    }
    ∷ chain (suc index) (some (cap_id (suc index))) rest

unfoldable pub or_chain :
    List ProposedCapabilityGraphNode → List Text → List ProposedCapabilityGraphNode
or_chain [] capabilities = chain 0 none capabilities
or_chain (node ∷ nodes) capabilities = node ∷ nodes

unfoldable pub normalize_graph :
    List ProposedCapabilityGraphNode
    → List Text
    → List Text
    → List Text
    → List ProposedCapabilityGraphNode
normalize_graph proposed required optional known =
    or_chain (kept_nodes known (required ++ optional) [] proposed) (required ++ optional)
