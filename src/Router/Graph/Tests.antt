-- ===== src/Router/Graph/Tests.antt =====
-- An instance of the theorem about `normalizeGraph` (packages/router/src/index.ts).
use agentplace.Prelude.{◌≡◌, ◌≤◌, ◌⊎◌, List, [], ◌∷◌, ◌++◌, length}
use agentplace.Text.{Text, codes}
use agentplace.Router.Types.{ProposedCapabilityGraphNode}
use agentplace.Router.Graph.{normalize_graph}
use agentplace.Router.Graph.Acyclic.{Forward, normalize_graph-Forward}

abbrev node : Text → List Text → ProposedCapabilityGraphNode
node id needs = record { id = id; capability_id = codes "read"; depends_on = needs; purpose = [] }

-- Two nodes that need each other.
abbrev circle : List ProposedCapabilityGraphNode
circle = node (codes "a") (codes "b" ∷ []) ∷ node (codes "b") (codes "a" ∷ []) ∷ []

abbrev reads : List Text
reads = codes "read" ∷ []

normalize_graph-Forward_example :
    Forward (reads ++ []) [] (normalize_graph circle reads [] reads)
    × (length (normalize_graph circle reads [] reads) ≤ 24
        ⊎ (length (normalize_graph circle reads [] reads) ≡ length (reads ++ [])))
normalize_graph-Forward_example = normalize_graph-Forward circle reads [] reads
