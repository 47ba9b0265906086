-- ===== src/Graphify/Examples.antt =====
-- Runs of internal/graphify/exclude.go at concrete inputs.
use sgt.Base.{String, true, List, [], ◌∷◌, str_eq, refl, ◌≡◌, ◌↔◌}
use sgt.Graphify.{Describes, match_segments, match_segments-Describes}
use sgt.Graphify.Filter.{
  Graph, Closed, filter_graph, filter_graph-Closed, filter_graph-idempotent, filter_graph-Closed-id,
}

-- A name with no separator is one segment.
abbrev whole : String → List String
whole s = s ∷ []

abbrev graph : Graph
graph = record {
  nodes =
      record { id = "a"; source_file = "a.go"; raw = "{}" }
      ∷ record { id = "b"; source_file = "gen.go"; raw = "{}" }
      ∷ [];
  links = record { source = "a"; target = "b"; source_file = "a.go"; raw = "{}" } ∷ [];
  hyperedges = record { nodes = "a" ∷ "b" ∷ []; source_file = "a.go"; raw = "{}" } ∷ [];
}

match_segments-Describes_example :
    (match_segments str_eq ("**" ∷ "gen.go" ∷ []) ("a" ∷ "b" ∷ "gen.go" ∷ []) ≡ true)
    ↔ Describes str_eq ("**" ∷ "gen.go" ∷ []) ("a" ∷ "b" ∷ "gen.go" ∷ [])
match_segments-Describes_example =
    match_segments-Describes str_eq ("**" ∷ "gen.go" ∷ []) ("a" ∷ "b" ∷ "gen.go" ∷ [])

-- A link or a hyperedge that loses a node goes with it.
dropped : filter_graph str_eq whole ("gen.go" ∷ []) graph ≡ record {
  nodes = record { id = "a"; source_file = "a.go"; raw = "{}" } ∷ [];
  links = [];
  hyperedges = [];
}
unfolding filter_graph sgt.Graphify.matches_any sgt.Graphify.Filter.keeps_link
    sgt.Graphify.Filter.keeps_hyperedge sgt.Graphify.matches_pattern match_segments
dropped = refl

filter_graph-Closed_example :
    Closed str_eq whole ("gen.go" ∷ []) (filter_graph str_eq whole ("gen.go" ∷ []) graph)
filter_graph-Closed_example = filter_graph-Closed str_eq whole ("gen.go" ∷ []) graph

filter_graph-Closed-id_example :
    filter_graph str_eq whole ("gen.go" ∷ []) (filter_graph str_eq whole ("gen.go" ∷ []) graph)
    ≡ filter_graph str_eq whole ("gen.go" ∷ []) graph
filter_graph-Closed-id_example =
    filter_graph-Closed-id str_eq whole ("gen.go" ∷ [])
      (filter_graph str_eq whole ("gen.go" ∷ []) graph)
      (filter_graph-Closed str_eq whole ("gen.go" ∷ []) graph)
