-- ===== src/Server/Graph.antt =====
-- internal/ui/workflow.go: the graph that the chain builds.
use sgt.Base.{
  ℕ, String, false, Option, none, some, List, [], ◌∷◌, ◌++◌, str_eq, last?, map, refl, ◌≡◌, ◌∙◌, ap,
  sym,
}
use sgt.Base.Keys.{Apart, snoc-Apart}
use sgt.Server.Workflow.{
  Kind, stage, gate, lifecycle, WorkflowNode, WorkflowEdge, Chain, is_used, new_chain, node_id,
  edge_from, fresh_id, add_node, add, add_all, pipeline_for, progression_labels,
  build_workflow_graph,
}
use mathlib.Core.List.{map-append, append-nil, append_assoc}
use mathlib.Core.Path.{subst}
use sgt.Server.FreshId.{Distinct, fresh_id-fresh}

-- The edges of a path through the nodes, in their order.
abbrev pub path : List WorkflowNode → List WorkflowEdge
path [] = []
path (n ∷ []) = []
path (n ∷ m ∷ ns) = record { from_node = n.id; to_node = m.id } ∷ path (m ∷ ns)

path-snoc :
    (ns : List WorkflowNode) (m : WorkflowNode)
    → path (ns ++ m ∷ []) ≡ path ns ++ edge_from (last? ns) m.id
unfolding edge_from
path-snoc [] m = refl
path-snoc (n ∷ []) m = refl
path-snoc (n ∷ n' ∷ ns) m =
    ap (λ es. record { from_node = n.id; to_node = n'.id } ∷ es) (path-snoc (n' ∷ ns) m)

abbrev pub ids : List WorkflowNode → List String
ids ns = map (λ n. n.id) ns

abbrev pub steps : List WorkflowNode → List (Kind × String)
steps ns = map (λ n. (n.kind, n.label)) ns

-- One connected path over nodes with different ids.
pub record Chained (c : Chain) : Type 0 where
  pub used : c.used ≡ ids c.nodes
  pub edges : c.edges ≡ path c.nodes
  pub apart : Apart (λ x y. str_eq x y) c.used

add_node-Chained :
    (kind : Kind) (label : String) (c : Chain) (id : String)
    → Chained c
    → is_used c.used id ≡ false
    → Chained (add_node kind label c id)
      × (steps (add_node kind label c id).nodes ≡ steps c.nodes ++ (kind, label) ∷ [])
unfolding add_node
add_node-Chained kind label c id h f =
    let node : WorkflowNode = record { id = id; label = label; kind = kind; group = c.group } in
    (
      record {
        used = rw (map-append (λ n. n.id) c.nodes (node ∷ []), h.used) refl;
        edges = rw (path-snoc c.nodes node, h.edges) refl;
        apart = snoc-Apart (λ x y. str_eq x y) id c.used f h.apart;
      },
      map-append (λ n. (n.kind, n.label)) c.nodes (node ∷ []),
    )

-- The chain after some steps are added.
abbrev pub Grown : Chain → List (Kind × String) → Option Chain → Type 0
Grown c new none = ⊥
Grown c new (some c') = Chained c' × (steps c'.nodes ≡ steps c.nodes ++ new)

abbrev pub labelled : Kind → List String → List (Kind × String)
labelled kind labels = map (λ l. (kind, l)) labels

Grown-trans :
    (c m : Chain) (new new' : List (Kind × String)) (o : Option Chain)
    → steps m.nodes ≡ steps c.nodes ++ new
    → Grown m new' o
    → Grown c (new ++ new') o
Grown-trans c m new new' none s g = g
Grown-trans c m new new' (some c') s g =
    (g.0, g.1 ∙ ap (λ l. l ++ new') s ∙ append_assoc (steps c.nodes) new new')

new_chain-Chained : (repo : String) → Chained (new_chain repo)
unfolding new_chain
new_chain-Chained repo = record { used = refl; edges = refl; apart = tt }

module _ (numbered : String → ℕ → String) (distinct : Distinct numbered) where
  add_all-next :
      (kind : Kind) (label : String) (labels : List String) (c : Chain) (id : String)
      → fresh_id numbered c.used (node_id c.group kind label) ≡ some id
      → add_all numbered kind (label ∷ labels) c
        ≡ add_all numbered kind labels (add_node kind label c id)
  unfolding add_all add
  add_all-next kind label labels c id e = rw (add_all, add, e) refl

  add_all-Grown :
      (kind : Kind) (labels : List String) (c : Chain)
      → Chained c
      → Grown c (labelled kind labels) (add_all numbered kind labels c)
  unfolding add_all
  add_all-Grown kind [] c h = (h, sym (append-nil (steps c.nodes)))
  add_all-Grown kind (label ∷ labels) c h =
      let (id, e, f) = fresh_id-fresh numbered distinct c.used (node_id c.group kind label) in
      let m = add_node kind label c id in
      let (k, s) = add_node-Chained kind label c id h f in
      subst (λ o. Grown c (labelled kind (label ∷ labels)) o)
        (sym (add_all-next kind label labels c id e))
        (Grown-trans c m ((kind, label) ∷ []) (labelled kind labels)
          (add_all numbered kind labels m) s (add_all-Grown kind labels m k))

  -- The graph of a repository is built, whatever its pipeline and its gates repeat: its nodes are the
  -- pipeline's entries (the default's if it has none), the gates and the statuses of a bullet's
  -- progression, in that order, no two with one id, and its edges join each node to the next.
  pub build_workflow_graph-Grown :
      (repo : String) (pipeline : Option (List String)) (gates : List String)
      → Grown
          (new_chain repo)
          (labelled stage (pipeline_for pipeline)
            ++ (labelled gate gates ++ labelled lifecycle progression_labels))
          (build_workflow_graph numbered repo pipeline gates)
  unfolding build_workflow_graph
  build_workflow_graph-Grown repo pipeline gates =
      first (add_all numbered stage (pipeline_for pipeline) (new_chain repo))
        (add_all-Grown stage (pipeline_for pipeline) (new_chain repo) (new_chain-Chained repo))
    where
      second :
          (c : Chain) (o : Option Chain)
          → Grown c (labelled gate gates) o
          → Grown c
              (labelled gate gates ++ labelled lifecycle progression_labels)
              (elim o [ none ↦ none | some c' ↦ add_all numbered lifecycle progression_labels c' ])
      second c none g = g
      second c (some c') g =
          Grown-trans c c' (labelled gate gates) (labelled lifecycle progression_labels)
            (add_all numbered lifecycle progression_labels c') g.1
            (add_all-Grown lifecycle progression_labels c' g.0)

      first :
          (o : Option Chain)
          → Grown (new_chain repo) (labelled stage (pipeline_for pipeline)) o
          → Grown
              (new_chain repo)
              (labelled stage (pipeline_for pipeline)
                ++ (labelled gate gates ++ labelled lifecycle progression_labels))
              (elim o [
                | none ↦ none
                | some c ↦ elim (add_all numbered gate gates c) [
                  | none ↦ none
                  | some c' ↦ add_all numbered lifecycle progression_labels c'
                ]
              ])
      first none g = g
      first (some c) g =
          Grown-trans (new_chain repo) c (labelled stage (pipeline_for pipeline))
            (labelled gate gates ++ labelled lifecycle progression_labels) _ g.1
            (second c (add_all numbered gate gates c) (add_all-Grown gate gates c g.0))
