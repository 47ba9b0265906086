-- ===== src/Server/Workflow.antt =====
-- internal/ui/workflow.go and internal/dag/engine.go: a repository's workflow as a chain of nodes.
--
-- `numbered` is `fmt.Sprintf("%s#%d", ...)`; gate names come sorted from SortedGateNames, whose sort
-- is the library's.
use sgt.Base.{
  ℕ, zero, suc, ◌+◌, String, Bool, not, Option, none, some, List, [], ◌∷◌, ◌++◌, str_eq,
  if◌then◌else◌, any, length, last?, str_append, map,
}
use sgt.Store.Types.{BulletStatus, bullet_progression}

pub data Kind : Type 0 where
  stage gate lifecycle : Kind

abbrev pub kind_text : Kind → String
kind_text stage = "stage"
kind_text gate = "gate"
kind_text lifecycle = "lifecycle"

pub record WorkflowNode : Type 0 where
  pub id : String
  pub label : String
  pub kind : Kind
  pub group : String

pub record WorkflowEdge : Type 0 where
  pub from_node : String
  pub to_node : String

-- `used` is the set of the ids in `nodes`, kept as the list of them.
pub record Chain : Type 0 where
  pub group : String
  pub nodes : List WorkflowNode
  pub edges : List WorkflowEdge
  pub used : List String

abbrev pub is_used : List String → String → Bool
is_used used id = any (λ u. str_eq u id) used

unfoldable pub new_chain : String → Chain
new_chain group = record { group = group; nodes = []; edges = []; used = [] }

unfoldable pub node_id : String → Kind → String → String
node_id group kind label =
    str_append group (str_append ":" (str_append (kind_text kind) (str_append ":" label)))

-- The candidates from the n-th on, by the candidates left to try.
unfoldable pub free_candidate : (ℕ → String) → List String → ℕ → ℕ → Option String
free_candidate candidate used zero n = none
free_candidate candidate used (suc left) n =
    let next = free_candidate candidate used left (n + 1) in
    if not (is_used used (candidate n)) then some (candidate n) else next

unfoldable pub edge_from : Option WorkflowNode → String → List WorkflowEdge
edge_from none id = []
edge_from (some n) id = record { from_node = n.id; to_node = id } ∷ []

unfoldable pub add_node : Kind → String → Chain → String → Chain
add_node kind label c id = record c {
  used = c.used ++ id ∷ [];
  edges = c.edges ++ edge_from (last? c.nodes) id;
  nodes = c.nodes ++ record { id = id; label = label; kind = kind; group = c.group } ∷ [];
}

module _ (numbered : String → ℕ → String) where
  -- One candidate more than there are ids in use is enough.
  unfoldable pub fresh_id : List String → String → Option String
  fresh_id used id =
      if is_used used id then free_candidate (numbered id) used (suc (length used)) 2 else some id

  unfoldable pub add : Kind → String → Chain → Option Chain
  add kind label c = elim (fresh_id c.used (node_id c.group kind label)) [
    | none ↦ none
    | some id ↦ some (add_node kind label c id)
  ]

  unfoldable pub add_all : Kind → List String → Chain → Option Chain
  add_all kind [] c = some c
  add_all kind (label ∷ labels) c = elim (add kind label c) [
    | none ↦ none
    | some c' ↦ add_all kind labels c'
  ]

-- buildWorkflowGraph, of the pipeline that PipelineFor resolves and the sorted names of the gates.
abbrev pub default_pipeline : List String
default_pipeline = "plan" ∷ "build" ∷ "test" ∷ []

unfoldable pub pipeline_for : Option (List String) → List String
pipeline_for none = default_pipeline
pipeline_for (some []) = default_pipeline
pipeline_for (some (s ∷ ss)) = s ∷ ss

abbrev bullet_label : BulletStatus → String
bullet_label BulletStatus.pending = "pending"
bullet_label BulletStatus.red = "red"
bullet_label BulletStatus.green = "green"
bullet_label BulletStatus.sealed = "sealed"
bullet_label BulletStatus.merged = "merged"
bullet_label BulletStatus.blocked = "blocked"
bullet_label BulletStatus.proposed = "proposed"
bullet_label BulletStatus.failed = "failed"

abbrev pub progression_labels : List String
progression_labels = map bullet_label bullet_progression

unfoldable pub build_workflow_graph :
    (String → ℕ → String) → String → Option (List String) → List String → Option Chain
build_workflow_graph numbered repo pipeline gates =
    elim (add_all numbered stage (pipeline_for pipeline) (new_chain repo)) [
      | none ↦ none
      | some c ↦ elim (add_all numbered gate gates c) [
        | none ↦ none
        | some c' ↦ add_all numbered lifecycle progression_labels c'
      ]
    ]
