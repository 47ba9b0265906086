-- ===== src/Engine/Types.antt =====
-- internal/dag/engine.go: the project that an engine reads, and what git and the file system say.
use sgt.Base.{ℕ, String, Bool, Option, none, some, List, [], ◌∷◌, str_eq, if◌then◌else◌, find?}
use sgt.Delivery.Types.{Failure}
use sgt.Runner.Capture.{Drop}
use sgt.Runner.Types.{Outside}

-- A repository of the configuration: its path, the pipeline and the gates of its factory, and the
-- retries that ResolvedRetries finds for it. A map is the list of its entries.
pub record Repo : Type 0 where
  pub path : String
  pub pipeline : Option (List String)
  pub gates : List (String × String)
  pub retries : ℕ

-- `reviewed` is handoff.ReviewFindings, of which only the severities matter here; `diff` and
-- `copy_change` give the error of DiffAgainstBase and of copyChangeDir, of a repository;
-- `inject` is InjectHandoffToWorktree, of an upstream and a worktree, called without a delivery,
-- and `handoff n` what the n-th call of it in a delivery returns. The rest is what git and the
-- file system answer: `output path args` is the trimmed output of a git command, "" if it fails.
pub record Environment : Type 0 where
  pub outside : Outside
  pub join : List Drop → String
  pub reviewed : String → List String
  pub diff : String → Option String
  pub copy_change : String → Option String
  pub inject : String → String → Option String
  pub handoff : ℕ → Option Failure
  pub name_le : String → String → Bool
  pub expand_path : String → String
  pub is_git_repo : String → Bool
  pub fleet_dir : String → String → String
  pub makes_parent : String → Bool
  pub output : String → List String → String
  pub trim_remotes : String → String
  pub worktree_fails : String → String → Option String
  pub trim : String → String
  pub exemption_payload : String → String → String → String

pub record Engine : Type 0 where
  pub repos : List (String × Repo)
  pub resume : Bool
  pub change_dir : String
  pub change_repo : String

unfoldable pub repo_of : Engine → String → Option Repo
repo_of e name = elim (find? (λ r. str_eq r.0 name) e.repos) [ none ↦ none | some r ↦ some r.1 ]

module _ (name_le : String → String → Bool) where
  unfoldable pub insert_gate : String × String → List (String × String) → List (String × String)
  insert_gate g [] = g ∷ []
  insert_gate g (h ∷ hs) =
      let later = h ∷ insert_gate g hs in if name_le g.0 h.0 then g ∷ h ∷ hs else later

  -- SortedGateNames, each name with its command.
  unfoldable pub sorted_gates : List (String × String) → List (String × String)
  unfolding insert_gate
  sorted_gates [] = []
  sorted_gates (g ∷ gs) = insert_gate g (sorted_gates gs)
