-- ===== src/Engine/Worktrees.antt =====
-- internal/dag/engine.go: prepareWorktree and resolveDefaultBranch.
use sgt.Base.{
  String, Bool, ◌&&◌, none, some, [], ◌∷◌, ◌++◌, str_eq, if◌then◌else◌, any, not, setup_failed,
  Exec, pure, raise, ◌>>=◌, ◌>>◌, ignore, ok,
}
use sgt.Store.World.{in_tables}
use sgt.Store.Rows.{get_run}
use sgt.Store.Runs.{set_run_base_branch}
use sgt.Naming.{branch_name}
use sgt.Runner.Types.{Host, Worktree, in_world}
use sgt.Engine.Types.{Environment}

module _ (v : Environment) where
  abbrev verified : String → String → Bool
  verified path name = not (str_eq (v.output path ("rev-parse" ∷ "--verify" ∷ name ∷ [])) "")

  unfoldable pub resolve_default_branch : String → String
  resolve_default_branch path =
      let origin = v.output path ("symbolic-ref" ∷ "refs/remotes/origin/HEAD" ∷ []) in
      if verified path "main"
      then "main"
      else if verified path "master"
      then "master"
      else if not (str_eq origin "")
      then v.trim_remotes origin
      else if verified path "origin/main"
      then "origin/main"
      else if verified path "origin/master"
      then "origin/master"
      else v.output path ("rev-parse" ∷ "--abbrev-ref" ∷ "HEAD" ∷ [])

  unfoldable pub branch_exists : String → String → Host → Bool
  branch_exists path branch h = any (λ b. str_eq b.0 path && str_eq b.1 branch) h.branches

  abbrev pub is_at : String → Worktree → Bool
  is_at path w = str_eq w.path path

  -- git worktree add, on the branch if it exists and else on a new one.
  unfoldable pub add_worktree : String → String → String → String → Exec Host (Unit {0})
  add_worktree repo_path wt branch base d = elim (v.worktree_fails repo_path wt) [
    | some message ↦ raise (setup_failed message) d
    | none ↦
        if branch_exists repo_path branch d.db
        then (
          ok tt,
          record d {
            db = record d.db {
              worktrees =
                  d.db.worktrees ++ record { path = wt; branch = branch; start_point = none } ∷ [];
            };
          },
        )
        else (
          ok tt,
          record d {
            db = record d.db {
              worktrees =
                  d.db.worktrees
                  ++ record {
                    path = wt;
                    branch = branch;
                    start_point = some (if str_eq base "" then "HEAD" else base);
                  }
                    ∷ [];
              branches = d.db.branches ++ (repo_path, branch) ∷ [];
            };
          },
        )
  ]

  -- The branch that a run starts from: the recorded one, else the default, which is recorded.
  unfoldable pub base_branch_for : String → String → String → Exec Host String
  base_branch_for repo_path run_id recorded =
      let found = resolve_default_branch repo_path in
      if not (str_eq recorded "")
      then pure recorded
      else if str_eq found ""
      then pure found
      else (do ignore (in_world (in_tables (set_run_base_branch run_id found))); pure found)

  unfoldable pub worktree_there : String → Exec Host Bool
  worktree_there wt d = (ok (any (is_at wt) d.db.worktrees), d)

  -- It returns the worktree; the source's second value is true whenever there is no error.
  unfoldable pub prepare_worktree : String → String → String → Exec Host String
  prepare_worktree path run_id repo_name =
      let repo_path = v.expand_path path in
      let wt = v.fleet_dir run_id repo_name in
      if not (v.is_git_repo repo_path) then raise (setup_failed "not a git repository") else do
        there ← worktree_there wt
        if there
            then pure wt
            else if not (v.makes_parent wt)
            then raise (setup_failed "creating fleet dir")
            else do
              run ← in_world (in_tables (get_run run_id))
              base ← base_branch_for repo_path run_id run.base_branch
              add_worktree repo_path wt (branch_name run.type run.change_id) base
              pure wt
