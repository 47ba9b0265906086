-- ===== src/Engine/Stages.antt =====
-- internal/dag/engine.go: RunStage, with the phases and gates that a resumed run skips.
--
-- Not modelled: the text of a prompt (the brief of the intent is read for it) and the seeding of the
-- plan file, whose errors are dropped.
use sgt.Base.{
  ℕ, String, Bool, true, false, ◌&&◌, not, none, some, List, [], ◌∷◌, str_eq, if◌then◌else◌, any,
  gate_stopped, unknown_repo, setup_failed, blocking_finding, Exec, pure, raise, ◌>>=◌, ◌>>◌,
  on_error,
}
use sgt.Store.Types.{PhaseRecord}
use sgt.Store.World.{in_tables, in_deliveries}
use sgt.Store.Phases.{list_phases_for_run, get_latest_envelope}
use sgt.Delivery.Ops.{deliver_envelope}
use sgt.Server.Workflow.{pipeline_for}
use sgt.Runner.Types.{Host, in_world, PhaseRunner}
use sgt.Runner.Phases.{PhaseEnd, finished, stopped, run_code_gate, run_agent_phase}
use sgt.Server.Stages.{DagStage}
use sgt.Engine.Types.{Environment, Engine, Repo, repo_of, sorted_gates}
use sgt.Engine.Worktrees.{prepare_worktree}

-- handoff.HasBlockingFinding, on the severities.
unfoldable pub has_blocking_finding : List String → Bool
has_blocking_finding severities = any (λ s. str_eq s "error") severities

abbrev pub passed_row : String → String → PhaseRecord → Bool
passed_row repo phase p = str_eq p.repo repo && str_eq p.name phase && str_eq p.status "passed"

module _ (v : Environment) (e : Engine) (run_id : String) where
  unfoldable pub phase_passed : String → String → Exec Host Bool
  phase_passed repo phase =
      if not e.resume
      then pure false
      else on_error (in_world (in_tables (list_phases_for_run run_id))) (λ _. pure false)
          (λ phases. pure (any (passed_row repo phase) phases))

  abbrev pub runner_of : String → PhaseRunner
  runner_of repo = record { run_id = run_id; repo_name = repo; fix_cycle = 0 }

  -- The upstream envelopes are injected into the worktree.
  unfoldable pub inject_upstream : String → String → Exec Host (Unit {0})
  inject_upstream worktree upstream =
      on_error (in_world (in_tables (get_latest_envelope run_id upstream)))
        (λ _. elim (v.inject upstream worktree) [
          | none ↦ pure tt
          | some message ↦ raise (setup_failed message)
        ])
        (λ envelope.
          in_world (in_deliveries (deliver_envelope v.handoff envelope.id worktree true)))

  unfoldable pub inject_all : String → List String → Exec Host (Unit {0})
  inject_all worktree [] = pure tt
  inject_all worktree (u ∷ us) = do inject_upstream worktree u; inject_all worktree us

  unfoldable pub copy_change_dir : String → Exec Host (Unit {0})
  copy_change_dir repo =
      if not (str_eq e.change_dir "") && str_eq repo e.change_repo
      then elim (v.copy_change repo) [
        | none ↦ pure tt
        | some message ↦ raise (setup_failed message)
      ]
      else pure tt

  module _ (repo : String) where
    -- The gates in the order of their names.
    unfoldable pub run_gates : List (String × String) → Exec Host (Unit {0})
    run_gates [] = pure tt
    run_gates (g ∷ gs) = do
      done ← phase_passed repo g.0
      if done then run_gates gs else do
        res ← run_code_gate v.outside v.join (runner_of repo) g.0 g.1
        if not res.passed then raise (gate_stopped g.0 repo) else run_gates gs

    unfoldable pub placeholder_gate : Exec Host (Unit {0})
    placeholder_gate = do
      done ← phase_passed repo "test"
      if done then pure tt else do
        run_code_gate v.outside v.join (runner_of repo) "test" "echo 'Deterministic gate passed'"
        pure tt

    -- The error of an agent phase fails the stage.
    unfoldable pub agent_error : PhaseEnd → Exec Host (Unit {0})
    agent_error (finished envelope blocked) = pure tt
    agent_error (stopped blocked failure) = raise failure

    unfoldable pub review_verdict : PhaseEnd → Exec Host (Unit {0})
    review_verdict (finished envelope blocked) =
        if has_blocking_finding (v.reviewed envelope.payload)
        then raise (blocking_finding repo)
        else pure tt
    review_verdict (stopped blocked failure) = raise failure

    unfoldable pub run_review : ℕ → Exec Host (Unit {0})
    run_review retries = do
      done ← phase_passed repo "review"
      if done then pure tt else elim (v.diff repo) [
        | some message ↦ raise (setup_failed message)
        | none ↦
            (run_agent_phase v.outside v.join (runner_of repo) "review" retries >>= review_verdict)
      ]

    unfoldable pub run_agent : String → ℕ → Exec Host (Unit {0})
    run_agent phase retries = do
      done ← phase_passed repo phase
      if done
          then pure tt
          else (run_agent_phase v.outside v.join (runner_of repo) phase retries >>= agent_error)

    -- The switch on the name of a phase.
    unfoldable pub run_phase : Repo → String → Exec Host (Unit {0})
    run_phase cfg phase =
        if str_eq phase "test"
        then elim cfg.gates [
          | [] ↦ placeholder_gate
          | g ∷ gs ↦ run_gates (sorted_gates v.name_le (g ∷ gs))
        ]
        else if str_eq phase "review"
        then run_review cfg.retries
        else run_agent phase cfg.retries

    unfoldable pub run_phases : Repo → List String → Exec Host (Unit {0})
    run_phases cfg [] = pure tt
    run_phases cfg (p ∷ ps) = do run_phase cfg p; run_phases cfg ps

  unfoldable pub run_repo : List String → String → Exec Host (Unit {0})
  run_repo after repo = elim (repo_of e repo) [
    | none ↦ raise (unknown_repo repo)
    | some cfg ↦ do
      worktree ← prepare_worktree v cfg.path run_id repo
      inject_all worktree after
      copy_change_dir repo
      run_phases repo cfg (pipeline_for cfg.pipeline)
  ]

  unfoldable pub run_repos : List String → List String → Exec Host (Unit {0})
  run_repos after [] = pure tt
  run_repos after (r ∷ rs) = do run_repo after r; run_repos after rs

  unfoldable pub run_stage : DagStage → Exec Host (Unit {0})
  run_stage stage = run_repos stage.after stage.repos
