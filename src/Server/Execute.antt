-- ===== src/Server/Execute.antt =====
-- internal/ui/dispatch.go: executeRun, and gatefix.go: runFixCycles.
--
-- The engine is an interface (stageRunner): `run_stage` is what it does with a stage. `cancelled` says of
-- a time whether the context has been cancelled by then. Not modelled: the commits of the
-- worktrees, which only git sees, and the samples of the plan's progress.
use sgt.Base.{
  ℕ, zero, suc, ◌+◌, String, Bool, Option, none, some, List, [], ◌∷◌, if◌then◌else◌, ok, Exec, pure,
  time_now, ◌>>=◌, ◌>>◌, on_error, ignore,
}
use sgt.Store.Types.{RunStatus, PhaseRecord}
use sgt.Store.World.{in_tables}
use sgt.Store.Rows.{get_run}
use sgt.Store.Phases.{record_envelope, causation_from_latest}
use sgt.Runner.Types.{Host, in_world, Outside}
use sgt.Runner.Capture.{Drop}
use sgt.Runner.Phases.{PhaseEnd, finished, stopped, run_agent_phase}
use sgt.Server.Stages.{
  DagStage, ProjectConfig, stage_for_repo, last_failed_phase, repos_for_run, resolve_stages,
  resolved_retries, resolved_fix_retries,
}
use sgt.Server.Terminal.{record_terminal_run, record_terminal_run_with_reason}

-- What the server reads of a payload for a blocked reason, and of the worktrees for a delivery.
pub record Readings : Type 0 where
  pub review_errors : String → List String
  pub join_reasons : List String → String
  pub blocked_reason : String → String
  pub delivery_repo : String
  pub delivery_summary : String
  pub delivery_artifacts : List String
  pub delivery_data : String
  pub delivery_id : String → ℕ → String
  pub redact_text : String → String
  pub redact_json : String → String

-- How a corrective loop ends.
pub data FixEnd : Type 0 where
  fix_passed fix_cancelled fix_exhausted : FixEnd

module _ (w : Readings) (cancelled : ℕ → Bool) (run_stage : DagStage → Exec Host (Unit {0})) where
  -- ctx.Err() != nil
  unfoldable pub cancelled_now : Exec Host Bool
  cancelled_now d = (ok (cancelled d.now), d)

  -- The loop over the stages.
  unfoldable pub run_stages : List DagStage → Exec Host RunStatus
  run_stages [] = pure RunStatus.passed
  run_stages (s ∷ ss) = do
    stop ← cancelled_now
    if stop
        then pure RunStatus.cancelled
        else on_error (run_stage s) (λ _. pure RunStatus.failed) (λ _. run_stages ss)

  unfoldable pub record_delivery : String → Exec Host (Unit {0})
  record_delivery run_id = do
    now ← time_now
    cause ← in_world (in_tables (causation_from_latest run_id w.delivery_repo))
    ignore (
        in_world (
          in_tables (
            record_envelope w.redact_text w.redact_json (record {
              id = w.delivery_id run_id now;
              run_id = run_id;
              repo = w.delivery_repo;
              stage = "review";
              summary = w.delivery_summary;
              artifacts = w.delivery_artifacts;
              body = w.delivery_data;
              created_at = 0;
              type = "run.delivered";
              schema_version = "1";
              occurred_at = now;
              published_at = 0;
              producer = "sgt/ui";
              correlation_id = run_id;
              causation_id = elim cause [ none ↦ "" | some id ↦ id ];
              phase_id = "";
            }))))

  -- A run whose stages all passed is delivered, unless it has been cancelled.
  unfoldable pub deliver_run : String → RunStatus → Exec Host RunStatus
  deliver_run run_id RunStatus.passed = do
    stop ← cancelled_now
    if stop then pure RunStatus.cancelled else do record_delivery run_id; pure RunStatus.passed
  deliver_run run_id status = pure status

  -- The status that setTerminal records: a cancellation is not overwritten.
  unfoldable pub set_terminal : RunStatus → Exec Host RunStatus
  set_terminal status = do stop ← cancelled_now; pure (if stop then RunStatus.cancelled else status)

  unfoldable pub run_outcome : String → List DagStage → Exec Host RunStatus
  run_outcome run_id stages = do
    reached ← run_stages stages
    delivered ← deliver_run run_id reached
    set_terminal delivered

  abbrev pub record_outcome : String → RunStatus → Exec Host (Unit {0})
  record_outcome run_id status = ignore (
      in_world (
        in_tables
          (record_terminal_run w.review_errors w.join_reasons w.blocked_reason run_id status)))

  unfoldable pub execute_run : String → List DagStage → Exec Host (Unit {0})
  execute_run run_id stages = do status ← run_outcome run_id stages; record_outcome run_id status

  module _ (o : Outside) (join : List Drop → String) (resolve : List String → List DagStage)
      (retries : ℕ) (run_id repo : String) where
    -- `resolve` is resolveStages of the project and the brief. The stage is re-run. `next` is the next cycle.
    unfoldable pub rerun_stage : Exec Host FixEnd → Option DagStage → Exec Host FixEnd
    rerun_stage next none = next
    rerun_stage next (some s) =
        on_error (run_stage s) (λ _. next)
          (λ _. do stop ← cancelled_now; pure (if stop then fix_cancelled else fix_passed))

    unfoldable pub after_fix : Exec Host FixEnd → PhaseEnd → Exec Host FixEnd
    after_fix next (stopped _ _) = next
    after_fix next (finished _ _) = do
      repos ← in_world (in_tables (repos_for_run run_id))
      rerun_stage next (stage_for_repo (resolve repos) repo)

    -- The agent is given the failure to fix. Its error is the failure of the cycle.
    unfoldable pub fix_failure : ℕ → Exec Host FixEnd → Option PhaseRecord → Exec Host FixEnd
    fix_failure cycle next none = pure fix_exhausted
    fix_failure cycle next (some _) =
        run_agent_phase o join (record { run_id = run_id; repo_name = repo; fix_cycle = cycle })
          "fix" retries
        >>= after_fix next

    unfoldable pub fix_cycle : ℕ → Exec Host FixEnd → Exec Host FixEnd
    fix_cycle cycle next = do
      stop ← cancelled_now
      if stop then pure fix_cancelled else do
        failure ← in_world (in_tables (last_failed_phase run_id repo))
        fix_failure cycle next failure

    -- The cycles, by the number that is left.
    unfoldable pub fix_cycles : ℕ → ℕ → Exec Host FixEnd
    fix_cycles zero cycle = pure fix_exhausted
    fix_cycles (suc left) cycle = fix_cycle cycle (fix_cycles left (cycle + 1))

  unfoldable pub record_fix_end : String → (ℕ → String) → ℕ → FixEnd → Exec Host (Unit {0})
  record_fix_end run_id exhausted limit fix_passed = record_outcome run_id RunStatus.passed
  record_fix_end run_id exhausted limit fix_cancelled = record_outcome run_id RunStatus.cancelled
  record_fix_end run_id exhausted limit fix_exhausted = ignore (
      in_world
        (in_tables (record_terminal_run_with_reason run_id RunStatus.failed (exhausted limit))))

  -- `sort` is sort.Strings; `exhausted` is the text of the spent budget.
  unfoldable pub run_fix_cycles :
      Outside
      → (List Drop → String)
      → (List String → List String)
      → ProjectConfig
      → (ℕ → String)
      → String
      → String
      → Exec Host (Unit {0})
  run_fix_cycles o join sort proj exhausted run_id repo =
      on_error (in_world (in_tables (get_run run_id))) (λ _. pure tt)
        (λ run. do
          let limit = resolved_fix_retries proj repo
          end ←
              fix_cycles o join (λ repos. resolve_stages sort proj.stages proj repos run.brief)
                (resolved_retries proj repo) run_id repo limit 1
          record_fix_end run_id exhausted limit end)
