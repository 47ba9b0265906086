-- ===== src/Server/Runs.antt =====
-- Runs of internal/ui/dispatch.go, gatefix.go and server.go at concrete inputs.
use sgt.Base.{
  Option, some, str_eq, String, true, suc, ℕ, Bool, false, List, [], ◌∷◌, Disk, Exec, quiet, refl,
  ◌≡◌, ok, leb,
}
use sgt.Runner.Types.{Host}
use sgt.Server.Stages.{
  DagStage, last_failed_phase, last_failed, stage_for_repo, repos_for_run, repos_of,
}
use sgt.Server.Execute.{
  Readings, cancelled_now, run_stages, record_delivery, deliver_run, set_terminal, run_outcome,
  rerun_stage, after_fix, fix_failure, fix_cycle, fix_cycles,
}
use sgt.Server.Ended.{Ran, run_outcome-Ran}
use sgt.Server.Corrected.{Repaired, fix_cycles-Repaired}
use sgt.Runner.Types.{in_world, process}
use sgt.Store.Rows.{one_row}
use sgt.Store.Phases.{
  record_phase, replace_phase, touch_run, list_phases_for_run, causation_from_latest,
  get_latest_envelope, record_envelope, missing_field, publish, envelope_insert,
}
use sgt.Store.Changes.{record_transition, append_change, append_row, notify_change}
use sgt.Delivery.Ops.{
  deliver_envelope, deliver_retry_loop, retry_rounds, call, round, conclude, returned, error_of,
}
use sgt.Delivery.Rows.{
  is_already_terminal_success, insert_delivery_row, success_row, has_key, is_success,
  violates_index, new_row, error_text, delivery_id, delivery_idempotency_key,
}
use sgt.Runner.Phases.{
  run_agent_phase, run_attempts, run_attempt, own_envelope, redacted, cancel_attempt,
  settle_attempt, deliver_handoff, record_handoff, succeeded, concluded, blocked_reason_of,
}
use sgt.Runner.Capture.{capture_artifacts}
use sgt.Server.Shipping.{Evaluates, after_seal, after_seal-Evaluates}
use sgt.Store.Types.{BulletStatus, IntentStatus, Tables}
use sgt.Store.Examples.{bullet_of, intent_of, tables_of}
use sgt.Engine.Examples.{outside, started, host_of, passed_phase}

abbrev readings : Readings
readings = record {
  review_errors = λ p. [];
  join_reasons = λ rs. "";
  blocked_reason = λ p. "";
  delivery_repo = "api";
  delivery_summary = "done";
  delivery_artifacts = [];
  delivery_data = "{}";
  delivery_id = λ r n. "d1";
  redact_text = λ s. s;
  redact_json = λ s. s;
}

abbrev build_stage : DagStage
build_stage = record { name = "build"; repos = "api" ∷ []; after = []; brief = "b"; td = "" }

abbrev two_stages : List DagStage
two_stages = build_stage ∷ record build_stage { name = "review" } ∷ []

-- Time passes while a stage runs.
abbrev run_quickly : DagStage → Exec Host (Unit {0})
run_quickly s d = (ok tt, record d { now = suc d.now })

-- No cancellation before the hundredth tick.
abbrev late : ℕ → Bool
late now = leb 100 now

abbrev outcome : Disk Host
outcome = (run_outcome readings late run_quickly "r1" two_stages started).1

run_outcome-Ran_example :
    Ran readings late run_quickly two_stages started × (late outcome.now ≡ false)
unfolding run_outcome run_stages cancelled_now deliver_run record_delivery in_world
    causation_from_latest get_latest_envelope record_envelope missing_field publish envelope_insert
    record_transition append_change set_terminal
run_outcome-Ran_example = run_outcome-Ran readings late run_quickly "r1" two_stages started refl

-- The gate of the repository has failed, and its first corrective cycle is the one that passes.
abbrev gate_failed : Disk Host
gate_failed =
    quiet (host_of (record (passed_phase "p1" "lint") { kind = "gate"; status = "failed" } ∷ [])) 0

abbrev repaired : Disk Host
repaired =
    (fix_cycles readings late run_quickly outside (λ ds. "") (λ repos. two_stages) 1 "r1" "api" 2 1
      gate_failed).1

fix_cycles-Repaired_example :
    Repaired readings late run_quickly outside
      (λ ds. "")
      (λ repos. two_stages)
      1
      "r1"
      "api"
      repaired
unfolding fix_cycles fix_cycle cancelled_now fix_failure last_failed_phase last_failed rerun_stage
    after_fix stage_for_repo repos_for_run repos_of run_agent_phase run_attempts run_attempt process
    own_envelope redacted cancel_attempt settle_attempt deliver_handoff deliver_envelope
    is_already_terminal_success insert_delivery_row deliver_retry_loop retry_rounds call round
    conclude returned record_handoff causation_from_latest get_latest_envelope one_row
    record_envelope missing_field publish envelope_insert record_phase replace_phase touch_run
    record_transition append_change append_row notify_change capture_artifacts succeeded concluded
    blocked_reason_of in_world list_phases_for_run success_row has_key is_success violates_index
    new_row error_text delivery_id delivery_idempotency_key error_of
fix_cycles-Repaired_example =
    fix_cycles-Repaired readings late run_quickly outside (λ ds. "") (λ repos. two_stages) 1 "r1"
      "api" 2 1 gate_failed refl

-- Both bullets are ready, and the second gate fails.
abbrev ready : Tables
ready =
    record (tables_of []
      (bullet_of "b1" 0 BulletStatus.merged ∷ bullet_of "b2" 1 BulletStatus.sealed ∷ []) [] 0) {
        intents = intent_of IntentStatus.in_progress ∷ [];
      }

abbrev only_lint : String → String → List String → Option Bool
only_lint name command worktrees = some (str_eq name "lint")

abbrev shipping : List (String × String)
shipping = ("lint", "make lint") ∷ ("unit", "make test") ∷ []

after_seal-Evaluates_example :
    Evaluates only_lint
      (λ s. s)
      (λ a b. true)
      (some shipping)
      "i1"
      ready
      5
      (after_seal only_lint (λ s. s) (λ a b. true) (some shipping) "i1" (quiet ready 5))
after_seal-Evaluates_example =
    after_seal-Evaluates only_lint (λ s. s) (λ a b. true) (some shipping) "i1" ready 5 refl refl
