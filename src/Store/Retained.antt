-- ===== src/Store/Retained.antt =====
-- Rotation and analytics of internal/store at concrete inputs.
use sgt.Base.{
  some, ℕ, String, Bool, true, false, Option, none, some, [], ◌∷◌, str_eq, refl, ◌≡◌, ok, err,
  quiet, Disk, remove_failed, if◌then◌else◌, Result,
}
use sgt.Store.Types.{RunStatus, BulletStatus, PhaseRecord, bullet_status_eq, run_status_eq}
use sgt.Store.World.{World, ArtifactRecord}
use sgt.Store.Retention.{
  RunProvenance, rotate_project, rotate_each, rotation_eligible_status, intent_fully_merged,
  rotate_one_run, provenance_for_run, first_provenance, fold_run_into_rollup, get_retention_rollup,
  upsert_retention_rollup, upserted, counted, count_status, count_bullets, without_deliveries,
  without_envelopes, without_phases, without_run,
}
use sgt.Store.Rows.{
  list_bullets_for_intent, bullets_of, order_by_position, insert_by_position, bullet_comes_first,
}
use sgt.Store.Phases.{list_phases_for_run}
use sgt.Store.Analytics.{
  WorkAnalytics, compute_work_analytics, all_runs_for_analytics, count_runs, count_run,
  all_bullets_for_analytics, retention_rollups_for, is_named, only, add_rollups, add_rollup,
}
use sgt.Store.Artifacts.{rotate_artifacts}
use sgt.Store.Pass.{Rotates, rotate_project-Rotates, compute_work_analytics-rotate_project}
use sgt.Store.Horizon.{rotate_artifacts-outcome}
use sgt.Store.Examples.{run_of, bullet_of, tables_of}

abbrev decoded : String → Option RunProvenance
decoded payload =
    if str_eq payload "goose"
    then some (record { agent = "goose"; model = "m"; provider = "p" })
    else none

abbrev phase_of : String → String → String → PhaseRecord
phase_of id run_id payload = record {
  id = id;
  run_id = run_id;
  repo = "api";
  name = "implement";
  kind = "agent";
  status = "passed";
  error = "";
  duration_ms = 5;
  payload = payload;
  attempt = 1;
  fix_cycle = 0;
  created_at = 1;
}

abbrev artifact_of : String → String → ℕ → ArtifactRecord
artifact_of id path captured_at = record {
  id = id;
  run_id = "r1";
  phase_id = "p1";
  repo = "api";
  filename = path;
  content_type = "text/plain";
  size_bytes = 3;
  path = path;
  captured_at = captured_at;
  dropped_count = 0;
  dropped_reason = "";
}

-- r1 is old and its only bullet merged; r2 still runs.
abbrev world : World
world = record {
  tables =
      record (tables_of (run_of "r1" "" RunStatus.passed ∷ run_of "r2" "" RunStatus.running ∷ [])
        (bullet_of "b1" 0 BulletStatus.merged ∷ []) [] 0) {
          phases = phase_of "p1" "r1" "goose" ∷ phase_of "p2" "r2" "" ∷ [];
        };
  deliveries = record { rows = []; calls = 0 };
  rollups = [];
  artifacts = artifact_of "a1" "/x" 1 ∷ artifact_of "a2" "/y" 2 ∷ artifact_of "a3" "/z" 9 ∷ [];
  files = "/x" ∷ "/y" ∷ "/z" ∷ [];
}

abbrev text_le : String → String → Bool
text_le a b = true

rotate_project-Rotates_example : Rotates decoded "sgt" 5 world 10
rotate_project-Rotates_example =
    rotate_project-Rotates decoded "sgt" 5 world 10 ((refl, tt), (tt, tt))

compute_work_analytics-rotate_project_example :
    (wa : WorkAnalytics) × ((compute_work_analytics decoded text_le "all" (quiet world 10)).0
      ≡ ok wa)
    × ((compute_work_analytics decoded text_le "all"
          (rotate_project decoded "sgt" 5 (quiet world 10)).1).0
        ≡ ok wa)
compute_work_analytics-rotate_project_example =
    compute_work_analytics-rotate_project decoded text_le "all" "sgt" 5 world 10
      ((refl, tt), (tt, tt)) tt

rotate_artifacts-outcome_example :
    rotate_artifacts (λ p. str_eq p "/y") (λ w. true) 5 (quiet world 10) ≡ (
      ok (1, some remove_failed),
      quiet
          (record world {
            artifacts = artifact_of "a2" "/y" 2 ∷ artifact_of "a3" "/z" 9 ∷ [];
            files = "/y" ∷ "/z" ∷ [];
          })
          10,
    )
rotate_artifacts-outcome_example =
    rotate_artifacts-outcome (λ p. str_eq p "/y") (λ w. true) 5 world 10 refl

-- The number of runs that a report counts.
abbrev runs_counted : Result WorkAnalytics → ℕ
runs_counted (ok wa) = wa.total_runs
runs_counted (err e) = 0

-- The database refuses the last statement of a pass, the DELETE of the run.
abbrev broken_pass : Disk World
broken_pass =
    (rotate_project decoded "sgt" 5 (record {
      db = world;
      now = 10;
      faults = false ∷ false ∷ false ∷ false ∷ false ∷ false ∷ false ∷ false ∷ false ∷ true ∷ [];
    })).1

-- The run is in the table and in the rollup: the report counts three runs, where there are two.
broken_pass-counted_twice :
    runs_counted (compute_work_analytics decoded text_le "sgt" broken_pass).0 ≡ 3
unfolding rotate_project compute_work_analytics all_runs_for_analytics rotate_each
    rotation_eligible_status intent_fully_merged list_bullets_for_intent bullets_of
    order_by_position insert_by_position bullet_comes_first bullet_status_eq rotate_one_run
    provenance_for_run list_phases_for_run first_provenance fold_run_into_rollup
    get_retention_rollup upsert_retention_rollup upserted counted count_status count_bullets
    without_deliveries without_envelopes without_phases without_run count_runs count_run
    all_bullets_for_analytics retention_rollups_for is_named only add_rollups add_rollup
    run_status_eq
broken_pass-counted_twice = refl
