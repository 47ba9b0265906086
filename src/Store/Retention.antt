-- ===== src/Store/Retention.antt =====
-- internal/store/retention.go: the rotation of old runs into the rollup of their project.
--
-- `decode` is json.Unmarshal of a phase's payload into runProvenance: `none` is its error. A
-- rollup's JSON columns are read back as they were written.
use sgt.Base.{
  ℕ, ◌+◌, String, Bool, true, false, ◌&&◌, Option, none, some, List, [], ◌∷◌, ◌++◌, str_eq, ltb,
  if◌then◌else◌, any, all, filterb, find?, length, map_where, Exec, pure, select, time_now, ◌>>=◌,
  ◌>>◌, update, not, on_error,
}
use sgt.Store.Types.{
  RunStatus, RunRecord, PhaseRecord, BulletStatus, BulletRecord, EnvelopeRecord, bullet_status_eq,
}
use sgt.Store.Rows.{list_bullets_for_intent}
use sgt.Store.Phases.{list_phases_for_run}
use sgt.Store.World.{Counts, RetentionRollup, World, in_tables, Rotation}

-- m[key]++
unfoldable pub increment : String → Counts → Counts
increment key m = λ k. if str_eq k key then m k + 1 else m k

-- rotationEligibleStatusesSQL
unfoldable pub rotation_eligible_status : RunStatus → Bool
rotation_eligible_status RunStatus.passed = true
rotation_eligible_status RunStatus.failed = true
rotation_eligible_status RunStatus.cancelled = true
rotation_eligible_status RunStatus.interrupted = true
rotation_eligible_status _ = false

pub record RunProvenance : Type 0 where
  pub agent : String
  pub model : String
  pub provider : String

abbrev pub no_provenance : RunProvenance
no_provenance = record { agent = ""; model = ""; provider = "" }

-- The loop of provenanceForRun.
unfoldable pub first_provenance : (String → Option RunProvenance) → List PhaseRecord → RunProvenance
first_provenance decode [] = no_provenance
first_provenance decode (p ∷ ps) =
    let rest = first_provenance decode ps in
    if str_eq p.payload "" then rest else elim (decode p.payload) [
      | none ↦ rest
      | some prov ↦ if not (str_eq prov.agent "") then prov else rest
    ]

unfoldable pub provenance_for_run :
    (String → Option RunProvenance) → String → Exec World RunProvenance
provenance_for_run decode run_id = do
  phases ← in_tables (list_phases_for_run run_id)
  pure (first_provenance decode phases)

abbrev pub of_project : String → RetentionRollup → Bool
of_project project r = str_eq r.project project

abbrev pub rollup_of : String → List RetentionRollup → Option RetentionRollup
rollup_of project rollups = find? (of_project project) rollups

-- `none` stands for `found` false.
unfoldable pub get_retention_rollup : String → Exec World (Option RetentionRollup)
get_retention_rollup project = select (λ w. rollup_of project w.rollups)

-- INSERT ... ON CONFLICT(project) DO UPDATE of every other column.
unfoldable pub upserted : RetentionRollup → List RetentionRollup → List RetentionRollup
upserted r rollups =
    if any (of_project r.project) rollups
    then map_where (of_project r.project) (λ _. r) rollups
    else rollups ++ r ∷ []

unfoldable pub upsert_retention_rollup : RetentionRollup → Exec World (Unit {0})
upsert_retention_rollup r = update (λ w. record w { rollups = upserted r w.rollups })

abbrev pub is_merged : BulletRecord → Bool
is_merged b = bullet_status_eq b.status BulletStatus.merged

unfoldable pub intent_fully_merged : String → Exec World Bool
intent_fully_merged intent_id =
    if str_eq intent_id ""
    then pure true
    else do bullets ← in_tables (list_bullets_for_intent intent_id); pure (all is_merged bullets)

abbrev pub no_rollup : String → RetentionRollup
no_rollup project = record {
  project = project;
  computed_through = 0;
  run_count = 0;
  passed_count = 0;
  failed_count = 0;
  cancelled_count = 0;
  interrupted_count = 0;
  bullet_total = 0;
  bullet_merged = 0;
  by_work_type = λ _. 0;
  by_agent = λ _. 0;
  by_model = λ _. 0;
  by_provider = λ _. 0;
}

-- The `switch run.Status`.
unfoldable pub count_status : RunStatus → RetentionRollup → RetentionRollup
count_status RunStatus.passed c = record c { passed_count = c.passed_count + 1 }
count_status RunStatus.failed c = record c { failed_count = c.failed_count + 1 }
count_status RunStatus.cancelled c = record c { cancelled_count = c.cancelled_count + 1 }
count_status RunStatus.interrupted c = record c { interrupted_count = c.interrupted_count + 1 }
count_status _ c = c

abbrev pub current_rollup : String → Option RetentionRollup → RetentionRollup
current_rollup project none = no_rollup project
current_rollup project (some r) = r

unfoldable pub counted : RunRecord → RunProvenance → ℕ → RetentionRollup → RetentionRollup
counted run prov now c =
    let c' = count_status run.status (record c { run_count = c.run_count + 1 }) in
    record c' {
      by_work_type = increment run.type c'.by_work_type;
      by_agent = increment prov.agent c'.by_agent;
      by_model = increment prov.model c'.by_model;
      by_provider = increment prov.provider c'.by_provider;
      computed_through = now;
    }

unfoldable pub count_bullets : List BulletRecord → RetentionRollup → RetentionRollup
count_bullets bullets c = record c {
  bullet_total = c.bullet_total + length bullets;
  bullet_merged = c.bullet_merged + length (filterb is_merged bullets);
}

unfoldable pub fold_run_into_rollup : String → RunRecord → RunProvenance → Exec World (Unit {0})
fold_run_into_rollup project run prov = do
  found ← get_retention_rollup project
  now ← time_now
  let current = counted run prov now (current_rollup project found)
  if str_eq run.intent_id "" then upsert_retention_rollup current else do
    bullets ← in_tables (list_bullets_for_intent run.intent_id)
    upsert_retention_rollup (count_bullets bullets current)

abbrev pub of_run : String → EnvelopeRecord → Bool
of_run run_id e = str_eq e.run_id run_id

unfoldable pub without_deliveries : String → World → World
without_deliveries run_id w = record w {
  deliveries = record w.deliveries {
    rows =
        filterb
          (λ d.
            not (any (λ e. str_eq e.id d.envelope_id) (filterb (of_run run_id) w.tables.envelopes)))
          w.deliveries.rows;
  };
}

unfoldable pub without_envelopes : String → World → World
without_envelopes run_id w = record w {
  tables = record w.tables { envelopes = filterb (λ e. not (of_run run_id e)) w.tables.envelopes };
}

unfoldable pub without_phases : String → World → World
without_phases run_id w = record w {
  tables = record w.tables { phases = filterb (λ p. not (str_eq p.run_id run_id)) w.tables.phases };
}

unfoldable pub without_run : String → World → World
without_run run_id w = record w {
  tables = record w.tables { runs = filterb (λ r. not (str_eq r.id run_id)) w.tables.runs };
}

unfoldable pub rotate_one_run :
    (String → Option RunProvenance) → String → RunRecord → Exec World (Unit {0})
rotate_one_run decode project run = do
  prov ← provenance_for_run decode run.id
  fold_run_into_rollup project run prov
  update (without_deliveries run.id)
  update (without_envelopes run.id)
  update (without_phases run.id)
  update (without_run run.id)

-- The loop over the candidates, with the number of runs rotated so far.
unfoldable pub rotate_each :
    (String → Option RunProvenance) → String → List RunRecord → ℕ → Exec World Rotation
rotate_each decode project [] rotated = pure (rotated, none)
rotate_each decode project (r ∷ rs) rotated =
    on_error (intent_fully_merged r.intent_id) (λ e. pure (rotated, some e))
      (λ eligible.
        if not eligible
        then rotate_each decode project rs rotated
        else on_error (rotate_one_run decode project r) (λ e. pure (rotated, some e))
            (λ _. rotate_each decode project rs (rotated + 1)))

abbrev pub is_candidate : String → ℕ → RunRecord → Bool
is_candidate project cutoff r =
    str_eq r.project project && rotation_eligible_status r.status && ltb r.created_at cutoff

unfoldable pub rotate_project : (String → Option RunProvenance) → String → ℕ → Exec World Rotation
rotate_project decode project cutoff =
    on_error (select (λ w. filterb (is_candidate project cutoff) w.tables.runs))
      (λ e. pure (0, some e)) (λ candidates. rotate_each decode project candidates 0)
