-- ===== src/Store/Reconcile.antt =====
-- internal/store/reconcile.go: what a start of the coordinator does to the runs that a stop cut off.
use sgt.Base.{
  ℕ, zero, suc, ◌+◌, ◌-◌, String, Bool, true, ◌&&◌, List, [], ◌∷◌, ◌++◌, str_eq, if◌then◌else◌, any,
  filterb, Exec, pure, select, time_now, ◌>>=◌, ◌>>◌, update, map,
}
use sgt.Store.Types.{
  RunStatus, run_status_eq, RunRecord, PhaseRecord, run_channel, phase_channel, text, flag,
  run_status, Tables,
}
use sgt.Store.Changes.{record_transition}
use sgt.Store.Runs.{has_id}

pub record ReconcileResult : Type 0 where
  pub runs_reconciled : ℕ
  pub phases_reconciled : ℕ

abbrev pub is_running : RunRecord → Bool
is_running r = run_status_eq r.status RunStatus.running

abbrev pub phase_is_running : PhaseRecord → Bool
phase_is_running p = str_eq p.status "running"

abbrev pub interrupt_run : String → ℕ → RunRecord → RunRecord
interrupt_run run_id now r =
    if has_id run_id r && is_running r
    then record r { status = RunStatus.interrupted; updated_at = now }
    else r

-- `datetime('now')` is the clock of the database, taken to be the same.
unfoldable pub reconcile_run : String → Exec Tables (Unit {0})
reconcile_run run_id = do
  now ← time_now
  update (λ t. record t { runs = map (interrupt_run run_id now) t.runs })
  record_transition run_channel run_id (
      ("transition", text "status")
      ∷ ("id", text run_id)
      ∷ ("status", run_status RunStatus.interrupted)
      ∷ ("terminal", flag true)
      ∷ ("reconciled", flag true)
      ∷ [])

abbrev pub interrupt_phase : String → PhaseRecord → PhaseRecord
interrupt_phase phase_id p =
    if str_eq p.id phase_id && phase_is_running p then record p { status = "interrupted" } else p

unfoldable pub reconcile_phase : String → String → Exec Tables (Unit {0})
reconcile_phase run_id phase_id = do
  update (λ t. record t { phases = map (interrupt_phase phase_id) t.phases })
  record_transition phase_channel phase_id (
      ("id", text phase_id)
      ∷ ("run_id", text run_id)
      ∷ ("status", text "interrupted")
      ∷ ("reconciled", flag true)
      ∷ [])

unfoldable pub reconcile_running_phases : String → List String → Exec Tables ℕ
reconcile_running_phases run_id [] = pure 0
reconcile_running_phases run_id (phase_id ∷ ids) = do
  reconcile_phase run_id phase_id
  n ← reconcile_running_phases run_id ids
  pure (n + 1)

-- The rows of one query of the bulk fetch, as (id, run_id).
abbrev pub chunk_rows : List RunRecord → Tables → List (String × String)
chunk_rows chunk t =
    map (λ p. (p.id, p.run_id))
      (filterb (λ p. phase_is_running p && any (has_id p.run_id) chunk) t.phases)

abbrev pub chunk_size : ℕ
chunk_size = 500

-- The runs are cut into chunks of `size`: `room` more fit into the chunk of the first run.
unfoldable pub chunks : ℕ → ℕ → List RunRecord → List (List RunRecord)
chunks size room [] = []
chunks size room (r ∷ []) = (r ∷ []) ∷ []
chunks size zero (r ∷ r' ∷ rs) = (r ∷ []) ∷ chunks size (size - 1) (r' ∷ rs)
chunks size (suc room) (r ∷ r' ∷ rs) = elim (chunks size room (r' ∷ rs)) [
  | [] ↦ (r ∷ []) ∷ []
  | c ∷ cs ↦ (r ∷ c) ∷ cs
]

unfoldable pub fetch_phases : List (List RunRecord) → Exec Tables (List (String × String))
fetch_phases [] = pure []
fetch_phases (chunk ∷ rest) = do
  rows ← select (chunk_rows chunk)
  more ← fetch_phases rest
  pure (rows ++ more)

-- phasesByRun[run.ID]
unfoldable pub phases_by_run : List (String × String) → String → List String
phases_by_run rows run_id = map (λ r. r.0) (filterb (λ r. str_eq r.1 run_id) rows)

unfoldable pub reconcile_each :
    List (String × String) → List RunRecord → Exec Tables ReconcileResult
reconcile_each rows [] = pure (record { runs_reconciled = 0; phases_reconciled = 0 })
reconcile_each rows (run ∷ orphans) = do
  reconcile_run run.id
  n ← reconcile_running_phases run.id (phases_by_run rows run.id)
  rest ← reconcile_each rows orphans
  pure (record {
    runs_reconciled = rest.runs_reconciled + 1;
    phases_reconciled = rest.phases_reconciled + n;
  })

unfoldable pub reconcile_found : List RunRecord → Exec Tables ReconcileResult
reconcile_found [] = pure (record { runs_reconciled = 0; phases_reconciled = 0 })
reconcile_found (run ∷ orphans) = do
  rows ← fetch_phases (chunks chunk_size (chunk_size - 1) (run ∷ orphans))
  reconcile_each rows (run ∷ orphans)

unfoldable pub reconcile_orphaned_runs : Exec Tables ReconcileResult
reconcile_orphaned_runs = do
  orphans ← select (λ t. filterb is_running t.runs)
  reconcile_found orphans
