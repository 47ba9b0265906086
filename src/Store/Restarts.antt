-- ===== src/Store/Restarts.antt =====
-- internal/store/reconcile.go: a start of the coordinator keeps the tables well-formed, whichever
-- statements the database refuses.
use sgt.Base.{ℕ, String, ◌&&◌, List, [], ◌∷◌, str_eq, refl, ◌≡◌, inl, inr, Bool-cases}
use sgt.Store.Types.{RunRecord, PhaseRecord}
use sgt.Base.Keeps.{Keeps, Keeps-pure, Keeps-bind, Keeps-then, Keeps-select, Keeps-time_now}
use sgt.Base.Keys.{map-Apart}
use sgt.Store.Runs.{has_id}
use sgt.Store.Reconcile.{
  interrupt_run, interrupt_phase, reconcile_run, reconcile_phase, reconcile_running_phases,
  fetch_phases, reconcile_each, reconcile_found, reconcile_orphaned_runs, is_running,
  phase_is_running,
}
use sgt.Store.WellFormed.{WellFormed, runs-WellFormed, phases-WellFormed, same_request}
use sgt.Store.Writes.{Keeps-write, record_transition-Keeps}

interrupt_run-id :
    (id : String) (now : ℕ) (r : RunRecord)
    → ((interrupt_run id now r).id ≡ r.id) × ((interrupt_run id now r).request_id ≡ r.request_id)
interrupt_run-id id now r = elim (Bool-cases (has_id id r && is_running r)) [
  | inl e ↦ rw e (refl, refl)
  | inr e ↦ rw e (refl, refl)
]

interrupt_phase-id : (id : String) (p : PhaseRecord) → (interrupt_phase id p).id ≡ p.id
interrupt_phase-id id p = elim (Bool-cases (str_eq p.id id && phase_is_running p)) [
  | inl e ↦ rw e refl
  | inr e ↦ rw e refl
]

reconcile_run-Keeps : (id : String) → Keeps WellFormed (reconcile_run id)
unfolding reconcile_run
reconcile_run-Keeps id = Keeps-bind _ _ Keeps-time_now (λ now.
    Keeps-then _ _
      (Keeps-write _ (λ t h.
        let k = interrupt_run-id id now in
        runs-WellFormed t h _
          (map-Apart (λ r s. str_eq r.id s.id) (interrupt_run id now)
            (λ x y. rw ((k x).0, (k y).0) refl) t.runs h.runs)
          (map-Apart (λ r s. same_request r.request_id s.request_id) (interrupt_run id now)
            (λ x y. rw ((k x).1, (k y).1) refl) t.runs h.requests)))
      (record_transition-Keeps _ _ _))

reconcile_phase-Keeps : (run_id id : String) → Keeps WellFormed (reconcile_phase run_id id)
unfolding reconcile_phase
reconcile_phase-Keeps run_id id =
    Keeps-then _ _
      (Keeps-write _ (λ t h.
        let k = interrupt_phase-id id in
        phases-WellFormed t h _ (
          map-Apart (λ r s. str_eq r.id s.id) (interrupt_phase id) (λ x y. rw (k x, k y) refl)
            t.phases h.phases)))
      (record_transition-Keeps _ _ _)

reconcile_running_phases-Keeps :
    (run_id : String) (ids : List String) → Keeps WellFormed (reconcile_running_phases run_id ids)
unfolding reconcile_running_phases
reconcile_running_phases-Keeps run_id [] = Keeps-pure 0
reconcile_running_phases-Keeps run_id (id ∷ ids) =
    Keeps-then _ _ (reconcile_phase-Keeps run_id id)
      (Keeps-bind _ _ (reconcile_running_phases-Keeps run_id ids) (λ _. Keeps-pure _))

fetch_phases-Keeps : (cs : List (List RunRecord)) → Keeps WellFormed (fetch_phases cs)
unfolding fetch_phases
fetch_phases-Keeps [] = Keeps-pure []
fetch_phases-Keeps (c ∷ cs) =
    Keeps-bind _ _ (Keeps-select _)
      (λ _. Keeps-bind _ _ (fetch_phases-Keeps cs) (λ _. Keeps-pure _))

reconcile_each-Keeps :
    (rows : List (String × String)) (rs : List RunRecord)
    → Keeps WellFormed (reconcile_each rows rs)
unfolding reconcile_each
reconcile_each-Keeps rows [] = Keeps-pure _
reconcile_each-Keeps rows (r ∷ rs) = Keeps-then _ _ (reconcile_run-Keeps r.id) (
    Keeps-bind _ _ (reconcile_running_phases-Keeps _ _)
      (λ n. Keeps-bind _ _ (reconcile_each-Keeps rows rs) (λ _. Keeps-pure _)))

reconcile_found-Keeps : (rs : List RunRecord) → Keeps WellFormed (reconcile_found rs)
unfolding reconcile_found
reconcile_found-Keeps [] = Keeps-pure _
reconcile_found-Keeps (r ∷ rs) =
    Keeps-bind _ _ (fetch_phases-Keeps _) (λ rows. reconcile_each-Keeps rows (r ∷ rs))

pub reconcile_orphaned_runs-Keeps : Keeps WellFormed reconcile_orphaned_runs
unfolding reconcile_orphaned_runs
reconcile_orphaned_runs-Keeps = Keeps-bind _ _ (Keeps-select _) reconcile_found-Keeps
