-- ===== src/Store/Restart.antt =====
-- internal/store/reconcile.go: the runs after a start of the coordinator, while the database refuses
-- no statement.
use sgt.Base.{
  ℕ, ◌+◌, ◌-◌, String, Bool, true, false, ◌&&◌, List, [], ◌∷◌, ◌++◌, any, filterb, length, Disk,
  pure, ◌>>=◌, refl, ◌≡◌, ok, err, Result, quiet, arith, eq_iff, map, sym, ap, ◌∙◌, inl, inr,
  Bool-cases, ◌⊎◌, All, eq_true,
}
use sgt.Store.Types.{RunStatus, RunRecord, Tables, run_status_eq_iff}
use sgt.Store.Changes.{record_transition, append_change, append_row, notify_change}
use sgt.Store.Runs.{has_id}
use sgt.Store.Reconcile.{
  interrupt_run, reconcile_run, reconcile_phase, reconcile_running_phases, fetch_phases, chunks,
  chunk_rows, phases_by_run, reconcile_each, reconcile_found, reconcile_orphaned_runs, chunk_size,
  ReconcileResult, is_running,
}
use mathlib.Core.Path.{subst}
use sgt.Base.{continue}
use sgt.Store.Advancing.{All-imp, All-member, any-filterb}

-- What a restart does to a run: one that was running is interrupted, any other is as it was.
abbrev pub Restarted : RunRecord → RunRecord → Type 0
Restarted r s =
    (is_running r ≡ false → s ≡ r)
    × (is_running r ≡ true → (s.status ≡ RunStatus.interrupted) × (s.id ≡ r.id))

abbrev pub Each : (RunRecord → RunRecord → Type 0) → List RunRecord → List RunRecord → Type 0
Each R [] [] = Unit
Each R [] (_ ∷ _) = ⊥
Each R (_ ∷ _) [] = ⊥
Each R (r ∷ rs) (s ∷ ss) = R r s × Each R rs ss

-- A run that the loop has not reached yet is as it was.
abbrev Step : List RunRecord → RunRecord → RunRecord → Type 0
Step orphans r s =
    ((s ≡ r) × (is_running r ≡ true → any (has_id r.id) orphans ≡ true))
    ⊎ ((is_running r ≡ true) × (s.status ≡ RunStatus.interrupted) × (s.id ≡ r.id))

interrupted-stays :
    (id : String) (now : ℕ) (s : RunRecord) → is_running s ≡ false → interrupt_run id now s ≡ s
interrupted-stays id now s h = rw h (ground arith)

Step-found :
    (run : RunRecord) (orphans : List RunRecord) (now : ℕ) (r : RunRecord)
    → (is_running r ≡ true → any (has_id r.id) (run ∷ orphans) ≡ true)
    → Step orphans r (interrupt_run run.id now r)
Step-found run orphans now r k = elim (Bool-cases (has_id run.id r && is_running r)) [
  | inl q ↦ rw q (inr (ground arith, refl, refl))
  | inr q ↦
      rw q (inl (refl, λ i. let m = k i in ground (arith, eq_iff run.id r.id, eq_iff r.id run.id)))
]

Step-run :
    (run : RunRecord) (orphans : List RunRecord) (now : ℕ) (r s : RunRecord)
    → Step (run ∷ orphans) r s
    → Step orphans r (interrupt_run run.id now s)
Step-run run orphans now r s (inr (q, e, i)) =
    let done : is_running s ≡ false =
      ground (arith, run_status_eq_iff s.status RunStatus.running) in
    inr (
      q,
      ap (λ z. z.status) (interrupted-stays run.id now s done) ∙ e,
      ap (λ z. z.id) (interrupted-stays run.id now s done) ∙ i,
    )
Step-run run orphans now r s (inl (e, k)) =
    subst (λ z. Step orphans r (interrupt_run run.id now z)) (sym e)
      (Step-found run orphans now r k)

Each-run :
    (run : RunRecord) (orphans : List RunRecord) (now : ℕ) (rs ss : List RunRecord)
    → Each (Step (run ∷ orphans)) rs ss
    → Each (Step orphans) rs (map (interrupt_run run.id now) ss)
Each-run run orphans now [] [] h = tt
Each-run run orphans now [] (s ∷ ss) h = h
Each-run run orphans now (r ∷ rs) [] h = h
Each-run run orphans now (r ∷ rs) (s ∷ ss) h =
    (Step-run run orphans now r s h.0, Each-run run orphans now rs ss h.1)

abbrev Untouched : Disk Tables → Result ℕ × Disk Tables → Type 0
Untouched d p = (n : ℕ) × (p.0 ≡ ok n) × (p.1.db.runs ≡ d.db.runs) × (p.1.faults ≡ [])

reconcile_phase-runs :
    (run_id id : String) (t : Tables) (now : ℕ)
    → let p = reconcile_phase run_id id (quiet t now) in
      (p.0 ≡ ok tt) × (p.1.db.runs ≡ t.runs) × (p.1.faults ≡ [])
unfolding reconcile_phase record_transition append_change append_row notify_change
reconcile_phase-runs run_id id t now = (refl, refl, refl)

reconcile_running_phases-Untouched :
    (run_id : String) (ids : List String) (t : Tables) (now : ℕ)
    → Untouched (quiet t now) (reconcile_running_phases run_id ids (quiet t now))
unfolding reconcile_running_phases reconcile_phase record_transition append_change append_row
    notify_change
reconcile_running_phases-Untouched run_id [] t now = (0, refl, refl, refl)
reconcile_running_phases-Untouched run_id (id ∷ ids) t now =
    let d = (reconcile_phase run_id id (quiet t now)).1 in
    let (n, e, k, f) = reconcile_running_phases-Untouched run_id ids d.db d.now in
    (n + 1, rw e refl, rw e k, rw e f)

-- The loop over the orphans.
abbrev Swept : List RunRecord → List RunRecord → Result ReconcileResult × Disk Tables → Type 0
Swept orphans rs p =
    (res : ReconcileResult) × (p.0 ≡ ok res)
    × (res.runs_reconciled ≡ length orphans)
    × Each (Step []) rs p.1.db.runs

reconcile_each-Swept :
    (rows : List (String × String)) (orphans rs : List RunRecord) (t : Tables) (now : ℕ)
    → Each (Step orphans) rs t.runs
    → Swept orphans rs (reconcile_each rows orphans (quiet t now))
unfolding reconcile_each reconcile_run record_transition append_change append_row notify_change
reconcile_each-Swept rows [] rs t now h = (_, refl, refl, h)
reconcile_each-Swept rows (run ∷ orphans) rs t now h =
    let d = (reconcile_run run.id (quiet t now)).1 in
    let p = reconcile_running_phases run.id (phases_by_run rows run.id) d in
    go (reconcile_each-Swept rows orphans rs) p
      (reconcile_running_phases-Untouched run.id (phases_by_run rows run.id) d.db d.now)
  where
    go :
        ((t : Tables) (now : ℕ)
          → Each (Step orphans) rs t.runs
          → Swept orphans rs (reconcile_each rows orphans (quiet t now)))
        → (p : Result ℕ × Disk Tables) → Untouched (reconcile_run run.id (quiet t now)).1 p
        → Swept (run ∷ orphans) rs (
            continue p.0
              (λ n. reconcile_each rows orphans >>= λ rest. pure (record {
                runs_reconciled = rest.runs_reconciled + 1;
                phases_reconciled = rest.phases_reconciled + n;
              }))
              p.1)
    go loop (ok n, d) u =
        let (res, e, c, k) = loop d.db d.now (
          subst (λ ss. Each (Step orphans) rs ss) (sym u.2)
            (Each-run run orphans now rs t.runs h)) in
        subst
          (λ z. Swept (run ∷ orphans) rs (
            (reconcile_each rows orphans >>= λ rest. pure (record {
              runs_reconciled = rest.runs_reconciled + 1;
              phases_reconciled = rest.phases_reconciled + n;
            }))
              z))
          (sym (ap (λ fs. record d { faults = fs }) u.3))
          (
            record {
              runs_reconciled = res.runs_reconciled + 1;
              phases_reconciled = res.phases_reconciled + n;
            },
            rw e refl,
            omega (arith, c),
            rw e k,
          )
    go loop (err e, d) u = absurd (ground (arith, u.1))

Step-start : (rs : List RunRecord) → Each (Step (filterb is_running rs)) rs rs
Step-start rs = go (filterb is_running rs) rs (All-imp rs found (All-member rs))
  where
    found :
        (r : RunRecord)
        → ((p : RunRecord → Bool) → p r ≡ true → any p rs ≡ true)
        → is_running r ≡ true
        → any (has_id r.id) (filterb is_running rs) ≡ true
    found r k i =
        any-filterb is_running (has_id r.id) rs
        ∙ k (λ x. is_running x && has_id r.id x) (ground (arith, eq_true r.id r.id refl))

    go :
        (os ss : List RunRecord)
        → All (λ r. is_running r ≡ true → any (has_id r.id) os ≡ true) ss
        → Each (Step os) ss ss
    go os [] a = tt
    go os (s ∷ ss) a = (inl (refl, a.0), go os ss a.1)

Step-done : (rs ss : List RunRecord) → Each (Step []) rs ss → Each Restarted rs ss
Step-done [] [] h = tt
Step-done [] (s ∷ ss) h = h
Step-done (r ∷ rs) [] h = h
Step-done (r ∷ rs) (s ∷ ss) h = (go h.0, Step-done rs ss h.1)
  where
    go : Step [] r s → Restarted r s
    go (inl (e, k)) = ((λ _. e), λ i. absurd (let m = k i in ground arith))
    go (inr (q, e, i)) = ((λ n. absurd (ground arith)), λ _. (e, i))

fetch_phases-quiet :
    (cs : List (List RunRecord)) (t : Tables) (now : ℕ)
    → (rows : List (String × String)) × (fetch_phases cs (quiet t now) ≡ (ok rows, quiet t now))
unfolding fetch_phases
fetch_phases-quiet [] t now = ([], refl)
fetch_phases-quiet (c ∷ cs) t now =
    let (rows, e) = fetch_phases-quiet cs t now in (chunk_rows c t ++ rows, rw e refl)

abbrev pub Reconciled : Tables → Result ReconcileResult × Disk Tables → Type 0
Reconciled t p =
    (res : ReconcileResult) × (p.0 ≡ ok res)
    × (res.runs_reconciled ≡ length (filterb is_running t.runs))
    × Each Restarted t.runs p.1.db.runs

found-Reconciled :
    (os : List RunRecord) (t : Tables) (now : ℕ)
    → filterb is_running t.runs ≡ os
    → Reconciled t (reconcile_found os (quiet t now))
unfolding reconcile_found
found-Reconciled [] t now e = (
  _,
  refl,
  rw e refl,
  Step-done t.runs t.runs (subst (λ os. Each (Step os) t.runs t.runs) e (Step-start t.runs)),
)
found-Reconciled (o ∷ os) t now e =
    let (rows, f) = fetch_phases-quiet (chunks chunk_size (chunk_size - 1) (o ∷ os)) t now in
    let (res, q, c, k) =
      reconcile_each-Swept rows (o ∷ os) t.runs t now
        (subst (λ os. Each (Step os) t.runs t.runs) e (Step-start t.runs)) in
    rw f (res, q, rw e c, Step-done t.runs _ k)

-- While the database refuses no statement, a start of the coordinator succeeds, moves exactly the
-- runs that were running to interrupted, leaves every other run as it was, and reports the
-- number moved.
pub reconcile_orphaned_runs-Reconciled :
    (t : Tables) (now : ℕ) → Reconciled t (reconcile_orphaned_runs (quiet t now))
unfolding reconcile_orphaned_runs
reconcile_orphaned_runs-Reconciled t now = found-Reconciled (filterb is_running t.runs) t now refl
