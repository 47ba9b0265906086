-- ===== src/Server/Corrected.antt =====
-- internal/ui/gatefix.go: when a corrective loop passes its run.
use sgt.Base.{
  ℕ, zero, suc, ◌+◌, String, Bool, true, false, Option, none, some, List, [], ◌∷◌, if◌then◌else◌,
  Result, ok, err, Disk, Exec, pure, ◌>>=◌, branch, bind-ok, refl, sym, ap, ◌≡◌, ◌∙◌, arith,
  if-cases,
}
use mathlib.Core.Path.{subst}
use sgt.Store.Types.{PhaseRecord}
use sgt.Store.World.{in_tables}
use sgt.Runner.Types.{Host, Outside, in_world, PhaseRunner}
use sgt.Runner.Capture.{Drop}
use sgt.Runner.Phases.{PhaseEnd, finished, stopped, run_agent_phase}
use sgt.Runner.Silent.{Silent, after_bind}
use sgt.Runner.Attempts.{run_agent_phase-Tries}
use sgt.Server.Stages.{DagStage, stage_for_repo, last_failed_phase, repos_for_run}
use sgt.Store.Phases.{list_phases_for_run}
use sgt.Server.Execute.{
  Readings, FixEnd, fix_passed, fix_cancelled, fix_exhausted, cancelled_now, rerun_stage, after_fix,
  fix_failure, fix_cycle, fix_cycles,
}

-- The lookup of the failure drops the error of its query.
last_failed_phase-Silent :
    (run_id repo : String) → Silent (in_world (in_tables (last_failed_phase run_id repo)))
unfolding in_world last_failed_phase
last_failed_phase-Silent run_id repo = record { at = λ d. go d d.faults refl }
  where
    go :
        (d : Disk Host) (fs : List Bool)
        → d.faults ≡ fs
        → (a : Option PhaseRecord) × ((in_world (in_tables (last_failed_phase run_id repo)) d).0
            ≡ ok a)
          × ((in_world (in_tables (last_failed_phase run_id repo)) d).1.db.processes
              ≡ d.db.processes)
    go d [] e = rw e (_, refl, refl)
    go d (false ∷ fs) e = rw e (_, refl, refl)
    go d (true ∷ fs) e = rw e (none, refl, refl)

repos_for_run-Silent : (run_id : String) → Silent (in_world (in_tables (repos_for_run run_id)))
unfolding in_world repos_for_run list_phases_for_run
repos_for_run-Silent run_id = record { at = λ d. go d d.faults refl }
  where
    go :
        (d : Disk Host) (fs : List Bool)
        → d.faults ≡ fs
        → (a : List String) × ((in_world (in_tables (repos_for_run run_id)) d).0 ≡ ok a)
          × ((in_world (in_tables (repos_for_run run_id)) d).1.db.processes ≡ d.db.processes)
    go d [] e = rw e (_, refl, refl)
    go d (false ∷ fs) e = rw e (_, refl, refl)
    go d (true ∷ fs) e = rw e ([], refl, refl)

module _ (w : Readings) (cancelled : ℕ → Bool) (run_stage : DagStage → Exec Host (Unit {0})) where
  module _ (o : Outside) (join : List Drop → String) (resolve : List String → List DagStage)
      (retries : ℕ) (run_id repo : String) where
    -- The last thing that was done is the stage of the repository, which had no error, and there
    -- is no cancellation yet.
    pub record Repaired (d : Disk Host) : Type 0 where
      pub stage : DagStage
      pub before : Disk Host
      pub repos : List String
      pub of_repo : stage_for_repo (resolve repos) repo ≡ some stage
      pub ran : run_stage stage before ≡ (ok tt, d)
      pub going : cancelled d.now ≡ false

    abbrev pub Concludes : Result FixEnd × Disk Host → Type 0
    Concludes z = (e : FixEnd) × (z.0 ≡ ok e) × (e ≡ fix_passed → Repaired z.1)

    abbrev fix_end : Result FixEnd → FixEnd
    fix_end (ok e) = e
    fix_end (err _) = fix_exhausted

    unrepaired : (e : FixEnd) (d : Disk Host) → (e ≡ fix_passed → ⊥) → Concludes (pure e d)
    unrepaired e d h = (e, refl, λ q. absurd (h q))

    module _ (next : Exec Host FixEnd) (more : (d : Disk Host) → Concludes (next d)) where
      rerun-Concludes :
          (repos : List String) (found : Option DagStage) (d : Disk Host)
          → stage_for_repo (resolve repos) repo ≡ found
          → Concludes
              (rerun_stage w cancelled run_stage o join resolve retries run_id repo next found d)
      unfolding rerun_stage cancelled_now
      rerun-Concludes repos none d q = more d
      rerun-Concludes repos (some s) d q = go (run_stage s d).0 (run_stage s d).1 refl
        where
          ended :
              (d' : Disk Host)
              → run_stage s d ≡ (ok tt, d')
              → (b : Bool) → cancelled d'.now ≡ b
              → Concludes (pure (if b then fix_cancelled else fix_passed) d')
          ended d' r true c = unrepaired fix_cancelled d' (λ h. ground arith)
          ended d' r false c = (
            fix_passed,
            refl,
            λ _. record { stage = s; before = d; repos = repos; of_repo = q; ran = r; going = c },
          )

          go :
              (r : Result (Unit {0})) (d' : Disk Host)
              → run_stage s d ≡ (r, d')
              → Concludes (
                  branch r
                    (λ _. next)
                    (λ _. cancelled_now w cancelled run_stage >>= λ stop.
                      pure (if stop then fix_cancelled else fix_passed))
                    d')
          go (err _) d' e = more d'
          go (ok u) d' e = ended d' e (cancelled d'.now) refl

      after-Concludes :
          (e : PhaseEnd) (d : Disk Host)
          → Concludes (after_fix w cancelled run_stage o join resolve retries run_id repo next e d)
      unfolding after_fix
      after-Concludes (stopped _ _) d = more d
      after-Concludes (finished _ _) d =
          after_bind (in_world (in_tables (repos_for_run run_id)))
            (λ repos.
              rerun_stage w cancelled run_stage o join resolve retries run_id repo next
                (stage_for_repo (resolve repos) repo))
            Concludes d (repos_for_run-Silent run_id)
            (λ repos d' p. rerun-Concludes repos (stage_for_repo (resolve repos) repo) d' refl)

      failure-Concludes :
          (cycle : ℕ) (found : Option PhaseRecord) (d : Disk Host)
          → Concludes (
              fix_failure w cancelled run_stage o join resolve retries run_id repo cycle next found
                d)
      unfolding fix_failure
      failure-Concludes cycle none d = unrepaired fix_exhausted d (λ h. ground arith)
      failure-Concludes cycle (some p) d =
          let pr : PhaseRunner = record { run_id = run_id; repo_name = repo; fix_cycle = cycle } in
          let agent = run_agent_phase o join pr "fix" retries in
          let (e, q, t) = run_agent_phase-Tries o join pr "fix" retries d in
          let after = after_fix w cancelled run_stage o join resolve retries run_id repo next in
          subst Concludes (sym (bind-ok agent after d e q)) (after-Concludes e (agent d).1)

      cycle-Concludes :
          (cycle : ℕ) (d : Disk Host)
          → Concludes
              (fix_cycle w cancelled run_stage o join resolve retries run_id repo cycle next d)
      unfolding fix_cycle cancelled_now
      cycle-Concludes cycle d =
          if-cases (λ (m : Exec Host FixEnd). Concludes (m d)) (cancelled d.now) _ _
            (λ _. unrepaired fix_cancelled d (λ h. ground arith))
            (λ _.
              after_bind (in_world (in_tables (last_failed_phase run_id repo)))
                (fix_failure w cancelled run_stage o join resolve retries run_id repo cycle next)
                Concludes d (last_failed_phase-Silent run_id repo)
                (λ found d' p. failure-Concludes cycle found d'))

    cycles-Concludes :
        (left cycle : ℕ) (d : Disk Host)
        → Concludes
            (fix_cycles w cancelled run_stage o join resolve retries run_id repo left cycle d)
    unfolding fix_cycles
    cycles-Concludes zero cycle d = unrepaired fix_exhausted d (λ h. ground arith)
    cycles-Concludes (suc left) cycle d =
        cycle-Concludes
          (fix_cycles w cancelled run_stage o join resolve retries run_id repo left (cycle + 1))
          (cycles-Concludes left (cycle + 1)) cycle d

    -- Whatever the processes and the engine do and whichever statements the database refuses, a
    -- corrective loop passes its run only if the last thing that it did is the stage of its
    -- repository, which ran without an error, and the run is not cancelled by then.
    pub fix_cycles-Repaired :
        (left cycle : ℕ) (d : Disk Host)
        → (fix_cycles w cancelled run_stage o join resolve retries run_id repo left cycle d).0
          ≡ ok fix_passed
        → Repaired
            (fix_cycles w cancelled run_stage o join resolve retries run_id repo left cycle d).1
    fix_cycles-Repaired left cycle d h =
        let (e, q, repaired) = cycles-Concludes left cycle d in repaired (ap fix_end (sym q ∙ h))
