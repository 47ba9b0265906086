-- ===== src/Engine/Observed.antt =====
-- internal/dag/engine.go: what a stage of gates shows once its records are read back, whichever
-- statements the database refuses.
use sgt.Base.{
  ℕ, ◌+◌, String, Bool, true, false, Option, none, some, List, [], ◌∷◌, str_eq, if◌then◌else◌, any,
  filterb, map, length, Result, ok, err, Err, Disk, pure, ◌>>=◌, branch, bind-ok, db_failure,
  unknown_repo, no_gates, ◌≢◌, refl, sym, ap, ◌≡◌, ◌∙◌, arith, All, inl, inr, Bool-cases,
  Option-cases,
}
use mathlib.Core.Path.{subst}
use sgt.Store.Types.{PhaseRecord}
use sgt.Store.Phases.{list_phases_for_run}
use sgt.Runner.Types.{Host, in_world}
use sgt.Runner.Calm.{Calm, calm_rules}
use sgt.Engine.Types.{Environment, Engine, Repo, repo_of, sorted_gates}
use sgt.Engine.Worktrees.{
  prepare_worktree, add_worktree, base_branch_for, branch_exists, worktree_there,
}
use sgt.Engine.Evidence.{
  GateEvidence, Observed, gate_phase_name, observe_gates, observe_all, is_failed, missing_gates,
  is_code_row, persisted, verify_evidence_persisted, record_gate_stage, gated_stage,
  configured_stage, failing,
}
use sgt.Engine.Gates.{Observes, AllPassed, observe_gates-Observes}

module _ (v : Environment) where
  add_worktree-Calm : (repo_path wt b base : String) → Calm (add_worktree v repo_path wt b base)
  unfolding add_worktree
  add_worktree-Calm repo_path wt b base = record {
    at = λ d. elim (Option-cases (v.worktree_fails repo_path wt)) [
      | inr (m, e) ↦ rw (add_worktree, e) refl
      | inl e ↦ elim (Bool-cases (branch_exists v repo_path b d.db)) [
        | inl q ↦ rw (add_worktree, e, q) refl
        | inr q ↦ rw (add_worktree, e, q) refl
      ]
    ];
  }

  base_branch_for-Calm :
      (repo_path run_id recorded : String) → Calm (base_branch_for v repo_path run_id recorded)
  unfolding base_branch_for
  base_branch_for-Calm repo_path run_id recorded = search (calm_rules) depth 8

  prepare_worktree-Calm : (path run_id repo : String) → Calm (prepare_worktree v path run_id repo)
  unfolding prepare_worktree worktree_there
  prepare_worktree-Calm path run_id repo =
      let there : (wt : String) → Calm (worktree_there v wt) = λ wt. record { at = λ d. refl } in
      search (calm_rules, there, add_worktree-Calm, base_branch_for-Calm) depth 12

  module _ (e : Engine) (run_id repo : String) where
    -- Each gate has a record of this stage, of the kind of a gate that ran.
    abbrev pub Stored : String → List (String × String) → Host → Type 0
    Stored stage gs h =
        All
          (λ g.
            any (is_code_row repo (gate_phase_name stage g.0))
              (filterb (λ p. str_eq p.run_id run_id) h.world.tables.phases)
            ≡ true)
          gs

    none_missing :
        (b : Bool) (g : String) (rest : List String)
        → (if b then rest else g ∷ rest) ≡ []
        → (b ≡ true) × (rest ≡ [])
    none_missing true g rest h = (refl, h)
    none_missing false g rest h = ground arith

    missing_gates-none :
        (stage : String) (phases : List PhaseRecord) (gs : List (String × String))
        → missing_gates repo stage phases (map (λ g. g.0) gs) ≡ []
        → All (λ g. any (is_code_row repo (gate_phase_name stage g.0)) phases ≡ true) gs
    unfolding missing_gates
    missing_gates-none stage phases [] h = tt
    missing_gates-none stage phases (g ∷ gs) h =
        let (here, more) = none_missing _ g.0 _ h in (here, missing_gates-none stage phases gs more)

    persisted-none : (l : List String) → persisted v e run_id repo l ≡ none → l ≡ []
    unfolding persisted
    persisted-none [] h = refl
    persisted-none (g ∷ gs) h = ground arith

    -- A verification that finds nothing missing has read every record.
    verified-Stored :
        (stage : String) (gs : List (String × String)) (d : Disk Host)
        → (o : Option Err) × ((verify_evidence_persisted v e run_id repo stage
              (map (λ g. g.0) gs)
              d).0
            ≡ ok o)
          × ((verify_evidence_persisted v e run_id repo stage (map (λ g. g.0) gs) d).1.db ≡ d.db)
          × (o ≡ none → Stored stage gs d.db)
    unfolding verify_evidence_persisted list_phases_for_run in_world
    verified-Stored stage gs d = go d.faults
      where
        phases : List PhaseRecord
        phases = filterb (λ p. str_eq p.run_id run_id) d.db.world.tables.phases

        found : Option Err
        found = persisted v e run_id repo (missing_gates repo stage phases (map (λ g. g.0) gs))

        go :
            (fs : List Bool)
            → let z =
                verify_evidence_persisted v e run_id repo stage
                  (map (λ g. g.0) gs)
                  (record { db = d.db; now = d.now; faults = fs }) in
              (o : Option Err) × (z.0 ≡ ok o) × (z.1.db ≡ d.db) × (o ≡ none → Stored stage gs d.db)
        go [] = (found, refl, refl, λ h. missing_gates-none stage phases gs (persisted-none _ h))
        go (false ∷ fs) =
            (found, refl, refl, λ h. missing_gates-none stage phases gs (persisted-none _ h))
        go (true ∷ fs) = (some db_failure, refl, refl, λ h. ground arith)

    -- What a stage that was observed shows: the repository and its gates, at least one, each run once
    -- in the order of their names by the processes from the n-th on, and each with its record.
    pub record Witnessed (stage : String) (n : ℕ) (evs : List GateEvidence) (h : Host)
        : Type 0 where
      pub cfg : Repo
      pub configured : repo_of e repo ≡ some cfg
      pub some_gate : sorted_gates v.name_le cfg.gates ≢ []
      pub seen : Observes v.outside stage n (sorted_gates v.name_le cfg.gates) evs
      pub stored : Stored stage (sorted_gates v.name_le cfg.gates) h
      pub ran : h.processes ≡ n + length (sorted_gates v.name_le cfg.gates)

    abbrev pub Outcome : String → ℕ → Result Observed × Disk Host → Type 0
    Outcome stage n z =
        (evs : List GateEvidence) × (o : Option Err) × (z.0 ≡ ok (evs, o))
        × (o ≡ none → Witnessed stage n evs z.1.db)

    refused :
        (stage : String) (n : ℕ) (failure : Err) (d : Disk Host)
        → Outcome stage n (pure ([], some failure) d)
    refused stage n failure d = ([], some failure, refl, λ h. ground arith)

    observed :
        (stage : String) (cfg : Repo) (n : ℕ) (d : Disk Host)
        → repo_of e repo ≡ some cfg
        → sorted_gates v.name_le cfg.gates ≢ []
        → d.db.processes ≡ n
        → Outcome stage n (observe_all v e run_id repo stage (sorted_gates v.name_le cfg.gates) d)
    unfolding observe_all
    observed stage cfg n d found any_gate p =
        let gs = sorted_gates v.name_le cfg.gates in
        let watch = observe_gates v e run_id repo stage gs in
        let check = verify_evidence_persisted v e run_id repo stage (map (λ g. g.0) gs) in
        let (evs, q, seen, ran) = observe_gates-Observes v e run_id repo stage gs d in
        let d1 = (watch d).1 in
        let (o, q', same, proved) = verified-Stored stage gs d1 in
        let whole =
          bind-ok watch (λ evidence. check >>= λ verdict. pure (evidence, verdict)) d evs q
          ∙ bind-ok check (λ verdict. pure (evs, verdict)) d1 o q' in
        (
          evs,
          o,
          ap (λ z. z.0) whole,
          λ h. record {
            cfg = cfg;
            configured = found;
            some_gate = any_gate;
            seen = subst (λ k. Observes v.outside stage k gs evs) p seen;
            stored = subst (Stored stage gs) (sym (ap (λ z. z.1.db) whole ∙ same)) (proved h);
            ran =
                ap (λ z. z.1.db.processes) whole
                ∙ ap (λ x. x.processes) same
                ∙ ran
                ∙ ap (λ k. k + length gs) p;
          },
        )

    gated-Outcome :
        (stage : String) (cfg : Repo) (gs : List (String × String)) (d : Disk Host)
        → repo_of e repo ≡ some cfg
        → sorted_gates v.name_le cfg.gates ≡ gs
        → Outcome stage d.db.processes (gated_stage v e run_id repo stage cfg gs d)
    unfolding gated_stage
    gated-Outcome stage cfg [] d found same = refused stage d.db.processes (no_gates repo) d
    gated-Outcome stage cfg (g ∷ gs) d found same =
        let prepare = prepare_worktree v cfg.path run_id repo in
        go (prepare d).0 (prepare d).1 ((prepare_worktree-Calm cfg.path run_id repo).at d)
      where
        go :
            (r : Result String) (d' : Disk Host)
            → d'.db.processes ≡ d.db.processes
            → Outcome stage d.db.processes (
                branch r
                  (λ failure. pure ([], some failure))
                  (λ worktree. observe_all v e run_id repo stage (g ∷ gs))
                  d')
        go (err failure) d' p = refused stage d.db.processes failure d'
        go (ok worktree) d' p =
            subst (λ l. Outcome stage d.db.processes (observe_all v e run_id repo stage l d')) same
              (observed stage cfg d.db.processes d' found (λ z. ground (arith, same, z)) p)

    configured-Outcome :
        (stage : String) (o : Option Repo) (d : Disk Host)
        → repo_of e repo ≡ o
        → Outcome stage d.db.processes (configured_stage v e run_id repo stage o d)
    unfolding configured_stage
    configured-Outcome stage none d q = refused stage d.db.processes (unknown_repo repo) d
    configured-Outcome stage (some cfg) d q =
        gated-Outcome stage cfg (sorted_gates v.name_le cfg.gates) d q refl

    pub stage-Outcome :
        (stage : String) (d : Disk Host)
        → Outcome stage d.db.processes (record_gate_stage v e run_id repo stage d)
    unfolding record_gate_stage
    stage-Outcome stage d = configured-Outcome stage (repo_of e repo) d refl

    -- Evidence without a failed gate is of gates that all passed.
    pub all_passed :
        (stage : String) (n : ℕ) (gs : List (String × String)) (evs : List GateEvidence)
        → Observes v.outside stage n gs evs
        → filterb is_failed evs ≡ []
        → AllPassed v.outside n gs
    all_passed stage n [] [] s h = tt
    all_passed stage n [] (ev ∷ evs) s h = elim s [ ]
    all_passed stage n (g ∷ gs) [] s h = elim s [ ]
    all_passed stage n (g ∷ gs) (ev ∷ evs) s h =
        let (named, staged, status, rest) = s in
        elim (Bool-cases (v.outside.gate n).passed) [
          | inl q ↦
              let good : is_failed ev ≡ false = rw (status, q) refl in
              (q, all_passed stage (n + 1) gs evs rest (ground (arith, h, good)))
          | inr q ↦ let bad : is_failed ev ≡ true = rw (status, q) refl in ground (arith, h, bad)
        ]

    pub failing-none :
        (evs : List GateEvidence)
        → failing v e run_id repo (map (λ ev. ev.gate) evs) ≡ none
        → evs ≡ []
    unfolding failing
    failing-none [] h = refl
    failing-none (ev ∷ evs) h = ground arith
