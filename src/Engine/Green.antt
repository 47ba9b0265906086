-- ===== src/Engine/Green.antt =====
-- internal/dag/engine.go: what red and green evidence proves, whichever statements the database
-- refuses.
use sgt.Base.{
  ℕ, ◌+◌, String, true, false, Option, none, some, List, [], ◌∷◌, if◌then◌else◌, any, filterb,
  Result, ok, err, Err, Disk, pure, bind-ok, no_red_state, refl, sym, ap, ◌≡◌, ◌∙◌, ◌⊎◌, arith, inl,
  inr, Bool-cases,
}
use mathlib.Core.Path.{subst}
use sgt.Runner.Types.{Host}
use sgt.Engine.Types.{Environment, Engine, sorted_gates}
use sgt.Engine.Evidence.{
  GateEvidence, Observed, is_failed, record_gate_stage, red_verdict, record_red_state,
  green_verdict, record_green_state,
}
use sgt.Engine.Gates.{Observes, AllPassed}
use sgt.Engine.Observed.{Witnessed, stage-Outcome, all_passed, failing-none}

module _ (v : Environment) (e : Engine) (run_id repo : String) where
  abbrev value : Result Observed → Observed
  value (ok z) = z
  value (err _) = ([], none)

  green-inversion :
      (evs' evs : List GateEvidence) (o : Option Err)
      → green_verdict v e run_id repo (evs', o) ≡ (evs, none)
      → (evs' ≡ evs) × (o ≡ none) × (filterb is_failed evs' ≡ [])
  unfolding green_verdict
  green-inversion evs' evs (some failure) h =
      let q : some failure ≡ none = ap (λ z. z.1) h in ground (arith, q)
  green-inversion evs' evs none h = (
    ap (λ z. z.0) h,
    refl,
    failing-none v e run_id repo (filterb is_failed evs') (ap (λ z. z.1) h),
  )

  red-inversion :
      (evs' evs : List GateEvidence) (o : Option Err)
      → red_verdict v e run_id repo (evs', o) ≡ (evs, none)
      → (evs' ≡ evs) × (o ≡ none) × (any is_failed evs' ≡ true)
  unfolding red_verdict
  red-inversion evs' evs (some failure) h =
      let q : some failure ≡ none = ap (λ z. z.1) h in ground (arith, q)
  red-inversion evs' evs none h = elim (Bool-cases (any is_failed evs')) [
    | inl q ↦ (ap (λ z. z.0) h, refl, q)
    | inr q ↦
        let w : (if any is_failed evs' then none else some (no_red_state repo)) ≡ none =
          ap (λ z. z.1) h in
        ground (arith, w, q)
  ]

  -- Whichever statements the database refuses, green evidence without an error means that the
  -- repository is configured with at least one gate, that each of its gates ran once, in the order
  -- of their names, and passed, that nothing else ran, and that each has its record in the store.
  pub record_green_state-Witnessed :
      (evs : List GateEvidence) (d : Disk Host)
      → (record_green_state v e run_id repo d).0 ≡ ok (evs, none)
      → (w : Witnessed v e run_id repo "green" d.db.processes evs
          (record_green_state v e run_id repo d).1.db)
        × AllPassed v.outside d.db.processes (sorted_gates v.name_le w.cfg.gates)
  unfolding record_green_state
  record_green_state-Witnessed evs d h =
      let stage = record_gate_stage v e run_id repo "green" in
      let (evs', o, q, proved) = stage-Outcome v e run_id repo "green" d in
      let whole = bind-ok stage (λ z. pure (green_verdict v e run_id repo z)) d (evs', o) q in
      let (same, clear, passed) =
        green-inversion evs' evs o (ap value (sym (ap (λ z. z.0) whole) ∙ h)) in
      let w = proved clear in
      let w' =
        subst (λ l. Witnessed v e run_id repo "green" d.db.processes l (stage d).1.db) same w in
      let w'' =
        subst (Witnessed v e run_id repo "green" d.db.processes evs) (sym (ap (λ z. z.1.db) whole))
          w' in
      let failed = subst (λ l. filterb is_failed l ≡ []) same passed in
      (
        w'',
        all_passed v e run_id repo "green" d.db.processes (sorted_gates v.name_le w''.cfg.gates) evs
            w''.seen failed,
      )

  -- A failed evidence is of a process that failed.
  abbrev pub SomeFailed : ℕ → List (String × String) → Type 0
  SomeFailed n [] = ⊥
  SomeFailed n (g ∷ gs) = ((v.outside.gate n).passed ≡ false) ⊎ SomeFailed (n + 1) gs

  some_failed :
      (stage : String) (n : ℕ) (gs : List (String × String)) (evs : List GateEvidence)
      → Observes v.outside stage n gs evs
      → any is_failed evs ≡ true
      → SomeFailed n gs
  some_failed stage n [] [] s h = ground arith
  some_failed stage n [] (ev ∷ evs) s h = elim s [ ]
  some_failed stage n (g ∷ gs) [] s h = elim s [ ]
  some_failed stage n (g ∷ gs) (ev ∷ evs) s h =
      let (named, staged, status, rest) = s in
      elim (Bool-cases (v.outside.gate n).passed) [
        | inr q ↦ inl q
        | inl q ↦
            let good : is_failed ev ≡ false = rw (status, q) refl in
            inr (some_failed stage (n + 1) gs evs rest (ground (arith, h, good)))
      ]

  -- Whichever statements the database refuses, red evidence without an error means that the
  -- repository is configured, that each of its gates ran once, in the order of their names, that
  -- at least one of them failed, that nothing else ran, and that each has its record in the
  -- store.
  pub record_red_state-Witnessed :
      (evs : List GateEvidence) (d : Disk Host)
      → (record_red_state v e run_id repo d).0 ≡ ok (evs, none)
      → (w : Witnessed v e run_id repo "red" d.db.processes evs
          (record_red_state v e run_id repo d).1.db)
        × SomeFailed d.db.processes (sorted_gates v.name_le w.cfg.gates)
  unfolding record_red_state
  record_red_state-Witnessed evs d h =
      let stage = record_gate_stage v e run_id repo "red" in
      let (evs', o, q, proved) = stage-Outcome v e run_id repo "red" d in
      let whole = bind-ok stage (λ z. pure (red_verdict v e run_id repo z)) d (evs', o) q in
      let (same, clear, failed) =
        red-inversion evs' evs o (ap value (sym (ap (λ z. z.0) whole) ∙ h)) in
      let w =
        subst (λ l. Witnessed v e run_id repo "red" d.db.processes l (stage d).1.db) same
          (proved clear) in
      let w' =
        subst (Witnessed v e run_id repo "red" d.db.processes evs) (sym (ap (λ z. z.1.db) whole))
          w in
      let some = subst (λ l. any is_failed l ≡ true) same failed in
      (w', some_failed "red" d.db.processes (sorted_gates v.name_le w'.cfg.gates) evs w'.seen some)
