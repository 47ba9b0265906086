-- ===== src/Engine/Gates.antt =====
-- internal/dag/engine.go: what the gates of a stage show, whichever statements the database refuses.
use sgt.Base.{
  ℕ, ◌+◌, String, Bool, true, List, [], ◌∷◌, if◌then◌else◌, length, ok, Disk, pure, ◌>>=◌, bind-ok,
  refl, ap, ◌≡◌, ◌∙◌, arith,
}
use mathlib.Core.Path.{subst}
use sgt.Runner.Types.{Host, Outside}
use sgt.Runner.Phases.{run_code_gate, gate_result}
use sgt.Runner.Silent.{run_code_gate-result}
use sgt.Engine.Types.{Environment, Engine}
use sgt.Engine.Stages.{runner_of}
use sgt.Engine.Evidence.{GateEvidence, gate_phase_name, evidence_of, observe_gates}

abbrev verdict_text : Bool → String
verdict_text passed = if passed then "passed" else "failed"

-- The evidence is of these gates in their order, each with the exit of its own process, of which the
-- first is the n-th.
abbrev pub Observes : Outside → String → ℕ → List (String × String) → List GateEvidence → Type 0
Observes o stage n [] [] = Unit
Observes o stage n [] (ev ∷ evs) = ⊥
Observes o stage n (g ∷ gs) [] = ⊥
Observes o stage n (g ∷ gs) (ev ∷ evs) =
    (ev.gate ≡ g.0)
    × (ev.stage ≡ stage)
    × (ev.status ≡ verdict_text (o.gate n).passed)
    × Observes o stage (n + 1) gs evs

-- The processes of as many gates, from the n-th on, all passed.
abbrev pub AllPassed : Outside → ℕ → List (String × String) → Type 0
AllPassed o n [] = Unit
AllPassed o n (g ∷ gs) = ((o.gate n).passed ≡ true) × AllPassed o (n + 1) gs

module _ (v : Environment) (e : Engine) (run_id repo : String) where
  pub observe_gates-Observes :
      (stage : String) (gs : List (String × String)) (d : Disk Host)
      → (evs : List GateEvidence) × ((observe_gates v e run_id repo stage gs d).0 ≡ ok evs)
        × Observes v.outside stage d.db.processes gs evs
        × ((observe_gates v e run_id repo stage gs d).1.db.processes ≡ d.db.processes + length gs)
  unfolding observe_gates evidence_of gate_result
  observe_gates-Observes stage [] d = ([], refl, tt, omega arith)
  observe_gates-Observes stage (g ∷ gs) d =
      let n = d.db.processes in
      let gate =
        run_code_gate v.outside v.join (runner_of v e run_id repo) (gate_phase_name stage g.0)
          g.1 in
      let result =
        gate_result v.outside v.join (runner_of v e run_id repo) (gate_phase_name stage g.0) g.1
          (v.outside.gate n) in
      let ev = evidence_of v e run_id repo stage g.0 result in
      let later = observe_gates v e run_id repo stage gs in
      let d1 = (gate d).1 in
      let (q, p) =
        run_code_gate-result v.outside v.join (runner_of v e run_id repo)
          (gate_phase_name stage g.0) g.1 d in
      let (evs, q', seen, p') = observe_gates-Observes stage gs d1 in
      let whole =
        bind-ok gate
          (λ res. later >>= λ rest. pure (evidence_of v e run_id repo stage g.0 res ∷ rest)) d
          result q
        ∙ bind-ok later (λ rest. pure (ev ∷ rest)) d1 evs q' in
      (
        ev ∷ evs,
        ap (λ z. z.0) whole,
        (refl, refl, refl, subst (λ k. Observes v.outside stage k gs evs) p seen),
        ap (λ z. z.1.db.processes) whole ∙ omega (arith, p, p'),
      )
