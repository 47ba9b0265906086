-- ===== src/Engine/Resumed.antt =====
-- internal/dag/engine.go: what a resumed stage skips, and where the gates of a stage stop.
use sgt.Base.{
  ℕ, ◌+◌, String, Bool, true, false, not, List, [], ◌∷◌, str_eq, if◌then◌else◌, any, filterb,
  Result, ok, err, gate_stopped, Disk, Exec, raise, ◌>>=◌, quiet, bind-ok, refl, sym, ap, ◌≡◌, ◌∙◌,
  arith, All, inl, inr, Bool-cases, eq_iff, ◌⊎◌,
}
use mathlib.Core.Path.{subst}
use sgt.Store.Phases.{list_phases_for_run}
use sgt.Runner.Types.{Host, in_world}
use sgt.Runner.Phases.{run_code_gate, gate_result}
use sgt.Runner.Silent.{run_code_gate-result}
use sgt.Engine.Types.{Environment, Engine, Repo, sorted_gates}
use sgt.Engine.Stages.{
  phase_passed, passed_row, runner_of, run_gates, placeholder_gate, run_review, run_agent,
  run_phase, run_phases,
}

module _ (v : Environment) (e : Engine) (run_id repo : String) where
  -- The run already has a passed phase of this name in the repository.
  abbrev pub passed_before : Host → String → Bool
  passed_before h phase =
      any (passed_row repo phase) (filterb (λ p. str_eq p.run_id run_id) h.world.tables.phases)

  phase_passed-quiet :
      (phase : String) (h : Host) (n : ℕ)
      → e.resume ≡ true
      → phase_passed v e run_id repo phase (quiet h n) ≡ (ok (passed_before h phase), quiet h n)
  unfolding phase_passed list_phases_for_run in_world
  phase_passed-quiet phase h n r = rw r refl

  phase_passed-fresh :
      (phase : String) (d : Disk Host)
      → e.resume ≡ false
      → phase_passed v e run_id repo phase d ≡ (ok false, d)
  unfolding phase_passed
  phase_passed-fresh phase d r = rw r refl

  -- The phases that a stage would run are all passed: of the tests, each gate by its own name.
  abbrev pub DoneTests : Host → List (String × String) → Type 0
  DoneTests h [] = passed_before h "test" ≡ true
  DoneTests h (g ∷ gs) = All (λ x. passed_before h x.0 ≡ true) (sorted_gates v.name_le (g ∷ gs))

  abbrev pub Done : Host → Repo → String → Type 0
  Done h cfg phase =
      ((phase ≡ "test") × DoneTests h cfg.gates)
      ⊎ ((str_eq phase "test" ≡ false) × (passed_before h phase ≡ true))

  gates-Done :
      (gs : List (String × String)) (h : Host) (n : ℕ)
      → e.resume ≡ true
      → All (λ g. passed_before h g.0 ≡ true) gs
      → run_gates v e run_id repo gs (quiet h n) ≡ (ok tt, quiet h n)
  unfolding run_gates
  gates-Done [] h n r a = refl
  gates-Done (g ∷ gs) h n r a = rw (phase_passed-quiet g.0 h n r, a.0) (gates-Done gs h n r a.1)

  agent-Done :
      (phase : String) (retries : ℕ) (h : Host) (n : ℕ)
      → e.resume ≡ true
      → passed_before h phase ≡ true
      → run_agent v e run_id repo phase retries (quiet h n) ≡ (ok tt, quiet h n)
  unfolding run_agent
  agent-Done phase retries h n r a = rw (phase_passed-quiet phase h n r, a) refl

  review-Done :
      (retries : ℕ) (h : Host) (n : ℕ)
      → e.resume ≡ true
      → passed_before h "review" ≡ true
      → run_review v e run_id repo retries (quiet h n) ≡ (ok tt, quiet h n)
  unfolding run_review
  review-Done retries h n r a = rw (phase_passed-quiet "review" h n r, a) refl

  placeholder-Done :
      (h : Host) (n : ℕ)
      → e.resume ≡ true
      → passed_before h "test" ≡ true
      → placeholder_gate v e run_id repo (quiet h n) ≡ (ok tt, quiet h n)
  unfolding placeholder_gate
  placeholder-Done h n r a = rw (phase_passed-quiet "test" h n r, a) refl

  tests-Done :
      (cfg : Repo) (gates : List (String × String)) (h : Host) (n : ℕ)
      → cfg.gates ≡ gates
      → e.resume ≡ true
      → DoneTests h gates
      → run_phase v e run_id repo cfg "test" (quiet h n) ≡ (ok tt, quiet h n)
  unfolding run_phase
  tests-Done cfg [] h n q r a = rw q (placeholder-Done h n r a)
  tests-Done cfg (g ∷ gs) h n q r a = rw q (gates-Done (sorted_gates v.name_le (g ∷ gs)) h n r a)

  phase-Done :
      (cfg : Repo) (phase : String) (h : Host) (n : ℕ)
      → e.resume ≡ true
      → Done h cfg phase
      → run_phase v e run_id repo cfg phase (quiet h n) ≡ (ok tt, quiet h n)
  unfolding run_phase
  phase-Done cfg phase h n r (inl (q, a)) =
      subst (λ p. run_phase v e run_id repo cfg p (quiet h n) ≡ (ok tt, quiet h n)) (sym q)
        (tests-Done cfg cfg.gates h n refl r a)
  phase-Done cfg phase h n r (inr (q, a)) = elim (Bool-cases (str_eq phase "review")) [
    | inl k ↦
        let review = (eq_iff phase "review").0 k in
        rw (run_phase, q, k)
          (review-Done cfg.retries h n r (subst (λ p. passed_before h p ≡ true) review a))
    | inr k ↦ rw (run_phase, q, k) (agent-Done phase cfg.retries h n r a)
  ]

  -- While the database refuses no statement, a resumed pipeline whose phases have all passed before,
  -- of the tests each gate by its own name, succeeds without running a process or writing
  -- anything.
  pub run_phases-resumed :
      (cfg : Repo) (phases : List String) (h : Host) (n : ℕ)
      → e.resume ≡ true
      → All (Done h cfg) phases
      → run_phases v e run_id repo cfg phases (quiet h n) ≡ (ok tt, quiet h n)
  unfolding run_phases
  run_phases-resumed cfg [] h n r a = refl
  run_phases-resumed cfg (p ∷ ps) h n r a =
      rw (phase-Done cfg p h n r a.0) (run_phases-resumed cfg ps h n r a.1)

  -- The outcome of the gates, of which the first runs as the n-th process, and the number of them
  -- that run.
  abbrev pub after_gate : Bool → String → Result (Unit {0}) × ℕ → Result (Unit {0}) × ℕ
  after_gate true gate (r, k) = (r, k + 1)
  after_gate false gate rest = (err (gate_stopped gate repo), 1)

  abbrev pub gates_end : ℕ → List (String × String) → Result (Unit {0}) × ℕ
  gates_end n [] = (ok tt, 0)
  gates_end n (g ∷ gs) = after_gate (v.outside.gate n).passed g.0 (gates_end (n + 1) gs)

  -- A stage that is not a resumption runs the gates in order up to the first that fails, which stops
  -- the stage with its name; it succeeds only if all gates pass. It does so whichever statements
  -- the database refuses.
  pub run_gates-end :
      (gs : List (String × String)) (d : Disk Host)
      → e.resume ≡ false
      → ((run_gates v e run_id repo gs d).0 ≡ (gates_end d.db.processes gs).0)
        × ((run_gates v e run_id repo gs d).1.db.processes
            ≡ d.db.processes + (gates_end d.db.processes gs).1)
  unfolding run_gates gate_result
  run_gates-end [] d r = (refl, omega arith)
  run_gates-end (g ∷ gs) d r =
      let n = d.db.processes in
      let gate = run_code_gate v.outside v.join (runner_of v e run_id repo) g.0 g.1 in
      let result =
        gate_result v.outside v.join (runner_of v e run_id repo) g.0 g.1 (v.outside.gate n) in
      let (q, p) = run_code_gate-result v.outside v.join (runner_of v e run_id repo) g.0 g.1 d in
      let d1 = (gate d).1 in
      let more = run_gates v e run_id repo gs in
      let after : Exec Host (Unit {0}) =
        if not (v.outside.gate n).passed then raise (gate_stopped g.0 repo) else more in
      let run_one : Exec Host (Unit {0}) =
        gate >>= λ res. if not res.passed then raise (gate_stopped g.0 repo) else more in
      let asked = phase_passed v e run_id repo g.0 in
      let fresh = phase_passed-fresh g.0 d r in
      let whole : run_gates v e run_id repo (g ∷ gs) d ≡ after d1 =
        bind-ok asked (λ done. if done then more else run_one) d false (ap (λ z. z.0) fresh)
        ∙ ap (λ z. run_one z.1) fresh
        ∙ bind-ok gate (λ res. if not res.passed then raise (gate_stopped g.0 repo) else more) d
            result q in
      let (o, k) = run_gates-end gs d1 r in
      let Q : Bool → Result (Unit {0}) × Disk Host → Type 0 = λ b z.
        (z.0 ≡ (after_gate b g.0 (gates_end (n + 1) gs)).0)
        × (z.1.db.processes ≡ n + (after_gate b g.0 (gates_end (n + 1) gs)).1) in
      let step : (b : Bool) → Q b ((if not b then raise (gate_stopped g.0 repo) else more) d1) =
        λ b. elim b as (λ k. Q k ((if not k then raise (gate_stopped g.0 repo) else more) d1)) [
          | false ↦ (refl, p)
          | true ↦ (
            o ∙ ap (λ m. (gates_end m gs).0) p,
            k ∙ ap (λ m. m + (gates_end m gs).1) p ∙ omega arith,
          )
        ] in
      subst (Q (v.outside.gate n).passed) (sym whole) (step (v.outside.gate n).passed)
