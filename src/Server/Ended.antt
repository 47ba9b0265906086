-- ===== src/Server/Ended.antt =====
-- internal/ui: when a run is recorded as passed, and when as cancelled.
use sgt.Base.{
  ℕ, String, Bool, true, false, List, [], ◌∷◌, Result, ok, err, Disk, Exec, pure, ◌>>=◌, branch,
  bind-ok, refl, sym, ap, ◌≡◌, ◌∙◌, arith, inl, inr, Bool-cases, if-cases,
}
use mathlib.Core.Path.{subst}
use sgt.Store.Types.{RunStatus}
use sgt.Runner.Types.{Host}
use sgt.Runner.Silent.{Silent, silent_rules, causation-Silent, after_then}
use sgt.Server.Stages.{DagStage}
use sgt.Server.Execute.{
  Readings, cancelled_now, run_stages, record_delivery, deliver_run, set_terminal, run_outcome,
}

module _ (w : Readings) (cancelled : ℕ → Bool) (run_stage : DagStage → Exec Host (Unit {0})) where
  -- Every stage ran, in order, without an error, and none was started after a cancellation.
  abbrev pub Ran : List DagStage → Disk Host → Type 0
  Ran [] d = Unit
  Ran (s ∷ ss) d =
      (cancelled d.now ≡ false) × ((run_stage s d).0 ≡ ok tt) × Ran ss (run_stage s d).1

  abbrev Passes : List DagStage → Disk Host → Type 0
  Passes stages d =
      (s : RunStatus) × ((run_stages w cancelled run_stage stages d).0 ≡ ok s)
      × (s ≡ RunStatus.passed → Ran stages d)

  run_stages-Ran : (stages : List DagStage) (d : Disk Host) → Passes stages d
  unfolding run_stages cancelled_now
  run_stages-Ran [] d = (RunStatus.passed, refl, λ _. tt)
  run_stages-Ran (x ∷ xs) d =
      if-cases
        (λ (m : Exec Host RunStatus).
          (s : RunStatus) × ((m d).0 ≡ ok s) × (s ≡ RunStatus.passed → Ran (x ∷ xs) d))
        (cancelled d.now) _ _ (λ _. (RunStatus.cancelled, refl, λ h. ground arith))
        (λ c. let (r, d') = run_stage x d in go c (run_stages-Ran xs d') r d' refl refl)
    where
      go :
          cancelled d.now ≡ false
          → (rest : Passes xs (run_stage x d).1) → (r : Result (Unit {0})) (d' : Disk Host)
          → (run_stage x d).0 ≡ r
          → (run_stage x d).1 ≡ d'
          → let z =
              branch r (λ _. pure RunStatus.failed) (λ _. run_stages w cancelled run_stage xs) d' in
            (s : RunStatus) × (z.0 ≡ ok s) × (s ≡ RunStatus.passed → Ran (x ∷ xs) d)
      go c rest (err e) d' q p = (RunStatus.failed, refl, λ h. ground arith)
      go c rest (ok u) d' q p =
          let (s, e, ran) = subst (Passes xs) p rest in
          (s, e, λ h. (c, q, subst (Ran xs) (sym p) (ran h)))

  record_delivery-Silent : (run_id : String) → Silent (record_delivery w cancelled run_stage run_id)
  unfolding record_delivery
  record_delivery-Silent run_id = search (silent_rules, causation-Silent) depth 8

  deliver_run-passed :
      (run_id : String) (reached : RunStatus) (d : Disk Host)
      → (s : RunStatus) × ((deliver_run w cancelled run_stage run_id reached d).0 ≡ ok s)
        × (s ≡ RunStatus.passed → reached ≡ RunStatus.passed)
  unfolding deliver_run cancelled_now
  deliver_run-passed run_id RunStatus.passed d =
      if-cases
        (λ (m : Exec Host RunStatus).
          (s : RunStatus) × ((m d).0 ≡ ok s)
          × (s ≡ RunStatus.passed → RunStatus.passed ≡ RunStatus.passed))
        (cancelled d.now) _ _ (λ _. (RunStatus.cancelled, refl, λ _. refl))
        (λ _.
          after_then (record_delivery w cancelled run_stage run_id) (pure RunStatus.passed)
            (λ z.
              (s : RunStatus) × (z.0 ≡ ok s)
              × (s ≡ RunStatus.passed → RunStatus.passed ≡ RunStatus.passed))
            d (record_delivery-Silent run_id) (λ d' p. (RunStatus.passed, refl, λ _. refl)))
  deliver_run-passed run_id RunStatus.running d = (RunStatus.running, refl, λ h. h)
  deliver_run-passed run_id RunStatus.failed d = (RunStatus.failed, refl, λ h. h)
  deliver_run-passed run_id RunStatus.cancelled d = (RunStatus.cancelled, refl, λ h. h)
  deliver_run-passed run_id RunStatus.timed_out d = (RunStatus.timed_out, refl, λ h. h)
  deliver_run-passed run_id RunStatus.interrupted d = (RunStatus.interrupted, refl, λ h. h)

  set_terminal-status :
      (s : RunStatus) (d : Disk Host)
      → (t : RunStatus) × (set_terminal w cancelled run_stage s d ≡ (ok t, d))
        × (cancelled d.now ≡ true → t ≡ RunStatus.cancelled)
        × (t ≡ RunStatus.passed → s ≡ RunStatus.passed)
  unfolding set_terminal cancelled_now
  set_terminal-status s d = elim (Bool-cases (cancelled d.now)) [
    | inl c ↦ (RunStatus.cancelled, rw c refl, (λ _. refl), λ h. ground arith)
    | inr c ↦ (s, rw c refl, (λ h. ground (arith, c, h)), λ h. h)
  ]

  set_terminal-going :
      (now : ℕ) (s : RunStatus)
      → (cancelled now ≡ true → s ≡ RunStatus.cancelled)
      → s ≡ RunStatus.passed
      → cancelled now ≡ false
  set_terminal-going now s stop passed = elim (Bool-cases (cancelled now)) [
    | inl c ↦ let q = stop c in ground (arith, q, passed)
    | inr c ↦ c
  ]

  abbrev status_of : Result RunStatus → RunStatus
  status_of (ok s) = s
  status_of (err _) = RunStatus.running

  -- Whatever the engine does with a stage and whichever statements the database refuses, a run is
  -- recorded as passed only if every stage ran, in order, without an error, none of them started after a
  -- cancellation, and the run is not cancelled by the time its outcome is recorded.
  pub run_outcome-Ran :
      (run_id : String) (stages : List DagStage) (d : Disk Host)
      → (run_outcome w cancelled run_stage run_id stages d).0 ≡ ok RunStatus.passed
      → Ran stages d × (cancelled (run_outcome w cancelled run_stage run_id stages d).1.now ≡ false)
  unfolding run_outcome
  run_outcome-Ran run_id stages d h =
      let first = run_stages w cancelled run_stage stages in
      let (s0, e0, ran) = run_stages-Ran stages d in
      let d1 = (first d).1 in
      let second = deliver_run w cancelled run_stage run_id in
      let (s1, e1, back1) = deliver_run-passed run_id s0 d1 in
      let d2 = (second s0 d1).1 in
      let third = set_terminal w cancelled run_stage in
      let (s2, e2, stop, back2) = set_terminal-status s1 d2 in
      let whole =
        bind-ok first (λ r. second r >>= third) d s0 e0 ∙ bind-ok (second s0) third d1 s1 e1 ∙ e2 in
      let passed : s2 ≡ RunStatus.passed = ap status_of (sym (ap (λ z. z.0) whole) ∙ h) in
      let going = set_terminal-going d2.now s2 stop passed in
      (ran (back1 (back2 passed)), ap (λ z. cancelled z.1.now) whole ∙ going)
