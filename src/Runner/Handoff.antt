-- ===== src/Runner/Handoff.antt =====
-- internal/runner/runner.go: what an attempt that was not cancelled returns, whichever statements the
-- database refuses.
use sgt.Base.{
  ℕ, ◌+◌, String, List, true, Option, none, some, Err, Result, ok, err, Disk, Exec, pure, ◌>>◌,
  bind-ok, branch, if◌then◌else◌, refl, sym, ◌≡◌, ◌∙◌,
}
use mathlib.Core.Path.{subst}
use sgt.Store.World.{in_deliveries}
use sgt.Delivery.Types.{Deliveries}
use sgt.Delivery.Ops.{deliver_envelope}
use sgt.Delivery.Errors.{DeliveryError, deliver_envelope-DeliveryError}
use sgt.Runner.Types.{Host, in_world, Envelope, Outside, PhaseRunner, AgentRun}
use sgt.Runner.Capture.{Drop, capture_artifacts}
use sgt.Runner.Phases.{
  deliver_handoff, record_handoff, record_phase_here, settle_attempt, own_envelope, redacted,
  attempt_record, failure_reason,
}
use sgt.Runner.Silent.{
  after_then, record_handoff-Silent, record_phase_here-Silent, capture_artifacts-Silent,
}

-- No error, or an error of a delivery.
abbrev pub OfDelivery : Option Err → Type 0
OfDelivery none = Unit
OfDelivery (some e) = DeliveryError e

module _ (o : Outside) (join : List Drop → String) (pr : PhaseRunner) where
  deliver_handoff-OfDelivery :
      (id : String) (d : Disk Host)
      → (f : Option Err) × ((deliver_handoff o join pr id d).0 ≡ ok f)
        × OfDelivery f
        × ((deliver_handoff o join pr id d).1.db.processes ≡ d.db.processes)
  unfolding deliver_handoff in_world
  deliver_handoff-OfDelivery id d =
      let start : Disk Deliveries = record {
        db = d.db.world.deliveries;
        now = d.now;
        faults = d.faults;
      } in
      go (deliver_envelope o.save id pr.repo_name true start).0 refl
        (in_world (in_deliveries (deliver_envelope o.save id pr.repo_name true)) d).1 refl
    where
      go :
          (r : Result (Unit {0}))
          → (deliver_envelope o.save id pr.repo_name true
              (record { db = d.db.world.deliveries; now = d.now; faults = d.faults })).0
            ≡ r
          → (d' : Disk Host) → d'.db.processes ≡ d.db.processes
          → let z = branch r (λ e. pure (some e)) (λ _. pure none) d' in
            (f : Option Err) × (z.0 ≡ ok f) × OfDelivery f × (z.1.db.processes ≡ d.db.processes)
      go (ok u) q d' p = (none, refl, tt, p)
      go (err e) q d' p =
          (some e, refl, deliver_envelope-DeliveryError o.save id pr.repo_name true _ e q, p)

  abbrev Settled : ℕ → Result (Envelope × Option Err) × Disk Host → Type 0
  Settled n z = (x : Envelope × Option Err) × (z.0 ≡ ok x) × OfDelivery x.1 × (z.1.db.processes ≡ n)

  -- It returns an envelope, with no error but one of its delivery, and runs no process.
  pub settle_attempt-OfDelivery :
      (phase_id phase : String) (retries attempt duration : ℕ) (run : AgentRun) (d : Disk Host)
      → Settled d.db.processes
          (settle_attempt o join pr phase_id phase retries attempt duration run d)
  unfolding settle_attempt
  settle_attempt-OfDelivery phase_id phase retries attempt duration run d =
      let e = redacted o join pr (own_envelope o join pr phase attempt retries run) in
      let annotated : Envelope = record e {
        payload = o.annotate e.payload run.model run.provider;
      } in
      let id = o.phase_id pr.repo_name phase d.now in
      let status = if run.failed then "failed" else "passed" in
      let row =
        attempt_record o join pr phase_id phase attempt status (failure_reason run) duration
          annotated.payload in
      let began : Disk Host = record d { now = d.now + 1 } in
      let (f, q, of_delivery, p) = deliver_handoff-OfDelivery id began in
      let first = record_handoff o join pr phase_id phase id d.now annotated in
      let second = record_phase_here o join pr row in
      let third = capture_artifacts o pr row.id join run.left in
      let rest : Option Err → Exec Host (Envelope × Option Err) =
        λ delivered. first >> (second >> (third >> pure (annotated, delivered))) in
      let d1 = (deliver_handoff o join pr id began).1 in
      let whole = bind-ok (deliver_handoff o join pr id) rest began f q in
      let Q = Settled d.db.processes in
      subst Q (sym whole) (
        after_then first (second >> (third >> pure (annotated, f))) Q d1
          (record_handoff-Silent o join pr phase_id phase id d.now annotated)
          (λ d2 p2.
            after_then second (third >> pure (annotated, f)) Q d2
              (record_phase_here-Silent o join pr row)
              (λ d3 p3.
                after_then third (pure (annotated, f)) Q d3
                  (capture_artifacts-Silent o pr row.id join run.left)
                  (λ d4 p4. ((annotated, f), refl, of_delivery, p4 ∙ p3 ∙ p2 ∙ p)))))
