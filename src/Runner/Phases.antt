-- ===== src/Runner/Phases.antt =====
-- internal/runner/runner.go: RunCodeGate and RunAgentPhase.
--
-- Not modelled: the artifact directory and the prompt file are made, the environment of the command, the
-- location of the worktree and its branch in a payload.
use sgt.Base.{
  ℕ, zero, suc, ◌+◌, ◌-◌, String, true, Option, none, some, List, [], ◌∷◌, ◌==◌, if◌then◌else◌, map,
  Err, agent_failed, run_cancelled, Exec, pure, time_now, ◌>>=◌, ◌>>◌, on_error, ignore, not,
}
use sgt.Store.Types.{PhaseRecord}
use sgt.Store.World.{in_tables, in_deliveries}
use sgt.Store.Phases.{record_phase, record_envelope, causation_from_latest}
use sgt.Delivery.Ops.{deliver_envelope}
use sgt.Runner.Types.{
  Host, in_world, Envelope, GateRun, AgentRun, GateResult, Outside, process, PhaseRunner,
}
use sgt.Runner.Capture.{capture_artifacts, Drop}

abbrev pub failure_reason : AgentRun → String
failure_reason run =
    if run.timed_out then run.timeout_text else if run.failed then run.exit_text else ""

-- What RunAgentPhase returns: its envelope, or the error, with the blocked reason.
pub data PhaseEnd : Type 0 where
  finished : Envelope → String → PhaseEnd
  stopped : String → Err → PhaseEnd

module _ (o : Outside) (join : List Drop → String) (pr : PhaseRunner) where
  abbrev pub record_phase_here : PhaseRecord → Exec Host (Unit {0})
  record_phase_here p = ignore (in_world (in_tables (record_phase o.redact_text o.redact_json p)))

  unfoldable pub gate_result : String → String → GateRun → GateResult
  gate_result name command run = record {
    gate_name = name;
    command = o.redact_text command;
    passed = run.passed;
    output = o.redact_text run.output;
  }

  -- The record of a gate's phase, and the capture of what the gate left.
  unfoldable pub record_gate : GateResult → GateRun → ℕ → ℕ → Exec Host (Unit {0})
  record_gate result run duration nanos = do
    let id = o.phase_id pr.repo_name result.gate_name nanos
    record_phase_here (record {
      id = id;
      run_id = pr.run_id;
      repo = pr.repo_name;
      name = result.gate_name;
      kind = "code";
      status = if run.passed then "passed" else "failed";
      error = if run.passed then "" else o.gate_error run.error result.output;
      duration_ms = duration;
      payload = o.gate_payload result;
      attempt = 0;
      fix_cycle = pr.fix_cycle;
      created_at = 0;
    })
    capture_artifacts o pr id join run.left

  unfoldable pub run_code_gate : String → String → Exec Host GateResult
  run_code_gate name command = do
    start ← time_now
    run ← process o.gate
    finish ← time_now
    nanos ← time_now
    record_gate (gate_result name command run) run (finish - start) nanos
    pure (gate_result name command run)

  -- The envelope of an attempt, before it is redacted.
  unfoldable pub own_envelope : String → ℕ → ℕ → AgentRun → Envelope
  own_envelope phase attempt retries run =
      let built : Envelope = record {
        task_id = pr.run_id;
        repo = pr.repo_name;
        stage = phase;
        summary =
            if run.failed
            then o.failed phase pr.repo_name (failure_reason run)
            else o.completed phase pr.repo_name;
        artifacts = o.prompt_file phase ∷ [];
        payload = o.raw_payload (o.redact_text run.output) (attempt + 1) (retries + 1);
      } in
      elim run.envelope [ none ↦ built | some e ↦ if not run.failed then e else built ]

  unfoldable pub redacted : Envelope → Envelope
  redacted e = record e {
    summary = o.redact_text e.summary;
    payload = o.redact_json e.payload;
    artifacts = map o.redact_text e.artifacts;
  }

  abbrev pub attempt_record : String → String → ℕ → String → String → ℕ → String → PhaseRecord
  attempt_record phase_id phase attempt status error duration payload = record {
    id = if attempt == 0 then phase_id else o.attempt_id phase_id (attempt + 1);
    run_id = pr.run_id;
    repo = pr.repo_name;
    name = phase;
    kind = "agent";
    status = status;
    error = error;
    duration_ms = duration;
    payload = payload;
    attempt = attempt + 1;
    fix_cycle = pr.fix_cycle;
    created_at = 0;
  }

  -- DeliverEnvelope of the handoff file, with its error as a value.
  unfoldable pub deliver_handoff : String → Exec Host (Option Err)
  deliver_handoff envelope_id =
      on_error (in_world (in_deliveries (deliver_envelope o.save envelope_id pr.repo_name true)))
        (λ e. pure (some e)) (λ _. pure none)

  unfoldable pub record_handoff : String → String → String → ℕ → Envelope → Exec Host (Unit {0})
  record_handoff phase_id phase envelope_id now e = do
    cause ← in_world (in_tables (causation_from_latest pr.run_id pr.repo_name))
    ignore (
        in_world (
          in_tables (
            record_envelope o.redact_text o.redact_json (record {
              id = envelope_id;
              run_id = pr.run_id;
              repo = pr.repo_name;
              stage = phase;
              summary = e.summary;
              artifacts = e.artifacts;
              body = e.payload;
              created_at = 0;
              type = "phase.completed";
              schema_version = "1";
              occurred_at = now;
              published_at = 0;
              producer = "sgt/runner";
              correlation_id = pr.run_id;
              causation_id = elim cause [ none ↦ "" | some id ↦ id ];
              phase_id = phase_id;
            }))))

  -- What is recorded of a cancelled attempt. Its fix cycle is left out.
  unfoldable pub cancel_attempt : String → String → ℕ → ℕ → Exec Host (Unit {0})
  cancel_attempt phase_id phase attempt duration =
      record_phase_here
        (record (attempt_record phase_id phase attempt "cancelled" "cancelled" duration "") {
          fix_cycle = 0;
        })

  -- What is written of an attempt that was not cancelled. It returns the envelope and the error of
  -- its delivery.
  unfoldable pub settle_attempt :
      String → String → ℕ → ℕ → ℕ → AgentRun → Exec Host (Envelope × Option Err)
  settle_attempt phase_id phase retries attempt duration run = do
    let e = redacted (own_envelope phase attempt retries run)
    let annotated : Envelope = record e { payload = o.annotate e.payload run.model run.provider }
    now ← time_now
    let envelope_id = o.phase_id pr.repo_name phase now
    delivered ← deliver_handoff envelope_id
    record_handoff phase_id phase envelope_id now annotated
    let status = if run.failed then "failed" else "passed"
    let row =
        attempt_record phase_id phase attempt status (failure_reason run) duration annotated.payload
    record_phase_here row
    capture_artifacts o pr row.id join run.left
    pure (annotated, delivered)

  -- Read after redaction, before the provenance is added.
  unfoldable pub blocked_reason_of : String → ℕ → ℕ → AgentRun → String
  blocked_reason_of phase retries attempt run =
      o.blocked_reason (redacted (own_envelope phase attempt retries run)).payload

  -- The end of a phase whose agent succeeded: a delivery failure is surfaced.
  unfoldable pub succeeded : String → Envelope → Option Err → Exec Host PhaseEnd
  succeeded blocked e none = pure (finished e blocked)
  succeeded blocked e (some failure) = pure (stopped blocked failure)

  -- What an attempt that was not cancelled leads to; `more` goes on with the next one.
  unfoldable pub concluded :
      AgentRun → String → Envelope × Option Err → Option (Exec Host PhaseEnd) → Exec Host PhaseEnd
  concluded run blocked (e, delivered) more =
      if run.failed
      then elim more [
        | some next ↦ next
        | none ↦ pure (stopped blocked (agent_failed (failure_reason run)))
      ]
      else succeeded blocked e delivered

  unfoldable pub run_attempt :
      String → String → ℕ → ℕ → ℕ → Option (Exec Host PhaseEnd) → Exec Host PhaseEnd
  run_attempt phase_id phase start retries attempt more = do
    run ← process o.agent
    finish ← time_now
    if run.cancelled
        then (do
          cancel_attempt phase_id phase attempt (finish - start)
          pure (stopped "" run_cancelled))
        else do
          settled ← settle_attempt phase_id phase retries attempt (finish - start) run
          concluded run (blocked_reason_of phase retries attempt run) settled more

  -- The loop over the attempts, by the attempts left after this one.
  unfoldable pub run_attempts : String → String → ℕ → ℕ → ℕ → ℕ → Exec Host PhaseEnd
  run_attempts phase_id phase start retries zero attempt =
      run_attempt phase_id phase start retries attempt none
  run_attempts phase_id phase start retries (suc left) attempt =
      run_attempt phase_id phase start retries attempt
        (some (run_attempts phase_id phase start retries left (attempt + 1)))

  unfoldable pub run_agent_phase : String → ℕ → Exec Host PhaseEnd
  run_agent_phase phase retries = do
    start ← time_now
    nanos ← time_now
    let phase_id = o.phase_id pr.repo_name phase nanos
    record_phase_here (attempt_record phase_id phase 0 "running" "" 0 "")
    run_attempts phase_id phase start retries retries 0
