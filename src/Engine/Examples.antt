-- ===== src/Engine/Examples.antt =====
-- Phases, gates and stages of internal/runner and internal/dag at concrete inputs.
use sgt.Base.{
  ◌+◌, ◌==◌, String, Bool, true, false, none, some, List, [], ◌∷◌, str_append, if◌then◌else◌,
  Result, ok, err, Disk, quiet, refl, ◌≡◌, inl, inr, blocking_finding, not, ◌*◌, length,
}
use sgt.Store.Types.{RunStatus, PhaseRecord}
use sgt.Store.Examples.{run_of, tables_of}
use sgt.Runner.Types.{Host, Copy, AgentRun, GateRun, Outside, PhaseRunner}
use sgt.Runner.Phases.{
  run_agent_phase, run_code_gate, gate_result, record_gate, run_attempts, run_attempt, own_envelope,
  redacted, cancel_attempt, settle_attempt, deliver_handoff, record_handoff, succeeded, concluded,
  blocked_reason_of,
}
use sgt.Runner.Types.{in_world, process, CapturedFile}
use sgt.Runner.Capture.{capture_artifacts, Captured, capture_files, nothing_captured}
use sgt.Runner.Bounds.{capture_files-Capped}
use sgt.Runner.Gains.{Capped, Gains, stray}
use sgt.Store.Rows.{get_run, one_row, require_one_row}
use sgt.Store.Runs.{set_run_base_branch, update_runs}
use sgt.Store.Changes.{record_transition, append_change, append_row, notify_change}
use sgt.Store.Phases.{
  record_phase, replace_phase, touch_run, list_phases_for_run, causation_from_latest,
  get_latest_envelope, record_envelope, missing_field, publish, envelope_insert,
}
use sgt.Delivery.Ops.{
  deliver_envelope, deliver_retry_loop, retry_rounds, call, round, conclude, returned, error_of,
}
use sgt.Delivery.Rows.{
  is_already_terminal_success, insert_delivery_row, success_row, has_key, is_success,
  violates_index, new_row, error_text, delivery_id, delivery_idempotency_key,
}
use sgt.Naming.{branch_name}
use sgt.Engine.Worktrees.{
  prepare_worktree, worktree_there, base_branch_for, resolve_default_branch, add_worktree,
  branch_exists,
}
use sgt.Engine.Types.{Environment, Engine, Repo, sorted_gates, insert_gate, repo_of}
use sgt.Engine.Evidence.{
  GateEvidence, record_red_state, record_green_state, record_gate_stage, configured_stage,
  gated_stage, observe_all, observe_gates, evidence_of, gate_phase_name, verify_evidence_persisted,
  missing_gates, persisted, red_verdict, green_verdict, failing,
}
use sgt.Engine.Gates.{AllPassed}
use sgt.Engine.Observed.{Witnessed}
use sgt.Engine.Green.{SomeFailed, record_green_state-Witnessed, record_red_state-Witnessed}
use sgt.Engine.Stages.{
  run_gates, run_phases, run_review, phase_passed, review_verdict, has_blocking_finding,
}
use sgt.Engine.Resumed.{DoneTests, run_phases-resumed, run_gates-end, gates_end}

abbrev agent_of : Bool → String → AgentRun
agent_of failed payload = record {
  cancelled = false;
  timed_out = false;
  failed = failed;
  timeout_text = "killed";
  exit_text = "exit status 1";
  output = "";
  envelope = some (record {
    task_id = "r1";
    repo = "api";
    stage = "review";
    summary = "done";
    artifacts = [];
    payload = payload;
  });
  model = "m";
  provider = "p";
  left = [];
}

abbrev gate_of : Bool → GateRun
gate_of passed = record { passed = passed; error = "exit status 1"; output = ""; left = [] }

-- The first process fails and the later ones pass.
abbrev pub outside : Outside
outside = record {
  gate = λ n. gate_of (not (n == 0));
  agent = λ n. agent_of (n == 0) "error";
  save = λ n. none;
  phase_id = λ repo phase n.
      str_append repo (str_append phase (if n == 1 then "1" else if n == 4 then "4" else "9"));
  attempt_id = λ id n. str_append id "-attempt2";
  artifact_id = λ r p n. p;
  dropped_id = λ r p n. p;
  redact_text = λ s. s;
  redact_json = λ s. s;
  gate_payload = λ r. "gate";
  gate_error = λ e out. e;
  raw_payload = λ out n m. "raw";
  annotate = λ p m q. p;
  blocked_reason = λ p. "";
  completed = λ phase repo. "completed";
  failed = λ phase repo reason. reason;
  prompt_file = λ phase. phase;
  name_le = λ a b. true;
  dest_path = λ r p f. f;
  content_type = λ f. "text/plain";
  dest_writable = λ r p. true;
  copies = λ f. Copy.complete;
}

abbrev environment : Environment
environment = record {
  outside = outside;
  join = λ ds. "";
  reviewed = λ payload. payload ∷ [];
  diff = λ repo. none;
  copy_change = λ repo. none;
  inject = λ u w. none;
  handoff = λ n. none;
  name_le = λ a b. true;
  expand_path = λ p. p;
  is_git_repo = λ p. true;
  fleet_dir = λ run repo. "/fleet";
  makes_parent = λ p. true;
  output = λ path args. "main";
  trim_remotes = λ s. s;
  worktree_fails = λ a b. none;
  trim = λ s. s;
  exemption_payload = λ a b c. c;
}

abbrev api : Repo
api = record {
  path = "/src/api";
  pipeline = none;
  gates = ("lint", "make lint") ∷ ("unit", "make test") ∷ [];
  retries = 1;
}

abbrev engine : Bool → Engine
engine resume = record {
  repos = ("api", api) ∷ [];
  resume = resume;
  change_dir = "";
  change_repo = "";
}

abbrev pub host_of : List PhaseRecord → Host
host_of phases = record {
  world = record {
    tables = record (tables_of (run_of "r1" "" RunStatus.running ∷ []) [] [] 0) { phases = phases };
    deliveries = record { rows = []; calls = 0 };
    rollups = [];
    artifacts = [];
    files = [];
  };
  processes = 0;
  worktrees = [];
  branches = [];
}

abbrev pub started : Disk Host
started = quiet (host_of []) 0

abbrev runner : PhaseRunner
runner = record { run_id = "r1"; repo_name = "api"; fix_cycle = 0 }

run_gates-end_example :
    ((run_gates environment (engine false) "r1" "api" api.gates started).0
      ≡ (gates_end environment (engine false) "r1" "api" 0 api.gates).0)
    × ((run_gates environment (engine false) "r1" "api" api.gates started).1.db.processes ≡ 0 + 1)
run_gates-end_example = run_gates-end environment (engine false) "r1" "api" api.gates started refl

abbrev files : List CapturedFile
files = ("report", 3) ∷ ("dump", 26 * 1024 * 1024) ∷ []

capture_files-Capped_example :
    (c : Captured) × ((capture_files outside runner "p1" files nothing_captured started).0 ≡ ok c)
    × Capped c
    × (c.count + length c.dropped ≡ 2)
    × Gains started.db.world
        (capture_files outside runner "p1" files nothing_captured started).1.db.world
        c.count
        c.total_bytes
        (stray c.dropped)
capture_files-Capped_example = capture_files-Capped outside runner "p1" files started

abbrev pub passed_phase : String → String → PhaseRecord
passed_phase id name = record {
  id = id;
  run_id = "r1";
  repo = "api";
  name = name;
  kind = "agent";
  status = "passed";
  error = "";
  duration_ms = 1;
  payload = "";
  attempt = 1;
  fix_cycle = 0;
  created_at = 1;
}

abbrev earned : Host
earned =
    host_of (passed_phase "p1" "build" ∷ passed_phase "p2" "lint" ∷ passed_phase "p3" "unit" ∷ [])

earned_gates : DoneTests environment (engine true) "r1" "api" earned api.gates
unfolding sorted_gates insert_gate
earned_gates = (refl, (refl, tt))

run_phases-resumed_example :
    run_phases environment (engine true) "r1" "api" api ("build" ∷ "test" ∷ []) (quiet earned 7)
    ≡ (ok tt, quiet earned 7)
run_phases-resumed_example =
    run_phases-resumed environment (engine true) "r1" "api" api ("build" ∷ "test" ∷ []) earned 7
      refl (inr (refl, refl), (inl (refl, earned_gates), tt))

-- The red state, then the green state of the same gates.
abbrev evidence : String → String → String → GateEvidence
evidence gate status stage = record { gate = gate; status = status; stage = stage; output = "" }

abbrev reds : List GateEvidence
reds = evidence "lint" "failed" "red" ∷ evidence "unit" "passed" "red" ∷ []

abbrev greens : List GateEvidence
greens = evidence "lint" "passed" "green" ∷ evidence "unit" "passed" "green" ∷ []

abbrev reddened : Disk Host
reddened = (record_red_state environment (engine false) "r1" "api" started).1

reds_observed : (record_red_state environment (engine false) "r1" "api" started).0 ≡ ok (reds, none)
unfolding record_red_state red_verdict record_gate_stage configured_stage gated_stage repo_of
    sorted_gates insert_gate prepare_worktree worktree_there get_run one_row in_world
    base_branch_for resolve_default_branch set_run_base_branch update_runs require_one_row
    add_worktree branch_exists branch_name observe_all observe_gates evidence_of gate_phase_name
    run_code_gate process gate_result record_gate record_phase replace_phase touch_run
    record_transition append_change append_row notify_change capture_artifacts
    verify_evidence_persisted list_phases_for_run missing_gates persisted
reds_observed = refl

greens_observed :
    (record_green_state environment (engine false) "r1" "api" reddened).0 ≡ ok (greens, none)
unfolding record_red_state red_verdict record_green_state green_verdict failing record_gate_stage
    configured_stage gated_stage repo_of sorted_gates insert_gate prepare_worktree worktree_there
    get_run one_row in_world base_branch_for resolve_default_branch set_run_base_branch update_runs
    require_one_row add_worktree branch_exists branch_name observe_all observe_gates evidence_of
    gate_phase_name run_code_gate process gate_result record_gate record_phase replace_phase
    touch_run record_transition append_change append_row notify_change capture_artifacts
    verify_evidence_persisted list_phases_for_run missing_gates persisted
greens_observed = refl

record_red_state-Witnessed_example :
    (w : Witnessed environment
      (engine false)
      "r1"
      "api"
      "red"
      0
      reds
      (record_red_state environment (engine false) "r1" "api" started).1.db)
    × SomeFailed environment
        (engine false)
        "r1"
        "api"
        0
        (sorted_gates environment.name_le w.cfg.gates)
record_red_state-Witnessed_example =
    record_red_state-Witnessed environment (engine false) "r1" "api" reds started reds_observed

record_green_state-Witnessed_example :
    (w : Witnessed environment
      (engine false)
      "r1"
      "api"
      "green"
      reddened.db.processes
      greens
      (record_green_state environment (engine false) "r1" "api" reddened).1.db)
    × AllPassed outside reddened.db.processes (sorted_gates environment.name_le w.cfg.gates)
record_green_state-Witnessed_example =
    record_green_state-Witnessed environment (engine false) "r1" "api" greens reddened
      greens_observed

-- A review that reports a blocking finding fails its stage, but its phase is recorded as passed, and the
-- resumed run skips it.
abbrev reviewed_once : Result (Unit {0}) × Disk Host
reviewed_once = run_review environment (engine false) "r1" "api" 1 started

abbrev reviewed_again : Result (Unit {0}) × Disk Host
reviewed_again = run_review environment (engine true) "r1" "api" 1 reviewed_once.1

blocked_review-resumed :
    (reviewed_once.0 ≡ err (blocking_finding "api")) × (reviewed_again.0 ≡ ok tt)
unfolding run_review phase_passed run_agent_phase run_attempts run_attempt process own_envelope
    redacted cancel_attempt settle_attempt deliver_handoff deliver_envelope
    is_already_terminal_success insert_delivery_row deliver_retry_loop retry_rounds call round
    conclude returned record_handoff causation_from_latest get_latest_envelope one_row
    record_envelope missing_field publish envelope_insert record_phase replace_phase touch_run
    record_transition append_change append_row notify_change capture_artifacts succeeded concluded
    blocked_reason_of review_verdict has_blocking_finding in_world list_phases_for_run success_row
    has_key is_success violates_index new_row error_text delivery_id delivery_idempotency_key
    error_of
blocked_review-resumed = (refl, refl)
