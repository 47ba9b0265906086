-- ===== src/Engine/Evidence.antt =====
-- internal/dag/engine.go: the red and green evidence of a repository, and the exemption from it.
--
-- A method that returns evidence beside its error returns both here. The names of the gates in an error
-- are not joined to a text, and durations are left out.
use sgt.Base.{
  String, Bool, ◌&&◌, ◌||◌, Option, none, some, List, [], ◌∷◌, str_eq, if◌then◌else◌, any, filterb,
  map, str_append, Err, unknown_repo, no_gates, no_red_state, still_failing, not_persisted,
  no_reason, run_cancelled, Exec, pure, raise, time_now, ◌>>=◌, on_error,
}
use sgt.Store.Types.{PhaseRecord}
use sgt.Store.World.{in_tables}
use sgt.Store.Phases.{list_phases_for_run, record_phase}
use sgt.Runner.Types.{Host, in_world, GateResult}
use sgt.Runner.Phases.{run_code_gate}
use sgt.Engine.Types.{Environment, Engine, Repo, repo_of, sorted_gates}
use sgt.Engine.Worktrees.{prepare_worktree}
use sgt.Engine.Stages.{runner_of}

pub record GateEvidence : Type 0 where
  pub gate : String
  pub status : String
  pub stage : String
  pub output : String

unfoldable pub gate_phase_name : String → String → String
gate_phase_name stage gate = str_append stage (str_append ":" gate)

abbrev pub Observed : Type 0
Observed = List GateEvidence × Option Err

abbrev pub is_code_row : String → String → PhaseRecord → Bool
is_code_row repo name p = str_eq p.repo repo && str_eq p.kind "code" && str_eq p.name name

-- The gates without a record of this stage.
unfoldable pub missing_gates : String → String → List PhaseRecord → List String → List String
missing_gates repo stage phases [] = []
missing_gates repo stage phases (g ∷ gs) =
    let rest = missing_gates repo stage phases gs in
    if any (is_code_row repo (gate_phase_name stage g)) phases then rest else g ∷ rest

abbrev pub is_failed : GateEvidence → Bool
is_failed ev = str_eq ev.status "failed"

module _ (v : Environment) (e : Engine) (run_id repo : String) where
  unfoldable pub evidence_of : String → String → GateResult → GateEvidence
  evidence_of stage gate res = record {
    gate = gate;
    status = if res.passed then "passed" else "failed";
    stage = stage;
    output = res.output;
  }

  -- The loop over the gates.
  unfoldable pub observe_gates : String → List (String × String) → Exec Host (List GateEvidence)
  observe_gates stage [] = pure []
  observe_gates stage (g ∷ gs) = do
    res ← run_code_gate v.outside v.join (runner_of v e run_id repo) (gate_phase_name stage g.0) g.1
    rest ← observe_gates stage gs
    pure (evidence_of stage g.0 res ∷ rest)

  unfoldable pub persisted : List String → Option Err
  persisted [] = none
  persisted (g ∷ gs) = some (not_persisted (g ∷ gs))

  unfoldable pub verify_evidence_persisted : String → List String → Exec Host (Option Err)
  verify_evidence_persisted stage gates =
      on_error (in_world (in_tables (list_phases_for_run run_id))) (λ failure. pure (some failure))
        (λ phases. pure (persisted (missing_gates repo stage phases gates)))

  unfoldable pub observe_all : String → List (String × String) → Exec Host Observed
  observe_all stage gates = do
    evidence ← observe_gates stage gates
    verdict ← verify_evidence_persisted stage (map (λ g. g.0) gates)
    pure (evidence, verdict)

  unfoldable pub gated_stage : String → Repo → List (String × String) → Exec Host Observed
  gated_stage stage cfg [] = pure ([], some (no_gates repo))
  gated_stage stage cfg (g ∷ gs) =
      on_error (prepare_worktree v cfg.path run_id repo) (λ failure. pure ([], some failure))
        (λ worktree. observe_all stage (g ∷ gs))

  unfoldable pub configured_stage : String → Option Repo → Exec Host Observed
  configured_stage stage none = pure ([], some (unknown_repo repo))
  configured_stage stage (some cfg) = gated_stage stage cfg (sorted_gates v.name_le cfg.gates)

  unfoldable pub record_gate_stage : String → Exec Host Observed
  record_gate_stage stage = configured_stage stage (repo_of e repo)

  unfoldable pub red_verdict : Observed → Observed
  red_verdict (evidence, some failure) = (evidence, some failure)
  red_verdict (evidence, none) =
      (evidence, if any is_failed evidence then none else some (no_red_state repo))

  unfoldable pub record_red_state : Exec Host Observed
  record_red_state = do observed ← record_gate_stage "red"; pure (red_verdict observed)

  unfoldable pub failing : List String → Option Err
  failing [] = none
  failing (g ∷ gs) = some (still_failing (g ∷ gs))

  unfoldable pub green_verdict : Observed → Observed
  green_verdict (evidence, some failure) = (evidence, some failure)
  green_verdict (evidence, none) =
      (evidence, failing (map (λ ev. ev.gate) (filterb is_failed evidence)))

  unfoldable pub record_green_state : Exec Host Observed
  record_green_state = do observed ← record_gate_stage "green"; pure (green_verdict observed)

  -- `cancelled` is ctx.Err() at the start. The error of RecordPhase is returned.
  unfoldable pub record_red_exemption : Bool → String → Exec Host (Unit {0})
  record_red_exemption cancelled reason =
      if cancelled
      then raise run_cancelled
      else if str_eq (v.trim reason) ""
      then raise no_reason
      else if str_eq run_id "" || str_eq repo ""
      then raise no_reason
      else elim (repo_of e repo) [
        | none ↦ raise (unknown_repo repo)
        | some cfg ↦ do
          nanos ← time_now
          in_world (
              in_tables (
                record_phase v.outside.redact_text v.outside.redact_json (record {
                  id = v.outside.phase_id repo "red:exempt" nanos;
                  run_id = run_id;
                  repo = repo;
                  name = "red:exempt";
                  kind = "exemption";
                  status = "exempt";
                  error = "";
                  duration_ms = 0;
                  payload = v.exemption_payload repo run_id (v.trim reason);
                  attempt = 0;
                  fix_cycle = 0;
                  created_at = 0;
                })))
      ]
