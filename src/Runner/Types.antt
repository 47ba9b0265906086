-- ===== src/Runner/Types.antt =====
-- internal/runner and internal/handoff: the processes that a phase runs, and what is outside.
use sgt.Base.{ℕ, ◌+◌, String, Bool, Option, List, Exec, ok}
use sgt.Delivery.Types.{Failure}
use sgt.Store.World.{World}

-- A worktree that git added: its path and its branch, and the start point of a branch that was
-- made for it.
pub record Worktree : Type 0 where
  pub path : String
  pub branch : String
  pub start_point : Option String

-- The store, the number of the processes that gates and agents have run, the worktrees, and the
-- local branches of each repository.
pub record Host : Type 0 where
  pub world : World
  pub processes : ℕ
  pub worktrees : List Worktree
  pub branches : List (String × String)

module _ {A : Type 0} where
  unfoldable pub in_world : Exec World A → Exec Host A
  in_world m d =
      let (r, d') = m (record { db = d.db.world; now = d.now; faults = d.faults }) in
      (r, record { db = record d.db { world = d'.db }; now = d'.now; faults = d'.faults })

-- internal/handoff/envelope.go: Envelope. The payload is its text.
pub record Envelope : Type 0 where
  pub task_id : String
  pub repo : String
  pub stage : String
  pub summary : String
  pub artifacts : List String
  pub payload : String

-- How the copy of a file to its durable place ends: neither file was touched, as one of them could not be
-- opened; the durable file was made but the copy failed; or it is whole.
pub data Copy : Type 0 where
  unopened partial complete : Copy

-- A file that a command left in the artifact directory: its name and its size.
abbrev pub CapturedFile : Type 0
CapturedFile = String × ℕ

-- How a gate's command ended. `left` is what os.ReadDir and Info say of the artifact directory,
-- without its directories; it is empty if it cannot be read.
pub record GateRun : Type 0 where
  pub passed : Bool
  pub error : String
  pub output : String
  pub left : List CapturedFile

-- How an agent's command ended. `cancelled` is ctx.Err() after it, `timed_out` the expiry of its own
-- budget, and `envelope` what .sgt/envelope.json then decodes to, if it can be read.
pub record AgentRun : Type 0 where
  pub cancelled : Bool
  pub timed_out : Bool
  pub failed : Bool
  pub timeout_text : String
  pub exit_text : String
  pub output : String
  pub envelope : Option Envelope
  pub model : String
  pub provider : String
  pub left : List CapturedFile

pub record GateResult : Type 0 where
  pub gate_name : String
  pub command : String
  pub passed : Bool
  pub output : String

-- What the runner is given. `gate n` and `agent n` are how the n-th process ends, `save n` what
-- the n-th call of Router.SaveEnvelope returns. `phase_id`, `attempt_id`, `artifact_id` and
-- `dropped_id` are fmt.Sprintf with its formats; the payloads are json.Marshal of what they name.
pub record Outside : Type 0 where
  pub gate : ℕ → GateRun
  pub agent : ℕ → AgentRun
  pub save : ℕ → Option Failure
  pub phase_id : String → String → ℕ → String
  pub attempt_id : String → ℕ → String
  pub artifact_id : String → String → ℕ → String
  pub dropped_id : String → String → ℕ → String
  pub redact_text : String → String
  pub redact_json : String → String
  pub gate_payload : GateResult → String
  pub gate_error : String → String → String
  pub raw_payload : String → ℕ → ℕ → String
  pub annotate : String → String → String → String
  pub blocked_reason : String → String
  pub completed : String → String → String
  pub failed : String → String → String → String
  pub prompt_file : String → String
  pub name_le : String → String → Bool
  pub dest_path : String → String → String → String
  pub content_type : String → String
  -- Whether the durable directory of a run and a phase can be made, and a file copied into it.
  pub dest_writable : String → String → Bool
  pub copies : String → Copy

-- The n-th process runs.
unfoldable pub process : {A : Type 0} → (ℕ → A) → Exec Host A
process outcome d =
    (ok (outcome d.db.processes), record d { db = record d.db { processes = d.db.processes + 1 } })

-- PhaseRunner: the run, the repository and the fix cycle it works for.
pub record PhaseRunner : Type 0 where
  pub run_id : String
  pub repo_name : String
  pub fix_cycle : ℕ
