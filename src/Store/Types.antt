-- ===== src/Store/Types.antt =====
-- internal/store/store.go and changes.go: the records, the vocabularies and the tables.
--
-- A status column is one of the values that the source names for it. JSON is not modelled: a
-- raw message is the text that it holds.
use sgt.Base.{ℕ, String, Bool, true, false, Option, List, [], ◌∷◌, ◌==◌, ◌≡◌, arith, ◌↔◌}

pub data RunStatus : Type 0 where
  running passed failed cancelled timed_out interrupted : RunStatus

pub data BulletStatus : Type 0 where
  proposed pending red green sealed merged failed blocked : BulletStatus

pub data IntentStatus : Type 0 where
  proposed approved in_progress satisfied abandoned : IntentStatus

-- "", "passed" or "failed"
pub data GateStatus : Type 0 where
  unevaluated gate_passed gate_failed : GateStatus

abbrev pub run_code : RunStatus → ℕ
run_code running = 0
run_code passed = 1
run_code failed = 2
run_code cancelled = 3
run_code timed_out = 4
run_code interrupted = 5

abbrev pub bullet_code : BulletStatus → ℕ
bullet_code proposed = 0
bullet_code pending = 1
bullet_code red = 2
bullet_code green = 3
bullet_code sealed = 4
bullet_code merged = 5
bullet_code failed = 6
bullet_code blocked = 7

abbrev pub intent_code : IntentStatus → ℕ
intent_code proposed = 0
intent_code approved = 1
intent_code in_progress = 2
intent_code satisfied = 3
intent_code abandoned = 4

-- `==` on the status texts.
unfoldable pub run_status_eq : RunStatus → RunStatus → Bool
run_status_eq a b = run_code a == run_code b

unfoldable pub bullet_status_eq : BulletStatus → BulletStatus → Bool
bullet_status_eq a b = bullet_code a == bullet_code b

unfoldable pub intent_status_eq : IntentStatus → IntentStatus → Bool
intent_status_eq a b = intent_code a == intent_code b

pub bullet_status_eq_iff : (a b : BulletStatus) → (bullet_status_eq a b ≡ true) ↔ (a ≡ b)
unfolding bullet_status_eq
bullet_status_eq_iff a b = ground arith

pub intent_status_eq_iff : (a b : IntentStatus) → (intent_status_eq a b ≡ true) ↔ (a ≡ b)
unfolding intent_status_eq
intent_status_eq_iff a b = ground arith

pub run_status_eq_iff : (a b : RunStatus) → (run_status_eq a b ≡ true) ↔ (a ≡ b)
unfolding run_status_eq
run_status_eq_iff a b = ground arith

pub record RunRecord : Type 0 where
  pub id : String
  pub project : String
  pub task_id : String
  pub brief : String
  pub change_id : String
  pub type : String
  pub intent_id : String
  pub slug : String
  -- "" stands for SQL NULL.
  pub request_id : String
  pub status : RunStatus
  pub base_branch : String
  pub created_at : ℕ
  pub updated_at : ℕ

pub record PhaseRecord : Type 0 where
  pub id : String
  pub run_id : String
  pub repo : String
  pub name : String
  pub kind : String
  pub status : String
  pub error : String
  pub duration_ms : ℕ
  pub payload : String
  pub attempt : ℕ
  pub fix_cycle : ℕ
  pub created_at : ℕ

pub record IntentRecord : Type 0 where
  pub id : String
  pub project : String
  pub statement : String
  pub status : IntentStatus
  pub change_id : String
  pub change_repo : String
  pub type : String
  pub shipping_gate_status : GateStatus
  pub shipping_gate_reason : String
  pub created_at : ℕ
  pub updated_at : ℕ

pub record BulletRecord : Type 0 where
  pub id : String
  pub intent_id : String
  pub repo : String
  pub position : ℕ
  pub status : BulletStatus
  pub branch : String
  pub worktree : String
  pub commit_sha : String
  pub pr_url : String
  pub blocked_reason : String
  pub created_at : ℕ
  pub updated_at : ℕ

pub record EnvelopeRecord : Type 0 where
  pub id : String
  pub run_id : String
  pub repo : String
  pub stage : String
  pub summary : String
  pub artifacts : List String
  pub body : String
  pub created_at : ℕ
  pub type : String
  pub schema_version : String
  pub occurred_at : ℕ
  pub published_at : ℕ
  pub producer : String
  pub correlation_id : String
  -- "" stands for SQL NULL.
  pub causation_id : String
  pub phase_id : String

pub data Channel : Type 0 where
  run_channel phase_channel envelope_channel intent_channel bullet_channel : Channel

-- A value of a change's payload.
pub data Value : Type 0 where
  text : String → Value
  number : ℕ → Value
  flag : Bool → Value
  run_status : RunStatus → Value
  bullet_status : BulletStatus → Value
  intent_status : IntentStatus → Value
  gate_status : GateStatus → Value

abbrev pub Payload : Type 0
Payload = List (String × Value)

pub record ChangeRecord : Type 0 where
  pub seq : ℕ
  pub channel : Channel
  pub entity_id : String
  pub payload : Payload
  pub created_at : ℕ

-- A subscriber's channel has room for one sequence number.
pub record Subscriber : Type 0 where
  pub id : ℕ
  pub buffer : Option ℕ

-- The tables, SQLite's high-water mark of the change sequence, and the subscribers.
pub record Tables : Type 0 where
  pub runs : List RunRecord
  pub phases : List PhaseRecord
  pub intents : List IntentRecord
  pub bullets : List BulletRecord
  pub envelopes : List EnvelopeRecord
  pub changes : List ChangeRecord
  pub watermark : ℕ
  pub subs : List Subscriber
  pub next_sub_id : ℕ

abbrev pub bullet_statuses : List BulletStatus
bullet_statuses = proposed ∷ pending ∷ red ∷ green ∷ sealed ∷ merged ∷ failed ∷ blocked ∷ []

abbrev pub bullet_progression : List BulletStatus
bullet_progression = pending ∷ red ∷ green ∷ sealed ∷ merged ∷ []

unfoldable pub is_terminal_run_status : RunStatus → Bool
is_terminal_run_status running = false
is_terminal_run_status _ = true

abbrev pub resumable_run_statuses : List RunStatus
resumable_run_statuses = failed ∷ cancelled ∷ timed_out ∷ interrupted ∷ []
