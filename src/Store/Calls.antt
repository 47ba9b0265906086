-- ===== src/Store/Calls.antt =====
-- internal/store: a sequence of calls of the methods that write the tables.
use sgt.Base.{ℕ, String, Bool, List, [], ◌∷◌, Disk}
use sgt.Store.Types.{
  RunStatus, BulletStatus, IntentStatus, RunRecord, PhaseRecord, IntentRecord, BulletRecord,
  EnvelopeRecord, Tables,
}
use sgt.Store.Bullets.{
  create_intent, update_intent_status, record_shipping_gate_result, create_bullet,
  update_bullet_status, set_bullet_pr_url, advance_bullet_status,
}
use sgt.Store.Advance.{advance_bullets_for_run, seal_bullet_for_run}
use sgt.Store.Runs.{create_run, update_run_status, set_run_base_branch, delete_run}
use sgt.Store.Phases.{record_phase, record_envelope}
use sgt.Store.Reconcile.{reconcile_orphaned_runs}
use sgt.Store.WellFormed.{WellFormed}
use sgt.Store.Writes.{
  create_intent-Keeps, create_bullet-Keeps, update_intent_status-Keeps,
  record_shipping_gate_result-Keeps, update_bullet_status-Keeps, set_bullet_pr_url-Keeps,
  update_bullet_status_and_reason-Keeps,
}
use sgt.Store.Restarts.{reconcile_orphaned_runs-Keeps}
use sgt.Store.Methods.{
  advance_bullets_for_run-Keeps, seal_bullet_for_run-Keeps, create_run-Keeps,
  update_run_status-Keeps, set_run_base_branch-Keeps, delete_run-Keeps, record_phase-Keeps,
  record_envelope-Keeps,
}

pub data Call : Type 0 where
  new_run : RunRecord → Call
  run_to : String → RunStatus → Call
  base_branch : String → String → Call
  drop_run : String → Call
  phase : PhaseRecord → Call
  envelope : EnvelopeRecord → Call
  new_intent : IntentRecord → Call
  intent_to : String → IntentStatus → Call
  gate : String → Bool → String → Call
  new_bullet : BulletRecord → Call
  bullet_to : String → BulletStatus → Call
  bullet_pr : String → String → Call
  bullet_advance : String → BulletStatus → String → Call
  advance : String → BulletStatus → String → Call
  seal : String → String → Call
  restart : Call

-- What the store is given: the naming digest and format, TrimSpace, and the redactors.
pub record Given : Type 0 where
  pub digest : String → ℕ
  pub numbered : String → ℕ → String
  pub trim : String → String
  pub redact_text : String → String
  pub redact_json : String → String

unfoldable pub run_call : Given → Call → Disk Tables → Disk Tables
run_call g (new_run r) d = (create_run g.digest g.numbered g.trim r d).1
run_call g (run_to id s) d = (update_run_status id s d).1
run_call g (base_branch id branch) d = (set_run_base_branch id branch d).1
run_call g (drop_run id) d = (delete_run id d).1
run_call g (phase p) d = (record_phase g.redact_text g.redact_json p d).1
run_call g (envelope e) d = (record_envelope g.redact_text g.redact_json e d).1
run_call g (new_intent i) d = (create_intent i d).1
run_call g (intent_to id s) d = (update_intent_status id s d).1
run_call g (gate id passed reason) d = (record_shipping_gate_result id passed reason d).1
run_call g (new_bullet b) d = (create_bullet b d).1
run_call g (bullet_to id s) d = (update_bullet_status id s d).1
run_call g (bullet_pr id url) d = (set_bullet_pr_url id url d).1
run_call g (bullet_advance id s reason) d = (advance_bullet_status id s reason d).1
run_call g (advance id s reason) d = (advance_bullets_for_run id s reason d).1
run_call g (seal id repo) d = (seal_bullet_for_run id repo d).1
run_call g restart d = (reconcile_orphaned_runs d).1

unfoldable pub run_calls : Given → List Call → Disk Tables → Disk Tables
unfolding run_call
run_calls g [] d = d
run_calls g (c ∷ cs) d = run_calls g cs (run_call g c d)

run_call-WellFormed :
    (g : Given) (c : Call) (d : Disk Tables) → WellFormed d.db → WellFormed (run_call g c d).db
unfolding run_call advance_bullet_status
run_call-WellFormed g (new_run r) d h = (create_run-Keeps g.digest g.numbered g.trim r).at d h
run_call-WellFormed g (run_to id s) d h = (update_run_status-Keeps id s).at d h
run_call-WellFormed g (base_branch id branch) d h = (set_run_base_branch-Keeps id branch).at d h
run_call-WellFormed g (drop_run id) d h = (delete_run-Keeps id).at d h
run_call-WellFormed g (phase p) d h = (record_phase-Keeps g.redact_text g.redact_json p).at d h
run_call-WellFormed g (envelope e) d h =
    (record_envelope-Keeps g.redact_text g.redact_json e).at d h
run_call-WellFormed g (new_intent i) d h = (create_intent-Keeps i).at d h
run_call-WellFormed g (intent_to id s) d h = (update_intent_status-Keeps id s).at d h
run_call-WellFormed g (gate id passed reason) d h =
    (record_shipping_gate_result-Keeps id passed reason).at d h
run_call-WellFormed g (new_bullet b) d h = (create_bullet-Keeps b).at d h
run_call-WellFormed g (bullet_to id s) d h = (update_bullet_status-Keeps id s).at d h
run_call-WellFormed g (bullet_pr id url) d h = (set_bullet_pr_url-Keeps id url).at d h
run_call-WellFormed g (bullet_advance id s reason) d h =
    (update_bullet_status_and_reason-Keeps id s reason).at d h
run_call-WellFormed g (advance id s reason) d h = (advance_bullets_for_run-Keeps id s reason).at d h
run_call-WellFormed g (seal id repo) d h = (seal_bullet_for_run-Keeps id repo).at d h
run_call-WellFormed g restart d h = reconcile_orphaned_runs-Keeps.at d h

-- Any sequence of calls of the store's writing methods keeps the tables well-formed, whichever
-- statements the database refuses: no two rows of a table share an id, no two runs share an
-- idempotency key, and the change sequence is strictly increasing and below its high-water mark.
pub run_calls-WellFormed :
    (g : Given) (cs : List Call) (d : Disk Tables)
    → WellFormed d.db
    → WellFormed (run_calls g cs d).db
unfolding run_calls
run_calls-WellFormed g [] d h = h
run_calls-WellFormed g (c ∷ cs) d h =
    run_calls-WellFormed g cs (run_call g c d) (run_call-WellFormed g c d h)
