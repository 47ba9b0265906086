-- ===== src/Store/Examples.antt =====
-- Runs of internal/store at concrete inputs.
use sgt.Base.{
  ℕ, String, true, some, List, [], ◌∷◌, find?, refl, ◌≡◌, ok, quiet, arith, ◌≢◌, ◌⊎◌, All, ◌↔◌,
}
use sgt.Store.Types.{
  RunStatus, BulletStatus, IntentStatus, RunRecord, IntentRecord, BulletRecord, run_channel,
  ChangeRecord, Tables, unevaluated,
}
use sgt.Store.Advance.{derive_intent_status, advance_bullets_for_run, seal_bullet_for_run}
use sgt.Store.Runs.{assign_slug, create_run}
use sgt.Store.Reconcile.{reconcile_orphaned_runs}
use sgt.Store.WellFormed.{WellFormed}
use sgt.Store.Calls.{
  Given, Call, new_run, run_to, new_intent, new_bullet, advance, seal, restart, drop_run, run_calls,
  run_calls-WellFormed,
}
use sgt.Store.Dispatch.{Claims, create_run-Claims, Labelled, assign_slug-Labelled}
use sgt.Store.Outcome.{Advanced, advance_bullets_for_run-Advanced}
use sgt.Store.Seal.{Seals, seal_bullet_for_run-Seals, in_repo}
use sgt.Store.Restart.{Reconciled, reconcile_orphaned_runs-Reconciled}
use sgt.Store.Replay.{Consecutive, can_replay_from-verdict, list_changes_since-gapless}
use sgt.Store.Changes.{can_replay_from, list_changes_since}
use sgt.Store.Derive.{derive_intent_status-satisfied, Merged}
use sgt.Store.Rows.{bullets_of, in_intent}
use sgt.Store.InPlace.{advance_bullets_for_run-in_place}

abbrev pub run_of : String → String → RunStatus → RunRecord
run_of id request status = record {
  id = id;
  project = "sgt";
  task_id = id;
  brief = "fix it";
  change_id = "c1";
  type = "fix";
  intent_id = "i1";
  slug = "";
  request_id = request;
  status = status;
  base_branch = "main";
  created_at = 1;
  updated_at = 1;
}

abbrev pub bullet_of : String → ℕ → BulletStatus → BulletRecord
bullet_of id n status = record {
  id = id;
  intent_id = "i1";
  repo = "api";
  position = n;
  status = status;
  branch = "fix/c1";
  worktree = "/w";
  commit_sha = "";
  pr_url = "";
  blocked_reason = "";
  created_at = 1;
  updated_at = 1;
}

abbrev pub intent_of : IntentStatus → IntentRecord
intent_of status = record {
  id = "i1";
  project = "sgt";
  statement = "it works";
  status = status;
  change_id = "c1";
  change_repo = "api";
  type = "fix";
  shipping_gate_status = unevaluated;
  shipping_gate_reason = "";
  created_at = 1;
  updated_at = 1;
}

abbrev pub tables_of : List RunRecord → List BulletRecord → List ChangeRecord → ℕ → Tables
tables_of runs bullets changes watermark = record {
  runs = runs;
  phases = [];
  intents = intent_of IntentStatus.satisfied ∷ [];
  bullets = bullets;
  envelopes = [];
  changes = changes;
  watermark = watermark;
  subs = [];
  next_sub_id = 0;
}

abbrev digest : String → ℕ
digest _ = 7

abbrev numbered : String → ℕ → String
numbered id n = id

abbrev same : String → String
same s = s

abbrev given : Given
given = record {
  digest = digest;
  numbered = numbered;
  trim = same;
  redact_text = same;
  redact_json = same;
}

abbrev empty : Tables
empty = record {
  runs = [];
  phases = [];
  intents = [];
  bullets = [];
  envelopes = [];
  changes = [];
  watermark = 0;
  subs = [];
  next_sub_id = 0;
}

empty-WellFormed : WellFormed empty
empty-WellFormed = record {
  runs = tt;
  requests = tt;
  phases = tt;
  intents = tt;
  bullets = tt;
  envelopes = tt;
  ascending = tt;
  below = tt;
}

abbrev calls : List Call
calls =
    new_intent (intent_of IntentStatus.proposed)
    ∷ new_run (run_of "r1" "k1" RunStatus.running)
    ∷ new_run (run_of "r2" "k1" RunStatus.running)
    ∷ new_bullet (bullet_of "b1" 0 BulletStatus.pending)
    ∷ run_to "r1" RunStatus.passed
    ∷ advance "r1" BulletStatus.green ""
    ∷ seal "r1" "api"
    ∷ restart
    ∷ drop_run "r1"
    ∷ []

run_calls-WellFormed_example : WellFormed (run_calls given calls (quiet empty 5)).db
run_calls-WellFormed_example = run_calls-WellFormed given calls (quiet empty 5) empty-WellFormed

abbrev one_run : Tables
one_run =
    tables_of (run_of "r1" "k1" RunStatus.running ∷ []) (bullet_of "b1" 0 BulletStatus.green ∷ [])
      [] 0

create_run-Claims_example :
    Claims digest numbered same
      (run_of "r2" "k1" RunStatus.running)
      one_run
      (some (run_of "r1" "k1" RunStatus.running))
      (create_run digest numbered same (run_of "r2" "k1" RunStatus.running) (quiet one_run 5))
create_run-Claims_example =
    create_run-Claims digest numbered same (run_of "r2" "k1" RunStatus.running) one_run 5 refl refl

assign_slug-Labelled_example :
    Labelled digest numbered
      (run_of "r2" "k2" RunStatus.running)
      one_run
      (assign_slug digest numbered (run_of "r2" "k2" RunStatus.running) (quiet one_run 5))
assign_slug-Labelled_example =
    assign_slug-Labelled digest numbered (run_of "r2" "k2" RunStatus.running) one_run 5 refl

abbrev pub merged_all : Tables
merged_all =
    tables_of (run_of "r1" "k1" RunStatus.passed ∷ []) (bullet_of "b1" 0 BulletStatus.merged ∷ [])
      [] 0

advance_bullets_for_run-Advanced_example :
    Advanced "i1" BulletStatus.pending ""
      (advance_bullets_for_run "r1" BulletStatus.pending "" (quiet merged_all 5))
advance_bullets_for_run-Advanced_example =
    advance_bullets_for_run-Advanced "r1" (run_of "r1" "k1" RunStatus.passed)
      (intent_of IntentStatus.satisfied) BulletStatus.pending "" merged_all 5 refl refl refl

seal_bullet_for_run-Seals_example :
    Seals "i1" "api" one_run 5
      (find? (in_repo "api") (bullets_of "i1" one_run))
      (seal_bullet_for_run "r1" "api" (quiet one_run 5))
seal_bullet_for_run-Seals_example =
    seal_bullet_for_run-Seals "r1" "api" (run_of "r1" "k1" RunStatus.running) one_run 5 refl refl

reconcile_orphaned_runs-Reconciled_example :
    Reconciled one_run (reconcile_orphaned_runs (quiet one_run 5))
reconcile_orphaned_runs-Reconciled_example = reconcile_orphaned_runs-Reconciled one_run 5

abbrev change_of : ℕ → ChangeRecord
change_of n = record {
  seq = n;
  channel = run_channel;
  entity_id = "r1";
  payload = [];
  created_at = n;
}

-- Changes 1 and 2 are gone.
abbrev logged : Tables
logged = tables_of [] [] (change_of 3 ∷ change_of 4 ∷ []) 4

can_replay_from-verdict_example : (can_replay_from 3 (quiet logged 5)).0 ≡ ok true
can_replay_from-verdict_example = can_replay_from-verdict 3 2 logged 5 (refl, (refl, refl))

list_changes_since-gapless_example :
    (cs : List ChangeRecord) × ((list_changes_since 3 10 (quiet logged 5)).0 ≡ ok cs)
    × Consecutive 3 4 cs
list_changes_since-gapless_example =
    list_changes_since-gapless 3 10 2 logged 5 (refl, (refl, refl))
      (can_replay_from-verdict 3 2 logged 5 (refl, (refl, refl))) (λ h. ground arith) (omega arith)

derive_intent_status-satisfied_example :
    ((derive_intent_status (bullet_of "b1" 0 BulletStatus.merged ∷ []) ≡ IntentStatus.satisfied) ↔ (
      ((bullet_of "b1" 0 BulletStatus.merged ∷ []) ≢ [])
      × All Merged (bullet_of "b1" 0 BulletStatus.merged ∷ [])))
    × ((derive_intent_status (bullet_of "b1" 0 BulletStatus.merged ∷ []) ≡ IntentStatus.satisfied)
        ⊎ (derive_intent_status (bullet_of "b1" 0 BulletStatus.merged ∷ [])
            ≡ IntentStatus.in_progress))
derive_intent_status-satisfied_example =
    derive_intent_status-satisfied (bullet_of "b1" 0 BulletStatus.merged ∷ [])

advance_bullets_for_run-in_place_example :
    advance_bullets_for_run "r1" BulletStatus.merged "" (quiet merged_all 5)
    ≡ (ok tt, quiet merged_all 5)
advance_bullets_for_run-in_place_example =
    advance_bullets_for_run-in_place "r1" (run_of "r1" "k1" RunStatus.passed)
      (intent_of IntentStatus.satisfied) BulletStatus.merged "" merged_all 5 refl refl refl
      ((λ _. (refl, refl)), tt)
      (unfold derive_intent_status bullets_of sgt.Store.Rows.order_by_position
          sgt.Store.Rows.insert_by_position sgt.Store.Rows.bullet_comes_first
          sgt.Store.Types.bullet_status_eq in
        refl)
