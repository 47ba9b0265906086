-- ===== src/Server/Examples.antt =====
-- Runs of internal/ui at concrete inputs.
use sgt.Base.{
  ℕ, zero, suc, String, true, some, [], ◌∷◌, ◌++◌, str_append, refl, ◌≡◌, quiet, arith, ap, List,
  none,
}
use sgt.Store.Types.{RunStatus, BulletStatus, IntentStatus, text, Tables}
use sgt.Store.Examples.{run_of, intent_of, bullet_of, merged_all, tables_of}
use sgt.Server.Terminal.{
  Terminalized, record_terminal_run_with_reason, record_terminal_run_with_reason-Terminalized,
  bullet_status_for_run_outcome,
}
use sgt.Server.Merge.{
  Asked, said, MergeStatus, check_bullet_merge_status, check_bullet_merge_status-Intents,
}
use sgt.Server.Workflow.{
  new_chain, pipeline_for, stage, gate, lifecycle, progression_labels, build_workflow_graph,
}
use sgt.Server.Graph.{Grown, labelled, build_workflow_graph-Grown}
use sgt.Server.FreshId.{Distinct}
use package.text.Mathlib.TextLemmas.{append_cancel_left, length-append}
use Prim.Native.String.{count}
use sgt.Store.Types.{PhaseRecord}
use sgt.Server.Stages.{last_failed, last_failed-newest}

-- A run whose bullet was merged is cancelled: the bullet is pending again, and the intent, which
-- was satisfied, is in progress.
record_terminal_run_with_reason-Terminalized_example :
    Terminalized "i1" BulletStatus.pending ""
      (record_terminal_run_with_reason "r1" RunStatus.cancelled "" (quiet merged_all 5))
record_terminal_run_with_reason-Terminalized_example =
    record_terminal_run_with_reason-Terminalized "r1" (run_of "r1" "k1" RunStatus.passed)
      (intent_of IntentStatus.satisfied) RunStatus.cancelled BulletStatus.pending "" merged_all 5
      refl refl refl (unfold bullet_status_for_run_outcome in refl)

abbrev sealed_one : Tables
sealed_one = tables_of [] (bullet_of "b1" 0 BulletStatus.sealed ∷ []) [] 0

abbrev merged_into_main : String → Asked MergeStatus
merged_into_main _ = said (record { is_merged = true; into_branch = "main" })

check_bullet_merge_status-Intents_example :
    (check_bullet_merge_status
      (λ _. "error")
      (λ _ _. "other branch")
      (said tt)
      (said (some "url"))
      merged_into_main
      "main"
      (bullet_of "b1" 0 BulletStatus.sealed)
      (quiet sealed_one 5)).1.db.intents
    ≡ sealed_one.intents
check_bullet_merge_status-Intents_example =
    check_bullet_merge_status-Intents (λ _. "error") (λ _ _. "other branch") (said tt)
      (said (some "url")) merged_into_main "main" (bullet_of "b1" 0 BulletStatus.sealed)
      (quiet sealed_one 5)

abbrev marks : ℕ → String
marks zero = ""
marks (suc n) = str_append "#" (marks n)

marks_inj : (n m : ℕ) → marks n ≡ marks m → n ≡ m
marks_inj zero zero h = refl
marks_inj zero (suc m) h = absurd (omega (arith, ap count h, length-append "#" (marks m)))
marks_inj (suc n) zero h = absurd (omega (arith, ap count h, length-append "#" (marks n)))
marks_inj (suc n) (suc m) h = ap suc (marks_inj n m (append_cancel_left "#" (marks n) (marks m) h))

abbrev numbered : String → ℕ → String
numbered id n = str_append id (marks n)

numbered-Distinct : Distinct numbered
numbered-Distinct id n m h = marks_inj n m (append_cancel_left id (marks n) (marks m) h)

-- A pipeline that names a stage twice, and a gate of the same name.
build_workflow_graph-Grown_example :
    Grown
      (new_chain "api")
      (labelled stage (pipeline_for (some ("test" ∷ "test" ∷ [])))
        ++ (labelled gate ("test" ∷ []) ++ labelled lifecycle progression_labels))
      (build_workflow_graph numbered "api" (some ("test" ∷ "test" ∷ [])) ("test" ∷ []))
build_workflow_graph-Grown_example =
    build_workflow_graph-Grown numbered numbered-Distinct "api" (some ("test" ∷ "test" ∷ []))
      ("test" ∷ [])

abbrev phase_of : String → String → String → PhaseRecord
phase_of id repo status = record {
  id = id;
  run_id = "r1";
  repo = repo;
  name = "test";
  kind = "code";
  status = status;
  error = "";
  duration_ms = 1;
  payload = "";
  attempt = 1;
  fix_cycle = 0;
  created_at = 1;
}

abbrev phases : List PhaseRecord
phases =
    phase_of "p1" "api" "failed" ∷ phase_of "p2" "web" "failed" ∷ phase_of "p3" "api" "passed" ∷ []

last_failed-newest_example : last_failed "api" none phases ≡ some (phase_of "p1" "api" "failed")
last_failed-newest_example = last_failed-newest "api" phases
