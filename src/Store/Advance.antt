-- ===== src/Store/Advance.antt =====
-- internal/store/store.go: an intent's status is derived from its bullets; a run's outcome
-- advances them, and an approval seals one.
use sgt.Base.{
  String, Bool, false, ◌&&◌, ◌||◌, List, [], ◌∷◌, str_eq, if◌then◌else◌, all, not_green, no_intent,
  no_bullet, Exec, pure, raise, ◌>>=◌, ◌>>◌, not,
}
use sgt.Store.Types.{
  BulletStatus, IntentStatus, bullet_status_eq, intent_status_eq, BulletRecord, Tables,
}
use sgt.Store.Rows.{get_run, get_intent, list_bullets_for_intent}
use sgt.Store.Bullets.{update_intent_status, update_bullet_status, update_bullet_status_and_reason}

unfoldable pub derive_intent_status : List BulletRecord → IntentStatus
derive_intent_status [] = IntentStatus.in_progress
derive_intent_status (b ∷ bs) =
    if all (λ c. bullet_status_eq c.status BulletStatus.merged) (b ∷ bs)
    then IntentStatus.satisfied
    else IntentStatus.in_progress

unfoldable pub all_bullets_sealed_or_merged : List BulletRecord → Bool
all_bullets_sealed_or_merged [] = false
all_bullets_sealed_or_merged (b ∷ bs) =
    all
      (λ c.
        bullet_status_eq c.status BulletStatus.sealed
        || bullet_status_eq c.status BulletStatus.merged)
      (b ∷ bs)

unfoldable pub recompute_intent_status : String → Exec Tables IntentStatus
recompute_intent_status intent_id = do
  intent ← get_intent intent_id
  bullets ← list_bullets_for_intent intent_id
  let derived = derive_intent_status bullets
  if intent_status_eq derived intent.status
      then pure derived
      else do update_intent_status intent_id derived; pure derived

abbrev pub is_at : BulletStatus → String → BulletRecord → Bool
is_at status reason b = bullet_status_eq b.status status && str_eq b.blocked_reason reason

-- The loop of AdvanceBulletsForRun.
unfoldable pub advance_each : BulletStatus → String → List BulletRecord → Exec Tables (Unit {0})
advance_each status reason [] = pure tt
advance_each status reason (b ∷ bs) =
    let rest = advance_each status reason bs in
    if is_at status reason b
    then rest
    else do update_bullet_status_and_reason b.id status reason; rest

unfoldable pub advance_bullets_for_run : String → BulletStatus → String → Exec Tables (Unit {0})
advance_bullets_for_run run_id status reason = do
  run ← get_run run_id
  if str_eq run.intent_id "" then pure tt else do
    bullets ← list_bullets_for_intent run.intent_id
    advance_each status reason bullets
    recompute_intent_status run.intent_id
    pure tt

-- The loop of SealBulletForRun: the first bullet of the repository decides.
unfoldable pub seal_first : String → String → List BulletRecord → Exec Tables (Unit {0})
seal_first intent_id repo [] = raise (no_bullet repo intent_id)
seal_first intent_id repo (b ∷ bs) =
    let rest = seal_first intent_id repo bs in
    if not (str_eq b.repo repo)
    then rest
    else if bullet_status_eq b.status BulletStatus.green
    then update_bullet_status b.id BulletStatus.sealed
    else raise (not_green b.id)

unfoldable pub seal_bullet_for_run : String → String → Exec Tables (Unit {0})
seal_bullet_for_run run_id repo = do
  run ← get_run run_id
  if str_eq run.intent_id ""
      then raise (no_intent run_id)
      else do bullets ← list_bullets_for_intent run.intent_id; seal_first run.intent_id repo bullets
