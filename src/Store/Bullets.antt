-- ===== src/Store/Bullets.antt =====
-- internal/store/store.go: intents and bullets, and the run row that names an intent.
use sgt.Base.{
  String, Bool, [], ◌∷◌, ◌++◌, str_eq, if◌then◌else◌, any, duplicate_id, Exec, time_now, ◌>>=◌,
  ◌>>◌, execute, ok, err, Result,
}
use sgt.Store.Types.{
  BulletStatus, IntentStatus, IntentRecord, BulletRecord, intent_channel, bullet_channel, text,
  number, bullet_status, intent_status, gate_status, Tables, gate_passed, gate_failed, unevaluated,
}
use sgt.Store.Changes.{record_transition}
use sgt.Store.Rows.{require_one_row, update_bullets, update_intents}

abbrev pub intent_insert : IntentRecord → Tables → Result Tables
intent_insert i t =
    if any (λ j. str_eq j.id i.id) t.intents
    then err (duplicate_id i.id)
    else ok (record t { intents = t.intents ++ i ∷ [] })

unfoldable pub create_intent : IntentRecord → Exec Tables (Unit {0})
create_intent i = do
  now ← time_now
  -- The INSERT names no shipping gate column.
  execute (
      intent_insert (record i {
        created_at = now;
        updated_at = now;
        shipping_gate_status = unevaluated;
        shipping_gate_reason = "";
      }))
  record_transition intent_channel i.id (
      ("transition", text "created")
      ∷ ("id", text i.id)
      ∷ ("project", text i.project)
      ∷ ("status", intent_status i.status)
      ∷ [])

unfoldable pub update_intent_status : String → IntentStatus → Exec Tables (Unit {0})
update_intent_status intent_id status = do
  now ← time_now
  affected ← update_intents intent_id (λ i. record i { status = status; updated_at = now })
  require_one_row "intent" intent_id affected
  record_transition intent_channel intent_id (
      ("transition", text "status")
      ∷ ("id", text intent_id)
      ∷ ("status", intent_status status)
      ∷ [])

unfoldable pub record_shipping_gate_result : String → Bool → String → Exec Tables (Unit {0})
record_shipping_gate_result intent_id passed reason = do
  let status = if passed then gate_passed else gate_failed
  let kept = if passed then "" else reason
  now ← time_now
  affected ← update_intents intent_id (λ i. record i {
    shipping_gate_status = status;
    shipping_gate_reason = kept;
    updated_at = now;
  })
  require_one_row "intent" intent_id affected
  record_transition intent_channel intent_id (
      ("transition", text "shipping_gate")
      ∷ ("id", text intent_id)
      ∷ ("shipping_gate_status", gate_status status)
      ∷ [])

abbrev pub bullet_insert : BulletRecord → Tables → Result Tables
bullet_insert b t =
    if any (λ c. str_eq c.id b.id) t.bullets
    then err (duplicate_id b.id)
    else ok (record t { bullets = t.bullets ++ b ∷ [] })

unfoldable pub create_bullet : BulletRecord → Exec Tables (Unit {0})
create_bullet b = do
  now ← time_now
  -- The INSERT names no blocked_reason.
  execute (bullet_insert (record b { created_at = now; updated_at = now; blocked_reason = "" }))
  record_transition bullet_channel b.id (
      ("transition", text "created")
      ∷ ("id", text b.id)
      ∷ ("intent_id", text b.intent_id)
      ∷ ("repo", text b.repo)
      ∷ ("position", number b.position)
      ∷ ("status", bullet_status b.status)
      ∷ [])

abbrev pub announce_bullet : String → BulletStatus → Exec Tables (Unit {0})
announce_bullet bullet_id status =
    record_transition bullet_channel bullet_id (
      ("transition", text "status")
      ∷ ("id", text bullet_id)
      ∷ ("status", bullet_status status)
      ∷ [])

unfoldable pub update_bullet_status : String → BulletStatus → Exec Tables (Unit {0})
update_bullet_status bullet_id status = do
  now ← time_now
  affected ← update_bullets bullet_id (λ b. record b { status = status; updated_at = now })
  require_one_row "bullet" bullet_id affected
  announce_bullet bullet_id status

unfoldable pub set_bullet_pr_url : String → String → Exec Tables (Unit {0})
set_bullet_pr_url bullet_id url = do
  now ← time_now
  affected ← update_bullets bullet_id (λ b. record b { pr_url = url; updated_at = now })
  require_one_row "bullet" bullet_id affected
  record_transition bullet_channel bullet_id
      (("transition", text "pr_url") ∷ ("id", text bullet_id) ∷ ("pr_url", text url) ∷ [])

unfoldable pub update_bullet_status_and_reason :
    String → BulletStatus → String → Exec Tables (Unit {0})
update_bullet_status_and_reason bullet_id status reason = do
  now ← time_now
  affected ←
      update_bullets bullet_id
        (λ b. record b { status = status; blocked_reason = reason; updated_at = now })
  require_one_row "bullet" bullet_id affected
  announce_bullet bullet_id status

unfoldable pub advance_bullet_status : String → BulletStatus → String → Exec Tables (Unit {0})
advance_bullet_status = update_bullet_status_and_reason
