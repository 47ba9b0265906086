-- ===== src/Store/InPlace.antt =====
-- internal/store/store.go: an advance that has nothing to move, while the database refuses no
-- statement.
use sgt.Base.{
  ℕ, String, true, false, some, List, [], ◌∷◌, str_eq, find?, Disk, refl, ◌≡◌, ok, quiet, arith,
  eq_iff, sym, All,
}
use sgt.Store.Types.{
  BulletStatus, RunRecord, IntentRecord, BulletRecord, Tables, bullet_status_eq_iff,
  intent_status_eq_iff,
}
use sgt.Store.Rows.{bullets_of, one_row, get_run, get_intent, list_bullets_for_intent}
use sgt.Store.Advance.{
  advance_each, is_at, advance_bullets_for_run, recompute_intent_status, derive_intent_status,
}
use sgt.Store.Runs.{has_id}
use sgt.Store.Advancing.{All-bullets_of, All-imp}
use sgt.Store.Outcome.{Placed, has_intent}

advance_each-in_place :
    (status : BulletStatus) (reason : String) (bs : List BulletRecord) (d : Disk Tables)
    → All (λ b. is_at status reason b ≡ true) bs
    → advance_each status reason bs d ≡ (ok tt, d)
unfolding advance_each
advance_each-in_place status reason [] d h = refl
advance_each-in_place status reason (b ∷ bs) d h =
    rw h.0 (advance_each-in_place status reason bs d h.1)

-- An advance is idempotent: if every bullet of the intent is at the status and the reason, and the
-- intent at the status that its bullets derive, it succeeds and writes nothing, no change of the
-- sequence either. The database is taken to refuse no statement.
pub advance_bullets_for_run-in_place :
    (run_id : String) (run : RunRecord) (i : IntentRecord) (status : BulletStatus) (reason : String)
    (t : Tables) (now : ℕ)
    → find? (has_id run_id) t.runs ≡ some run
    → str_eq run.intent_id "" ≡ false
    → find? (has_intent run.intent_id) t.intents ≡ some i
    → All (Placed run.intent_id status reason) t.bullets
    → i.status ≡ derive_intent_status (bullets_of run.intent_id t)
    → advance_bullets_for_run run_id status reason (quiet t now) ≡ (ok tt, quiet t now)
unfolding advance_bullets_for_run get_run one_row list_bullets_for_intent recompute_intent_status
    get_intent
advance_bullets_for_run-in_place run_id run i status reason t now h n k a e =
    let id = run.intent_id in
    let bs = bullets_of id t in
    let at =
      All-bullets_of (λ b. is_at status reason b ≡ true) id t
        (All-imp t.bullets
          (λ b m q.
            let (s, r) = m q in
            ground (arith, bullet_status_eq_iff b.status status, eq_iff b.blocked_reason reason))
          a) in
    let same = (intent_status_eq_iff (derive_intent_status bs) i.status).1 (sym e) in
    rw (h, n, advance_each-in_place status reason bs (quiet t now) at, k, same) refl
