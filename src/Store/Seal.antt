-- ===== src/Store/Seal.antt =====
-- internal/store/store.go: what SealBulletForRun does, while the database refuses no statement.
use sgt.Base.{
  ℕ, String, Bool, true, false, Option, none, some, List, [], ◌∷◌, str_eq, if◌then◌else◌, any,
  find?, map_where, not_green, no_bullet, Disk, refl, ◌≡◌, ok, err, Result, quiet, inl, inr,
  Bool-cases, All,
}
use sgt.Store.Types.{BulletStatus, bullet_status_eq, RunRecord, BulletRecord, Tables}
use sgt.Store.Changes.{record_transition, append_change, append_row, notify_change}
use sgt.Store.Rows.{one_row, get_run, list_bullets_for_intent, update_bullets}
use sgt.Store.Bullets.{update_bullet_status}
use sgt.Store.Advance.{seal_first, seal_bullet_for_run}
use sgt.Store.Runs.{has_id}
use sgt.Store.Rows.{bullets_of}
use sgt.Store.Advanced.{has_bullet, require_one_row-found}
use sgt.Store.Advancing.{start-Present}

abbrev pub in_repo : String → BulletRecord → Bool
in_repo repo b = str_eq b.repo repo

abbrev pub sealed_at : ℕ → BulletRecord → BulletRecord
sealed_at now b = record b { status = BulletStatus.sealed; updated_at = now }

-- What sealing does, by the first bullet of the repository in merge order.
abbrev pub Seals :
    String → String → Tables → ℕ → Option BulletRecord → Result (Unit {0}) × Disk Tables → Type 0
Seals intent_id repo t now none p = (p.0 ≡ err (no_bullet repo intent_id)) × (p.1.db ≡ t)
Seals intent_id repo t now (some b) p =
    if bullet_status_eq b.status BulletStatus.green
    then (p.0 ≡ ok tt)
      × (p.1.db.bullets ≡ map_where (has_bullet b.id) (sealed_at now) t.bullets)
      × (p.1.db.intents ≡ t.intents)
    else (p.0 ≡ err (not_green b.id)) × (p.1.db ≡ t)

seal_first-Seals :
    (intent_id repo : String) (t : Tables) (now : ℕ) (bs : List BulletRecord)
    → All (λ b. any (has_bullet b.id) t.bullets ≡ true) bs
    → Seals intent_id repo t now
        (find? (in_repo repo) bs)
        (seal_first intent_id repo bs (quiet t now))
unfolding seal_first update_bullet_status update_bullets record_transition append_change append_row
    notify_change
seal_first-Seals intent_id repo t now [] h = (refl, refl)
seal_first-Seals intent_id repo t now (b ∷ bs) h = elim (Bool-cases (in_repo repo b)) [
  | inr e ↦ rw e (seal_first-Seals intent_id repo t now bs h.1)
  | inl e ↦ elim (Bool-cases (bullet_status_eq b.status BulletStatus.green)) [
    | inl g ↦
        rw (e, g, require_one_row-found "bullet" b.id (has_bullet b.id) t.bullets _ h.0)
          (refl, refl, refl)
    | inr g ↦ rw (e, g) (refl, refl)
  ]
]

-- While the database refuses no statement, an approval seals the first bullet of the repository in
-- merge order if that bullet is green, and rewrites no other bullet and no intent; if it is not green,
-- or there is none, the approval fails and nothing is written.
pub seal_bullet_for_run-Seals :
    (run_id repo : String) (run : RunRecord) (t : Tables) (now : ℕ)
    → find? (has_id run_id) t.runs ≡ some run
    → str_eq run.intent_id "" ≡ false
    → Seals run.intent_id repo t now
        (find? (in_repo repo) (bullets_of run.intent_id t))
        (seal_bullet_for_run run_id repo (quiet t now))
unfolding seal_bullet_for_run get_run one_row list_bullets_for_intent
seal_bullet_for_run-Seals run_id repo run t now h n =
    rw (h, n)
      (seal_first-Seals run.intent_id repo t now (bullets_of run.intent_id t)
        (start-Present run.intent_id BulletStatus.sealed "" t))
