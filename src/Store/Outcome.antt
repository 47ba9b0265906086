-- ===== src/Store/Outcome.antt =====
-- internal/store/store.go: the outcome of AdvanceBulletsForRun and of SealBulletForRun, while the
-- database refuses no statement.
use sgt.Base.{
  ℕ, String, Bool, true, false, Option, none, some, List, [], ◌∷◌, str_eq, any, filterb, find?,
  map_where, Disk, pure, ◌>>◌, refl, ◌≡◌, ok, err, Result, quiet, arith, eq_iff, sym, ap, ◌∙◌, inl,
  inr, Bool-cases, ◌≢◌, ◌⊎◌, All, ◌↔◌,
}
use sgt.Store.Types.{
  BulletStatus, IntentStatus, intent_status_eq, RunRecord, IntentRecord, BulletRecord, Tables,
  bullet_status_eq_iff, intent_status_eq_iff,
}
use sgt.Store.Changes.{record_transition, append_change, append_row, notify_change}
use sgt.Store.Rows.{one_row, get_run, get_intent, list_bullets_for_intent, update_intents}
use sgt.Store.Bullets.{update_intent_status}
use sgt.Store.Advance.{
  derive_intent_status, recompute_intent_status, advance_each, advance_bullets_for_run,
}
use sgt.Store.Runs.{has_id}
use sgt.Store.Rows.{bullets_of, in_intent, order_by_position}
use mathlib.Core.Path.{subst}
use sgt.Base.{continue}
use sgt.Store.Derive.{derive_intent_status-satisfied, Merged}
use sgt.Store.Advanced.{require_one_row-found, Pending, Done, advance_each-Done}
use sgt.Store.Advancing.{start-Present, start-Pending, All-bullets_of, All-imp}

pub find?-map_where :
    {A : Type 0} (p : A → Bool) (f : A → A)
    → ((x : A) → p (f x) ≡ p x)
    → (xs : List A) (x : A) → find? p xs ≡ some x
    → find? p (map_where p f xs) ≡ some (f x)
find?-map_where p f k [] x h = absurd (ground arith)
find?-map_where p f k (y ∷ ys) x h = elim (Bool-cases (p y)) [
  | inl e ↦
      let same : y ≡ x = ground arith in
      let e' : p (f y) ≡ true = k y ∙ e in rw (e, e') (ap (λ z. some (f z)) same)
  | inr e ↦
      let rest : find? p ys ≡ some x = ground arith in rw e (rw e (find?-map_where p f k ys x rest))
]

abbrev pub has_intent : String → IntentRecord → Bool
has_intent id i = str_eq i.id id

abbrev pub status_of : Option IntentRecord → Option IntentStatus
status_of none = none
status_of (some i) = some i.status

pub any-find? :
    {A : Type 0} (p : A → Bool) (xs : List A) (x : A) → find? p xs ≡ some x → any p xs ≡ true
any-find? p [] x h = absurd (ground arith)
any-find? p (y ∷ ys) x h = elim (Bool-cases (p y)) [
  | inl e ↦ rw e refl
  | inr e ↦ let rest : find? p ys ≡ some x = ground arith in rw e (any-find? p ys x rest)
]

abbrev Recomputed : String → Tables → Result IntentStatus × Disk Tables → Type 0
Recomputed id t p =
    (p.0 ≡ ok (derive_intent_status (bullets_of id t)))
    × (p.1.db.bullets ≡ t.bullets)
    × (status_of (find? (has_intent id) p.1.db.intents)
        ≡ some (derive_intent_status (bullets_of id t)))
    × (p.1.faults ≡ [])

recompute_intent_status-Recomputed :
    (id : String) (i : IntentRecord) (t : Tables) (now : ℕ)
    → find? (has_intent id) t.intents ≡ some i
    → Recomputed id t (recompute_intent_status id (quiet t now))
unfolding recompute_intent_status get_intent one_row list_bullets_for_intent update_intent_status
    update_intents record_transition append_change append_row notify_change
recompute_intent_status-Recomputed id i t now h =
    elim (Bool-cases (intent_status_eq (derive_intent_status (bullets_of id t)) i.status)) [
      | inl e ↦
          let same = (intent_status_eq_iff (derive_intent_status (bullets_of id t)) i.status).0 e in
          rw (h, e) (refl, refl, rw (h, same) refl, refl)
      | inr e ↦
          rw
            (
              h,
              e,
              require_one_row-found "intent" id (has_intent id) t.intents _
                  (any-find? (has_intent id) t.intents i h),
            )
            (
              refl,
              refl,
              rw
                  (find?-map_where (has_intent id)
                    (λ j. record j {
                      status = derive_intent_status (bullets_of id t);
                      updated_at = now;
                    })
                    (λ _. refl) t.intents i h)
                  refl,
              refl,
            )
    ]

-- A bullet of the intent is at the status and the reason.
abbrev pub Placed : String → BulletStatus → String → BulletRecord → Type 0
Placed intent_id status reason b =
    in_intent intent_id b ≡ true → (b.status ≡ status) × (b.blocked_reason ≡ reason)

derive-unsatisfied :
    (intent_id : String) (status : BulletStatus) (reason : String) (t : Tables)
    → status ≢ BulletStatus.merged
    → All (Placed intent_id status reason) t.bullets
    → derive_intent_status (bullets_of intent_id t) ≡ IntentStatus.in_progress
derive-unsatisfied intent_id status reason t n h =
    go (bullets_of intent_id t)
      (All-bullets_of (λ b. b.status ≡ status) intent_id t (All-imp t.bullets (λ b k i. (k i).0) h))
      (derive_intent_status-satisfied (bullets_of intent_id t))
  where
    go :
        (bs : List BulletRecord)
        → All (λ b. b.status ≡ status) bs
        → ((derive_intent_status bs ≡ IntentStatus.satisfied) ↔ ((bs ≢ []) × All Merged bs))
          × ((derive_intent_status bs ≡ IntentStatus.satisfied)
              ⊎ (derive_intent_status bs ≡ IntentStatus.in_progress))
        → derive_intent_status bs ≡ IntentStatus.in_progress
    go bs a (f, inr e) = e
    go [] a (f, inl e) = absurd ((f.0 e).0 refl)
    go (b ∷ bs) a (f, inl e) = absurd (n (sym a.0 ∙ (f.0 e).1.0))

abbrev pub Advanced : String → BulletStatus → String → Result (Unit {0}) × Disk Tables → Type 0
Advanced intent_id status reason p =
    (p.0 ≡ ok tt)
    × All (Placed intent_id status reason) p.1.db.bullets
    × (status_of (find? (has_intent intent_id) p.1.db.intents)
        ≡ some (derive_intent_status (bullets_of intent_id p.1.db)))

Placed-Pending :
    (intent_id : String) (status : BulletStatus) (reason : String) (b : BulletRecord)
    → Pending intent_id status reason [] b
    → Placed intent_id status reason b
Placed-Pending intent_id status reason b h i =
    let k = h i in
    ground (arith, bullet_status_eq_iff b.status status, eq_iff b.blocked_reason reason)

bullets_of-same :
    (id : String) (t u : Tables) → t.bullets ≡ u.bullets → bullets_of id t ≡ bullets_of id u
unfolding bullets_of
bullets_of-same id t u e = ap (λ bs. order_by_position (filterb (in_intent id) bs)) e

-- While the database refuses no statement, the advance of a run that names a stored intent
-- succeeds and leaves every bullet of the intent, whatever its status was, at the given status
-- and reason, and the intent at the status that its bullets derive.
pub advance_bullets_for_run-Advanced :
    (run_id : String) (run : RunRecord) (i : IntentRecord) (status : BulletStatus) (reason : String)
    (t : Tables) (now : ℕ)
    → find? (has_id run_id) t.runs ≡ some run
    → str_eq run.intent_id "" ≡ false
    → find? (has_intent run.intent_id) t.intents ≡ some i
    → Advanced run.intent_id status reason
        (advance_bullets_for_run run_id status reason (quiet t now))
unfolding advance_bullets_for_run get_run one_row list_bullets_for_intent
advance_bullets_for_run-Advanced run_id run i status reason t now h n k =
    let id = run.intent_id in
    let bs = bullets_of id t in
    rw (h, n)
      (go (advance_each status reason bs (quiet t now)) (
        advance_each-Done id status reason bs (quiet t now) refl (start-Present id status reason t)
          (start-Pending id status reason t)))
  where
    settle :
        (q : Result IntentStatus × Disk Tables) (t : Tables)
        → All (Placed run.intent_id status reason) t.bullets
        → Recomputed run.intent_id t q
        → Advanced run.intent_id status reason (continue q.0 (λ _. pure tt) q.1)
    settle (ok _, d) t a r = (
      refl,
      subst (λ bs. All (Placed run.intent_id status reason) bs) (sym r.1) a,
      r.2
          ∙ ap (λ bs. some (derive_intent_status bs))
              (bullets_of-same run.intent_id t d.db (sym r.1)),
    )
    settle (err e, d) t a r = absurd (ground (arith, r.0))

    go :
        (q : Result (Unit {0}) × Disk Tables)
        → Done run.intent_id status reason t q
        → Advanced run.intent_id status reason
            (continue q.0 (λ _. recompute_intent_status run.intent_id >> pure tt) q.1)
    go (ok _, d) m =
        let id = run.intent_id in
        let placed = All-imp d.db.bullets (Placed-Pending id status reason) m.1 in
        subst
          (λ e. Advanced id status reason (
            continue (recompute_intent_status id e).0 (λ _. pure tt)
              (recompute_intent_status id e).1))
          (sym (ap (λ fs. record d { faults = fs }) m.3))
          (settle (recompute_intent_status id (quiet d.db d.now)) d.db placed (
            recompute_intent_status-Recomputed id i d.db d.now
              (ap (λ is. find? (has_intent id) is) m.2 ∙ k)))
    go (err e, d) m = absurd (ground (arith, m.0))

-- An advance to any status but merged leaves the intent in progress, even one whose bullets were
-- all merged before.
pub advance_bullets_for_run-unsatisfied :
    (run_id : String) (run : RunRecord) (i : IntentRecord) (status : BulletStatus) (reason : String)
    (t : Tables) (now : ℕ)
    → find? (has_id run_id) t.runs ≡ some run
    → str_eq run.intent_id "" ≡ false
    → find? (has_intent run.intent_id) t.intents ≡ some i
    → status ≢ BulletStatus.merged
    → status_of (
        find?
          (has_intent run.intent_id)
          (advance_bullets_for_run run_id status reason (quiet t now)).1.db.intents)
      ≡ some IntentStatus.in_progress
advance_bullets_for_run-unsatisfied run_id run i status reason t now h n k q =
    let a = advance_bullets_for_run-Advanced run_id run i status reason t now h n k in
    a.2 ∙ ap (λ s. some s) (derive-unsatisfied run.intent_id status reason _ q a.1)
