-- ===== src/Store/Writes.antt =====
-- internal/store: every method keeps the tables well-formed, whichever statements the database refuses.
use sgt.Base.{
  ℕ, zero, suc, String, Bool, true, false, Option, none, some, List, [], ◌∷◌, ◌++◌, str_eq, any,
  Disk, query, select, time_now, ◌>>=◌, ◌>>◌, update, refl, ◌≡◌, ok, arith, inl, inr, Bool-cases,
}
use sgt.Store.Types.{
  BulletStatus, IntentStatus, RunRecord, IntentRecord, BulletRecord, EnvelopeRecord, Channel,
  intent_channel, bullet_channel, Payload, Tables,
}
use sgt.Base.Keeps.{
  Keeps, Keeps-execute, Keeps-pure, Keeps-raise, Keeps-bind, Keeps-then, Keeps-select,
  Keeps-time_now,
}
use sgt.Base.Keys.{snoc-Apart, map_where-Apart}
use sgt.Store.Changes.{record_transition, append_change}
use sgt.Store.Rows.{one_row, require_one_row, update_bullets, update_intents}
use sgt.Store.Bullets.{
  create_intent, intent_insert, bullet_insert, update_intent_status, record_shipping_gate_result,
  create_bullet, update_bullet_status, set_bullet_pr_url, update_bullet_status_and_reason,
}
use sgt.Store.Runs.{update_runs}
use sgt.Store.Phases.{envelope_insert}
use sgt.Store.WellFormed.{
  WellFormed, append_row-WellFormed, notify_change-WellFormed, intents-WellFormed,
  bullets-WellFormed, envelopes-WellFormed, update_runs-WellFormed,
}

-- A statement that no constraint refuses.
pub Keeps-write :
    (f : Tables → Tables)
    → ((t : Tables) → WellFormed t → WellFormed (f t))
    → Keeps WellFormed (update f)
Keeps-write f k = record { at = λ d h. go d.faults d h }
  where
    go :
        (fs : List Bool) (d : Disk Tables)
        → WellFormed d.db
        → WellFormed (
            ((query >>= λ _ d'. (ok tt, record d' { db = f d'.db }))
              (record d { faults = fs })).1.db)
    go [] d h = k d.db h
    go (false ∷ fs) d h = k d.db h
    go (true ∷ fs) d h = h

-- A statement whose affected rows are counted.
pub Keeps-counted :
    {A : Type 0} (g : Tables → A) (f : Tables → Tables)
    → ((t : Tables) → WellFormed t → WellFormed (f t))
    → Keeps WellFormed (select g >>= λ n d. (ok n, record d { db = f d.db }))
Keeps-counted g f k =
    Keeps-bind (select g) (λ n d. (ok n, record d { db = f d.db })) (Keeps-select g)
      (λ n. record { at = λ d h. k d.db h })

pub record_transition-Keeps :
    (channel : Channel) (id : String) (payload : Payload)
    → Keeps WellFormed (record_transition channel id payload)
unfolding record_transition append_change
record_transition-Keeps channel id payload =
    Keeps-then _ _
      (Keeps-bind _ _ Keeps-time_now (λ now.
        Keeps-then _ _ (Keeps-write _ (λ t h. append_row-WellFormed t h channel id payload now))
          (record { at = λ d h. notify_change-WellFormed d.db h d.db.watermark })))
      (Keeps-pure tt)

pub require_one_row-Keeps :
    (kind id : String) (n : ℕ) → Keeps WellFormed (require_one_row kind id n)
unfolding require_one_row
require_one_row-Keeps kind id zero = Keeps-raise _
require_one_row-Keeps kind id (suc n) = Keeps-pure tt

pub one_row-Keeps : {A : Type 0} (o : Option A) → Keeps WellFormed (one_row o)
unfolding one_row
one_row-Keeps none = Keeps-raise _
one_row-Keeps (some a) = Keeps-pure a

update_intents-Keeps :
    (id : String) (f : IntentRecord → IntentRecord)
    → ((i : IntentRecord) → (f i).id ≡ i.id)
    → Keeps WellFormed (update_intents id f)
unfolding update_intents
update_intents-Keeps id f k = Keeps-counted _ _ (λ t h.
    intents-WellFormed t h _
      (map_where-Apart (λ i. i.id) (λ a b. str_eq a b) _ f k t.intents h.intents))

update_bullets-Keeps :
    (id : String) (f : BulletRecord → BulletRecord)
    → ((i : BulletRecord) → (f i).id ≡ i.id)
    → Keeps WellFormed (update_bullets id f)
unfolding update_bullets
update_bullets-Keeps id f k = Keeps-counted _ _ (λ t h.
    bullets-WellFormed t h _
      (map_where-Apart (λ i. i.id) (λ a b. str_eq a b) _ f k t.bullets h.bullets))

pub update_runs-Keeps :
    (id : String) (f : RunRecord → RunRecord)
    → ((r : RunRecord) → (f r).id ≡ r.id)
    → ((r : RunRecord) → (f r).request_id ≡ r.request_id)
    → Keeps WellFormed (update_runs id f)
unfolding update_runs
update_runs-Keeps id f k q = Keeps-counted _ _ (λ t h. update_runs-WellFormed t h id f k q)

intent_insert-WellFormed :
    (i : IntentRecord) (t : Tables)
    → WellFormed t
    → (t' : Tables) → intent_insert i t ≡ ok t'
    → WellFormed t'
intent_insert-WellFormed i t h t' e = elim (Bool-cases (any (λ j. str_eq j.id i.id) t.intents)) [
  | inl q ↦ ground arith
  | inr q ↦
      let same : ok (record t { intents = t.intents ++ i ∷ [] }) ≡ ok t' = ground arith in
      let w =
        intents-WellFormed t h (t.intents ++ i ∷ [])
          (snoc-Apart (λ a b. str_eq a.id b.id) i t.intents q h.intents) in
      ground arith
]

bullet_insert-WellFormed :
    (i : BulletRecord) (t : Tables)
    → WellFormed t
    → (t' : Tables) → bullet_insert i t ≡ ok t'
    → WellFormed t'
bullet_insert-WellFormed i t h t' e = elim (Bool-cases (any (λ j. str_eq j.id i.id) t.bullets)) [
  | inl q ↦ ground arith
  | inr q ↦
      let same : ok (record t { bullets = t.bullets ++ i ∷ [] }) ≡ ok t' = ground arith in
      let w =
        bullets-WellFormed t h (t.bullets ++ i ∷ [])
          (snoc-Apart (λ a b. str_eq a.id b.id) i t.bullets q h.bullets) in
      ground arith
]

pub envelope_insert-WellFormed :
    (i : EnvelopeRecord) (t : Tables)
    → WellFormed t
    → (t' : Tables) → envelope_insert i t ≡ ok t'
    → WellFormed t'
unfolding envelope_insert
envelope_insert-WellFormed i t h t' e =
    elim (Bool-cases (any (λ j. str_eq j.id i.id) t.envelopes)) [
      | inl q ↦ ground arith
      | inr q ↦
          let same : ok (record t { envelopes = t.envelopes ++ i ∷ [] }) ≡ ok t' = ground arith in
          let w =
            envelopes-WellFormed t h (t.envelopes ++ i ∷ [])
              (snoc-Apart (λ a b. str_eq a.id b.id) i t.envelopes q h.envelopes) in
          ground arith
    ]

pub create_intent-Keeps : (i : IntentRecord) → Keeps WellFormed (create_intent i)
unfolding create_intent
create_intent-Keeps i = Keeps-bind _ _ Keeps-time_now (λ now.
    Keeps-then _ _ (Keeps-execute _ (intent_insert-WellFormed _)) (record_transition-Keeps _ _ _))

pub create_bullet-Keeps : (b : BulletRecord) → Keeps WellFormed (create_bullet b)
unfolding create_bullet
create_bullet-Keeps b = Keeps-bind _ _ Keeps-time_now (λ now.
    Keeps-then _ _ (Keeps-execute _ (bullet_insert-WellFormed _)) (record_transition-Keeps _ _ _))

-- An UPDATE of one intent that is announced if it found a row.
intent_update-Keeps :
    (id : String) (f : ℕ → IntentRecord → IntentRecord) (payload : Payload)
    → ((now : ℕ) (i : IntentRecord) → (f now i).id ≡ i.id)
    → Keeps WellFormed (
        time_now >>= λ now. update_intents id (f now) >>= λ n.
        require_one_row "intent" id n >> record_transition intent_channel id payload)
intent_update-Keeps id f payload k = Keeps-bind _ _ Keeps-time_now (λ now.
    Keeps-bind _ _ (update_intents-Keeps id (f now) (k now))
      (λ n. Keeps-then _ _ (require_one_row-Keeps _ _ n) (record_transition-Keeps _ _ _)))

bullet_update-Keeps :
    (id : String) (f : ℕ → BulletRecord → BulletRecord) (payload : Payload)
    → ((now : ℕ) (i : BulletRecord) → (f now i).id ≡ i.id)
    → Keeps WellFormed (
        time_now >>= λ now. update_bullets id (f now) >>= λ n.
        require_one_row "bullet" id n >> record_transition bullet_channel id payload)
bullet_update-Keeps id f payload k = Keeps-bind _ _ Keeps-time_now (λ now.
    Keeps-bind _ _ (update_bullets-Keeps id (f now) (k now))
      (λ n. Keeps-then _ _ (require_one_row-Keeps _ _ n) (record_transition-Keeps _ _ _)))

pub update_intent_status-Keeps :
    (id : String) (s : IntentStatus) → Keeps WellFormed (update_intent_status id s)
unfolding update_intent_status
update_intent_status-Keeps id s = intent_update-Keeps id _ _ (λ _ _. refl)

pub record_shipping_gate_result-Keeps :
    (id : String) (passed : Bool) (reason : String)
    → Keeps WellFormed (record_shipping_gate_result id passed reason)
unfolding record_shipping_gate_result
record_shipping_gate_result-Keeps id passed reason = intent_update-Keeps id _ _ (λ _ _. refl)

pub update_bullet_status-Keeps :
    (id : String) (s : BulletStatus) → Keeps WellFormed (update_bullet_status id s)
unfolding update_bullet_status
update_bullet_status-Keeps id s = bullet_update-Keeps id _ _ (λ _ _. refl)

pub set_bullet_pr_url-Keeps : (id url : String) → Keeps WellFormed (set_bullet_pr_url id url)
unfolding set_bullet_pr_url
set_bullet_pr_url-Keeps id url = bullet_update-Keeps id _ _ (λ _ _. refl)

pub update_bullet_status_and_reason-Keeps :
    (id : String) (s : BulletStatus) (reason : String)
    → Keeps WellFormed (update_bullet_status_and_reason id s reason)
unfolding update_bullet_status_and_reason
update_bullet_status_and_reason-Keeps id s reason = bullet_update-Keeps id _ _ (λ _ _. refl)
