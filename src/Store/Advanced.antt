-- ===== src/Store/Advanced.antt =====
-- internal/store/store.go: what AdvanceBulletsForRun leaves, while the database refuses no statement.
use sgt.Base.{
  ℕ, String, Bool, true, ◌&&◌, ◌||◌, List, [], continue, ◌∷◌, str_eq, any, filterb, length,
  map_where, Disk, refl, ◌≡◌, ok, err, Result, not, quiet, arith, eq_iff, sym, ap, ◌∙◌, inl, inr,
  Bool-cases, All,
}
use sgt.Store.Types.{BulletStatus, BulletRecord, Tables, bullet_status_eq_iff}
use sgt.Store.Changes.{record_transition, append_change, append_row, notify_change}
use sgt.Store.Rows.{require_one_row, update_bullets}
use sgt.Store.Bullets.{update_bullet_status_and_reason}
use sgt.Store.Advance.{advance_each, is_at}
use sgt.Store.Rows.{in_intent}
use mathlib.Core.Path.{subst}

pub require_one_row-found :
    {A : Type 0} (kind id : String) (p : A → Bool) (xs : List A) (d : Disk Tables)
    → any p xs ≡ true
    → require_one_row kind id (length (filterb p xs)) d ≡ (ok tt, d)
unfolding require_one_row
require_one_row-found kind id p [] d h = absurd (ground arith)
require_one_row-found kind id p (x ∷ xs) d h = elim (Bool-cases (p x)) [
  | inl e ↦ rw e refl
  | inr e ↦
      let rest : any p xs ≡ true = ground arith in rw e (require_one_row-found kind id p xs d rest)
]

abbrev pub has_bullet : String → BulletRecord → Bool
has_bullet id b = str_eq b.id id

abbrev advanced : BulletStatus → String → ℕ → BulletRecord → BulletRecord
advanced status reason now b = record b {
  status = status;
  blocked_reason = reason;
  updated_at = now;
}

-- The bullets after one UPDATE.
abbrev moved : String → BulletStatus → String → ℕ → List BulletRecord → List BulletRecord
moved id status reason now bs = map_where (has_bullet id) (advanced status reason now) bs

abbrev Moved :
    String → BulletStatus → String → ℕ → Tables → Result (Unit {0}) × Disk Tables → Type 0
Moved id status reason now t p =
    (p.0 ≡ ok tt)
    × (p.1.db.bullets ≡ moved id status reason now t.bullets)
    × (p.1.db.intents ≡ t.intents)
    × (p.1.faults ≡ [])

update-Moved :
    (id : String) (status : BulletStatus) (reason : String) (t : Tables) (now : ℕ)
    → any (has_bullet id) t.bullets ≡ true
    → Moved id status reason now t (update_bullet_status_and_reason id status reason (quiet t now))
unfolding update_bullet_status_and_reason update_bullets record_transition append_change append_row
    notify_change
update-Moved id status reason t now h =
    rw (require_one_row-found "bullet" id (has_bullet id) t.bullets _ h) (refl, refl, refl, refl)

any-moved :
    (id : String) (status : BulletStatus) (reason : String) (now : ℕ) (key : String)
    (bs : List BulletRecord)
    → any (has_bullet key) (moved id status reason now bs) ≡ any (has_bullet key) bs
any-moved id status reason now key [] = refl
any-moved id status reason now key (b ∷ bs) = elim (Bool-cases (has_bullet id b)) [
  | inl e ↦ rw (e, any-moved id status reason now key bs) refl
  | inr e ↦ rw (e, any-moved id status reason now key bs) refl
]

module _ (intent_id : String) (status : BulletStatus) (reason : String) where
  -- Which bullets the loop still has to move.
  abbrev pub due : List BulletRecord → BulletRecord → Bool
  due bs x = any (λ b. str_eq x.id b.id && not (is_at status reason b)) bs

  abbrev pub Pending : List BulletRecord → BulletRecord → Type 0
  Pending bs x = in_intent intent_id x ≡ true → (is_at status reason x || due bs x) ≡ true

  advanced-at :
      (now : ℕ) (x : BulletRecord) → is_at status reason (advanced status reason now x) ≡ true
  advanced-at now x = ground (arith, bullet_status_eq_iff status status, eq_iff reason reason)

  Pending-moved :
      (b : BulletRecord) (rest : List BulletRecord) (now : ℕ) (xs : List BulletRecord)
      → All (Pending (b ∷ rest)) xs
      → All (Pending rest) (moved b.id status reason now xs)
  Pending-moved b rest now [] h = tt
  Pending-moved b rest now (x ∷ xs) h = elim (Bool-cases (has_bullet b.id x)) [
    | inl e ↦ rw e ((λ i. rw (advanced-at now x) refl), Pending-moved b rest now xs h.1)
    | inr e ↦ rw e ((λ i. let k = h.0 i in ground arith), Pending-moved b rest now xs h.1)
  ]

  Pending-skip :
      (b : BulletRecord) (rest : List BulletRecord) (xs : List BulletRecord)
      → is_at status reason b ≡ true
      → All (Pending (b ∷ rest)) xs
      → All (Pending rest) xs
  Pending-skip b rest [] e h = tt
  Pending-skip b rest (x ∷ xs) e h =
      ((λ i. let k = h.0 i in ground arith), Pending-skip b rest xs e h.1)

  abbrev pub Present : Tables → List BulletRecord → Type 0
  Present t bs = All (λ b. any (has_bullet b.id) t.bullets ≡ true) bs

  Present-moved :
      (id : String) (now : ℕ) (t t' : Tables) (bs : List BulletRecord)
      → t'.bullets ≡ moved id status reason now t.bullets
      → Present t bs
      → Present t' bs
  Present-moved id now t t' [] e h = tt
  Present-moved id now t t' (b ∷ bs) e h = (
    rw (e, any-moved id status reason now b.id t.bullets) h.0,
    Present-moved id now t t' bs e h.1,
  )

  abbrev pub Done : Tables → Result (Unit {0}) × Disk Tables → Type 0
  Done t p =
      (p.0 ≡ ok tt)
      × All (Pending []) p.1.db.bullets
      × (p.1.db.intents ≡ t.intents)
      × (p.1.faults ≡ [])

  -- The loop from any state in which no statement fails.
  pub advance_each-Done :
      (bs : List BulletRecord) (d : Disk Tables)
      → d.faults ≡ []
      → Present d.db bs
      → All (Pending bs) d.db.bullets
      → Done d.db (advance_each status reason bs d)
  unfolding advance_each
  advance_each-Done [] d f p h = (refl, h, refl, f)
  advance_each-Done (b ∷ bs) d f p h = elim (Bool-cases (is_at status reason b)) [
    | inl e ↦ rw e (advance_each-Done bs d f p.1 (Pending-skip b bs d.db.bullets e h))
    | inr e ↦ rw e (
        go (advance_each-Done bs) (update_bullet_status_and_reason b.id status reason d)
          (written f))
  ]
    where
      written :
          d.faults ≡ []
          → Moved b.id status reason d.now d.db
              (update_bullet_status_and_reason b.id status reason d)
      written f =
          subst
            (λ q.
              Moved b.id status reason d.now d.db
                (update_bullet_status_and_reason b.id status reason q))
            (sym (ap (λ fs. record d { faults = fs }) f))
            (update-Moved b.id status reason d.db d.now p.0)

      go :
          ((d : Disk Tables)
            → d.faults ≡ []
            → Present d.db bs
            → All (Pending bs) d.db.bullets
            → Done d.db (advance_each status reason bs d))
          → (q : Result (Unit {0}) × Disk Tables) → Moved b.id status reason d.now d.db q
          → Done d.db (continue q.0 (λ _. advance_each status reason bs) q.1)
      go loop (ok u, d') m =
          let ih = loop d' m.3 (Present-moved b.id d.now d.db d'.db bs m.1 p.1) (
            subst (λ xs. All (Pending bs) xs) (sym m.1)
              (Pending-moved b bs d.now d.db.bullets h)) in
          (ih.0, ih.1, ih.2 ∙ m.2, ih.3)
      go loop (err e, d') m = absurd (ground (arith, m.0))
