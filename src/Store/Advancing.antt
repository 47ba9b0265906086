-- ===== src/Store/Advancing.antt =====
-- internal/store/store.go: AdvanceBulletsForRun, while the database refuses no statement.
use sgt.Base.{
  String, Bool, true, ◌&&◌, ◌||◌, List, [], ◌∷◌, str_eq, any, filterb, refl, ◌≡◌, not, arith, ap,
  ◌∙◌, inl, inr, Bool-cases, All, eq_true,
}
use sgt.Store.Types.{BulletStatus, BulletRecord, Tables}
use sgt.Store.Advance.{is_at}
use sgt.Store.Rows.{
  bullets_of, in_intent, order_by_position, insert_by_position, bullet_comes_first,
}
use sgt.Store.Advanced.{has_bullet, Pending, Present}

-- What holds of a row holds of some row.
pub All-member :
    {A : Type 0} (xs : List A) → All (λ x. (p : A → Bool) → p x ≡ true → any p xs ≡ true) xs
All-member xs = go xs xs (λ p h. h)
  where
    go :
        {A : Type 0} (ys xs : List A)
        → ((p : A → Bool) → any p ys ≡ true → any p xs ≡ true)
        → All (λ x. (p : A → Bool) → p x ≡ true → any p xs ≡ true) ys
    go [] xs k = tt
    go (y ∷ ys) xs k = ((λ p h. k p (rw h refl)), go ys xs (λ p h. k p (ground (arith, h))))

pub All-imp :
    {A : Type 0} {P Q : A → Type 0} (xs : List A) → ((x : A) → P x → Q x) → All P xs → All Q xs
All-imp [] k h = tt
All-imp (x ∷ xs) k h = (k x h.0, All-imp xs k h.1)

pub any-filterb :
    {A : Type 0} (p q : A → Bool) (xs : List A) → any q (filterb p xs) ≡ any (λ x. p x && q x) xs
any-filterb p q [] = refl
any-filterb p q (x ∷ xs) = elim (Bool-cases (p x)) [
  | inl e ↦ rw (e, any-filterb p q xs) refl
  | inr e ↦ rw (e, any-filterb p q xs) refl
]

any-insert :
    (q : BulletRecord → Bool) (b : BulletRecord) (bs : List BulletRecord)
    → any q (insert_by_position b bs) ≡ (q b || any q bs)
unfolding insert_by_position
any-insert q b [] = refl
any-insert q b (c ∷ cs) = elim (Bool-cases (bullet_comes_first b c)) [
  | inl e ↦ rw e refl
  | inr e ↦ rw e (ground (arith, any-insert q b cs))
]

any-order :
    (q : BulletRecord → Bool) (bs : List BulletRecord) → any q (order_by_position bs) ≡ any q bs
unfolding order_by_position
any-order q [] = refl
any-order q (b ∷ bs) = any-insert q b (order_by_position bs) ∙ ap (λ r. q b || r) (any-order q bs)

any-bullets_of :
    (q : BulletRecord → Bool) (id : String) (t : Tables)
    → any q (bullets_of id t) ≡ any (λ x. in_intent id x && q x) t.bullets
unfolding bullets_of
any-bullets_of q id t =
    any-order q (filterb (in_intent id) t.bullets) ∙ any-filterb (in_intent id) q t.bullets

module _ (P : BulletRecord → Type 0) where
  All-insert :
      (b : BulletRecord) (bs : List BulletRecord) → P b → All P bs → All P (insert_by_position b bs)
  unfolding insert_by_position
  All-insert b [] h a = (h, tt)
  All-insert b (c ∷ cs) h a = elim (Bool-cases (bullet_comes_first b c)) [
    | inl e ↦ rw e (h, a)
    | inr e ↦ rw e (a.0, All-insert b cs h a.1)
  ]

  All-order : (bs : List BulletRecord) → All P bs → All P (order_by_position bs)
  unfolding order_by_position
  All-order [] a = tt
  All-order (b ∷ bs) a = All-insert b (order_by_position bs) a.0 (All-order bs a.1)

  All-filter :
      (p : BulletRecord → Bool) (bs : List BulletRecord)
      → All (λ b. p b ≡ true → P b) bs
      → All P (filterb p bs)
  All-filter p [] a = tt
  All-filter p (b ∷ bs) a = elim (Bool-cases (p b)) [
    | inl e ↦ rw e (a.0 e, All-filter p bs a.1)
    | inr e ↦ rw e (All-filter p bs a.1)
  ]

  pub All-bullets_of :
      (id : String) (t : Tables)
      → All (λ b. in_intent id b ≡ true → P b) t.bullets
      → All P (bullets_of id t)
  unfolding bullets_of
  All-bullets_of id t a =
      All-order (filterb (in_intent id) t.bullets) (All-filter (in_intent id) t.bullets a)

module _ (intent_id : String) (status : BulletStatus) (reason : String) (t : Tables) where
  pub start-Present : Present intent_id status reason t (bullets_of intent_id t)
  start-Present = All-bullets_of _ intent_id t (
      All-imp t.bullets (λ x k _. k (has_bullet x.id) (eq_true x.id x.id refl))
        (All-member t.bullets))

  pub start-Pending : All (Pending intent_id status reason (bullets_of intent_id t)) t.bullets
  start-Pending = All-imp t.bullets pending (All-member t.bullets)
    where
      pending :
          (x : BulletRecord)
          → ((p : BulletRecord → Bool) → p x ≡ true → any p t.bullets ≡ true)
          → Pending intent_id status reason (bullets_of intent_id t) x
      pending x k i = elim (Bool-cases (is_at status reason x)) [
        | inl e ↦ rw e refl
        | inr e ↦
            let found =
              k (λ b. in_intent intent_id b && (str_eq x.id b.id && not (is_at status reason b)))
                (ground (arith, eq_true x.id x.id refl)) in
            ground (
              arith,
              any-bullets_of (λ b. str_eq x.id b.id && not (is_at status reason b)) intent_id t,
            )
      ]
