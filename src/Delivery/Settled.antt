-- ===== src/Delivery/Settled.antt =====
-- internal/store/delivery.go: in the history of a key, no row follows a terminal success row.
use sgt.Base.{
  String, Bool, true, false, some, List, [], ◌∷◌, ◌++◌, str_eq, any, filterb, last?, refl, ◌≡◌,
  arith, eq_iff, Option-cases, filterb-append, sym, ◌∙◌, Bool-cases, inl, inr,
}
use sgt.Delivery.Types.{State, DeliveryRecord, Deliveries}
use sgt.Delivery.Rows.{is_success, has_key, success_row, state_of}
use mathlib.Core.List.{append-nil}
use sgt.Delivery.Quiet.{Unfinished}

abbrev pub success : DeliveryRecord → Bool
success r = is_success r.state

-- Nothing follows a success.
abbrev pub Final : List DeliveryRecord → Type 0
Final [] = Unit
Final (r ∷ rs) = (success r ≡ true → rs ≡ []) × Final rs

-- At every key.
pub record Settled (t : Deliveries) : Type 0 where
  pub at_key : (key : String) → Final (filterb (has_key key) t.rows)

Final-snoc :
    (rs : List DeliveryRecord) (r : DeliveryRecord)
    → any success rs ≡ false
    → Final rs
    → Final (rs ++ r ∷ [])
unfolding is_success
Final-snoc [] r h f = (λ _. refl, tt)
Final-snoc (q ∷ rs) r h f = (λ e. cc, Final-snoc rs r (ground arith) f.1)

pub any-success_row :
    (key : String) (rs : List DeliveryRecord)
    → any (success_row key) rs ≡ any success (filterb (has_key key) rs)
unfolding success_row
any-success_row key [] = refl
any-success_row key (r ∷ rs) = ground (arith, any-success_row key rs)

-- The newest row of a settled history tells whether it holds a success.
pub Final-last :
    (rs : List DeliveryRecord) (r : DeliveryRecord)
    → Final rs
    → last? rs ≡ some r
    → is_success r.state ≡ false
    → any success rs ≡ false
Final-last [] r f l s = cc
Final-last (q ∷ []) r f l s = ground arith
Final-last (q ∷ q' ∷ rs) r f l s = elim (Bool-cases (success q)) [
  | inl e ↦ absurd (ground (arith, f.0 e))
  | inr e ↦ rw e (Final-last (q' ∷ rs) r f.1 l s)
]

-- While a key has no success, a row of it may be written.
pub Settled-append :
    (r : DeliveryRecord) (t : Deliveries)
    → Unfinished r.idempotency_key t.rows
    → Settled t
    → Settled (record t { rows = t.rows ++ r ∷ [] })
unfolding has_key
Settled-append r t u h = record {
  at_key = λ key. rw filterb-append (elim (Bool-cases (str_eq r.idempotency_key key)) [
    | inl e ↦ rw e (
        Final-snoc (filterb (has_key key) t.rows) r
          (rw (← (eq_iff r.idempotency_key key).0 e)
            (sym (any-success_row r.idempotency_key t.rows) ∙ u))
          (h.at_key key))
    | inr e ↦ rw (e, append-nil) (h.at_key key)
  ]);
}

-- A key whose newest row is no success has none.
pub Unfinished-latest :
    (key : String) (t : Deliveries) (s : State)
    → Settled t
    → state_of (last? (filterb (has_key key) t.rows)) ≡ some s
    → is_success s ≡ false
    → Unfinished key t.rows
unfolding state_of
Unfinished-latest key t s h l q =
    any-success_row key t.rows ∙ elim (Option-cases (last? (filterb (has_key key) t.rows))) [
      | inl e ↦ absurd (ground (arith, l, e))
      | inr (r, e) ↦
          Final-last (filterb (has_key key) t.rows) r (h.at_key key) e (ground (arith, l, e))
    ]
