-- ===== src/Delivery/Outcome.antt =====
-- internal/store/delivery.go: DeliverEnvelope and ReplayDelivery against a table of outcomes,
-- while the database refuses no statement.
use sgt.Base.{
  ℕ, zero, suc, ◌+◌, ◌-◌, String, Bool, true, Option, none, some, List, [], ◌∷◌, ◌++◌,
  if◌then◌else◌, filterb, last?, Err, attempt_failed, Disk, Exec, ◌>>=◌, ◌>>◌, refl, ◌≡◌, ok, err,
  Result, quiet, arith, snoc-append, All, any, ◌==◌, ◌≤◌, ◌<◌, ◌⊎◌, inl, inr, ltb,
}
use sgt.Delivery.Types.{
  State, pending, retrying, delivered, dead_letter, Failure, DeliveryRecord, Deliveries,
}
use sgt.Delivery.Rows.{
  delivery_idempotency_key, is_success, has_key, insert_delivery_row, is_already_terminal_success,
  state_of, latest_delivery_state, list_delivery_history, new_row,
}
use sgt.Delivery.Ops.{
  returned, conclude, max_attempt, deliver_retry_loop, deliver_envelope, replay_permitted,
  replay_dispatch, replay_delivery,
}
use sgt.Delivery.Quiet.{Unfinished, insert-Unfinished, Unfinished-append}
use mathlib.Core.Path.{fun_ext}
use sgt.Delivery.Settled.{Settled, Unfinished-latest}
use sgt.Delivery.Retry.{history, history-append, retry_rounds-Ran, loop_history}

-- Which of three attempts succeeds first, by what the calls from the `c`-th on return.
abbrev pub first_success : (ℕ → Option Failure) → ℕ → Option ℕ
first_success attempt c = elim (attempt c) [
  | none ↦ some 0
  | some _ ↦ elim (attempt (c + 1)) [
    | none ↦ some 1
    | some _ ↦ elim (attempt (c + 1 + 1)) [ none ↦ some 2 | some _ ↦ none ]
  ]
]

-- The states that a delivery from attempt `n` on goes through.
abbrev pub written : ℕ → Option ℕ → List (State × ℕ)
written n (some zero) = (pending, n) ∷ (delivered, n) ∷ []
written n (some (suc zero)) = (pending, n) ∷ (retrying, n + 1) ∷ (delivered, n + 1) ∷ []
written n (some (suc (suc _))) =
    (pending, n) ∷ (retrying, n + 1) ∷ (retrying, n + 2) ∷ (delivered, n + 2) ∷ []
written n none = (pending, n) ∷ (retrying, n + 1) ∷ (retrying, n + 2) ∷ (dead_letter, n + 2) ∷ []

abbrev pub calls_made : Option ℕ → ℕ
calls_made (some k) = k + 1
calls_made none = 3

abbrev pub failure_of : Option Failure → Result (Unit {0})
failure_of none = ok tt
failure_of (some f) = err (attempt_failed f.message)

-- Only an exhausted critical delivery reports an error, that of its last attempt.
abbrev pub reported : Bool → (ℕ → Option Failure) → ℕ → Result (Unit {0})
reported critical attempt c = elim (first_success attempt c) [
  | some _ ↦ ok tt
  | none ↦ if critical then failure_of (attempt (c + 1 + 1)) else ok tt
]

-- The highest attempt number of some rows, which one of them has.
abbrev pub Highest : ℕ → List DeliveryRecord → Type 0
Highest n rows = All (λ r. r.attempt ≤ n) rows × (any (λ r. r.attempt == n) rows ≡ true)

abbrev Above : ℕ → ℕ → List DeliveryRecord → Type 0
Above m highest rows =
    (highest ≤ m)
    × All (λ r. r.attempt ≤ m) rows
    × ((m ≡ highest) ⊎ (any (λ r. r.attempt == m) rows ≡ true))

Above-cons :
    (m highest next : ℕ) (r : DeliveryRecord) (rs : List DeliveryRecord)
    → ((next ≡ r.attempt) × (highest < r.attempt)) ⊎ ((next ≡ highest) × (r.attempt ≤ highest))
    → Above m next rs
    → Above m highest (r ∷ rs)
Above-cons m highest next r rs (inl (e, l)) (low, above, found) =
    (omega (arith, e, l, low), (omega (arith, e, low), above), ground (arith, e, found))
Above-cons m highest next r rs (inr (e, l)) (low, above, found) =
    (omega (arith, e, low), (omega (arith, e, l, low), above), ground (arith, e, found))

max_attempt-Above :
    (highest : ℕ) (rows : List DeliveryRecord) → Above (max_attempt highest rows) highest rows
unfolding max_attempt
max_attempt-Above highest [] = (omega arith, tt, inl refl)
max_attempt-Above highest (r ∷ rs) =
    let next = if ltb highest r.attempt then r.attempt else highest in
    Above-cons (max_attempt next rs) highest next r rs (ground arith) (max_attempt-Above next rs)

last?-dead :
    (rows : List DeliveryRecord)
    → state_of (last? rows) ≡ some dead_letter
    → Highest (max_attempt 0 rows) rows
unfolding state_of
last?-dead [] e = absurd (ground (arith, e))
last?-dead (r ∷ rs) e =
    let (low, above, found) = max_attempt-Above 0 (r ∷ rs) in
    (above, elim found [ inl q ↦ ground (arith, q, above) | inr q ↦ q ])

module _ (attempt : ℕ → Option Failure) (envelope_id consumer : String) where
  abbrev pub key : String
  key = delivery_idempotency_key envelope_id consumer

  abbrev pub Follows : ℕ → Bool → Deliveries → Result (Unit {0}) × Disk Deliveries → Type 0
  Follows n critical t p =
      let k = first_success attempt t.calls in
      (history key p.1.db.rows ≡ history key t.rows ++ written n k)
      × (p.1.db.calls ≡ t.calls + calls_made k)
      × (p.0 ≡ reported critical attempt t.calls)
      × (p.1.faults ≡ [])

  -- The loop after its pending row.
  loop-Follows :
      (n : ℕ) (critical : Bool) (t : Deliveries) (now : ℕ)
      (k : Option Err × Bool → Exec Deliveries (Unit {0}))
      → k ≡ conclude critical
      → Unfinished key t.rows
      → Follows n critical t (
          (do
            insert_delivery_row envelope_id consumer pending n none none none
            outcome ← deliver_retry_loop attempt envelope_id consumer n
            k outcome)
            (quiet t now))
  unfolding deliver_retry_loop conclude returned
  loop-Follows n critical t now k same h =
      rw (same, insert-Unfinished envelope_id consumer pending n none none none t now h)
        (let row = new_row envelope_id consumer pending n none none none now (now + 1) in
          let t' : Deliveries = record t { rows = t.rows ++ row ∷ [] } in
          let added =
            history-append envelope_id consumer pending n none none none t.rows now (now + 1) in
          let ran =
            retry_rounds-Ran envelope_id consumer attempt 2 n (n + 3 - 1) none t' (now + 1 + 1)
              (omega arith)
              (Unfinished-append envelope_id consumer pending n none none none t.rows now (now + 1)
                (unfold is_success in refl) h) in
          ground (
            arith,
            ran.0,
            ran.1,
            ran.2,
            ran.3,
            added,
            snoc-append (history key t.rows) (pending, n)
                (loop_history envelope_id consumer attempt 3 n t.calls),
          ))

  -- While the database refuses no statement, a delivery of a key with no terminal success makes
  -- attempts until one succeeds, three at most, and appends to the key's history exactly a
  -- pending row, a retrying row for each failure that is followed by another attempt, and
  -- a delivered row or, after the third failure, a dead letter, with their attempt numbers.
  -- It returns the last attempt's error if all three fail and the delivery is critical, and
  -- no error otherwise.
  pub deliver_envelope-outcome :
      (critical : Bool) (t : Deliveries) (now : ℕ)
      → Unfinished key t.rows
      → Follows 1 critical t (deliver_envelope attempt envelope_id consumer critical (quiet t now))
  unfolding deliver_envelope is_already_terminal_success
  deliver_envelope-outcome critical t now h =
      rw h (loop-Follows 1 critical t now (conclude critical) refl h)

  conclude-true : (λ (o : Option Err × Bool). returned o.0) ≡ conclude true
  unfolding conclude
  conclude-true = fun_ext (λ o. ground arith)

  -- While the database refuses no statement, a replay of a key whose newest row is a dead letter, in
  -- a table where no row follows a terminal success, numbers its attempts from one more than the
  -- highest attempt number of the key's rows. It makes attempts until one succeeds, three at most,
  -- writes the rows of its outcome and reports its last error whenever its three attempts fail.
  pub replay_delivery-outcome :
      (t : Deliveries) (now : ℕ)
      → Settled t
      → state_of (last? (filterb (has_key key) t.rows)) ≡ some dead_letter
      → (n : ℕ) × Highest n (filterb (has_key key) t.rows)
        × Follows (n + 1) true t (replay_delivery attempt envelope_id consumer (quiet t now))
  unfolding replay_delivery latest_delivery_state replay_dispatch replay_permitted
      list_delivery_history
  replay_delivery-outcome t now s l =
      let n = max_attempt 0 (filterb (has_key key) t.rows) in
      let f : Follows (n + 1) true t (replay_delivery attempt envelope_id consumer (quiet t now)) =
        rw l (
          loop-Follows (n + 1) true t now (λ o. returned o.0) conclude-true
            (Unfinished-latest key t dead_letter s l (unfold is_success in refl))) in
      let (above, found) = last?-dead (filterb (has_key key) t.rows) l in (n, (above, found), f)
