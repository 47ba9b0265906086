-- ===== src/Delivery/Retry.antt =====
-- internal/store/delivery.go: what the retry loop writes, while the database refuses no statement.
use sgt.Base.{
  ℕ, zero, suc, ◌+◌, String, Bool, true, false, Option, none, some, List, [], ◌∷◌, ◌++◌, ltb,
  filterb, Err, attempt_failed, Disk, refl, ◌≡◌, ok, Result, ltb, quiet, arith, snoc-append,
  filterb-append, map, Option-cases, inl, inr, eq_true,
}
use sgt.Delivery.Types.{
  State, retrying, delivered, dead_letter, Failure, Recovery, DeliveryRecord, Deliveries,
  classify_delivery_error,
}
use sgt.Delivery.Rows.{
  recovery_instructions, delivery_idempotency_key, is_success, has_key, new_row,
}
use sgt.Delivery.Ops.{call, error_of, round, retry_rounds}
use sgt.Delivery.Quiet.{Unfinished, insert-Unfinished, Unfinished-append}
use mathlib.Core.List.{map-append}

-- The state and the attempt number of each row of a key, in the order of writing.
abbrev pub step_of : DeliveryRecord → State × ℕ
step_of r = (r.state, r.attempt)

abbrev pub history : String → List DeliveryRecord → List (State × ℕ)
history key rows = map step_of (filterb (has_key key) rows)

module _ (envelope_id consumer : String) where
  abbrev key : String
  key = delivery_idempotency_key envelope_id consumer

  pub history-append :
      (state : State) (attempt : ℕ) (failure : Option Failure) (next : Option ℕ)
      (recovery : Option Recovery) (rows : List DeliveryRecord) (n m : ℕ)
      → history key
          (rows ++ new_row envelope_id consumer state attempt failure next recovery n m ∷ [])
        ≡ history key rows ++ (state, attempt) ∷ []
  unfolding new_row has_key
  history-append state attempt failure next recovery rows n m =
      rw (filterb-append, map-append, eq_true key key refl)

  module _ (attempt : ℕ → Option Failure) where
    -- The states that a loop of `left` rounds writes from attempt `n` on, by what the calls
    -- from the `c`-th on return.
    abbrev pub loop_history : ℕ → ℕ → ℕ → List (State × ℕ)
    loop_history zero n c = []
    loop_history (suc left) n c = elim (attempt c) [
      | none ↦ (delivered, n) ∷ []
      | some f ↦ elim left [
        | zero ↦ (dead_letter, n) ∷ []
        | suc _ ↦ (retrying, n + 1) ∷ loop_history left (n + 1) (c + 1)
      ]
    ]

    abbrev pub loop_end : ℕ → ℕ → Option Err × Bool
    loop_end zero c = (none, true)
    loop_end (suc left) c = elim (attempt c) [
      | none ↦ (none, false)
      | some f ↦ elim left [
        | zero ↦ (some (attempt_failed f.message), true)
        | suc _ ↦ loop_end left (c + 1)
      ]
    ]

    abbrev pub loop_calls : ℕ → ℕ → ℕ
    loop_calls zero c = 0
    loop_calls (suc left) c = elim (attempt c) [ none ↦ 1 | some f ↦ suc (loop_calls left (c + 1)) ]

    abbrev pub Ran : ℕ → ℕ → Deliveries → Result (Option Err × Bool) × Disk Deliveries → Type 0
    Ran left n t p =
        (p.0 ≡ ok (loop_end left t.calls))
        × (history key p.1.db.rows ≡ history key t.rows ++ loop_history left n t.calls)
        × (p.1.db.calls ≡ t.calls + loop_calls left t.calls)
        × (p.1.faults ≡ [])

    -- The loop makes the attempts that its first success or its bound ends, and writes a row
    -- for each.
    pub retry_rounds-Ran :
        (l n local_max : ℕ) (last : Option Err) (t : Deliveries) (now : ℕ)
        → local_max ≡ n + l
        → Unfinished key t.rows
        → Ran
            (suc l)
            n
            t
            (retry_rounds attempt envelope_id consumer (suc l) local_max n last (quiet t now))
    unfolding retry_rounds round call is_success
    retry_rounds-Ran zero n local_max last t now m h = elim (Option-cases (attempt t.calls)) [
      | inl e ↦ rw e (
          rw
            (insert-Unfinished envelope_id consumer delivered n none none none
              (record t { calls = t.calls + 1 }) now h)
            (ground (arith, history-append delivered n none none none t.rows now (now + 1))))
      | inr (f, e) ↦
          let q : ltb n local_max ≡ false = ground arith in
          rw (e, q)
            (rw
              (insert-Unfinished envelope_id consumer dead_letter n (some f) none _
                (record t { calls = t.calls + 1 }) now h)
              (ground (
                arith,
                history-append dead_letter n (some f) none
                    (some (recovery_instructions consumer n (classify_delivery_error (some f))))
                    t.rows now (now + 1),
              )))
    ]
    retry_rounds-Ran (suc l) n local_max last t now m h = elim (Option-cases (attempt t.calls)) [
      | inl e ↦ rw e (
          rw
            (insert-Unfinished envelope_id consumer delivered n none none none
              (record t { calls = t.calls + 1 }) now h)
            (ground (arith, history-append delivered n none none none t.rows now (now + 1))))
      | inr (f, e) ↦
          let q : ltb n local_max ≡ true = ground arith in
          rw (e, q)
            (rw
              (insert-Unfinished envelope_id consumer retrying (n + 1) (some f) (some now) none
                (record t { calls = t.calls + 1 }) (now + 1) h)
              (let row =
                  new_row envelope_id consumer retrying (n + 1) (some f) (some now) none (now + 1)
                    (now + 1 + 1) in
                let t' : Deliveries = record { rows = t.rows ++ row ∷ []; calls = t.calls + 1 } in
                let added =
                  history-append retrying (n + 1) (some f) (some now) none t.rows (now + 1)
                    (now + 1 + 1) in
                let ih =
                  retry_rounds-Ran l (n + 1) local_max (error_of (some f)) t' (now + 1 + 1 + 1)
                    (omega arith)
                    (Unfinished-append envelope_id consumer retrying (n + 1) (some f) (some now)
                      none t.rows (now + 1) (now + 1 + 1) refl h) in
                (
                  ground (arith, ih.0),
                  ground (
                    arith,
                    ih.1,
                    added,
                    snoc-append (history key t.rows) (retrying, n + 1)
                        (loop_history (suc l) (n + 1) (t.calls + 1)),
                  ),
                  ground (arith, ih.2),
                  ih.3,
                )))
    ]
