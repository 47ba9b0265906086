-- ===== src/Delivery/Quiet.antt =====
-- internal/store/delivery.go, while the database refuses no statement: what the INSERTs do.
use sgt.Base.{
  ℕ, ◌+◌, String, false, Option, List, [], ◌∷◌, ◌++◌, any, ◌≡◌, ok, quiet, arith, any-append,
}
use sgt.Delivery.Types.{State, Failure, Recovery, DeliveryRecord, Deliveries}
use sgt.Delivery.Rows.{
  delivery_idempotency_key, is_success, success_row, violates_index, insert_delivery_row, new_row,
}

-- No row of the key is in a terminal success state.
abbrev pub Unfinished : String → List DeliveryRecord → Type 0
Unfinished key rows = any (success_row key) rows ≡ false

module _ (envelope_id consumer : String) where
  abbrev key : String
  key = delivery_idempotency_key envelope_id consumer

  -- An INSERT appends its row, if the key has no terminal success row yet.
  pub insert-Unfinished :
      (state : State) (attempt : ℕ) (failure : Option Failure) (next : Option ℕ)
      (recovery : Option Recovery) (t : Deliveries) (n : ℕ)
      → Unfinished key t.rows
      → insert_delivery_row envelope_id consumer state attempt failure next recovery (quiet t n) ≡ (
        ok tt,
        quiet
            (record t {
              rows =
                  t.rows
                  ++ new_row envelope_id consumer state attempt failure next recovery n (n + 1)
                    ∷ [];
            })
            (n + 1 + 1),
      )
  unfolding insert_delivery_row violates_index new_row
  insert-Unfinished state attempt failure next recovery t n h = ground arith

  pub Unfinished-append :
      (state : State) (attempt : ℕ) (failure : Option Failure) (next : Option ℕ)
      (recovery : Option Recovery) (rows : List DeliveryRecord) (n m : ℕ)
      → is_success state ≡ false
      → Unfinished key rows
      → Unfinished key
          (rows ++ new_row envelope_id consumer state attempt failure next recovery n m ∷ [])
  unfolding new_row success_row
  Unfinished-append state attempt failure next recovery rows n m s h = ground (
    arith,
    any-append (success_row key) rows
        (new_row envelope_id consumer state attempt failure next recovery n m ∷ []),
  )
