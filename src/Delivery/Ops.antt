-- ===== src/Delivery/Ops.antt =====
-- internal/store/delivery.go: delivery with bounded retry, replay and quarantine.
--
-- An attempt is a call of code that the store is handed: `attempt n` is what its n-th call
-- returns, and `calls` counts the calls made.
use sgt.Base.{
  ℕ, zero, suc, ◌+◌, ◌-◌, String, Bool, true, false, Option, none, some, List, [], ◌∷◌, ltb,
  if◌then◌else◌, Err, attempt_failed, replay_quarantined, not_dead_letter, no_delivery, Exec, pure,
  raise, time_now, ◌>>=◌, ◌>>◌, on_error, ok, ltb, not,
}
use sgt.Delivery.Types.{
  State, pending, retrying, delivered, acknowledged, dead_letter, quarantined, Failure,
  DeliveryRecord, Deliveries, delivery_max_attempts, classify_delivery_error,
}
use sgt.Delivery.Rows.{
  recovery_instructions, insert_delivery_row, insert_delivery_row_quarantined,
  is_already_terminal_success, latest_delivery_state, has_dead_letter_row, list_delivery_history,
}

-- What a call of the handed code returns; each call counts.
unfoldable pub call : (ℕ → Option Failure) → Exec Deliveries (Option Failure)
call attempt d = (ok (attempt d.db.calls), record d { db = record d.db { calls = d.db.calls + 1 } })

unfoldable pub error_of : Option Failure → Option Err
error_of none = none
error_of (some f) = some (attempt_failed f.message)

-- `return lastErr`
unfoldable pub returned : Option Err → Exec Deliveries (Unit {0})
returned none = pure tt
returned (some e) = raise e

unfoldable pub conclude : Bool → Option Err × Bool → Exec Deliveries (Unit {0})
unfolding returned
conclude critical (last_err, exhausted) =
    if not exhausted then returned last_err else if critical then returned last_err else pure tt

-- The loop that finds the highest attempt of the history.
unfoldable pub max_attempt : ℕ → List DeliveryRecord → ℕ
max_attempt highest [] = highest
max_attempt highest (r ∷ rs) = max_attempt (if ltb highest r.attempt then r.attempt else highest) rs

-- The loop of `deliverRetryLoop`, by the rounds left. It returns `lastErr` and `exhausted`.
module _ (attempt : ℕ → Option Failure) (envelope_id consumer : String) where
  unfoldable pub round :
      ℕ
      → ℕ
      → Option Failure
      → Exec Deliveries (Option Err × Bool)
      → Exec Deliveries (Option Err × Bool)
  round local_max attempt_num none continue_loop =
      on_error (insert_delivery_row envelope_id consumer delivered attempt_num none none none)
        (λ e. pure (some e, false)) (λ _. pure (none, false))
  round local_max attempt_num (some failure) continue_loop =
      if ltb attempt_num local_max
      then (do
        now ← time_now
        on_error
            (insert_delivery_row envelope_id consumer retrying (attempt_num + 1) (some failure)
              (some now) none)
            (λ e. pure (some e, false)) (λ _. continue_loop))
      else on_error
          (insert_delivery_row envelope_id consumer dead_letter attempt_num (some failure) none (
            some (
              recovery_instructions consumer attempt_num (classify_delivery_error (some failure)))))
          (λ e. pure (some e, false)) (λ _. pure (some (attempt_failed failure.message), true))

  unfoldable pub retry_rounds : ℕ → ℕ → ℕ → Option Err → Exec Deliveries (Option Err × Bool)
  retry_rounds zero local_max attempt_num last_err = pure (last_err, true)
  retry_rounds (suc left) local_max attempt_num last_err = do
    outcome ← call attempt
    round local_max attempt_num outcome
        (retry_rounds left local_max (attempt_num + 1) (error_of outcome))

  -- It runs `delivery_max_attempts` rounds at most: attempts `start` to `start + 2`.
  unfoldable pub deliver_retry_loop : ℕ → Exec Deliveries (Option Err × Bool)
  deliver_retry_loop start_attempt =
      retry_rounds delivery_max_attempts (start_attempt + delivery_max_attempts - 1) start_attempt
        none

  unfoldable pub deliver_envelope : Bool → Exec Deliveries (Unit {0})
  deliver_envelope critical = do
    already ← is_already_terminal_success envelope_id consumer
    if already then pure tt else do
      insert_delivery_row envelope_id consumer pending 1 none none none
      outcome ← deliver_retry_loop 1
      conclude critical outcome

  unfoldable pub replay_permitted : Exec Deliveries (Unit {0})
  replay_permitted = do
    history ← list_delivery_history envelope_id consumer
    let start_attempt = max_attempt 0 history + 1
    insert_delivery_row envelope_id consumer pending start_attempt none none none
    outcome ← deliver_retry_loop start_attempt
    returned outcome.0

  unfoldable pub replay_resolved : Exec Deliveries (Unit {0})
  replay_resolved = do
    had_dead_letter ← has_dead_letter_row envelope_id consumer
    if had_dead_letter then pure tt else raise not_dead_letter

  -- The switch on the latest state.
  unfoldable pub replay_dispatch : Option State → Exec Deliveries (Unit {0})
  replay_dispatch (some dead_letter) = replay_permitted
  replay_dispatch (some quarantined) = raise replay_quarantined
  replay_dispatch (some delivered) = replay_resolved
  replay_dispatch (some acknowledged) = replay_resolved
  replay_dispatch none = raise no_delivery
  replay_dispatch (some _) = raise not_dead_letter

  unfoldable pub replay_delivery : Exec Deliveries (Unit {0})
  replay_delivery = do latest ← latest_delivery_state envelope_id consumer; replay_dispatch latest

unfoldable pub quarantine_dispatch :
    String → String → String → Option State → Exec Deliveries (Unit {0})
quarantine_dispatch envelope_id consumer reason (some dead_letter) =
    insert_delivery_row_quarantined envelope_id consumer reason
quarantine_dispatch envelope_id consumer reason none = raise no_delivery
quarantine_dispatch envelope_id consumer reason (some _) = raise not_dead_letter

unfoldable pub quarantine_delivery : String → String → String → Exec Deliveries (Unit {0})
quarantine_delivery envelope_id consumer reason = do
  latest ← latest_delivery_state envelope_id consumer
  quarantine_dispatch envelope_id consumer reason latest
