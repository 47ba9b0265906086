-- ===== src/Delivery/Writes.antt =====
-- internal/store/delivery.go: the operations on a key write nothing but rows of that key.
--
-- What every INSERT of such a row keeps and every attempt keeps, each operation keeps, whichever
-- statements the database refuses.
use sgt.Base.{ℕ, zero, suc, ◌+◌, String, Bool, Option, none, some, Err, Exec, execute, refl, ◌≡◌}
use sgt.Delivery.Types.{State, dead_letter, Failure, Recovery, DeliveryRecord, Deliveries}
use sgt.Delivery.Rows.{
  delivery_idempotency_key, insert_checked, insert_delivery_row, insert_delivery_row_quarantined,
  is_already_terminal_success, latest_delivery_state, has_dead_letter_row, list_delivery_history,
  new_row, quarantined_row,
}
use sgt.Delivery.Ops.{
  call, error_of, returned, conclude, round, retry_rounds, deliver_retry_loop, deliver_envelope,
  replay_permitted, replay_resolved, replay_dispatch, replay_delivery, quarantine_dispatch,
  quarantine_delivery,
}
use sgt.Base.Keeps.{Keeps, keeps_rules, Keeps-bind, Keeps-time_now, Keeps-pure, Keeps-raise}

module _ {P : Deliveries → Type 0} (envelope_id consumer : String)
    (insert_keeps : (r : DeliveryRecord)
      → r.idempotency_key ≡ delivery_idempotency_key envelope_id consumer
      → Keeps P (execute (insert_checked r)))
    (call_keeps : (attempt : ℕ → Option Failure) → Keeps P (call attempt)) where
  insert_delivery_row-Keeps :
      (s : State) (n : ℕ) (f : Option Failure) (next : Option ℕ) (i : Option Recovery)
      → Keeps P (insert_delivery_row envelope_id consumer s n f next i)
  unfolding insert_delivery_row new_row
  insert_delivery_row-Keeps s n f next i = Keeps-bind _ _ Keeps-time_now (λ now.
      Keeps-bind _ _ Keeps-time_now
        (λ nanos. insert_keeps (new_row envelope_id consumer s n f next i now nanos) refl))

  quarantined-Keeps :
      (reason : String) → Keeps P (insert_delivery_row_quarantined envelope_id consumer reason)
  unfolding insert_delivery_row_quarantined quarantined_row
  quarantined-Keeps reason = Keeps-bind _ _ Keeps-time_now (λ now.
      Keeps-bind _ _ Keeps-time_now
        (λ nanos. insert_keeps (quarantined_row envelope_id consumer reason now nanos) refl))

  round-Keeps :
      (attempt : ℕ → Option Failure) (local_max n : ℕ) (outcome : Option Failure)
      (rest : Exec Deliveries (Option Err × Bool))
      → Keeps P rest
      → Keeps P (round attempt envelope_id consumer local_max n outcome rest)
  unfolding round
  round-Keeps attempt local_max n none rest k = search (keeps_rules, insert_delivery_row-Keeps)
  round-Keeps attempt local_max n (some f) rest k = search (keeps_rules, insert_delivery_row-Keeps)

  retry_rounds-Keeps :
      (attempt : ℕ → Option Failure) (left local_max n : ℕ) (last : Option Err)
      → Keeps P (retry_rounds attempt envelope_id consumer left local_max n last)
  unfolding retry_rounds
  retry_rounds-Keeps attempt zero local_max n last = Keeps-pure _
  retry_rounds-Keeps attempt (suc left) local_max n last = Keeps-bind _ _ (call_keeps attempt) (λ o.
      round-Keeps attempt local_max n o _
        (retry_rounds-Keeps attempt left local_max (n + 1) (error_of o)))

  returned-Keeps : (o : Option Err) → Keeps P (returned o)
  unfolding returned
  returned-Keeps none = Keeps-pure tt
  returned-Keeps (some e) = Keeps-raise e

  conclude-Keeps : (critical : Bool) (o : Option Err × Bool) → Keeps P (conclude critical o)
  unfolding conclude
  conclude-Keeps critical o = search (keeps_rules, returned-Keeps)

  ruleset parts = (
    keeps_rules, insert_delivery_row-Keeps, quarantined-Keeps, retry_rounds-Keeps, returned-Keeps,
    conclude-Keeps,
  )

  pub deliver_envelope-Keeps :
      (attempt : ℕ → Option Failure) (critical : Bool)
      → Keeps P (deliver_envelope attempt envelope_id consumer critical)
  unfolding deliver_envelope is_already_terminal_success deliver_retry_loop
  deliver_envelope-Keeps attempt critical = search parts depth 8

  replay_dispatch-Keeps :
      (attempt : ℕ → Option Failure) (latest : Option State)
      → Keeps P (replay_dispatch attempt envelope_id consumer latest)
  unfolding replay_dispatch replay_permitted replay_resolved has_dead_letter_row deliver_retry_loop
      list_delivery_history
  replay_dispatch-Keeps attempt none = search parts
  replay_dispatch-Keeps attempt (some dead_letter) = search parts depth 8
  replay_dispatch-Keeps attempt (some _) = search parts depth 8

  pub replay_delivery-Keeps :
      (attempt : ℕ → Option Failure) → Keeps P (replay_delivery attempt envelope_id consumer)
  unfolding replay_delivery latest_delivery_state
  replay_delivery-Keeps attempt = search (parts, replay_dispatch-Keeps)

  quarantine_dispatch-Keeps :
      (reason : String) (latest : Option State)
      → Keeps P (quarantine_dispatch envelope_id consumer reason latest)
  unfolding quarantine_dispatch
  quarantine_dispatch-Keeps reason none = search parts
  quarantine_dispatch-Keeps reason (some dead_letter) = search parts
  quarantine_dispatch-Keeps reason (some _) = search parts

  pub quarantine_delivery-Keeps :
      (reason : String) → Keeps P (quarantine_delivery envelope_id consumer reason)
  unfolding quarantine_delivery latest_delivery_state
  quarantine_delivery-Keeps reason = search (parts, quarantine_dispatch-Keeps)
