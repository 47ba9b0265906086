-- ===== src/Delivery/Rows.antt =====
-- internal/store/delivery.go: the statements on the delivery table.
use sgt.Base.{
  ℕ, String, Bool, true, false, ◌&&◌, Option, none, some, List, [], ◌∷◌, ◌++◌, str_eq,
  if◌then◌else◌, any, filterb, last?, unique_violation, Exec, select, time_now, ◌>>=◌, execute,
  str_append, ok, err, Result,
}
use sgt.Delivery.Types.{
  State, delivered, acknowledged, dead_letter, quarantined, ErrorClass, quarantine, Failure,
  Recovery, DeliveryRecord, Deliveries, classify_delivery_error,
}

-- fmt.Sprintf's `%q` and `%d` are not modelled: the instructions are what they name.
unfoldable pub recovery_instructions : String → ℕ → ErrorClass → Recovery
recovery_instructions consumer attempts class = record {
  consumer = consumer;
  attempts = attempts;
  class = class;
}

unfoldable pub delivery_idempotency_key : String → String → String
delivery_idempotency_key envelope_id consumer = str_append envelope_id (str_append ":" consumer)

unfoldable pub delivery_id : String → ℕ → String × ℕ
delivery_id envelope_id nanos = (envelope_id, nanos)

-- The states of the unique index on terminal rows.
unfoldable pub is_success : State → Bool
is_success delivered = true
is_success acknowledged = true
is_success _ = false

unfoldable pub has_key : String → DeliveryRecord → Bool
has_key key r = str_eq r.idempotency_key key

unfoldable pub success_row : String → DeliveryRecord → Bool
success_row key r = has_key key r && is_success r.state

-- The unique index refuses a second terminal success row for a key.
unfoldable pub violates_index : DeliveryRecord → List DeliveryRecord → Bool
violates_index r rows = is_success r.state && any (success_row r.idempotency_key) rows

abbrev pub insert_checked : DeliveryRecord → Deliveries → Result Deliveries
insert_checked r t =
    if violates_index r t.rows
    then err (unique_violation r.idempotency_key)
    else ok (record t { rows = t.rows ++ r ∷ [] })

unfoldable pub error_text : Option Failure → String
error_text none = ""
error_text (some f) = f.message

-- The row that an INSERT writes, with the two readings of the clock.
unfoldable pub new_row :
    String
    → String
    → State
    → ℕ
    → Option Failure
    → Option ℕ
    → Option Recovery
    → ℕ
    → ℕ
    → DeliveryRecord
unfolding error_text delivery_id
new_row envelope_id consumer state attempt failure next_attempt_at recovery now nanos = record {
  id = delivery_id envelope_id nanos;
  envelope_id = envelope_id;
  consumer = consumer;
  state = state;
  attempt = attempt;
  next_attempt_at = next_attempt_at;
  error = error_text failure;
  error_class = classify_delivery_error failure;
  recovery_instructions = recovery;
  idempotency_key = delivery_idempotency_key envelope_id consumer;
  created_at = now;
  updated_at = now;
}

unfoldable pub insert_delivery_row :
    String
    → String
    → State
    → ℕ
    → Option Failure
    → Option ℕ
    → Option Recovery
    → Exec Deliveries (Unit {0})
insert_delivery_row envelope_id consumer state attempt failure next_attempt_at recovery = do
  now ← time_now
  nanos ← time_now
  execute (
      insert_checked
        (new_row envelope_id consumer state attempt failure next_attempt_at recovery now nanos))

unfoldable pub quarantined_row : String → String → String → ℕ → ℕ → DeliveryRecord
unfolding delivery_id
quarantined_row envelope_id consumer reason now nanos = record {
  id = delivery_id envelope_id nanos;
  envelope_id = envelope_id;
  consumer = consumer;
  state = quarantined;
  attempt = 0;
  next_attempt_at = none;
  error = reason;
  error_class = quarantine;
  recovery_instructions = none;
  idempotency_key = delivery_idempotency_key envelope_id consumer;
  created_at = now;
  updated_at = now;
}

unfoldable pub insert_delivery_row_quarantined :
    String → String → String → Exec Deliveries (Unit {0})
insert_delivery_row_quarantined envelope_id consumer reason = do
  now ← time_now
  nanos ← time_now
  execute (insert_checked (quarantined_row envelope_id consumer reason now nanos))

-- SELECT COUNT(*) ... > 0
unfoldable pub is_already_terminal_success : String → String → Exec Deliveries Bool
unfolding success_row is_success
is_already_terminal_success envelope_id consumer =
    let key = delivery_idempotency_key envelope_id consumer in
    select (λ t. any (success_row key) t.rows)

unfoldable pub state_of : Option DeliveryRecord → Option State
state_of none = none
state_of (some r) = some r.state

-- The newest row of the key; `none` is the source's "".
unfoldable pub latest_delivery_state : String → String → Exec Deliveries (Option State)
unfolding state_of
latest_delivery_state envelope_id consumer =
    let key = delivery_idempotency_key envelope_id consumer in
    select (λ t. state_of (last? (filterb (has_key key) t.rows)))

unfoldable pub is_dead_letter : State → Bool
is_dead_letter dead_letter = true
is_dead_letter _ = false

unfoldable pub has_dead_letter_row : String → String → Exec Deliveries Bool
unfolding is_dead_letter
has_dead_letter_row envelope_id consumer =
    let key = delivery_idempotency_key envelope_id consumer in
    select (λ t. any (λ r. has_key key r && is_dead_letter r.state) t.rows)

unfoldable pub list_delivery_history : String → String → Exec Deliveries (List DeliveryRecord)
list_delivery_history envelope_id consumer =
    let key = delivery_idempotency_key envelope_id consumer in
    select (λ t. filterb (has_key key) t.rows)
