-- ===== src/Delivery/AppendOnly.antt =====
-- internal/store/delivery.go: every transition is an INSERT, whichever statements the database
-- refuses and whatever the attempts return.
use sgt.Base.{ℕ, Option, List, [], ◌∷◌, ◌++◌, Disk, execute, ◌≡◌, ok, arith, sym}
use sgt.Delivery.Types.{Failure, DeliveryRecord, Deliveries}
use sgt.Delivery.Rows.{violates_index, insert_checked}
use sgt.Delivery.Ops.{call}
use sgt.Base.Keeps.{Keeps, Keeps-execute}
use sgt.Delivery.Sequence.{Call, deliver, replay, quarantine_call, run_call, run_calls}
use sgt.Delivery.Writes.{deliver_envelope-Keeps, replay_delivery-Keeps, quarantine_delivery-Keeps}
use mathlib.Core.List.{append_assoc, append-nil}

-- The rows so far are `base` and what was written since.
pub record Extends (base : List DeliveryRecord) (t : Deliveries) : Type 0 where
  pub new : List DeliveryRecord
  pub rows_eq : t.rows ≡ base ++ new

module _ (base : List DeliveryRecord) where
  insert_checked-Extends :
      (r : DeliveryRecord) (t : Deliveries)
      → Extends base t
      → (t' : Deliveries) → insert_checked r t ≡ ok t'
      → Extends base t'
  unfolding violates_index
  insert_checked-Extends r t h t' e = record {
    new = h.new ++ r ∷ [];
    rows_eq = ground (arith, h.rows_eq, append_assoc base h.new (r ∷ []));
  }

  execute-Extends : (r : DeliveryRecord) → Keeps (Extends base) (execute (insert_checked r))
  execute-Extends r = Keeps-execute (insert_checked r) (insert_checked-Extends r)

  call-Extends : (attempt : ℕ → Option Failure) → Keeps (Extends base) (call attempt)
  unfolding call
  call-Extends attempt = record { at = λ d h. record { new = h.new; rows_eq = h.rows_eq } }

  run_call-Extends : (c : Call) → Keeps (Extends base) (run_call c)
  unfolding run_call
  run_call-Extends (deliver attempt e c critical) =
      deliver_envelope-Keeps e c (λ r _. execute-Extends r) call-Extends attempt critical
  run_call-Extends (replay attempt e c) =
      replay_delivery-Keeps e c (λ r _. execute-Extends r) call-Extends attempt
  run_call-Extends (quarantine_call e c reason) =
      quarantine_delivery-Keeps e c (λ r _. execute-Extends r) call-Extends reason

  from_base :
      (cs : List Call) (d : Disk Deliveries) → Extends base d.db → Extends base (run_calls cs d).db
  unfolding run_calls
  from_base [] d h = h
  from_base (c ∷ cs) d h = from_base cs (run_call c d).1 ((run_call-Extends c).at d h)

-- The delivery table is append-only: the rows after any sequence of deliveries, replays and
-- quarantines are the rows before it, in place and unchanged, followed by new ones.
pub run_calls-Extends :
    (cs : List Call) (d : Disk Deliveries) → Extends d.db.rows (run_calls cs d).db
run_calls-Extends cs d =
    from_base d.db.rows cs d (record { new = []; rows_eq = sym (append-nil d.db.rows) })
