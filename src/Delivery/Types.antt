-- ===== src/Delivery/Types.antt =====
-- internal/store/delivery.go: the rows of the delivery table and the classes of errors.
--
-- The table is the list of its rows in insertion order, which is the order of `created_at`.
use sgt.Base.{ℕ, String, Bool, ◌||◌, Option, none, some, List, if◌then◌else◌}

pub data State : Type 0 where
  pending retrying delivered failed leased acknowledged dead_letter quarantined : State

pub data ErrorClass : Type 0 where
  no_class filesystem cancelled unknown quarantine : ErrorClass

-- An error that an attempt returns: its text, and what `errors.Is` and `errors.As` say of it.
pub record Failure : Type 0 where
  pub message : String
  pub is_canceled : Bool
  pub is_deadline_exceeded : Bool
  pub is_path_error : Bool
  pub is_not_exist : Bool
  pub is_permission : Bool

-- What the recovery instructions name.
pub record Recovery : Type 0 where
  pub consumer : String
  pub attempts : ℕ
  pub class : ErrorClass

pub record DeliveryRecord : Type 0 where
  -- The envelope and the clock reading of which the id is made.
  pub id : String × ℕ
  pub envelope_id : String
  pub consumer : String
  pub state : State
  pub attempt : ℕ
  pub next_attempt_at : Option ℕ
  pub error : String
  pub error_class : ErrorClass
  pub recovery_instructions : Option Recovery
  pub idempotency_key : String
  pub created_at : ℕ
  pub updated_at : ℕ

-- The table, and the number of attempts made so far.
pub record Deliveries : Type 0 where
  pub rows : List DeliveryRecord
  pub calls : ℕ

abbrev pub delivery_max_attempts : ℕ
delivery_max_attempts = 3

unfoldable pub classify_delivery_error : Option Failure → ErrorClass
classify_delivery_error none = no_class
classify_delivery_error (some f) =
    if f.is_canceled || f.is_deadline_exceeded
    then cancelled
    else if f.is_path_error || f.is_not_exist || f.is_permission
    then filesystem
    else unknown
