-- ===== src/Delivery/Examples.antt =====
-- Runs of internal/store/delivery.go at concrete inputs.
use sgt.Base.{
  ℕ, zero, suc, ◌+◌, String, true, false, Option, none, some, List, [], ◌∷◌, ◌++◌, filterb,
  replay_quarantined, refl, ◌≡◌, ok, err, quiet,
}
use sgt.Delivery.Types.{
  pending, retrying, delivered, dead_letter, Failure, Deliveries, classify_delivery_error,
}
use sgt.Delivery.Rows.{
  recovery_instructions, delivery_idempotency_key, delivery_id, is_success, has_key, success_row,
  violates_index, error_text, insert_delivery_row, is_already_terminal_success, state_of,
  is_dead_letter, new_row, quarantined_row,
}
use sgt.Delivery.Ops.{
  call, error_of, returned, conclude, round, retry_rounds, deliver_retry_loop, deliver_envelope,
  replay_delivery, quarantine_delivery,
}
use sgt.Delivery.Settled.{Settled}
use sgt.Delivery.Retry.{history}
use sgt.Delivery.Outcome.{Follows, Highest, deliver_envelope-outcome, replay_delivery-outcome}
use sgt.Delivery.Sequence.{
  Call, deliver, replay, quarantine_call, run_call, run_calls, run_calls-Settled,
}
use sgt.Delivery.AppendOnly.{Extends, run_calls-Extends}
use sgt.Delivery.Gates.{
  replay_delivery-verdict, quarantine_delivery-replay, verdict, latest, ever_dead,
}

abbrev disk_full : Failure
disk_full = record {
  message = "no space left on device";
  is_canceled = false;
  is_deadline_exceeded = false;
  is_path_error = true;
  is_not_exist = false;
  is_permission = false;
}

-- The second call succeeds.
abbrev flaky : ℕ → Option Failure
flaky zero = some disk_full
flaky (suc _) = none

abbrev broken : ℕ → Option Failure
broken _ = some disk_full

abbrev nothing : Deliveries
nothing = record { rows = []; calls = 0 }

abbrev k : String
k = delivery_idempotency_key "e1" "worktree"

deliver_envelope-outcome_example :
    Follows flaky "e1" "worktree" 1 true nothing
      (deliver_envelope flaky "e1" "worktree" true (quiet nothing 7))
deliver_envelope-outcome_example =
    deliver_envelope-outcome flaky "e1" "worktree" true nothing 7 refl

Settled-nothing : Settled nothing
Settled-nothing = record { at_key = λ _. tt }

abbrev dead : Deliveries
dead = (deliver_envelope broken "e1" "worktree" false (quiet nothing 7)).1.db

-- Three failures leave a dead letter, and a delivery that is not critical reports no error.
dead_letter_history :
    history k dead.rows ≡ (pending, 1) ∷ (retrying, 2) ∷ (retrying, 3) ∷ (dead_letter, 3) ∷ []
unfolding deliver_envelope is_already_terminal_success insert_delivery_row new_row violates_index
    success_row is_success has_key delivery_idempotency_key error_text delivery_id
    classify_delivery_error deliver_retry_loop retry_rounds call round recovery_instructions
    error_of conclude returned state_of is_dead_letter
dead_letter_history = refl

dead-latest : latest "e1" "worktree" dead ≡ some dead_letter
unfolding deliver_envelope is_already_terminal_success insert_delivery_row new_row violates_index
    success_row is_success has_key delivery_idempotency_key error_text delivery_id
    classify_delivery_error deliver_retry_loop retry_rounds call round recovery_instructions
    error_of conclude returned state_of is_dead_letter
dead-latest = refl

Settled-dead : Settled dead
unfolding run_calls run_call deliver_envelope is_already_terminal_success
Settled-dead =
    run_calls-Settled (deliver broken "e1" "worktree" false ∷ []) (quiet nothing 7) Settled-nothing

replay_delivery-outcome_example :
    (n : ℕ) × Highest n (filterb (has_key k) dead.rows)
    × Follows flaky "e1" "worktree"
        (n + 1)
        true
        dead
        (replay_delivery flaky "e1" "worktree" (quiet dead 40))
replay_delivery-outcome_example =
    replay_delivery-outcome flaky "e1" "worktree" dead 40 Settled-dead dead-latest

run_calls-Settled_example :
    Settled
      (run_calls
        (deliver broken "e1" "worktree" false ∷ replay flaky "e1" "worktree" ∷ [])
        (record { db = nothing; now = 7; faults = false ∷ false ∷ true ∷ [] })).db
run_calls-Settled_example =
    run_calls-Settled (deliver broken "e1" "worktree" false ∷ replay flaky "e1" "worktree" ∷ [])
      (record { db = nothing; now = 7; faults = false ∷ false ∷ true ∷ [] }) Settled-nothing

abbrev done : Deliveries
done = (deliver_envelope flaky "e1" "worktree" true (quiet nothing 7)).1.db

abbrev later : List Call
later =
    replay flaky "e1" "worktree"
    ∷ deliver broken "e2" "worktree" true
    ∷ quarantine_call "e1" "worktree" "no"
    ∷ []

run_calls-Extends_example : Extends dead.rows (run_calls later (quiet dead 50)).db
run_calls-Extends_example = run_calls-Extends later (quiet dead 50)

done-latest : latest "e1" "worktree" done ≡ some delivered
unfolding deliver_envelope is_already_terminal_success insert_delivery_row new_row violates_index
    success_row is_success has_key delivery_idempotency_key error_text delivery_id
    classify_delivery_error deliver_retry_loop retry_rounds call round recovery_instructions
    error_of conclude returned state_of is_dead_letter
done-latest = refl

replay_delivery-verdict_example :
    replay_delivery flaky "e1" "worktree" (quiet done 50)
    ≡ (verdict (latest "e1" "worktree" done) (ever_dead "e1" "worktree" done), quiet done 50)
replay_delivery-verdict_example =
    replay_delivery-verdict "e1" "worktree" flaky done 50 (λ e. cc (e, done-latest))

abbrev refused_later : List Call
refused_later =
    replay flaky "e1" "worktree"
    ∷ quarantine_call "e1" "worktree" "again"
    ∷ replay broken "e1" "worktree"
    ∷ []

quarantine_delivery-replay_example :
    let (r, d) = quarantine_delivery "e1" "worktree" "no" (quiet dead 50) in
    (r ≡ ok tt)
    × (d.db.rows ≡ dead.rows ++ quarantined_row "e1" "worktree" "no" 50 51 ∷ [])
    × (run_calls refused_later d ≡ d)
    × (replay_delivery flaky "e1" "worktree" (run_calls refused_later d)
        ≡ (err replay_quarantined, d))
quarantine_delivery-replay_example =
    quarantine_delivery-replay "e1" "worktree" refused_later flaky "no" dead 50 dead-latest
      ((refl, refl), ((refl, refl), ((refl, refl), tt)))
