-- ===== src/Delivery/Finality.antt =====
-- internal/store/delivery.go: the operations keep the histories settled.
use sgt.Base.{
  ℕ, zero, suc, ◌+◌, ◌-◌, String, Bool, false, Option, none, some, [], ◌∷◌, ◌++◌, ltb, any, Err,
  Exec, ◌>>=◌, ◌>>◌, execute, refl, ◌≡◌, ok, ltb, not, arith, any-append, Bool-cases, inl, inr,
}
use sgt.Delivery.Types.{
  State, pending, retrying, delivered, dead_letter, Failure, Recovery, DeliveryRecord, Deliveries,
}
use sgt.Delivery.Rows.{
  delivery_idempotency_key, is_success, success_row, violates_index, insert_checked,
  insert_delivery_row, insert_delivery_row_quarantined, is_already_terminal_success, new_row,
  quarantined_row,
}
use sgt.Delivery.Ops.{
  call, error_of, returned, conclude, round, retry_rounds, deliver_retry_loop, deliver_envelope,
}
use sgt.Base.Keeps.{Keeps, Keeps-execute, Keeps-time_now, Keeps-pure, Keeps-raise}
use sgt.Base.Leads.{
  Leads, Leads-Keeps, Leads-bind, Leads-then, Leads-on_error, Leads-select, Leads-execute, Leads-if,
}
use sgt.Delivery.Quiet.{Unfinished}
use sgt.Delivery.Settled.{Settled, Settled-append}

-- Settled, and the key has no success yet.
pub record Ready (key : String) (t : Deliveries) : Type 0 where
  pub settled : Settled t
  pub unfinished : Unfinished key t.rows

inserted :
    (r : DeliveryRecord) (t t' : Deliveries)
    → insert_checked r t ≡ ok t'
    → t' ≡ record t { rows = t.rows ++ r ∷ [] }
unfolding violates_index
inserted r t t' e = ground arith

module _ (envelope_id consumer : String) where
  abbrev pub key : String
  key = delivery_idempotency_key envelope_id consumer

  row-Settled :
      (r : DeliveryRecord)
      → r.idempotency_key ≡ key
      → Leads (Ready key) Settled (execute (insert_checked r))
  row-Settled r k =
      Leads-execute (insert_checked r) (λ t h. h.settled)
        (λ t h t' e. rw (inserted r t t' e) (Settled-append r t (rw k h.unfinished) h.settled))

  row-Ready :
      (r : DeliveryRecord)
      → r.idempotency_key ≡ key
      → is_success r.state ≡ false
      → Keeps (Ready key) (execute (insert_checked r))
  unfolding success_row
  row-Ready r k q = Keeps-execute (insert_checked r) (λ t h t' e. rw (inserted r t t' e) (record {
    settled = Settled-append r t (rw k h.unfinished) h.settled;
    unfinished = ground (arith, any-append (success_row key) t.rows (r ∷ []), h.unfinished);
  }))

  insert-Settled :
      (s : State) (n : ℕ) (f : Option Failure) (next : Option ℕ) (i : Option Recovery)
      → Leads (Ready key) Settled (insert_delivery_row envelope_id consumer s n f next i)
  unfolding insert_delivery_row new_row
  insert-Settled s n f next i = record {
    at = λ d h.
        (row-Settled (new_row envelope_id consumer s n f next i d.now (d.now + 1)) refl).at
          (record d { now = d.now + 1 + 1 }) h;
  }

  insert-Ready :
      (s : State) (n : ℕ) (f : Option Failure) (next : Option ℕ) (i : Option Recovery)
      → is_success s ≡ false
      → Keeps (Ready key) (insert_delivery_row envelope_id consumer s n f next i)
  unfolding insert_delivery_row new_row
  insert-Ready s n f next i e = record {
    at = λ d h.
        (row-Ready (new_row envelope_id consumer s n f next i d.now (d.now + 1)) refl e).at
          (record d { now = d.now + 1 + 1 }) h;
  }

  pub quarantined-Settled :
      (reason : String)
      → Leads (Ready key) Settled (insert_delivery_row_quarantined envelope_id consumer reason)
  unfolding insert_delivery_row_quarantined quarantined_row
  quarantined-Settled reason = record {
    at = λ d h.
        (row-Settled (quarantined_row envelope_id consumer reason d.now (d.now + 1)) refl).at
          (record d { now = d.now + 1 + 1 }) h;
  }

  round-Settled :
      (attempt : ℕ → Option Failure) (local_max n : ℕ) (outcome : Option Failure)
      (rest : Exec Deliveries (Option Err × Bool))
      → Leads (Ready key) Settled rest
      → Leads (Ready key) Settled (round attempt envelope_id consumer local_max n outcome rest)
  unfolding round
  round-Settled attempt local_max n none rest k =
      Leads-on_error _ _ _ (insert-Settled delivered n none none none)
        (λ e. Leads-Keeps (Keeps-pure _) (λ t h. h)) (λ _. Leads-Keeps (Keeps-pure _) (λ t h. h))
  round-Settled attempt local_max n (some f) rest k =
      Leads-if (ltb n local_max) _ _
        (λ _.
          Leads-bind _ _ (Leads-Keeps {Q = Ready key} Keeps-time_now (λ t h. h)) (λ t h. h.settled)
            (λ now.
              Leads-on_error _ _ _
                (Leads-Keeps {Q = Ready key}
                  (insert-Ready retrying (n + 1) (some f) (some now) none
                    (unfold is_success in refl))
                  (λ t h. h))
                (λ e. Leads-Keeps (Keeps-pure _) (λ t h. h.settled)) (λ _. k)))
        (λ _.
          Leads-on_error _ _ _ (insert-Settled dead_letter n (some f) none _)
            (λ e. Leads-Keeps (Keeps-pure _) (λ t h. h))
            (λ _. Leads-Keeps (Keeps-pure _) (λ t h. h)))

  call-Ready : (attempt : ℕ → Option Failure) → Keeps (Ready key) (call attempt)
  unfolding call
  call-Ready attempt = record {
    at =
        λ d h. record { settled = record { at_key = h.settled.at_key }; unfinished = h.unfinished };
  }

  retry_rounds-Settled :
      (attempt : ℕ → Option Failure) (left local_max n : ℕ) (last : Option Err)
      → Leads (Ready key) Settled (retry_rounds attempt envelope_id consumer left local_max n last)
  unfolding retry_rounds
  retry_rounds-Settled attempt zero local_max n last = Leads-Keeps (Keeps-pure _) (λ t h. h.settled)
  retry_rounds-Settled attempt (suc left) local_max n last =
      Leads-bind _ _ (Leads-Keeps {Q = Ready key} (call-Ready attempt) (λ t h. h))
        (λ t h. h.settled)
        (λ o.
          round-Settled attempt local_max n o _
            (retry_rounds-Settled attempt left local_max (n + 1) (error_of o)))

  pub returned-Settled : (o : Option Err) → Leads Settled Settled (returned o)
  unfolding returned
  returned-Settled none = Leads-Keeps (Keeps-pure tt) (λ t h. h)
  returned-Settled (some e) = Leads-Keeps (Keeps-raise e) (λ t h. h)

  conclude-Settled :
      (critical : Bool) (o : Option Err × Bool) → Leads Settled Settled (conclude critical o)
  unfolding conclude
  conclude-Settled critical o =
      Leads-if (not o.1) _ _ (λ _. returned-Settled o.0)
        (λ _.
          Leads-if critical _ _ (λ _. returned-Settled o.0)
            (λ _. Leads-Keeps (Keeps-pure tt) (λ t h. h)))

  -- A delivery that starts from its pending row.
  pub started-Settled :
      (attempt : ℕ → Option Failure) (n : ℕ) (k : Option Err × Bool → Exec Deliveries (Unit {0}))
      → ((o : Option Err × Bool) → Leads Settled Settled (k o))
      → Leads (Ready key) Settled (do
        insert_delivery_row envelope_id consumer pending n none none none
        outcome ← deliver_retry_loop attempt envelope_id consumer n
        k outcome)
  unfolding deliver_retry_loop
  started-Settled attempt n k kept =
      Leads-then _ _
        (Leads-Keeps {Q = Ready key}
          (insert-Ready pending n none none none (unfold is_success in refl)) (λ t h. h))
        (λ t h. h.settled)
        (Leads-bind _ _ (retry_rounds-Settled attempt 3 (n + 3 - 1) n none) (λ t h. h) kept)

  pub deliver_envelope-Settled :
      (attempt : ℕ → Option Failure) (critical : Bool)
      → Leads Settled Settled (deliver_envelope attempt envelope_id consumer critical)
  unfolding deliver_envelope is_already_terminal_success
  deliver_envelope-Settled attempt critical =
      Leads-select (λ t. any (success_row key) t.rows) _ (λ t h. h)
        (λ t h d e. elim (Bool-cases (any (success_row key) t.rows)) [
          | inl q ↦ rw (q, e) h
          | inr q ↦ rw q (
              (started-Settled attempt 1 (conclude critical) (conclude-Settled critical)).at d
                (rw e (record { settled = h; unfinished = q })))
        ])
