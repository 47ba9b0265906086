-- ===== src/Delivery/Errors.antt =====
-- internal/store/delivery.go: the errors that DeliverEnvelope can return.
use sgt.Base.{
  ℕ, zero, suc, ◌+◌, ◌-◌, String, Bool, true, false, Option, none, some, List, [], ◌∷◌,
  if◌then◌else◌, not, ltb, Err, db_failure, attempt_failed, unique_violation, Result, ok, err, Disk,
  Exec, pure, select, ◌>>=◌, on_error, continue, branch, answer, execute, refl, ◌≡◌, inl, inr,
  Bool-cases,
}
use mathlib.Core.Path.{subst}
use sgt.Delivery.Types.{
  State, pending, delivered, retrying, dead_letter, classify_delivery_error, Failure,
  DeliveryRecord, Deliveries, Recovery, delivery_max_attempts,
}
use sgt.Delivery.Rows.{
  insert_checked, insert_delivery_row, violates_index, new_row, recovery_instructions,
  is_already_terminal_success,
}
use sgt.Delivery.Ops.{
  call, error_of, returned, conclude, round, retry_rounds, deliver_retry_loop, deliver_envelope,
}

-- The database refused a statement, its unique index refused a row, or an attempt failed.
abbrev pub DeliveryError : Err → Type 0
DeliveryError db_failure = Unit
DeliveryError (unique_violation _) = Unit
DeliveryError (attempt_failed _) = Unit
DeliveryError _ = ⊥

abbrev Meets : {A : Type 0} → (A → Type 0) → Result A → Type 0
Meets Q (ok a) = Q a
Meets Q (err e) = DeliveryError e

-- Its results are such, and its errors are those of a delivery.
record Answers {A : Type 0} (Q : A → Type 0) (m : Exec Deliveries A) : Type 0 where
  at : (d : Disk Deliveries) → Meets Q (m d).0

abbrev Always : {A : Type 0} → A → Type 0
Always _ = Unit

Answers-pure : {A : Type 0} (Q : A → Type 0) (a : A) → Q a → Answers Q (pure a)
Answers-pure Q a q = record { at = λ d. q }

Answers-bind :
    {A B : Type 0} (P : A → Type 0) (Q : B → Type 0) (m : Exec Deliveries A)
    (f : A → Exec Deliveries B)
    → Answers P m
    → ((a : A) → P a → Answers Q (f a))
    → Answers Q (m >>= f)
Answers-bind {A} {B} P Q m f s t = record { at = λ d. let (r, d') = m d in go r d' (s.at d) }
  where
    go : (r : Result A) (d' : Disk Deliveries) → Meets P r → Meets Q (continue r f d').0
    go (ok a) d' h = (t a h).at d'
    go (err e) d' h = h

Answers-on_error :
    {A B : Type 0} (Q : B → Type 0) (m : Exec Deliveries A) (f : Err → Exec Deliveries B)
    (g : A → Exec Deliveries B)
    → Answers Always m
    → ((e : Err) → DeliveryError e → Answers Q (f e))
    → ((a : A) → Answers Q (g a))
    → Answers Q (on_error m f g)
Answers-on_error {A} Q m f g s kf kg = record { at = λ d. let (r, d') = m d in go r d' (s.at d) }
  where
    go : (r : Result A) (d' : Disk Deliveries) → Meets Always r → Meets Q (branch r f g d').0
    go (ok a) d' h = (kg a).at d'
    go (err e) d' h = (kf e h).at d'

Answers-if :
    {A : Type 0} (Q : A → Type 0) (b : Bool) (m n : Exec Deliveries A)
    → Answers Q m
    → Answers Q n
    → Answers Q (if b then m else n)
Answers-if Q true m n k l = k
Answers-if Q false m n k l = l

Answers-select : {A : Type 0} (f : Deliveries → A) → Answers Always (select f)
Answers-select f = record { at = λ d. go d d.faults }
  where
    go : (d : Disk Deliveries) (fs : List Bool) → Meets Always (answer fs (f d.db) d).0
    go d [] = tt
    go d (false ∷ fs) = tt
    go d (true ∷ fs) = tt

Answers-insert : (row : DeliveryRecord) → Answers Always (execute (insert_checked row))
Answers-insert row = record { at = λ d. go d d.faults refl }
  where
    go :
        (d : Disk Deliveries) (fs : List Bool)
        → d.faults ≡ fs
        → Meets Always (execute (insert_checked row) d).0
    go d [] e = elim (Bool-cases (violates_index row d.db.rows)) [
      | inl v ↦ rw (e, v) tt
      | inr v ↦ rw (e, v) tt
    ]
    go d (false ∷ fs) e = elim (Bool-cases (violates_index row d.db.rows)) [
      | inl v ↦ rw (e, v) tt
      | inr v ↦ rw (e, v) tt
    ]
    go d (true ∷ fs) e = rw e tt

-- What the loop of the rounds returns.
abbrev Outcome : Option Err × Bool → Type 0
Outcome (none, exhausted) = Unit
Outcome (some e, exhausted) = DeliveryError e

module _ (attempt : ℕ → Option Failure) (envelope_id consumer : String) where
  insert_delivery_row-Answers :
      (state : State) (n : ℕ) (failure : Option Failure) (next : Option ℕ)
      (recovery : Option Recovery)
      → Answers Always (insert_delivery_row envelope_id consumer state n failure next recovery)
  unfolding insert_delivery_row
  insert_delivery_row-Answers state n failure next recovery = record {
    at = λ d.
        (Answers-insert
            (new_row envelope_id consumer state n failure next recovery d.now (d.now + 1))).at
          (record d { now = d.now + 1 + 1 });
  }

  round-Answers :
      (local_max n : ℕ) (outcome : Option Failure)
      (continue_loop : Exec Deliveries (Option Err × Bool))
      → Answers Outcome continue_loop
      → Answers Outcome (round attempt envelope_id consumer local_max n outcome continue_loop)
  unfolding round
  round-Answers local_max n none continue_loop h =
      Answers-on_error Outcome _ _ _ (insert_delivery_row-Answers delivered n none none none)
        (λ e q. Answers-pure Outcome (some e, false) q) (λ _. Answers-pure Outcome (none, false) tt)
  round-Answers local_max n (some failure) continue_loop h =
      Answers-if Outcome (ltb n local_max) _ _
        (record {
          at = λ d.
              (Answers-on_error Outcome _ _ _
                  (insert_delivery_row-Answers retrying (n + 1) (some failure) (some d.now) none)
                  (λ e q. Answers-pure Outcome (some e, false) q) (λ _. h)).at
                (record d { now = d.now + 1 });
        })
        (Answers-on_error Outcome _ _ _
          (insert_delivery_row-Answers dead_letter n (some failure) none
            (some (recovery_instructions consumer n (classify_delivery_error (some failure)))))
          (λ e q. Answers-pure Outcome (some e, false) q)
          (λ _. Answers-pure Outcome (some (attempt_failed failure.message), true) tt))

  error_of-Outcome : (outcome : Option Failure) → Outcome (error_of outcome, true)
  unfolding error_of
  error_of-Outcome none = tt
  error_of-Outcome (some f) = tt

  retry_rounds-Answers :
      (left local_max n : ℕ) (last : Option Err)
      → Outcome (last, true)
      → Answers Outcome (retry_rounds attempt envelope_id consumer left local_max n last)
  unfolding retry_rounds call
  retry_rounds-Answers zero local_max n last h = Answers-pure Outcome (last, true) h
  retry_rounds-Answers (suc left) local_max n last h = record {
    at = λ d.
        let outcome = attempt d.db.calls in
        (round-Answers local_max n outcome
            (retry_rounds attempt envelope_id consumer left local_max (n + 1) (error_of outcome))
            (retry_rounds-Answers left local_max (n + 1) (error_of outcome)
              (error_of-Outcome outcome))).at
          (record d { db = record d.db { calls = d.db.calls + 1 } });
  }

  returned-Answers : (o : Option Err) (b : Bool) → Outcome (o, b) → Answers Always (returned o)
  unfolding returned
  returned-Answers none b h = Answers-pure Always tt tt
  returned-Answers (some e) b h = record { at = λ d. h }

  conclude-Answers :
      (critical : Bool) (o : Option Err × Bool) → Outcome o → Answers Always (conclude critical o)
  unfolding conclude
  conclude-Answers critical (last, exhausted) h =
      Answers-if Always (not exhausted) _ _ (returned-Answers last exhausted h) (
        Answers-if Always critical _ _ (returned-Answers last exhausted h)
          (Answers-pure Always tt tt))

  -- Every error of a delivery is a refused statement, a violated index, or a failed attempt.
  pub deliver_envelope-DeliveryError :
      (critical : Bool) (d : Disk Deliveries) (e : Err)
      → (deliver_envelope attempt envelope_id consumer critical d).0 ≡ err e
      → DeliveryError e
  unfolding deliver_envelope is_already_terminal_success deliver_retry_loop
  deliver_envelope-DeliveryError critical d e h =
      let whole : Answers Always (deliver_envelope attempt envelope_id consumer critical) =
        Answers-bind Always Always _ _ (Answers-select _) (λ already _.
          Answers-if Always already _ _ (Answers-pure Always tt tt) (
            Answers-bind Always Always _ _ (insert_delivery_row-Answers pending 1 none none none)
              (λ _ _.
                Answers-bind Outcome Always _ _
                  (retry_rounds-Answers delivery_max_attempts (1 + delivery_max_attempts - 1) 1 none
                    tt)
                  (conclude-Answers critical)))) in
      subst (Meets Always) h (whole.at d)
