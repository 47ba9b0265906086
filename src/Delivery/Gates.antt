-- ===== src/Delivery/Gates.antt =====
-- internal/store/delivery.go: when ReplayDelivery and QuarantineDelivery act, and when not.
use sgt.Base.{
  ℕ, ◌+◌, String, Bool, ◌&&◌, Option, none, some, List, [], ◌∷◌, ◌++◌, if◌then◌else◌, any, filterb,
  last?, replay_quarantined, not_dead_letter, no_delivery, refl, ◌≡◌, ok, err, Result, quiet, arith,
  filterb-append, last?-snoc, ◌∙◌, eq_true, ◌≢◌, ap, All,
}
use sgt.Delivery.Types.{
  State, delivered, acknowledged, dead_letter, quarantined, Failure, DeliveryRecord, Deliveries,
}
use sgt.Delivery.Rows.{
  delivery_idempotency_key, is_success, has_key, violates_index, insert_delivery_row_quarantined,
  state_of, latest_delivery_state, is_dead_letter, has_dead_letter_row, quarantined_row,
}
use sgt.Delivery.Ops.{
  replay_resolved, replay_dispatch, replay_delivery, quarantine_dispatch, quarantine_delivery,
}
use sgt.Delivery.Sequence.{Call, deliver, replay, quarantine_call, run_call, run_calls}

-- What a replay answers where it does not act, by the newest state of the key and whether its
-- history holds a dead letter.
abbrev pub verdict : Option State → Bool → Result (Unit {0})
verdict none _ = err no_delivery
verdict (some delivered) had_dead_letter = if had_dead_letter then ok tt else err not_dead_letter
verdict (some acknowledged) had_dead_letter = if had_dead_letter then ok tt else err not_dead_letter
verdict (some quarantined) _ = err replay_quarantined
verdict (some _) _ = err not_dead_letter

module _ (envelope_id consumer : String) where
  abbrev pub key : String
  key = delivery_idempotency_key envelope_id consumer

  -- The newest state of the key.
  abbrev pub latest : Deliveries → Option State
  latest t = state_of (last? (filterb (has_key key) t.rows))

  abbrev pub ever_dead : Deliveries → Bool
  ever_dead t = any (λ r. has_key key r && is_dead_letter r.state) t.rows

  dispatch-verdict :
      (attempt : ℕ → Option Failure) (l : Option State) (t : Deliveries) (now : ℕ)
      → l ≢ some dead_letter
      → replay_dispatch attempt envelope_id consumer l (quiet t now)
        ≡ (verdict l (ever_dead t), quiet t now)
  unfolding replay_dispatch replay_resolved has_dead_letter_row
  dispatch-verdict attempt none t now ne = refl
  dispatch-verdict attempt (some dead_letter) t now ne = absurd (ne refl)
  dispatch-verdict attempt (some delivered) t now ne = ground arith
  dispatch-verdict attempt (some acknowledged) t now ne = ground arith
  dispatch-verdict attempt (some _) t now ne = refl

  -- A replay of a key whose newest row is no dead letter makes no attempt and leaves the table
  -- as it is. It answers with no error exactly if the newest row is a terminal success
  -- and the history holds a dead letter; every other answer names its refusal. The database is
  -- taken to refuse no statement.
  pub replay_delivery-verdict :
      (attempt : ℕ → Option Failure) (t : Deliveries) (now : ℕ)
      → latest t ≢ some dead_letter
      → replay_delivery attempt envelope_id consumer (quiet t now)
        ≡ (verdict (latest t) (ever_dead t), quiet t now)
  unfolding replay_delivery latest_delivery_state
  replay_delivery-verdict attempt t now ne = dispatch-verdict attempt (latest t) t now ne

  latest-quarantined :
      (reason : String) (rows : List DeliveryRecord) (calls n m : ℕ)
      → latest (record {
        rows = rows ++ quarantined_row envelope_id consumer reason n m ∷ [];
        calls = calls;
      })
        ≡ some quarantined
  unfolding quarantined_row has_key state_of
  latest-quarantined reason rows calls n m =
      rw (filterb-append, eq_true key key refl) (rw last?-snoc refl)

  -- A replay or a quarantine of the key.
  abbrev pub Refused : Call → Type 0
  Refused (deliver _ _ _ _) = ⊥
  Refused (replay _ e c) = (e ≡ envelope_id) × (c ≡ consumer)
  Refused (quarantine_call e c _) = (e ≡ envelope_id) × (c ≡ consumer)

  run_call-Refused :
      (c : Call) (t : Deliveries) (now : ℕ)
      → latest t ≡ some quarantined
      → Refused c
      → (run_call c (quiet t now)).1 ≡ quiet t now
  unfolding run_call quarantine_delivery latest_delivery_state quarantine_dispatch
  run_call-Refused (deliver _ _ _ _) t now l h = absurd h
  run_call-Refused (replay attempt e c) t now l (p, q) =
      rw (p, q) (ap (λ z. z.1) (replay_delivery-verdict attempt t now (λ dead. cc (dead, l))))
  run_call-Refused (quarantine_call e c reason) t now l (p, q) = rw (p, q, l) refl

  run_calls-Refused :
      (cs : List Call) (t : Deliveries) (now : ℕ)
      → latest t ≡ some quarantined
      → All Refused cs
      → run_calls cs (quiet t now) ≡ quiet t now
  unfolding run_calls
  run_calls-Refused [] t now l h = refl
  run_calls-Refused (c ∷ cs) t now l h =
      ap (λ d. run_calls cs d) (run_call-Refused c t now l h.0) ∙ run_calls-Refused cs t now l h.1

  -- While the database refuses no statement, a quarantine of a dead letter appends one quarantined row
  -- with the operator's reason. After it, replays and further quarantines of the key, as many as there
  -- are and in any order, make no attempt and write nothing, and a replay is then refused as quarantined.
  pub quarantine_delivery-replay :
      (later : List Call) (attempt : ℕ → Option Failure) (reason : String) (t : Deliveries)
      (now : ℕ)
      → latest t ≡ some dead_letter
      → All Refused later
      → let (r, d) = quarantine_delivery envelope_id consumer reason (quiet t now) in
        (r ≡ ok tt)
        × (d.db.rows ≡ t.rows ++ quarantined_row envelope_id consumer reason now (now + 1) ∷ [])
        × (run_calls later d ≡ d)
        × (replay_delivery attempt envelope_id consumer (run_calls later d)
            ≡ (err replay_quarantined, d))
  unfolding quarantine_delivery latest_delivery_state quarantine_dispatch
      insert_delivery_row_quarantined violates_index is_success quarantined_row
  quarantine_delivery-replay later attempt reason t now l h =
      let t' : Deliveries = record t {
        rows = t.rows ++ quarantined_row envelope_id consumer reason now (now + 1) ∷ [];
      } in
      let q = latest-quarantined reason t.rows t.calls now (now + 1) in
      let same = run_calls-Refused later t' (now + 1 + 1) q h in
      let replayed =
        replay_delivery-verdict attempt t' (now + 1 + 1) (λ e. cc (e, q)) ∙ rw q refl in
      rw l
        (refl, refl, same, ap (λ d. replay_delivery attempt envelope_id consumer d) same ∙ replayed)
