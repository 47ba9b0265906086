-- ===== src/Delivery/Sequence.antt =====
-- internal/store/delivery.go: any sequence of deliveries, replays and quarantines, of any keys,
-- whichever statements the database refuses and whatever the attempts return.
use sgt.Base.{
  ℕ, ◌+◌, String, Bool, Option, none, some, List, [], ◌∷◌, filterb, last?, Disk, Exec, refl, ◌≡◌,
  sym, ◌∙◌,
}
use sgt.Delivery.Types.{State, delivered, acknowledged, dead_letter, Failure, Deliveries}
use sgt.Delivery.Rows.{
  delivery_idempotency_key, is_success, has_key, state_of, latest_delivery_state,
  has_dead_letter_row, list_delivery_history,
}
use sgt.Delivery.Ops.{
  returned, max_attempt, deliver_envelope, replay_permitted, replay_resolved, replay_dispatch,
  replay_delivery, quarantine_dispatch, quarantine_delivery,
}
use sgt.Base.Keeps.{Keeps, keeps_rules}
use sgt.Base.Leads.{Leads, Leads-select}
use sgt.Delivery.Quiet.{Unfinished}
use sgt.Delivery.Settled.{Settled, Unfinished-latest}
use sgt.Delivery.Finality.{
  Ready, started-Settled, returned-Settled, quarantined-Settled, deliver_envelope-Settled,
}

-- A call of the store, with what the attempts that it makes return.
pub data Call : Type 0 where
  deliver : (ℕ → Option Failure) → String → String → Bool → Call
  replay : (ℕ → Option Failure) → String → String → Call
  quarantine_call : String → String → String → Call

unfoldable pub run_call : Call → Exec Deliveries (Unit {0})
run_call (deliver attempt envelope_id consumer critical) =
    deliver_envelope attempt envelope_id consumer critical
run_call (replay attempt envelope_id consumer) = replay_delivery attempt envelope_id consumer
run_call (quarantine_call envelope_id consumer reason) =
    quarantine_delivery envelope_id consumer reason

-- The state that a sequence of calls leaves, each call starting where the last one stopped,
-- also after an error.
unfoldable pub run_calls : List Call → Disk Deliveries → Disk Deliveries
run_calls [] d = d
run_calls (c ∷ cs) d = run_calls cs (run_call c d).1

module _ (envelope_id consumer : String) where
  abbrev key : String
  key = delivery_idempotency_key envelope_id consumer

  replay_permitted-Settled :
      (attempt : ℕ → Option Failure)
      → Leads (Ready key) Settled (replay_permitted attempt envelope_id consumer)
  unfolding replay_permitted list_delivery_history
  replay_permitted-Settled attempt =
      Leads-select (λ t. filterb (has_key key) t.rows) _ (λ t h. h.settled)
        (λ t h d e.
          (started-Settled envelope_id consumer attempt
              (max_attempt 0 (filterb (has_key key) t.rows) + 1) (λ o. returned o.0)
              (λ o. returned-Settled envelope_id consumer o.0)).at
            d (rw e h))

  unfinished :
      (t : Deliveries) (latest : Option State)
      → Settled t
      → latest ≡ state_of (last? (filterb (has_key key) t.rows))
      → latest ≡ some dead_letter
      → Unfinished key t.rows
  unfinished t latest h e q =
      Unfinished-latest key t dead_letter h (sym e ∙ q) (unfold is_success in refl)

  replay_dispatch-Settled :
      (attempt : ℕ → Option Failure) (latest : Option State) (d : Disk Deliveries)
      → latest ≡ state_of (last? (filterb (has_key key) d.db.rows))
      → Settled d.db
      → Settled (replay_dispatch attempt envelope_id consumer latest d).1.db
  unfolding replay_dispatch replay_resolved has_dead_letter_row
  replay_dispatch-Settled attempt none d e h = h
  replay_dispatch-Settled attempt (some dead_letter) d e h =
      (replay_permitted-Settled attempt).at d
        (record { settled = h; unfinished = unfinished d.db _ h e refl })
  replay_dispatch-Settled attempt (some delivered) d e h =
      let k : Keeps Settled (replay_resolved attempt envelope_id consumer) = search keeps_rules in
      k.at d h
  replay_dispatch-Settled attempt (some acknowledged) d e h =
      let k : Keeps Settled (replay_resolved attempt envelope_id consumer) = search keeps_rules in
      k.at d h
  replay_dispatch-Settled attempt (some _) d e h = h

  quarantine_dispatch-Settled :
      (reason : String) (latest : Option State) (d : Disk Deliveries)
      → latest ≡ state_of (last? (filterb (has_key key) d.db.rows))
      → Settled d.db
      → Settled (quarantine_dispatch envelope_id consumer reason latest d).1.db
  unfolding quarantine_dispatch
  quarantine_dispatch-Settled reason none d e h = h
  quarantine_dispatch-Settled reason (some dead_letter) d e h =
      (quarantined-Settled envelope_id consumer reason).at d
        (record { settled = h; unfinished = unfinished d.db _ h e refl })
  quarantine_dispatch-Settled reason (some _) d e h = h

pub run_call-Settled : (c : Call) → Leads Settled Settled (run_call c)
unfolding run_call replay_delivery quarantine_delivery latest_delivery_state
run_call-Settled (deliver attempt envelope_id consumer critical) =
    deliver_envelope-Settled envelope_id consumer attempt critical
run_call-Settled (replay attempt e c) =
    Leads-select _ _ (λ t h. h) (λ t h d q. replay_dispatch-Settled e c attempt _ d (rw q) (rw q h))
run_call-Settled (quarantine_call e c reason) =
    Leads-select _ _ (λ t h. h)
      (λ t h d q. quarantine_dispatch-Settled e c reason _ d (rw q) (rw q h))

-- No sequence of calls writes a row of a key after its terminal success row, if the table holds
-- none such to begin with.
pub run_calls-Settled :
    (cs : List Call) (d : Disk Deliveries) → Settled d.db → Settled (run_calls cs d).db
unfolding run_calls
run_calls-Settled [] d h = h
run_calls-Settled (c ∷ cs) d h = run_calls-Settled cs (run_call c d).1 ((run_call-Settled c).at d h)
