-- ===== src/Store/Methods.antt =====
-- internal/store: the methods on runs, phases and envelopes keep the tables well-formed.
use sgt.Base.{
  ℕ, String, List, [], ◌∷◌, str_eq, empty_field, pure, ◌>>◌, execute, refl, not, inl, inr,
  Option-cases,
}
use sgt.Store.Types.{
  RunStatus, BulletStatus, intent_status_eq, RunRecord, PhaseRecord, BulletRecord, EnvelopeRecord,
  Tables,
}
use sgt.Base.Keeps.{
  Keeps, keeps_rules, Keeps-execute, Keeps-pure, Keeps-raise, Keeps-if, Keeps-bind, Keeps-then,
  Keeps-select, Keeps-time_now,
}
use sgt.Base.Keys.{filterb-Apart, snoc-Apart, any-filterb-not}
use sgt.Store.Rows.{get_run, get_intent, list_bullets_for_intent}
use sgt.Store.Bullets.{update_intent_status, update_bullet_status_and_reason}
use sgt.Store.Advance.{
  derive_intent_status, recompute_intent_status, advance_each, is_at, advance_bullets_for_run,
  seal_first, seal_bullet_for_run,
}
use sgt.Store.Runs.{
  delete_row, assign_slug, run_insert, create_run, update_run_status, set_run_base_branch,
  delete_run, has_id,
}
use sgt.Store.Phases.{
  replace_phase, touch_run, record_phase, missing_field, publish, record_envelope,
}
use sgt.Store.WellFormed.{
  WellFormed, runs-WellFormed, phases-WellFormed, envelopes-WellFormed, update_runs-WellFormed,
  run_insert-WellFormed,
}
use sgt.Store.Writes.{
  Keeps-write, Keeps-counted, record_transition-Keeps, require_one_row-Keeps, one_row-Keeps,
  update_runs-Keeps, envelope_insert-WellFormed, update_intent_status-Keeps,
  update_bullet_status-Keeps, update_bullet_status_and_reason-Keeps,
}

get_run-Keeps : (id : String) → Keeps WellFormed (get_run id)
unfolding get_run
get_run-Keeps id = Keeps-bind _ _ (Keeps-select _) one_row-Keeps

get_intent-Keeps : (id : String) → Keeps WellFormed (get_intent id)
unfolding get_intent
get_intent-Keeps id = Keeps-bind _ _ (Keeps-select _) one_row-Keeps

recompute_intent_status-Keeps : (id : String) → Keeps WellFormed (recompute_intent_status id)
unfolding recompute_intent_status list_bullets_for_intent
recompute_intent_status-Keeps id = Keeps-bind _ _ (get_intent-Keeps id) (λ i.
    Keeps-bind _ _ (Keeps-select _) (λ bs.
      let derived = derive_intent_status bs in
      Keeps-if (intent_status_eq derived i.status) (pure derived)
        (update_intent_status id derived >> pure derived) (λ _. Keeps-pure derived)
        (λ _. Keeps-then _ _ (update_intent_status-Keeps id derived) (Keeps-pure derived))))

advance_each-Keeps :
    (s : BulletStatus) (reason : String) (bs : List BulletRecord)
    → Keeps WellFormed (advance_each s reason bs)
unfolding advance_each
advance_each-Keeps s reason [] = Keeps-pure tt
advance_each-Keeps s reason (b ∷ bs) =
    let rest = advance_each-Keeps s reason bs in
    let write = update_bullet_status_and_reason-Keeps b.id s reason in
    Keeps-if (is_at s reason b) (advance_each s reason bs)
      (update_bullet_status_and_reason b.id s reason >> advance_each s reason bs) (λ _. rest)
      (λ _. Keeps-then _ _ write rest)

pub advance_bullets_for_run-Keeps :
    (id : String) (s : BulletStatus) (reason : String)
    → Keeps WellFormed (advance_bullets_for_run id s reason)
unfolding advance_bullets_for_run list_bullets_for_intent
advance_bullets_for_run-Keeps id s reason =
    search (keeps_rules, get_run-Keeps, advance_each-Keeps, recompute_intent_status-Keeps) depth 9

seal_first-Keeps :
    (id repo : String) (bs : List BulletRecord) → Keeps WellFormed (seal_first id repo bs)
unfolding seal_first
seal_first-Keeps id repo [] = Keeps-raise _
seal_first-Keeps id repo (b ∷ bs) =
    search (keeps_rules, seal_first-Keeps id repo bs, update_bullet_status-Keeps)

pub seal_bullet_for_run-Keeps : (id repo : String) → Keeps WellFormed (seal_bullet_for_run id repo)
unfolding seal_bullet_for_run list_bullets_for_intent
seal_bullet_for_run-Keeps id repo = search (keeps_rules, get_run-Keeps, seal_first-Keeps)

inserted : (r : RunRecord) → Keeps WellFormed (execute (run_insert r))
inserted r = Keeps-execute (run_insert r) (λ t h t' e. run_insert-WellFormed t h r t' e)

pub create_run-Keeps :
    (digest : String → ℕ) (numbered : String → ℕ → String) (trim : String → String) (r : RunRecord)
    → Keeps WellFormed (create_run digest numbered trim r)
unfolding create_run assign_slug
create_run-Keeps digest numbered trim r = search (keeps_rules, record_transition-Keeps, inserted)

pub update_run_status-Keeps :
    (id : String) (s : RunStatus) → Keeps WellFormed (update_run_status id s)
unfolding update_run_status
update_run_status-Keeps id s =
    let write = λ (now : ℕ).
      update_runs-Keeps id (λ r. record r { status = s; updated_at = now }) (λ _. refl)
        (λ _. refl) in
    search (keeps_rules, record_transition-Keeps, write)

pub set_run_base_branch-Keeps :
    (id branch : String) → Keeps WellFormed (set_run_base_branch id branch)
unfolding set_run_base_branch
set_run_base_branch-Keeps id branch =
    let write = λ (now : ℕ).
      update_runs-Keeps id (λ r. record r { base_branch = branch; updated_at = now }) (λ _. refl)
        (λ _. refl) in
    search (keeps_rules, require_one_row-Keeps, write)

delete_row-Keeps : (id : String) → Keeps WellFormed (delete_row id)
unfolding delete_row
delete_row-Keeps id = Keeps-counted _ _ (λ t h.
    runs-WellFormed t h _ (filterb-Apart _ (λ r. not (has_id id r)) t.runs h.runs)
      (filterb-Apart _ (λ r. not (has_id id r)) t.runs h.requests))

pub delete_run-Keeps : (id : String) → Keeps WellFormed (delete_run id)
unfolding delete_run
delete_run-Keeps id =
    Keeps-then _ _
      (Keeps-write _ (λ t h. phases-WellFormed t h _ (filterb-Apart _ _ t.phases h.phases)))
      (Keeps-then _ _
        (Keeps-write _
          (λ t h. envelopes-WellFormed t h _ (filterb-Apart _ _ t.envelopes h.envelopes)))
        (search (keeps_rules, record_transition-Keeps, delete_row-Keeps)))

replace_phase-WellFormed :
    (p : PhaseRecord) (t : Tables) → WellFormed t → WellFormed (replace_phase p t)
unfolding replace_phase
replace_phase-WellFormed p t h = phases-WellFormed t h _ (
    snoc-Apart (λ a b. str_eq a.id b.id) p _ (any-filterb-not (λ a b. str_eq a.id b.id) p t.phases)
      (filterb-Apart _ (λ q. not (str_eq q.id p.id)) t.phases h.phases))

touch_run-WellFormed :
    (id : String) (now : ℕ) (t : Tables) → WellFormed t → WellFormed (touch_run id now t)
unfolding touch_run
touch_run-WellFormed id now t h =
    update_runs-WellFormed t h id (λ r. record r { updated_at = now }) (λ _. refl) (λ _. refl)

pub record_phase-Keeps :
    (rt rj : String → String) (p : PhaseRecord) → Keeps WellFormed (record_phase rt rj p)
unfolding record_phase
record_phase-Keeps rt rj p = Keeps-bind _ _ Keeps-time_now (λ now.
    Keeps-then _ _ (Keeps-write _ (replace_phase-WellFormed _)) (
      Keeps-then _ _ (Keeps-write _ (touch_run-WellFormed p.run_id now))
        (record_transition-Keeps _ _ _)))

publish-Keeps : (rt rj : String → String) (e : EnvelopeRecord) → Keeps WellFormed (publish rt rj e)
unfolding publish
publish-Keeps rt rj e = Keeps-bind _ _ Keeps-time_now (λ now.
    Keeps-then _ _ (Keeps-execute _ (envelope_insert-WellFormed _)) (record_transition-Keeps _ _ _))

pub record_envelope-Keeps :
    (rt rj : String → String) (e : EnvelopeRecord) → Keeps WellFormed (record_envelope rt rj e)
unfolding record_envelope
record_envelope-Keeps rt rj e = elim (Option-cases (missing_field e)) [
  | inl q ↦ rw (record_envelope, q) (publish-Keeps rt rj e)
  | inr (field, q) ↦ rw (record_envelope, q) (Keeps-raise (empty_field field))
]
