-- ===== src/Server/Shipping.antt =====
-- internal/ui/server.go: evaluateShippingGate.
--
-- `runs` is the server's field RunShippingGate: whether the gate of a name and a command passes on
-- these worktrees, or none if it returns nil. `quote` is the verb %q, `name_le` the order of
-- sort.Strings. A project is its shipping gates, if it was loaded.
use sgt.Base.{
  ℕ, String, Bool, true, false, not, Option, none, some, List, [], ◌∷◌, str_eq, str_append,
  if◌then◌else◌, map, map_where, any, find?, Exec, ignore, pure, on_error, quiet, ok, Result, Disk,
  refl, ◌≡◌, inl, inr, Bool-cases, eq_false, arith, ap,
}
use package.text.Mathlib.TextLemmas.{length-append}
use Prim.Native.String.{count}
use sgt.Store.Types.{IntentRecord, BulletRecord, Tables, gate_passed, gate_failed}
use sgt.Store.Changes.{record_transition, append_change, append_row, notify_change}
use sgt.Store.Rows.{update_intents, list_bullets_for_intent, bullets_of}
use sgt.Store.Bullets.{record_shipping_gate_result}
use sgt.Store.Advance.{all_bullets_sealed_or_merged}
use sgt.Store.Advanced.{require_one_row-found}
use sgt.Engine.Types.{sorted_gates}

pub record Verdict : Type 0 where
  pub all_passed : Bool
  pub first_failure_reason : String

module _ (runs : String → String → List String → Option Bool) (quote : String → String)
    (name_le : String → String → Bool) where
  unfoldable pub gate_failure_reason : String → String
  gate_failure_reason name = str_append "shipping gate " (str_append (quote name) " failed")

  unfoldable pub gate_passes : List String → String × String → Bool
  gate_passes worktrees g = elim (runs g.0 g.1 worktrees) [ none ↦ false | some passed ↦ passed ]

  -- The reason of the first failure is kept.
  unfoldable pub judge_gate : List String → Verdict → String × String → Verdict
  judge_gate worktrees v g = if gate_passes worktrees g then v else record {
    all_passed = false;
    first_failure_reason =
        if str_eq v.first_failure_reason ""
        then gate_failure_reason g.0
        else v.first_failure_reason;
  }

  unfoldable pub judge_gates : List String → List (String × String) → Verdict → Verdict
  judge_gates worktrees [] v = v
  judge_gates worktrees (g ∷ gs) v = judge_gates worktrees gs (judge_gate worktrees v g)

  unfoldable pub evaluate_shipping_gate :
      Option (List (String × String)) → String → List BulletRecord → Exec Tables (Unit {0})
  evaluate_shipping_gate none intent_id bullets =
      ignore (record_shipping_gate_result intent_id true "")
  evaluate_shipping_gate (some []) intent_id bullets =
      ignore (record_shipping_gate_result intent_id true "")
  evaluate_shipping_gate (some (g ∷ gs)) intent_id bullets =
      let v =
        judge_gates (map (λ b. b.worktree) bullets) (sorted_gates name_le (g ∷ gs))
          (record { all_passed = true; first_failure_reason = "" }) in
      ignore (record_shipping_gate_result intent_id v.all_passed v.first_failure_reason)

  -- What follows the sealing of a bullet: the gates are evaluated once all the bullets are ready.
  unfoldable pub after_seal : Option (List (String × String)) → String → Exec Tables (Unit {0})
  after_seal gates intent_id =
      if str_eq intent_id ""
      then pure tt
      else on_error (list_bullets_for_intent intent_id) (λ _. pure tt)
          (λ bullets.
            if all_bullets_sealed_or_merged bullets
            then evaluate_shipping_gate gates intent_id bullets
            else pure tt)

  abbrev pub fails : List String → String × String → Bool
  fails worktrees g = not (gate_passes worktrees g)

  abbrev pub verdict_of : Option (String × String) → Verdict
  verdict_of none = record { all_passed = true; first_failure_reason = "" }
  verdict_of (some g) = record {
    all_passed = false;
    first_failure_reason = gate_failure_reason g.0;
  }

  gate_failure_reason-nonempty : (name : String) → str_eq (gate_failure_reason name) "" ≡ false
  unfolding gate_failure_reason
  gate_failure_reason-nonempty name = eq_false _ _ (λ h. absurd (
      omega
        (arith, ap count h, length-append "shipping gate " (str_append (quote name) " failed"))))

  judge_gates-failed :
      (worktrees : List String) (gs : List (String × String)) (name : String × String)
      → judge_gates worktrees gs (verdict_of (some name)) ≡ verdict_of (some name)
  unfolding judge_gates judge_gate
  judge_gates-failed worktrees [] g = refl
  judge_gates-failed worktrees (h ∷ hs) g = elim (Bool-cases (gate_passes worktrees h)) [
    | inl e ↦ rw e (judge_gates-failed worktrees hs g)
    | inr e ↦ rw (e, gate_failure_reason-nonempty g.0) (judge_gates-failed worktrees hs g)
  ]

  judge_gates-first :
      (worktrees : List String) (gs : List (String × String))
      → judge_gates worktrees gs (verdict_of none) ≡ verdict_of (find? (fails worktrees) gs)
  unfolding judge_gates judge_gate
  judge_gates-first worktrees [] = refl
  judge_gates-first worktrees (g ∷ gs) = elim (Bool-cases (gate_passes worktrees g)) [
    | inl e ↦ rw e (judge_gates-first worktrees gs)
    | inr e ↦ rw e (judge_gates-failed worktrees gs g)
  ]

  abbrev pub has_intent : String → IntentRecord → Bool
  has_intent id i = str_eq i.id id

  -- The intent with the outcome of its gates.
  abbrev pub judged : Verdict → ℕ → IntentRecord → IntentRecord
  judged v now i = record i {
    shipping_gate_status = if v.all_passed then gate_passed else gate_failed;
    shipping_gate_reason = v.first_failure_reason;
    updated_at = now;
  }

  abbrev pub configured : Option (List (String × String)) → List (String × String)
  configured none = []
  configured (some gates) = gates

  abbrev pub worktrees_of : String → Tables → List String
  worktrees_of intent_id t = map (λ b. b.worktree) (bullets_of intent_id t)

  -- The first gate, in the order of the names, that fails.
  abbrev pub first_failure :
      Option (List (String × String)) → String → Tables → Option (String × String)
  first_failure gates intent_id t =
      find? (fails (worktrees_of intent_id t)) (sorted_gates name_le (configured gates))

  abbrev pub Judges : Verdict → String → Tables → ℕ → Result (Unit {0}) × Disk Tables → Type 0
  Judges v intent_id t now p =
      (p.0 ≡ ok tt)
      × (p.1.db.intents ≡ map_where (has_intent intent_id) (judged v now) t.intents)
      × (p.1.db.bullets ≡ t.bullets)
      × (p.1.db.runs ≡ t.runs)

  record_shipping_gate_result-Judges :
      (found : Option (String × String)) (intent_id : String) (t : Tables) (now : ℕ)
      → any (has_intent intent_id) t.intents ≡ true
      → let v = verdict_of found in
        Judges v intent_id t now (
          ignore
            (record_shipping_gate_result intent_id v.all_passed v.first_failure_reason)
            (quiet t now))
  unfolding record_shipping_gate_result update_intents record_transition append_change append_row
      notify_change
  record_shipping_gate_result-Judges none intent_id t now h =
      rw (require_one_row-found "intent" intent_id (has_intent intent_id) t.intents _ h)
        (refl, refl, refl, refl)
  record_shipping_gate_result-Judges (some g) intent_id t now h =
      rw (require_one_row-found "intent" intent_id (has_intent intent_id) t.intents _ h)
        (refl, refl, refl, refl)

  evaluate_shipping_gate-Judges :
      (gates : Option (List (String × String))) (intent_id : String) (t : Tables) (now : ℕ)
      → any (has_intent intent_id) t.intents ≡ true
      → Judges
          (verdict_of (first_failure gates intent_id t))
          intent_id
          t
          now
          (evaluate_shipping_gate gates intent_id (bullets_of intent_id t) (quiet t now))
  unfolding evaluate_shipping_gate sorted_gates
  evaluate_shipping_gate-Judges none intent_id t now h =
      record_shipping_gate_result-Judges none intent_id t now h
  evaluate_shipping_gate-Judges (some []) intent_id t now h =
      record_shipping_gate_result-Judges none intent_id t now h
  evaluate_shipping_gate-Judges (some (g ∷ gs)) intent_id t now h =
      rw (judge_gates-first (worktrees_of intent_id t) (sorted_gates name_le (g ∷ gs))) (
        record_shipping_gate_result-Judges (first_failure (some (g ∷ gs)) intent_id t) intent_id t
          now h)

  abbrev pub Evaluates :
      Option (List (String × String))
      → String
      → Tables
      → ℕ
      → Result (Unit {0}) × Disk Tables
      → Type 0
  Evaluates gates intent_id t now p =
      if all_bullets_sealed_or_merged (bullets_of intent_id t)
      then Judges (verdict_of (first_failure gates intent_id t)) intent_id t now p
      else (p ≡ (ok tt, quiet t now))

  -- While the database refuses no statement, the sealing of a bullet of a stored intent is followed by
  -- the evaluation of its shipping gates exactly if there are bullets and all are sealed or merged; the
  -- intent is then recorded as passed if no configured gate fails, and otherwise as failed with the name
  -- of the first failing gate in the order of the names. No bullet and no run is written.
  pub after_seal-Evaluates :
      (gates : Option (List (String × String))) (intent_id : String) (t : Tables) (now : ℕ)
      → str_eq intent_id "" ≡ false
      → any (has_intent intent_id) t.intents ≡ true
      → Evaluates gates intent_id t now (after_seal gates intent_id (quiet t now))
  unfolding after_seal list_bullets_for_intent
  after_seal-Evaluates gates intent_id t now n h =
      elim (Bool-cases (all_bullets_sealed_or_merged (bullets_of intent_id t))) [
        | inl e ↦ rw (n, e) (evaluate_shipping_gate-Judges gates intent_id t now h)
        | inr e ↦ rw (n, e) refl
      ]
