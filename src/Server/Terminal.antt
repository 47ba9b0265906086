-- ===== src/Server/Terminal.antt =====
-- internal/ui/bulletstate.go and dispatch.go: the terminal status of a run and its bullets.
--
-- The log lines and the page of the wiki (recordWikiEntry) are not modelled: they read the store and
-- write files.
use sgt.Base.{
  ℕ, String, Bool, true, false, Option, none, some, List, [], ◌∷◌, str_eq, if◌then◌else◌, any,
  filterb, find?, length, Disk, Exec, pure, raise, select, ◌>>=◌, on_error, refl, ◌≡◌, ok, err,
  Result, not, quiet, arith, sym, ap, ◌∙◌, inl, inr, Bool-cases, ◌≢◌, All,
}
use sgt.Store.Types.{
  RunStatus, BulletStatus, IntentStatus, run_status_eq, bullet_status_eq, RunRecord, IntentRecord,
  EnvelopeRecord, Tables,
}
use sgt.Store.Changes.{record_transition, append_change, append_row, notify_change}
use sgt.Store.Advance.{advance_bullets_for_run}
use sgt.Store.Runs.{update_runs, changed_a_row, update_run_status, has_id}
use sgt.Store.Types.{resumable_run_statuses, green, blocked}
use sgt.Store.Outcome.{
  find?-map_where, any-find?, status_of, has_intent, Placed, Advanced,
  advance_bullets_for_run-Advanced, advance_bullets_for_run-unsatisfied,
}
use mathlib.Core.Path.{subst}
use sgt.Base.{branch}

unfoldable pub bullet_status_for_run_outcome : RunStatus → Option BulletStatus
bullet_status_for_run_outcome RunStatus.passed = some green
bullet_status_for_run_outcome RunStatus.failed = some blocked
bullet_status_for_run_outcome RunStatus.cancelled = some BulletStatus.pending
bullet_status_for_run_outcome _ = none

unfoldable pub is_resumable : RunStatus → Bool
is_resumable status = any (λ s. run_status_eq status s) resumable_run_statuses

-- An error of the advance is logged and not returned.
unfoldable pub advance_for_outcome : String → String → Option BulletStatus → Exec Tables (Unit {0})
advance_for_outcome run_id reason none = pure tt
advance_for_outcome run_id reason (some b) =
    on_error (advance_bullets_for_run run_id b reason) (λ _. pure tt) (λ _. pure tt)

unfoldable pub record_terminal_run_with_reason :
    String → RunStatus → String → Exec Tables (Unit {0})
record_terminal_run_with_reason run_id status reason =
    on_error (update_run_status run_id status) (λ e. raise e)
      (λ _. advance_for_outcome run_id reason (bullet_status_for_run_outcome status))

-- What an envelope says of why its run is stuck: the summaries of the error findings of a review,
-- joined, if it has any, else its `blocked_reason`. The handoff package reads them off the
-- payload.
module _ (review_errors : String → List String) (join : List String → String)
    (blocked_reason : String → String) where
  unfoldable pub last_reason : String → List EnvelopeRecord → String
  last_reason reason [] = reason
  last_reason reason (e ∷ es) =
      elim (if str_eq e.stage "review" then review_errors e.body else []) [
        | s ∷ ss ↦ last_reason (join (s ∷ ss)) es
        | [] ↦
            last_reason
              (if str_eq (blocked_reason e.body) "" then reason else blocked_reason e.body) es
      ]

  abbrev pub no_reason : String
  no_reason = "gates did not pass; no further automatic attempt available"

  unfoldable pub resolved_reason : List EnvelopeRecord → String
  resolved_reason es =
      let reason = last_reason "" es in if str_eq reason "" then no_reason else reason

  unfoldable pub blocked_reason_for_run : String → BulletStatus → Exec Tables String
  blocked_reason_for_run run_id status =
      if not (bullet_status_eq status blocked)
      then pure ""
      else on_error (select (λ t. filterb (λ e. str_eq e.run_id run_id) t.envelopes))
          (λ _. pure (resolved_reason [])) (λ es. pure (resolved_reason es))

  unfoldable pub reason_for_outcome : String → Option BulletStatus → Exec Tables String
  reason_for_outcome run_id none = pure ""
  reason_for_outcome run_id (some b) = blocked_reason_for_run run_id b

  unfoldable pub record_terminal_run : String → RunStatus → Exec Tables (Unit {0})
  record_terminal_run run_id status = do
    reason ← reason_for_outcome run_id (bullet_status_for_run_outcome status)
    record_terminal_run_with_reason run_id status reason

abbrev Relabelled :
    String → RunStatus → RunRecord → Tables → Result (Unit {0}) × Disk Tables → Type 0
Relabelled run_id status run t p =
    (p.0 ≡ ok tt)
    × ((s : RunRecord) × (find? (has_id run_id) p.1.db.runs ≡ some s)
        × (s.intent_id ≡ run.intent_id)
        × (s.status ≡ status))
    × (p.1.db.intents ≡ t.intents)
    × (p.1.db.bullets ≡ t.bullets)
    × (p.1.faults ≡ [])

found-changes :
    {A : Type 0} (p : A → Bool) (xs : List A)
    → any p xs ≡ true
    → changed_a_row (length (filterb p xs)) ≡ true
unfolding changed_a_row
found-changes p [] h = absurd (ground arith)
found-changes p (x ∷ xs) h = elim (Bool-cases (p x)) [
  | inl e ↦ rw e (ground arith)
  | inr e ↦ let rest : any p xs ≡ true = ground arith in rw e (found-changes p xs rest)
]

record_run-Relabelled :
    (run_id : String) (run : RunRecord) (status : RunStatus) (t : Tables) (now : ℕ)
    → find? (has_id run_id) t.runs ≡ some run
    → Relabelled run_id status run t (update_run_status run_id status (quiet t now))
unfolding update_run_status update_runs record_transition append_change append_row notify_change
record_run-Relabelled run_id run status t now h =
    rw (found-changes (has_id run_id) t.runs (any-find? (has_id run_id) t.runs run h)) (
      refl,
      (
        _,
        find?-map_where (has_id run_id) (λ r. record r { status = status; updated_at = now })
            (λ _. refl) t.runs run h,
        refl,
        refl,
      ),
      refl,
      refl,
      refl,
    )

abbrev pub Terminalized : String → BulletStatus → String → Result (Unit {0}) × Disk Tables → Type 0
Terminalized intent_id b reason p =
    (p.0 ≡ ok tt)
    × All (Placed intent_id b reason) p.1.db.bullets
    × (status_of (find? (has_intent intent_id) p.1.db.intents) ≡ some IntentStatus.in_progress)

outcome-unmerged :
    (status : RunStatus) (b : BulletStatus)
    → bullet_status_for_run_outcome status ≡ some b
    → b ≢ BulletStatus.merged
unfolding bullet_status_for_run_outcome
outcome-unmerged status b h k = ground arith

-- While the database refuses no statement, recording the end of a run that names a stored intent moves
-- every bullet of the intent, merged ones included, to the status of the outcome, and leaves the
-- intent in progress, for each outcome that advances bullets.
pub record_terminal_run_with_reason-Terminalized :
    (run_id : String) (run : RunRecord) (i : IntentRecord) (status : RunStatus) (b : BulletStatus)
    (reason : String) (t : Tables) (now : ℕ)
    → find? (has_id run_id) t.runs ≡ some run
    → str_eq run.intent_id "" ≡ false
    → find? (has_intent run.intent_id) t.intents ≡ some i
    → bullet_status_for_run_outcome status ≡ some b
    → Terminalized run.intent_id b reason
        (record_terminal_run_with_reason run_id status reason (quiet t now))
unfolding record_terminal_run_with_reason advance_for_outcome
record_terminal_run_with_reason-Terminalized run_id run i status b reason t now h n k o = rw o (
    go (update_run_status run_id status (quiet t now))
      (record_run-Relabelled run_id run status t now h))
  where
    settle :
        (q : Result (Unit {0}) × Disk Tables)
        → Advanced run.intent_id b reason q
        → status_of (find? (has_intent run.intent_id) q.1.db.intents)
          ≡ some IntentStatus.in_progress
        → Terminalized run.intent_id b reason (branch q.0 (λ _. pure tt) (λ _. pure tt) q.1)
    settle (ok _, d) a u = (refl, a.1, u)
    settle (err e, d) a u = absurd (ground (arith, a.0))

    go :
        (q : Result (Unit {0}) × Disk Tables)
        → Relabelled run_id status run t q
        → Terminalized run.intent_id b reason (
            branch q.0
              (λ e. raise e)
              (λ _.
                on_error (advance_bullets_for_run run_id b reason) (λ _. pure tt) (λ _. pure tt))
              q.1)
    go (err e, d) m = absurd (ground (arith, m.0))
    go (ok _, d) m =
        let (s, f, same, _) = m.1 in
        let named : str_eq s.intent_id "" ≡ false = ap (λ id. str_eq id "") same ∙ n in
        let stored : find? (has_intent s.intent_id) d.db.intents ≡ some i =
          ap (λ id. find? (has_intent id) d.db.intents) same
          ∙ ap (λ is. find? (has_intent run.intent_id) is) m.2
          ∙ k in
        let p = advance_bullets_for_run run_id b reason (quiet d.db d.now) in
        let a = advance_bullets_for_run-Advanced run_id s i b reason d.db d.now f named stored in
        let u =
          advance_bullets_for_run-unsatisfied run_id s i b reason d.db d.now f named stored
            (outcome-unmerged status b o) in
        subst
          (λ e.
            Terminalized run.intent_id b reason
              (on_error (advance_bullets_for_run run_id b reason) (λ _. pure tt) (λ _. pure tt) e))
          (sym (ap (λ fs. record d { faults = fs }) m.4))
          (settle p (subst (λ id. Advanced id b reason p) same a) (
            subst
              (λ id.
                status_of (find? (has_intent id) p.1.db.intents) ≡ some IntentStatus.in_progress)
              same u))
