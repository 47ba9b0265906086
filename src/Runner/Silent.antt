-- ===== src/Runner/Silent.antt =====
-- internal/runner: the steps of a phase that run no process and whose errors are dropped.
use sgt.Base.{
  ℕ, ◌+◌, ◌-◌, String, Bool, true, false, Option, none, some, List, [], ◌∷◌, if◌then◌else◌, Err,
  Result, ok, err, Disk, Exec, pure, time_now, ◌>>=◌, ◌>>◌, on_error, continue, branch, refl, sym,
  ◌≡◌, ◌∙◌, length,
}
use mathlib.Core.Path.{subst}
use sgt.Store.Types.{EnvelopeRecord, PhaseRecord, Tables}
use sgt.Store.World.{World, in_tables}
use sgt.Store.Phases.{causation_from_latest, get_latest_envelope}
use sgt.Runner.Types.{
  Host, in_world, CapturedFile, Copy, unopened, partial, complete, Outside, PhaseRunner, Envelope,
  AgentRun, GateRun, GateResult, process,
}
use sgt.Runner.Capture.{
  Drop, Captured, place_file, store_copy, copy_file, capture_file, capture_files,
  record_dropped_artifacts, note_dropped, capture_artifacts,
}
use sgt.Runner.Phases.{
  deliver_handoff, record_handoff, record_phase_here, cancel_attempt, settle_attempt, record_gate,
  run_code_gate, gate_result,
}

-- It succeeds and runs no process.
pub record Silent {A : Type 0} (m : Exec Host A) : Type 0 where
  pub at : (d : Disk Host) → (a : A) × ((m d).0 ≡ ok a) × ((m d).1.db.processes ≡ d.db.processes)

pub Silent-pure : {A : Type 0} (a : A) → Silent (pure a)
Silent-pure a = record { at = λ d. (a, refl, refl) }

pub Silent-time_now : Silent time_now
Silent-time_now = record { at = λ d. (d.now, refl, refl) }

pub Silent-if :
    {A : Type 0} (b : Bool) (m n : Exec Host A) → Silent m → Silent n → Silent (if b then m else n)
Silent-if true m n k l = k
Silent-if false m n k l = l

abbrev Quietly : {B : Type 0} → Disk Host → Result B × Disk Host → Type 0
Quietly {B = B} d z = (b : B) × (z.0 ≡ ok b) × (z.1.db.processes ≡ d.db.processes)

module _ {A B : Type 0} where
  -- What follows a silent step starts with as many processes.
  pub after_bind :
      (m : Exec Host A) (f : A → Exec Host B) (Q : Result B × Disk Host → Type 0) (d : Disk Host)
      → Silent m
      → ((a : A) (d' : Disk Host) → d'.db.processes ≡ d.db.processes → Q (f a d'))
      → Q ((m >>= f) d)
  after_bind m f Q d s k =
      let (a, e, p) = s.at d in subst (λ r. Q (continue r f (m d).1)) (sym e) (k a (m d).1 p)

  pub after_then :
      (m : Exec Host A) (n : Exec Host B) (Q : Result B × Disk Host → Type 0) (d : Disk Host)
      → Silent m
      → ((d' : Disk Host) → d'.db.processes ≡ d.db.processes → Q (n d'))
      → Q ((m >> n) d)
  after_then m n Q d s k =
      let (a, e, p) = s.at d in subst (λ r. Q (continue r (λ _. n) (m d).1)) (sym e) (k (m d).1 p)

  pub Silent-bind :
      (m : Exec Host A) (f : A → Exec Host B)
      → Silent m
      → ((a : A) → Silent (f a))
      → Silent (m >>= f)
  Silent-bind m f s t = record {
    at = λ d.
        after_bind m f (Quietly d) d s (λ a d' p. let (b, e, q) = (t a).at d' in (b, e, q ∙ p));
  }

  pub Silent-then : (m : Exec Host A) (n : Exec Host B) → Silent m → Silent n → Silent (m >> n)
  Silent-then m n s t = record {
    at = λ d. after_then m n (Quietly d) d s (λ d' p. let (b, e, q) = t.at d' in (b, e, q ∙ p));
  }

  -- A store method runs no process, and its error is handled.
  pub Silent-on_error :
      (m : Exec World A) (f : Err → Exec Host B) (g : A → Exec Host B)
      → ((e : Err) → Silent (f e))
      → ((a : A) → Silent (g a))
      → Silent (on_error (in_world m) f g)
  unfolding in_world
  Silent-on_error m f g kf kg = record { at = λ d. let (r, d') = in_world m d in go r d' }
    where
      go :
          (r : Result A) (d' : Disk Host)
          → (b : B) × ((branch r f g d').0 ≡ ok b)
            × ((branch r f g d').1.db.processes ≡ d'.db.processes)
      go (ok a) d' = (kg a).at d'
      go (err e) d' = (kf e).at d'

pub ruleset silent_rules =
    (Silent-pure, Silent-time_now, Silent-if, Silent-bind, Silent-then, Silent-on_error)

module _ (o : Outside) (pr : PhaseRunner) (id : String) where
  place_file-Silent : (path : String) → Silent (in_world (place_file path))
  unfolding in_world place_file
  place_file-Silent path = record { at = λ d. (tt, refl, refl) }

  store_copy-Silent :
      (f : CapturedFile) (c : Captured) (ended : Copy) → Silent (store_copy o pr id f c ended)
  unfolding store_copy
  store_copy-Silent f c unopened = Silent-pure _
  store_copy-Silent f c partial = search (silent_rules, place_file-Silent) depth 6
  store_copy-Silent f c complete = search (silent_rules, place_file-Silent) depth 10

  copy_file-Silent : (f : CapturedFile) (c : Captured) → Silent (copy_file o pr id f c)
  unfolding copy_file
  copy_file-Silent f c = store_copy-Silent f c (o.copies f.0)

  capture_file-Silent : (f : CapturedFile) (c : Captured) → Silent (capture_file o pr id f c)
  unfolding capture_file
  capture_file-Silent f c = search (silent_rules, copy_file-Silent) depth 8

  capture_files-Silent :
      (fs : List CapturedFile) (c : Captured) → Silent (capture_files o pr id fs c)
  unfolding capture_files
  capture_files-Silent [] c = Silent-pure c
  capture_files-Silent (f ∷ fs) c =
      Silent-bind (capture_file o pr id f c) (λ c'. capture_files o pr id fs c')
        (capture_file-Silent f c) (λ c'. capture_files-Silent fs c')

  record_dropped-Silent :
      (n : ℕ) (reason : String) → Silent (record_dropped_artifacts o pr id n reason)
  unfolding record_dropped_artifacts
  record_dropped-Silent n reason = search (silent_rules) depth 8

  note_dropped-Silent :
      (join : List Drop → String) (ds : List Drop) → Silent (note_dropped o pr id join ds)
  unfolding note_dropped
  note_dropped-Silent join [] = Silent-pure tt
  note_dropped-Silent join (d ∷ ds) = record_dropped-Silent (length (d ∷ ds)) (join (d ∷ ds))

  pub capture_artifacts-Silent :
      (join : List Drop → String) (fs : List CapturedFile)
      → Silent (capture_artifacts o pr id join fs)
  unfolding capture_artifacts
  capture_artifacts-Silent join [] = Silent-pure tt
  capture_artifacts-Silent join (f ∷ fs) =
      search (silent_rules, record_dropped-Silent, capture_files-Silent, note_dropped-Silent) depth
        8

-- The lookup of the causation handles its error inside the store.
pub causation-Silent :
    (run_id repo : String) → Silent (in_world (in_tables (causation_from_latest run_id repo)))
unfolding in_world causation_from_latest
causation-Silent run_id repo = record {
  at = λ d.
      go (get_latest_envelope run_id repo (start d)).0 (get_latest_envelope run_id repo (start d)).1
        d;
}
  where
    start : Disk Host → Disk Tables
    start d = record { db = d.db.world.tables; now = d.now; faults = d.faults }

    go :
        (r : Result EnvelopeRecord) (t : Disk Tables) (d : Disk Host)
        → (a : Option String) × ((branch r (λ _. pure none) (λ e. pure (some e.id)) t).0 ≡ ok a)
          × (d.db.processes ≡ d.db.processes)
    go (ok e) t d = (some e.id, refl, refl)
    go (err e) t d = (none, refl, refl)

module _ (o : Outside) (join : List Drop → String) (pr : PhaseRunner) where
  pub deliver_handoff-Silent : (id : String) → Silent (deliver_handoff o join pr id)
  unfolding deliver_handoff
  deliver_handoff-Silent id = search (silent_rules) depth 6

  pub record_handoff-Silent :
      (phase_id phase id : String) (now : ℕ) (e : Envelope)
      → Silent (record_handoff o join pr phase_id phase id now e)
  unfolding record_handoff
  record_handoff-Silent phase_id phase id now e = search (silent_rules, causation-Silent) depth 8

  pub record_phase_here-Silent : (p : PhaseRecord) → Silent (record_phase_here o join pr p)
  record_phase_here-Silent p = search (silent_rules) depth 6

  pub cancel_attempt-Silent :
      (phase_id phase : String) (attempt duration : ℕ)
      → Silent (cancel_attempt o join pr phase_id phase attempt duration)
  unfolding cancel_attempt
  cancel_attempt-Silent phase_id phase attempt duration = search (record_phase_here-Silent) depth 6

  pub settle_attempt-Silent :
      (phase_id phase : String) (retries attempt duration : ℕ) (run : AgentRun)
      → Silent (settle_attempt o join pr phase_id phase retries attempt duration run)
  unfolding settle_attempt
  settle_attempt-Silent phase_id phase retries attempt duration run =
      search
        (
          silent_rules, deliver_handoff-Silent, record_handoff-Silent, record_phase_here-Silent,
          capture_artifacts-Silent,
        )
        depth 12

  pub record_gate-Silent :
      (result : GateResult) (run : GateRun) (duration nanos : ℕ)
      → Silent (record_gate o join pr result run duration nanos)
  unfolding record_gate
  record_gate-Silent result run duration nanos =
      search (silent_rules, record_phase_here-Silent, capture_artifacts-Silent) depth 8

  -- A gate runs one process, whose exit is its result, whichever statements the database refuses.
  pub run_code_gate-result :
      (name command : String) (d : Disk Host)
      → ((run_code_gate o join pr name command d).0
          ≡ ok (gate_result o join pr name command (o.gate d.db.processes)))
        × ((run_code_gate o join pr name command d).1.db.processes ≡ d.db.processes + 1)
  unfolding run_code_gate process
  run_code_gate-result name command d =
      let run = o.gate d.db.processes in
      let result = gate_result o join pr name command run in
      let began : Disk Host = record d {
        db = record d.db { processes = d.db.processes + 1 };
        now = d.now + 1 + 1 + 1;
      } in
      let duration = d.now + 1 - d.now in
      after_then (record_gate o join pr result run duration (d.now + 1 + 1)) (pure result)
        (λ z. (z.0 ≡ ok result) × (z.1.db.processes ≡ d.db.processes + 1)) began
        (record_gate-Silent result run duration (d.now + 1 + 1)) (λ d' p. (refl, p))
