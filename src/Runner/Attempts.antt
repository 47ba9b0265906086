-- ===== src/Runner/Attempts.antt =====
-- internal/runner/runner.go: RunAgentPhase as a sequence of attempts, whichever statements the database
-- refuses.
use sgt.Base.{
  ℕ, zero, suc, ◌+◌, ◌-◌, String, true, false, Option, none, some, List, Err, agent_failed,
  run_cancelled, Result, ok, Disk, Exec, pure, ◌>>=◌, ◌>>◌, refl, sym, ap, ◌≡◌, if-cases, bind-ok,
  arith,
}
use mathlib.Core.Path.{subst}
use sgt.Runner.Types.{Host, Envelope, Outside, process, PhaseRunner}
use sgt.Runner.Capture.{Drop}
use sgt.Runner.Phases.{
  PhaseEnd, finished, stopped, failure_reason, concluded, run_attempt, run_attempts,
  run_agent_phase, record_phase_here, attempt_record, cancel_attempt, settle_attempt, succeeded,
  blocked_reason_of,
}
use sgt.Delivery.Errors.{DeliveryError}
use sgt.Runner.Handoff.{OfDelivery, settle_attempt-OfDelivery}
use sgt.Runner.Silent.{after_then, record_phase_here-Silent, cancel_attempt-Silent}

-- What came of the n-th process, which was not cancelled: its attempt was settled as the envelope and
-- the delivery's error in `x`, with this blocked reason, and the phase did nothing after that.
pub record Attempted (o : Outside) (join : List Drop → String) (pr : PhaseRunner)
    (phase_id phase : String) (retries n left : ℕ) (x : Envelope × Option Err) (blocked : String)
    (d : Disk Host) : Type 0 where
  pub attempt : ℕ
  pub duration : ℕ
  pub numbered : attempt + left ≡ retries
  pub before : Disk Host
  pub ran : before.db.processes ≡ n + 1
  pub settled :
      settle_attempt o join pr phase_id phase retries attempt duration (o.agent n) before
      ≡ (ok x, d)
  pub reason : blocked ≡ blocked_reason_of o join pr phase retries attempt (o.agent n)
  pub of_delivery : OfDelivery x.1
  pub no_other : d.db.processes ≡ n + 1

-- The attempts of a phase: `Tries … n left e d` says that the attempts begin with the n-th process,
-- that `left` retries are left then, and that the phase ends as `e` in the state `d`.
pub data Tries (o : Outside) (join : List Drop → String) (pr : PhaseRunner)
    (phase_id phase : String) (retries : ℕ) : ℕ → ℕ → PhaseEnd → Disk Host → Type 0 where
  -- A cancellation ends the phase whatever the process did.
  cancel :
      (n left : ℕ) (d : Disk Host)
      → (o.agent n).cancelled ≡ true
      → d.db.processes ≡ n + 1
      → Tries o join pr phase_id phase retries n left (stopped "" run_cancelled) d
  -- The process exited without an error, and its envelope was delivered.
  succeed :
      (n left : ℕ) (e : Envelope) (blocked : String) (d : Disk Host)
      → (o.agent n).cancelled ≡ false
      → (o.agent n).failed ≡ false
      → Attempted o join pr phase_id phase retries n left (e, none) blocked d
      → Tries o join pr phase_id phase retries n left (finished e blocked) d
  -- It did, but the delivery returned this error, which is never that of a process.
  undelivered :
      (n left : ℕ) (e : Envelope) (blocked : String) (failure : Err) (d : Disk Host)
      → (o.agent n).cancelled ≡ false
      → (o.agent n).failed ≡ false
      → DeliveryError failure
      → Attempted o join pr phase_id phase retries n left (e, some failure) blocked d
      → Tries o join pr phase_id phase retries n left (stopped blocked failure) d
  exhaust :
      (n : ℕ) (x : Envelope × Option Err) (blocked : String) (d : Disk Host)
      → (o.agent n).cancelled ≡ false
      → (o.agent n).failed ≡ true
      → Attempted o join pr phase_id phase retries n 0 x blocked d
      → Tries o join pr phase_id phase retries n 0
          (stopped blocked (agent_failed (failure_reason (o.agent n))))
          d
  retry :
      (n left : ℕ) (e : PhaseEnd) (d : Disk Host)
      → (o.agent n).cancelled ≡ false
      → (o.agent n).failed ≡ true
      → Tries o join pr phase_id phase retries (n + 1) left e d
      → Tries o join pr phase_id phase retries n (suc left) e d

module _ (o : Outside) (join : List Drop → String) (pr : PhaseRunner) (phase_id phase : String)
    (retries : ℕ) where
  -- A run of a phase that starts with the n-th process and has `left` retries is such a sequence.
  abbrev pub Ends : ℕ → ℕ → Result PhaseEnd × Disk Host → Type 0
  Ends n left z =
      (e : PhaseEnd) × (z.0 ≡ ok e) × Tries o join pr phase_id phase retries n left e z.1

  attempt-Ends :
      (start attempt left : ℕ) (more : Option (Exec Host PhaseEnd)) (d : Disk Host)
      → attempt + left ≡ retries
      → ((b : String) (x : Envelope × Option Err) (d' : Disk Host)
          → (o.agent d.db.processes).cancelled ≡ false
          → Attempted o join pr phase_id phase retries d.db.processes left x b d'
          → Ends d.db.processes left (concluded o join pr (o.agent d.db.processes) b x more d'))
      → Ends d.db.processes left (run_attempt o join pr phase_id phase start retries attempt more d)
  unfolding run_attempt process
  attempt-Ends start attempt left more d numbered conclude =
      let n = d.db.processes in
      let run = o.agent n in
      let Q : Result PhaseEnd × Disk Host → Type 0 = Ends n left in
      let began : Disk Host = record d {
        db = record d.db { processes = n + 1 };
        now = d.now + 1;
      } in
      let b = blocked_reason_of o join pr phase retries attempt run in
      let settle = settle_attempt o join pr phase_id phase retries attempt (d.now - start) run in
      let end = λ (x : Envelope × Option Err). concluded o join pr run b x more in
      if-cases (λ (m : Exec Host PhaseEnd). Q (m began)) run.cancelled
        (cancel_attempt o join pr phase_id phase attempt (d.now - start)
          >> pure (stopped "" run_cancelled))
        (settle >>= end)
        (λ c.
          after_then (cancel_attempt o join pr phase_id phase attempt (d.now - start))
            (pure (stopped "" run_cancelled)) Q began
            (cancel_attempt-Silent o join pr phase_id phase attempt (d.now - start))
            (λ d' p. (stopped "" run_cancelled, refl, cancel n left d' c p)))
        (λ c.
          let (x, q, of_delivery, p) =
            settle_attempt-OfDelivery o join pr phase_id phase retries attempt (d.now - start) run
              began in
          let d' = (settle began).1 in
          subst Q (sym (bind-ok settle end began x q)) (
            conclude b x d' c (record {
              attempt = attempt;
              duration = d.now - start;
              numbered = numbered;
              before = began;
              ran = refl;
              settled = ap (λ r. (r, d')) q;
              reason = refl;
              of_delivery = of_delivery;
              no_other = p;
            })))

  -- An attempt that passed.
  passed-Ends :
      (n left : ℕ) (b : String) (e : Envelope) (delivered : Option Err) (d : Disk Host)
      → (o.agent n).cancelled ≡ false
      → (o.agent n).failed ≡ false
      → Attempted o join pr phase_id phase retries n left (e, delivered) b d
      → Ends n left (succeeded o join pr b e delivered d)
  unfolding succeeded
  passed-Ends n left b e none d c f a = (finished e b, refl, succeed n left e b d c f a)
  passed-Ends n left b e (some failure) d c f a =
      (stopped b failure, refl, undelivered n left e b failure d c f a.of_delivery a)

  attempts-Ends :
      (start left attempt : ℕ) (d : Disk Host)
      → attempt + left ≡ retries
      → Ends d.db.processes left
          (run_attempts o join pr phase_id phase start retries left attempt d)
  unfolding run_attempts concluded
  attempts-Ends start zero attempt d numbered =
      attempt-Ends start attempt 0 none d numbered (λ b x d' c a.
        if-cases (λ (m : Exec Host PhaseEnd). Ends d.db.processes 0 (m d'))
          (o.agent d.db.processes).failed _ _
          (λ f. (
            stopped b (agent_failed (failure_reason (o.agent d.db.processes))),
            refl,
            exhaust d.db.processes x b d' c f a,
          ))
          (λ f. passed-Ends d.db.processes 0 b x.0 x.1 d' c f a))
  attempts-Ends start (suc left) attempt d numbered =
      attempt-Ends start attempt (suc left) _ d numbered (λ b x d' c a.
        if-cases (λ (m : Exec Host PhaseEnd). Ends d.db.processes (suc left) (m d'))
          (o.agent d.db.processes).failed _ _
          (λ f.
            let (e, q, t) = attempts-Ends start left (attempt + 1) d' (omega (arith, numbered)) in
            let d2 =
              (run_attempts o join pr phase_id phase start retries left (attempt + 1) d').1 in
            let t' = subst (λ n. Tries o join pr phase_id phase retries n left e d2) a.no_other t in
            (e, q, retry d.db.processes left e d2 c f t'))
          (λ f. passed-Ends d.db.processes (suc left) b x.0 x.1 d' c f a))

module _ (o : Outside) (join : List Drop → String) (pr : PhaseRunner) where
  pub run_agent_phase-Tries :
      (phase : String) (retries : ℕ) (d : Disk Host)
      → (e : PhaseEnd) × ((run_agent_phase o join pr phase retries d).0 ≡ ok e)
        × Tries o join pr
            (o.phase_id pr.repo_name phase (d.now + 1))
            phase
            retries
            d.db.processes
            retries
            e
            (run_agent_phase o join pr phase retries d).1
  unfolding run_agent_phase
  run_agent_phase-Tries phase retries d =
      let began : Disk Host = record d { now = d.now + 1 + 1 } in
      let id = o.phase_id pr.repo_name phase (d.now + 1) in
      after_then
        (record_phase_here o join pr (attempt_record o join pr id phase 0 "running" "" 0 ""))
        (run_attempts o join pr id phase d.now retries retries 0)
        (Ends o join pr id phase retries d.db.processes retries) began
        (record_phase_here-Silent o join pr _)
        (λ d' p.
          subst
            (λ n.
              Ends o join pr id phase retries n retries
                (run_attempts o join pr id phase d.now retries retries 0 d'))
            p (attempts-Ends o join pr id phase retries d.now retries 0 d' (omega arith)))
