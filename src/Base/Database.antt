-- ===== src/Base/Database.antt =====
-- A method of the store: it sends statements to the database, may fail, and returns the new state.
--
-- Go's `error` is `Err`, with a constructor for each error that a caller can tell apart; the
-- text that `fmt.Errorf` wraps around an error is not kept. The database is SQLite, which the
-- repository does not implement: a table is the list of its rows in insertion order, and
-- `faults` says of each statement in turn whether the database refuses it (`true`; what lies
-- beyond the list does not fail). A refused statement changes no table. `now` is the clock that
-- `time.Now` reads. It advances with each reading, so rows written later have later stamps.
use Prim.Native.Nat.{ℕ, ◌+◌}
use Prim.Native.String.{String}
use mathlib.Core.Path.{◌≡◌, ap}
use mathlib.Core.Bool.{Bool, true, false}
use mathlib.Core.List.{List, [], ◌∷◌}

pub data Err : Type 0 where
  db_failure : Err
  -- sql.ErrNoRows
  no_rows : Err
  -- requireOneRow: the kind of the record and the id that names none
  no_such : String → String → Err
  -- a PRIMARY KEY violation
  duplicate_id : String → Err
  duplicate_request_id : String → Err
  duplicate_envelope_id : String → Err
  empty_field : String → Err
  not_green : String → Err
  no_intent : String → Err
  no_bullet : String → String → Err
  attempt_failed : String → Err
  unique_violation : String → Err
  replay_quarantined : Err
  not_dead_letter : Err
  no_delivery : Err
  -- os.Remove
  remove_failed : Err
  -- an agent process that exited with an error: the reason
  agent_failed : String → Err
  -- context.Canceled
  run_cancelled : Err
  -- a gate and its repository
  gate_stopped : String → String → Err
  unknown_repo : String → Err
  no_gates : String → Err
  -- what git or the file system answered
  setup_failed : String → Err
  blocking_finding : String → Err
  no_red_state : String → Err
  still_failing : List String → Err
  not_persisted : List String → Err
  no_reason : Err

pub data Result (A : Type 0) : Type 0 where
  ok : A → Result A
  err : Err → Result A

pub record Disk (S : Type 0) : Type 0 where
  pub db : S
  pub now : ℕ
  pub faults : List Bool

abbrev pub Exec : Type 0 → Type 0 → Type 0
Exec S A = Disk S → Result A × Disk S

-- A state in which no statement fails.
abbrev pub quiet : {S : Type 0} → S → ℕ → Disk S
quiet s n = record { db = s; now = n; faults = [] }

module _ {S A : Type 0} where
  abbrev pub pure : A → Exec S A
  pure a d = (ok a, d)

  abbrev pub raise : Err → Exec S A
  raise e d = (err e, d)

  -- The answer of the database to the next statement.
  abbrev pub answer : List Bool → A → Disk S → Result A × Disk S
  answer [] a d = (ok a, d)
  answer (false ∷ fs) a d = (ok a, record d { faults = fs })
  answer (true ∷ fs) a d = (err db_failure, record d { faults = fs })

module _ {S : Type 0} where
  -- One statement that may be refused.
  abbrev pub query : Exec S (Unit {0})
  query d = answer d.faults tt d

  -- A SELECT.
  abbrev pub select : {A : Type 0} → (S → A) → Exec S A
  select f d = answer d.faults (f d.db) d

  -- time.Now
  abbrev pub time_now : Exec S ℕ
  time_now d = (ok d.now, record d { now = d.now + 1 })

module _ {S A B : Type 0} where
  abbrev pub continue : Result A → (A → Exec S B) → Exec S B
  continue (ok a) f d = f a d
  continue (err e) f d = (err e, d)

  infixl 10 ◌>>=◌ ◌>>◌
  abbrev pub ◌>>=◌ : Exec S A → (A → Exec S B) → Exec S B
  ◌>>=◌ m f d = let (r, d') = m d in continue r f d'

  abbrev pub ◌>>◌ : Exec S A → Exec S B → Exec S B
  ◌>>◌ m n d = let (r, d') = m d in continue r (λ _. n) d'

  -- A step that succeeded.
  pub bind-ok :
      (m : Exec S A) (f : A → Exec S B) (d : Disk S) (a : A)
      → (m d).0 ≡ ok a
      → (m >>= f) d ≡ f a (m d).1
  bind-ok m f d a e = ap (λ r. continue r f (m d).1) e

  abbrev pub branch : Result A → (Err → Exec S B) → (A → Exec S B) → Exec S B
  branch (ok a) f g d = g a d
  branch (err e) f g d = f e d

  -- `if err := m; err != nil { f } ; g`, where the method itself does not fail by `err`.
  abbrev pub on_error : Exec S A → (Err → Exec S B) → (A → Exec S B) → Exec S B
  on_error m f g d = let (r, d') = m d in branch r f g d'

module _ {S A : Type 0} where
  -- `_ = m`: the error is dropped.
  abbrev pub ignore : Exec S A → Exec S (Unit {0})
  ignore m = on_error m (λ _. pure tt) (λ _. pure tt)

module _ {S : Type 0} where
  abbrev pub applied : Result S → Disk S → Result (Unit {0}) × Disk S
  applied (ok s) d = (ok tt, record d { db = s })
  applied (err e) d = (err e, d)

  -- A statement that a constraint of the schema may refuse. A refusal writes nothing.
  abbrev pub execute : (S → Result S) → Exec S (Unit {0})
  execute f d = (query >>= λ _ d'. applied (f d'.db) d') d

  -- An INSERT or UPDATE that no constraint refuses.
  abbrev pub update : (S → S) → Exec S (Unit {0})
  update f d = (query >>= λ _ d'. (ok tt, record d' { db = f d'.db })) d
