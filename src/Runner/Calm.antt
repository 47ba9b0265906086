-- ===== src/Runner/Calm.antt =====
-- Steps that run no process, whether they succeed or fail.
use sgt.Base.{
  Bool, true, false, Err, Result, ok, err, Disk, Exec, pure, raise, ◌>>=◌, ◌>>◌, on_error, continue,
  branch, if◌then◌else◌, refl, ◌≡◌, ◌∙◌,
}
use sgt.Store.World.{World}
use sgt.Runner.Types.{Host, in_world}

pub record Calm {A : Type 0} (m : Exec Host A) : Type 0 where
  pub at : (d : Disk Host) → (m d).1.db.processes ≡ d.db.processes

pub Calm-pure : {A : Type 0} (a : A) → Calm (pure a)
Calm-pure a = record { at = λ d. refl }

pub Calm-raise : {A : Type 0} (e : Err) → Calm (raise {A = A} e)
Calm-raise e = record { at = λ d. refl }

pub Calm-if :
    {A : Type 0} (b : Bool) (m n : Exec Host A) → Calm m → Calm n → Calm (if b then m else n)
Calm-if true m n k l = k
Calm-if false m n k l = l

pub Calm-in_world : {A : Type 0} (m : Exec World A) → Calm (in_world m)
unfolding in_world
Calm-in_world m = record { at = λ d. refl }

module _ {A B : Type 0} where
  pub Calm-bind :
      (m : Exec Host A) (f : A → Exec Host B) → Calm m → ((a : A) → Calm (f a)) → Calm (m >>= f)
  Calm-bind m f k l = record { at = λ d. let (r, d') = m d in go r d' ∙ k.at d }
    where
      go : (r : Result A) (d : Disk Host) → (continue r f d).1.db.processes ≡ d.db.processes
      go (ok a) d = (l a).at d
      go (err e) d = refl

  pub Calm-then : (m : Exec Host A) (n : Exec Host B) → Calm m → Calm n → Calm (m >> n)
  Calm-then m n k l = record { at = λ d. let (r, d') = m d in go r d' ∙ k.at d }
    where
      go : (r : Result A) (d : Disk Host) → (continue r (λ _. n) d).1.db.processes ≡ d.db.processes
      go (ok a) d = l.at d
      go (err e) d = refl

  pub Calm-on_error :
      (m : Exec Host A) (f : Err → Exec Host B) (g : A → Exec Host B)
      → Calm m
      → ((e : Err) → Calm (f e))
      → ((a : A) → Calm (g a))
      → Calm (on_error m f g)
  Calm-on_error m f g k kf kg = record { at = λ d. let (r, d') = m d in go r d' ∙ k.at d }
    where
      go : (r : Result A) (d : Disk Host) → (branch r f g d).1.db.processes ≡ d.db.processes
      go (ok a) d = (kg a).at d
      go (err e) d = (kf e).at d

pub ruleset calm_rules =
    (Calm-pure, Calm-raise, Calm-if, Calm-in_world, Calm-bind, Calm-then, Calm-on_error)
