-- ===== src/Base/Keeps.antt =====
-- What a method keeps true of the tables, whichever statements the database refuses.
use sgt.Base.Database.{
  Err, Result, ok, err, Disk, Exec, pure, raise, answer, select, time_now, continue, branch, ◌>>=◌,
  ◌>>◌, on_error, applied, execute,
}
use mathlib.Core.Path.{◌≡◌, refl}
use mathlib.Core.Bool.{Bool, true, false}
use mathlib.Core.List.{List, [], ◌∷◌}
use package.sgt.Base.Tests.{if◌then◌else◌}

pub record Keeps {S A : Type 0} (P : S → Type 0) (m : Exec S A) : Type 0 where
  pub at : (d : Disk S) → P d.db → P (m d).1.db

answered :
    {S A : Type 0} (P : S → Type 0) (fs : List Bool) (a : A) (d : Disk S)
    → P d.db
    → P (answer fs a d).1.db
answered P [] a d h = h
answered P (false ∷ fs) a d h = h
answered P (true ∷ fs) a d h = h

module _ {S : Type 0} {P : S → Type 0} where
  pub Keeps-pure : {A : Type 0} (a : A) → Keeps P (pure a)
  Keeps-pure a = record { at = λ d h. h }

  pub Keeps-raise : {A : Type 0} (e : Err) → Keeps P (raise {A = A} e)
  Keeps-raise e = record { at = λ d h. h }

  pub Keeps-if :
      {A : Type 0} (test : Bool) (here rest : Exec S A)
      → (test ≡ true → Keeps P here)
      → (test ≡ false → Keeps P rest)
      → Keeps P (if test then here else rest)
  Keeps-if true here rest if_so otherwise = if_so refl
  Keeps-if false here rest if_so otherwise = otherwise refl

  pub Keeps-time_now : Keeps P time_now
  Keeps-time_now = record { at = λ d h. h }

  pub Keeps-select : {A : Type 0} (f : S → A) → Keeps P (select f)
  Keeps-select f = record { at = λ d h. answered P d.faults (f d.db) d h }

  executed :
      (f : S → Result S) (fs : List Bool) (d : Disk S)
      → ((s : S) → P s → (s' : S) → f s ≡ ok s' → P s')
      → P d.db
      → P (continue (answer fs tt d).0 (λ _ d'. applied (f d'.db) d') (answer fs tt d).1).1.db
  executed f [] d k h = go (f d.db) refl
    where
      go : (r : Result S) → f d.db ≡ r → P (applied r d).1.db
      go (ok s) e = k d.db h s e
      go (err e') e = h
  executed f (false ∷ fs) d k h = go (f d.db) refl
    where
      go : (r : Result S) → f d.db ≡ r → P (applied r (record d { faults = fs })).1.db
      go (ok s) e = k d.db h s e
      go (err e') e = h
  executed f (true ∷ fs) d k h = h

  pub Keeps-execute :
      (f : S → Result S) → ((s : S) → P s → (s' : S) → f s ≡ ok s' → P s') → Keeps P (execute f)
  Keeps-execute f k = record { at = λ d h. executed f d.faults d k h }

module _ {S A B : Type 0} {P : S → Type 0} where
  pub Keeps-bind :
      (first : Exec S A) (next : A → Exec S B)
      → Keeps P first
      → ((a : A) → Keeps P (next a))
      → Keeps P (first >>= next)
  Keeps-bind first next kept kf = record {
    at = λ d h. let (r, d') = first d in go r d' (kept.at d h);
  }
    where
      go : (r : Result A) (d : Disk S) → P d.db → P (continue r next d).1.db
      go (ok a) d h = (kf a).at d h
      go (err e) d h = h

  pub Keeps-then : (m : Exec S A) (n : Exec S B) → Keeps P m → Keeps P n → Keeps P (m >> n)
  Keeps-then m n km kn = record { at = λ d h. let (r, d') = m d in go r d' (km.at d h) }
    where
      go : (r : Result A) (d : Disk S) → P d.db → P (continue r (λ _. n) d).1.db
      go (ok a) d h = kn.at d h
      go (err e) d h = h

  pub Keeps-on_error :
      (m : Exec S A) (f : Err → Exec S B) (g : A → Exec S B)
      → Keeps P m
      → ((e : Err) → Keeps P (f e))
      → ((a : A) → Keeps P (g a))
      → Keeps P (on_error m f g)
  Keeps-on_error m f g km kf kg = record { at = λ d h. let (r, d') = m d in go r d' (km.at d h) }
    where
      go : (r : Result A) (d : Disk S) → P d.db → P (branch r f g d).1.db
      go (ok a) d h = (kg a).at d h
      go (err e) d h = (kf e).at d h

pub ruleset keeps_rules = (
  Keeps-pure, Keeps-raise, Keeps-if, Keeps-time_now, Keeps-select, Keeps-bind, Keeps-then,
  Keeps-on_error,
)
