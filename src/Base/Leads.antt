-- ===== src/Base/Leads.antt =====
-- What holds of the tables after a method, given what held before it, whichever statements the
-- database refuses.
use sgt.Base.Database.{
  Err, Result, ok, err, Disk, Exec, answer, select, continue, branch, ◌>>=◌, ◌>>◌, on_error,
  applied, execute,
}
use sgt.Base.Keeps.{Keeps}
use mathlib.Core.Path.{◌≡◌, refl}
use mathlib.Core.Bool.{Bool, true, false}
use package.sgt.Base.Tests.{if◌then◌else◌}
use mathlib.Core.List.{List, [], ◌∷◌}

pub record Leads {S A : Type 0} (P Q : S → Type 0) (m : Exec S A) : Type 0 where
  pub at : (d : Disk S) → P d.db → Q (m d).1.db

module _ {S A : Type 0} {P Q : S → Type 0} where
  -- A method that keeps `P` leads to whatever `P` implies.
  pub Leads-Keeps : {m : Exec S A} → Keeps P m → ((s : S) → P s → Q s) → Leads P Q m
  Leads-Keeps k i = record { at = λ d h. i _ (k.at d h) }

  pub Leads-if :
      (b : Bool) (m n : Exec S A)
      → (b ≡ true → Leads P Q m)
      → (b ≡ false → Leads P Q n)
      → Leads P Q (if b then m else n)
  Leads-if true m n km kn = km refl
  Leads-if false m n km kn = kn refl

module _ {S A B : Type 0} {P Q R : S → Type 0} where
  pub Leads-bind :
      (m : Exec S A) (f : A → Exec S B)
      → Leads P R m
      → ((s : S) → R s → Q s)
      → ((a : A) → Leads R Q (f a))
      → Leads P Q (m >>= f)
  Leads-bind m f km weaken kf = record { at = λ d h. let (r, d') = m d in go r d' (km.at d h) }
    where
      go : (r : Result A) (d : Disk S) → R d.db → Q (continue r f d).1.db
      go (ok a) d h = (kf a).at d h
      go (err e) d h = weaken d.db h

  pub Leads-then :
      (m : Exec S A) (n : Exec S B)
      → Leads P R m
      → ((s : S) → R s → Q s)
      → Leads R Q n
      → Leads P Q (m >> n)
  Leads-then m n km weaken kn = record { at = λ d h. let (r, d') = m d in go r d' (km.at d h) }
    where
      go : (r : Result A) (d : Disk S) → R d.db → Q (continue r (λ _. n) d).1.db
      go (ok a) d h = kn.at d h
      go (err e) d h = weaken d.db h

  pub Leads-on_error :
      (m : Exec S A) (f : Err → Exec S B) (g : A → Exec S B)
      → Leads P R m
      → ((e : Err) → Leads R Q (f e))
      → ((a : A) → Leads R Q (g a))
      → Leads P Q (on_error m f g)
  Leads-on_error m f g km kf kg = record { at = λ d h. let (r, d') = m d in go r d' (km.at d h) }
    where
      go : (r : Result A) (d : Disk S) → R d.db → Q (branch r f g d).1.db
      go (ok a) d h = (kg a).at d h
      go (err e) d h = (kf e).at d h

module _ {S A B : Type 0} {P Q : S → Type 0} where
  answered :
      (f : S → A) (k : A → Exec S B)
      → ((s : S) → P s → Q s)
      → ((s : S) → P s → (d : Disk S) → d.db ≡ s → Q (k (f s) d).1.db)
      → (fs : List Bool) (d : Disk S) → P d.db
      → Q (continue (answer fs (f d.db) d).0 k (answer fs (f d.db) d).1).1.db
  answered f k weaken go [] d h = go d.db h d refl
  answered f k weaken go (false ∷ fs) d h = go d.db h (record d { faults = fs }) refl
  answered f k weaken go (true ∷ fs) d h = weaken d.db h

  -- What follows a SELECT may use what was read.
  pub Leads-select :
      (f : S → A) (k : A → Exec S B)
      → ((s : S) → P s → Q s)
      → ((s : S) → P s → (d : Disk S) → d.db ≡ s → Q (k (f s) d).1.db)
      → Leads P Q (select f >>= k)
  Leads-select f k weaken go = record { at = λ d h. answered f k weaken go d.faults d h }

module _ {S : Type 0} {P Q : S → Type 0} where
  executed :
      (f : S → Result S) (r : Result S) (d : Disk S)
      → ((s : S) → P s → Q s)
      → ((s : S) → P s → (s' : S) → f s ≡ ok s' → Q s')
      → P d.db
      → f d.db ≡ r
      → Q (applied r d).1.db
  executed f (ok s') d weaken k h e = k d.db h s' e
  executed f (err _) d weaken k h e = weaken d.db h

  after :
      (f : S → Result S) (fs : List Bool) (d : Disk S)
      → ((s : S) → P s → Q s)
      → ((s : S) → P s → (s' : S) → f s ≡ ok s' → Q s')
      → P d.db
      → Q (continue (answer fs tt d).0 (λ _ d'. applied (f d'.db) d') (answer fs tt d).1).1.db
  after f [] d weaken k h = executed f (f d.db) d weaken k h refl
  after f (false ∷ fs) d weaken k h = executed f (f d.db) (record d { faults = fs }) weaken k h refl
  after f (true ∷ fs) d weaken k h = weaken d.db h

  pub Leads-execute :
      (f : S → Result S)
      → ((s : S) → P s → Q s)
      → ((s : S) → P s → (s' : S) → f s ≡ ok s' → Q s')
      → Leads P Q (execute f)
  Leads-execute f weaken k = record { at = λ d h. after f d.faults d weaken k h }
