-- ===== src/Store/Chosen.antt =====
-- Rows that pass a test, and the rows whose keys they hold.
use sgt.Base.{
  Bool, true, false, ◌&&◌, List, [], ◌∷◌, str_eq, String, any, filterb, refl, ap, ◌≡◌, inl, inr,
  arith, All, Bool-cases, eq_iff, eq_true,
}
use mathlib.Core.Path.{subst}
use sgt.Store.Tally.{Held, Held-All, Distinct}

module _ {A : Type 0} where
  -- The rows of a list that pass a test, found by their keys.
  pub chosen-eligible :
      (key : A → String) (e : A → Bool) (r : A) (rs : List A)
      → Distinct key rs
      → Held r rs
      → any (λ c. str_eq (key r) (key c)) (filterb e rs) ≡ e r
  chosen-eligible key e r [] d h = elim h [ ]
  chosen-eligible key e r (x ∷ xs) d (inl q) =
      subst (λ z. any (λ c. str_eq (key z) (key c)) (filterb e (x ∷ xs)) ≡ e z) q
        (elim (Bool-cases (e x)) [
          | inl p ↦ rw (p, eq_true (key x) (key x) refl) refl
          | inr p ↦ rw p (none_of xs d.0)
        ])
    where
      none_of :
          (ys : List A)
          → All (λ y. str_eq (key x) (key y) ≡ false) ys
          → any (λ c. str_eq (key x) (key c)) (filterb e ys) ≡ false
      none_of [] a = refl
      none_of (y ∷ ys) a = elim (Bool-cases (e y)) [
        | inl p ↦ rw (p, a.0) (none_of ys a.1)
        | inr p ↦ rw p (none_of ys a.1)
      ]
  chosen-eligible key e r (x ∷ xs) d (inr h) =
      let apart : str_eq (key r) (key x) ≡ false =
        ground (arith, Held-All _ r xs h d.0, eq_iff (key x) (key r), eq_iff (key r) (key x)) in
      elim (Bool-cases (e x)) [
        | inl p ↦ rw (p, apart) (chosen-eligible key e r xs d.1 h)
        | inr p ↦ rw p (chosen-eligible key e r xs d.1 h)
      ]

  pub All-Held : (P : A → Type 0) (xs : List A) → ((x : A) → Held x xs → P x) → All P xs
  All-Held P [] h = tt
  All-Held P (x ∷ xs) h = (h x (inl refl), All-Held P xs (λ y k. h y (inr k)))

  pub filterb-same :
      (p q : A → Bool) (xs : List A) → All (λ x. p x ≡ q x) xs → filterb p xs ≡ filterb q xs
  filterb-same p q [] h = refl
  filterb-same p q (x ∷ xs) h = rw (h.0, filterb-same p q xs h.1) refl

  pub filterb-Held :
      (p : A → Bool) (xs : List A) → All (λ x. Held x xs × (p x ≡ true)) (filterb p xs)
  filterb-Held p [] = tt
  filterb-Held p (x ∷ xs) = elim (Bool-cases (p x)) [
    | inl e ↦ rw e ((inl refl, e), later (filterb p xs) (filterb-Held p xs))
    | inr e ↦ rw e (later (filterb p xs) (filterb-Held p xs))
  ]
    where
      later :
          (ys : List A)
          → All (λ y. Held y xs × (p y ≡ true)) ys
          → All (λ y. Held y (x ∷ xs) × (p y ≡ true)) ys
      later [] h = tt
      later (y ∷ ys) h = ((inr h.0.0, h.0.1), later ys h.1)

  pub filterb-all : (xs : List A) → filterb (λ x. true) xs ≡ xs
  filterb-all [] = refl
  filterb-all (x ∷ xs) = ap (λ l. x ∷ l) (filterb-all xs)

  pub filterb-both :
      (p q r : A → Bool) (xs : List A)
      → ((x : A) → r x ≡ (p x && q x))
      → filterb q (filterb p xs) ≡ filterb r xs
  filterb-both p q r [] h = refl
  filterb-both p q r (x ∷ xs) h = elim (Bool-cases (p x)) [
    | inl e ↦ rw (h x, e, filterb-both p q r xs h) refl
    | inr e ↦ rw (h x, e, filterb-both p q r xs h) refl
  ]
