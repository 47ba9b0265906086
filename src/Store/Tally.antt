-- ===== src/Store/Tally.antt =====
-- Counting the rows that pass a test, while rows are removed by their key.
use sgt.Base.{
  ℕ, ◌+◌, String, Bool, true, false, List, [], ◌∷◌, str_eq, filterb, not, refl, ◌≡◌, ◌⊎◌, inl, inr,
  arith, All, Bool-cases, eq_iff, eq_true,
}
use sgt.Base.Keys.{Apart}
use mathlib.Core.Path.{subst}

abbrev pub one : Bool → ℕ
one true = 1
one false = 0

abbrev pub tally {ℓ} : {A : Type ℓ} → (A → Bool) → List A → ℕ
tally p [] = 0
tally p (x ∷ xs) = one (p x) + tally p xs

abbrev pub Held : {A : Type 0} → A → List A → Type 0
Held c [] = ⊥
Held c (x ∷ xs) = (x ≡ c) ⊎ Held c xs

module _ {A : Type 0} where
  pub Held-All : (P : A → Type 0) (c : A) (xs : List A) → Held c xs → All P xs → P c
  Held-All P c [] h a = elim h [ ]
  Held-All P c (x ∷ xs) (inl e) a = subst P e a.0
  Held-All P c (x ∷ xs) (inr h) a = Held-All P c xs h a.1

  pub tally-same :
      (p q : A → Bool) (xs : List A) → All (λ x. p x ≡ q x) xs → tally p xs ≡ tally q xs
  tally-same p q [] h = refl
  tally-same p q (x ∷ xs) h = rw (h.0, tally-same p q xs h.1) refl

  pub filterb-whole : (p : A → Bool) (xs : List A) → All (λ x. p x ≡ true) xs → filterb p xs ≡ xs
  filterb-whole p [] h = refl
  filterb-whole p (x ∷ xs) h = rw (h.0, filterb-whole p xs h.1) refl

  pub filterb-passes : (p : A → Bool) (xs : List A) → All (λ x. p x ≡ true) (filterb p xs)
  filterb-passes p [] = tt
  filterb-passes p (x ∷ xs) = elim (Bool-cases (p x)) [
    | inl e ↦ rw e (e, filterb-passes p xs)
    | inr e ↦ rw e (filterb-passes p xs)
  ]

  -- A second filter that lets through all that the first one does.
  pub filterb-filterb :
      (p q : A → Bool) (xs : List A)
      → ((x : A) → q x ≡ true → p x ≡ true)
      → filterb q (filterb p xs) ≡ filterb q xs
  filterb-filterb p q [] h = refl
  filterb-filterb p q (x ∷ xs) h = elim (Bool-cases (p x)) [
    | inl e ↦ rw (e, filterb-filterb p q xs h) refl
    | inr e ↦ elim (Bool-cases (q x)) [
      | inl e' ↦ ground (arith, h x e')
      | inr e' ↦ rw (e, e', filterb-filterb p q xs h) refl
    ]
  ]

module _ {A : Type 0} (key : A → String) where
  abbrev pub Distinct : List A → Type 0
  Distinct xs = Apart (λ x y. str_eq (key x) (key y)) xs

  abbrev pub other_than : String → A → Bool
  other_than k x = not (str_eq (key x) k)

  Others :
      (k : String) (xs : List A)
      → All (λ y. str_eq k (key y) ≡ false) xs
      → All (λ y. other_than k y ≡ true) xs
  Others k [] h = tt
  Others k (x ∷ xs) h = (ground (arith, h.0, eq_iff k (key x), eq_iff (key x) k), Others k xs h.1)

  -- The removal of a row takes its own share of the count.
  pub tally-without :
      (p : A → Bool) (c : A) (xs : List A)
      → Distinct xs
      → Held c xs
      → tally p xs ≡ one (p c) + tally p (filterb (other_than (key c)) xs)
  tally-without p c [] d h = elim h [ ]
  tally-without p c (x ∷ xs) d (inl e) =
      subst (λ z. tally p (x ∷ xs) ≡ one (p z) + tally p (filterb (other_than (key z)) (x ∷ xs))) e
        (rw
          (
            eq_true (key x) (key x) refl,
            filterb-whole (other_than (key x)) xs (Others (key x) xs d.0),
          )
          refl)
  tally-without p c (x ∷ xs) d (inr h) =
      let apart : str_eq (key x) (key c) ≡ false = Held-All _ c xs h d.0 in
      rw apart (omega (arith, tally-without p c xs d.1 h))
