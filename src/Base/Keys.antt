-- ===== src/Base/Keys.antt =====
-- Tables whose rows do not clash, as a unique index asks.
use mathlib.Core.Path.{◌≡◌, refl, ◌∙◌, ap}
use mathlib.Core.Logic.{inl, inr}
use mathlib.Core.Bool.{Bool, false, not}
use mathlib.Core.List.{List, [], ◌∷◌, ◌++◌, map}
use native.Mathlib.Omega.{arith}
use package.sgt.Base.Tests.{if◌then◌else◌, Bool-cases}
use package.sgt.Base.Lists.{All, any, filterb, map_where}

abbrev pub Apart {ℓ} : {A : Type ℓ} → (A → A → Bool) → List A → Type 0
Apart clash [] = Unit
Apart clash (x ∷ xs) = All (λ y. clash x y ≡ false) xs × Apart clash xs

module _ {A : Type 0} (clash : A → A → Bool) where
  All-filterb : (P : A → Type 0) (p : A → Bool) (xs : List A) → All P xs → All P (filterb p xs)
  All-filterb P p [] h = tt
  All-filterb P p (x ∷ xs) h = elim (Bool-cases (p x)) [
    | inl e ↦ rw e (h.0, All-filterb P p xs h.1)
    | inr e ↦ rw e (All-filterb P p xs h.1)
  ]

  pub filterb-Apart : (p : A → Bool) (xs : List A) → Apart clash xs → Apart clash (filterb p xs)
  filterb-Apart p [] h = tt
  filterb-Apart p (x ∷ xs) h = elim (Bool-cases (p x)) [
    | inl e ↦ rw e (All-filterb _ p xs h.0, filterb-Apart p xs h.1)
    | inr e ↦ rw e (filterb-Apart p xs h.1)
  ]

  All-snoc : (P : A → Type 0) (y : A) (xs : List A) → All P xs → P y → All P (xs ++ y ∷ [])
  All-snoc P y [] h k = (k, tt)
  All-snoc P y (x ∷ xs) h k = (h.0, All-snoc P y xs h.1 k)

  -- A row that no row clashes with.
  pub snoc-Apart :
      (y : A) (xs : List A)
      → any (λ x. clash x y) xs ≡ false
      → Apart clash xs
      → Apart clash (xs ++ y ∷ [])
  snoc-Apart y [] e h = (tt, tt)
  snoc-Apart y (x ∷ xs) e h =
      let e0 : clash x y ≡ false = ground arith in
      let e1 : any (λ x. clash x y) xs ≡ false = ground arith in
      (All-snoc _ y xs h.0 e0, snoc-Apart y xs e1 h.1)

  pub any-filterb-not :
      (y : A) (xs : List A) → any (λ x. clash x y) (filterb (λ x. not (clash x y)) xs) ≡ false
  any-filterb-not y [] = refl
  any-filterb-not y (x ∷ xs) = elim (Bool-cases (clash x y)) [
    | inl e ↦ rw e (any-filterb-not y xs)
    | inr e ↦ rw e (ground (arith, any-filterb-not y xs))
  ]

  module _ (f : A → A) (same : (x y : A) → clash (f x) (f y) ≡ clash x y) where
    All-map :
        (x : A) (xs : List A)
        → All (λ y. clash x y ≡ false) xs
        → All (λ y. clash (f x) y ≡ false) (map f xs)
    All-map x [] h = tt
    All-map x (y ∷ ys) h = (same x y ∙ h.0, All-map x ys h.1)

    pub map-Apart : (xs : List A) → Apart clash xs → Apart clash (map f xs)
    map-Apart [] h = tt
    map-Apart (x ∷ xs) h = (All-map x xs h.0, map-Apart xs h.1)

pub map_where-map :
    {A : Type 0} (p : A → Bool) (f : A → A) (xs : List A)
    → map_where p f xs ≡ map (λ x. if p x then f x else x) xs
map_where-map p f [] = refl
map_where-map p f (x ∷ xs) = ap (λ l. (if p x then f x else x) ∷ l) (map_where-map p f xs)

-- A rewriting that keeps the key.
pub choice-key :
    {A K : Type 0} (key : A → K) (p : A → Bool) (f : A → A)
    → ((x : A) → key (f x) ≡ key x)
    → (x : A) → key (if p x then f x else x) ≡ key x
choice-key key p f h x = elim (Bool-cases (p x)) [ inl e ↦ rw e (h x) | inr e ↦ rw e refl ]

pub map_where-Apart :
    {A K : Type 0} (key : A → K) (clash : K → K → Bool) (p : A → Bool) (f : A → A)
    → ((x : A) → key (f x) ≡ key x)
    → (xs : List A) → Apart (λ x y. clash (key x) (key y)) xs
    → Apart (λ x y. clash (key x) (key y)) (map_where p f xs)
map_where-Apart key clash p f h xs a =
    let c = choice-key key p f h in
    rw (map_where-map p f xs) (
      map-Apart (λ x y. clash (key x) (key y)) (λ x. if p x then f x else x)
        (λ x y. rw (c x, c y) refl) xs a)
