-- ===== src/Store/Rollups.antt =====
-- internal/store/retention.go: what an upsert does to the sum of a count over the rollups.
use sgt.Base.{
  ℕ, ◌+◌, String, Bool, true, false, none, some, List, [], ◌∷◌, ◌++◌, str_eq, if◌then◌else◌, any,
  map_where, refl, sym, ◌≡◌, inl, inr, ◌∙◌, arith, All, Bool-cases, eq_iff, eq_true, map,
}
use sgt.Base.Keys.{snoc-Apart, map-Apart, map_where-map}
use sgt.Store.World.{RetentionRollup}
use sgt.Store.Retention.{rollup_of, of_project, upserted, current_rollup, no_rollup}
use sgt.Store.Analytics.{only, order, insert_text}
use sgt.Store.Rotation.{found_rollups}
use sgt.Store.Tally.{Distinct}

abbrev pub Projects : List RetentionRollup → Type 0
Projects rs = Distinct (λ r. r.project) rs

abbrev pub sum_of {ℓ} : {A : Type ℓ} → (A → ℕ) → List A → ℕ
sum_of f [] = 0
sum_of f (x ∷ xs) = f x + sum_of f xs

sum_of-append :
    {A : Type 0} (f : A → ℕ) (xs ys : List A) → sum_of f (xs ++ ys) ≡ sum_of f xs + sum_of f ys
sum_of-append f [] ys = omega arith
sum_of-append f (x ∷ xs) ys = omega (arith, sum_of-append f xs ys)

sum_of-same :
    {A : Type 0} (f g : A → ℕ) (xs : List A) → All (λ x. f x ≡ g x) xs → sum_of f xs ≡ sum_of g xs
sum_of-same f g [] h = refl
sum_of-same f g (x ∷ xs) h = omega (arith, h.0, sum_of-same f g xs h.1)

sum_of-map :
    {A B : Type 0} (f : B → ℕ) (g : A → B) (xs : List A)
    → sum_of f (map g xs) ≡ sum_of (λ x. f (g x)) xs
sum_of-map f g [] = refl
sum_of-map f g (x ∷ xs) = omega (arith, sum_of-map f g xs)

-- The ORDER BY does not change a sum.
module _ (text_le : String → String → Bool) (f : String → ℕ) where
  sum_of-insert_text :
      (x : String) (ys : List String) → sum_of f (insert_text text_le x ys) ≡ f x + sum_of f ys
  unfolding insert_text
  sum_of-insert_text x [] = refl
  sum_of-insert_text x (y ∷ ys) = elim (Bool-cases (text_le x y)) [
    | inl e ↦ rw e refl
    | inr e ↦ rw e (omega (arith, sum_of-insert_text x ys))
  ]

  sum_of-order : (xs : List String) → sum_of f (order text_le xs) ≡ sum_of f xs
  unfolding order
  sum_of-order [] = refl
  sum_of-order (x ∷ xs) = omega (arith, sum_of-insert_text x (order text_le xs), sum_of-order xs)

-- The projects of the rollups find all of them again.
rollup_of-Projects :
    (rs : List RetentionRollup) → Projects rs → All (λ r. rollup_of r.project rs ≡ some r) rs
rollup_of-Projects [] d = tt
rollup_of-Projects (x ∷ xs) d =
    (rw (eq_true x.project x.project refl) refl, go xs d.0 (rollup_of-Projects xs d.1))
  where
    go :
        (ys : List RetentionRollup)
        → All (λ y. str_eq x.project y.project ≡ false) ys
        → All (λ r. rollup_of r.project xs ≡ some r) ys
        → All (λ r. rollup_of r.project (x ∷ xs) ≡ some r) ys
    go [] a h = tt
    go (y ∷ ys) a h = (rw a.0 h.0, go ys a.1 h.1)

module _ (kept : RetentionRollup → ℕ) where
  sum_of-found :
      (ps : List String) (rs : List RetentionRollup)
      → sum_of kept (found_rollups ps rs) ≡ sum_of (λ p. sum_of kept (only (rollup_of p rs))) ps
  unfolding found_rollups
  sum_of-found [] rs = refl
  sum_of-found (p ∷ ps) rs =
      omega (
        arith,
        sum_of-append kept (only (rollup_of p rs)) (found_rollups ps rs),
        sum_of-found ps rs,
      )

  -- The combined view counts each rollup once.
  pub sum_of-rollups :
      (text_le : String → String → Bool) (rs : List RetentionRollup)
      → Projects rs
      → sum_of kept (found_rollups (order text_le (map (λ r. r.project) rs)) rs) ≡ sum_of kept rs
  unfolding only
  sum_of-rollups text_le rs d =
      let f : String → ℕ = λ p. sum_of kept (only (rollup_of p rs)) in
      let each = rollup_of-Projects rs d in
      sum_of-found (order text_le (map (λ r. r.project) rs)) rs
      ∙ sum_of-order text_le f (map (λ r. r.project) rs)
      ∙ sum_of-map f (λ r. r.project) rs
      ∙ sum_of-same (λ r. f r.project) kept rs (go rs each)
    where
      go :
          (ys : List RetentionRollup)
          → All (λ r. rollup_of r.project rs ≡ some r) ys
          → All (λ r. sum_of kept (only (rollup_of r.project rs)) ≡ kept r) ys
      go [] h = tt
      go (y ∷ ys) h = (rw h.0 (omega arith), go ys h.1)

module _ (r : RetentionRollup) where
  abbrev put : List RetentionRollup → List RetentionRollup
  put rs = map_where (of_project r.project) (λ _. r) rs

  put-other :
      (q : String) (rs : List RetentionRollup)
      → str_eq r.project q ≡ false
      → rollup_of q (put rs) ≡ rollup_of q rs
  put-other q [] n = refl
  put-other q (x ∷ xs) n = elim (Bool-cases (str_eq x.project r.project)) [
    | inl e ↦
        let apart : str_eq x.project q ≡ false = ground (arith, n, e, eq_iff x.project r.project) in
        rw (e, n, apart, put-other q xs n) refl
    | inr e ↦ rw (e, put-other q xs n) refl
  ]

  put-own :
      (rs : List RetentionRollup)
      → any (of_project r.project) rs ≡ true
      → rollup_of r.project (put rs) ≡ some r
  put-own [] h = ground arith
  put-own (x ∷ xs) h = elim (Bool-cases (str_eq x.project r.project)) [
    | inl e ↦ rw (e, eq_true r.project r.project refl) refl
    | inr e ↦ rw (e, e, put-own xs (ground (arith, h, e))) refl
  ]

  append-other :
      (q : String) (rs : List RetentionRollup)
      → str_eq r.project q ≡ false
      → rollup_of q (rs ++ r ∷ []) ≡ rollup_of q rs
  append-other q [] n = rw n refl
  append-other q (x ∷ xs) n = rw (append-other q xs n) refl

  append-own :
      (rs : List RetentionRollup)
      → any (of_project r.project) rs ≡ false
      → rollup_of r.project (rs ++ r ∷ []) ≡ some r
  append-own [] h = rw (eq_true r.project r.project refl) refl
  append-own (x ∷ xs) h =
      let e : str_eq x.project r.project ≡ false = ground (arith, h) in
      rw (e, append-own xs (ground (arith, h))) refl

  -- An upsert is read back, and no other project's rollup changes.
  pub upserted-own : (rs : List RetentionRollup) → rollup_of r.project (upserted r rs) ≡ some r
  unfolding upserted
  upserted-own rs = elim (Bool-cases (any (of_project r.project) rs)) [
    | inl e ↦ rw e (put-own rs e)
    | inr e ↦ rw e (append-own rs e)
  ]

  pub upserted-other :
      (q : String) (rs : List RetentionRollup)
      → str_eq r.project q ≡ false
      → rollup_of q (upserted r rs) ≡ rollup_of q rs
  unfolding upserted
  upserted-other q rs n = elim (Bool-cases (any (of_project r.project) rs)) [
    | inl e ↦ rw e (put-other q rs n)
    | inr e ↦ rw e (append-other q rs n)
  ]

  choice-project :
      (x : RetentionRollup) → (if str_eq x.project r.project then r else x).project ≡ x.project
  choice-project x = elim (Bool-cases (str_eq x.project r.project)) [
    | inl e ↦ rw e (sym ((eq_iff x.project r.project).0 e))
    | inr e ↦ rw e refl
  ]

  put-Projects : (rs : List RetentionRollup) → Projects rs → Projects (put rs)
  put-Projects rs d = rw (map_where-map (of_project r.project) (λ _. r) rs) (
      map-Apart (λ x y. str_eq x.project y.project)
        (λ x. if str_eq x.project r.project then r else x)
        (λ x y. rw (choice-project x, choice-project y) refl) rs d)

  pub upserted-Projects : (rs : List RetentionRollup) → Projects rs → Projects (upserted r rs)
  unfolding upserted
  upserted-Projects rs d = elim (Bool-cases (any (of_project r.project) rs)) [
    | inl e ↦ rw e (put-Projects rs d)
    | inr e ↦ rw e (snoc-Apart (λ x y. str_eq x.project y.project) r rs e d)
  ]

  module _ (kept : RetentionRollup → ℕ) (empty : (p : String) → kept (no_rollup p) ≡ 0) where
    sum_of-put :
        (rs : List RetentionRollup)
        → Projects rs
        → any (of_project r.project) rs ≡ true
        → sum_of kept (put rs) + kept (current_rollup r.project (rollup_of r.project rs))
          ≡ sum_of kept rs + kept r
    sum_of-put [] d h = ground arith
    sum_of-put (x ∷ xs) d h = elim (Bool-cases (str_eq x.project r.project)) [
      | inl e ↦
          rw (e, put-whole xs (ground (arith, (eq_iff x.project r.project).0 e)) d.0) (omega arith)
      | inr e ↦ rw e (omega (arith, sum_of-put xs d.1 (ground (arith, h, e))))
    ]
      where
        put-whole :
            (ys : List RetentionRollup)
            → x.project ≡ r.project
            → All (λ y. str_eq x.project y.project ≡ false) ys
            → put ys ≡ ys
        put-whole [] e a = refl
        put-whole (y ∷ ys) e a =
            let n : str_eq y.project r.project ≡ false =
              ground (arith, a.0, e, eq_iff x.project y.project, eq_iff y.project r.project) in
            rw (n, put-whole ys e a.1) refl

    -- An upsert changes a sum by the change of its own row.
    pub sum_of-upserted :
        (rs : List RetentionRollup)
        → Projects rs
        → sum_of kept (upserted r rs) + kept (current_rollup r.project (rollup_of r.project rs))
          ≡ sum_of kept rs + kept r
    unfolding upserted
    sum_of-upserted rs d = elim (Bool-cases (any (of_project r.project) rs)) [
      | inl e ↦ rw e (sum_of-put rs d e)
      | inr e ↦ rw (e, absent rs e) (omega (arith, sum_of-append kept rs (r ∷ []), empty r.project))
    ]
      where
        absent :
            (rs : List RetentionRollup)
            → any (of_project r.project) rs ≡ false
            → rollup_of r.project rs ≡ none
        absent [] h = refl
        absent (x ∷ xs) h =
            let n : str_eq x.project r.project ≡ false = ground (arith, h) in
            rw (n, absent xs (ground (arith, h))) refl
