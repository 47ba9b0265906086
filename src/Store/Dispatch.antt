-- ===== src/Store/Dispatch.antt =====
-- internal/store/store.go: the label and the idempotency key of a dispatch, while the database
-- refuses no statement.
use sgt.Base.{
  ℕ, zero, suc, ◌+◌, String, Bool, true, false, Option, none, some, List, [], ◌∷◌, ◌++◌, str_eq,
  any, find?, duplicate_request_id, Disk, time_now, ◌>>=◌, ◌>>◌, execute, refl, ◌≡◌, ok, err,
  Result, quiet, arith, inl, inr, Bool-cases, Option-cases, ◌⊎◌, eq_true, ◌≤◌, ◌<◌,
}
use mathlib.Core.Path.{subst}
use native.Mathlib.Decide.{dec_lt}
use sgt.Store.Types.{RunRecord, Tables}
use sgt.Store.Changes.{record_transition, append_change, append_row, notify_change}
use sgt.Store.Rows.{one_row}
use sgt.Store.Runs.{assign_slug, run_insert, create_run, announce_run, has_id, has_request_id}
use sgt.Store.Runs.{taken_slugs, is_taken, first_free, get_run_by_request_id}
use sgt.Naming.{slug_attempt}

-- All the candidates from the n-th to before the m-th are taken.
abbrev pub Taken : (ℕ → String) → List String → ℕ → ℕ → Type 0
Taken candidate taken n m = (j : ℕ) → n ≤ j → j < m → is_taken taken (candidate j) ≡ true

-- The label is the first free candidate from the n-th to before the m-th, or all of them are
-- taken and it is the id.
abbrev pub Picked : (ℕ → String) → List String → String → ℕ → ℕ → String → Type 0
Picked candidate taken id n m s =
    ((k : ℕ) × (n ≤ k)
      × (k < m)
      × (s ≡ candidate k)
      × (is_taken taken (candidate k) ≡ false)
      × Taken candidate taken n k)
    ⊎ ((s ≡ id) × Taken candidate taken n m)

module _ (candidate : ℕ → String) (taken : List String) (id : String) where
  Taken-first :
      (n m : ℕ)
      → is_taken taken (candidate n) ≡ true
      → Taken candidate taken (n + 1) m
      → Taken candidate taken n m
  Taken-first n m e rest j l h = elim (dec_lt n j) [
    | yes p ↦ rest j (omega (arith, p)) h
    | no p ↦
        let same : n ≡ j = omega (arith, l, p) in
        subst (λ i. is_taken taken (candidate i) ≡ true) same e
  ]

  Picked-later :
      (n m : ℕ) (s : String)
      → is_taken taken (candidate n) ≡ true
      → Picked candidate taken id (n + 1) m s
      → Picked candidate taken id n m s
  Picked-later n m s e (inl (k, l, h, p, free, rest)) =
      inl (k, omega (arith, l), h, p, free, Taken-first n k e rest)
  Picked-later n m s e (inr (p, rest)) = inr (p, Taken-first n m e rest)

  first_free-Picked :
      (left n : ℕ) → Picked candidate taken id n (n + left) (first_free candidate taken id left n)
  unfolding first_free
  first_free-Picked zero n = inr (refl, λ j l h. absurd (omega (arith, l, h)))
  first_free-Picked (suc left) n = elim (Bool-cases (is_taken taken (candidate n))) [
    | inl e ↦
        let same : n + suc left ≡ n + 1 + left = omega arith in
        rw (e, same)
          (Picked-later n (n + 1 + left) (first_free candidate taken id left (n + 1)) e
            (first_free-Picked left (n + 1)))
    | inr e ↦
        rw e (inl (n, omega arith, omega arith, refl, e, λ j l h. absurd (omega (arith, l, h))))
  ]

module _ (digest : String → ℕ) (numbered : String → ℕ → String) where
  abbrev pub Labelled : RunRecord → Tables → Result RunRecord × Disk Tables → Type 0
  Labelled r t p =
      (s : String) × (p.0 ≡ ok (record r { slug = s }))
      × (p.1.db ≡ t)
      × Picked (slug_attempt digest numbered r.id) (taken_slugs t) r.id 0 64 s

  -- While the database refuses no statement, a run that comes without a label gets the first of its 64
  -- candidates that no run in progress holds, or, only if every one of them is held, its own id, and
  -- nothing is written.
  pub assign_slug-Labelled :
      (r : RunRecord) (t : Tables) (now : ℕ)
      → r.slug ≡ ""
      → Labelled r t (assign_slug digest numbered r (quiet t now))
  unfolding assign_slug
  assign_slug-Labelled r t now e =
      let q : str_eq r.slug "" ≡ true = eq_true r.slug "" e in
      rw q (
        _,
        refl,
        refl,
        first_free-Picked (slug_attempt digest numbered r.id) (taken_slugs t) r.id 64 0,
      )

find?-none : {A : Type 0} (p : A → Bool) (xs : List A) → find? p xs ≡ none → any p xs ≡ false
find?-none p [] h = refl
find?-none p (x ∷ xs) h = elim (Bool-cases (p x)) [
  | inl e ↦ absurd (ground arith)
  | inr e ↦ let rest : find? p xs ≡ none = ground arith in rw e (find?-none p xs rest)
]

find?-any :
    {A : Type 0} (p : A → Bool) (xs : List A) (x : A) → find? p xs ≡ some x → any p xs ≡ true
find?-any p [] x h = absurd (ground arith)
find?-any p (y ∷ ys) x h = elim (Bool-cases (p y)) [
  | inl e ↦ rw e refl
  | inr e ↦ let rest : find? p ys ≡ some x = ground arith in rw e (find?-any p ys x rest)
]

find?-snoc :
    {A : Type 0} (p : A → Bool) (xs : List A) (y : A)
    → any p xs ≡ false
    → p y ≡ true
    → find? p (xs ++ y ∷ []) ≡ some y
find?-snoc p [] y h e = rw e refl
find?-snoc p (x ∷ xs) y h e =
    let q : p x ≡ false = ground arith in
    let rest : any p xs ≡ false = ground arith in rw q (find?-snoc p xs y rest e)

module _ (digest : String → ℕ) (numbered : String → ℕ → String) (trim : String → String) where
  -- The outcome of a dispatch, by the run that holds its key.
  abbrev pub Claims :
      RunRecord → Tables → Option RunRecord → Result (Unit {0}) × Disk Tables → Type 0
  Claims r t none p =
      (p.0 ≡ ok tt)
      × (row : RunRecord) × ((get_run_by_request_id trim r.request_id p.1).0 ≡ ok row)
      × (row.id ≡ r.id)
  Claims r t (some original) p =
      (p.0 ≡ err (duplicate_request_id (trim r.request_id)))
      × (p.1.db ≡ t)
      × ((get_run_by_request_id trim r.request_id p.1).0 ≡ ok original)

  created :
      (r : RunRecord) (label : String) (t : Tables) (now : ℕ)
      → str_eq (trim r.request_id) "" ≡ false
      → any (has_id r.id) t.runs ≡ false
      → Claims r t (find? (has_request_id (trim r.request_id)) t.runs) (
          (time_now >>= λ n.
          let row = record r {
            slug = label;
            created_at = n;
            updated_at = n;
            request_id = trim r.request_id;
          } in
          execute (run_insert row) >> announce_run row)
            (quiet t now))
  unfolding run_insert get_run_by_request_id one_row record_transition append_change append_row
      notify_change
  created r label t now n f =
      elim (Option-cases (find? (has_request_id (trim r.request_id)) t.runs)) [
        | inl e ↦
            let key = trim r.request_id in
            let row : RunRecord = record r {
              slug = label;
              created_at = now;
              updated_at = now;
              request_id = key;
            } in
            let g = find?-none (has_request_id key) t.runs e in
            let own : has_request_id key row ≡ true = ground (arith, eq_true key key refl) in
            rw (e, f, g)
              (refl, row, rw (n, find?-snoc (has_request_id key) t.runs row g own) refl, refl)
        | inr (original, e) ↦
            let key = trim r.request_id in
            rw (e, f, find?-any (has_request_id key) t.runs original e) (refl, refl, rw (n, e) refl)
      ]

  -- A dispatch with a key and a new id either claims the key, and the key then finds the new run,
  -- or finds it claimed: then it fails with the error for a repeated key, writes nothing, and the
  -- key finds the original run. The key's uses are compared after TrimSpace.
  pub create_run-Claims :
      (r : RunRecord) (t : Tables) (now : ℕ)
      → str_eq (trim r.request_id) "" ≡ false
      → any (has_id r.id) t.runs ≡ false
      → Claims r t
          (find? (has_request_id (trim r.request_id)) t.runs)
          (create_run digest numbered trim r (quiet t now))
  unfolding create_run assign_slug
  create_run-Claims r t now n f = elim (Bool-cases (str_eq r.slug "")) [
    | inl e ↦ rw e (
        created r (first_free (slug_attempt digest numbered r.id) (taken_slugs t) r.id 64 0) t now n
          f)
    | inr e ↦ rw e (created r r.slug t now n f)
  ]
