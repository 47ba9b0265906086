-- ===== src/Server/FreshId.antt =====
-- internal/ui/workflow.go: the search for an id that no node has.
use sgt.Base.{
  ℕ, zero, suc, ◌+◌, String, true, false, not, none, some, List, [], ◌∷◌, str_eq, filterb, length,
  refl, ◌≡◌, ◌≢◌, arith, inl, inr, Bool-cases, Option-cases, ◌∙◌, ap, sym, ◌≤◌, ◌<◌, eq_false,
  eq_iff,
}
use sgt.Server.Workflow.{is_used, free_candidate, fresh_id}

-- The candidates for one id differ.
abbrev pub Distinct : (String → ℕ → String) → Type 0
Distinct numbered = (id : String) (n m : ℕ) → numbered id n ≡ numbered id m → n ≡ m

without : String → List String → List String
without id us = filterb (λ u. not (str_eq u id)) us

without-shorter :
    (id : String) (us : List String)
    → (length (without id us) ≤ length us)
      × (is_used us id ≡ true → length (without id us) < length us)
unfolding without
without-shorter id [] = (omega arith, λ h. absurd (ground arith))
without-shorter id (u ∷ us) =
    let ih = without-shorter id us in
    elim (Bool-cases (str_eq u id)) [
      | inl e ↦ rw e (omega (arith, ih.0), λ h. omega (arith, ih.0))
      | inr e ↦ rw e (omega (arith, ih.0), λ h. let k = ih.1 (ground arith) in omega (arith, k))
    ]

without-used :
    (id x : String) (us : List String) → x ≢ id → is_used (without id us) x ≡ is_used us x
unfolding without
without-used id x [] n = refl
without-used id x (u ∷ us) n =
    let ih = without-used id x us n in
    elim (Bool-cases (str_eq u id)) [
      | inl e ↦
          let ux : str_eq u x ≡ false = eq_false u x (λ q. n (sym q ∙ (eq_iff u id).0 e)) in
          rw (e, ux) ih
      | inr e ↦ rw (e, ih) refl
    ]

module _ (candidate : ℕ → String) (distinct : (n m : ℕ) → candidate n ≡ candidate m → n ≡ m) where
  free-same :
      (us vs : List String) (left n : ℕ)
      → ((m : ℕ) → n ≤ m → is_used us (candidate m) ≡ is_used vs (candidate m))
      → free_candidate candidate us left n ≡ free_candidate candidate vs left n
  unfolding free_candidate
  free-same us vs zero n h = refl
  free-same us vs (suc left) n h =
      rw (h n (omega arith), free-same us vs left (n + 1) (λ m l. h m (omega (arith, l)))) refl

  -- More candidates than ids in use: one is free.
  free-found :
      (left n : ℕ) (us : List String) → length us < left → free_candidate candidate us left n ≢ none
  unfolding free_candidate
  free-found zero n us h = absurd (omega (arith, h))
  free-found (suc left) n us h = elim (Bool-cases (is_used us (candidate n))) [
    | inr e ↦ rw e (λ q. ground arith)
    | inl e ↦
        let vs = without (candidate n) us in
        let shorter = (without-shorter (candidate n) us).1 e in
        let same = free-same us vs left (n + 1) (λ m l. sym (
          without-used (candidate n) (candidate m) us
            (λ q. let k = distinct m n q in omega (arith, k, l)))) in
        rw e (rw same (free-found left (n + 1) vs (omega (arith, shorter, h))))
  ]

  free-free :
      (left n : ℕ) (us : List String) (id : String)
      → free_candidate candidate us left n ≡ some id
      → is_used us id ≡ false
  unfolding free_candidate
  free-free zero n us id h = absurd (ground arith)
  free-free (suc left) n us id h = elim (Bool-cases (is_used us (candidate n))) [
    | inr e ↦ let same : candidate n ≡ id = ground arith in ap (λ x. is_used us x) (sym same) ∙ e
    | inl e ↦
        let rest : free_candidate candidate us left (n + 1) ≡ some id = ground arith in
        free-free left (n + 1) us id rest
  ]

module _ (numbered : String → ℕ → String) (distinct : Distinct numbered) where
  pub fresh_id-fresh :
      (us : List String) (id : String)
      → (new : String) × (fresh_id numbered us id ≡ some new) × (is_used us new ≡ false)
  unfolding fresh_id
  fresh_id-fresh us id = elim (Bool-cases (is_used us id)) [
    | inr e ↦ rw e (id, refl, e)
    | inl e ↦ elim (Option-cases (free_candidate (numbered id) us (suc (length us)) 2)) [
      | inl k ↦
          absurd (free-found (numbered id) (distinct id) (suc (length us)) 2 us (omega arith) k)
      | inr (new, k) ↦
          rw e (new, k, free-free (numbered id) (distinct id) (suc (length us)) 2 us new k)
    ]
  ]
