-- ===== src/Store/Horizon.antt =====
-- internal/store/retention.go: what a rotation of artifacts removes, while the database refuses no
-- statement.
use sgt.Base.{
  ℕ, suc, ◌+◌, String, Bool, true, ◌&&◌, ◌||◌, List, [], ◌∷◌, str_eq, ltb, if◌then◌else◌, any, all,
  filterb, length, not, ok, remove_failed, quiet, Exec, pure, refl, ap, ◌≡◌, ◌∙◌, inl, inr,
  Bool-cases, arith, none, some, on_error,
}
use sgt.Store.World.{ArtifactRecord, World, Rotation}
use sgt.Store.Artifacts.{
  has_artifact_id, remove_file, delete_artifact, rotate_artifacts_each, rotate_artifacts,
}
use sgt.Store.Chosen.{filterb-both, filterb-all}

module _ (refuses : String → Bool) where
  -- An artifact without a file, or whose file can be removed.
  abbrev pub removable : ArtifactRecord → Bool
  removable a = str_eq a.path "" || not (refuses a.path)

  -- The artifacts before the first whose file cannot be removed.
  abbrev pub until_refused : List ArtifactRecord → List ArtifactRecord
  until_refused [] = []
  until_refused (a ∷ rest) = let more = until_refused rest in if removable a then a ∷ more else []

  abbrev pub named_by : List ArtifactRecord → String → Bool
  named_by gone id = any (λ c. str_eq id c.id) gone

  abbrev pub file_of : List ArtifactRecord → String → Bool
  file_of gone file = any (λ c. not (str_eq c.path "") && str_eq file c.path) gone

  abbrev pub left : List ArtifactRecord → World → World
  left gone w = record w {
    artifacts = filterb (λ a. not (named_by gone a.id)) w.artifacts;
    files = filterb (λ f. not (file_of gone f)) w.files;
  }

  -- One candidate, then the rest of them.
  step : ArtifactRecord → World → World
  step a w = record w {
    artifacts = filterb (λ b. not (has_artifact_id a.id b)) w.artifacts;
    files = if str_eq a.path "" then w.files else filterb (λ f. not (str_eq f a.path)) w.files;
  }

  left-step :
      (a : ArtifactRecord) (gone : List ArtifactRecord) (w : World)
      → left gone (step a w) ≡ left (a ∷ gone) w
  unfolding step
  left-step a gone w = λ i. record w { artifacts = rows i; files = files i }
    where
      rows :
          filterb
            (λ b. not (named_by gone b.id))
            (filterb (λ b. not (has_artifact_id a.id b)) w.artifacts)
          ≡ filterb (λ b. not (named_by (a ∷ gone) b.id)) w.artifacts
      rows = filterb-both _ _ _ w.artifacts (λ b. ground arith)

      files :
          filterb (λ f. not (file_of gone f)) (step a w).files
          ≡ filterb (λ f. not (file_of (a ∷ gone) f)) w.files
      files = elim (Bool-cases (str_eq a.path "")) [
        | inl e ↦ rw e refl
        | inr e ↦ rw e (
            filterb-both _ _ _ w.files
              (λ f. elim (Bool-cases (str_eq f a.path)) [ inl q ↦ rw q refl | inr q ↦ rw q refl ]))
      ]

  -- The number of the artifacts removed, and the failed removal if there is one.
  abbrev pub verdict : List ArtifactRecord → ℕ → Rotation
  verdict old m =
      (m + length (until_refused old), if all removable old then none else some remove_failed)

  first_step :
      (a : ArtifactRecord) (m : ℕ) (next : Exec World Rotation) (w : World) (n : ℕ)
      → on_error
          (if str_eq a.path "" then pure tt else remove_file refuses a.path)
          (λ e. pure (m, some e))
          (λ _. on_error (delete_artifact refuses a.id) (λ e. pure (m, some e)) (λ _. next))
          (quiet w n)
        ≡ (if removable a
            then next (quiet (step a w) n)
            else (ok (m, some remove_failed), quiet w n))
  unfolding delete_artifact remove_file step
  first_step a m next w n = elim (Bool-cases (str_eq a.path "")) [
    | inl e ↦ rw e refl
    | inr e ↦ elim (Bool-cases (refuses a.path)) [ inl q ↦ rw (e, q) refl | inr q ↦ rw (e, q) refl ]
  ]

  rotate_artifacts_each-quiet :
      (old : List ArtifactRecord) (m : ℕ) (w : World) (n : ℕ)
      → rotate_artifacts_each refuses old m (quiet w n)
        ≡ (ok (verdict old m), quiet (left (until_refused old) w) n)
  unfolding rotate_artifacts_each
  rotate_artifacts_each-quiet [] m w n =
      let a : m + 0 ≡ m = omega arith in rw (a, filterb-all w.artifacts, filterb-all w.files) refl
  rotate_artifacts_each-quiet (a ∷ rest) m w n =
      let next =
        rotate_artifacts_each-quiet rest (m + 1) (step a w) n
        ∙ ap (λ z. (ok (verdict rest (m + 1)), quiet z n)) (left-step a (until_refused rest) w) in
      let more : m + suc (length (until_refused rest)) ≡ m + 1 + length (until_refused rest) =
        omega arith in
      let none_yet : m + 0 ≡ m = omega arith in
      first_step a m (rotate_artifacts_each refuses rest (m + 1)) w n
      ∙ elim (Bool-cases (removable a)) [
        | inl e ↦ rw (e, more) next
        | inr e ↦ rw (e, none_yet, filterb-all w.artifacts, filterb-all w.files) refl
      ]

  -- A rotation of artifacts, while the database refuses no statement, takes the old artifacts in
  -- turn up to the first whose file cannot be removed: exactly these lose their row and their
  -- file. It reports their number, together with the failed removal if there is one.
  pub rotate_artifacts-outcome :
      (has_table : World → Bool) (cutoff : ℕ) (w : World) (n : ℕ)
      → has_table w ≡ true
      → rotate_artifacts refuses has_table cutoff (quiet w n) ≡ (
        ok (verdict (filterb (λ a. ltb a.captured_at cutoff) w.artifacts) 0),
        quiet (left (until_refused (filterb (λ a. ltb a.captured_at cutoff) w.artifacts)) w) n,
      )
  unfolding rotate_artifacts
  rotate_artifacts-outcome has_table cutoff w n h =
      rw h (rotate_artifacts_each-quiet (filterb (λ a. ltb a.captured_at cutoff) w.artifacts) 0 w n)
