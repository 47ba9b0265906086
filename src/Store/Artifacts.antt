-- ===== src/Store/Artifacts.antt =====
-- internal/store/artifact.go, and RotateArtifacts of retention.go.
--
-- `refuses` says of which paths os.Remove fails for another reason than that there is no file;
-- `has_table` is the answer of hasTable("artifacts"); `text_le` the collation of an ORDER BY.
use sgt.Base.{
  ℕ, ◌+◌, String, Bool, ◌&&◌, ◌||◌, Option, List, [], ◌∷◌, ◌++◌, str_eq, ltb, ◌==◌, if◌then◌else◌,
  any, filterb, find?, not, Result, ok, err, duplicate_id, remove_failed, Exec, pure, select,
  execute, update, on_error, none, some,
}
use sgt.Store.World.{ArtifactRecord, World, Rotation}

abbrev pub has_artifact_id : String → ArtifactRecord → Bool
has_artifact_id id a = str_eq a.id id

-- PRIMARY KEY (id)
unfoldable pub artifact_insert : ArtifactRecord → World → Result World
artifact_insert a w =
    if any (has_artifact_id a.id) w.artifacts
    then err (duplicate_id a.id)
    else ok (record w { artifacts = w.artifacts ++ a ∷ [] })

unfoldable pub record_artifact : ArtifactRecord → Exec World (Unit {0})
record_artifact a = execute (artifact_insert a)

unfoldable pub get_artifact : String → Exec World (Option ArtifactRecord)
get_artifact id = select (λ w. find? (has_artifact_id id) w.artifacts)

module _ (text_le : String → String → Bool) where
  -- ORDER BY captured_at ASC, id ASC
  unfoldable pub comes_first : ArtifactRecord → ArtifactRecord → Bool
  comes_first a b =
      ltb a.captured_at b.captured_at || (a.captured_at == b.captured_at && text_le a.id b.id)

  unfoldable pub insert_artifact : ArtifactRecord → List ArtifactRecord → List ArtifactRecord
  insert_artifact a [] = a ∷ []
  insert_artifact a (b ∷ bs) =
      let later = b ∷ insert_artifact a bs in if comes_first a b then a ∷ b ∷ bs else later

  unfoldable pub order_artifacts : List ArtifactRecord → List ArtifactRecord
  unfolding insert_artifact
  order_artifacts [] = []
  order_artifacts (a ∷ bs) = insert_artifact a (order_artifacts bs)

  unfoldable pub list_artifacts_for_run : String → Exec World (List ArtifactRecord)
  list_artifacts_for_run run_id =
      select (λ w. order_artifacts (filterb (λ a. str_eq a.run_id run_id) w.artifacts))

module _ (refuses : String → Bool) where
  -- os.Remove, where a file that is not there counts as removed.
  unfoldable pub remove_file : String → Exec World (Unit {0})
  remove_file path d = if refuses path then (err remove_failed, d) else (
    ok tt,
    record d { db = record d.db { files = filterb (λ f. not (str_eq f path)) d.db.files } },
  )

  unfoldable pub delete_artifact : String → Exec World (Unit {0})
  delete_artifact id =
      update (λ w. record w { artifacts = filterb (λ a. not (has_artifact_id id a)) w.artifacts })

  -- The loop over the candidates, with the number rotated so far.
  unfoldable pub rotate_artifacts_each : List ArtifactRecord → ℕ → Exec World Rotation
  rotate_artifacts_each [] rotated = pure (rotated, none)
  rotate_artifacts_each (a ∷ rest) rotated =
      on_error (if str_eq a.path "" then pure tt else remove_file a.path)
        (λ e. pure (rotated, some e))
        (λ _.
          on_error (delete_artifact a.id) (λ e. pure (rotated, some e))
            (λ _. rotate_artifacts_each rest (rotated + 1)))

  unfoldable pub rotate_artifacts : (World → Bool) → ℕ → Exec World Rotation
  rotate_artifacts has_table cutoff =
      on_error (select has_table) (λ e. pure (0, some e))
        (λ has.
          if not has
          then pure (0, none)
          else on_error (select (λ w. filterb (λ a. ltb a.captured_at cutoff) w.artifacts))
              (λ e. pure (0, some e)) (λ candidates. rotate_artifacts_each candidates 0))
