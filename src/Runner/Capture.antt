-- ===== src/Runner/Capture.antt =====
-- internal/runner/artifacts.go: the capture of what a command left in its artifact directory.
--
-- `join` is the text of what was dropped. An error's own text is not kept in it.
use sgt.Base.{
  ℕ, ◌+◌, ◌*◌, String, List, [], ◌∷◌, ◌++◌, ltb, leb, if◌then◌else◌, length, Exec, pure, time_now,
  ◌>>=◌, on_error, ignore, not, any, str_eq, ok, ◌>>◌,
}
use sgt.Store.World.{ArtifactRecord, World}
use sgt.Store.Artifacts.{record_artifact}
use sgt.Runner.Types.{
  Host, in_world, CapturedFile, Copy, unopened, partial, complete, Outside, PhaseRunner,
}

abbrev pub max_artifact_count : ℕ
max_artifact_count = 20

abbrev pub max_artifact_total_bytes : ℕ
max_artifact_total_bytes = 25 * 1024 * 1024

-- Why a file was not kept.
pub data Drop : Type 0 where
  over_count over_bytes not_opened not_copied not_recorded : String → Drop

-- The loop's variables: what is kept so far and what was dropped.
pub record Captured : Type 0 where
  pub count : ℕ
  pub total_bytes : ℕ
  pub dropped : List Drop

abbrev pub nothing_captured : Captured
nothing_captured = record { count = 0; total_bytes = 0; dropped = [] }

abbrev pub drop : Drop → Captured → Captured
drop why c = record c { dropped = c.dropped ++ why ∷ [] }

abbrev pub keep : ℕ → Captured → Captured
keep size c = record c { count = c.count + 1; total_bytes = c.total_bytes + size }

-- os.OpenFile creates the file, or empties the one that is there.
unfoldable pub place_file : String → Exec World (Unit {0})
place_file path d = (
  ok tt,
  record d {
    db = record d.db {
      files = if any (λ f. str_eq f path) d.db.files then d.db.files else d.db.files ++ path ∷ [];
    };
  },
)

module _ (o : Outside) where
  -- sort.Slice by name
  unfoldable pub insert_file : CapturedFile → List CapturedFile → List CapturedFile
  insert_file f [] = f ∷ []
  insert_file f (g ∷ gs) =
      let later = g ∷ insert_file f gs in if o.name_le f.0 g.0 then f ∷ g ∷ gs else later

  unfoldable pub sort_files : List CapturedFile → List CapturedFile
  unfolding insert_file
  sort_files [] = []
  sort_files (f ∷ fs) = insert_file f (sort_files fs)

  module _ (pr : PhaseRunner) (phase_id : String) where
    abbrev pub artifact_row : CapturedFile → ℕ → ℕ → ArtifactRecord
    artifact_row f nanos now = record {
      id = o.artifact_id pr.run_id phase_id nanos;
      run_id = pr.run_id;
      phase_id = phase_id;
      repo = pr.repo_name;
      filename = f.0;
      content_type = o.content_type f.0;
      size_bytes = f.1;
      path = o.dest_path pr.run_id phase_id f.0;
      captured_at = now;
      dropped_count = 0;
      dropped_reason = "";
    }

    -- A durable file that was made stays, whatever fails after that.
    unfoldable pub store_copy : CapturedFile → Captured → Copy → Exec Host Captured
    store_copy f c unopened = pure (drop (not_opened f.0) c)
    store_copy f c partial = do
      in_world (place_file (o.dest_path pr.run_id phase_id f.0))
      pure (drop (not_copied f.0) c)
    store_copy f c complete = do
      in_world (place_file (o.dest_path pr.run_id phase_id f.0))
      nanos ← time_now
      now ← time_now
      on_error (in_world (record_artifact (artifact_row f nanos now)))
          (λ _. pure (drop (not_recorded f.0) c)) (λ _. pure (keep f.1 c))

    unfoldable pub copy_file : CapturedFile → Captured → Exec Host Captured
    copy_file f c = store_copy f c (o.copies f.0)

    -- The body of the loop over the files.
    unfoldable pub capture_file : CapturedFile → Captured → Exec Host Captured
    capture_file f c =
        if leb max_artifact_count c.count
        then pure (drop (over_count f.0) c)
        else if ltb max_artifact_total_bytes (c.total_bytes + f.1)
        then pure (drop (over_bytes f.0) c)
        else copy_file f c

    unfoldable pub capture_files : List CapturedFile → Captured → Exec Host Captured
    capture_files [] c = pure c
    capture_files (f ∷ fs) c = do c' ← capture_file f c; capture_files fs c'

    -- The reason lists what was dropped; its text is not modelled.
    unfoldable pub record_dropped_artifacts : ℕ → String → Exec Host (Unit {0})
    record_dropped_artifacts dropped_count reason = do
      nanos ← time_now
      now ← time_now
      ignore (
          in_world (
            record_artifact (record {
              id = o.dropped_id pr.run_id phase_id nanos;
              run_id = pr.run_id;
              phase_id = phase_id;
              repo = pr.repo_name;
              filename = "";
              content_type = "";
              size_bytes = 0;
              path = "";
              captured_at = now;
              dropped_count = dropped_count;
              dropped_reason = reason;
            })))

    unfoldable pub note_dropped : (List Drop → String) → List Drop → Exec Host (Unit {0})
    note_dropped join [] = pure tt
    note_dropped join (d ∷ ds) = record_dropped_artifacts (length (d ∷ ds)) (join (d ∷ ds))

    unfoldable pub capture_artifacts :
        (List Drop → String) → List CapturedFile → Exec Host (Unit {0})
    capture_artifacts join [] = pure tt
    capture_artifacts join (f ∷ fs) =
        if not (o.dest_writable pr.run_id phase_id)
        then record_dropped_artifacts (length (f ∷ fs)) "durable artifact destination unwritable"
        else do
          c ← capture_files (sort_files (f ∷ fs)) nothing_captured
          note_dropped join c.dropped
