-- ===== src/Runner/Bounds.antt =====
-- internal/runner/artifacts.go: the caps of the capture, whichever statements the database refuses, and
-- what it leaves on the disk and in the store.
use sgt.Base.{
  ℕ, ◌+◌, ◌≤◌, String, Bool, true, false, List, [], ◌∷◌, ◌++◌, ltb, leb, any, str_eq, length,
  length-append, if◌then◌else◌, Result, ok, err, Err, Disk, Exec, pure, bind-ok, branch, refl, sym,
  ap, ◌≡◌, ◌∙◌, ◌⊎◌, inl, inr, arith, if-cases, Bool-cases,
}
use mathlib.Core.Path.{subst}
use mathlib.Core.List.{append-nil}
use sgt.Store.World.{ArtifactRecord, World}
use sgt.Store.Artifacts.{record_artifact, artifact_insert, has_artifact_id}
use sgt.Runner.Types.{
  Host, in_world, CapturedFile, Copy, unopened, partial, complete, Outside, PhaseRunner,
}
use sgt.Runner.Gains.{Capped, stray, Gains, Gains-none, Step, Step-trans, dropped-Step}
use sgt.Runner.Capture.{
  Drop, Captured, nothing_captured, drop, keep, place_file, store_copy, copy_file, capture_file,
  capture_files, max_artifact_count, max_artifact_total_bytes, not_opened, not_copied, not_recorded,
  over_count, over_bytes, artifact_row,
}

module _ (o : Outside) (pr : PhaseRunner) (id : String) where
  abbrev Steps : World → Captured → ℕ → Result Captured × Disk Host → Type 0
  Steps w c k z = (c' : Captured) × (z.0 ≡ ok c') × Step w z.1.db.world c c' k

  -- The durable file is one more, or was there.
  abbrev placed : String → World → World
  placed path w = record w {
    files = if any (λ f. str_eq f path) w.files then w.files else w.files ++ path ∷ [];
  }

  placed-length : (path : String) (w : World) → length (placed path w).files ≤ length w.files + 1
  placed-length path w =
      if-cases (λ fs. length fs ≤ length w.files + 1) (any (λ f. str_eq f path) w.files) w.files
        (w.files ++ path ∷ []) (λ _. omega arith)
        (λ _. omega (arith, length-append w.files (path ∷ [])))

  placed-Gains : (path : String) (w : World) → Gains w (placed path w) 0 0 1
  placed-Gains path w = record {
    new = [];
    rows = sym (append-nil w.artifacts);
    number = refl;
    sizes = refl;
    files = omega (arith, placed-length path w);
  }

  -- A row is added, or the world is as it was.
  abbrev Recorded : ArtifactRecord → World → Result (Unit {0}) × Disk Host → Type 0
  Recorded row w z =
      ((z.0 ≡ ok tt) × (z.1.db.world ≡ record w { artifacts = w.artifacts ++ row ∷ [] }))
      ⊎ ((e : Err) × (z.0 ≡ err e) × (z.1.db.world ≡ w))

  record_artifact-Recorded :
      (row : ArtifactRecord) (d : Disk Host)
      → Recorded row d.db.world (in_world (record_artifact row) d)
  unfolding in_world record_artifact artifact_insert
  record_artifact-Recorded row d = go d d.faults refl
    where
      go :
          (d' : Disk Host) (fs : List Bool)
          → d'.faults ≡ fs
          → Recorded row d'.db.world (in_world (record_artifact row) d')
      go d' [] q = elim (Bool-cases (any (has_artifact_id row.id) d'.db.world.artifacts)) [
        | inl e ↦ rw (q, e) (inr (_, refl, refl))
        | inr e ↦ rw (q, e) (inl (refl, refl))
      ]
      go d' (true ∷ fs) q = rw q (inr (_, refl, refl))
      go d' (false ∷ fs) q =
          elim (Bool-cases (any (has_artifact_id row.id) d'.db.world.artifacts)) [
            | inl e ↦ rw (q, e) (inr (_, refl, refl))
            | inr e ↦ rw (q, e) (inl (refl, refl))
          ]

  kept-Step :
      (f : CapturedFile) (c : Captured) (row : ArtifactRecord) (w w' : World)
      → Capped (keep f.1 c)
      → row.size_bytes ≡ f.1
      → w'.artifacts ≡ w.artifacts ++ row ∷ []
      → length w'.files ≤ length w.files + 1
      → Step w w' c (keep f.1 c) 1
  kept-Step f c row w w' h size rows files = record {
    n = 1;
    b = f.1;
    l = 0;
    gains = record {
      new = row ∷ [];
      rows = rows;
      number = refl;
      sizes = omega (arith, size);
      files = omega (arith, files);
    };
    count = refl;
    total = refl;
    strays = omega arith;
    all_files = omega arith;
    capped = h;
  }

  settled-Steps :
      (f : CapturedFile) (c : Captured) (row : ArtifactRecord) (w : World) (r : Result (Unit {0}))
      (d : Disk Host)
      → Capped c
      → Capped (keep f.1 c)
      → row.size_bytes ≡ f.1
      → Recorded row (placed (o.dest_path pr.run_id id f.0) w) (r, d)
      → Steps w c 1 (branch r (λ _. pure (drop (not_recorded f.0) c)) (λ _. pure (keep f.1 c)) d)
  settled-Steps f c row w (ok u) d h k size (inl (e, same)) = (
    keep f.1 c,
    refl,
    subst (λ w'. Step w w' c (keep f.1 c) 1) (sym same)
        (kept-Step f c row w _ k size refl (placed-length (o.dest_path pr.run_id id f.0) w)),
  )
  settled-Steps f c row w (ok u) d h k size (inr (e, q, same)) = absurd (cc q)
  settled-Steps f c row w (err e) d h k size (inl (q, same)) = absurd (cc q)
  settled-Steps f c row w (err e) d h k size (inr (e', q, same)) = (
    drop (not_recorded f.0) c,
    refl,
    subst (λ w'. Step w w' c (drop (not_recorded f.0) c) 1) (sym same)
        (dropped-Step w _ c (not_recorded f.0) h (placed-Gains (o.dest_path pr.run_id id f.0) w)),
  )

  dropped-Steps :
      (c : Captured) (why : Drop) (d : Disk Host)
      → stray (why ∷ []) ≡ 0
      → Capped c
      → Steps d.db.world c 1 (pure (drop why c) d)
  dropped-Steps c why d e h = (
    drop why c,
    refl,
    dropped-Step d.db.world d.db.world c why h
        (subst (λ l. Gains d.db.world d.db.world 0 0 l) (sym e) (Gains-none d.db.world)),
  )

  store_copy-Steps :
      (f : CapturedFile) (c : Captured) (ended : Copy) (d : Disk Host)
      → Capped c
      → Capped (keep f.1 c)
      → Steps d.db.world c 1 (store_copy o pr id f c ended d)
  unfolding store_copy place_file in_world
  store_copy-Steps f c unopened d h k = dropped-Steps c (not_opened f.0) d refl h
  store_copy-Steps f c partial d h k = (
    drop (not_copied f.0) c,
    refl,
    dropped-Step d.db.world _ c (not_copied f.0) h
        (placed-Gains (o.dest_path pr.run_id id f.0) d.db.world),
  )
  store_copy-Steps f c complete d h k =
      let row = artifact_row o pr id f d.now (d.now + 1) in
      let d' : Disk Host = record d {
        db = record d.db { world = placed (o.dest_path pr.run_id id f.0) d.db.world };
        now = d.now + 1 + 1;
      } in
      let z = in_world (record_artifact row) d' in
      settled-Steps f c row d.db.world z.0 z.1 h k refl (record_artifact-Recorded row d')

  capture_file-Steps :
      (f : CapturedFile) (c : Captured) (d : Disk Host)
      → Capped c
      → Steps d.db.world c 1 (capture_file o pr id f c d)
  unfolding capture_file copy_file
  capture_file-Steps f c d h =
      if-cases (λ (m : Exec Host Captured). Steps d.db.world c 1 (m d))
        (leb max_artifact_count c.count) _ _ (λ _. dropped-Steps c (over_count f.0) d refl h)
        (λ a.
          if-cases (λ (m : Exec Host Captured). Steps d.db.world c 1 (m d))
            (ltb max_artifact_total_bytes (c.total_bytes + f.1)) _ _
            (λ _. dropped-Steps c (over_bytes f.0) d refl h)
            (λ b. store_copy-Steps f c (o.copies f.0) d h (ground (arith, a), ground (arith, b))))

  -- The loop from what is captured so far.
  capture_files-Steps :
      (fs : List CapturedFile) (c : Captured) (d : Disk Host)
      → Capped c
      → Steps d.db.world c (length fs) (capture_files o pr id fs c d)
  unfolding capture_files
  capture_files-Steps [] c d h = (
    c,
    refl,
    record {
      n = 0;
      b = 0;
      l = 0;
      gains = Gains-none d.db.world;
      count = omega arith;
      total = omega arith;
      strays = omega arith;
      all_files = omega arith;
      capped = h;
    },
  )
  capture_files-Steps (f ∷ fs) c d h =
      let (c1, q, s) = capture_file-Steps f c d h in
      let d1 = (capture_file o pr id f c d).1 in
      let (c2, q', t) = capture_files-Steps fs c1 d1 s.capped in
      let d2 = (capture_files o pr id fs c1 d1).1 in
      let whole = bind-ok (capture_file o pr id f c) (λ c'. capture_files o pr id fs c') d c1 q in
      let both = Step-trans d.db.world d1.db.world d2.db.world c c1 c2 1 (length fs) s t in
      let count : 1 + length fs ≡ length (f ∷ fs) = omega arith in
      (
        c2,
        ap (λ z. z.0) whole ∙ q',
        subst (λ w. Step d.db.world w c c2 (length (f ∷ fs))) (sym (ap (λ z. z.1.db.world) whole))
            (subst (λ k. Step d.db.world d2.db.world c c2 k) count both),
      )

  -- Whichever files are there, however their copies end and whichever statements the database refuses, the
  -- capture keeps at most twenty files of at most 25 MiB together: it adds a row for each of these, with
  -- the sizes that it has counted, and no other row. Every other file is counted as dropped with a reason. On
  -- the disk there is at most one more durable file for each file kept and for each file dropped
  -- because its copy failed midway or its row was refused.
  pub capture_files-Capped :
      (fs : List CapturedFile) (d : Disk Host)
      → (c : Captured) × ((capture_files o pr id fs nothing_captured d).0 ≡ ok c)
        × Capped c
        × (c.count + length c.dropped ≡ length fs)
        × Gains d.db.world
            (capture_files o pr id fs nothing_captured d).1.db.world
            c.count
            c.total_bytes
            (stray c.dropped)
  capture_files-Capped fs d =
      let (c, q, s) = capture_files-Steps fs nothing_captured d (omega arith, omega arith) in
      let g = s.gains in
      (
        c,
        q,
        s.capped,
        omega (arith, s.all_files),
        record {
          new = g.new;
          rows = g.rows;
          number = omega (arith, g.number, s.count);
          sizes = omega (arith, g.sizes, s.total);
          files = omega (arith, g.files, s.count, s.strays);
        },
      )
