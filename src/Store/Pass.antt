-- ===== src/Store/Pass.antt =====
-- internal/store/retention.go: which rows a rotation pass removes, and the totals after it.
use sgt.Base.{
  none, ℕ, ◌+◌, String, Bool, Option, List, [], ◌∷◌, str_eq, any, length, filterb, not, refl, sym,
  ap, ◌≡◌, ◌∙◌, arith, ok, quiet, ◌+◌,
}
use sgt.Store.Types.{RunRecord, BulletRecord}
use sgt.Store.World.{RetentionRollup, World}
use sgt.Store.Retention.{RunProvenance, is_candidate, rotate_project, is_merged}
use sgt.Store.Analytics.{
  WorkAnalytics, add_rollups, add_rollup, compute_work_analytics, joined, count_run, no_analytics,
}
use sgt.Store.Rotation.{
  analytics_of, compute_work_analytics-quiet, rollups_in, count_all, provenance_of,
}
use sgt.Store.Measures.{WorkAnalytics-ext}
use sgt.Store.Conserved.{Measure, read-analytics_of}
use sgt.Store.Rollups.{Projects}
use sgt.Store.Chosen.{chosen-eligible, All-Held, filterb-same, filterb-both}
use sgt.Store.Rotated.{
  eligible, Ids, rotated_all, merged_in, rotate_each-quiet, total-rotated_all, chosen,
  runs-rotated_all, phases-rotated_all, envelopes-rotated_all, bullets-rotated_all,
  candidates-Ready,
}

module _ (decode : String → Option RunProvenance) (project : String) (cutoff : ℕ) (w : World)
    (n : ℕ) where
  abbrev old : List RunRecord
  old = filterb (eligible project cutoff w.tables) w.tables.runs

  rotate_project-quiet :
      rotate_project decode project cutoff (quiet w n)
      ≡ (ok (length old, none), quiet (rotated_all decode project old n w) (n + length old))
  unfolding rotate_project
  rotate_project-quiet =
      let both =
        filterb-both (is_candidate project cutoff) (merged_in decode project w.tables)
          (eligible project cutoff w.tables) w.tables.runs (λ r. refl) in
      let candidates = filterb (is_candidate project cutoff) w.tables.runs in
      let each = rotate_each-quiet decode project candidates 0 w n in
      let z : 0 + length old ≡ length old = omega arith in rw (each, both, z) refl

  -- The rows that a pass leaves, and the number that it reports.
  pub record Rotates : Type 0 where
    pub reports : (rotate_project decode project cutoff (quiet w n)).0 ≡ ok (length old, none)
    pub runs :
        (rotate_project decode project cutoff (quiet w n)).1.db.tables.runs
        ≡ filterb (λ r. not (eligible project cutoff w.tables r)) w.tables.runs
    pub phases :
        (rotate_project decode project cutoff (quiet w n)).1.db.tables.phases
        ≡ filterb (λ p. not (any (λ r. str_eq p.run_id r.id) old)) w.tables.phases
    pub envelopes :
        (rotate_project decode project cutoff (quiet w n)).1.db.tables.envelopes
        ≡ filterb (λ e. not (any (λ r. str_eq e.run_id r.id) old)) w.tables.envelopes
    pub bullets :
        (rotate_project decode project cutoff (quiet w n)).1.db.tables.bullets ≡ w.tables.bullets
    pub intents :
        (rotate_project decode project cutoff (quiet w n)).1.db.tables.intents ≡ w.tables.intents

  -- While the database refuses no statement and the ids of the runs are distinct, a rotation pass
  -- succeeds, removes exactly the runs of the project that passed, failed, were cancelled or were
  -- interrupted, are older than the cutoff and name no intent with an unmerged bullet, with
  -- exactly their phases and envelopes, reports their number, and keeps every bullet and intent.
  pub rotate_project-Rotates : Ids w.tables.runs → Rotates
  rotate_project-Rotates ids =
      let e = eligible project cutoff w.tables in
      let left =
        filterb-same (λ r. not (chosen decode project old r.id)) (λ r. not (e r)) w.tables.runs
          (All-Held _ w.tables.runs
            (λ r h. ap not (chosen-eligible (λ r. r.id) e r w.tables.runs ids h))) in
      let (same_bullets, same_intents) = bullets-rotated_all decode project old n w in
      record {
        reports = rw rotate_project-quiet refl;
        runs = rw rotate_project-quiet (runs-rotated_all decode project old n w ∙ left);
        phases = rw rotate_project-quiet (phases-rotated_all decode project old n w);
        envelopes = rw rotate_project-quiet (envelopes-rotated_all decode project old n w);
        bullets = rw rotate_project-quiet same_bullets;
        intents = rw rotate_project-quiet same_intents;
      }

module _ {A : Type 0} (f : WorkAnalytics → A) where
  add_rollups-same :
      ((ru : RetentionRollup) (wa : WorkAnalytics) → f (add_rollup ru wa) ≡ f wa)
      → (rus : List RetentionRollup) (wa : WorkAnalytics) → f (add_rollups rus wa) ≡ f wa
  unfolding add_rollups
  add_rollups-same h [] wa = refl
  add_rollups-same h (ru ∷ rus) wa = add_rollups-same h rus (add_rollup ru wa) ∙ h ru wa

module _ (decode : String → Option RunProvenance) (text_le : String → String → Bool)
    (scope : String) where
  count_all-project :
      (prov : String → RunProvenance) (rs : List RunRecord) (wa : WorkAnalytics)
      → (count_all decode prov rs wa).project ≡ wa.project
  unfolding count_all count_run
  count_all-project prov [] wa = refl
  count_all-project prov (r ∷ rs) wa = count_all-project prov rs (count_run r (prov r.id) wa)

  analytics_of-project : (w : World) → (analytics_of decode text_le scope w).project ≡ scope
  unfolding analytics_of add_rollup
  analytics_of-project w =
      add_rollups-same (λ wa. wa.project) (λ ru wa. refl) (rollups_in text_le scope w) _
      ∙ count_all-project (provenance_of decode w.tables) _ (no_analytics scope)

  abbrev stored : World → List BulletRecord
  stored w = filterb (joined scope w.tables) w.tables.bullets

  analytics_of-bullets :
      (w : World)
      → ((analytics_of decode text_le scope w).bullets_total ≡ length (stored w))
        × ((analytics_of decode text_le scope w).bullets_merged
            ≡ length (filterb is_merged (stored w)))
  unfolding analytics_of add_rollup
  analytics_of-bullets w = (
    add_rollups-same (λ wa. wa.bullets_total) (λ ru wa. refl) (rollups_in text_le scope w) _,
    add_rollups-same (λ wa. wa.bullets_merged) (λ ru wa. refl) (rollups_in text_le scope w) _,
  )

  stored-same :
      (w w' : World)
      → w'.tables.bullets ≡ w.tables.bullets
      → w'.tables.intents ≡ w.tables.intents
      → stored w' ≡ stored w
  unfolding joined
  stored-same w w' b i = rw (b, i) refl

  module _ (project : String) (cutoff : ℕ) (w : World) (n : ℕ) where
    abbrev after : World
    after = rotated_all decode project (old decode project cutoff w n) n w

    total-after :
        Ids w.tables.runs
        → Projects w.rollups
        → (m : Measure)
        → m.read (analytics_of decode text_le scope after)
          ≡ m.read (analytics_of decode text_le scope w)
    total-after ids projects m =
        read-analytics_of decode text_le m scope after
        ∙ total-rotated_all decode project text_le m scope (old decode project cutoff w n) n w
            (candidates-Ready project cutoff w ids projects)
        ∙ sym (read-analytics_of decode text_le m scope w)

    -- While the database refuses no statement, the ids of the runs are distinct and no two rollups
    -- share a project, a rotation pass leaves the work analytics of every scope exactly as they
    -- were: both times they are computed, and each total and each count by status, type, agent, model
    -- and provider is the same.
    pub compute_work_analytics-rotate_project :
        Ids w.tables.runs
        → Projects w.rollups
        → (wa : WorkAnalytics) × ((compute_work_analytics decode text_le scope (quiet w n)).0
            ≡ ok wa)
          × ((compute_work_analytics decode text_le scope
                (rotate_project decode project cutoff (quiet w n)).1).0
              ≡ ok wa)
    compute_work_analytics-rotate_project ids projects =
        let same = total-after ids projects in
        let (b, i) = bullets-rotated_all decode project (old decode project cutoff w n) n w in
        let kept = stored-same w after b i in
        let (t', m') = analytics_of-bullets after in
        let (t, m) = analytics_of-bullets w in
        let equal =
          WorkAnalytics-ext (analytics_of decode text_le scope after)
            (analytics_of decode text_le scope w)
            (analytics_of-project after ∙ sym (analytics_of-project w)) same
            (t' ∙ ap length kept ∙ sym t)
            (m' ∙ ap (λ bs. length (filterb is_merged bs)) kept ∙ sym m) in
        let later = n + length (old decode project cutoff w n) in
        (
          analytics_of decode text_le scope w,
          rw (compute_work_analytics-quiet decode text_le scope w n) refl,
          rw
              (
                rotate_project-quiet decode project cutoff w n,
                compute_work_analytics-quiet decode text_le scope after later,
              )
              (ap ok equal),
        )
