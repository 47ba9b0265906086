-- ===== src/Store/Rotation.antt =====
-- internal/store/retention.go and analytics.go, while the database refuses no statement: what the
-- methods compute from the tables.
use sgt.Base.{
  ℕ, ◌+◌, String, Bool, true, Option, List, [], ◌∷◌, ◌++◌, str_eq, if◌then◌else◌, all, filterb,
  length, ok, quiet, refl, ◌≡◌, inl, inr, Bool-cases, map,
}
use sgt.Store.Types.{RunRecord, Tables}
use sgt.Store.Rows.{bullets_of, list_bullets_for_intent}
use sgt.Store.Phases.{list_phases_for_run}
use sgt.Store.World.{RetentionRollup, World}
use sgt.Store.Retention.{
  RunProvenance, first_provenance, provenance_for_run, rollup_of, get_retention_rollup, upserted,
  is_merged, intent_fully_merged, current_rollup, counted, count_bullets, fold_run_into_rollup,
  upsert_retention_rollup, without_deliveries, without_envelopes, without_phases, without_run,
  rotate_one_run,
}
use sgt.Store.Analytics.{
  WorkAnalytics, is_named, in_scope, joined, count_run, count_runs, only, order, fetch_rollups,
  retention_rollups_for, compute_work_analytics, all_runs_for_analytics, all_bullets_for_analytics,
  add_rollups, no_analytics,
}

abbrev pub fully_merged : String → Tables → Bool
fully_merged intent_id t =
    if str_eq intent_id "" then true else all is_merged (bullets_of intent_id t)

-- The rollup that a run is folded into.
unfoldable pub folded : String → RunRecord → RunProvenance → ℕ → World → RetentionRollup
folded project run prov now w =
    let current = counted run prov now (current_rollup project (rollup_of project w.rollups)) in
    if str_eq run.intent_id ""
    then current
    else count_bullets (bullets_of run.intent_id w.tables) current

module _ (decode : String → Option RunProvenance) where
  abbrev pub provenance_of : Tables → String → RunProvenance
  provenance_of t id = first_provenance decode (filterb (λ p. str_eq p.run_id id) t.phases)

  unfoldable pub rotated : String → RunRecord → ℕ → World → World
  unfolding folded without_deliveries without_envelopes without_phases without_run
  rotated project run now w =
      let r = folded project run (provenance_of w.tables run.id) now w in
      without_run run.id (
        without_phases run.id (
          without_envelopes run.id
            (without_deliveries run.id (record w { rollups = upserted r w.rollups }))))

  pub rotate_one_run-quiet :
      (project : String) (run : RunRecord) (w : World) (n : ℕ)
      → rotate_one_run decode project run (quiet w n)
        ≡ (ok tt, quiet (rotated project run n w) (n + 1))
  unfolding rotate_one_run rotated folded provenance_for_run list_phases_for_run
      fold_run_into_rollup get_retention_rollup list_bullets_for_intent upsert_retention_rollup
      without_deliveries without_envelopes without_phases without_run
  rotate_one_run-quiet project run w n = elim (Bool-cases (str_eq run.intent_id "")) [
    | inl e ↦ rw e refl
    | inr e ↦ rw e refl
  ]

  pub intent_fully_merged-quiet :
      (id : String) (w : World) (n : ℕ)
      → intent_fully_merged id (quiet w n) ≡ (ok (fully_merged id w.tables), quiet w n)
  unfolding intent_fully_merged list_bullets_for_intent
  intent_fully_merged-quiet id w n = elim (Bool-cases (str_eq id "")) [
    | inl e ↦ rw e refl
    | inr e ↦ rw e refl
  ]

  -- The runs that were counted.
  unfoldable pub count_all :
      (String → RunProvenance) → List RunRecord → WorkAnalytics → WorkAnalytics
  count_all prov [] wa = wa
  count_all prov (r ∷ rs) wa = count_all prov rs (count_run r (prov r.id) wa)

  count_runs-quiet :
      (rs : List RunRecord) (wa : WorkAnalytics) (w : World) (n : ℕ)
      → count_runs decode rs wa (quiet w n)
        ≡ (ok (count_all (provenance_of w.tables) rs wa), quiet w n)
  unfolding count_runs count_all provenance_for_run list_phases_for_run
  count_runs-quiet [] wa w n = refl
  count_runs-quiet (r ∷ rs) wa w n =
      count_runs-quiet rs (count_run r (provenance_of w.tables r.id) wa) w n

unfoldable pub found_rollups : List String → List RetentionRollup → List RetentionRollup
found_rollups [] rollups = []
found_rollups (p ∷ ps) rollups = only (rollup_of p rollups) ++ found_rollups ps rollups

fetch_rollups-quiet :
    (ps : List String) (w : World) (n : ℕ)
    → fetch_rollups ps (quiet w n) ≡ (ok (found_rollups ps w.rollups), quiet w n)
unfolding fetch_rollups found_rollups get_retention_rollup
fetch_rollups-quiet [] w n = refl
fetch_rollups-quiet (p ∷ ps) w n = rw (fetch_rollups-quiet ps w n) refl

unfoldable pub rollups_in : (String → String → Bool) → String → World → List RetentionRollup
rollups_in text_le scope w =
    if is_named scope
    then only (rollup_of scope w.rollups)
    else found_rollups (order text_le (map (λ r. r.project) w.rollups)) w.rollups

unfoldable pub analytics_of :
    (String → Option RunProvenance) → (String → String → Bool) → String → World → WorkAnalytics
analytics_of decode text_le scope w =
    let runs = filterb (λ r. in_scope scope r.project) w.tables.runs in
    let bullets = filterb (joined scope w.tables) w.tables.bullets in
    add_rollups (rollups_in text_le scope w)
      (record (count_all decode (provenance_of decode w.tables) runs (no_analytics scope)) {
        bullets_total = length bullets;
        bullets_merged = length (filterb is_merged bullets);
      })

pub compute_work_analytics-quiet :
    (decode : String → Option RunProvenance) (text_le : String → String → Bool) (scope : String)
    (w : World) (n : ℕ)
    → compute_work_analytics decode text_le scope (quiet w n)
      ≡ (ok (analytics_of decode text_le scope w), quiet w n)
unfolding compute_work_analytics analytics_of all_runs_for_analytics all_bullets_for_analytics
    retention_rollups_for rollups_in get_retention_rollup
compute_work_analytics-quiet decode text_le scope w n =
    let runs = filterb (λ r. in_scope scope r.project) w.tables.runs in
    elim (Bool-cases (is_named scope)) [
      | inl e ↦ rw (count_runs-quiet decode runs (no_analytics scope) w n, e) refl
      | inr e ↦
          rw
            (
              count_runs-quiet decode runs (no_analytics scope) w n,
              e,
              fetch_rollups-quiet (order text_le (map (λ r. r.project) w.rollups)) w n,
            )
            refl
    ]
