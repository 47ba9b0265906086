-- ===== src/Store/Analytics.antt =====
-- internal/store/analytics.go: the totals of all recorded work, with what rotation folded away.
--
-- `text_le` is the collation of the ORDER BY on the text of a project.
use sgt.Base.{
  ℕ, ◌+◌, String, Bool, true, ◌&&◌, Option, none, some, List, [], ◌∷◌, ◌++◌, str_eq, if◌then◌else◌,
  any, filterb, length, map, Exec, pure, select, ◌>>=◌, not,
}
use sgt.Store.Types.{RunStatus, RunRecord, BulletRecord, run_status_eq, Tables}
use sgt.Store.World.{Counts, RetentionRollup, World}
use sgt.Store.Retention.{
  increment, RunProvenance, provenance_for_run, get_retention_rollup, is_merged,
}

pub record WorkAnalytics : Type 0 where
  pub project : String
  pub total_runs : ℕ
  pub by_status : RunStatus → ℕ
  pub by_type : Counts
  pub by_agent : Counts
  pub by_model : Counts
  pub by_provider : Counts
  pub bullets_total : ℕ
  pub bullets_merged : ℕ

-- project != "" && project != "all"
unfoldable pub is_named : String → Bool
is_named project = not (str_eq project "") && not (str_eq project "all")

abbrev pub in_scope : String → String → Bool
in_scope scope project = if is_named scope then str_eq project scope else true

-- ORDER BY created_at ASC: the order of the rows.
unfoldable pub all_runs_for_analytics : String → Exec World (List RunRecord)
all_runs_for_analytics scope = select (λ w. filterb (λ r. in_scope scope r.project) w.tables.runs)

-- JOIN intents i ON b.intent_id = i.id: an id names one intent.
unfoldable pub joined : String → Tables → BulletRecord → Bool
joined scope t b = any (λ i. str_eq i.id b.intent_id && in_scope scope i.project) t.intents

unfoldable pub all_bullets_for_analytics : String → Exec World (List BulletRecord)
all_bullets_for_analytics scope = select (λ w. filterb (joined scope w.tables) w.tables.bullets)

-- m[status]++
unfoldable pub increment_status : RunStatus → (RunStatus → ℕ) → RunStatus → ℕ
increment_status status m = λ s. if run_status_eq s status then m s + 1 else m s

-- The body of the loop over the runs.
unfoldable pub count_run : RunRecord → RunProvenance → WorkAnalytics → WorkAnalytics
count_run r prov wa = record wa {
  total_runs = wa.total_runs + 1;
  by_status = increment_status r.status wa.by_status;
  by_type = increment r.type wa.by_type;
  by_agent = increment prov.agent wa.by_agent;
  by_model = increment prov.model wa.by_model;
  by_provider = increment prov.provider wa.by_provider;
}

-- m[status] += n
abbrev pub add_status : RunStatus → ℕ → (RunStatus → ℕ) → RunStatus → ℕ
add_status status n m = λ s. if run_status_eq s status then m s + n else m s

-- `for k, v := range from { m[k] += v }`
abbrev pub add_counts : Counts → Counts → Counts
add_counts from m = λ k. m k + from k

-- The body of the loop over the rollups.
unfoldable pub add_rollup : RetentionRollup → WorkAnalytics → WorkAnalytics
add_rollup ru wa = record wa {
  total_runs = wa.total_runs + ru.run_count;
  by_status = add_status RunStatus.interrupted ru.interrupted_count (
      add_status RunStatus.cancelled ru.cancelled_count (
        add_status RunStatus.failed ru.failed_count
          (add_status RunStatus.passed ru.passed_count wa.by_status)));
  by_type = add_counts ru.by_work_type wa.by_type;
  by_agent = add_counts ru.by_agent wa.by_agent;
  by_model = add_counts ru.by_model wa.by_model;
  by_provider = add_counts ru.by_provider wa.by_provider;
}

unfoldable pub add_rollups : List RetentionRollup → WorkAnalytics → WorkAnalytics
unfolding add_rollup
add_rollups [] wa = wa
add_rollups (ru ∷ rus) wa = add_rollups rus (add_rollup ru wa)

unfoldable pub only : Option RetentionRollup → List RetentionRollup
only none = []
only (some r) = r ∷ []

unfoldable pub fetch_rollups : List String → Exec World (List RetentionRollup)
fetch_rollups [] = pure []
fetch_rollups (p ∷ ps) = do
  found ← get_retention_rollup p
  rest ← fetch_rollups ps
  pure (only found ++ rest)

abbrev pub no_analytics : String → WorkAnalytics
no_analytics project = record {
  project = project;
  total_runs = 0;
  by_status = λ _. 0;
  by_type = λ _. 0;
  by_agent = λ _. 0;
  by_model = λ _. 0;
  by_provider = λ _. 0;
  bullets_total = 0;
  bullets_merged = 0;
}

module _ (text_le : String → String → Bool) where
  unfoldable pub insert_text : String → List String → List String
  insert_text x [] = x ∷ []
  insert_text x (y ∷ ys) =
      let later = y ∷ insert_text x ys in if text_le x y then x ∷ y ∷ ys else later

  unfoldable pub order : List String → List String
  unfolding insert_text
  order [] = []
  order (x ∷ xs) = insert_text x (order xs)

  unfoldable pub retention_rollups_for : String → Exec World (List RetentionRollup)
  retention_rollups_for scope =
      if is_named scope then (do found ← get_retention_rollup scope; pure (only found)) else (do
        projects ← select (λ w. order (map (λ r. r.project) w.rollups))
        fetch_rollups projects)

module _ (decode : String → Option RunProvenance) where
  unfoldable pub count_runs : List RunRecord → WorkAnalytics → Exec World WorkAnalytics
  count_runs [] wa = pure wa
  count_runs (r ∷ rs) wa = do
    prov ← provenance_for_run decode r.id
    count_runs rs (count_run r prov wa)

  unfoldable pub compute_work_analytics :
      (String → String → Bool) → String → Exec World WorkAnalytics
  compute_work_analytics text_le scope = do
    runs ← all_runs_for_analytics scope
    counted ← count_runs runs (no_analytics scope)
    bullets ← all_bullets_for_analytics scope
    let with_bullets = record counted {
      bullets_total = length bullets;
      bullets_merged = length (filterb is_merged bullets);
    }
    rollups ← retention_rollups_for text_le scope
    pure (add_rollups rollups with_bullets)
