-- ===== src/Store/Measures.antt =====
-- internal/store/analytics.go: the counts of the analytics, each with its share in a rollup.
use sgt.Base.{ℕ, ◌+◌, String, true, List, str_eq, refl, ap, ◌≡◌, ◌∙◌, arith, inl, inr, Bool-cases}
use sgt.Store.Types.{RunStatus, run_status_eq, RunRecord, BulletRecord}
use sgt.Store.World.{RetentionRollup, Counts}
use sgt.Store.Retention.{
  RunProvenance, rotation_eligible_status, counted, count_status, count_bullets, increment,
  no_rollup,
}
use sgt.Store.Analytics.{WorkAnalytics, add_rollup, count_run, increment_status}
use sgt.Store.Conserved.{Measure}
use sgt.Store.Tally.{one}

increment-one : (k key : String) (m : Counts) → increment key m k ≡ m k + one (str_eq k key)
unfolding increment
increment-one k key m = elim (Bool-cases (str_eq k key)) [
  | inl e ↦ rw e refl
  | inr e ↦ rw e (omega arith)
]

increment_status-one :
    (k s : RunStatus) (m : RunStatus → ℕ) → increment_status s m k ≡ m k + one (run_status_eq k s)
unfolding increment_status
increment_status-one k s m = elim (Bool-cases (run_status_eq k s)) [
  | inl e ↦ rw e refl
  | inr e ↦ rw e (omega arith)
]

-- What the switch on the status leaves alone.
module _ {A : Type 0} (f : RetentionRollup → A) where
  count_status-same :
      ((c : RetentionRollup) (n : ℕ) → f (record c { passed_count = n }) ≡ f c)
      → ((c : RetentionRollup) (n : ℕ) → f (record c { failed_count = n }) ≡ f c)
      → ((c : RetentionRollup) (n : ℕ) → f (record c { cancelled_count = n }) ≡ f c)
      → ((c : RetentionRollup) (n : ℕ) → f (record c { interrupted_count = n }) ≡ f c)
      → (s : RunStatus) (c : RetentionRollup) → f (count_status s c) ≡ f c
  unfolding count_status
  count_status-same a b c d RunStatus.running r = refl
  count_status-same a b c d RunStatus.passed r = a r _
  count_status-same a b c d RunStatus.failed r = b r _
  count_status-same a b c d RunStatus.cancelled r = c r _
  count_status-same a b c d RunStatus.timed_out r = refl
  count_status-same a b c d RunStatus.interrupted r = d r _

-- The share of a status in a rollup.
abbrev kept_status : RunStatus → RetentionRollup → ℕ
kept_status RunStatus.passed c = c.passed_count
kept_status RunStatus.failed c = c.failed_count
kept_status RunStatus.cancelled c = c.cancelled_count
kept_status RunStatus.interrupted c = c.interrupted_count
kept_status _ c = 0

kept_status-count :
    (k s : RunStatus) (c : RetentionRollup)
    → rotation_eligible_status s ≡ true
    → kept_status k (count_status s c) ≡ kept_status k c + one (run_status_eq k s)
unfolding count_status rotation_eligible_status run_status_eq
kept_status-count k s c h = ground arith

added :
    (k : RunStatus) (ru : RetentionRollup) (wa : WorkAnalytics)
    → (add_rollup ru wa).by_status k ≡ wa.by_status k + kept_status k ru
unfolding add_rollup run_status_eq
added k ru wa = ground arith

total_runs : Measure
unfolding add_rollup count_run counted count_bullets
total_runs = record {
  read = λ wa. wa.total_runs;
  test = λ r prov. true;
  kept = λ c. c.run_count;
  starts = λ p. refl;
  counts = λ r prov wa. refl;
  ignores = λ wa total merged. refl;
  adds = λ ru wa. refl;
  empty = λ p. refl;
  folds = λ r prov now c h.
      count_status-same (λ z. z.run_count) (λ z n. refl) (λ z n. refl) (λ z n. refl) (λ z n. refl)
        r.status (record c { run_count = c.run_count + 1 });
  passes = λ bs c. refl;
}

counted_status :
    (k : RunStatus) (r : RunRecord) (prov : RunProvenance) (now : ℕ) (c : RetentionRollup)
    → rotation_eligible_status r.status ≡ true
    → kept_status k (counted r prov now c) ≡ kept_status k c + one (run_status_eq k r.status)
unfolding counted count_status rotation_eligible_status run_status_eq
counted_status k r prov now c h = ground arith

nothing : (k : RunStatus) (p : String) → kept_status k (no_rollup p) ≡ 0
nothing k p = ground arith

counted_bullets :
    (k : RunStatus) (bs : List BulletRecord) (c : RetentionRollup)
    → kept_status k (count_bullets bs c) ≡ kept_status k c
unfolding count_bullets
counted_bullets k bs c = ground arith

by_status : RunStatus → Measure
unfolding add_rollup count_run counted count_bullets
by_status k = record {
  read = λ wa. wa.by_status k;
  test = λ r prov. run_status_eq k r.status;
  kept = kept_status k;
  starts = λ p. refl;
  counts = λ r prov wa. increment_status-one k r.status wa.by_status;
  ignores = λ wa total merged. refl;
  adds = added k;
  empty = nothing k;
  folds = counted_status k;
  passes = counted_bullets k;
}

by_type : String → Measure
unfolding add_rollup count_run counted count_bullets
by_type k = record {
  read = λ wa. wa.by_type k;
  test = λ r prov. str_eq k r.type;
  kept = λ c. c.by_work_type k;
  starts = λ p. refl;
  counts = λ r prov wa. increment-one k r.type wa.by_type;
  ignores = λ wa total merged. refl;
  adds = λ ru wa. refl;
  empty = λ p. refl;
  folds = λ r prov now c h.
      increment-one k r.type
        (count_status r.status (record c { run_count = c.run_count + 1 })).by_work_type
      ∙ ap (λ z. z + one (str_eq k r.type))
          (count_status-same (λ z. z.by_work_type k) (λ z n. refl) (λ z n. refl) (λ z n. refl)
            (λ z n. refl) r.status (record c { run_count = c.run_count + 1 }));
  passes = λ bs c. refl;
}

by_agent : String → Measure
unfolding add_rollup count_run counted count_bullets
by_agent k = record {
  read = λ wa. wa.by_agent k;
  test = λ r prov. str_eq k prov.agent;
  kept = λ c. c.by_agent k;
  starts = λ p. refl;
  counts = λ r prov wa. increment-one k prov.agent wa.by_agent;
  ignores = λ wa total merged. refl;
  adds = λ ru wa. refl;
  empty = λ p. refl;
  folds = λ r prov now c h.
      increment-one k prov.agent
        (count_status r.status (record c { run_count = c.run_count + 1 })).by_agent
      ∙ ap (λ z. z + one (str_eq k prov.agent))
          (count_status-same (λ z. z.by_agent k) (λ z n. refl) (λ z n. refl) (λ z n. refl)
            (λ z n. refl) r.status (record c { run_count = c.run_count + 1 }));
  passes = λ bs c. refl;
}

by_model : String → Measure
unfolding add_rollup count_run counted count_bullets
by_model k = record {
  read = λ wa. wa.by_model k;
  test = λ r prov. str_eq k prov.model;
  kept = λ c. c.by_model k;
  starts = λ p. refl;
  counts = λ r prov wa. increment-one k prov.model wa.by_model;
  ignores = λ wa total merged. refl;
  adds = λ ru wa. refl;
  empty = λ p. refl;
  folds = λ r prov now c h.
      increment-one k prov.model
        (count_status r.status (record c { run_count = c.run_count + 1 })).by_model
      ∙ ap (λ z. z + one (str_eq k prov.model))
          (count_status-same (λ z. z.by_model k) (λ z n. refl) (λ z n. refl) (λ z n. refl)
            (λ z n. refl) r.status (record c { run_count = c.run_count + 1 }));
  passes = λ bs c. refl;
}

by_provider : String → Measure
unfolding add_rollup count_run counted count_bullets
by_provider k = record {
  read = λ wa. wa.by_provider k;
  test = λ r prov. str_eq k prov.provider;
  kept = λ c. c.by_provider k;
  starts = λ p. refl;
  counts = λ r prov wa. increment-one k prov.provider wa.by_provider;
  ignores = λ wa total merged. refl;
  adds = λ ru wa. refl;
  empty = λ p. refl;
  folds = λ r prov now c h.
      increment-one k prov.provider
        (count_status r.status (record c { run_count = c.run_count + 1 })).by_provider
      ∙ ap (λ z. z + one (str_eq k prov.provider))
          (count_status-same (λ z. z.by_provider k) (λ z n. refl) (λ z n. refl) (λ z n. refl)
            (λ z n. refl) r.status (record c { run_count = c.run_count + 1 }));
  passes = λ bs c. refl;
}

-- Two reports are equal if their numbers are.
pub WorkAnalytics-ext :
    (a b : WorkAnalytics)
    → a.project ≡ b.project
    → ((m : Measure) → m.read a ≡ m.read b)
    → a.bullets_total ≡ b.bullets_total
    → a.bullets_merged ≡ b.bullets_merged
    → a ≡ b
unfolding total_runs by_status by_type by_agent by_model by_provider
WorkAnalytics-ext a b p same t m = λ i. record {
  project = p i;
  total_runs = same total_runs i;
  by_status = λ k. same (by_status k) i;
  by_type = λ k. same (by_type k) i;
  by_agent = λ k. same (by_agent k) i;
  by_model = λ k. same (by_model k) i;
  by_provider = λ k. same (by_provider k) i;
  bullets_total = t i;
  bullets_merged = m i;
}
