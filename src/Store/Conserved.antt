-- ===== src/Store/Conserved.antt =====
-- internal/store/retention.go and analytics.go: a total of the analytics as a count of runs and of
-- what the rollups keep, and what the rotation of one run does to it.
use sgt.Base.{
  ℕ, ◌+◌, String, Bool, true, ◌&&◌, Option, none, some, List, [], ◌∷◌, str_eq, filterb, not, refl,
  sym, ap, ◌≡◌, inl, inr, ◌∙◌, arith, All, Bool-cases, eq_iff,
}
use mathlib.Core.Path.{subst}
use sgt.Store.Types.{RunStatus, RunRecord, BulletRecord, Tables}
use sgt.Store.World.{RetentionRollup, World}
use sgt.Store.Retention.{
  RunProvenance, rollup_of, upserted, current_rollup, no_rollup, counted, count_bullets,
  count_status, rotation_eligible_status, without_deliveries, without_envelopes, without_phases,
  without_run,
}
use sgt.Store.Analytics.{
  WorkAnalytics, only, is_named, in_scope, add_rollups, add_rollup, count_run, no_analytics,
}
use sgt.Store.Rotation.{rollups_in, count_all, analytics_of, provenance_of, folded, rotated}
use sgt.Store.Rollups.{
  Projects, sum_of, sum_of-rollups, sum_of-upserted, upserted-own, upserted-other,
  upserted-Projects,
}
use sgt.Store.Tally.{
  one, tally, Held, tally-same, filterb-passes, filterb-filterb, Distinct, other_than,
  tally-without,
}

-- A number of the analytics that counts the runs of some kind, with its count in a rollup.
pub record Measure : Type 0 where
  pub read : WorkAnalytics → ℕ
  pub test : RunRecord → RunProvenance → Bool
  pub kept : RetentionRollup → ℕ
  pub starts : (project : String) → read (no_analytics project) ≡ 0
  pub counts :
      (r : RunRecord) (prov : RunProvenance) (wa : WorkAnalytics)
      → read (count_run r prov wa) ≡ read wa + one (test r prov)
  pub ignores :
      (wa : WorkAnalytics) (total merged : ℕ)
      → read (record wa { bullets_total = total; bullets_merged = merged }) ≡ read wa
  pub adds :
      (ru : RetentionRollup) (wa : WorkAnalytics) → read (add_rollup ru wa) ≡ read wa + kept ru
  pub empty : (project : String) → kept (no_rollup project) ≡ 0
  pub folds :
      (r : RunRecord) (prov : RunProvenance) (now : ℕ) (c : RetentionRollup)
      → rotation_eligible_status r.status ≡ true
      → kept (counted r prov now c) ≡ kept c + one (test r prov)
  pub passes :
      (bullets : List BulletRecord) (c : RetentionRollup) → kept (count_bullets bullets c) ≡ kept c

current-project :
    (p : String) (rs : List RetentionRollup) → (current_rollup p (rollup_of p rs)).project ≡ p
current-project p [] = refl
current-project p (x ∷ xs) = elim (Bool-cases (str_eq x.project p)) [
  | inl e ↦ rw e ((eq_iff x.project p).0 e)
  | inr e ↦ rw e (current-project p xs)
]

count_status-project :
    (s : RunStatus) (c : RetentionRollup) → (count_status s c).project ≡ c.project
unfolding count_status
count_status-project RunStatus.running c = refl
count_status-project RunStatus.passed c = refl
count_status-project RunStatus.failed c = refl
count_status-project RunStatus.cancelled c = refl
count_status-project RunStatus.timed_out c = refl
count_status-project RunStatus.interrupted c = refl

pub folded-project :
    (project : String) (run : RunRecord) (prov : RunProvenance) (n : ℕ) (w : World)
    → (folded project run prov n w).project ≡ project
unfolding folded counted count_bullets
folded-project project run prov n w =
    let c = current_rollup project (rollup_of project w.rollups) in
    let e =
      count_status-project run.status (record c { run_count = c.run_count + 1 })
      ∙ current-project project w.rollups in
    elim (Bool-cases (str_eq run.intent_id "")) [ inl q ↦ rw q e | inr q ↦ rw q e ]

module _ (decode : String → Option RunProvenance) (text_le : String → String → Bool)
    (m : Measure) where
  read-count_all :
      (prov : String → RunProvenance) (rs : List RunRecord) (wa : WorkAnalytics)
      → m.read (count_all decode prov rs wa) ≡ m.read wa + tally (λ r. m.test r (prov r.id)) rs
  unfolding count_all
  read-count_all prov [] wa = omega arith
  read-count_all prov (r ∷ rs) wa =
      omega (arith, read-count_all prov rs (count_run r (prov r.id) wa), m.counts r (prov r.id) wa)

  read-add_rollups :
      (rus : List RetentionRollup) (wa : WorkAnalytics)
      → m.read (add_rollups rus wa) ≡ m.read wa + sum_of m.kept rus
  unfolding add_rollups
  read-add_rollups [] wa = omega arith
  read-add_rollups (ru ∷ rus) wa =
      omega (arith, read-add_rollups rus (add_rollup ru wa), m.adds ru wa)

  tally-filterb :
      (p q : RunRecord → Bool) (rs : List RunRecord)
      → tally q (filterb p rs) ≡ tally (λ r. p r && q r) rs
  tally-filterb p q [] = refl
  tally-filterb p q (r ∷ rs) = elim (Bool-cases (p r)) [
    | inl e ↦ rw (e, tally-filterb p q rs) refl
    | inr e ↦ rw (e, tally-filterb p q rs) (omega arith)
  ]

  -- Whether a run adds to a total of a scope.
  abbrev pub adding : String → Tables → RunRecord → Bool
  adding scope t r = in_scope scope r.project && m.test r (provenance_of decode t r.id)

  unfoldable pub total : String → World → ℕ
  total scope w =
      tally (adding scope w.tables) w.tables.runs + sum_of m.kept (rollups_in text_le scope w)

  pub read-analytics_of :
      (scope : String) (w : World) → m.read (analytics_of decode text_le scope w) ≡ total scope w
  unfolding analytics_of total
  read-analytics_of scope w =
      let runs = filterb (λ r. in_scope scope r.project) w.tables.runs in
      let prov = provenance_of decode w.tables in
      let all = count_all decode prov runs (no_analytics scope) in
      let c = read-count_all prov runs (no_analytics scope) in
      let f =
        tally-filterb (λ r. in_scope scope r.project) (λ r. m.test r (prov r.id)) w.tables.runs in
      omega (
        arith,
        read-add_rollups (rollups_in text_le scope w) _,
        m.ignores all _ _,
        c,
        f,
        m.starts scope,
      )

  kept-folded :
      (project : String) (run : RunRecord) (prov : RunProvenance) (n : ℕ) (w : World)
      → rotation_eligible_status run.status ≡ true
      → m.kept (folded project run prov n w)
        ≡ m.kept (current_rollup project (rollup_of project w.rollups)) + one (m.test run prov)
  unfolding folded
  kept-folded project run prov n w h =
      let c = current_rollup project (rollup_of project w.rollups) in
      let e = m.folds run prov n c h in
      elim (Bool-cases (str_eq run.intent_id "")) [
        | inl q ↦ rw q e
        | inr q ↦ rw q (m.passes _ (counted run prov n c) ∙ e)
      ]

  kept-only :
      (p : String) (o : Option RetentionRollup)
      → sum_of m.kept (only o) ≡ m.kept (current_rollup p o)
  unfolding only
  kept-only p none = sym (m.empty p)
  kept-only p (some r) = omega arith

  -- The rollups of a scope after an upsert of a project's row.
  sum_of-rollups_in :
      (scope : String) (r : RetentionRollup) (b : Bool) (w w' : World)
      → Projects w.rollups
      → Projects w'.rollups
      → w'.rollups ≡ upserted r w.rollups
      → m.kept r ≡ m.kept (current_rollup r.project (rollup_of r.project w.rollups)) + one b
      → sum_of m.kept (rollups_in text_le scope w')
        ≡ sum_of m.kept (rollups_in text_le scope w) + one (in_scope scope r.project && b)
  unfolding rollups_in
  sum_of-rollups_in scope r b w w' d d' u k = elim (Bool-cases (is_named scope)) [
    | inr e ↦
        rw
          (
            e,
            sum_of-rollups m.kept text_le w.rollups d,
            sum_of-rollups m.kept text_le w'.rollups d',
            u,
          )
          (omega (arith, sum_of-upserted r m.kept m.empty w.rollups d, k))
    | inl e ↦ elim (Bool-cases (str_eq r.project scope)) [
      | inr q ↦ rw (e, q, u, upserted-other r scope w.rollups q) (omega arith)
      | inl q ↦
          let same = (eq_iff r.project scope).0 q in
          let own =
            subst (λ z. rollup_of z (upserted r w.rollups) ≡ some r) same
              (upserted-own r w.rollups) in
          let k' =
            subst (λ z. m.kept r ≡ m.kept (current_rollup z (rollup_of z w.rollups)) + one b) same
              k in
          rw
            (
              e,
              q,
              u,
              kept-only scope (rollup_of scope (upserted r w.rollups)),
              own,
              kept-only scope (rollup_of scope w.rollups),
            )
            k'
    ]
  ]

  -- Runs other than the one that is removed keep their provenance.
  others-adding :
      (scope id : String) (t t' : Tables) (rs : List RunRecord)
      → t'.phases ≡ filterb (λ p. not (str_eq p.run_id id)) t.phases
      → All (λ r. other_than (λ r. r.id) id r ≡ true) rs
      → All (λ r. adding scope t' r ≡ adding scope t r) rs
  others-adding scope id t t' [] e h = tt
  others-adding scope id t t' (r ∷ rs) e h =
      let same =
        filterb-filterb (λ p. not (str_eq p.run_id id)) (λ p. str_eq p.run_id r.id) t.phases
          (λ p q.
            ground (arith, h.0, q, eq_iff p.run_id id, eq_iff p.run_id r.id, eq_iff r.id id)) in
      (rw (e, same) refl, others-adding scope id t t' rs e h.1)

  -- The rotation of a run moves its share of a total from the runs to the rollup.
  pub total-rotated :
      (scope project : String) (run : RunRecord) (n : ℕ) (w : World)
      → Distinct (λ r. r.id) w.tables.runs
      → Projects w.rollups
      → Held run w.tables.runs
      → run.project ≡ project
      → rotation_eligible_status run.status ≡ true
      → total scope (rotated decode project run n w) ≡ total scope w
  unfolding total rotated without_deliveries without_envelopes without_phases without_run
  total-rotated scope project run n w ids d held own eligible =
      let prov = provenance_of decode w.tables run.id in
      let r = folded project run prov n w in
      let w' = rotated decode project run n w in
      let rp = folded-project project run prov n w in
      let k =
        subst
          (λ z.
            m.kept r ≡ m.kept (current_rollup z (rollup_of z w.rollups)) + one (m.test run prov))
          (sym rp) (kept-folded project run prov n w eligible) in
      let rollups =
        sum_of-rollups_in scope r (m.test run prov) w w' d (upserted-Projects r w.rollups d) refl
          k in
      let left = filterb (other_than (λ r. r.id) run.id) w.tables.runs in
      let same = tally-same (adding scope w'.tables) (adding scope w.tables) left (
        others-adding scope run.id w.tables w'.tables left refl
          (filterb-passes (other_than (λ r. r.id) run.id) w.tables.runs)) in
      let removed = tally-without (λ r. r.id) (adding scope w.tables) run w.tables.runs ids held in
      let owner : in_scope scope r.project ≡ in_scope scope run.project =
        ap (in_scope scope) (rp ∙ sym own) in
      let rollups' =
        subst
          (λ z.
            sum_of m.kept (rollups_in text_le scope w')
            ≡ sum_of m.kept (rollups_in text_le scope w) + one (z && m.test run prov))
          owner rollups in
      omega (arith, same, removed, rollups')
