-- ===== src/Store/Rotated.antt =====
-- internal/store/retention.go: a whole rotation pass, while the database refuses no statement.
use sgt.Base.{
  none, ℕ, suc, ◌+◌, String, Bool, true, false, ◌&&◌, Option, List, [], ◌∷◌, str_eq, any, length,
  filterb, not, refl, sym, ◌≡◌, inl, inr, ◌∙◌, arith, All, Bool-cases, eq_iff, ok, quiet,
}
use mathlib.Core.Path.{subst}
use sgt.Base.Keys.{filterb-Apart}
use sgt.Store.Types.{RunRecord, Tables}
use sgt.Store.Rows.{bullets_of}
use sgt.Store.World.{World}
use sgt.Store.Retention.{
  RunProvenance, rotation_eligible_status, is_candidate, rotate_each, without_deliveries,
  without_envelopes, without_phases, without_run,
}
use sgt.Store.Rotation.{
  fully_merged, folded, provenance_of, rotated, rotate_one_run-quiet, intent_fully_merged-quiet,
}
use sgt.Store.Conserved.{Measure, total, total-rotated}
use sgt.Store.Rollups.{Projects, upserted-Projects}
use sgt.Store.Chosen.{filterb-Held, filterb-all, filterb-both}
use sgt.Store.Tally.{Held, Distinct, other_than}

-- The runs that a pass rotates.
abbrev pub eligible : String → ℕ → Tables → RunRecord → Bool
eligible project cutoff t r = is_candidate project cutoff r && fully_merged r.intent_id t

abbrev pub Ids : List RunRecord → Type 0
Ids rs = Distinct (λ r. r.id) rs

-- Candidates of a pass: stored runs of the project with a status that is rotated.
pub record Ready (project : String) (cs : List RunRecord) (w : World) : Type 0 where
  pub ids : Ids w.tables.runs
  pub projects : Projects w.rollups
  pub distinct : Ids cs
  pub held : All (λ c. Held c w.tables.runs) cs
  pub own : All (λ c. (c.project ≡ project) × (rotation_eligible_status c.status ≡ true)) cs

module _ (decode : String → Option RunProvenance) (project : String) where
  unfoldable pub rotated_all : List RunRecord → ℕ → World → World
  rotated_all [] n w = w
  rotated_all (c ∷ cs) n w = rotated_all cs (n + 1) (rotated decode project c n w)

  abbrev pub merged_in : Tables → RunRecord → Bool
  merged_in t c = fully_merged c.intent_id t

  pub rotate_each-quiet :
      (cs : List RunRecord) (m : ℕ) (w : World) (n : ℕ)
      → rotate_each decode project cs m (quiet w n) ≡ (
        ok (m + length (filterb (merged_in w.tables) cs), none),
        quiet
            (rotated_all (filterb (merged_in w.tables) cs) n w)
            (n + length (filterb (merged_in w.tables) cs)),
      )
  unfolding rotate_each rotated_all rotated without_deliveries without_envelopes without_phases
      without_run bullets_of
  rotate_each-quiet [] m w n =
      let a : m + 0 ≡ m = omega arith in let b : n + 0 ≡ n = omega arith in rw (a, b) refl
  rotate_each-quiet (c ∷ cs) m w n = elim (Bool-cases (fully_merged c.intent_id w.tables)) [
    | inr e ↦ rw (intent_fully_merged-quiet decode c.intent_id w n, e) (rotate_each-quiet cs m w n)
    | inl e ↦
        let left = length (filterb (merged_in w.tables) cs) in
        let a : m + suc left ≡ m + 1 + left = omega arith in
        let b : n + suc left ≡ n + 1 + left = omega arith in
        rw
          (
            intent_fully_merged-quiet decode c.intent_id w n,
            e,
            rotate_one_run-quiet decode project c w n,
            a,
            b,
          )
          (rotate_each-quiet cs (m + 1) (rotated decode project c n w) (n + 1))
  ]

  Held-left :
      (c : RunRecord) (id : String) (rs : List RunRecord)
      → other_than (λ r. r.id) id c ≡ true
      → Held c rs
      → Held c (filterb (other_than (λ r. r.id) id) rs)
  Held-left c id [] n h = elim h [ ]
  Held-left c id (r ∷ rs) n (inl e) =
      let kept : other_than (λ r. r.id) id r ≡ true =
        subst (λ z. other_than (λ r. r.id) id z ≡ true) (sym e) n in
      rw kept (inl e)
  Held-left c id (r ∷ rs) n (inr h) = elim (Bool-cases (other_than (λ r. r.id) id r)) [
    | inl e ↦ rw e (inr (Held-left c id rs n h))
    | inr e ↦ rw e (Held-left c id rs n h)
  ]

  Ready-next :
      (c : RunRecord) (cs : List RunRecord) (n : ℕ) (w : World)
      → Ready project (c ∷ cs) w
      → Ready project cs (rotated decode project c n w)
  unfolding rotated without_deliveries without_envelopes without_phases without_run
  Ready-next c cs n w h = record {
    ids = filterb-Apart (λ r s. str_eq r.id s.id) (other_than (λ r. r.id) c.id) w.tables.runs h.ids;
    projects =
        upserted-Projects (folded project c (provenance_of decode w.tables c.id) n w) w.rollups
          h.projects;
    distinct = h.distinct.1;
    held = go cs h.distinct.0 h.held.1;
    own = h.own.1;
  }
    where
      go :
          (ds : List RunRecord)
          → All (λ d. str_eq c.id d.id ≡ false) ds
          → All (λ d. Held d w.tables.runs) ds
          → All (λ d. Held d (filterb (other_than (λ r. r.id) c.id) w.tables.runs)) ds
      go [] a k = tt
      go (d ∷ ds) a k = (
        Held-left d c.id w.tables.runs (ground (arith, a.0, eq_iff c.id d.id, eq_iff d.id c.id))
            k.0,
        go ds a.1 k.1,
      )

  -- A pass leaves every total of the analytics as it was.
  pub total-rotated_all :
      (text_le : String → String → Bool) (m : Measure) (scope : String) (cs : List RunRecord)
      (n : ℕ) (w : World)
      → Ready project cs w
      → total decode text_le m scope (rotated_all cs n w) ≡ total decode text_le m scope w
  unfolding rotated_all
  total-rotated_all text_le m scope [] n w h = refl
  total-rotated_all text_le m scope (c ∷ cs) n w h =
      total-rotated_all text_le m scope cs (n + 1) (rotated decode project c n w)
        (Ready-next c cs n w h)
      ∙ total-rotated decode text_le m scope project c n w h.ids h.projects h.held.0 h.own.0.0
          h.own.0.1

  abbrev pub chosen : List RunRecord → String → Bool
  chosen cs id = any (λ c. str_eq id c.id) cs

  pub runs-rotated_all :
      (cs : List RunRecord) (n : ℕ) (w : World)
      → (rotated_all cs n w).tables.runs ≡ filterb (λ r. not (chosen cs r.id)) w.tables.runs
  unfolding rotated_all rotated without_deliveries without_envelopes without_phases without_run
  runs-rotated_all [] n w = sym (filterb-all w.tables.runs)
  runs-rotated_all (c ∷ cs) n w =
      runs-rotated_all cs (n + 1) (rotated decode project c n w)
      ∙ filterb-both (λ r. not (str_eq r.id c.id)) (λ r. not (chosen cs r.id)) _ w.tables.runs
          (λ r. ground arith)

  pub phases-rotated_all :
      (cs : List RunRecord) (n : ℕ) (w : World)
      → (rotated_all cs n w).tables.phases ≡ filterb (λ p. not (chosen cs p.run_id)) w.tables.phases
  unfolding rotated_all rotated without_deliveries without_envelopes without_phases without_run
  phases-rotated_all [] n w = sym (filterb-all w.tables.phases)
  phases-rotated_all (c ∷ cs) n w =
      phases-rotated_all cs (n + 1) (rotated decode project c n w)
      ∙ filterb-both (λ p. not (str_eq p.run_id c.id)) (λ p. not (chosen cs p.run_id)) _
          w.tables.phases (λ p. ground arith)

  pub envelopes-rotated_all :
      (cs : List RunRecord) (n : ℕ) (w : World)
      → (rotated_all cs n w).tables.envelopes
        ≡ filterb (λ e. not (chosen cs e.run_id)) w.tables.envelopes
  unfolding rotated_all rotated without_deliveries without_envelopes without_phases without_run
  envelopes-rotated_all [] n w = sym (filterb-all w.tables.envelopes)
  envelopes-rotated_all (c ∷ cs) n w =
      envelopes-rotated_all cs (n + 1) (rotated decode project c n w)
      ∙ filterb-both (λ e. not (str_eq e.run_id c.id)) (λ e. not (chosen cs e.run_id)) _
          w.tables.envelopes (λ e. ground arith)

  pub bullets-rotated_all :
      (cs : List RunRecord) (n : ℕ) (w : World)
      → ((rotated_all cs n w).tables.bullets ≡ w.tables.bullets)
        × ((rotated_all cs n w).tables.intents ≡ w.tables.intents)
  unfolding rotated_all rotated without_deliveries without_envelopes without_phases without_run
  bullets-rotated_all [] n w = (refl, refl)
  bullets-rotated_all (c ∷ cs) n w = bullets-rotated_all cs (n + 1) (rotated decode project c n w)

-- The candidates that a pass reads are ready for it.
pub candidates-Ready :
    (project : String) (cutoff : ℕ) (w : World)
    → Ids w.tables.runs
    → Projects w.rollups
    → Ready project (filterb (eligible project cutoff w.tables) w.tables.runs) w
candidates-Ready project cutoff w ids projects = record {
  ids = ids;
  projects = projects;
  distinct = filterb-Apart _ (eligible project cutoff w.tables) w.tables.runs ids;
  held = held _ (filterb-Held (eligible project cutoff w.tables) w.tables.runs);
  own = own _ (filterb-Held (eligible project cutoff w.tables) w.tables.runs);
}
  where
    held :
        (cs : List RunRecord)
        → All (λ c. Held c w.tables.runs × (eligible project cutoff w.tables c ≡ true)) cs
        → All (λ c. Held c w.tables.runs) cs
    held [] h = tt
    held (c ∷ cs) h = (h.0.0, held cs h.1)

    own :
        (cs : List RunRecord)
        → All (λ c. Held c w.tables.runs × (eligible project cutoff w.tables c ≡ true)) cs
        → All (λ c. (c.project ≡ project) × (rotation_eligible_status c.status ≡ true)) cs
    own [] h = tt
    own (c ∷ cs) h =
        ((ground (arith, h.0.1, eq_iff c.project project), ground (arith, h.0.1)), own cs h.1)
