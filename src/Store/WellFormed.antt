-- ===== src/Store/WellFormed.antt =====
-- internal/store: the well-formedness of the tables, and the writes that keep it.
use sgt.Base.{
  ℕ, ◌+◌, String, Bool, ◌&&◌, List, [], ◌∷◌, ◌++◌, str_eq, any, map_where, refl, ◌≡◌, ok, not,
  arith, inl, inr, Bool-cases, ◌≤◌, ◌<◌, All,
}
use sgt.Store.Types.{
  RunRecord, PhaseRecord, IntentRecord, BulletRecord, EnvelopeRecord, Channel, Payload,
  ChangeRecord, Tables,
}
use sgt.Base.Keys.{Apart, snoc-Apart, map_where-Apart}
use sgt.Store.Changes.{append_row, notify_change}
use sgt.Store.Runs.{run_insert, has_id, has_request_id}

-- Each change has a higher number than those before it.
abbrev pub Ascending : List ChangeRecord → Type 0
Ascending [] = Unit
Ascending (c ∷ cs) = All (λ e. c.seq < e.seq) cs × Ascending cs

abbrev pub Below : ℕ → List ChangeRecord → Type 0
Below n cs = All (λ c. c.seq ≤ n) cs

-- Two runs clash on the idempotency key if the later one has one.
abbrev pub same_request : String → String → Bool
same_request a b = not (str_eq a "") && str_eq a b

pub record WellFormed (t : Tables) : Type 0 where
  pub runs : Apart (λ r s. str_eq r.id s.id) t.runs
  pub requests : Apart (λ r s. same_request r.request_id s.request_id) t.runs
  pub phases : Apart (λ p q. str_eq p.id q.id) t.phases
  pub intents : Apart (λ i j. str_eq i.id j.id) t.intents
  pub bullets : Apart (λ b c. str_eq b.id c.id) t.bullets
  pub envelopes : Apart (λ e f. str_eq e.id f.id) t.envelopes
  pub ascending : Ascending t.changes
  pub below : Below t.watermark t.changes

Below-snoc :
    (n : ℕ) (c : ChangeRecord) (cs : List ChangeRecord)
    → Below n cs
    → c.seq ≡ n + 1
    → Below (n + 1) (cs ++ c ∷ [])
Below-snoc n c [] b e = (omega (arith, e), tt)
Below-snoc n c (x ∷ cs) b e = (omega (arith, b.0), Below-snoc n c cs b.1 e)

Above-snoc :
    (m : ℕ) (c : ChangeRecord) (cs : List ChangeRecord)
    → All (λ e. m < e.seq) cs
    → m < c.seq
    → All (λ e. m < e.seq) (cs ++ c ∷ [])
Above-snoc m c [] b e = (e, tt)
Above-snoc m c (x ∷ cs) b e = (b.0, Above-snoc m c cs b.1 e)

Ascending-snoc :
    (n : ℕ) (c : ChangeRecord) (cs : List ChangeRecord)
    → Below n cs
    → Ascending cs
    → c.seq ≡ n + 1
    → Ascending (cs ++ c ∷ [])
Ascending-snoc n c [] b a e = (tt, tt)
Ascending-snoc n c (x ∷ cs) b a e =
    (Above-snoc x.seq c cs a.0 (omega (arith, e, b.0)), Ascending-snoc n c cs b.1 a.1 e)

module _ (t : Tables) (h : WellFormed t) where
  pub append_row-WellFormed :
      (channel : Channel) (id : String) (payload : Payload) (now : ℕ)
      → WellFormed (append_row channel id payload now t)
  unfolding append_row
  append_row-WellFormed channel id payload now = record {
    runs = h.runs;
    requests = h.requests;
    phases = h.phases;
    intents = h.intents;
    bullets = h.bullets;
    envelopes = h.envelopes;
    ascending = Ascending-snoc t.watermark _ t.changes h.below h.ascending refl;
    below = Below-snoc t.watermark _ t.changes h.below refl;
  }

  pub notify_change-WellFormed : (seq : ℕ) → WellFormed (notify_change seq t)
  unfolding notify_change
  notify_change-WellFormed seq = record {
    runs = h.runs;
    requests = h.requests;
    phases = h.phases;
    intents = h.intents;
    bullets = h.bullets;
    envelopes = h.envelopes;
    ascending = h.ascending;
    below = h.below;
  }

  pub runs-WellFormed :
      (runs : List RunRecord)
      → Apart (λ r s. str_eq r.id s.id) runs
      → Apart (λ r s. same_request r.request_id s.request_id) runs
      → WellFormed (record t { runs = runs })
  runs-WellFormed runs a b = record {
    runs = a;
    requests = b;
    phases = h.phases;
    intents = h.intents;
    bullets = h.bullets;
    envelopes = h.envelopes;
    ascending = h.ascending;
    below = h.below;
  }

  pub phases-WellFormed :
      (phases : List PhaseRecord)
      → Apart (λ p q. str_eq p.id q.id) phases
      → WellFormed (record t { phases = phases })
  phases-WellFormed phases a = record {
    runs = h.runs;
    requests = h.requests;
    phases = a;
    intents = h.intents;
    bullets = h.bullets;
    envelopes = h.envelopes;
    ascending = h.ascending;
    below = h.below;
  }

  pub intents-WellFormed :
      (intents : List IntentRecord)
      → Apart (λ p q. str_eq p.id q.id) intents
      → WellFormed (record t { intents = intents })
  intents-WellFormed intents a = record {
    runs = h.runs;
    requests = h.requests;
    phases = h.phases;
    intents = a;
    bullets = h.bullets;
    envelopes = h.envelopes;
    ascending = h.ascending;
    below = h.below;
  }

  pub bullets-WellFormed :
      (bullets : List BulletRecord)
      → Apart (λ p q. str_eq p.id q.id) bullets
      → WellFormed (record t { bullets = bullets })
  bullets-WellFormed bullets a = record {
    runs = h.runs;
    requests = h.requests;
    phases = h.phases;
    intents = h.intents;
    bullets = a;
    envelopes = h.envelopes;
    ascending = h.ascending;
    below = h.below;
  }

  pub envelopes-WellFormed :
      (envelopes : List EnvelopeRecord)
      → Apart (λ p q. str_eq p.id q.id) envelopes
      → WellFormed (record t { envelopes = envelopes })
  envelopes-WellFormed envelopes a = record {
    runs = h.runs;
    requests = h.requests;
    phases = h.phases;
    intents = h.intents;
    bullets = h.bullets;
    envelopes = a;
    ascending = h.ascending;
    below = h.below;
  }

module _ (t : Tables) (h : WellFormed t) where
  pub update_runs-WellFormed :
      (id : String) (f : RunRecord → RunRecord)
      → ((r : RunRecord) → (f r).id ≡ r.id)
      → ((r : RunRecord) → (f r).request_id ≡ r.request_id)
      → WellFormed (record t { runs = map_where (has_id id) f t.runs })
  update_runs-WellFormed id f k q =
      runs-WellFormed t h _
        (map_where-Apart (λ r. r.id) (λ a b. str_eq a b) (has_id id) f k t.runs h.runs)
        (map_where-Apart (λ r. r.request_id) same_request (has_id id) f q t.runs h.requests)

  pub run_insert-WellFormed : (r : RunRecord) (t' : Tables) → run_insert r t ≡ ok t' → WellFormed t'
  unfolding run_insert
  run_insert-WellFormed r t' e = elim (Bool-cases (any (has_id r.id) t.runs)) [
    | inl q ↦ ground arith
    | inr q ↦ elim (Bool-cases (any (has_request_id r.request_id) t.runs)) [
      | inl q' ↦ ground arith
      | inr q' ↦
          let same : ok (record t { runs = t.runs ++ r ∷ [] }) ≡ ok t' = ground arith in
          let w =
            runs-WellFormed t h (t.runs ++ r ∷ [])
              (snoc-Apart (λ r s. str_eq r.id s.id) r t.runs q h.runs)
              (snoc-Apart (λ r s. same_request r.request_id s.request_id) r t.runs q' h.requests) in
          ground arith
    ]
  ]
