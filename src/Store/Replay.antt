-- ===== src/Store/Replay.antt =====
-- internal/store/changes.go: which sequence numbers a reconnecting client can resume from.
use sgt.Base.{
  ℕ, zero, suc, ◌+◌, ◌-◌, Bool, true, false, ◌&&◌, List, [], ◌∷◌, ltb, leb, ◌==◌, if◌then◌else◌,
  filterb, refl, ◌≡◌, ok, quiet, arith, ap, ◌∙◌, inl, inr, Bool-cases, ◌≢◌, ◌≤◌,
}
use sgt.Store.Types.{ChangeRecord, Tables}
use sgt.Store.Changes.{
  take, list_changes_since, max_seq, min_seq, current_sequence, earliest_sequence, can_replay_from,
}

-- The changes are numbered lo + 1, lo + 2, ..., hi.
abbrev pub Consecutive : ℕ → ℕ → List ChangeRecord → Type 0
Consecutive lo hi [] = lo ≡ hi
Consecutive lo hi (c ∷ cs) = (c.seq ≡ lo + 1) × Consecutive (lo + 1) hi cs

Consecutive-le : (lo hi : ℕ) (cs : List ChangeRecord) → Consecutive lo hi cs → lo ≤ hi
Consecutive-le lo hi [] h = omega (arith, h)
Consecutive-le lo hi (c ∷ cs) h = omega (arith, Consecutive-le (lo + 1) hi cs h.1)

max_seq-Consecutive : (lo hi : ℕ) (cs : List ChangeRecord) → Consecutive lo hi cs → max_seq cs ≤ hi
unfolding max_seq
max_seq-Consecutive lo hi [] h = omega arith
max_seq-Consecutive lo hi (c ∷ cs) h =
    ground (arith, max_seq-Consecutive (lo + 1) hi cs h.1, Consecutive-le (lo + 1) hi cs h.1)

min_seq-Consecutive :
    (lo hi : ℕ) (c : ChangeRecord) (cs : List ChangeRecord)
    → Consecutive lo hi (c ∷ cs)
    → min_seq (c ∷ cs) ≡ lo + 1
unfolding min_seq
min_seq-Consecutive lo hi c [] h = h.0
min_seq-Consecutive lo hi c (c' ∷ cs) h = ground (arith, min_seq-Consecutive (lo + 1) hi c' cs h.1)

abbrev after : ℕ → List ChangeRecord → List ChangeRecord
after from cs = filterb (λ c. ltb from c.seq) cs

after-all :
    (from lo hi : ℕ) (cs : List ChangeRecord)
    → from ≤ lo
    → Consecutive lo hi cs
    → after from cs ≡ cs
after-all from lo hi [] l h = refl
after-all from lo hi (c ∷ cs) l h =
    let q : ltb from c.seq ≡ true = ground arith in
    rw q (ap (λ rest. c ∷ rest) (after-all from (lo + 1) hi cs (omega arith) h.1))

after-Consecutive :
    (from lo hi : ℕ) (cs : List ChangeRecord)
    → lo ≤ from
    → from ≤ hi
    → Consecutive lo hi cs
    → Consecutive from hi (after from cs)
after-Consecutive from lo hi [] l u h = omega arith
after-Consecutive from lo hi (c ∷ cs) l u h = elim (Bool-cases (ltb from c.seq)) [
  | inl e ↦
      let same : from ≡ lo = ground arith in
      rw e (ground arith, rw (after-all from (lo + 1) hi cs (omega arith) h.1, same) h.1)
  | inr e ↦ rw e (after-Consecutive from (lo + 1) hi cs (ground arith) u h.1)
]

take-enough :
    (n lo hi : ℕ) (cs : List ChangeRecord) → Consecutive lo hi cs → hi ≤ lo + n → take n cs ≡ cs
unfolding take
take-enough zero lo hi [] h u = refl
take-enough (suc n) lo hi [] h u = refl
take-enough zero lo hi (c ∷ cs) h u =
    absurd (let l = Consecutive-le (lo + 1) hi cs h.1 in ground arith)
take-enough (suc n) lo hi (c ∷ cs) h u =
    ap (λ rest. c ∷ rest) (take-enough n (lo + 1) hi cs h.1 (omega arith))

-- The answers of the three queries decide.
abbrev verdict : ℕ → ℕ → ℕ → Bool
verdict from current earliest =
    if from == 0
    then false
    else if ltb current from
    then false
    else if earliest == 0
    then from == current
    else leb (earliest - 1) from

can_replay_from-queries :
    (from : ℕ) (t : Tables) (now : ℕ)
    → (can_replay_from from (quiet t now)).0
      ≡ ok (
          verdict from
            (if ltb (max_seq t.changes) t.watermark then t.watermark else max_seq t.changes)
            (min_seq t.changes))
unfolding can_replay_from current_sequence earliest_sequence
can_replay_from-queries from t now = ground arith

window-verdict :
    (from lo hi : ℕ) (cs : List ChangeRecord)
    → Consecutive lo hi cs
    → verdict from hi (min_seq cs) ≡ (ltb 0 from && leb lo from && leb from hi)
unfolding min_seq
window-verdict from lo hi [] h = ground arith
window-verdict from lo hi (c ∷ cs) h = let m = min_seq-Consecutive lo hi c cs h in ground arith

-- While the retained changes are consecutive up to the high-water mark, a resume from `from` is
-- accepted exactly if `from` is positive, is not past the mark, and the client has every change
-- that the log has dropped.
pub can_replay_from-verdict :
    (from lo : ℕ) (t : Tables) (now : ℕ)
    → Consecutive lo t.watermark t.changes
    → (can_replay_from from (quiet t now)).0
      ≡ ok (ltb 0 from && leb lo from && leb from t.watermark)
can_replay_from-verdict from lo t now h =
    let q = can_replay_from-queries from t now in
    let w = window-verdict from lo t.watermark t.changes h in
    let m = max_seq-Consecutive lo t.watermark t.changes h in
    let same : (if ltb (max_seq t.changes) t.watermark then t.watermark else max_seq t.changes)
        ≡ t.watermark =
      ground arith in
    q ∙ ap ok (ap (λ n. verdict from n (min_seq t.changes)) same ∙ w)

-- An accepted resume misses nothing: the changes listed are all those after `from`, numbered
-- without a gap, if the limit is at least their number.
pub list_changes_since-gapless :
    (from limit lo : ℕ) (t : Tables) (now : ℕ)
    → Consecutive lo t.watermark t.changes
    → (can_replay_from from (quiet t now)).0 ≡ ok true
    → limit ≢ 0
    → t.watermark ≤ from + limit
    → (cs : List ChangeRecord) × ((list_changes_since from limit (quiet t now)).0 ≡ ok cs)
      × Consecutive from t.watermark cs
unfolding list_changes_since
list_changes_since-gapless from limit lo t now h c n u =
    let v = can_replay_from-verdict from lo t now h in
    let a : ltb 0 from && leb lo from && leb from t.watermark ≡ true = ground (arith, v, c) in
    let l : lo ≤ from = ground arith in
    let m : from ≤ t.watermark = ground arith in
    let z : (limit == 0) ≡ false = ground arith in
    let k = after-Consecutive from lo t.watermark t.changes l m h in
    (
      after from t.changes,
      rw (z, take-enough limit from t.watermark (after from t.changes) k u) refl,
      k,
    )
