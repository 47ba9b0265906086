-- ===== src/Runner/Gains.antt =====
-- internal/runner/artifacts.go: what the loop of a capture adds to the store and to the disk.
use sgt.Base.{
  ℕ, ◌+◌, ◌≤◌, List, [], ◌∷◌, ◌++◌, length, length-append, refl, sym, ap, ◌≡◌, ◌∙◌, arith,
}
use mathlib.Core.List.{append_assoc, append-nil}
use sgt.Store.World.{ArtifactRecord, World}
use sgt.Runner.Capture.{
  Drop, Captured, drop, max_artifact_count, max_artifact_total_bytes, not_opened, not_copied,
  not_recorded, over_count, over_bytes,
}

-- Within the caps.
abbrev pub Capped : Captured → Type 0
Capped c = (c.count ≤ max_artifact_count) × (c.total_bytes ≤ max_artifact_total_bytes)

-- The dropped files of which a durable file was made nevertheless.
abbrev pub stray : List Drop → ℕ
stray [] = 0
stray (not_copied _ ∷ ds) = stray ds + 1
stray (not_recorded _ ∷ ds) = stray ds + 1
stray (_ ∷ ds) = stray ds

pub stray-append : (ds es : List Drop) → stray (ds ++ es) ≡ stray ds + stray es
stray-append [] es = omega arith
stray-append (not_copied _ ∷ ds) es = omega (arith, stray-append ds es)
stray-append (not_recorded _ ∷ ds) es = omega (arith, stray-append ds es)
stray-append (not_opened _ ∷ ds) es = stray-append ds es
stray-append (over_count _ ∷ ds) es = stray-append ds es
stray-append (over_bytes _ ∷ ds) es = stray-append ds es

abbrev pub bytes_of : List ArtifactRecord → ℕ
bytes_of [] = 0
bytes_of (a ∷ rest) = a.size_bytes + bytes_of rest

pub bytes_of-append :
    (xs ys : List ArtifactRecord) → bytes_of (xs ++ ys) ≡ bytes_of xs + bytes_of ys
bytes_of-append [] ys = omega arith
bytes_of-append (a ∷ xs) ys = omega (arith, bytes_of-append xs ys)

-- What a capture adds to the store and to the disk: rows of so many files with so many bytes, and
-- a durable file at most for each of these and for each of so many others.
pub record Gains (before after : World) (count bytes others : ℕ) : Type 0 where
  pub new : List ArtifactRecord
  pub rows : after.artifacts ≡ before.artifacts ++ new
  pub number : length new ≡ count
  pub sizes : bytes_of new ≡ bytes
  pub files : length after.files ≤ length before.files + count + others

pub Gains-none : (w : World) → Gains w w 0 0 0
Gains-none w = record {
  new = [];
  rows = sym (append-nil w.artifacts);
  number = refl;
  sizes = refl;
  files = omega arith;
}

pub Gains-trans :
    (w w' w'' : World) (n b l n' b' l' : ℕ)
    → Gains w w' n b l
    → Gains w' w'' n' b' l'
    → Gains w w'' (n + n') (b + b') (l + l')
Gains-trans w w' w'' n b l n' b' l' g h = record {
  new = g.new ++ h.new;
  rows = h.rows ∙ ap (λ rs. rs ++ h.new) g.rows ∙ append_assoc w.artifacts g.new h.new;
  number = omega (arith, length-append g.new h.new, g.number, h.number);
  sizes = omega (arith, bytes_of-append g.new h.new, g.sizes, h.sizes);
  files = omega (arith, g.files, h.files);
}

-- From one state of the loop to a later one, over so many files.
pub record Step (w w' : World) (c c' : Captured) (files : ℕ) : Type 0 where
  pub n : ℕ
  pub b : ℕ
  pub l : ℕ
  pub gains : Gains w w' n b l
  pub count : c'.count ≡ c.count + n
  pub total : c'.total_bytes ≡ c.total_bytes + b
  pub strays : stray c'.dropped ≡ stray c.dropped + l
  pub all_files : c'.count + length c'.dropped ≡ c.count + length c.dropped + files
  pub capped : Capped c'

pub Step-trans :
    (w w' w'' : World) (c c' c'' : Captured) (k k' : ℕ)
    → Step w w' c c' k
    → Step w' w'' c' c'' k'
    → Step w w'' c c'' (k + k')
Step-trans w w' w'' c c' c'' k k' s t = record {
  n = s.n + t.n;
  b = s.b + t.b;
  l = s.l + t.l;
  gains = Gains-trans w w' w'' s.n s.b s.l t.n t.b t.l s.gains t.gains;
  count = omega (arith, s.count, t.count);
  total = omega (arith, s.total, t.total);
  strays = omega (arith, s.strays, t.strays);
  all_files = omega (arith, s.all_files, t.all_files);
  capped = t.capped;
}

pub dropped-Step :
    (w w' : World) (c : Captured) (why : Drop)
    → Capped c
    → Gains w w' 0 0 (stray (why ∷ []))
    → Step w w' c (drop why c) 1
dropped-Step w w' c why h g = record {
  n = 0;
  b = 0;
  l = stray (why ∷ []);
  gains = g;
  count = omega arith;
  total = omega arith;
  strays = stray-append c.dropped (why ∷ []);
  all_files = omega (arith, length-append c.dropped (why ∷ []));
  capped = h;
}
