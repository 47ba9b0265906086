-- ===== src/Plan/Seeded.antt =====
-- internal/plan/plan.go: what is read of a plan that was just seeded.
use sgt.Base.{
  ℕ, ◌+◌, String, Bool, true, false, Option, none, some, List, [], ◌∷◌, ◌++◌, map, length, ok, refl,
  ◌≡◌, ap, sym, ◌∙◌, arith,
}
use mathlib.Core.List.{append_assoc, append-nil}
use sgt.Plan.{
  Plan, complete, total, in_progress_item, Entry, Library, parse_scenarios, walk,
  parse_scenarios_from_dir, items_from, write_plan, seed_plan, read_plan,
}

-- A readable entry: whether it is a directory, whether it is a Markdown file, and its text.
abbrev pub readable : Bool × Bool × String → Entry
readable e = record { failed = none; is_dir = e.0; is_markdown = e.1; content = ok e.2 }

module _ {J : Type 0} (l : Library J) where
  -- The scenarios of the Markdown files, file by file.
  abbrev pub all_scenarios : List (Bool × Bool × String) → List String
  all_scenarios [] = []
  all_scenarios ((true, markdown, text) ∷ es) = all_scenarios es
  all_scenarios ((false, false, text) ∷ es) = all_scenarios es
  all_scenarios ((false, true, text) ∷ es) = parse_scenarios l text ++ all_scenarios es

  walk-all_scenarios :
      (found : List String) (es : List (Bool × Bool × String))
      → walk l found (map readable es) ≡ ok (found ++ all_scenarios es)
  unfolding walk
  walk-all_scenarios found [] = ap ok (sym (append-nil found))
  walk-all_scenarios found ((true, markdown, text) ∷ es) = walk-all_scenarios found es
  walk-all_scenarios found ((false, false, text) ∷ es) = walk-all_scenarios found es
  walk-all_scenarios found ((false, true, text) ∷ es) =
      walk-all_scenarios (found ++ parse_scenarios l text) es
      ∙ ap ok (append_assoc found (parse_scenarios l text) (all_scenarios es))

  -- A plan in which nothing is done: an item for each scenario.
  abbrev pub Fresh : List String → Plan → Type 0
  Fresh ss items =
      (map (λ i. i.scenario) items ≡ ss)
      × (total items ≡ length ss)
      × (complete items ≡ 0)
      × (in_progress_item items ≡ none)

  items_from-Fresh : (n : ℕ) (ss : List String) → Fresh ss (items_from l n ss)
  unfolding items_from total complete in_progress_item
  items_from-Fresh n [] = (refl, refl, refl, refl)
  items_from-Fresh n (s ∷ ss) =
      let (a, b, c, d) = items_from-Fresh (n + 1) ss in
      (ap (λ xs. s ∷ xs) a, omega (arith, b), c, d)

  write_plan-accepted :
      (file : Option J) (items : Plan)
      → l.makes_dir ≡ none
      → l.write ≡ none
      → write_plan l file items ≡ (ok tt, some (l.encode items))
  unfolding write_plan
  write_plan-accepted file items dir write = simp (write_plan, dir, write)

  -- While JSON reads a plan as it was written, the walk of the specifications meets no error and the
  -- file system accepts the writing, a seeded plan is read back with an item for each scenario of
  -- the Markdown files, in order, none of them complete or in progress, whatever the file held before.
  pub seed_plan-read_plan :
      (entries : List (Bool × Bool × String)) (file : Option J)
      → ((p : Plan) → l.decode (l.encode p) ≡ some p)
      → l.makes_dir ≡ none
      → l.write ≡ none
      → let seeded = seed_plan l (some (map readable entries)) file in
        (seeded.0 ≡ ok tt)
        × (items : Plan) × (read_plan l seeded.1 ≡ some items)
        × Fresh (all_scenarios entries) items
  unfolding seed_plan read_plan parse_scenarios_from_dir
  seed_plan-read_plan entries file json dir write =
      let items = items_from l 0 (all_scenarios entries) in
      let seeded : seed_plan l (some (map readable entries)) file ≡ (ok tt, some (l.encode items)) =
        rw (seed_plan, parse_scenarios_from_dir, walk-all_scenarios [] entries)
          (write_plan-accepted file items dir write) in
      let (a, b, c, d) = items_from-Fresh 0 (all_scenarios entries) in
      (ap (λ p. p.0) seeded, items, ap (λ p. read_plan l p.1) seeded ∙ json items, (a, b, c, d))
