-- ===== src/Plan.antt =====
-- internal/plan/plan.go: the plan that a run starts with, which its agent updates and sgt reads.
--
-- `Library` is what the file uses of strings, encoding/json and os: `split` splits a text into
-- lines, `cut_prefix` is HasPrefix with the rest of the text, `number` is the verb %d, and `write` says
-- of os.WriteFile what it leaves of the file if it fails. `J` is what a file holds. A worktree is the file .sgt/plan.json in it, if there
-- is one. The text that an error is wrapped in is not kept.
pub mod Seeded
mod Examples
use sgt.Base.{
  ℕ, suc, ◌+◌, String, Bool, true, false, Option, none, some, List, [], ◌∷◌, ◌++◌, str_eq, ◌==◌,
  str_append, if◌then◌else◌, map, find?, length, Err, setup_failed, Result, ok, err, branch, refl,
  ◌≡◌, ap, arith,
}

record PlanItem : Type 0 where
  id : String
  scenario : String
  status : String

abbrev status_pending : String
status_pending = "pending"

abbrev status_in_progress : String
status_in_progress = "in_progress"

abbrev status_complete : String
status_complete = "complete"

abbrev Plan : Type 0
Plan = List PlanItem

unfoldable complete : Plan → ℕ
complete [] = 0
complete (i ∷ is) =
    let rest = complete is in if str_eq i.status status_complete then suc rest else rest

unfoldable total : Plan → ℕ
total items = length items

unfoldable in_progress_item : Plan → Option PlanItem
in_progress_item items = find? (λ i. str_eq i.status status_in_progress) items

-- An entry of the walk of a directory: a directory, or a file with what reading it gives.
record Entry : Type 0 where
  failed : Option String
  is_dir : Bool
  is_markdown : Bool
  content : Result String

record Library (J : Type 0) : Type 0 where
  split : String → List String
  trim_right : String → String
  trim_space : String → String
  cut_prefix : String → String → Option String
  number : ℕ → String
  encode : Plan → J
  decode : J → Option Plan
  makes_dir : Option String
  write : Option (String × Option J)

module _ {J : Type 0} (l : Library J) where
  unfoldable scenario_of : String → Option String
  scenario_of line = elim (l.cut_prefix "#### Scenario:" (l.trim_right line)) [
    | none ↦ none
    | some rest ↦ if str_eq (l.trim_space rest) "" then none else some (l.trim_space rest)
  ]

  unfoldable scenarios_of : List String → List String
  scenarios_of [] = []
  scenarios_of (line ∷ lines) =
      let rest = scenarios_of lines in elim (scenario_of line) [ none ↦ rest | some s ↦ s ∷ rest ]

  unfoldable parse_scenarios : String → List String
  parse_scenarios markdown = scenarios_of (l.split markdown)

  -- The walk ends with its first error.
  unfoldable walk : List String → List Entry → Result (List String)
  walk scenarios [] = ok scenarios
  walk scenarios (e ∷ es) =
      let kept = walk scenarios es in
      elim e.failed [
        | some error ↦ err (setup_failed error)
        | none ↦
            if e.is_dir
            then kept
            else if e.is_markdown
            then elim e.content [
              | ok text ↦ walk (scenarios ++ parse_scenarios text) es
              | err error ↦ err error
            ]
            else kept
      ]

  -- Without a directory of specifications there are no scenarios.
  unfoldable parse_scenarios_from_dir : Option (List Entry) → Result (List String)
  parse_scenarios_from_dir none = ok []
  parse_scenarios_from_dir (some entries) = walk [] entries

  unfoldable items_from : ℕ → List String → Plan
  items_from n [] = []
  items_from n (s ∷ ss) =
      record { id = str_append "s-" (l.number (n + 1)); scenario = s; status = status_pending }
      ∷ items_from (n + 1) ss

  -- The answer, and the plan file afterwards.
  unfoldable write_plan : Option J → Plan → Result (Unit {0}) × Option J
  write_plan file items = elim l.makes_dir [
    | some error ↦ (err (setup_failed error), file)
    | none ↦ elim l.write [
      | some (error, left) ↦ (err (setup_failed error), left)
      | none ↦ (ok tt, some (l.encode items))
    ]
  ]

  unfoldable seed_plan : Option (List Entry) → Option J → Result (Unit {0}) × Option J
  seed_plan specs file = elim (parse_scenarios_from_dir specs) [
    | err error ↦ (err error, file)
    | ok scenarios ↦ write_plan file (items_from 0 scenarios)
  ]

  unfoldable read_plan : Option J → Option Plan
  read_plan none = none
  read_plan (some content) = l.decode content
