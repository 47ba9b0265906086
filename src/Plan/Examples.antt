-- ===== src/Plan/Examples.antt =====
-- A plan of internal/plan/plan.go at a concrete input.
use sgt.Base.{
  String, Bool, true, false, map, if◌then◌else◌, none, some, List, [], ◌∷◌, ok, refl, ◌≡◌, str_eq,
}
use sgt.Plan.{Plan, Library, scenario_of, scenarios_of, parse_scenarios, seed_plan, read_plan}
use sgt.Plan.Seeded.{readable, all_scenarios, Fresh, seed_plan-read_plan}

-- A file holds a plan itself, each text is a heading and one scenario.
abbrev library : Library Plan
library = record {
  split = λ text. "# Spec" ∷ text ∷ [];
  trim_right = λ s. s;
  trim_space = λ s. s;
  cut_prefix = λ start line. if str_eq line "# Spec" then none else some line;
  number = λ n. "1";
  encode = λ p. p;
  decode = λ p. some p;
  makes_dir = none;
  write = none;
}

abbrev entries : List (Bool × Bool × String)
entries =
    (true, false, "")
    ∷ (false, true, "a run is cancelled")
    ∷ (false, false, "notes")
    ∷ (false, true, "a run fails")
    ∷ []

seed_plan-read_plan_example :
    let seeded = seed_plan library (some (map readable entries)) none in
    (seeded.0 ≡ ok tt)
    × (items : Plan) × (read_plan library seeded.1 ≡ some items)
    × Fresh library (all_scenarios library entries) items
seed_plan-read_plan_example = seed_plan-read_plan library entries none (λ p. refl) refl refl

two_scenarios : all_scenarios library entries ≡ "a run is cancelled" ∷ "a run fails" ∷ []
unfolding parse_scenarios scenarios_of scenario_of
two_scenarios = refl
