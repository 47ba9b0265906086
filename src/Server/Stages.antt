-- ===== src/Server/Stages.antt =====
-- internal/ui/dispatch.go and gatefix.go: the stages of a run, the one stage of a repository, and the
-- failure that a corrective cycle starts from; internal/config/config.go: its bounds.
--
-- `sort` is sort.Strings. A project is the fields that these functions read; a map is the list of
-- its entries.
use sgt.Base.{
  ℕ, String, Bool, ◌&&◌, ◌||◌, not, Option, none, some, List, [], ◌∷◌, ◌++◌, str_eq, ◌==◌,
  if◌then◌else◌, any, filterb, find?, last?, map, refl, ◌≡◌, ◌≢◌, arith, inl, inr, Bool-cases,
  Option-cases, ◌∙◌, sym, Exec, pure, select, on_error,
}
use sgt.Store.Types.{PhaseRecord, Tables}
use sgt.Store.Phases.{list_phases_for_run}

pub record DagStage : Type 0 where
  pub name : String
  pub repos : List String
  pub after : List String
  pub brief : String
  pub td : String

pub record RepoConfig : Type 0 where
  pub retries : ℕ
  pub fix_retries : ℕ

pub record ProjectConfig : Type 0 where
  pub repos : List (String × RepoConfig)
  pub stages : List DagStage
  pub default_retries : ℕ
  pub default_fix_retries : ℕ

unfoldable pub target_repositories :
    (List String → List String) → ProjectConfig → List String → List String
target_repositories sort proj [] = sort (map (λ r. r.0) proj.repos)
target_repositories sort proj (r ∷ rs) = r ∷ rs

-- A project with no DAG has no stages.
unfoldable pub resolve_stages :
    (List String → List String)
    → List DagStage
    → ProjectConfig
    → List String
    → String
    → List DagStage
resolve_stages sort [] proj repos brief =
    record {
      name = "custom-dispatch";
      repos = target_repositories sort proj repos;
      after = [];
      brief = brief;
      td = "";
    }
    ∷ []
resolve_stages sort (s ∷ ss) proj repos brief = s ∷ ss

abbrev pub lists_repo : String → DagStage → Bool
lists_repo repo s = any (λ r. str_eq r repo) s.repos

unfoldable pub stage_for_repo : List DagStage → String → Option DagStage
stage_for_repo [] repo = none
stage_for_repo (s ∷ ss) repo =
    let rest = stage_for_repo ss repo in
    if lists_repo repo s then some (record s { repos = repo ∷ [] }) else rest

-- The loop of reposForRun, with the repositories seen so far.
unfoldable pub repos_of : List String → List PhaseRecord → List String
repos_of out [] = out
repos_of out (p ∷ ps) =
    repos_of
      (if not (str_eq p.repo "") && not (any (λ r. str_eq r p.repo) out)
        then out ++ p.repo ∷ []
        else out)
      ps

unfoldable pub repos_for_run : String → Exec Tables (List String)
repos_for_run run_id =
    on_error (list_phases_for_run run_id) (λ _. pure []) (λ phases. pure (repos_of [] phases))

unfoldable pub repo_config : ProjectConfig → String → Option RepoConfig
repo_config proj repo = elim (find? (λ e. str_eq e.0 repo) proj.repos) [
  | none ↦ none
  | some e ↦ some e.1
]

unfoldable pub resolved_retries : ProjectConfig → String → ℕ
resolved_retries proj repo = elim (repo_config proj repo) [
  | none ↦ proj.default_retries
  | some r ↦ if not (r.retries == 0) then r.retries else proj.default_retries
]

unfoldable pub default_fix_bound : ProjectConfig → ℕ
default_fix_bound proj = if not (proj.default_fix_retries == 0) then proj.default_fix_retries else 5

unfoldable pub resolved_fix_retries : ProjectConfig → String → ℕ
resolved_fix_retries proj repo = elim (repo_config proj repo) [
  | none ↦ default_fix_bound proj
  | some r ↦ if not (r.fix_retries == 0) then r.fix_retries else default_fix_bound proj
]

abbrev pub counts : String → PhaseRecord → Bool
counts repo p = str_eq p.status "failed" && (str_eq repo "" || str_eq p.repo repo)

-- The loop of lastFailedPhase: `last` is none while nothing is found.
unfoldable pub last_failed : String → Option PhaseRecord → List PhaseRecord → Option PhaseRecord
last_failed repo last [] = last
last_failed repo last (p ∷ ps) =
    last_failed repo
      (if not (str_eq p.status "failed")
        then last
        else if not (str_eq repo "") && not (str_eq p.repo repo)
        then last
        else some p)
      ps

unfoldable pub last_failed_phase : String → String → Exec Tables (Option PhaseRecord)
last_failed_phase run_id repo =
    on_error (select (λ t. filterb (λ p. str_eq p.run_id run_id) t.phases)) (λ _. pure none)
      (λ phases. pure (last_failed repo none phases))

or_last : Option PhaseRecord → Option PhaseRecord → Option PhaseRecord
or_last last none = last
or_last last (some p) = some p

or_last-cons :
    (last : Option PhaseRecord) (p : PhaseRecord) (ps : List PhaseRecord)
    → or_last last (last? (p ∷ ps)) ≡ last? (p ∷ ps)
unfolding or_last
or_last-cons last p [] = refl
or_last-cons last p (q ∷ ps) = or_last-cons last q ps

last?-cons :
    (p : PhaseRecord) (ps : List PhaseRecord) → last? (p ∷ ps) ≡ or_last (some p) (last? ps)
unfolding or_last
last?-cons p [] = refl
last?-cons p (q ∷ ps) = sym (or_last-cons (some p) q ps)

last_failed-or :
    (repo : String) (last : Option PhaseRecord) (ps : List PhaseRecord)
    → last_failed repo last ps ≡ or_last last (last? (filterb (counts repo) ps))
unfolding last_failed or_last
last_failed-or repo last [] = refl
last_failed-or repo last (p ∷ ps) = elim (Bool-cases (counts repo p)) [
  | inl e ↦
      let step : (if not (str_eq p.status "failed")
            then last
            else if not (str_eq repo "") && not (str_eq p.repo repo)
            then last
            else some p)
          ≡ some p =
        ground arith in
      rw (e, step, last_failed-or repo (some p) ps)
        (sym (last?-cons p (filterb (counts repo) ps))
          ∙ sym (or_last-cons last p (filterb (counts repo) ps)))
  | inr e ↦
      let step : (if not (str_eq p.status "failed")
            then last
            else if not (str_eq repo "") && not (str_eq p.repo repo)
            then last
            else some p)
          ≡ last =
        ground arith in
      rw (e, step) (last_failed-or repo last ps)
]

or_last-none : (o : Option PhaseRecord) → or_last none o ≡ o
unfolding or_last
or_last-none none = refl
or_last-none (some p) = refl

-- The failure that a corrective cycle starts from is the newest failed phase, of the given
-- repository if one is given.
pub last_failed-newest :
    (repo : String) (ps : List PhaseRecord)
    → last_failed repo none ps ≡ last? (filterb (counts repo) ps)
last_failed-newest repo ps =
    last_failed-or repo none ps ∙ or_last-none (last? (filterb (counts repo) ps))

-- A corrective loop always has a cycle to run: its bound is never zero.
resolved_fix_retries-positive :
    (proj : ProjectConfig) (repo : String) → resolved_fix_retries proj repo ≢ 0
unfolding resolved_fix_retries default_fix_bound
resolved_fix_retries-positive proj repo = elim (Option-cases (repo_config proj repo)) [
  | inl e ↦ rw (resolved_fix_retries, e) (λ h. ground arith)
  | inr (r, e) ↦ rw (resolved_fix_retries, e) (λ h. ground arith)
]
