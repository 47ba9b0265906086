-- ===== src/Base.antt =====
-- The names that every module shares: the libraries', passed on, and those of the children.
mod Tests
mod Lists
mod Database
pub mod Keeps
pub mod Leads
pub mod Keys
pub use Tests.*
pub use Lists.*
pub use Database.{
  Result, ok, err, Err, db_failure, no_rows, no_such, duplicate_id, duplicate_request_id,
  duplicate_envelope_id, empty_field, not_green, no_intent, no_bullet, attempt_failed,
  unique_violation, replay_quarantined, not_dead_letter, no_delivery, remove_failed, agent_failed,
  run_cancelled, gate_stopped, unknown_repo, no_gates, setup_failed, blocking_finding, no_red_state,
  still_failing, not_persisted, no_reason, Disk, Exec,
}
pub use Database.{
  pure, raise, query, select, update, time_now, ◌>>=◌, ◌>>◌, on_error, execute, quiet, answer,
  continue, branch, ignore, bind-ok,
}
pub use Prim.Native.Nat.{ℕ, zero, suc, ◌+◌, ◌-◌, ◌*◌, ◌/◌, ◌%◌, ◌^◌, ◌≤◌, ◌<◌}
pub use Prim.Native.String.{String}
pub use mathlib.Core.Path.{◌≡◌, refl, sym, ap, ◌∙◌}
pub use mathlib.Core.Logic.{◌≢◌, ◌↔◌, ◌⊎◌, inl, inr}
pub use mathlib.Core.Bool.{Bool, true, false, not, ◌&&◌, ◌||◌}
pub use mathlib.Core.Option.{Option, none, some}
pub use mathlib.Core.List.{List, [], ◌∷◌, ◌++◌, map}
pub use native.Mathlib.Omega.{arith}
pub use Prim.Native.String.{◌++◌ as str_append}
pub use text.Mathlib.Text.{◌==◌ as str_eq}
pub use text.Mathlib.TextEquality.{eq_iff}
