-- ===== src/Store/Phases.antt =====
-- internal/store/store.go and reconcile.go: phases and envelopes, and what a start of the coordinator
-- does to the runs that a stop cut off.
--
-- `redact_text` and `redact_json` are those of internal/redact; a payload is its text.
use sgt.Base.{
  ℕ, String, Bool, ◌&&◌, Option, none, some, List, [], ◌∷◌, ◌++◌, str_eq, if◌then◌else◌, any,
  filterb, last?, map_where, duplicate_envelope_id, empty_field, Exec, pure, raise, select,
  time_now, ◌>>=◌, ◌>>◌, on_error, execute, update, ok, err, Result, not, map,
}
use sgt.Store.Types.{
  PhaseRecord, EnvelopeRecord, phase_channel, envelope_channel, text, number, Tables,
}
use sgt.Store.Changes.{record_transition}
use sgt.Store.Rows.{one_row}
use sgt.Store.Runs.{has_id}

-- INSERT OR REPLACE deletes the row that holds the id.
unfoldable pub replace_phase : PhaseRecord → Tables → Tables
replace_phase p t = record t { phases = filterb (λ q. not (str_eq q.id p.id)) t.phases ++ p ∷ [] }

unfoldable pub touch_run : String → ℕ → Tables → Tables
touch_run run_id now t = record t {
  runs = map_where (has_id run_id) (λ r. record r { updated_at = now }) t.runs;
}

unfoldable pub record_phase :
    (String → String) → (String → String) → PhaseRecord → Exec Tables (Unit {0})
record_phase redact_text redact_json p = do
  now ← time_now
  let row = record p {
    created_at = now;
    error = redact_text p.error;
    payload = redact_json p.payload;
  }
  update (replace_phase row)
  update (touch_run row.run_id now)
  record_transition phase_channel row.id (
      ("id", text row.id)
      ∷ ("run_id", text row.run_id)
      ∷ ("repo", text row.repo)
      ∷ ("name", text row.name)
      ∷ ("kind", text row.kind)
      ∷ ("status", text row.status)
      ∷ ("duration_ms", number row.duration_ms)
      ∷ [])

unfoldable pub envelope_insert : EnvelopeRecord → Tables → Result Tables
envelope_insert e t =
    if any (λ f. str_eq f.id e.id) t.envelopes
    then err (duplicate_envelope_id e.id)
    else ok (record t { envelopes = t.envelopes ++ e ∷ [] })

-- The first of the fields that are required and empty.
unfoldable pub missing_field : EnvelopeRecord → Option String
missing_field e =
    if str_eq e.type ""
    then some "type"
    else if str_eq e.schema_version ""
    then some "schema_version"
    else if str_eq e.producer ""
    then some "producer"
    else if str_eq e.correlation_id ""
    then some "correlation_id"
    else none

abbrev pub announce_envelope : EnvelopeRecord → Exec Tables (Unit {0})
announce_envelope e = record_transition envelope_channel e.id (
    ("id", text e.id)
    ∷ ("run_id", text e.run_id)
    ∷ ("repo", text e.repo)
    ∷ ("stage", text e.stage)
    ∷ [])

unfoldable pub publish :
    (String → String) → (String → String) → EnvelopeRecord → Exec Tables (Unit {0})
publish redact_text redact_json e = do
  now ← time_now
  let row = record e {
    summary = redact_text e.summary;
    body = redact_json e.body;
    artifacts = map redact_text e.artifacts;
    created_at = now;
    published_at = now;
  }
  execute (envelope_insert row)
  announce_envelope row

unfoldable pub record_envelope :
    (String → String) → (String → String) → EnvelopeRecord → Exec Tables (Unit {0})
record_envelope redact_text redact_json e = elim (missing_field e) [
  | some field ↦ raise (empty_field field)
  | none ↦ publish redact_text redact_json e
]

abbrev pub envelope_of : String → String → EnvelopeRecord → Bool
envelope_of run_id repo e = str_eq e.run_id run_id && str_eq e.repo repo

-- ORDER BY created_at DESC LIMIT 1: the last row, since the rows are held in that order.
unfoldable pub get_latest_envelope : String → String → Exec Tables EnvelopeRecord
unfolding one_row
get_latest_envelope run_id repo = do
  row ← select (λ t. last? (filterb (envelope_of run_id repo) t.envelopes))
  one_row row

unfoldable pub causation_from_latest : String → String → Exec Tables (Option String)
causation_from_latest run_id repo =
    on_error (get_latest_envelope run_id repo) (λ _. pure none) (λ e. pure (some e.id))

unfoldable pub list_phases_for_run : String → Exec Tables (List PhaseRecord)
list_phases_for_run run_id = select (λ t. filterb (λ p. str_eq p.run_id run_id) t.phases)

unfoldable pub list_envelopes_for_run : String → Exec Tables (List EnvelopeRecord)
list_envelopes_for_run run_id = select (λ t. filterb (λ e. str_eq e.run_id run_id) t.envelopes)
