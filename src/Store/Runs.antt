-- ===== src/Store/Runs.antt =====
-- internal/store/store.go: the runs, with the idempotency key and the label of a dispatch.
--
-- `trim` is strings.TrimSpace; `digest` and `numbered` are those of the naming package.
use sgt.Base.{
  ℕ, zero, suc, ◌+◌, String, Bool, ◌&&◌, List, [], ◌∷◌, ◌++◌, str_eq, ltb, if◌then◌else◌, any,
  filterb, find?, length, map_where, no_rows, duplicate_id, duplicate_request_id, Exec, pure, raise,
  select, time_now, ◌>>=◌, ◌>>◌, execute, update, ok, err, Result, not, map,
}
use sgt.Store.Types.{
  RunStatus, RunRecord, run_channel, text, flag, run_status, Tables, is_terminal_run_status,
}
use sgt.Store.Changes.{record_transition}
use sgt.Store.Rows.{one_row, require_one_row}
use sgt.Naming.{slug_attempt}

-- The slugs that runs which have not ended hold.
abbrev pub holds_slug : RunRecord → Bool
holds_slug r = not (str_eq r.slug "") && not (is_terminal_run_status r.status)

unfoldable pub taken_slugs : Tables → List String
taken_slugs t = map (λ r. r.slug) (filterb holds_slug t.runs)

abbrev pub is_taken : List String → String → Bool
is_taken taken candidate = any (λ s. str_eq s candidate) taken

-- The loop over the attempts, by the attempts left.
unfoldable pub first_free : (ℕ → String) → List String → String → ℕ → ℕ → String
first_free candidate taken id zero attempt = id
first_free candidate taken id (suc left) attempt =
    let next = first_free candidate taken id left (attempt + 1) in
    if not (is_taken taken (candidate attempt)) then candidate attempt else next

abbrev pub has_id : String → RunRecord → Bool
has_id id r = str_eq r.id id

abbrev pub has_request_id : String → RunRecord → Bool
has_request_id request_id r = not (str_eq r.request_id "") && str_eq r.request_id request_id

-- PRIMARY KEY (id), then the unique index on request_id, in which NULLs are distinct.
unfoldable pub run_insert : RunRecord → Tables → Result Tables
run_insert r t =
    if any (has_id r.id) t.runs
    then err (duplicate_id r.id)
    else if any (has_request_id r.request_id) t.runs
    then err (duplicate_request_id r.request_id)
    else ok (record t { runs = t.runs ++ r ∷ [] })

abbrev pub announce_run : RunRecord → Exec Tables (Unit {0})
announce_run r = record_transition run_channel r.id (
    ("transition", text "created")
    ∷ ("id", text r.id)
    ∷ ("project", text r.project)
    ∷ ("status", run_status r.status)
    ∷ ("slug", text r.slug)
    ∷ ("intent_id", text r.intent_id)
    ∷ ("change_id", text r.change_id)
    ∷ [])

module _ (digest : String → ℕ) (numbered : String → ℕ → String) where
  unfoldable pub assign_slug : RunRecord → Exec Tables RunRecord
  assign_slug r = if not (str_eq r.slug "") then pure r else do
    taken ← select taken_slugs
    pure (record r { slug = first_free (slug_attempt digest numbered r.id) taken r.id 64 0 })

  unfoldable pub create_run : (String → String) → RunRecord → Exec Tables (Unit {0})
  create_run trim r = do
    labelled ← assign_slug r
    now ← time_now
    let row = record labelled {
      created_at = now;
      updated_at = now;
      request_id = trim labelled.request_id;
    }
    execute (run_insert row)
    announce_run row

unfoldable pub get_run_by_request_id : (String → String) → String → Exec Tables RunRecord
get_run_by_request_id trim request_id =
    if str_eq (trim request_id) ""
    then raise no_rows
    else do row ← select (λ t. find? (has_request_id (trim request_id)) t.runs); one_row row

-- UPDATE runs SET ... WHERE id = ?, with RowsAffected.
unfoldable pub update_runs : String → (RunRecord → RunRecord) → Exec Tables ℕ
update_runs run_id f = do
  affected ← select (λ t. length (filterb (has_id run_id) t.runs))
  λ d. (ok affected, record d { db = record d.db { runs = map_where (has_id run_id) f d.db.runs } })

-- changedARow, for a driver that can say.
unfoldable pub changed_a_row : ℕ → Bool
changed_a_row n = ltb 0 n

unfoldable pub update_run_status : String → RunStatus → Exec Tables (Unit {0})
update_run_status run_id status = do
  now ← time_now
  affected ← update_runs run_id (λ r. record r { status = status; updated_at = now })
  if not (changed_a_row affected)
      then pure tt
      else record_transition run_channel run_id (
          ("transition", text "status")
          ∷ ("id", text run_id)
          ∷ ("status", run_status status)
          ∷ ("terminal", flag (is_terminal_run_status status))
          ∷ [])

unfoldable pub set_run_base_branch : String → String → Exec Tables (Unit {0})
set_run_base_branch run_id branch = do
  now ← time_now
  affected ← update_runs run_id (λ r. record r { base_branch = branch; updated_at = now })
  require_one_row "run" run_id affected

-- DELETE FROM runs WHERE id = ?, with RowsAffected.
unfoldable pub delete_row : String → Exec Tables ℕ
delete_row run_id = do
  affected ← select (λ t. length (filterb (has_id run_id) t.runs))
  λ d. (
    ok affected,
    record d { db = record d.db { runs = filterb (λ r. not (has_id run_id r)) d.db.runs } },
  )

unfoldable pub delete_run : String → Exec Tables (Unit {0})
delete_run run_id = do
  update (λ t. record t { phases = filterb (λ p. not (str_eq p.run_id run_id)) t.phases })
  update (λ t. record t { envelopes = filterb (λ e. not (str_eq e.run_id run_id)) t.envelopes })
  affected ← delete_row run_id
  if not (changed_a_row affected)
      then pure tt
      else record_transition run_channel run_id
          (("transition", text "deleted") ∷ ("id", text run_id) ∷ [])
