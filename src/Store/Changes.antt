-- ===== src/Store/Changes.antt =====
-- internal/store/changes.go: the ordered change sequence.
use sgt.Base.{
  ℕ, zero, suc, ◌+◌, ◌-◌, String, Bool, false, none, some, List, [], ◌∷◌, ◌++◌, ltb, leb, ◌==◌,
  if◌then◌else◌, filterb, Exec, pure, select, time_now, ◌>>=◌, ◌>>◌, update, ok, not, map,
}
use sgt.Store.Types.{Channel, Payload, ChangeRecord, Subscriber, Tables}

-- A send to a full channel is dropped.
unfoldable pub notify : ℕ → Subscriber → Subscriber
notify seq s = elim s.buffer [ none ↦ record s { buffer = some seq } | some _ ↦ s ]

-- The INSERT takes the number after the high-water mark (AUTOINCREMENT).
unfoldable pub append_row : Channel → String → Payload → ℕ → Tables → Tables
append_row channel entity_id payload now t =
    let seq = t.watermark + 1 in
    record t {
      changes =
          t.changes
          ++ record {
            seq = seq;
            channel = channel;
            entity_id = entity_id;
            payload = payload;
            created_at = now;
          }
            ∷ [];
      watermark = seq;
    }

unfoldable pub notify_change : ℕ → Tables → Tables
unfolding notify
notify_change seq t = record t { subs = map (notify seq) t.subs }

unfoldable pub append_change : Channel → String → Payload → Exec Tables ℕ
append_change channel entity_id payload = do
  now ← time_now
  update (append_row channel entity_id payload now)
  λ d. (ok d.db.watermark, record d { db = notify_change d.db.watermark d.db })

unfoldable pub record_transition : Channel → String → Payload → Exec Tables (Unit {0})
record_transition channel entity_id payload = do append_change channel entity_id payload; pure tt

abbrev pub default_change_replay_limit : ℕ
default_change_replay_limit = 500

-- The first rows of a result, `LIMIT n`.
unfoldable pub take : ℕ → List ChangeRecord → List ChangeRecord
take zero cs = []
take (suc n) [] = []
take (suc n) (c ∷ cs) = c ∷ take n cs

-- The rows are held in the order of `seq`.
unfoldable pub list_changes_since : ℕ → ℕ → Exec Tables (List ChangeRecord)
list_changes_since from limit =
    let bound = if limit == 0 then default_change_replay_limit else limit in
    select (λ t. take bound (filterb (λ c. ltb from c.seq) t.changes))

-- COALESCE(MAX(seq), 0)
unfoldable pub max_seq : List ChangeRecord → ℕ
max_seq [] = 0
max_seq (c ∷ cs) = let m = max_seq cs in if ltb m c.seq then c.seq else m

-- COALESCE(MIN(seq), 0)
unfoldable pub min_seq : List ChangeRecord → ℕ
min_seq [] = 0
min_seq (c ∷ []) = c.seq
min_seq (c ∷ c' ∷ cs) = let m = min_seq (c' ∷ cs) in if ltb c.seq m then c.seq else m

unfoldable pub current_sequence : Exec Tables ℕ
current_sequence = do
  highest ← select (λ t. max_seq t.changes)
  watermark ← select (λ t. t.watermark)
  pure (if ltb highest watermark then watermark else highest)

unfoldable pub earliest_sequence : Exec Tables ℕ
earliest_sequence = select (λ t. min_seq t.changes)

unfoldable pub can_replay_from : ℕ → Exec Tables Bool
can_replay_from from = if from == 0 then pure false else do
  current ← current_sequence
  if ltb current from then pure false else do
    earliest ← earliest_sequence
    if earliest == 0 then pure (from == current) else pure (leb (earliest - 1) from)

unfoldable pub subscribe_changes : Exec Tables ℕ
subscribe_changes d =
    let id = d.db.next_sub_id + 1 in
    (
      ok id,
      record d {
        db = record d.db {
          next_sub_id = id;
          subs = d.db.subs ++ record { id = id; buffer = none } ∷ [];
        };
      },
    )

-- The function that SubscribeChanges returns. A second call finds nothing to delete.
unfoldable pub unsubscribe : ℕ → Exec Tables (Unit {0})
unsubscribe id d =
    (ok tt, record d { db = record d.db { subs = filterb (λ s. not (s.id == id)) d.db.subs } })
