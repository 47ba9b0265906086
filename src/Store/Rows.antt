-- ===== src/Store/Rows.antt =====
-- internal/store/store.go: the lookups by id, the listing of an intent's bullets, and UPDATE.
use Prim.Native.Nat.{compare, Ordering}
use Prim.Native.String.{compare as compare_text}
use sgt.Base.{
  ℕ, zero, suc, String, Bool, true, false, Option, none, some, List, [], ◌∷◌, str_eq, if◌then◌else◌,
  filterb, find?, length, map_where, no_rows, no_such, Exec, pure, raise, select, ◌>>=◌, ok,
}
use sgt.Store.Types.{RunRecord, IntentRecord, BulletRecord, Tables}

-- The answer to a query for one row.
unfoldable pub one_row : {A : Type 0} → Option A → Exec Tables A
one_row none = raise no_rows
one_row (some a) = pure a

unfoldable pub get_run : String → Exec Tables RunRecord
unfolding one_row
get_run run_id = do row ← select (λ t. find? (λ r. str_eq r.id run_id) t.runs); one_row row

unfoldable pub get_intent : String → Exec Tables IntentRecord
unfolding one_row
get_intent intent_id = do
  row ← select (λ t. find? (λ i. str_eq i.id intent_id) t.intents)
  one_row row

unfoldable pub get_bullet : String → Exec Tables BulletRecord
unfolding one_row
get_bullet bullet_id = do
  row ← select (λ t. find? (λ b. str_eq b.id bullet_id) t.bullets)
  one_row row

-- ORDER BY position, created_at, id: by default SQLite orders texts as their code points.
unfoldable pub bullet_comes_first : BulletRecord → BulletRecord → Bool
bullet_comes_first b c = elim (compare b.position c.position) [
  | Ordering.lt ↦ true
  | Ordering.gt ↦ false
  | Ordering.eq ↦ elim (compare b.created_at c.created_at) [
    | Ordering.lt ↦ true
    | Ordering.gt ↦ false
    | Ordering.eq ↦ elim (compare_text b.id c.id) [ Ordering.gt ↦ false | _ ↦ true ]
  ]
]

unfoldable pub insert_by_position : BulletRecord → List BulletRecord → List BulletRecord
insert_by_position b [] = b ∷ []
insert_by_position b (c ∷ cs) =
    let later = c ∷ insert_by_position b cs in if bullet_comes_first b c then b ∷ c ∷ cs else later

unfoldable pub order_by_position : List BulletRecord → List BulletRecord
unfolding insert_by_position
order_by_position [] = []
order_by_position (b ∷ bs) = insert_by_position b (order_by_position bs)

abbrev pub in_intent : String → BulletRecord → Bool
in_intent intent_id b = str_eq b.intent_id intent_id

unfoldable pub bullets_of : String → Tables → List BulletRecord
bullets_of intent_id t = order_by_position (filterb (in_intent intent_id) t.bullets)

unfoldable pub list_bullets_for_intent : String → Exec Tables (List BulletRecord)
list_bullets_for_intent intent_id = select (bullets_of intent_id)

-- requireOneRow, of the number of rows that an UPDATE changed.
unfoldable pub require_one_row : String → String → ℕ → Exec Tables (Unit {0})
require_one_row kind id zero = raise (no_such kind id)
require_one_row kind id (suc _) = pure tt

-- UPDATE bullets SET ... WHERE id = ?, with RowsAffected.
unfoldable pub update_bullets : String → (BulletRecord → BulletRecord) → Exec Tables ℕ
update_bullets bullet_id f = do
  affected ← select (λ t. length (filterb (λ b. str_eq b.id bullet_id) t.bullets))
  λ d. (
    ok affected,
    record d {
      db = record d.db { bullets = map_where (λ b. str_eq b.id bullet_id) f d.db.bullets };
    },
  )

unfoldable pub update_intents : String → (IntentRecord → IntentRecord) → Exec Tables ℕ
update_intents intent_id f = do
  affected ← select (λ t. length (filterb (λ i. str_eq i.id intent_id) t.intents))
  λ d. (
    ok affected,
    record d {
      db = record d.db { intents = map_where (λ i. str_eq i.id intent_id) f d.db.intents };
    },
  )
