-- ===== src/Store/World.antt =====
-- internal/store: all the tables that retention touches, and the methods on a part of them.
use sgt.Base.{ℕ, String, Option, Err, List, Exec}
use sgt.Store.Types.{Tables}
use sgt.Delivery.Types.{Deliveries}

-- A Go map from texts to counts, read at any key: a missing key counts 0.
abbrev pub Counts : Type 0
Counts = String → ℕ

-- internal/store/retention.go: RetentionRollup. The JSON of the two columns is the counts.
pub record RetentionRollup : Type 0 where
  pub project : String
  pub computed_through : ℕ
  pub run_count : ℕ
  pub passed_count : ℕ
  pub failed_count : ℕ
  pub cancelled_count : ℕ
  pub interrupted_count : ℕ
  pub bullet_total : ℕ
  pub bullet_merged : ℕ
  pub by_work_type : Counts
  pub by_agent : Counts
  pub by_model : Counts
  pub by_provider : Counts

-- internal/store/artifact.go
pub record ArtifactRecord : Type 0 where
  pub id : String
  pub run_id : String
  pub phase_id : String
  pub repo : String
  pub filename : String
  pub content_type : String
  pub size_bytes : ℕ
  pub path : String
  pub captured_at : ℕ
  pub dropped_count : ℕ
  pub dropped_reason : String

-- `files` holds the paths of the durable files that exist.
pub record World : Type 0 where
  pub tables : Tables
  pub deliveries : Deliveries
  pub rollups : List RetentionRollup
  pub artifacts : List ArtifactRecord
  pub files : List String

-- What a rotation returns: how many rows were rotated, and the error that ended it, if there is one.
abbrev pub Rotation : Type 0
Rotation = ℕ × Option Err

module _ {A : Type 0} where
  abbrev pub in_tables : Exec Tables A → Exec World A
  in_tables m d =
      let (r, d') = m (record { db = d.db.tables; now = d.now; faults = d.faults }) in
      (r, record { db = record d.db { tables = d'.db }; now = d'.now; faults = d'.faults })

  abbrev pub in_deliveries : Exec Deliveries A → Exec World A
  in_deliveries m d =
      let (r, d') = m (record { db = d.db.deliveries; now = d.now; faults = d.faults }) in
      (r, record { db = record d.db { deliveries = d'.db }; now = d'.now; faults = d'.faults })
