-- ===== src/Upload.antt =====
-- services/upload: the sessions and their chunk maps (store.go), the tables behind them
-- (postgres.go and its migration), and the replies of the handlers (server.go). The columns'
-- CHECK constraints leave exactly the states that are constructors here. Sizes are int64 columns that
-- are checked to be positive, so they are natural numbers.
mod Tests
pub mod Rows
pub mod Gauge
pub mod Shift
pub mod Lifecycle
pub mod Handler
pub mod Create
pub mod Put
pub mod Complete
pub mod Cancel
pub mod Plan
pub mod Safety
pub mod Publication
pub mod Landing
pub mod Ends
pub mod Rollback
pub mod Opening
pub mod Traffic
use aether_edit.Prelude.{ℕ, zero, suc, ◌+◌, String, List, [], ◌∷◌, Bool, true, false}
use aether_edit.Prelude.Assoc.{Assoc}

pub data SessionState : Type 0 where
  active assembled completed cancelled : SessionState

pub data ChunkState : Type 0 where
  pending inflight done retry : ChunkState

abbrev pub is_active : SessionState → Bool
is_active active = true
is_active _ = false

abbrev pub is_done : ChunkState → Bool
is_done done = true
is_done _ = false

-- `Session`, less the two times, which no code of the service reads.
pub record Session : Type 0 where
  pub id : String
  pub workspace_id : String
  pub user_id : String
  pub filename : String
  pub size_bytes : ℕ
  pub mime : String
  pub chunk_size_bytes : ℕ
  pub chunk_count : ℕ
  pub state : SessionState
  pub s3_upload_id : String
  pub staging_key : String
  pub sha256 : String
  pub object_key : String

-- `Chunk`
pub record Chunk : Type 0 where
  pub index : ℕ
  pub state : ChunkState
  pub sha256 : String
  pub etag : String
  pub size_bytes : ℕ

-- The tables upload_sessions, by its primary key, and upload_chunks, whose rows stand under their
-- session's id.
pub record Db : Type 0 where
  pub sessions : Assoc Session
  pub chunks : Assoc (List Chunk)

-- `Identity`, of a verified token.
pub record Identity : Type 0 where
  pub workspace_id : String
  pub user_id : String
