-- ===== src/Upload/Rows.antt =====
-- services/upload/postgres.go: the methods of `PostgresStore`, one function each, and the rows that
-- they leave. `attempt` adds the calls that fail or whose answer is lost.
use aether_edit.Prelude.{
  ℕ, zero, suc, ◌+◌, String, Bool, not, ◌&&◌, none, some, List, [], ◌∷◌, ◌==◌, if◌then◌else◌,
  Result, ok, err,
}
use aether_edit.Prelude.Assoc.{lookup, insert}
use aether_edit.Prelude.Table.{update_where, select_first, count_where}
use aether_edit.Upload.{
  SessionState, assembled, ChunkState, pending, inflight, done, retry, is_done, Session, Chunk, Db,
}

-- `ErrNotFound`, and the driver's errors.
pub data StoreError : Type 0 where
  not_found duplicate_key unavailable unexpected_state : StoreError

-- `ClaimResult`
pub data Claim : Type 0 where
  acquired already_done : Claim

-- How a call of the database ends: it is answered, it fails, or it is carried out but its answer is
-- lost.
pub data Outcome : Type 0 where
  confirmed failed unconfirmed : Outcome

unfoldable pub attempt :
    {A : Type 0} → Outcome → Db → Result StoreError A × Db → Result StoreError A × Db
attempt confirmed db answer = answer
attempt failed db answer = (err unavailable, db)
attempt unconfirmed db answer = (err unavailable, answer.1)

-- The rows of `CreateSession`: n chunks from index i on, with the columns' defaults.
unfoldable pub pending_rows : ℕ → ℕ → List Chunk
pending_rows zero i = []
pending_rows (suc n) i =
    record { index = i; state = pending; sha256 = ""; etag = ""; size_bytes = 0 }
    ∷ pending_rows n (i + 1)

-- `CreateSession`: one transaction, refused where the primary key is taken. The columns sha256 and
-- object_key have their default.
unfoldable pub create_session : Session → Db → Result StoreError (Unit {0}) × Db
unfolding lookup insert pending_rows
create_session s db = elim (lookup s.id db.sessions) [
  | some _ ↦ (err duplicate_key, db)
  | none ↦ (
    ok tt,
    record {
      sessions = insert s.id (record s { sha256 = ""; object_key = "" }) db.sessions;
      chunks = insert s.id (pending_rows s.chunk_count 0) db.chunks;
    },
  )
]

-- `GetSession`
unfoldable pub get_session : String → Db → Result StoreError Session
unfolding lookup
get_session id db = elim (lookup id db.sessions) [ none ↦ err not_found | some s ↦ ok s ]

-- The rows WHERE session_id = $1.
unfoldable pub rows_of : String → Db → List Chunk
unfolding lookup
rows_of id db = elim (lookup id db.chunks) [ none ↦ [] | some rows ↦ rows ]

-- `GetChunks`. The rows stand in the order of their index, in which `create_session` makes them.
unfoldable pub get_chunks : String → Db → List Chunk
unfolding rows_of
get_chunks id db = rows_of id db

abbrev pub at_index : ℕ → Chunk → Bool
at_index i c = c.index == i

abbrev pub open_at : ℕ → Chunk → Bool
open_at i c = c.index == i && not (is_done c.state)

abbrev pub with_state : ChunkState → Chunk → Chunk
with_state st c = record c { state = st }

-- `UPDATE upload_chunks SET f WHERE session_id = id AND p`
unfoldable pub update_chunks : String → (Chunk → Bool) → (Chunk → Chunk) → Db → Db
unfolding lookup insert update_where
update_chunks id p f db = elim (lookup id db.chunks) [
  | none ↦ db
  | some rows ↦ record db { chunks = insert id (update_where p f rows) db.chunks }
]

-- `tag.RowsAffected() == 1`
unfoldable pub affects_one : String → (Chunk → Bool) → Db → Bool
unfolding rows_of count_where
affects_one id p db = count_where p (rows_of id db) == 1

-- `ClaimChunk`
unfoldable pub claim_chunk : String → ℕ → Db → Result StoreError Claim × Db
unfolding update_chunks affects_one rows_of select_first
claim_chunk id i db = (
  if affects_one id (open_at i) db
      then ok acquired
      else elim (select_first (at_index i) (rows_of id db)) [
        | none ↦ err not_found
        | some c ↦ (if is_done c.state then ok already_done else err unexpected_state)
      ],
  update_chunks id (open_at i) (with_state inflight) db,
)

abbrev pub finished : String → String → ℕ → Chunk → Chunk
finished sha etag size c = record c { state = done; sha256 = sha; etag = etag; size_bytes = size }

-- `MarkChunkDone`
unfoldable pub mark_chunk_done :
    String → ℕ → String → String → ℕ → Db → Result StoreError (Unit {0}) × Db
unfolding update_chunks affects_one
mark_chunk_done id i sha etag size db = (
  if affects_one id (at_index i) db then ok tt else err not_found,
  update_chunks id (at_index i) (finished sha etag size) db,
)

-- `MarkChunkRetry`
unfoldable pub mark_chunk_retry : String → ℕ → Db → Result StoreError (Unit {0}) × Db
unfolding update_chunks affects_one
mark_chunk_retry id i db = (
  if affects_one id (open_at i) db then ok tt else err not_found,
  update_chunks id (open_at i) (with_state retry) db,
)

-- `UPDATE upload_sessions SET f WHERE id = $1`, and its count of rows.
unfoldable pub update_session :
    String → (Session → Session) → Db → Result StoreError (Unit {0}) × Db
unfolding lookup insert
update_session id f db = elim (lookup id db.sessions) [
  | none ↦ (err not_found, db)
  | some s ↦ (ok tt, record db { sessions = insert id (f s) db.sessions })
]

-- `SetSessionAssembled`
unfoldable pub set_session_assembled :
    String → String → String → Db → Result StoreError (Unit {0}) × Db
unfolding update_session
set_session_assembled id sha key =
    update_session id (λ s. record s { state = assembled; sha256 = sha; object_key = key })

-- `SetSessionState`
unfoldable pub set_session_state : String → SessionState → Db → Result StoreError (Unit {0}) × Db
unfolding update_session
set_session_state id st = update_session id (λ s. record s { state = st })
