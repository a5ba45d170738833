-- ===== src/Upload/Complete.antt =====
-- services/upload/server.go: `handleGet`, `handleComplete` and `assemble`.
use Prim.Native.String.{◌++◌ as append}
use aether_edit.Prelude.{
  ℕ, suc, ◌+◌, String, Bool, true, false, not, ◌||◌, Option, some, List, [], ◌∷◌, ltb, ◌==◌,
  if◌then◌else◌, length, ok,
}
use aether_edit.Upload.{assembled, completed, cancelled, is_active, is_done, Session, Chunk}
use aether_edit.Upload.Rows.{Outcome, attempt, get_chunks, set_session_assembled, set_session_state}
use aether_edit.Upload.Handler.{
  upload_completed, Part, Call, complete_multipart, copy, delete_object, publish_landed,
  publish_metering, fail, view, incomplete, landed, next, reply, M, ◌>>=◌, ◌>>◌, require, stored,
  Request, load_owned_session, need, Try, publish,
}
use aether_edit.Upload.Put.{Codecs}

-- `GetChunks`, which may fail.
abbrev pub load_chunks : Outcome → String → M (List Chunk)
load_chunks up id = stored (λ db. attempt up db (ok (get_chunks id db), db)) 500 "store_error"

unfoldable pub count_done : List Chunk → ℕ
count_done [] = 0
count_done (c ∷ cs) = if is_done c.state then suc (count_done cs) else count_done cs

-- `handleGet`
unfoldable pub handle_get : Request → Outcome → M (Unit {0})
unfolding attempt get_chunks count_done
handle_get r up = do
  (s, id) ← load_owned_session r
  rows ← load_chunks up s.id
  λ w. (reply (view s (count_done rows) rows), w)

-- The loop over the chunk map: the indices that are missing, of which the first 100 are kept, and
-- the parts of the others.
unfoldable pub missing_from : ℕ → List Chunk → List ℕ
missing_from kept [] = []
missing_from kept (c ∷ cs) =
    let later = missing_from (if is_done c.state then kept else kept + 1) cs in
    if is_done c.state then later else (if ltb kept 100 then c.index ∷ later else later)

unfoldable pub parts_of : List Chunk → List Part
parts_of [] = []
parts_of (c ∷ cs) =
    if is_done c.state
    then record { number = c.index + 1; etag = c.etag } ∷ parts_of cs
    else parts_of cs

-- How the calls of `assemble` end: whether the multipart upload is completed, the size of the
-- staging object if it is found, its bytes, the copy, and whether the database answers.
pub record AssembleInput : Type 0 where
  pub completes : Bool
  pub head : Option (Option ℕ)
  pub content : Option (List ℕ)
  pub copies : Bool
  pub persist_up : Outcome

-- `headErr != nil || !exists || size != sess.SizeBytes` is false.
abbrev pub is_whole : Option (Option ℕ) → ℕ → Bool
is_whole (some (some n)) size = n == size
is_whole _ size = false

-- `fmt.Sprintf("assets/%s/sha256/%s", …)`
unfoldable pub object_key_of : String → String → String
object_key_of ws sha = append "assets/" (append ws (append "/sha256/" sha))

abbrev pub note : Call → M (Unit {0})
note c w = (next tt, record w { calls = c ∷ w.calls })

-- Any error of `assemble` is the same reply.
abbrev pub assembly : {A : Type 0} → Option A → M A
assembly o = need o 502 "assembly_failed"

abbrev pub assembled_as : Codecs → Session → List ℕ → Session
assembled_as c s content = record s {
  state = assembled;
  sha256 = c.sha256_hex content;
  object_key = object_key_of s.workspace_id (c.sha256_hex content);
}

-- `assemble`
unfoldable pub assemble : Codecs → AssembleInput → Session → List Part → M Session
unfolding attempt set_session_assembled object_key_of
assemble c i s parts = do
  note (complete_multipart s.staging_key s.s3_upload_id parts)
  require (i.completes || is_whole i.head s.size_bytes) 502 "assembly_failed"
  content ← assembly i.content
  require (length content == s.size_bytes) 502 "assembly_failed"
  note (copy s.staging_key (object_key_of s.workspace_id (c.sha256_hex content)) s.size_bytes)
  require i.copies 502 "assembly_failed"
  note (delete_object s.staging_key)
  stored
      (λ db. attempt i.persist_up db (
        set_session_assembled s.id (c.sha256_hex content)
          (object_key_of s.workspace_id (c.sha256_hex content)) db))
      502 "assembly_failed"
  λ w. (next (assembled_as c s content), w)

-- The `switch` on the state: a cancelled session is refused, and a completed one is answered again.
abbrev pub unless_over : Session → M (Unit {0})
unless_over s w = elim s.state [
  | cancelled ↦ (reply (fail 409 "session_cancelled"), w)
  | completed ↦ (reply (landed s), w)
  | _ ↦ (next tt, w)
]

abbrev pub require_all : Session → List Chunk → M (Unit {0})
require_all s rows w =
    if ltb 0 (length (missing_from 0 rows)) || not (length (parts_of rows) == s.chunk_count)
    then (reply (incomplete (missing_from 0 rows)), w)
    else (next tt, w)

-- `assemble`, for a session that is still active.
abbrev pub assemble_active : Codecs → AssembleInput → Session → List Part → M Session
assemble_active c i s parts w = elim (is_active s.state) [
  | true ↦ assemble c i s parts w
  | false ↦ (next s, w)
]

-- `publishJSON`, and the reply where it gives up.
unfoldable pub announce : ℕ → (ℕ → Try) → Call → M (Unit {0})
unfolding publish
announce retries tries c w =
    let (sent, w') = publish retries tries c w in require sent 503 "event_publish_failed" w'

pub record CompleteInput : Type 0 where
  pub request : Request
  pub chunks_up : Outcome
  pub assembly : AssembleInput
  pub landed_tries : ℕ → Try
  pub metering_tries : ℕ → Try
  pub finish_up : Outcome

-- The end of `handleComplete`: both events are published before COMPLETED is recorded.
unfoldable pub land : ℕ → CompleteInput → Session → M (Unit {0})
unfolding attempt set_session_state
land retries i s = do
  announce retries i.landed_tries (publish_landed s)
  announce retries i.metering_tries (
      publish_metering upload_completed
        (record { workspace_id = s.workspace_id; user_id = s.user_id }) s.size_bytes)
  stored (λ db. attempt i.finish_up db (set_session_state s.id completed db)) 500 "store_error"
  λ w. (reply (landed (record s { state = completed })), w)

-- The middle: the chunk map must be complete, and an ACTIVE session is assembled.
unfoldable pub gather : Codecs → CompleteInput → Session → M Session
unfolding attempt get_chunks missing_from parts_of
gather c i s = do
  unless_over s
  rows ← load_chunks i.chunks_up s.id
  require_all s rows
  assemble_active c i.assembly s (parts_of rows)

-- `handleComplete`; `retries` is `publishRetries`.
unfoldable pub handle_complete : Codecs → ℕ → CompleteInput → M (Unit {0})
handle_complete c retries i = do
  (s, id) ← load_owned_session i.request
  done ← gather c i s
  land retries i done
