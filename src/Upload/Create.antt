-- ===== src/Upload/Create.antt =====
-- services/upload/server.go: `handleCreate` and `validateCreate`.
use Prim.Native.String.{len, ◌++◌ as append}
use aether_edit.Prelude.{
  ℕ, ◌+◌, ◌-◌, ◌/◌, String, Bool, false, not, ◌&&◌, ◌||◌, Option, List, [], ◌∷◌, ltb, leb, ◌==◌,
  if◌then◌else◌, length, ok, err,
}
use aether_edit.Prelude.Int.{ℤ, pos, pos_part, ltb_ℤ, leb_ℤ}
use aether_edit.Prelude.Text.{codes, all_codes, is_alnum}
use aether_edit.Upload.{active, cancelled, Session, Identity}
use aether_edit.Upload.Rows.{Outcome, attempt, create_session, set_session_state}
use aether_edit.Upload.Handler.{
  upload_session_created, Call, create_multipart, abort_multipart, publish_metering, fail, created,
  World, next, reply, M, ◌>>=◌, ◌>>◌, require, Try, publish, need,
}

-- `createRequest`
pub record CreateRequest : Type 0 where
  pub filename : String
  pub size_bytes : ℤ
  pub mime : String

-- The class [A-Za-z0-9!#$&^_.+-].
unfoldable pub is_mime_char : ℕ → Bool
unfolding is_alnum
is_mime_char c =
    is_alnum c
    || (c == b'!'
        || (c == b'#'
            || (c == b'$'
                || (c == b'&'
                    || (c == b'^' || (c == b'_' || (c == b'.' || (c == b'+' || c == b'-'))))))))

-- A subtype: {1,127} of the class, to the end.
unfoldable pub matches_subtype : List ℕ → Bool
unfolding all_codes is_mime_char
matches_subtype cs = leb 1 (length cs) && (leb (length cs) 127 && all_codes is_mime_char cs)

-- `mimePattern`, with `n` characters of the type read: the slash is not of the class, so the first
-- one ends the type.
unfoldable pub matches_mime : ℕ → List ℕ → Bool
unfolding matches_subtype is_mime_char
matches_mime n [] = false
matches_mime n (c ∷ cs) =
    let rest = matches_mime (n + 1) cs in
    if c == b'/'
    then leb 1 n && (leb n 127 && matches_subtype cs)
    else (if is_mime_char c then rest else false)

-- A rune that `ContainsAny` or `ContainsFunc` refuses.
unfoldable pub is_plain_rune : ℕ → Bool
is_plain_rune c = not (c == b'/' || ltb c 32)

-- `validateCreate`: whether its message is empty.
unfoldable pub validate_create : CreateRequest → ℕ → Bool
unfolding matches_mime all_codes is_plain_rune
validate_create req max_object_bytes =
    not (len req.filename == 0 || ltb 512 (len req.filename))
    && (all_codes is_plain_rune (codes req.filename)
        && (ltb_ℤ (pos 0) req.size_bytes
            && (leb_ℤ req.size_bytes (pos max_object_bytes) && matches_mime 0 (codes req.mime))))

-- The answers of `CheckUploadSession`.
pub data QuotaAnswer : Type 0 where
  quota_failed : QuotaAnswer
  quota_denied : String → QuotaAnswer
  quota_allowed : QuotaAnswer

abbrev pub check_quota : QuotaAnswer → M (Unit {0})
check_quota quota_failed w = (reply (fail 500 "quota_error"), w)
check_quota (quota_denied reason) w = (reply (fail 403 "quota_denied"), w)
check_quota quota_allowed w = (next tt, w)

-- `(req.SizeBytes + s.chunkSize - 1) / s.chunkSize`
unfoldable pub chunk_count : ℕ → ℕ → ℕ
chunk_count size chunk = (size + chunk - 1) / chunk

-- The fields of `Server` that the handler reads.
pub record Limits : Type 0 where
  pub max_object_bytes : ℕ
  pub chunk_size : ℕ
  pub publish_retries : ℕ

-- What a request brings, and how the calls that leave the service end: the decoded body, the quota
-- check, the fresh session id, the id of the multipart upload, and whether the database answers.
pub record CreateInput : Type 0 where
  pub identity : Option Identity
  pub body : Option CreateRequest
  pub quota : String → ℕ → QuotaAnswer
  pub fresh : Option String
  pub multipart : Option String
  pub create_up : Outcome
  pub tries : ℕ → Try
  pub cancel_up : Outcome

abbrev pub new_session : Limits → Identity → CreateRequest → String → String → Session
new_session l id req sid up = record {
  id = sid;
  workspace_id = id.workspace_id;
  user_id = id.user_id;
  filename = req.filename;
  size_bytes = pos_part req.size_bytes;
  mime = req.mime;
  chunk_size_bytes = l.chunk_size;
  chunk_count = chunk_count (pos_part req.size_bytes) l.chunk_size;
  state = active;
  s3_upload_id = up;
  staging_key = append "staging/" sid;
  sha256 = "";
  object_key = "";
}

abbrev pub note : Call → World → World
note c w = record w { calls = c ∷ w.calls }

-- `CreateMultipart`
unfoldable pub open_multipart : Option String → String → String → M String
open_multipart answer key mime w =
    need answer 502 "storage_error" (note (create_multipart key mime) w)

-- `CreateSession`, and the abort where it fails.
unfoldable pub persist : Outcome → Session → M (Unit {0})
unfolding attempt create_session
persist up s w = elim (attempt up w.db (create_session s w.db)).0 [
  | ok _ ↦ (next tt, record w { db = (attempt up w.db (create_session s w.db)).1 })
  | err _ ↦ (
    reply (fail 500 "store_error"),
    note (abort_multipart s.staging_key s.s3_upload_id)
        (record w { db = (attempt up w.db (create_session s w.db)).1 }),
  )
]

-- The rollback: CANCELLED is persisted first, and the multipart upload is aborted only then.
unfoldable pub roll_back : Outcome → Session → World → World
unfolding attempt set_session_state
roll_back up s w = elim (attempt up w.db (set_session_state s.id cancelled w.db)).0 [
  | err _ ↦ record w { db = (attempt up w.db (set_session_state s.id cancelled w.db)).1 }
  | ok _ ↦
      note (abort_multipart s.staging_key s.s3_upload_id)
        (record w { db = (attempt up w.db (set_session_state s.id cancelled w.db)).1 })
]

-- The metering event, and the rollback where it cannot be published.
unfoldable pub announce : Limits → CreateInput → Identity → Session → M (Unit {0})
unfolding publish roll_back
announce l i id s w =
    let (sent, w') =
      publish l.publish_retries i.tries (publish_metering upload_session_created id s.size_bytes)
        w in
    if sent
    then (next tt, w')
    else (reply (fail 503 "event_publish_failed"), roll_back i.cancel_up s w')

-- `handleCreate`
unfoldable pub handle_create : Limits → CreateInput → M (Unit {0})
unfolding open_multipart
handle_create l i = do
  id ← need i.identity 401 "unauthorized"
  req ← need i.body 400 "invalid_body"
  require (validate_create req l.max_object_bytes) 400 "invalid_body"
  check_quota (i.quota id.workspace_id (pos_part req.size_bytes))
  sid ← need i.fresh 500 "internal"
  up ← open_multipart i.multipart (append "staging/" sid) req.mime
  persist i.create_up (new_session l id req sid up)
  announce l i id (new_session l id req sid up)
  λ w. (reply (created sid l.chunk_size (chunk_count (pos_part req.size_bytes) l.chunk_size)), w)
