-- ===== src/Upload/Put.antt =====
-- services/upload/server.go: `handlePutChunk`.
use aether_edit.Prelude.{
  ℕ, ◌+◌, ◌-◌, ◌*◌, ◌/◌, String, Bool, true, false, ◌&&◌, ◌||◌, Option, none, some, List, ◌∷◌,
  str_eq, ltb, leb, ◌==◌, if◌then◌else◌, length, take,
}
use aether_edit.Prelude.Int.{ℤ, pos, negsuc, pos_part, sub_ℕ, leb_ℤ, eqb_ℤ}
use aether_edit.Prelude.Text.{codes, all_codes}
use aether_edit.Upload.{is_active, Session}
use aether_edit.Upload.Rows.{
  Claim, acquired, already_done, Outcome, attempt, claim_chunk, mark_chunk_done, mark_chunk_retry,
}
use aether_edit.Upload.Gauge.{try_acquire, release, deny, reset}
use aether_edit.Upload.Handler.{
  upload_part, fail, saturated, chunk_stored, World, next, reply, M, ◌>>=◌, ◌>>◌, require, stored,
  Request, load_owned_session, need,
}

-- `strings.ToLower`, and the lower-case hex of `sha256.Sum256`.
pub record Codecs : Type 0 where
  pub lower : String → String
  pub sha256_hex : List ℕ → String

-- `strconv.Atoi(n)` in [0, count).
unfoldable pub index_in : ℕ → Option ℤ → Option ℕ
index_in count (some (pos n)) = if ltb n count then some n else none
index_in count (some (negsuc n)) = none
index_in count none = none

-- The exact size of chunk n: the last one has what the others leave.
unfoldable pub expected_size : Session → ℕ → ℤ
expected_size s n =
    if n + 1 == s.chunk_count
    then sub_ℕ s.size_bytes (s.chunk_size_bytes * (s.chunk_count - 1))
    else pos s.chunk_size_bytes

-- The class [0-9a-f].
unfoldable pub is_hex_char : ℕ → Bool
is_hex_char c = leb b'0' c && leb c b'9' || leb b'a' c && leb c b'f'

-- `hex64Pattern`
unfoldable pub matches_hex64 : List ℕ → Bool
unfolding all_codes is_hex_char
matches_hex64 cs = length cs == 64 && all_codes is_hex_char cs

-- What a request brings, and how the calls that leave the service end: the index in the path, the
-- two headers, the body that the reader yields before an error, the etag of the part written, and
-- whether the database answers each call.
pub record PutInput : Type 0 where
  pub request : Request
  pub path_n : Option ℤ
  pub content_length : ℤ
  pub header_sha : String
  pub body : Option (List ℕ)
  pub etag : Option String
  pub claim_up : Outcome
  pub retry_up : Outcome
  pub done_up : Outcome

-- A request that may be admitted: its session, the index, the size and the checksum.
pub record Admitted : Type 0 where
  pub session : Session
  pub index : ℕ
  pub size : ℕ
  pub want_sha : String

-- The checks before the gauge.
unfoldable pub check_put : Codecs → PutInput → M Admitted
unfolding index_in expected_size matches_hex64
check_put c i = do
  (s, id) ← load_owned_session i.request
  n ← need (index_in s.chunk_count i.path_n) 400 "invalid_chunk_index"
  require (is_active s.state) 409 "session_not_active"
  require (leb_ℤ (pos 0) i.content_length) 411 "length_required"
  require (eqb_ℤ i.content_length (expected_size s n)) 400 "chunk_size_mismatch"
  require (matches_hex64 (codes (c.lower i.header_sha))) 400 "invalid_checksum_header"
  λ w. (
    next (record {
      session = s;
      index = n;
      size = pos_part (expected_size s n);
      want_sha = c.lower i.header_sha;
    }),
    w,
  )

-- `io.ReadAll(io.LimitReader(r.Body, expected+1))`, if its length is right.
unfoldable pub read_body : Option (List ℕ) → ℕ → Option (List ℕ)
read_body none size = none
read_body (some bytes) size =
    if length (take (size + 1) bytes) == size then some (take (size + 1) bytes) else none

-- `MarkChunkRetry`, whose error is dropped, before the reply of a failed write.
unfoldable pub flag_retry : Outcome → Admitted → World → World
unfolding attempt mark_chunk_retry
flag_retry up a w = record w {
  db = (attempt up w.db (mark_chunk_retry a.session.id a.index w.db)).1;
}

-- `if !test { MarkChunkRetry; writeError }`
abbrev pub require_or_retry : Bool → Outcome → Admitted → ℕ → String → M (Unit {0})
require_or_retry true up a status code w = (next tt, w)
require_or_retry false up a status code w = (reply (fail status code), flag_retry up a w)

abbrev pub need_or_retry : {A : Type 0} → Option A → Outcome → Admitted → ℕ → String → M A
need_or_retry (some x) up a status code w = (next x, w)
need_or_retry none up a status code w = (reply (fail status code), flag_retry up a w)

-- A DONE chunk ends the handler.
abbrev pub unless_done : Claim → ℕ → M (Unit {0})
unless_done acquired n w = (next tt, w)
unless_done already_done n w = (reply (chunk_stored n true), w)

-- The handler between the gauge's `TryAcquire` and `Release`.
unfoldable pub write_chunk : Codecs → PutInput → Admitted → M (Unit {0})
unfolding attempt claim_chunk mark_chunk_done flag_retry read_body reset
write_chunk c i a = do
  claim ←
      stored (λ db. attempt i.claim_up db (claim_chunk a.session.id a.index db)) 500 "store_error"
  unless_done claim a.index
  body ← need_or_retry (read_body i.body a.size) i.retry_up a 400 "chunk_body_truncated"
  require_or_retry (str_eq (c.sha256_hex body) a.want_sha) i.retry_up a 422
      "chunk_checksum_mismatch"
  λ w. (
    next tt,
    record w {
      calls = upload_part a.session.staging_key a.session.s3_upload_id (a.index + 1) body ∷ w.calls;
    },
  )
  etag ← need_or_retry i.etag i.retry_up a 502 "storage_error"
  stored
      (λ db.
        attempt i.done_up db
          (mark_chunk_done a.session.id a.index (c.sha256_hex body) etag a.size db))
      500 "store_error"
  λ w. (reply (chunk_stored a.index false), record w { backoff = reset a.session.id w.backoff })

-- `Deny`, and the reply with its hint in milliseconds.
unfoldable pub turn_away : String → M (Unit {0})
unfolding deny
turn_away id w =
    let (d, b) = deny id w.backoff in (reply (saturated (d / 1000000)), record w { backoff = b })

-- The gauge round the write: what is acquired is released on every path.
unfoldable pub admit : Codecs → PutInput → Admitted → M (Unit {0})
unfolding try_acquire release write_chunk turn_away
admit c i a w =
    let (taken, g) = try_acquire a.size w.gauge in
    if taken
    then (let (r, w') = write_chunk c i a (record w { gauge = g }) in
        (r, record w' { gauge = release a.size w'.gauge }))
    else turn_away a.session.id w

-- `handlePutChunk`
unfoldable pub handle_put_chunk : Codecs → PutInput → M (Unit {0})
handle_put_chunk c i = do a ← check_put c i; admit c i a
