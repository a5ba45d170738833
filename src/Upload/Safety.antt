-- ===== src/Upload/Safety.antt =====
-- services/upload/server.go: what a request on one session can do, on every path of `handlePutChunk`.
use aether_edit.Prelude.{ℕ, ◌+◌, ◌<◌, String, ◌≡◌, ap, ◌≢◌, some, List, [], ◌∷◌, arith, eq_iff}
use aether_edit.Prelude.Assoc.{lookup}
use aether_edit.Prelude.Int.{pos}
use aether_edit.Upload.{active, done, Session, Identity, Chunk}
use aether_edit.Upload.Rows.{Outcome, confirmed}
use aether_edit.Upload.Gauge.{try_acquire, release}
use aether_edit.Upload.Handler.{
  Call, upload_part, fail, World, Step, next, reply, M, bind, Request, load_owned_session,
}
use aether_edit.Upload.Complete.{CompleteInput, handle_get, handle_complete}
use aether_edit.Upload.Cancel.{CancelInput, handle_cancel}
use aether_edit.Upload.Put.{
  Codecs, PutInput, Admitted, check_put, read_body, write_chunk, admit, handle_put_chunk,
}

load_keeps : (r : Request) (w : World) → (load_owned_session r w).1 ≡ w
unfolding load_owned_session
load_keeps r w = ground arith

check_keeps : (c : Codecs) (i : PutInput) (w : World) → (check_put c i w).1 ≡ w
unfolding check_put
check_keeps c i w = ground (arith, load_keeps i.request w)

write_keeps :
    (c : Codecs) (i : PutInput) (a : Admitted) (w : World) → (write_chunk c i a w).1.gauge ≡ w.gauge
unfolding write_chunk
write_keeps c i a w = ground arith

acquired_released :
    (n : ℕ) (w w' : World)
    → w'.gauge ≡ record w.gauge { current = w.gauge.current + n }
    → release n w'.gauge ≡ w.gauge
unfolding release
acquired_released n w w' h = ground arith

admit_keeps :
    (c : Codecs) (i : PutInput) (a : Admitted) (w : World) → (admit c i a w).1.gauge ≡ w.gauge
unfolding admit
admit_keeps c i a w =
    ground (arith, write_keeps c i a (record w { gauge = (try_acquire a.size w.gauge).1 }))

bind_gauge :
    {A : Type 0} (m : Step A × World) (f : A → M (Unit {0})) (w : World)
    → m.1 ≡ w
    → ((a : A) → (f a w).1.gauge ≡ w.gauge)
    → (bind m f).1.gauge ≡ w.gauge
bind_gauge (next a, v) f w e h = rw e (h a)
bind_gauge (reply r, v) f w e h = ap (λ (u : World). u.gauge) e

-- Whatever a chunk request brings and however its calls end, the bytes that it took from the gauge
-- are given back.
pub put_gauge : (c : Codecs) (i : PutInput) (w : World) → (handle_put_chunk c i w).1.gauge ≡ w.gauge
unfolding handle_put_chunk
put_gauge c i w =
    bind_gauge (check_put c i w) (admit c i) w (check_keeps c i w) (λ a. admit_keeps c i a w)

-- The call that writes the part: parts count from 1.
abbrev pub part_call : Session → ℕ → List ℕ → Call
part_call s n body = upload_part s.staging_key s.s3_upload_id (n + 1) body

-- What an admitted request has passed.
pub record IsAdmitted (c : Codecs) (i : PutInput) (a : Admitted) : Type 0 where
  pub session_active : a.session.state ≡ active
  pub index_in_range : a.index < a.session.chunk_count
  pub size_declared : i.content_length ≡ pos a.size
  pub sha_declared : a.want_sha ≡ c.lower i.header_sha

-- The rows of a chunk that is done with these values.
abbrev pub HoldsPart : ℕ → String → String → List Chunk → Type 0
HoldsPart n sha etag [] = Unit
HoldsPart n sha etag (c ∷ cs) =
    (c.index ≡ n → (c.state ≡ done) × (c.sha256 ≡ sha) × (c.etag ≡ etag)) × HoldsPart n sha etag cs

-- What the reply 200 to a chunk that was not done before tells of the request and of the tables.
pub record IsStored (c : Codecs) (i : PutInput) (w : World) (n : ℕ) : Type 0 where
  pub admitted : Admitted
  pub body : List ℕ
  pub etag : String
  pub checked : check_put c i w ≡ (next admitted, w)
  pub passed : IsAdmitted c i admitted
  pub index_is : admitted.index ≡ n
  pub body_read : read_body i.body admitted.size ≡ some body
  pub checksum : c.sha256_hex body ≡ c.lower i.header_sha
  pub part_called : (handle_put_chunk c i w).1.calls ≡ part_call admitted.session n body ∷ w.calls
  pub part_answered : i.etag ≡ some etag
  pub recorded :
      (rows : List Chunk)
      → lookup admitted.session.id (handle_put_chunk c i w).1.db.chunks ≡ some rows
      → HoldsPart n (c.sha256_hex body) etag rows

foreign_load :
    (r : Request) (w : World) (id : Identity) (sid : String) (s : Session)
    → r.identity ≡ some id
    → r.path_id ≡ some sid
    → r.load_up ≡ confirmed
    → lookup sid w.db.sessions ≡ some s
    → s.workspace_id ≢ id.workspace_id
    → load_owned_session r w ≡ (reply (fail 404 "not_found"), w)
unfolding load_owned_session
foreign_load r w id sid s a b c d ne = ground (arith, eq_iff s.workspace_id id.workspace_id)

-- A session of another workspace is, for each of the four handlers that name a session, one that is
-- not there: the reply is 404, and nothing is called or changed.
pub foreign_session :
    (c : Codecs) (retries : ℕ) (up : Outcome) (p : PutInput) (f : CompleteInput) (x : CancelInput)
    (r : Request) (w : World) (id : Identity) (sid : String) (s : Session)
    → p.request ≡ r
    → f.request ≡ r
    → x.request ≡ r
    → r.identity ≡ some id
    → r.path_id ≡ some sid
    → r.load_up ≡ confirmed
    → lookup sid w.db.sessions ≡ some s
    → s.workspace_id ≢ id.workspace_id
    → (handle_get r up w ≡ (reply (fail 404 "not_found"), w))
      × (handle_put_chunk c p w ≡ (reply (fail 404 "not_found"), w))
      × (handle_complete c retries f w ≡ (reply (fail 404 "not_found"), w))
      × (handle_cancel x w ≡ (reply (fail 404 "not_found"), w))
unfolding handle_get handle_put_chunk check_put handle_complete handle_cancel
foreign_session c retries up p f x r w id sid s ep ef ex a b o d ne =
    let e = foreign_load r w id sid s a b o d ne in (rw e, rw (ep, e), rw (ef, e), rw (ex, e))
