-- ===== src/Upload/Handler.antt =====
-- services/upload/server.go: what the handlers share. A handler is a chain of steps over the
-- service's state, each of which goes on with a value or ends in the reply. The outcomes of the
-- calls that leave the service (object storage, the event stream, an unanswered database) are
-- arguments; the calls made are kept, the latest first.
use aether_edit.Prelude.{
  ℕ, zero, suc, ◌+◌, String, Bool, true, false, Option, none, some, List, ◌∷◌, str_eq, Result, ok,
  err,
}
use aether_edit.Upload.{Session, Chunk, Db, Identity}
use aether_edit.Upload.Rows.{StoreError, not_found, Outcome, attempt, get_session}
use aether_edit.Upload.Gauge.{Gauge, Backoff}

-- The kinds of `contracts.MeteringEvent` that this service emits.
pub data Kind : Type 0 where
  upload_session_created upload_completed : Kind

-- `CompletedPart`
pub record Part : Type 0 where
  pub number : ℕ
  pub etag : String

-- The calls of `BlobStore` that change the object storage, and of `Publisher`.
pub data Call : Type 0 where
  create_multipart : String → String → Call
  abort_multipart : String → String → Call
  upload_part : String → String → ℕ → List ℕ → Call
  complete_multipart : String → String → List Part → Call
  copy : String → String → ℕ → Call
  delete_object : String → Call
  publish_landed : Session → Call
  publish_metering : Kind → Identity → ℕ → Call

-- The replies: an error by its status and code, and the bodies of the others.
pub data Reply : Type 0 where
  fail : ℕ → String → Reply
  saturated : ℕ → Reply
  created : String → ℕ → ℕ → Reply
  view : Session → ℕ → List Chunk → Reply
  chunk_stored : ℕ → Bool → Reply
  incomplete : List ℕ → Reply
  landed : Session → Reply
  no_content : Reply

pub record World : Type 0 where
  pub db : Db
  pub gauge : Gauge
  pub backoff : Backoff
  pub calls : List Call

pub data Step (A : Type 0) : Type 0 where
  next : A → Step A
  reply : Reply → Step A

abbrev pub M : Type 0 → Type 0
M A = World → Step A × World

abbrev pub bind : {A B : Type 0} → Step A × World → (A → M B) → Step B × World
bind (next a, w) f = f a w
bind (reply r, w) f = (reply r, w)

infixl 5 ◌>>=◌ ◌>>◌
abbrev pub ◌>>=◌ : {A B : Type 0} → M A → (A → M B) → M B
◌>>=◌ m f w = bind (m w) f

abbrev pub ◌>>◌ : {B : Type 0} → M (Unit {0}) → M B → M B
◌>>◌ m k w = bind (m w) (λ _. k)

-- `if !test { writeError(status, code); return }`
abbrev pub require : Bool → ℕ → String → M (Unit {0})
require true status code w = (next tt, w)
require false status code w = (reply (fail status code), w)

-- A call that leaves the service is made, and its outcome is `answered`.
abbrev pub call : Call → Bool → ℕ → String → M (Unit {0})
call c answered status code w = require answered status code (record w { calls = c ∷ w.calls })

-- A method of the store; its error ends the handler.
abbrev pub stored : {A : Type 0} → (Db → Result StoreError A × Db) → ℕ → String → M A
stored f status code w = elim (f w.db).0 [
  | ok a ↦ (next a, record w { db = (f w.db).1 })
  | err _ ↦ (reply (fail status code), record w { db = (f w.db).1 })
]

-- One try of `publishJSON`: delivered, refused, or refused with the request's context done.
pub data Try : Type 0 where
  delivered refused cut_off : Try

-- The loop of `publishJSON` with `left` rounds to go, of which this is number `i`; `fine` is whether
-- `last` is nil. Each round publishes, so that a refused call may still have reached the stream.
unfoldable pub publish_rounds : ℕ → ℕ → Bool → (ℕ → Try) → Call → World → Bool × World
publish_rounds zero i fine tries c w = (fine, w)
publish_rounds (suc left) i fine tries c w = elim (tries i) [
  | delivered ↦ (true, record w { calls = c ∷ w.calls })
  | refused ↦ publish_rounds left (i + 1) false tries c (record w { calls = c ∷ w.calls })
  | cut_off ↦ (false, record w { calls = c ∷ w.calls })
]

-- `publishJSON`: whether it answers no error. With no retries nothing is published, and the answer
-- is no error either.
unfoldable pub publish : ℕ → (ℕ → Try) → Call → World → Bool × World
unfolding publish_rounds
publish retries tries c w = publish_rounds retries 0 true tries c w

-- What a request on one session brings: the identity of its token, the id in its path if it is a
-- UUID, and whether the database answers the first look.
pub record Request : Type 0 where
  pub identity : Option Identity
  pub path_id : Option String
  pub load_up : Outcome

abbrev pub need : {A : Type 0} → Option A → ℕ → String → M A
need (some a) status code w = (next a, w)
need none status code w = (reply (fail status code), w)

-- The reply for a session that cannot be loaded.
abbrev pub load_error : StoreError → Reply
load_error not_found = fail 404 "not_found"
load_error _ = fail 500 "store_error"

-- The answer of `GetSession`.
unfoldable pub load : Outcome → String → Db → Result StoreError Session
unfolding attempt get_session
load up id db = (attempt up db (get_session id db, db)).0

abbrev pub found : Result StoreError Session → M Session
found (ok s) w = (next s, w)
found (err e) w = (reply (load_error e), w)

-- `loadOwnedSession`
unfoldable pub load_owned_session : Request → M (Session × Identity)
unfolding load
load_owned_session r = do
  id ← need r.identity 401 "unauthorized"
  sid ← need r.path_id 400 "invalid_id"
  s ← λ w. found (load r.load_up sid w.db) w
  require (str_eq s.workspace_id id.workspace_id) 404 "not_found"
  λ w. (next (s, id), w)
