-- ===== src/Upload/Tests.antt =====
-- The upload service at concrete requests: services/upload.
use Prim.Native.String.{◌++◌ as append}
use aether_edit.Prelude.{
  ℕ, ◌+◌, ◌*◌, ◌^◌, ◌≤◌, ◌<◌, String, ◌≡◌, refl, true, false, none, some, List, [], ◌∷◌, arith,
  str_eq, eq_iff, ltb, ◌==◌, if◌then◌else◌, replicate,
}
use aether_edit.Prelude.Assoc.{lookup}
use aether_edit.Prelude.Int.{pos, pos_part}
use aether_edit.Upload.{
  SessionState, active, assembled, completed, cancelled, ChunkState, pending, inflight, done, retry,
  Session, Chunk, Db, Identity,
}
use aether_edit.Upload.Rows.{confirmed, create_session}
use aether_edit.Upload.Gauge.{level_of, deny, delay}
use aether_edit.Upload.Shift.{deny_lem}
use aether_edit.Upload.Lifecycle.{Op, claim, finish, flag, set_state, run, IsLinked, Kept, run-Kept}
use aether_edit.Upload.Handler.{
  World, Request, reply, created, no_content, fail, delivered, refused, load_owned_session, publish,
}
use aether_edit.Upload.Create.{
  CreateRequest, CreateInput, Limits, quota_allowed, handle_create, announce, new_session,
  validate_create, persist, chunk_count,
}
use aether_edit.Upload.Put.{Codecs, PutInput, handle_put_chunk, expected_size}
use aether_edit.Upload.Complete.{CompleteInput, AssembleInput, handle_complete, handle_get}
use aether_edit.Upload.Cancel.{CancelInput, handle_cancel, cancel}
use aether_edit.Upload.Plan.{bytes_of, plan_covers}
use aether_edit.Upload.Safety.{put_gauge, foreign_session}
use aether_edit.Upload.Ends.{IsCancelled, cancel_ends}
use aether_edit.Upload.Rollback.{event_of, RolledBack}
use aether_edit.Upload.Opening.{announce_fails, IsCreated, create_made}
use aether_edit.Upload.Traffic.{Event, arrive, depart, Traffic, IsBounded, run-IsBounded}
use aether_edit.Upload.Traffic

abbrev codecs : Codecs
codecs = record {
  lower = λ s. s;
  sha256_hex = λ bytes. "0123456789012345678901234567890123456789012345678901234567890123";
}

abbrev empty : World
empty = record {
  db = record { sessions = []; chunks = [] };
  gauge = record { ceiling = 100; current = 0 };
  backoff = record { levels = []; base = 1000000000; max = 60000000000 };
  calls = [];
}

abbrev me : Identity
me = record { workspace_id = "w"; user_id = "u" }

abbrev limits : Limits
limits = record { max_object_bytes = 1000; chunk_size = 4; publish_retries = 3 }

abbrev asked : CreateRequest
asked = record { filename = "a.mov"; size_bytes = pos 10; mime = "video/quicktime" }

abbrev input : CreateInput
input = record {
  identity = some me;
  body = some asked;
  quota = λ ws n. quota_allowed;
  fresh = some "s1";
  multipart = some "m1";
  create_up = confirmed;
  tries = λ n. delivered;
  cancel_up = confirmed;
}

creation : (handle_create limits input empty).0 ≡ reply (created "s1" 4 3)
unfolding handle_create validate_create persist announce publish chunk_count create_session lookup
creation = refl

create_made_example : IsCreated limits input empty "s1" 4 3
create_made_example = create_made limits input empty "s1" 4 3 (omega arith) (omega arith) creation

abbrev session : Session
session = new_session limits me asked "s1" "m1"

abbrev after_creation : World
after_creation = record empty { db = (create_session session empty.db).1 }

abbrev unheard : CreateInput
unheard = record input { tries = λ n. refused }

-- Three rounds are refused, and the session is cancelled.
announce_fails_example :
    let w' = (publish 3 unheard.tries (event_of me session) after_creation).1 in
    (fail 503 "event_publish_failed" ≡ fail 503 "event_publish_failed")
    × (w'.db ≡ after_creation.db)
    × RolledBack confirmed session w' (announce limits unheard me session after_creation).1
unfolding announce publish
announce_fails_example =
    announce_fails limits unheard me session after_creation (fail 503 "event_publish_failed") refl

abbrev asks : Request
asks = record { identity = some me; path_id = some "s1"; load_up = confirmed }

abbrev last_chunk : PutInput
last_chunk = record {
  request = asks;
  path_n = some (pos 2);
  content_length = pos 2;
  header_sha = codecs.sha256_hex [];
  body = some (7 ∷ 8 ∷ []);
  etag = some "e2";
  claim_up = confirmed;
  retry_up = confirmed;
  done_up = confirmed;
}

-- A body that does not match its checksum.
put_gauge_example :
    (handle_put_chunk codecs (record last_chunk { body = some (7 ∷ []) }) after_creation).1.gauge
    ≡ after_creation.gauge
put_gauge_example = put_gauge codecs (record last_chunk { body = some (7 ∷ []) }) after_creation

plan_covers_example :
    (bytes_of session session.chunk_count ≡ 10)
    × ((n : ℕ)
        → n < session.chunk_count
        → (1 ≤ pos_part (expected_size session n)) × (pos_part (expected_size session n) ≤ 4))
plan_covers_example =
    plan_covers session
      (record { size_positive = omega arith; chunk_positive = omega arith; counted = refl })

abbrev stored_chunk : ℕ → ℕ → Chunk
stored_chunk i n = record { index = i; state = done; sha256 = "h"; etag = "e"; size_bytes = n }

abbrev full : World
full = record after_creation {
  db = record {
    sessions = ("s1", session) ∷ [];
    chunks = ("s1", stored_chunk 0 4 ∷ stored_chunk 1 4 ∷ stored_chunk 2 2 ∷ []) ∷ [];
  };
}

abbrev finishing : CompleteInput
finishing = record {
  request = asks;
  chunks_up = confirmed;
  assembly = record {
    completes = true;
    head = none;
    content = some (replicate 10 7);
    copies = true;
    persist_up = confirmed;
  };
  landed_tries = λ n. if n == 0 then refused else delivered;
  metering_tries = λ n. delivered;
  finish_up = confirmed;
}

abbrev result : Session
result = record session {
  state = completed;
  sha256 = codecs.sha256_hex [];
  object_key = append "assets/w/sha256/" (codecs.sha256_hex []);
}

abbrev leaving : CancelInput
leaving = record {
  request = asks;
  aborts = true;
  staged = false;
  deletes = true;
  cancel_up = confirmed;
}

leaves : (handle_cancel leaving full).0 ≡ reply no_content
unfolding handle_cancel cancel load_owned_session lookup
leaves = refl

cancel_ends_example : IsCancelled leaving full
cancel_ends_example = cancel_ends leaving full leaves

foreign_session_example :
    (handle_get (record asks { identity = some (record me { workspace_id = "x" }) }) confirmed full
      ≡ (reply (fail 404 "not_found"), full))
    × (handle_put_chunk codecs
          (record last_chunk {
            request = record asks { identity = some (record me { workspace_id = "x" }) };
          })
          full
        ≡ (reply (fail 404 "not_found"), full))
    × (handle_complete codecs 3
          (record finishing {
            request = record asks { identity = some (record me { workspace_id = "x" }) };
          })
          full
        ≡ (reply (fail 404 "not_found"), full))
    × (handle_cancel
          (record leaving {
            request = record asks { identity = some (record me { workspace_id = "x" }) };
          })
          full
        ≡ (reply (fail 404 "not_found"), full))
unfolding lookup
foreign_session_example =
    foreign_session codecs 3 confirmed
      (record last_chunk {
        request = record asks { identity = some (record me { workspace_id = "x" }) };
      })
      (record finishing {
        request = record asks { identity = some (record me { workspace_id = "x" }) };
      })
      (record leaving {
        request = record asks { identity = some (record me { workspace_id = "x" }) };
      })
      (record asks { identity = some (record me { workspace_id = "x" }) }) full
      (record me { workspace_id = "x" }) "s1" session refl refl refl refl refl refl refl
      (ground (arith, eq_iff "w" "x"))

full-IsLinked : IsLinked full.db
unfolding lookup
full-IsLinked id h = ground arith

abbrev ops : List Op
ops = claim "s1" 0 ∷ flag "s1" 0 ∷ set_state "s1" completed ∷ finish "s1" 1 "h2" "e2" 4 ∷ []

run-Kept_example :
    (ds : List Chunk) × (lookup "s1" (run ops full.db).chunks ≡ some ds)
    × Kept (stored_chunk 0 4 ∷ stored_chunk 1 4 ∷ stored_chunk 2 2 ∷ []) ds
unfolding lookup
run-Kept_example =
    run-Kept ops full.db "s1" (stored_chunk 0 4 ∷ stored_chunk 1 4 ∷ stored_chunk 2 2 ∷ [])
      full-IsLinked refl

-- The director of cmd: one second, up to a minute.
deny_lem_example :
    let b = record empty.backoff { levels = ("s1", 70) ∷ [] } in
    ((deny "s1" b).0
      ≡ (if ltb b.max (b.base * 2 ^ level_of "s1" b) then b.max else b.base * 2 ^ level_of "s1" b))
    × ((k : String)
        → level_of k (deny "s1" b).1
          ≡ (if str_eq "s1" k then level_of "s1" b + 1 else level_of k b))
deny_lem_example =
    deny_lem "s1" (record empty.backoff { levels = ("s1", 70) ∷ [] }) 1953125 9 refl (omega arith)
      (omega arith)

delays :
    (delay 1000000000 60000000000 5 ≡ 32000000000) × (delay 1000000000 60000000000 35 ≡ 60000000000)
unfolding delay
delays = (refl, refl)

abbrev quiet : Traffic
quiet = record { gauge = record { ceiling = 10; current = 0 }; held = [] }

run-IsBounded_example :
    IsBounded (Traffic.run (arrive 6 ∷ arrive 6 ∷ arrive 4 ∷ depart 1 ∷ []) quiet)
unfolding Traffic.total
run-IsBounded_example =
    run-IsBounded (arrive 6 ∷ arrive 6 ∷ arrive 4 ∷ depart 1 ∷ []) quiet
      (record { counted = refl; below = omega arith })
