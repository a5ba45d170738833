-- ===== src/Upload/Opening.antt =====
-- services/upload/server.go: what `handleCreate` leaves, made or rolled back.
use Prim.Native.String.{◌++◌ as append}
use aether_edit.Prelude.{
  ℕ, ◌<◌, String, ◌≡◌, refl, sym, ap, ◌∙◌, subst, ◌≢◌, inl, inr, true, none, ◌∷◌, arith,
  Option-cases, some,
}
use aether_edit.Prelude.Assoc.{lookup}
use aether_edit.Prelude.Int.{pos, pos_part}
use aether_edit.Upload.{active, Session, Identity}
use aether_edit.Upload.Rows.{Outcome, create_session}
use aether_edit.Upload.Handler.{
  Call, create_multipart, created, World, next, reply, Reply, publish, fail,
}
use aether_edit.Upload.Create.{
  CreateRequest, validate_create, Limits, CreateInput, new_session, announce, persist, roll_back,
  handle_create, quota_allowed,
}
use aether_edit.Upload.Plan.{IsPlanned}
use aether_edit.Upload.Rollback.{event_of, RolledBack, roll_back-RolledBack}
use aether_edit.Upload.Publication.{
  Sent, IsDelivered, publish-IsDelivered, publish_keeps_call, publish-Sent, publish-db,
}

announce_rolls_back :
    (l : Limits) (i : CreateInput) (id : Identity) (s : Session) (w : World) (r : Reply)
    → (announce l i id s w).0 ≡ reply r
    → (r ≡ fail 503 "event_publish_failed")
      × ((announce l i id s w).1
          ≡ roll_back i.cancel_up s (publish l.publish_retries i.tries (event_of id s) w).1)
unfolding announce
announce_rolls_back l i id s w r h = ground arith

-- An announcement that does not go through is answered with 503; the tries to publish change no
-- table; and the rollback follows, which ends in one of three ways. If the database answers and has
-- the session, the tables are as `SetSessionState` to CANCELLED leaves them, with the session's row
-- CANCELLED and its other columns kept, and the abort of the multipart upload is called for. If the
-- answer of the database is lost, the tables are left likewise, and nothing more is called. If the
-- call fails or the session has no row, the tables are as they were, and nothing more is called.
pub announce_fails :
    (l : Limits) (i : CreateInput) (id : Identity) (s : Session) (w : World) (r : Reply)
    → (announce l i id s w).0 ≡ reply r
    → let w' = (publish l.publish_retries i.tries (event_of id s) w).1 in
      (r ≡ fail 503 "event_publish_failed")
      × (w'.db ≡ w.db)
      × RolledBack i.cancel_up s w' (announce l i id s w).1
announce_fails l i id s w r h =
    let w' : World = (publish l.publish_retries i.tries (event_of id s) w).1 in
    let (answer, to) = announce_rolls_back l i id s w r h in
    (
      answer,
      publish-db l.publish_retries i.tries (event_of id s) w,
      subst (RolledBack i.cancel_up s w') (sym to) (roll_back-RolledBack i.cancel_up s w'),
    )

announce_goes :
    (l : Limits) (i : CreateInput) (id : Identity) (s : Session) (w : World)
    → (announce l i id s w).0 ≡ next tt
    → ((publish l.publish_retries i.tries (event_of id s) w).0 ≡ true)
      × ((announce l i id s w).1 ≡ (publish l.publish_retries i.tries (event_of id s) w).1)
unfolding announce
announce_goes l i id s w h = ground arith

announce_succeeds :
    (l : Limits) (i : CreateInput) (id : Identity) (s : Session) (w : World)
    → 0 < l.publish_retries
    → (announce l i id s w).0 ≡ next tt
    → ((announce l i id s w).1.db ≡ w.db)
      × IsDelivered l.publish_retries i.tries
      × Sent (event_of id s) (announce l i id s w).1.calls
      × ((d : Call) → Sent d w.calls → Sent d (announce l i id s w).1.calls)
unfolding announce
announce_succeeds l i id s w p h =
    let (fine, to) = announce_goes l i id s w h in
    (
      ap (λ (v : World). v.db) to ∙ publish-db retries i.tries (event_of id s) w,
      publish-IsDelivered retries i.tries (event_of id s) w p fine,
      subst (λ (v : World). Sent (event_of id s) v.calls) (sym to)
          (publish-Sent retries i.tries (event_of id s) w p),
      λ d sent.
          subst (λ (v : World). Sent d v.calls) (sym to)
            (publish_keeps_call d retries i.tries (event_of id s) w sent),
    )
  where
    open l use {publish_retries as retries}

persist_inv :
    (up : Outcome) (s : Session) (w : World)
    → (persist up s w).0 ≡ next tt
    → ((persist up s w).1.db ≡ (create_session s w.db).1)
      × (lookup s.id w.db.sessions ≡ none)
      × ((persist up s w).1.calls ≡ w.calls)
unfolding persist create_session
persist_inv up s w h = (ground arith, ground arith, ground arith)

-- The session has what the request, the token and the answers of the storage say.
pub record IsOpened (l : Limits) (id : Identity) (req : CreateRequest) (sid up : String)
    (s : Session) : Type 0 where
  pub id_is : s.id ≡ sid
  pub workspace_is : s.workspace_id ≡ id.workspace_id
  pub user_is : s.user_id ≡ id.user_id
  pub filename_is : s.filename ≡ req.filename
  pub size_is : pos s.size_bytes ≡ req.size_bytes
  pub mime_is : s.mime ≡ req.mime
  pub chunk_size_is : s.chunk_size_bytes ≡ l.chunk_size
  pub state_is : s.state ≡ active
  pub staging_is : s.staging_key ≡ append "staging/" sid
  pub upload_is : s.s3_upload_id ≡ up

-- The creation went through.
pub record IsCreated (l : Limits) (i : CreateInput) (w : World) (sid : String) (chunk n : ℕ)
    : Type 0 where
  pub identity : Identity
  pub request : CreateRequest
  pub multipart : String
  pub session : Session
  pub identity_is : i.identity ≡ some identity
  pub request_is : i.body ≡ some request
  pub id_fresh : i.fresh ≡ some sid
  pub multipart_is : i.multipart ≡ some multipart
  pub opened : IsOpened l identity request sid multipart session
  pub answered : (chunk ≡ session.chunk_size_bytes) × (n ≡ session.chunk_count)
  pub valid : validate_create request l.max_object_bytes ≡ true
  pub allowed : i.quota identity.workspace_id (pos_part request.size_bytes) ≡ quota_allowed
  pub id_was_free : lookup sid w.db.sessions ≡ none
  pub multipart_called :
      Sent (create_multipart session.staging_key session.mime) (handle_create l i w).1.calls
  pub recorded : (handle_create l i w).1.db ≡ (create_session session w.db).1
  pub metering_delivered : IsDelivered l.publish_retries i.tries
  pub metered : Sent (event_of identity session) (handle_create l i w).1.calls
  pub planned : IsPlanned session

persist_refuses :
    (up : Outcome) (s : Session) (w : World) (sid : String) (chunk n : ℕ)
    → (persist up s w).0 ≢ reply (created sid chunk n)
unfolding persist
persist_refuses up s w sid chunk n h = ground arith

announce_refuses :
    (l : Limits) (i : CreateInput) (id : Identity) (s : Session) (w : World) (sid : String)
    (chunk n : ℕ)
    → (announce l i id s w).0 ≢ reply (created sid chunk n)
unfolding announce
announce_refuses l i id s w sid chunk n h = ground arith

-- The world in which the session is persisted, and in which it is announced.
abbrev opened : CreateRequest → String → World → World
opened req sid w = record w { calls = create_multipart (append "staging/" sid) req.mime ∷ w.calls }

abbrev persisted : Limits → CreateInput → Identity → CreateRequest → String → String → World → World
persisted l i id req sid up w =
    (persist i.create_up (new_session l id req sid up) (opened req sid w)).1

-- What the handler has passed when it reaches the end.
record Passed (l : Limits) (i : CreateInput) (w : World) (sid : String) (chunk n : ℕ)
    (id : Identity) (req : CreateRequest) (up : String) : Type 0 where
  valid : validate_create req l.max_object_bytes ≡ true
  allowed : i.quota id.workspace_id (pos_part req.size_bytes) ≡ quota_allowed
  identity_is : i.identity ≡ some id
  body_is : i.body ≡ some req
  fresh_is : i.fresh ≡ some sid
  multipart_is : i.multipart ≡ some up
  answered : (chunk ≡ l.chunk_size) × (n ≡ (new_session l id req sid up).chunk_count)
  kept : (persist i.create_up (new_session l id req sid up) (opened req sid w)).0 ≡ next tt
  sent : (announce l i id (new_session l id req sid up) (persisted l i id req sid up w)).0 ≡ next tt
  result :
      (handle_create l i w).1
      ≡ (announce l i id (new_session l id req sid up) (persisted l i id req sid up w)).1

create_inv :
    (l : Limits) (i : CreateInput) (w : World) (sid : String) (chunk n : ℕ)
    → (handle_create l i w).0 ≡ reply (created sid chunk n)
    → (id : Identity) × (req : CreateRequest) × (up : String) × Passed l i w sid chunk n id req up
unfolding handle_create
create_inv l i w sid chunk n h = elim (Option-cases i.identity) [
  | inl e ↦ absurd (ground arith)
  | inr (id, e) ↦ elim (Option-cases i.body) [
    | inl e' ↦ absurd (ground arith)
    | inr (req, e') ↦ elim (Option-cases i.fresh) [
      | inl f ↦ absurd (ground arith)
      | inr (sid', f) ↦ elim (Option-cases i.multipart) [
        | inl m ↦ absurd (ground arith)
        | inr (up, m) ↦ (
          id,
          req,
          up,
          record {
            valid = ground arith;
            allowed = ground arith;
            identity_is = e;
            body_is = e';
            fresh_is = ground (
              arith,
              persist_refuses i.create_up (new_session l id req sid' up) (opened req sid' w) sid
                  chunk n,
              announce_refuses l i id (new_session l id req sid' up)
                  (persisted l i id req sid' up w) sid chunk n,
            );
            multipart_is = m;
            answered = ground (
              arith,
              persist_refuses i.create_up (new_session l id req sid' up) (opened req sid' w) sid
                  chunk n,
              announce_refuses l i id (new_session l id req sid' up)
                  (persisted l i id req sid' up w) sid chunk n,
            );
            kept = ground (
              arith,
              persist_refuses i.create_up (new_session l id req sid' up) (opened req sid' w) sid
                  chunk n,
              announce_refuses l i id (new_session l id req sid' up)
                  (persisted l i id req sid' up w) sid chunk n,
            );
            sent = ground (
              arith,
              persist_refuses i.create_up (new_session l id req sid' up) (opened req sid' w) sid
                  chunk n,
              announce_refuses l i id (new_session l id req sid' up)
                  (persisted l i id req sid' up w) sid chunk n,
            );
            result = ground (
              arith,
              persist_refuses i.create_up (new_session l id req sid' up) (opened req sid' w) sid
                  chunk n,
              announce_refuses l i id (new_session l id req sid' up)
                  (persisted l i id req sid' up w) sid chunk n,
            );
          },
        )
      ]
    ]
  ]
]

new-IsPlanned :
    (l : Limits) (id : Identity) (req : CreateRequest) (sid up : String)
    → validate_create req l.max_object_bytes ≡ true
    → 0 < l.chunk_size
    → IsPlanned (new_session l id req sid up)
unfolding validate_create
new-IsPlanned l id req sid up v p = record {
  size_positive = ground arith;
  chunk_positive = p;
  counted = refl;
}

new-IsOpened :
    (l : Limits) (id : Identity) (req : CreateRequest) (sid up : String)
    → validate_create req l.max_object_bytes ≡ true
    → IsOpened l id req sid up (new_session l id req sid up)
unfolding validate_create
new-IsOpened l id req sid up v = record {
  id_is = refl;
  workspace_is = refl;
  user_is = refl;
  filename_is = refl;
  size_is = ground arith;
  mime_is = refl;
  chunk_size_is = refl;
  state_is = refl;
  staging_is = refl;
  upload_is = refl;
}

-- With a positive chunk size and at least one round for a publication, a creation that is answered
-- with 201 was of a valid request that the quota allows to the workspace of the token, under the
-- fresh id, which no session had. The session has the id, the workspace and the user of the token,
-- the name, the size and the type of the request, and the multipart upload that was opened for it;
-- the tables are as `CreateSession` leaves them; the metering event was published, in a round that
-- was answered without an error; the chunk plan is that of the declared size; and the reply tells the
-- chunk size and the number of chunks of that plan.
pub create_made :
    (l : Limits) (i : CreateInput) (w : World) (sid : String) (chunk n : ℕ)
    → 0 < l.chunk_size
    → 0 < l.publish_retries
    → (handle_create l i w).0 ≡ reply (created sid chunk n)
    → IsCreated l i w sid chunk n
create_made l i w sid chunk n q t h =
    let (id, req, up, p) = create_inv l i w sid chunk n h in
    let s : Session = new_session l id req sid up in
    let (stored, free, quiet) = persist_inv i.create_up s (opened req sid w) p.kept in
    let (same, done, told, keeps) =
      announce_succeeds l i id s (persisted l i id req sid up w) t p.sent in
    record {
      identity = id;
      request = req;
      multipart = up;
      session = s;
      identity_is = p.identity_is;
      request_is = p.body_is;
      id_fresh = p.fresh_is;
      multipart_is = p.multipart_is;
      opened = new-IsOpened l id req sid up p.valid;
      answered = p.answered;
      valid = p.valid;
      allowed = p.allowed;
      id_was_free = free;
      multipart_called = rw p.result (
          keeps (create_multipart (append "staging/" sid) req.mime) (
            subst (Sent (create_multipart (append "staging/" sid) req.mime)) (sym quiet)
              (inl refl)));
      recorded = ap (λ (v : World). v.db) p.result ∙ same ∙ stored;
      metering_delivered = done;
      metered = rw p.result told;
      planned = new-IsPlanned l id req sid up p.valid q;
    }
