-- ===== src/Upload/Landing.antt =====
-- services/upload/server.go: what the ends of an upload guarantee, landed, cancelled or rolled back.
use aether_edit.Prelude.{
  ℕ, ◌<◌, ◌≡◌, sym, subst, ◌⊎◌, inl, inr, true, some, List, [], ◌∷◌, arith, Bool-cases,
  Option-cases, length,
}
use aether_edit.Upload.{active, assembled, completed, is_done, Session, Chunk}
use aether_edit.Upload.Rows.{get_chunks, set_session_state, set_session_assembled}
use aether_edit.Upload.Handler.{
  Part, upload_completed, Call, publish_landed, publish_metering, copy, complete_multipart, fail,
  landed, World, next, reply, Try, publish,
}
use aether_edit.Upload.Publication.{
  Sent, IsDelivered, publish-IsDelivered, publish_keeps_call, publish-Sent, publish-db,
}
use aether_edit.Upload.Put.{Codecs}
use aether_edit.Upload.Complete.{
  CompleteInput, AssembleInput, missing_from, parts_of, assembled_as, assemble, announce, land,
  gather,
}

announce_inv :
    (retries : ℕ) (tries : ℕ → Try) (c : Call) (w : World)
    → 0 < retries
    → ((announce retries tries c w ≡ (next tt, (publish retries tries c w).1))
        × IsDelivered retries tries
        × Sent c (publish retries tries c w).1.calls)
      ⊎ (announce retries tries c w
          ≡ (reply (fail 503 "event_publish_failed"), (publish retries tries c w).1))
unfolding announce
announce_inv retries tries c w p = elim (Bool-cases (publish retries tries c w).0) [
  | inl e ↦
      inl
        (ground arith, publish-IsDelivered retries tries c w p e, publish-Sent retries tries c w p)
  | inr e ↦ inr (ground arith)
]

abbrev pub metering_of : Session → Call
metering_of s =
    publish_metering upload_completed
      (record { workspace_id = s.workspace_id; user_id = s.user_id }) s.size_bytes

-- After the first event, and after both.
abbrev told_world : ℕ → CompleteInput → Session → World → World
told_world retries i s w = (publish retries i.landed_tries (publish_landed s) w).1

abbrev metered_world : ℕ → CompleteInput → Session → World → World
metered_world retries i s w =
    (publish retries i.metering_tries (metering_of s) (told_world retries i s w)).1

pub record HasLanded (retries : ℕ) (i : CompleteInput) (s : Session) (w : World) (t : Session)
    : Type 0 where
  pub answered : t ≡ record s { state = completed }
  pub told_delivered : IsDelivered retries i.landed_tries
  pub told : Sent (publish_landed s) (land retries i s w).1.calls
  pub metered_delivered : IsDelivered retries i.metering_tries
  pub metered : Sent (metering_of s) (land retries i s w).1.calls
  pub recorded : (land retries i s w).1.db ≡ (set_session_state s.id completed w.db).1

pub land_inv :
    (retries : ℕ) (i : CompleteInput) (s : Session) (w : World) (t : Session)
    → 0 < retries
    → (land retries i s w).0 ≡ reply (landed t)
    → HasLanded retries i s w t
unfolding land publish
land_inv retries i s w t p h = elim (announce_inv retries i.landed_tries (publish_landed s) w p) [
  | inr e ↦ absurd (ground arith)
  | inl (e, done, sent) ↦
      elim (announce_inv retries i.metering_tries (metering_of s) (told_world retries i s w) p) [
        | inr e' ↦ absurd (ground arith)
        | inl (e', done', sent') ↦
            let same : (land retries i s w).1.calls ≡ (metered_world retries i s w).calls =
              ground arith in
            record {
              answered = ground arith;
              told_delivered = done;
              metered_delivered = done';
              told = subst (Sent (publish_landed s)) (sym same) (
                  publish_keeps_call (publish_landed s) retries i.metering_tries (metering_of s)
                    (told_world retries i s w) sent);
              metered = subst (Sent (metering_of s)) (sym same) sent';
              recorded = ground (
                arith,
                publish-db retries i.landed_tries (publish_landed s) w,
                publish-db retries i.metering_tries (metering_of s) (told_world retries i s w),
              );
            }
      ]
]

-- Every row is done.
abbrev pub AllDone : List Chunk → Type 0
AllDone [] = Unit
AllDone (c ∷ cs) = (is_done c.state ≡ true) × AllDone cs

none_missing : (kept : ℕ) (cs : List Chunk) → kept < 100 → missing_from kept cs ≡ [] → AllDone cs
unfolding missing_from
none_missing kept [] k h = tt
none_missing kept (c ∷ cs) k h = ground (arith, none_missing kept cs k)

assemble_inv :
    (c : Codecs) (i : AssembleInput) (s : Session) (parts : List Part) (w : World) (d : Session)
    → (assemble c i s parts w).0 ≡ next d
    → (content : List ℕ) × (i.content ≡ some content)
      × (length content ≡ s.size_bytes)
      × (d ≡ assembled_as c s content)
      × ((assemble c i s parts w).1.db ≡ (set_session_assembled s.id d.sha256 d.object_key w.db).1)
      × (i.copies ≡ true)
      × Sent
          (complete_multipart s.staging_key s.s3_upload_id parts)
          (assemble c i s parts w).1.calls
      × Sent (copy s.staging_key d.object_key s.size_bytes) (assemble c i s parts w).1.calls
unfolding assemble
assemble_inv c i s parts w d h = elim (Option-cases i.content) [
  | inl e ↦ absurd (ground arith)
  | inr (content, e) ↦ (
    content,
    e,
    ground arith,
    ground arith,
    ground arith,
    ground arith,
    ground arith,
    ground arith,
  )
]

-- An ACTIVE session was assembled: its content has the declared size, and its hash is in the key.
pub record IsAssembled (c : Codecs) (i : CompleteInput) (s : Session) (parts : List Part)
    (calls : List Call) (d : Session) : Type 0 where
  pub content : List ℕ
  pub content_read : i.assembly.content ≡ some content
  pub content_size : length content ≡ s.size_bytes
  pub named : d ≡ assembled_as c s content
  pub parts_joined : Sent (complete_multipart s.staging_key s.s3_upload_id parts) calls
  pub copy_answered : i.assembly.copies ≡ true
  pub copied : Sent (copy s.staging_key d.object_key s.size_bytes) calls

pub record IsGathered (c : Codecs) (i : CompleteInput) (s : Session) (w : World) (d : Session)
    : Type 0 where
  pub all_done : AllDone (get_chunks s.id w.db)
  pub counted : length (parts_of (get_chunks s.id w.db)) ≡ s.chunk_count
  pub session_was :
      ((s.state ≡ active)
        × IsAssembled c i s (parts_of (get_chunks s.id w.db)) (gather c i s w).1.calls d)
      ⊎ ((s.state ≡ assembled) × (d ≡ s))

chunks_complete :
    (c : Codecs) (i : CompleteInput) (s : Session) (w : World) (d : Session)
    → (gather c i s w).0 ≡ next d
    → (missing_from 0 (get_chunks s.id w.db) ≡ [])
      × (length (parts_of (get_chunks s.id w.db)) ≡ s.chunk_count)
unfolding gather
chunks_complete c i s w d h = ground arith

gather_assembled :
    (c : Codecs) (i : CompleteInput) (s : Session) (w : World) (d : Session)
    → (gather c i s w).0 ≡ next d
    → ((s.state ≡ active)
        × ((assemble c i.assembly s (parts_of (get_chunks s.id w.db)) w).0 ≡ next d)
        × ((gather c i s w).1 ≡ (assemble c i.assembly s (parts_of (get_chunks s.id w.db)) w).1))
      ⊎ ((s.state ≡ assembled) × (d ≡ s))
unfolding gather
gather_assembled c i s w d h = ground arith

pub gather_inv :
    (c : Codecs) (i : CompleteInput) (s : Session) (w : World) (d : Session)
    → (gather c i s w).0 ≡ next d
    → IsGathered c i s w d
gather_inv c i s w d h =
    let (none_left, all) = chunks_complete c i s w d h in
    record {
      all_done = none_missing 0 (get_chunks s.id w.db) (omega arith) none_left;
      counted = all;
      session_was = elim (gather_assembled c i s w d h) [
        | inr k ↦ inr k
        | inl (a, e, same) ↦
            let (content, read, size, name, db, copies, joined, sent) =
              assemble_inv c i.assembly s (parts_of (get_chunks s.id w.db)) w d e in
            inl (
              a,
              record {
                content = content;
                content_read = read;
                content_size = size;
                named = name;
                copy_answered = copies;
                parts_joined =
                    subst
                      (λ (v : World).
                        Sent
                          (complete_multipart s.staging_key s.s3_upload_id
                            (parts_of (get_chunks s.id w.db)))
                          v.calls)
                      (sym same) joined;
                copied =
                    subst
                      (λ (v : World). Sent (copy s.staging_key d.object_key s.size_bytes) v.calls)
                      (sym same) sent;
              },
            )
      ];
    }

pub gather_answers :
    (c : Codecs) (i : CompleteInput) (s : Session) (w : World) (t : Session)
    → (gather c i s w).0 ≡ reply (landed t)
    → (s.state ≡ completed) × (t ≡ s)
unfolding gather assemble
gather_answers c i s w t h = ground arith
