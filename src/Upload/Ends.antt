-- ===== src/Upload/Ends.antt =====
-- services/upload/server.go: how an upload ends, by `handleComplete`, by `handleCancel`, or by the
-- rollback of `handleCreate`.
use aether_edit.Prelude.{ℕ, ◌≡◌, refl, sym, ap, ◌∙◌, subst, ◌≢◌, ◌⊎◌, inl, inr, some, arith}
use aether_edit.Prelude.Assoc.{lookup}
use aether_edit.Upload.{completed, cancelled, Session, Identity}
use aether_edit.Upload.Rows.{set_session_state}
use aether_edit.Upload.Handler.{
  abort_multipart, publish_landed, no_content, World, Step, next, reply, Reply, M, bind, Request,
  load_owned_session,
}
use aether_edit.Upload.Put.{Codecs}
use aether_edit.Upload.Complete.{CompleteInput, handle_complete}
use aether_edit.Upload.Cancel.{CancelInput, cancel, handle_cancel}
use aether_edit.Upload.Publication.{Sent, IsDelivered}
use aether_edit.Upload.Landing.{metering_of, IsGathered}

-- The upload has landed in this request.
pub record IsComplete (c : Codecs) (retries : ℕ) (i : CompleteInput) (w : World) (t : Session)
    : Type 0 where
  pub session : Session
  pub identity : Identity
  pub result : Session
  pub loaded : (load_owned_session i.request w).0 ≡ next (session, identity)
  pub gathered : IsGathered c i session w result
  pub answered : t ≡ record result { state = completed }
  pub told_delivered : IsDelivered retries i.landed_tries
  pub told : Sent (publish_landed result) (handle_complete c retries i w).1.calls
  pub metered_delivered : IsDelivered retries i.metering_tries
  pub metered : Sent (metering_of result) (handle_complete c retries i w).1.calls
  pub recorded :
      (u : Session)
      → lookup result.id (handle_complete c retries i w).1.db.sessions ≡ some u
      → u.state ≡ completed

load_keeps : (r : Request) (w : World) → (load_owned_session r w).1 ≡ w
unfolding load_owned_session
load_keeps r w = ground arith

bind_inv :
    {A B : Type 0} (m : Step A × World) (f : A → M B) (r : Reply)
    → (bind m f).0 ≡ reply r
    → ((a : A) × (m.0 ≡ next a) × (bind m f ≡ f a m.1)) ⊎ (m.0 ≡ reply r)
bind_inv (next a, v) f r h = inl (a, refl, refl)
bind_inv (reply q, v) f r h = inr (ground arith)

cancel_inv :
    (i : CancelInput) (s : Session) (w : World)
    → (cancel i s w).0 ≡ reply no_content
    → (s.state ≢ completed)
      × Sent (abort_multipart s.staging_key s.s3_upload_id) (cancel i s w).1.calls
      × (((s.state ≡ cancelled) × ((cancel i s w).1.db ≡ w.db))
          ⊎ ((cancel i s w).1.db ≡ (set_session_state s.id cancelled w.db).1))
unfolding cancel
cancel_inv i s w h = (ground arith, ground arith, ground arith)

-- The request cancelled the session, or found it cancelled.
pub record IsCancelled (i : CancelInput) (w : World) : Type 0 where
  pub session : Session
  pub identity : Identity
  pub loaded : (load_owned_session i.request w).0 ≡ next (session, identity)
  pub not_completed : session.state ≢ completed
  pub aborted :
      Sent (abort_multipart session.staging_key session.s3_upload_id) (handle_cancel i w).1.calls
  pub recorded :
      ((session.state ≡ cancelled) × ((handle_cancel i w).1.db ≡ w.db))
      ⊎ ((handle_cancel i w).1.db ≡ (set_session_state session.id cancelled w.db).1)

load_no_cancel : (r : Request) (w : World) → (load_owned_session r w).0 ≡ reply no_content → ⊥
unfolding load_owned_session
load_no_cancel r w h = ground arith

-- A cancel that is answered with 204 was of a session that was not COMPLETED; it called for the abort
-- of the session's multipart upload; and it left the tables as `SetSessionState` to CANCELLED does,
-- or as they were if the session was CANCELLED before.
pub cancel_ends :
    (i : CancelInput) (w : World) → (handle_cancel i w).0 ≡ reply no_content → IsCancelled i w
unfolding handle_cancel
cancel_ends i w h = elim (bind_inv (load_owned_session i.request w) _ no_content h) [
  | inr l ↦ absurd (load_no_cancel i.request w l)
  | inl ((s, id), l, e) ↦
      let all = e ∙ ap (λ (v : World). cancel i s v) (load_keeps i.request w) in
      let (ne, sent, left) =
        cancel_inv i s w (sym (ap (λ (m : Step (Unit {0}) × World). m.0) all) ∙ h) in
      record {
        session = s;
        identity = id;
        loaded = l;
        not_completed = ne;
        aborted =
            subst
              (λ (m : Step (Unit {0}) × World).
                Sent (abort_multipart s.staging_key s.s3_upload_id) m.1.calls)
              (sym all) sent;
        recorded =
            subst
              (λ (m : Step (Unit {0}) × World).
                ((s.state ≡ cancelled) × (m.1.db ≡ w.db))
                ⊎ (m.1.db ≡ (set_session_state s.id cancelled w.db).1))
              (sym all) left;
      }
]
