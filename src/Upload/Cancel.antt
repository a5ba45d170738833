-- ===== src/Upload/Cancel.antt =====
-- services/upload/server.go: `handleCancel`.
use aether_edit.Prelude.{Bool, ◌∷◌, if◌then◌else◌}
use aether_edit.Upload.{completed, cancelled, Session}
use aether_edit.Upload.Rows.{Outcome, attempt, set_session_state}
use aether_edit.Upload.Handler.{
  abort_multipart, delete_object, fail, no_content, next, reply, M, ◌>>=◌, ◌>>◌, stored, call,
  Request, load_owned_session,
}

-- What a request brings, and how the calls end: the abort, whether the staging object is found, its
-- deletion, and whether the database answers.
pub record CancelInput : Type 0 where
  pub request : Request
  pub aborts : Bool
  pub staged : Bool
  pub deletes : Bool
  pub cancel_up : Outcome

-- The `switch` on the state: a completed session is refused, and a cancelled one is aborted again.
abbrev pub unless_ended : Session → M (Unit {0})
unless_ended s w = elim s.state [
  | completed ↦ (reply (fail 409 "session_completed"), w)
  | cancelled ↦ (
    reply no_content,
    record w { calls = abort_multipart s.staging_key s.s3_upload_id ∷ w.calls },
  )
  | _ ↦ (next tt, w)
]

-- The staging object is deleted where it is found.
abbrev pub drop_staged : CancelInput → Session → M (Unit {0})
drop_staged i s w =
    if i.staged
    then call (delete_object s.staging_key) i.deletes 502 "storage_error" w
    else (next tt, w)

-- `handleCancel` with its session loaded.
unfoldable pub cancel : CancelInput → Session → M (Unit {0})
unfolding attempt set_session_state
cancel i s = do
  unless_ended s
  call (abort_multipart s.staging_key s.s3_upload_id) i.aborts 502 "storage_error"
  drop_staged i s
  stored (λ db. attempt i.cancel_up db (set_session_state s.id cancelled db)) 500 "store_error"
  λ w. (reply no_content, w)

-- `handleCancel`
unfoldable pub handle_cancel : CancelInput → M (Unit {0})
handle_cancel i = do (s, id) ← load_owned_session i.request; cancel i s
