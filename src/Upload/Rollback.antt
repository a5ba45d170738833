-- ===== src/Upload/Rollback.antt =====
-- services/upload/server.go: the rollback of a session whose creation cannot be announced.
use aether_edit.Prelude.{◌≡◌, refl, ◌⊎◌, inl, inr, none, ◌∷◌, arith, Option-cases, eq_iff, some}
use aether_edit.Prelude.Assoc.{lookup, lookup-insert}
use aether_edit.Upload.{cancelled, Session, Identity}
use aether_edit.Upload.Rows.{Outcome, confirmed, failed, unconfirmed, set_session_state}
use aether_edit.Upload.Handler.{
  upload_session_created, Call, abort_multipart, publish_metering, World,
}
use aether_edit.Upload.Create.{roll_back}

abbrev pub event_of : Identity → Session → Call
event_of id s = publish_metering upload_session_created id s.size_bytes

-- How the rollback of an announced session ends, of the world before it and the one after.
abbrev pub RolledBack : Outcome → Session → World → World → Type 0
RolledBack up s before after =
    ((up ≡ confirmed)
      × ((u : Session) × (lookup s.id before.db.sessions ≡ some u)
          × (lookup s.id after.db.sessions ≡ some (record u { state = cancelled })))
      × (after.db ≡ (set_session_state s.id cancelled before.db).1)
      × (after.calls ≡ abort_multipart s.staging_key s.s3_upload_id ∷ before.calls))
    ⊎ (((up ≡ unconfirmed)
          × (after.db ≡ (set_session_state s.id cancelled before.db).1)
          × (after.calls ≡ before.calls))
        ⊎ (((up ≡ failed) ⊎ (lookup s.id before.db.sessions ≡ none))
            × (after.db ≡ before.db)
            × (after.calls ≡ before.calls)))

pub roll_back-RolledBack :
    (up : Outcome) (s : Session) (w : World) → RolledBack up s w (roll_back up s w)
unfolding roll_back set_session_state
roll_back-RolledBack failed s w = inr (inr (inl refl, refl, refl))
roll_back-RolledBack unconfirmed s w = inr (inl (refl, refl, refl))
roll_back-RolledBack confirmed s w = elim (Option-cases (lookup s.id w.db.sessions)) [
  | inl e ↦ inr (inr (inr e, ground arith, ground arith))
  | inr (u, e) ↦ inl (
    refl,
    (
      u,
      e,
      ground (
        arith,
        lookup-insert s.id s.id (record u { state = cancelled }) w.db.sessions,
        eq_iff s.id s.id,
      ),
    ),
    ground arith,
    ground arith,
  )
]
