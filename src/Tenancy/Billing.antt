-- ===== src/Tenancy/Billing.antt =====
-- services/tenancy/metering.go: every event is counted once, however often it is delivered.
use aether_edit.Prelude.{
  ℕ, String, ◌≡◌, refl, sym, subst, ◌⊎◌, inl, inr, true, false, Option, none, some, List, [], ◌∷◌,
  arith, eq_iff, Bool-cases, Result-cases, ok,
}
use aether_edit.Prelude.Float.{Float}
use aether_edit.Tenancy.Access.{Outcome, answered, refused, lost}
use aether_edit.Tenancy.{MeteringEvent, UsageRollup, Ledger}
use aether_edit.Tenancy.Metering.{
  ack, term, nak, rollup_delta, upsert, is_recorded, apply_metering, consume, is_terminal, handle,
  sum_storage_bytes,
}
use aether_edit.Tenancy.Validity.{IsValid, rollup_delta-IsValid, invalid_delta}
use aether_edit.Tenancy.Rollups.{
  Column, read, share, billed, read-upsert, delta_key, delta_value, delta_seconds, read_seconds,
  billed_seconds, read_seconds-upsert, sum_bytes-upsert, landed,
}

module _ {fl : Float} where
  -- Deliveries: how the transaction ends, and the payload.
  unfoldable pub deliver_all :
      (ℕ → String) → List (Outcome × Option (MeteringEvent fl)) → Ledger fl → Ledger fl
  unfolding handle
  deliver_all month_of [] l = l
  deliver_all month_of ((up, payload) ∷ ds) l =
      deliver_all month_of ds (handle month_of up payload l).1

  -- No id stands twice.
  abbrev pub IsOnce : List (MeteringEvent fl) → Type 0
  IsOnce [] = Unit {0}
  IsOnce (ev ∷ evs) = (is_recorded ev.event_id evs ≡ false) × IsOnce evs

  -- No event is recorded twice; every count of a rollup is the sum of the recorded events of its
  -- workspace and month, and so are its seconds, added in the order of the records; and the stored
  -- bytes of a workspace are those of its recorded events.
  pub record IsBilled (month_of : ℕ → String) (l : Ledger fl) : Type 0 where
    pub once : IsOnce l.events
    pub sums :
        (col : Column) (ws month : String)
        → read col ws month l.rollups ≡ billed month_of col ws month l.events
    pub seconds :
        (ws month : String)
        → read_seconds ws month l.rollups ≡ billed_seconds month_of ws month l.events
    pub stored : (ws : String) → sum_storage_bytes ws l ≡ landed month_of ws l.events

  new-IsBilled :
      (month_of : ℕ → String) (ev : MeteringEvent fl) (d : UsageRollup fl) (l : Ledger fl)
      → rollup_delta month_of ev ≡ ok d
      → is_recorded ev.event_id l.events ≡ false
      → IsBilled month_of l
      → IsBilled month_of (record { events = ev ∷ l.events; rollups = upsert d l.rollups })
  unfolding billed billed_seconds landed sum_storage_bytes share
  new-IsBilled month_of ev d l h new b = record {
    once = (new, b.once);
    sums = λ col ws month. ground (
      arith,
      h,
      b.sums col ws month,
      read-upsert col ws month d l.rollups,
      delta_key month_of ws month ev d h,
      delta_value month_of col ev d h,
    );
    seconds = λ ws month. ground (
      arith,
      h,
      b.seconds ws month,
      read_seconds-upsert ws month d l.rollups,
      delta_key month_of ws month ev d h,
      delta_seconds month_of ev d h,
    );
    stored = λ ws. ground (arith, h, b.stored ws, sum_bytes-upsert ws d l.rollups);
  }

  apply-IsBilled :
      (month_of : ℕ → String) (ev : MeteringEvent fl) (d : UsageRollup fl) (l : Ledger fl)
      → rollup_delta month_of ev ≡ ok d
      → IsBilled month_of l
      → IsBilled month_of (apply_metering ev d l).1
  unfolding apply_metering
  apply-IsBilled month_of ev d l h b = elim (Bool-cases (is_recorded ev.event_id l.events)) [
    | inl known ↦ subst (IsBilled month_of) (ground (arith, known)) b
    | inr new ↦
        subst (IsBilled month_of) (ground (arith, new)) (new-IsBilled month_of ev d l h new b)
  ]

  -- A delivery leaves the tables, or applies a valid event.
  ledger_cases :
      (month_of : ℕ → String) (up : Outcome) (payload : Option (MeteringEvent fl)) (l : Ledger fl)
      → ((handle month_of up payload l).1 ≡ l)
        ⊎ ((ev : MeteringEvent fl) × (d : UsageRollup fl) × (rollup_delta month_of ev ≡ ok d)
            × ((handle month_of up payload l).1 ≡ (apply_metering ev d l).1))
  unfolding handle consume
  ledger_cases month_of up none l = inl refl
  ledger_cases month_of up (some ev) l = elim (Result-cases (rollup_delta month_of ev)) [
    | inr (x, e) ↦ inl (ground (arith, e))
    | inl (d, e) ↦
        (elim up
          as (λ u.
            ((handle month_of u (some ev) l).1 ≡ l)
            ⊎ ((v : MeteringEvent fl) × (x : UsageRollup fl) × (rollup_delta month_of v ≡ ok x)
                × ((handle month_of u (some ev) l).1 ≡ (apply_metering v x l).1))) [
                  | answered ↦ inr (ev, d, e, ground (arith, e))
                  | refused ↦ inl (ground (arith, e))
                  | lost ↦ inr (ev, d, e, ground (arith, e))
                ])
  ]

  handle-IsBilled :
      (month_of : ℕ → String) (up : Outcome) (payload : Option (MeteringEvent fl)) (l : Ledger fl)
      → IsBilled month_of l
      → IsBilled month_of (handle month_of up payload l).1
  handle-IsBilled month_of up payload l b = elim (ledger_cases month_of up payload l) [
    | inl same ↦ subst (IsBilled month_of) (sym same) b
    | inr (ev, d, valid, to) ↦
        subst (IsBilled month_of) (sym to) (apply-IsBilled month_of ev d l valid b)
  ]

  -- However often the stream delivers its messages, in whatever order, valid or not, and however the
  -- transactions end, by a lost answer too: where no event is recorded twice, every count of a rollup
  -- is the sum of the recorded events of its workspace and month, its seconds of encoding are those of
  -- these events, added in the order in which they were recorded, and the stored bytes of a workspace
  -- are those of its recorded events, all this holds again afterwards.
  pub deliver_all-IsBilled :
      (month_of : ℕ → String) (ds : List (Outcome × Option (MeteringEvent fl))) (l : Ledger fl)
      → IsBilled month_of l
      → IsBilled month_of (deliver_all month_of ds l)
  unfolding deliver_all
  deliver_all-IsBilled month_of [] l b = b
  deliver_all-IsBilled month_of ((up, payload) ∷ ds) l b =
      deliver_all-IsBilled month_of ds (handle month_of up payload l).1
        (handle-IsBilled month_of up payload l b)

  applied_recorded :
      (ev : MeteringEvent fl) (d : UsageRollup fl) (l : Ledger fl)
      → is_recorded ev.event_id (apply_metering ev d l).1.events ≡ true
  unfolding apply_metering is_recorded
  applied_recorded ev d l = ground (arith, eq_iff ev.event_id ev.event_id)

  -- The payload holds an event, which can be billed.
  abbrev pub Holds : Option (MeteringEvent fl) → MeteringEvent fl → Type 0
  Holds payload ev = (payload ≡ some ev) × IsValid ev

  answers :
      (month_of : ℕ → String) (up : Outcome) (ev : MeteringEvent fl) (d : UsageRollup fl)
      (l : Ledger fl)
      → rollup_delta month_of ev ≡ ok d
      → IsValid ev
      → (((handle month_of up (some ev) l).0 ≡ ack)
          × (up ≡ answered)
          × ((v : MeteringEvent fl) × Holds (some ev) v
              × (is_recorded v.event_id (handle month_of up (some ev) l).1.events ≡ true)))
        ⊎ ((((handle month_of up (some ev) l).0 ≡ term)
              × ((v : MeteringEvent fl) → ¬ Holds (some ev) v)
              × ((handle month_of up (some ev) l).1 ≡ l))
            ⊎ (((handle month_of up (some ev) l).0 ≡ nak)
                × ((v : MeteringEvent fl) × Holds (some ev) v
                    × (((up ≡ refused) × ((handle month_of up (some ev) l).1 ≡ l))
                        ⊎ ((up ≡ lost)
                            × (is_recorded v.event_id (handle month_of up (some ev) l).1.events
                                ≡ true))))))
  unfolding handle consume is_terminal
  answers month_of answered ev d l e valid =
      inl (ground (arith, e), refl, (ev, (refl, valid), ground (arith, e, applied_recorded ev d l)))
  answers month_of refused ev d l e valid =
      inr (inr (ground (arith, e), (ev, (refl, valid), inl (refl, ground (arith, e)))))
  answers month_of lost ev d l e valid = inr (
      inr (
        ground (arith, e),
        (ev, (refl, valid), inr (refl, ground (arith, e, applied_recorded ev d l))),
      ))

  -- A message that is acknowledged holds a valid event, and its transaction was answered; the event is
  -- recorded then. One that is dropped for good holds no valid event, and changes nothing. One that is
  -- to come again holds a valid event, and its transaction was not answered: it changed nothing, or
  -- its answer was lost and the event is recorded. Valid means: with an event id and a workspace id, a
  -- time, no negative number of bytes or seconds, and a known kind.
  pub handle_answers :
      (month_of : ℕ → String) (up : Outcome) (payload : Option (MeteringEvent fl)) (l : Ledger fl)
      → (((handle month_of up payload l).0 ≡ ack)
          × (up ≡ answered)
          × ((ev : MeteringEvent fl) × Holds payload ev
              × (is_recorded ev.event_id (handle month_of up payload l).1.events ≡ true)))
        ⊎ ((((handle month_of up payload l).0 ≡ term)
              × ((ev : MeteringEvent fl) → ¬ Holds payload ev)
              × ((handle month_of up payload l).1 ≡ l))
            ⊎ (((handle month_of up payload l).0 ≡ nak)
                × ((ev : MeteringEvent fl) × Holds payload ev
                    × (((up ≡ refused) × ((handle month_of up payload l).1 ≡ l))
                        ⊎ ((up ≡ lost)
                            × (is_recorded ev.event_id (handle month_of up payload l).1.events
                                ≡ true))))))
  unfolding handle consume is_terminal
  handle_answers month_of up none l = inr (inl (refl, (λ ev h. ground (arith, h.0)), refl))
  handle_answers month_of up (some ev) l = elim (Result-cases (rollup_delta month_of ev)) [
    | inr (x, e) ↦ inr (
        inl (
          ground (arith, e),
          (λ v h. invalid_delta month_of v x (ground (arith, e, h.0)) h.1),
          ground (arith, e),
        ))
    | inl (d, e) ↦
        let valid = rollup_delta-IsValid month_of ev d e in answers month_of up ev d l e valid
  ]
