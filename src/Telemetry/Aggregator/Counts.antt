-- ===== src/Telemetry/Aggregator/Counts.antt =====
-- services/telemetry/internal/jobs/aggregator.go: the counts are those of the active jobs.
use aether_edit.Prelude.{
  ◌+◌, String, ◌≡◌, refl, sym, ap, ◌∙◌, subst, inl, inr, Bool, true, ◌||◌, none, some, arith,
  str_eq, eq_iff, Bool-cases, Option-cases,
}
use aether_edit.Prelude.Float.{Float}
use aether_edit.Prelude.Int.{ℤ, pos, inc, dec, dec_lem}
use aether_edit.Prelude.Assoc.{
  lookup, insert, delete, lookup-insert, lookup-delete_ne, lookup-delete_self, IsNodup,
  insert-IsNodup, delete-IsNodup, count_by, one_if, count_by-insert, count_by-delete,
}
use aether_edit.Telemetry.Aggregator.{
  EventState, queued, running, completed, failed, other_state, is_queued, is_running, ProgressEvent,
  JobState, Aggregator, fresh, with_progress, on_queued, on_running, forget, apply_state,
  apply_progress,
}

module _ {fl : Float} where
  abbrev pub holds_queued : JobState fl → Bool
  holds_queued js = is_queued js.state

  abbrev pub holds_running : JobState fl → Bool
  holds_running js = is_running js.state

  -- Each job stands once in the map, queued or running, and the two counters count them.
  pub record IsCounted (a : Aggregator fl) : Type 0 where
    pub once : IsNodup a.active
    pub live :
        (id : String) (js : JobState fl)
        → lookup id a.active ≡ some js
        → holds_queued js || holds_running js ≡ true
    pub queue : a.queued_count ≡ pos (count_by holds_queued a.active)
    pub flight : a.in_flight ≡ pos (count_by holds_running a.active)

  -- The map after an insertion, with the counters for it.
  insert-live :
      (a : Aggregator fl) (id : String) (js : JobState fl)
      → IsCounted a
      → holds_queued js || holds_running js ≡ true
      → (k : String) (v : JobState fl) → lookup k (insert id js a.active) ≡ some v
      → holds_queued v || holds_running v ≡ true
  insert-live a id js c l k v e = ground (arith, lookup-insert id k js a.active, c.live k v)

  delete-live :
      (a : Aggregator fl) (id : String)
      → IsCounted a
      → (k : String) (v : JobState fl) → lookup k (delete id a.active) ≡ some v
      → holds_queued v || holds_running v ≡ true
  delete-live a id c k v e = elim (Bool-cases (str_eq id k)) [
    | inl same ↦ ground (arith, e, lookup-delete_self id a.active c.once, (eq_iff id k).0 same)
    | inr other ↦
        c.live k v
          (sym (lookup-delete_ne id k a.active (λ q. ground (arith, other, (eq_iff id k).1 q))) ∙ e)
  ]

  -- A job is written, and the counters are set.
  placed : String → JobState fl → ℤ → ℤ → Aggregator fl → Aggregator fl
  placed id js q f a = record a { active = insert id js a.active; queued_count = q; in_flight = f }

  placed-IsCounted :
      (id : String) (js : JobState fl) (q f : ℤ) (a : Aggregator fl)
      → IsCounted a
      → holds_queued js || holds_running js ≡ true
      → q ≡ pos (count_by holds_queued (insert id js a.active))
      → f ≡ pos (count_by holds_running (insert id js a.active))
      → IsCounted (placed id js q f a)
  unfolding placed
  placed-IsCounted id js q f a c l eq ef = record {
    once = insert-IsNodup id js a.active c.once;
    live = insert-live a id js c l;
    queue = eq;
    flight = ef;
  }

  -- The counters after a write, by the job that stood there.
  placed_counts :
      (id : String) (js : JobState fl) (a : Aggregator fl)
      → (count_by holds_queued (insert id js a.active) + one_if holds_queued (lookup id a.active)
          ≡ count_by holds_queued a.active + one_if holds_queued (some js))
        × (count_by holds_running (insert id js a.active)
              + one_if holds_running (lookup id a.active)
            ≡ count_by holds_running a.active + one_if holds_running (some js))
  placed_counts id js a =
      (count_by-insert holds_queued id js a.active, count_by-insert holds_running id js a.active)

  on_queued-IsCounted : (id : String) (a : Aggregator fl) → IsCounted a → IsCounted (on_queued id a)
  unfolding on_queued placed
  on_queued-IsCounted id a c = elim (Option-cases (lookup id a.active)) [
    | inl absent ↦ subst IsCounted (ground (arith, absent)) (
        placed-IsCounted id (fresh queued) (inc a.queued_count) a.in_flight a c refl
          (ground (arith, absent, c.queue, placed_counts id (fresh queued) a))
          (ground (arith, absent, c.flight, placed_counts id (fresh queued) a)))
    | inr (js, present) ↦ subst IsCounted (ground (arith, present)) c
  ]

  -- An unknown job runs.
  appear-IsCounted :
      (id : String) (new : JobState fl) (a : Aggregator fl)
      → IsCounted a
      → lookup id a.active ≡ none
      → new.state ≡ running
      → IsCounted (placed id new a.queued_count (inc a.in_flight) a)
  appear-IsCounted id new a c absent now =
      placed-IsCounted id new a.queued_count (inc a.in_flight) a c (ground (arith, now))
        (ground (arith, absent, now, c.queue, placed_counts id new a))
        (ground (arith, absent, now, c.flight, placed_counts id new a))

  -- A queued job runs.
  start-IsCounted :
      (id : String) (old new : JobState fl) (a : Aggregator fl)
      → IsCounted a
      → lookup id a.active ≡ some old
      → is_queued old.state ≡ true
      → new.state ≡ running
      → IsCounted (placed id new (dec a.queued_count) (inc a.in_flight) a)
  start-IsCounted id old new a c present was now =
      placed-IsCounted id new (dec a.queued_count) (inc a.in_flight) a c (ground (arith, now))
        (ap dec c.queue
          ∙ dec_lem (count_by holds_queued a.active)
              (count_by holds_queued (insert id new a.active))
              (ground (arith, present, was, now, placed_counts id new a)))
        (ground (arith, present, was, now, c.flight, placed_counts id new a))

  -- A job that keeps its state is written.
  keep-IsCounted :
      (id : String) (old new : JobState fl) (a : Aggregator fl)
      → IsCounted a
      → lookup id a.active ≡ some old
      → new.state ≡ old.state
      → IsCounted (placed id new a.queued_count a.in_flight a)
  keep-IsCounted id old new a c present same =
      placed-IsCounted id new a.queued_count a.in_flight a c
        (ground (arith, same, c.live id old present))
        (ground (arith, present, same, c.queue, placed_counts id new a))
        (ground (arith, present, same, c.flight, placed_counts id new a))

  on_running-IsCounted :
      (id : String) (a : Aggregator fl) → IsCounted a → IsCounted (on_running id a)
  unfolding on_running placed
  on_running-IsCounted id a c = elim (Option-cases (lookup id a.active)) [
    | inl absent ↦
        subst IsCounted (ground (arith, absent))
          (appear-IsCounted id (fresh running) a c absent refl)
    | inr (js, present) ↦ elim (Bool-cases (is_queued js.state)) [
      | inl was ↦
          subst IsCounted (ground (arith, present, was))
            (start-IsCounted id js (record js { state = running }) a c present was refl)
      | inr was ↦ subst IsCounted (ground (arith, present, was)) c
    ]
  ]

  pub apply_progress-IsCounted :
      (ev : ProgressEvent fl) (a : Aggregator fl) → IsCounted a → IsCounted (apply_progress ev a)
  unfolding apply_progress placed
  apply_progress-IsCounted ev a c = elim (Option-cases (lookup ev.job_id a.active)) [
    | inl absent ↦
        subst IsCounted (ground (arith, absent))
          (appear-IsCounted ev.job_id (with_progress ev (fresh running)) a c absent refl)
    | inr (js, present) ↦ elim (Bool-cases (is_queued js.state)) [
      | inl was ↦ subst IsCounted (ground (arith, present, was)) (
          start-IsCounted ev.job_id js (with_progress ev (record js { state = running })) a c
            present was refl)
      | inr was ↦
          subst IsCounted (ground (arith, present, was))
            (keep-IsCounted ev.job_id js (with_progress ev js) a c present refl)
    ]
  ]

  -- An ended job leaves.
  dropped-IsCounted :
      (id : String) (q f : ℤ) (a : Aggregator fl)
      → IsCounted a
      → q ≡ pos (count_by holds_queued (delete id a.active))
      → f ≡ pos (count_by holds_running (delete id a.active))
      → IsCounted (record a { active = delete id a.active; queued_count = q; in_flight = f })
  dropped-IsCounted id q f a c eq ef = record {
    once = delete-IsNodup id a.active c.once;
    live = delete-live a id c;
    queue = eq;
    flight = ef;
  }

  forget-IsCounted : (id : String) (a : Aggregator fl) → IsCounted a → IsCounted (forget id a)
  unfolding forget
  forget-IsCounted id a c = elim (Option-cases (lookup id a.active)) [
    | inl absent ↦ subst IsCounted (ground (arith, absent)) c
    | inr (js, present) ↦
        let q = count_by-delete holds_queued id a.active in
        let r = count_by-delete holds_running id a.active in
        elim (Bool-cases (is_queued js.state)) [
          | inl was ↦ subst IsCounted (ground (arith, present, was)) (
              dropped-IsCounted id (dec a.queued_count) a.in_flight a c
                (ap dec c.queue ∙ dec_lem _ _ (ground (arith, present, was, q)))
                (ground (arith, present, was, r, c.flight)))
          | inr was ↦ subst IsCounted (ground (arith, present, was)) (
              dropped-IsCounted id a.queued_count (dec a.in_flight) a c
                (ground (arith, present, was, q, c.queue))
                (ap dec c.flight
                  ∙ dec_lem _ _ (ground (arith, present, was, c.live id js present, r))))
        ]
  ]

  pub apply_state-IsCounted :
      (s : EventState) (id : String) (a : Aggregator fl)
      → IsCounted a
      → IsCounted (apply_state s id a)
  unfolding apply_state
  apply_state-IsCounted queued id a c = on_queued-IsCounted id a c
  apply_state-IsCounted running id a c = on_running-IsCounted id a c
  apply_state-IsCounted completed id a c =
      let k = forget-IsCounted id a c in
      record { once = k.once; live = k.live; queue = k.queue; flight = k.flight }
  apply_state-IsCounted failed id a c =
      let k = forget-IsCounted id a c in
      record { once = k.once; live = k.live; queue = k.queue; flight = k.flight }
  apply_state-IsCounted (other_state s) id a c = c
