-- ===== src/Telemetry/Aggregator/Delivery.antt =====
-- services/telemetry/internal/jobs/aggregator.go: what the handlers publish, however they interleave.
use aether_edit.Prelude.{
  ℕ, zero, suc, ◌+◌, ◌≡◌, refl, sym, ap, ◌∙◌, Bool, true, Option, none, some, List, [], ◌∷◌, ◌++◌,
  arith, if◌then◌else◌, Bool-cases, Option-cases, Result-cases, get_elem?, Result, ok, err, inl,
  inr,
}
use aether_edit.Prelude.Float.{Float}
use aether_edit.Prelude.Assoc.{lookup, lookup-insert}
use aether_edit.Telemetry.Hub.{Event, publish, publish_sticky}
use aether_edit.Telemetry.Aggregator.{Aggregate, Aggregator, Announcement, Runtime, EventError}
use aether_edit.Telemetry.Aggregator.Handlers.{
  aggregate, if_valid, check_state, check_progress, handle_state, handle_progress, publish_job,
  publish_aggregate,
}
use aether_edit.Telemetry.Aggregator.Runs.{Message, state_message, progress_message, handle}
use aether_edit.Telemetry.Aggregator.Publication.{
  Publishing, Telemeter, Act, arrives, tells, aggregate_event, put, remove, ranging, act, run_acts,
  snapshots, told_by, told, count_of, count_publishing, sticky_after,
}

module _ {fl : Float} where
  if_valid_counts :
      (rt : Runtime fl) (r : Result EventError (Unit {0})) (a b : Aggregator fl)
      (out out' : Announcement fl)
      → out.counts ≡ aggregate rt b
      → (if_valid r a out b).0 ≡ ok out'
      → out'.counts ≡ aggregate rt (if_valid r a out b).1
  if_valid_counts rt (ok _) a b out out' h e = ground (arith, h, e)
  if_valid_counts rt (err d) a b out out' h e = absurd (ground (arith, e))

  -- What a handler publishes are the counts of the state that it leaves.
  handle_counts :
      (rt : Runtime fl) (m : Message fl) (a : Aggregator fl) (out : Announcement fl)
      → (handle rt m a).0 ≡ ok out
      → out.counts ≡ aggregate rt (handle rt m a).1
  unfolding handle handle_state handle_progress
  handle_counts rt (state_message none) a out e = absurd (ground (arith, e))
  handle_counts rt (state_message (some ev)) a out e =
      if_valid_counts rt (check_state ev) a _ _ out refl e
  handle_counts rt (progress_message none) a out e = absurd (ground (arith, e))
  handle_counts rt (progress_message (some ev)) a out e =
      if_valid_counts rt (check_progress ev) a _ _ out refl e

  count-append :
      (f : Aggregate fl → Bool) (gs hs : List (Aggregate fl))
      → count_of f (gs ++ hs) ≡ count_of f gs + count_of f hs
  unfolding count_of
  count-append f [] hs = ground arith
  count-append f (g ∷ gs) hs = ground (arith, count-append f gs hs)

  count-remove :
      (f : Aggregate fl → Bool) (n : ℕ) (ps : List (Publishing fl)) (p : Publishing fl)
      → get_elem? ps n ≡ some p
      → count_publishing f ps ≡ (if f p.out.counts then 1 else 0) + count_publishing f (remove n ps)
  unfolding count_publishing remove
  count-remove f n [] p h = ground (arith, h)
  count-remove f zero (q ∷ ps) p h = ground (arith, h)
  count-remove f (suc n) (q ∷ ps) p h = let ih = count-remove f n ps p h in ground (arith, ih)

  count-put :
      (f : Aggregate fl → Bool) (n : ℕ) (ps : List (Publishing fl)) (p : Publishing fl)
      → get_elem? ps n ≡ some p
      → count_publishing f (put n (record p { job_told = true }) ps) ≡ count_publishing f ps
  unfolding count_publishing put
  count-put f n [] p h = refl
  count-put f zero (q ∷ ps) p h = ground (arith, h)
  count-put f (suc n) (q ∷ ps) p h = let ih = count-put f n ps p h in ground (arith, ih)

  step_counts :
      (rt : Runtime fl) (f : Aggregate fl → Bool) (a : Act fl) (acts : List (Act fl))
      (t : Telemeter fl)
      → count_publishing f t.publishing + count_of f (snapshots rt (a ∷ acts) t.aggregator)
        ≡ count_of f (told_by a t)
          + (count_publishing f (act rt a t).publishing
              + count_of f (snapshots rt acts (act rt a t).aggregator))
  unfolding snapshots told_by act count_of count_publishing
  step_counts rt f (arrives range m) acts t =
      elim (Result-cases (handle (ranging rt range) m t.aggregator).0) [
        | inr (x, e) ↦ ground (arith, e)
        | inl (out, e) ↦
            let fresh = handle_counts (ranging rt range) m t.aggregator out e in
            ground (arith, e, fresh)
      ]
  step_counts rt f (tells n) acts t = elim (Option-cases (get_elem? t.publishing n)) [
    | inl e ↦ ground (arith, e)
    | inr (p, e) ↦ elim (Bool-cases p.job_told) [
      | inl told_job ↦ ground (arith, e, told_job, count-remove f n t.publishing p e)
      | inr untold ↦ ground (arith, e, untold, count-put f n t.publishing p e)
    ]
  ]

  run_counts :
      (rt : Runtime fl) (f : Aggregate fl → Bool) (acts : List (Act fl)) (t : Telemeter fl)
      → count_publishing f t.publishing + count_of f (snapshots rt acts t.aggregator)
        ≡ count_of f (told rt acts t) + count_publishing f (run_acts rt acts t).publishing
  unfolding told run_acts snapshots count_of
  run_counts rt f [] t = ground arith
  run_counts rt f (a ∷ acts) t = grind (
    arith,
    step_counts rt f a acts t,
    run_counts rt f acts (act rt a t),
    count-append f (told_by a t) (told rt acts (act rt a t)),
  )

  sticky-append :
      (rt : Runtime fl) (gs hs : List (Aggregate fl)) (before : Option Event)
      → sticky_after rt (gs ++ hs) before ≡ sticky_after rt hs (sticky_after rt gs before)
  unfolding sticky_after
  sticky-append rt [] hs before = refl
  sticky-append rt (g ∷ gs) hs before = sticky-append rt gs hs _

  step_sticky :
      (rt : Runtime fl) (a : Act fl) (t : Telemeter fl)
      → lookup "aggregate" (act rt a t).hub.sticky
        ≡ sticky_after rt (told_by a t) (lookup "aggregate" t.hub.sticky)
  unfolding act told_by sticky_after publish_job publish_aggregate publish publish_sticky
  step_sticky rt (arrives range m) t = refl
  step_sticky rt (tells n) t = elim (Option-cases (get_elem? t.publishing n)) [
    | inl e ↦ ground (arith, e)
    | inr (p, e) ↦ elim (Bool-cases p.job_told) [
      | inl told_job ↦ elim (Option-cases (rt.aggregate_json p.out.counts)) [
        | inl j ↦ ground (arith, e, told_job, j)
        | inr (bytes, j) ↦ ground (
          arith,
          e,
          told_job,
          j,
          lookup-insert "aggregate" "aggregate" (aggregate_event bytes) t.hub.sticky,
        )
      ]
      | inr untold ↦ elim (Option-cases (rt.job_json p.out.job)) [
        | inl j ↦ ground (arith, e, untold, j)
        | inr (bytes, j) ↦ ground (arith, e, untold, j)
      ]
    ]
  ]

  run_sticky :
      (rt : Runtime fl) (acts : List (Act fl)) (t : Telemeter fl)
      → lookup "aggregate" (run_acts rt acts t).hub.sticky
        ≡ sticky_after rt (told rt acts t) (lookup "aggregate" t.hub.sticky)
  unfolding told run_acts sticky_after
  run_sticky rt [] t = refl
  run_sticky rt (a ∷ acts) t =
      run_sticky rt acts (act rt a t)
      ∙ ap (sticky_after rt (told rt acts (act rt a t))) (step_sticky rt a t)
      ∙ sym (sticky-append rt (told_by a t) (told rt acts (act rt a t)) _)

  -- However the handlers interleave, each being able to stop between the release of the mutex, the
  -- publication of its job's event and that of the aggregate: every aggregate of a state that an
  -- accepted message left is published once, or its handler is still at its publication, and no other
  -- one is published; and the sticky event of the aggregate is the last one published that JSON can
  -- hold, or what it was before.
  pub run_acts_tell :
      (rt : Runtime fl) (acts : List (Act fl)) (t : Telemeter fl)
      → ((f : Aggregate fl → Bool)
          → count_publishing f t.publishing + count_of f (snapshots rt acts t.aggregator)
            ≡ count_of f (told rt acts t) + count_publishing f (run_acts rt acts t).publishing)
        × (lookup "aggregate" (run_acts rt acts t).hub.sticky
            ≡ sticky_after rt (told rt acts t) (lookup "aggregate" t.hub.sticky))
  run_acts_tell rt acts t = ((λ f. run_counts rt f acts t), run_sticky rt acts t)
