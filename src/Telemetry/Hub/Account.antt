-- ===== src/Telemetry/Hub/Account.antt =====
-- services/telemetry/internal/hub/hub.go: the accounting of what a served connection loses.
use aether_edit.Prelude.{
  ℕ, suc, ◌+◌, ◌^◌, ◌<◌, ◌≡◌, refl, inl, inr, Bool, Option, some, List, [], ◌∷◌, ◌++◌, arith,
  if◌then◌else◌, Option-cases, length,
}
use aether_edit.Telemetry.Hub.{Event, accepts, signal, drain}
use aether_edit.Telemetry.Hub.Buffer.{IsBounded, store-IsBounded, store-counts, store_keeps}
use aether_edit.Telemetry.Hub.Stream.{
  Frame, connected, heartbeat, dropped_marker, event_frame, Serving, Action, pushed, signalled,
  cancelled, woken, ticked, drained, event_frames, frames_of, tick, drain_round, act, run,
}

-- What the frames report: each event, and the events that a marker counts.
unfoldable pub weight : List Frame → ℕ
weight [] = 0
weight (event_frame ev ∷ fs) = suc (weight fs)
weight (dropped_marker n ∷ fs) = n + weight fs
weight (_ ∷ fs) = weight fs

-- The accepted events of a run.
unfoldable pub count_accepted : Option (Event → Bool) → List Action → ℕ
unfolding accepts
count_accepted f [] = 0
count_accepted f (pushed ev ∷ rest) =
    if accepts f ev then suc (count_accepted f rest) else count_accepted f rest
count_accepted f (_ ∷ rest) = count_accepted f rest

abbrev pub accounted : Serving → ℕ
accounted s = weight s.out + s.conn.dropped + length s.conn.buf

weight-append : (fs gs : List Frame) → weight (fs ++ gs) ≡ weight fs + weight gs
unfolding weight
weight-append [] gs = omega arith
weight-append (connected ∷ fs) gs = weight-append fs gs
weight-append (heartbeat ∷ fs) gs = weight-append fs gs
weight-append (dropped_marker n ∷ fs) gs = omega (arith, weight-append fs gs)
weight-append (event_frame ev ∷ fs) gs = omega (arith, weight-append fs gs)

weight-event_frames : (evs : List Event) → weight (event_frames evs) ≡ length evs
unfolding weight event_frames
weight-event_frames [] = refl
weight-event_frames (ev ∷ evs) = omega (arith, weight-event_frames evs)

weight-frames_of : (evs : List Event) (n : ℕ) → weight (frames_of evs n) ≡ n + length evs
unfolding weight frames_of
weight-frames_of evs n = ground (arith, weight-event_frames evs)

-- One step.
act_accounts :
    (a : Action) (s t : Serving)
    → IsBounded s.conn
    → accounted s + 1 < 2 ^ 64
    → act a s ≡ some t
    → (accounted t ≡ accounted s + count_accepted s.conn.filter (a ∷ []))
      × IsBounded t.conn
      × (t.conn.filter ≡ s.conn.filter)
unfolding act count_accepted signal tick drain_round drain weight
act_accounts (pushed ev) s t b h e = ground (
  arith,
  h,
  e,
  b,
  store-counts ev s.conn b (omega (arith, h)),
  store-IsBounded ev s.conn b,
  store_keeps ev s.conn,
)
act_accounts signalled s t b h e = ground arith
act_accounts cancelled s t b h e = ground arith
act_accounts (ticked flushed) s t b h e = ground (arith, weight-append s.out (heartbeat ∷ []))
act_accounts woken s t b h e = ground arith
act_accounts (drained flushed) s t b h e = ground (
  arith,
  weight-append s.out (frames_of s.conn.buf s.conn.dropped),
  weight-frames_of s.conn.buf s.conn.dropped,
)

count_accepted-cons :
    (f : Option (Event → Bool)) (a : Action) (rest : List Action)
    → count_accepted f (a ∷ rest) ≡ count_accepted f (a ∷ []) + count_accepted f rest
unfolding count_accepted
count_accepted-cons f a rest = ground arith

-- From a connection whose buffer is within a positive bound, and where all the events together do not
-- pass 64 bits: however pushes interleave with the loop that serves the connection, each accepted
-- event is written, counted by a written marker, counted as dropped for the next marker, or still in
-- the buffer.
pub run_accounts :
    (actions : List Action) (s t : Serving)
    → IsBounded s.conn
    → accounted s + count_accepted s.conn.filter actions + 1 < 2 ^ 64
    → run actions s ≡ some t
    → accounted t ≡ accounted s + count_accepted s.conn.filter actions
unfolding run count_accepted
run_accounts [] s t b h e = ground (arith, e)
run_accounts (a ∷ rest) s t b h e = elim (Option-cases (act a s)) [
  | inl stuck ↦ ground (arith, stuck, e)
  | inr (u, to) ↦
      let split = count_accepted-cons s.conn.filter a rest in
      let first = act_accounts a s u b (omega (arith, h)) to in
      let later =
        run_accounts rest u t first.1 (ground (arith, first, split, h)) (ground (arith, to, e)) in
      ground (arith, first, split, later)
]
