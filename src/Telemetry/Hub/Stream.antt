-- ===== src/Telemetry/Hub/Stream.antt =====
-- services/telemetry/internal/hub/hub.go: `ServeConn` beside the pushes that reach its connection. A
-- run is any interleaving of their steps. A frame is a text that is written to the response; a flush
-- that fails, or the end of the request's context, closes the stream.
use aether_edit.Prelude.{
  ℕ, ◌+◌, ◌-◌, ◌≡◌, inl, inr, Bool, true, false, ◌&&◌, ◌||◌, Option, none, some, List, [], ◌∷◌,
  ◌++◌, arith, ltb, ◌==◌, if◌then◌else◌, Option-cases, length,
}
use aether_edit.Telemetry.Hub.{Event, Conn, accepts, store, signal, drain}

pub data Frame : Type 0 where
  connected heartbeat : Frame
  dropped_marker : ℕ → Frame
  event_frame : Event → Frame

pub data Phase : Type 0 where
  waiting draining closed : Phase

-- The connection, what the loop does, what it has written, and the pushes that are past their mutex
-- and have not signalled yet.
pub record Serving : Type 0 where
  pub conn : Conn
  pub phase : Phase
  pub out : List Frame
  pub unsignalled : ℕ

-- A push up to the end of its mutex, and its signal; then the cases of the `select`, and one round of
-- the inner loop. A Boolean says whether the flush succeeds.
pub data Action : Type 0 where
  pushed : Event → Action
  signalled cancelled woken : Action
  ticked drained : Bool → Action

unfoldable pub event_frames : List Event → List Frame
event_frames [] = []
event_frames (ev ∷ evs) = event_frame ev ∷ event_frames evs

-- What a drain is written as.
unfoldable pub frames_of : List Event → ℕ → List Frame
unfolding event_frames
frames_of evs dropped =
    if ltb 0 dropped then dropped_marker dropped ∷ event_frames evs else event_frames evs

abbrev pub after_flush : Bool → Phase → Phase
after_flush flushed p = if flushed then p else closed

-- `case <-ticker.C`
unfoldable pub tick : Bool → Serving → Serving
tick flushed s = record s { out = s.out ++ heartbeat ∷ []; phase = after_flush flushed waiting }

-- A round of the inner loop: it goes back to the `select` where nothing is pending.
unfoldable pub drain_round : Bool → Serving → Serving
unfolding drain frames_of
drain_round flushed s =
    let ((evs, dropped), c) = drain s.conn in
    if dropped == 0 && length evs == 0 then record s { conn = c; phase = waiting } else record s {
      conn = c;
      out = s.out ++ frames_of evs dropped;
      phase = after_flush flushed draining;
    }

-- The step of an action; `none` where it cannot be taken.
unfoldable pub act : Action → Serving → Option Serving
unfolding accepts store signal tick drain_round
act (pushed ev) s = some (
    if accepts s.conn.filter ev
    then record s { conn = store ev s.conn; unsignalled = s.unsignalled + 1 }
    else s)
act signalled s =
    if s.unsignalled == 0
    then none
    else some (record s { conn = signal s.conn; unsignalled = s.unsignalled - 1 })
act cancelled s = elim s.phase [ waiting ↦ some (record s { phase = closed }) | _ ↦ none ]
act (ticked flushed) s = elim s.phase [ waiting ↦ some (tick flushed s) | _ ↦ none ]
act woken s = elim s.phase [
  | waiting ↦
      (if s.conn.notify
        then some (record s { conn = record s.conn { notify = false }; phase = draining })
        else none)
  | _ ↦ none
]
act (drained flushed) s = elim s.phase [ draining ↦ some (drain_round flushed s) | _ ↦ none ]

unfoldable pub run : List Action → Serving → Option Serving
run [] s = some s
run (a ∷ rest) s = elim (act a s) [ none ↦ none | some t ↦ run rest t ]

-- `ServeConn` at its first `select`.
unfoldable pub serve : Conn → Serving
serve c = record { conn = c; phase = waiting; out = connected ∷ []; unsignalled = 0 }

-- Whether nothing waits for the loop, or the loop will look.
unfoldable pub is_awake : Serving → Bool
is_awake s = elim s.phase [
  | waiting ↦
      s.conn.dropped == 0 && length s.conn.buf == 0 || (s.conn.notify || ltb 0 s.unsignalled)
  | _ ↦ true
]

act-is_awake :
    (a : Action) (s t : Serving) → is_awake s ≡ true → act a s ≡ some t → is_awake t ≡ true
unfolding is_awake act signal tick drain_round drain
act-is_awake (pushed ev) s t h e = ground arith
act-is_awake signalled s t h e = ground arith
act-is_awake cancelled s t h e = ground arith
act-is_awake (ticked flushed) s t h e = ground arith
act-is_awake woken s t h e = ground arith
act-is_awake (drained flushed) s t h e = ground arith

-- However pushes interleave with the loop that serves a connection, no wake-up is lost: whenever the
-- loop waits, nothing is buffered or dropped, or a signal is in the channel or on its way.
pub run-is_awake :
    (actions : List Action) (s t : Serving)
    → is_awake s ≡ true
    → run actions s ≡ some t
    → is_awake t ≡ true
unfolding run
run-is_awake [] s t h e = ground (arith, h)
run-is_awake (a ∷ rest) s t h e = elim (Option-cases (act a s)) [
  | inl stuck ↦ ground (arith, stuck, e)
  | inr (u, to) ↦ run-is_awake rest u t (act-is_awake a s u h to) (ground (arith, to, e))
]
