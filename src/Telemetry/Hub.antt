-- ===== src/Telemetry/Hub.antt =====
-- services/telemetry/internal/hub/hub.go: the connections with their bounded buffers, the hub, and
-- the loop that serves a connection. A method is one atomic step, since it holds its mutex, except
-- `push`, whose signal follows after the connection's mutex is released.
pub mod Buffer
pub mod Stream
pub mod Account
pub mod Fanout
use aether_edit.Prelude.{
  ℕ, zero, suc, ◌+◌, ◌-◌, ◌*◌, ◌/◌, ◌%◌, ◌^◌, ◌≤◌, ◌<◌, String, ◌≡◌, refl, sym, ap, ◌∙◌, subst, ◌≢◌,
  ◌↔◌, ◌⊎◌, inl, inr, Bool, true, false, not, ◌&&◌, ◌||◌, Option, none, some, List, [], ◌∷◌, ◌++◌,
  map, arith, str_eq, eq_iff, ltb, leb, ◌==◌, if◌then◌else◌, ltb→lt, lt→ltb, leb→le, ==_iff, tests,
  Bool-cases, Option-cases, length, get_elem?, set, length-append, get_or, take, drop, replicate,
  Result, ok, err, ◌>>=◌, ◌>>◌, guard,
}
use aether_edit.Prelude.Assoc.{Assoc, insert}

-- `Event`, with the field Data as `content`.
pub record Event : Type 0 where
  pub name : String
  pub content : List ℕ
  pub tag : String

-- `Conn`. The channel `notify` has room for one signal. A nil filter is `none`.
pub record Conn : Type 0 where
  pub buf : List Event
  pub max : ℕ
  pub dropped : ℕ
  pub notify : Bool
  pub filter : Option (Event → Bool)

-- `c.filter == nil || c.filter(ev)`
unfoldable pub accepts : Option (Event → Bool) → Event → Bool
accepts none ev = true
accepts (some f) ev = f ev

-- The oldest event is dropped and counted, in 64 bits.
unfoldable pub drop_oldest : Conn → Conn
drop_oldest c = record c { buf = drop 1 c.buf; dropped = (c.dropped + 1) % 2 ^ 64 }

-- The part of `push` under the mutex.
unfoldable pub store : Event → Conn → Conn
unfolding drop_oldest
store ev c =
    let room = if leb c.max (length c.buf) then drop_oldest c else c in
    record room { buf = room.buf ++ ev ∷ [] }

-- The send to `notify`, which is lost where the channel is full.
unfoldable pub signal : Conn → Conn
signal c = record c { notify = true }

-- `push`
unfoldable pub push : Event → Conn → Conn
unfolding accepts store signal
push ev c = if accepts c.filter ev then signal (store ev c) else c

-- `Drain`
unfoldable pub drain : Conn → (List Event × ℕ) × Conn
drain c = ((c.buf, c.dropped), record c { buf = []; dropped = 0 })

-- A connection stands at its number, and is in the map `conns` while it is subscribed.
pub record Slot : Type 0 where
  pub conn : Conn
  pub subscribed : Bool

-- `Hub`
pub record Hub : Type 0 where
  pub slots : List Slot
  pub sticky : Assoc Event
  pub buf_size : ℕ

-- `New`, of a positive size or 1.
unfoldable pub new : ℕ → Hub
new size = record { slots = []; sticky = []; buf_size = if ltb size 1 then 1 else size }

unfoldable pub push_slot : Event → Slot → Slot
unfolding push
push_slot ev s = if s.subscribed then record s { conn = push ev s.conn } else s

-- `Publish`
unfoldable pub publish : Event → Hub → Hub
unfolding push_slot
publish ev h = record h { slots = map (push_slot ev) h.slots }

-- `PublishSticky`
unfoldable pub publish_sticky : Event → Hub → Hub
unfolding push_slot insert
publish_sticky ev h = record h {
  sticky = insert ev.name ev h.sticky;
  slots = map (push_slot ev) h.slots;
}

-- The events in the order of a loop.
unfoldable pub push_all : List Event → Conn → Conn
unfolding push
push_all [] c = c
push_all (ev ∷ evs) c = push_all evs (push ev c)

-- The event at position n, or the last one, comes first.
unfoldable pub bring : ℕ → List Event → List Event
bring n [] = []
bring zero (x ∷ xs) = x ∷ xs
bring (suc n) (x ∷ xs) = elim (bring n xs) [ [] ↦ x ∷ [] | y ∷ ys ↦ y ∷ x ∷ ys ]

-- The events in another order: the positions say which of those that are left comes next. Every
-- order in which Go ranges over a map is one of these.
unfoldable pub reorder : List ℕ → List Event → List Event
unfolding bring
reorder [] xs = xs
reorder (n ∷ ns) xs = elim (bring n xs) [ [] ↦ [] | y ∷ ys ↦ y ∷ reorder ns ys ]

-- The connection that `Subscribe` makes, with the events that it replays.
unfoldable pub opened : Option (Event → Bool) → List Event → ℕ → Conn
unfolding push_all
opened filter replay size =
    push_all replay (record { buf = []; max = size; dropped = 0; notify = false; filter = filter })

-- `h.sticky` in the order of a range.
unfoldable pub sticky_events : List ℕ → Hub → List Event
unfolding reorder
sticky_events order h = reorder order (map (λ e. e.1) h.sticky)

-- `Subscribe`: the hub with the connection in the last slot; `order` is the order of the range over
-- the sticky events.
unfoldable pub subscribe : Option (Event → Bool) → List ℕ → Hub → Hub
unfolding opened sticky_events
subscribe filter order h = record h {
  slots =
      h.slots
      ++ record { conn = opened filter (sticky_events order h) h.buf_size; subscribed = true } ∷ [];
}

unfoldable pub leave_slot : ℕ → List Slot → List Slot
leave_slot n [] = []
leave_slot zero (s ∷ ss) = record s { subscribed = false } ∷ ss
leave_slot (suc n) (s ∷ ss) = s ∷ leave_slot n ss

-- `Unsubscribe` of the connection with this number.
unfoldable pub unsubscribe : ℕ → Hub → Hub
unfolding leave_slot
unsubscribe n h = record h { slots = leave_slot n h.slots }
