-- ===== src/Telemetry/Hub/Fanout.antt =====
-- services/telemetry/internal/hub/hub.go: what the subscribers of a hub receive, whatever calls are
-- made.
use aether_edit.Prelude.{
  ℕ, zero, suc, ◌+◌, String, ◌≡◌, refl, ap, ◌∙◌, ◌≢◌, inl, inr, Bool, true, false, Option, some,
  List, [], ◌∷◌, ◌++◌, map, arith, str_eq, ◌==◌, if◌then◌else◌, Bool-cases, get_elem?,
}
use aether_edit.Prelude.Assoc.{lookup, lookup-insert}
use aether_edit.Telemetry.Hub.{
  Event, push, push_all, push_slot, Slot, Hub, publish, publish_sticky, subscribe, leave_slot,
  unsubscribe, bring, reorder, sticky_events,
}

-- The calls of a hub. A subscription brings its filter and the order of the range over the sticky events.
pub data HubCall : Type 0 where
  published published_sticky : Event → HubCall
  subscribed_with : Option (Event → Bool) → List ℕ → HubCall
  unsubscribed : ℕ → HubCall

unfoldable pub serve_call : HubCall → Hub → Hub
unfolding publish publish_sticky subscribe unsubscribe
serve_call (published ev) h = publish ev h
serve_call (published_sticky ev) h = publish_sticky ev h
serve_call (subscribed_with f order) h = subscribe f order h
serve_call (unsubscribed n) h = unsubscribe n h

unfoldable pub serve_calls : List HubCall → Hub → Hub
unfolding serve_call
serve_calls [] h = h
serve_calls (c ∷ cs) h = serve_calls cs (serve_call c h)

-- The events that the calls publish before connection n leaves.
unfoldable pub published_to : ℕ → List HubCall → List Event
published_to n [] = []
published_to n (published ev ∷ cs) = ev ∷ published_to n cs
published_to n (published_sticky ev ∷ cs) = ev ∷ published_to n cs
published_to n (subscribed_with f order ∷ cs) = published_to n cs
published_to n (unsubscribed m ∷ cs) = if m == n then [] else published_to n cs

-- The last sticky event of a name.
unfoldable pub last_sticky : String → List HubCall → Option Event → Option Event
last_sticky name [] before = before
last_sticky name (published_sticky ev ∷ cs) before =
    last_sticky name cs (if str_eq ev.name name then some ev else before)
last_sticky name (_ ∷ cs) before = last_sticky name cs before

get-map :
    (n : ℕ) (ev : Event) (ss : List Slot) (s : Slot)
    → get_elem? ss n ≡ some s
    → get_elem? (map (push_slot ev) ss) n ≡ some (push_slot ev s)
get-map n ev [] s h = ground arith
get-map zero ev (x ∷ ss) s h = ground arith
get-map (suc n) ev (x ∷ ss) s h = get-map n ev ss s h

get-append :
    (n : ℕ) (ss ts : List Slot) (s : Slot)
    → get_elem? ss n ≡ some s
    → get_elem? (ss ++ ts) n ≡ some s
get-append n [] ts s h = ground arith
get-append zero (x ∷ ss) ts s h = h
get-append (suc n) (x ∷ ss) ts s h = get-append n ss ts s h

get-leave_ne : (m n : ℕ) (ss : List Slot) → m ≢ n → get_elem? (leave_slot m ss) n ≡ get_elem? ss n
unfolding leave_slot
get-leave_ne m n [] h = refl
get-leave_ne zero zero (x ∷ ss) h = absurd (h refl)
get-leave_ne zero (suc n) (x ∷ ss) h = refl
get-leave_ne (suc m) zero (x ∷ ss) h = refl
get-leave_ne (suc m) (suc n) (x ∷ ss) h = get-leave_ne m n ss (λ e. h (ap suc e))

get-leave_self :
    (n : ℕ) (ss : List Slot) (s : Slot)
    → get_elem? ss n ≡ some s
    → get_elem? (leave_slot n ss) n ≡ some (record s { subscribed = false })
unfolding leave_slot
get-leave_self n [] s h = ground arith
get-leave_self zero (x ∷ ss) s h = ground arith
get-leave_self (suc n) (x ∷ ss) s h = get-leave_self n ss s h

-- What one call does to connection n.
unfoldable slot_after : ℕ → HubCall → Slot → Slot
slot_after n (published ev) s = push_slot ev s
slot_after n (published_sticky ev) s = push_slot ev s
slot_after n (subscribed_with f order) s = s
slot_after n (unsubscribed m) s = if m == n then record s { subscribed = false } else s

get-serve_call :
    (c : HubCall) (n : ℕ) (h : Hub) (s : Slot)
    → get_elem? h.slots n ≡ some s
    → get_elem? (serve_call c h).slots n ≡ some (slot_after n c s)
unfolding serve_call publish publish_sticky subscribe unsubscribe slot_after
get-serve_call (published ev) n h s e = get-map n ev h.slots s e
get-serve_call (published_sticky ev) n h s e = get-map n ev h.slots s e
get-serve_call (subscribed_with f order) n h s e = get-append n h.slots _ s e
get-serve_call (unsubscribed m) n h s e = elim (Bool-cases (m == n)) [
  | inl same ↦ grind (arith, same, get-leave_self n h.slots s e)
  | inr other ↦ ground (arith, other, e, get-leave_ne m n h.slots (ground arith))
]

stays_off :
    (c : HubCall) (n : ℕ) (s : Slot)
    → s.subscribed ≡ false
    → ((slot_after n c s).subscribed ≡ false) × ((slot_after n c s).conn ≡ s.conn)
unfolding slot_after push_slot
stays_off c n s off = ground arith

pushed_on :
    (ev : Event) (s : Slot)
    → s.subscribed ≡ true
    → ((push_slot ev s).subscribed ≡ true) × ((push_slot ev s).conn ≡ push ev s.conn)
unfolding push_slot
pushed_on ev s on = ground arith

-- A connection that has left gets nothing more.
left_alone :
    (cs : List HubCall) (n : ℕ) (h : Hub) (s : Slot)
    → get_elem? h.slots n ≡ some s
    → s.subscribed ≡ false
    → (t : Slot) × (get_elem? (serve_calls cs h).slots n ≡ some t) × (t.conn ≡ s.conn)
unfolding serve_calls
left_alone [] n h s e off = (s, e, refl)
left_alone (c ∷ cs) n h s e off =
    let (t, at, same) =
      left_alone cs n (serve_call c h) (slot_after n c s) (get-serve_call c n h s e)
        (stays_off c n s off).0 in
    (t, at, same ∙ (stays_off c n s off).1)

-- Whatever calls a hub serves, a connection that is subscribed gets every event that is published
-- until it leaves, in order and each once, and nothing after that.
pub serve_calls-reach :
    (cs : List HubCall) (n : ℕ) (h : Hub) (s : Slot)
    → get_elem? h.slots n ≡ some s
    → s.subscribed ≡ true
    → (t : Slot) × (get_elem? (serve_calls cs h).slots n ≡ some t)
      × (t.conn ≡ push_all (published_to n cs) s.conn)
unfolding serve_calls published_to push_all slot_after
serve_calls-reach [] n h s e on = (s, e, refl)
serve_calls-reach (published ev ∷ cs) n h s e on =
    let (t, at, same) =
      serve_calls-reach cs n (publish ev h) (push_slot ev s) (get-serve_call (published ev) n h s e)
        (pushed_on ev s on).0 in
    (t, at, same ∙ ap (push_all (published_to n cs)) (pushed_on ev s on).1)
serve_calls-reach (published_sticky ev ∷ cs) n h s e on =
    let (t, at, same) =
      serve_calls-reach cs n (publish_sticky ev h) (push_slot ev s)
        (get-serve_call (published_sticky ev) n h s e) (pushed_on ev s on).0 in
    (t, at, same ∙ ap (push_all (published_to n cs)) (pushed_on ev s on).1)
serve_calls-reach (subscribed_with f order ∷ cs) n h s e on =
    serve_calls-reach cs n (subscribe f order h) s
      (get-serve_call (subscribed_with f order) n h s e) on
serve_calls-reach (unsubscribed m ∷ cs) n h s e on = elim (Bool-cases (m == n)) [
  | inl same ↦
      let (t, at, eq) =
        left_alone cs n (unsubscribe m h) (slot_after n (unsubscribed m) s)
          (get-serve_call (unsubscribed m) n h s e) (ground (arith, same)) in
      (t, at, ground (arith, same, eq))
  | inr other ↦
      let (t, at, eq) =
        serve_calls-reach cs n (unsubscribe m h) (slot_after n (unsubscribed m) s)
          (get-serve_call (unsubscribed m) n h s e) (ground (arith, other, on)) in
      (t, at, ground (arith, other, eq))
]

-- Whatever calls a hub serves, the sticky event that it keeps for a name is the last one of that name
-- that was published as sticky.
pub serve_calls-sticky :
    (cs : List HubCall) (name : String) (h : Hub)
    → lookup name (serve_calls cs h).sticky ≡ last_sticky name cs (lookup name h.sticky)
unfolding serve_calls last_sticky publish publish_sticky subscribe unsubscribe
serve_calls-sticky [] name h = refl
serve_calls-sticky (published ev ∷ cs) name h = serve_calls-sticky cs name (publish ev h)
serve_calls-sticky (published_sticky ev ∷ cs) name h =
    serve_calls-sticky cs name (publish_sticky ev h)
    ∙ ap (last_sticky name cs) (lookup-insert ev.name name ev h.sticky)
serve_calls-sticky (subscribed_with f order ∷ cs) name h =
    serve_calls-sticky cs name (subscribe f order h)
serve_calls-sticky (unsubscribed m ∷ cs) name h = serve_calls-sticky cs name (unsubscribe m h)

-- How many events pass a test.
unfoldable count_events : (Event → Bool) → List Event → ℕ
count_events f [] = 0
count_events f (ev ∷ evs) = (if f ev then 1 else 0) + count_events f evs

bring_counts :
    (f : Event → Bool) (n : ℕ) (evs : List Event)
    → count_events f (bring n evs) ≡ count_events f evs
unfolding count_events bring
bring_counts f n [] = refl
bring_counts f zero (ev ∷ evs) = refl
bring_counts f (suc n) (ev ∷ evs) = ground (arith, bring_counts f n evs)

reorder_counts :
    (f : Event → Bool) (order : List ℕ) (evs : List Event)
    → count_events f (reorder order evs) ≡ count_events f evs
unfolding reorder count_events
reorder_counts f [] evs = refl
reorder_counts f (n ∷ order) evs =
    reordered (λ rest. reorder_counts f order rest) (bring n evs) (bring_counts f n evs)
  where
    reordered :
        ((rest : List Event) → count_events f (reorder order rest) ≡ count_events f rest)
        → (later : List Event) → count_events f later ≡ count_events f evs
        → count_events f (elim later [ [] ↦ [] | ev ∷ rest ↦ ev ∷ reorder order rest ])
          ≡ count_events f evs
    reordered ih [] h = h
    reordered ih (ev ∷ rest) h = ground (arith, h, ih rest)

-- What a new connection is replayed are the sticky events, each as often as the hub holds it,
-- whatever the order of the range.
sticky_events_lem :
    (f : Event → Bool) (order : List ℕ) (h : Hub)
    → count_events f (sticky_events order h) ≡ count_events f (map (λ e. e.1) h.sticky)
unfolding sticky_events
sticky_events_lem f order h = reorder_counts f order (map (λ e. e.1) h.sticky)
