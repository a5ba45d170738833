-- ===== src/Telemetry/Hub/Buffer.antt =====
-- services/telemetry/internal/hub/hub.go: what a buffer holds after any sequence of events.
use aether_edit.Prelude.{
  ℕ, suc, ◌+◌, ◌-◌, ◌%◌, ◌^◌, ◌≤◌, ◌<◌, ◌≡◌, refl, sym, ap, ◌∙◌, ◌⊎◌, inl, inr, Bool, Option, List,
  [], ◌∷◌, ◌++◌, arith, if◌then◌else◌, Bool-cases, length, length-append, length-drop, drop,
}
use aether_edit.Telemetry.Hub.{Event, Conn, accepts, drop_oldest, store, signal, push, push_all}

-- The events that pass the filter, in order.
unfoldable pub accepted : Option (Event → Bool) → List Event → List Event
unfolding accepts
accepted f [] = []
accepted f (ev ∷ evs) = if accepts f ev then ev ∷ accepted f evs else accepted f evs

-- The last n of a list.
unfoldable pub latest : ℕ → List Event → List Event
latest n evs = drop (length evs - n) evs

-- The buffer is within its bound, and the bound is positive.
pub record IsBounded (c : Conn) : Type 0 where
  pub positive : 1 ≤ c.max
  pub within : length c.buf ≤ c.max

pub wrap_small : (n : ℕ) → n < 2 ^ 64 → n % 2 ^ 64 ≡ n
wrap_small n h = omega arith

pub store-IsBounded : (ev : Event) (c : Conn) → IsBounded c → IsBounded (store ev c)
unfolding store drop_oldest
store-IsBounded ev c b = ground (
  arith,
  length-append c.buf (ev ∷ []),
  length-append (drop 1 c.buf) (ev ∷ []),
  length-drop 1 c.buf,
)

pub store_keeps :
    (ev : Event) (c : Conn) → ((store ev c).filter ≡ c.filter) × ((store ev c).max ≡ c.max)
unfolding store drop_oldest
store_keeps ev c = ground arith

signal_stored-IsBounded : (ev : Event) (c : Conn) → IsBounded c → IsBounded (signal (store ev c))
unfolding signal
signal_stored-IsBounded ev c b = ground (arith, store-IsBounded ev c b)

append_nil : (xs : List Event) → xs ++ [] ≡ xs
append_nil [] = refl
append_nil (x ∷ xs) = ap (λ l. x ∷ l) (append_nil xs)

pub push-IsBounded : (ev : Event) (c : Conn) → IsBounded c → IsBounded (push ev c)
unfolding push signal
push-IsBounded ev c b = ground (arith, store-IsBounded ev c b)

append_assoc : (xs ys zs : List Event) → (xs ++ ys) ++ zs ≡ xs ++ (ys ++ zs)
append_assoc [] ys zs = refl
append_assoc (x ∷ xs) ys zs = ap (λ l. x ∷ l) (append_assoc xs ys zs)

-- Where more follows than there is room for, the first element does not matter.
latest_rest :
    (n : ℕ) (x : Event) (xs : List Event) → n ≤ length xs → latest n (x ∷ xs) ≡ latest n xs
unfolding latest
latest_rest n x xs h =
    let more : suc (length xs) - n ≡ suc (length xs - n) = omega (arith, h) in
    ap (λ k. drop k (x ∷ xs)) more

-- An event that finds room goes to the end; one that does not pushes the oldest out.
store_cases :
    (ev : Event) (c : Conn)
    → IsBounded c
    → c.dropped + 1 < 2 ^ 64
    → ((suc (length c.buf) ≤ c.max)
        × ((store ev c).buf ≡ c.buf ++ ev ∷ [])
        × ((store ev c).dropped ≡ c.dropped))
      ⊎ ((length c.buf ≡ c.max)
          × ((store ev c).buf ≡ drop 1 c.buf ++ ev ∷ [])
          × ((store ev c).dropped ≡ c.dropped + 1))
unfolding store drop_oldest
store_cases ev c b h = ground (arith, wrap_small (c.dropped + 1) h)

full_latest :
    (n : ℕ) (ev : Event) (xs evs : List Event)
    → 1 ≤ n
    → length xs ≡ n
    → latest n ((drop 1 xs ++ ev ∷ []) ++ evs) ≡ latest n (xs ++ ev ∷ evs)
full_latest n ev [] evs p h = absurd (omega (arith, p, h))
full_latest n ev (x ∷ xs) evs p h =
    ap (latest n) (append_assoc xs (ev ∷ []) evs)
    ∙ sym (latest_rest n x (xs ++ ev ∷ evs) (omega (arith, h, length-append xs (ev ∷ evs))))

store-latest :
    (ev : Event) (c : Conn) (evs : List Event)
    → IsBounded c
    → c.dropped + 1 < 2 ^ 64
    → latest c.max ((store ev c).buf ++ evs) ≡ latest c.max (c.buf ++ ev ∷ evs)
store-latest ev c evs b h = elim (store_cases ev c b h) [
  | inl (room, e, d) ↦ ap (latest c.max) (ap (λ l. l ++ evs) e ∙ append_assoc c.buf (ev ∷ []) evs)
  | inr (full, e, d) ↦
      ap (λ l. latest c.max (l ++ evs)) e ∙ full_latest c.max ev c.buf evs b.positive full
]

-- What is counted and what is held grow together.
pub store-counts :
    (ev : Event) (c : Conn)
    → IsBounded c
    → c.dropped + 1 < 2 ^ 64
    → (store ev c).dropped + length (store ev c).buf ≡ suc (c.dropped + length c.buf)
store-counts ev c b h = ground (
  arith,
  store_cases ev c b h,
  length-append c.buf (ev ∷ []),
  length-append (drop 1 c.buf) (ev ∷ []),
  length-drop 1 c.buf,
)

latest_all : (n : ℕ) (xs : List Event) → length xs ≤ n → latest n xs ≡ xs
unfolding latest
latest_all n xs h =
    let none_over : length xs - n ≡ 0 = omega (arith, h) in ap (λ k. drop k xs) none_over

-- A connection whose buffer is within a positive bound, and whose counter does not pass 64 bits: after
-- any events are pushed, its buffer holds the latest ones that were there or passed the filter, as
-- many as the bound allows, in their order; and the counter has grown by the number of the others.
pub push_all-latest :
    (evs : List Event) (c : Conn)
    → IsBounded c
    → c.dropped + length c.buf + length (accepted c.filter evs) < 2 ^ 64
    → ((push_all evs c).buf ≡ latest c.max (c.buf ++ accepted c.filter evs))
      × ((push_all evs c).dropped + length (push_all evs c).buf
          ≡ c.dropped + length c.buf + length (accepted c.filter evs))
unfolding push_all accepted push signal
push_all-latest [] c b h = ground (arith, append_nil c.buf, latest_all c.max c.buf b.within)
push_all-latest (ev ∷ evs) c b h = elim (Bool-cases (accepts c.filter ev)) [
  | inl taken ↦
      let ih =
        push_all-latest evs (signal (store ev c)) (signal_stored-IsBounded ev c b)
          (ground (arith, taken, h, store-counts ev c b (ground arith), store_keeps ev c)) in
      ground (
        arith,
        taken,
        ih,
        store_keeps ev c,
        store-latest ev c (accepted c.filter evs) b (ground arith),
        store-counts ev c b (ground arith),
      )
  | inr refused ↦
      let ih = push_all-latest evs c b (ground (arith, refused, h)) in ground (arith, refused, ih)
]
