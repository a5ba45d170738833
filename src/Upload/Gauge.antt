-- ===== src/Upload/Gauge.antt =====
-- services/upload/backpressure.go: the gauge of bytes in flight and the backoff director. A method
-- is one atomic step: `TryAcquire` takes effect at its successful compare-and-swap, and the director
-- holds its mutex.
use aether_edit.Prelude.{
  ℕ, ◌+◌, ◌-◌, ◌*◌, ◌%◌, ◌^◌, String, Bool, true, false, ◌||◌, none, some, ltb, leb, ◌==◌,
  if◌then◌else◌,
}
use aether_edit.Prelude.Assoc.{Assoc, lookup, insert, delete}

-- `InflightGauge`
pub record Gauge : Type 0 where
  pub ceiling : ℕ
  pub current : ℕ

-- `TryAcquire`
unfoldable pub try_acquire : ℕ → Gauge → Bool × Gauge
try_acquire n g =
    if ltb g.ceiling (g.current + n)
    then (false, g)
    else (true, record g { current = g.current + n })

-- `Release`. A caller gives back what it acquired, so the difference is exact.
unfoldable pub release : ℕ → Gauge → Gauge
release n g = record g { current = g.current - n }

-- `BackoffDirector`, with its durations in nanoseconds.
pub record Backoff : Type 0 where
  pub levels : Assoc ℕ
  pub base : ℕ
  pub max : ℕ

abbrev pub level_of : String → Backoff → ℕ
level_of id b = elim (lookup id b.levels) [ none ↦ 0 | some n ↦ n ]

-- `base << uint(level)` as the 64 bits of a `time.Duration`; from 2 ^ 63 on they are negative.
unfoldable pub shift : ℕ → ℕ → ℕ
shift base level = (base * 2 ^ level) % 2 ^ 64

-- The delay: `d > max || d <= 0` takes the cap.
unfoldable pub delay : ℕ → ℕ → ℕ → ℕ
unfolding shift
delay base max level =
    let d = shift base level in if ltb max d || (d == 0 || leb (2 ^ 63) d) then max else d

-- `Deny`
unfoldable pub deny : String → Backoff → ℕ × Backoff
unfolding delay lookup insert
deny id b = (
  delay b.base b.max (level_of id b),
  record b { levels = insert id (level_of id b + 1) b.levels },
)

-- `Reset`
unfoldable pub reset : String → Backoff → Backoff
unfolding delete
reset id b = record b { levels = delete id b.levels }
