-- ===== src/Upload/Traffic.antt =====
-- services/upload/backpressure.go: the gauge under any interleaving of chunk requests. Each one that is
-- admitted holds its bytes until it ends, and then releases the same number.
use aether_edit.Prelude.{ℕ, zero, suc, ◌+◌, ◌≤◌, ◌≡◌, List, [], ◌∷◌, arith, if◌then◌else◌}
use aether_edit.Upload.Gauge.{Gauge, try_acquire, release}

-- A request arrives with n bytes, or the k-th of those that hold bytes ends.
pub data Event : Type 0 where
  arrive depart : ℕ → Event

-- The gauge, and the bytes that the admitted requests hold.
pub record Traffic : Type 0 where
  pub gauge : Gauge
  pub held : List ℕ

unfoldable pub total : List ℕ → ℕ
total [] = 0
total (n ∷ ns) = n + total ns

unfoldable pub nth : ℕ → List ℕ → ℕ
nth k [] = 0
nth zero (n ∷ ns) = n
nth (suc k) (n ∷ ns) = nth k ns

unfoldable pub without : ℕ → List ℕ → List ℕ
without k [] = []
without zero (n ∷ ns) = ns
without (suc k) (n ∷ ns) = n ∷ without k ns

unfoldable pub turn : Event → Traffic → Traffic
turn (arrive n) t =
    let (taken, g) = try_acquire n t.gauge in
    if taken then record { gauge = g; held = n ∷ t.held } else record t { gauge = g }
turn (depart k) t = record { gauge = release (nth k t.held) t.gauge; held = without k t.held }

unfoldable pub run : List Event → Traffic → Traffic
run [] t = t
run (e ∷ es) t = run es (turn e t)

total-without : (k : ℕ) (ns : List ℕ) → total (without k ns) + nth k ns ≡ total ns
unfolding total without nth
total-without k [] = omega arith
total-without zero (n ∷ ns) = omega arith
total-without (suc k) (n ∷ ns) = omega (arith, total-without k ns)

pub record IsBounded (t : Traffic) : Type 0 where
  pub counted : t.gauge.current ≡ total t.held
  pub below : t.gauge.current ≤ t.gauge.ceiling

turn-IsBounded : (e : Event) (t : Traffic) → IsBounded t → IsBounded (turn e t)
unfolding turn try_acquire release total
turn-IsBounded (arrive n) t b = ground arith
turn-IsBounded (depart k) t b = ground (arith, total-without k t.held)

-- Under any interleaving of arriving and ending chunk requests, from a gauge that counts what is held
-- and is below its ceiling: the gauge is always the sum of the bytes held, and never passes the
-- ceiling.
pub run-IsBounded : (es : List Event) (t : Traffic) → IsBounded t → IsBounded (run es t)
unfolding run
run-IsBounded [] t b = b
run-IsBounded (e ∷ es) t b = run-IsBounded es (turn e t) (turn-IsBounded e t b)
