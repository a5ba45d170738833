-- ===== src/Upload/Plan.antt =====
-- The chunk plan of services/upload/server.go: the count that `handleCreate` computes and the exact
-- sizes that `handlePutChunk` asks for make up the declared size.
use aether_edit.Prelude.{
  ℕ, zero, suc, ◌+◌, ◌-◌, ◌*◌, ◌/◌, ◌%◌, ◌≤◌, ◌<◌, ◌≡◌, refl, sym, arith, ◌==◌, Bool-cases, inl,
  inr, ap, ==_iff,
}
use aether_edit.Prelude.Int.{pos, pos_part}
use aether_edit.Upload.{Session}
use aether_edit.Upload.Create.{chunk_count}
use aether_edit.Upload.Put.{expected_size}
use native.Mathlib.Nat.{div-add-mod, mod-lt}

-- The bytes of the first n chunks.
unfoldable pub bytes_of : Session → ℕ → ℕ
bytes_of s zero = 0
bytes_of s (suc n) = bytes_of s n + pos_part (expected_size s n)

ceiling_of :
    (size chunk q r : ℕ)
    → chunk * q + r ≡ size + chunk - 1
    → r < chunk
    → 0 < size
    → (1 ≤ q) × (chunk * (q - 1) < size) × (size ≤ chunk * q)
ceiling_of size chunk zero r e h p = absurd (omega arith)
ceiling_of size chunk (suc k) r e h p = let d : suc k - 1 ≡ k = omega arith in rw d (omega arith)

-- The count is the least that holds the size.
pub count_bounds :
    (size chunk : ℕ)
    → 0 < size
    → 0 < chunk
    → (1 ≤ chunk_count size chunk)
      × (chunk * (chunk_count size chunk - 1) < size)
      × (size ≤ chunk * chunk_count size chunk)
unfolding chunk_count
count_bounds size chunk p q =
    ceiling_of size chunk ((size + chunk - 1) / chunk) ((size + chunk - 1) % chunk)
      (div-add-mod (size + chunk - 1) chunk) (mod-lt (size + chunk - 1) q) p

-- What a session must say for its plan to be that of `handleCreate`.
pub record IsPlanned (s : Session) : Type 0 where
  pub size_positive : 0 < s.size_bytes
  pub chunk_positive : 0 < s.chunk_size_bytes
  pub counted : s.chunk_count ≡ chunk_count s.size_bytes s.chunk_size_bytes

planned_bounds :
    (s : Session)
    → IsPlanned s
    → (1 ≤ s.chunk_count)
      × (s.chunk_size_bytes * (s.chunk_count - 1) < s.size_bytes)
      × (s.size_bytes ≤ s.chunk_size_bytes * s.chunk_count)
planned_bounds s v =
    rw v.counted (count_bounds s.size_bytes s.chunk_size_bytes v.size_positive v.chunk_positive)

full_chunk :
    (s : Session) (n : ℕ)
    → suc n < s.chunk_count
    → pos_part (expected_size s n) ≡ s.chunk_size_bytes
unfolding expected_size
full_chunk s n h = ground arith

last_chunk :
    (s : Session) (n : ℕ)
    → suc n ≡ s.chunk_count
    → s.chunk_size_bytes * n < s.size_bytes
    → expected_size s n ≡ pos (s.size_bytes - s.chunk_size_bytes * n)
unfolding expected_size
last_chunk s n h p = let e : s.chunk_count - 1 ≡ n = omega arith in rw (← h) (ground arith)

bytes_before : (s : Session) (n : ℕ) → n < s.chunk_count → bytes_of s n ≡ s.chunk_size_bytes * n
unfolding bytes_of
bytes_before s zero h = omega arith
bytes_before s (suc n) h = omega (arith, bytes_before s n (omega arith), full_chunk s n h)

times_bound :
    (c q n size : ℕ)
    → q ≡ suc n
    → c * (q - 1) < size
    → size ≤ c * q
    → (c * n < size) × (size ≤ c * n + c)
times_bound c zero n size e a b = absurd (omega arith)
times_bound c (suc k) n size e a b =
    let d : suc k - 1 ≡ k = omega arith in
    let a' = rw d at a in let e' : k ≡ n = omega arith in rw (← e') (omega arith)

bytes_upto :
    (s : Session) (n : ℕ)
    → suc n ≡ s.chunk_count
    → IsPlanned s
    → (bytes_of s (suc n) ≡ s.size_bytes)
      × (1 ≤ pos_part (expected_size s n))
      × (pos_part (expected_size s n) ≤ s.chunk_size_bytes)
unfolding bytes_of
bytes_upto s n h v =
    let b = planned_bounds s v in
    let t = times_bound s.chunk_size_bytes s.chunk_count n s.size_bytes (sym h) b.1 b.2 in
    let l = ap pos_part (last_chunk s n h t.0) in
    omega (arith, bytes_before s n (omega arith), l, t)

chunk_size_bounds :
    (s : Session) (n : ℕ)
    → IsPlanned s
    → n < s.chunk_count
    → (1 ≤ pos_part (expected_size s n)) × (pos_part (expected_size s n) ≤ s.chunk_size_bytes)
chunk_size_bounds s n v h = elim (Bool-cases (suc n == s.chunk_count)) [
  | inl last ↦ let b = bytes_upto s n ((==_iff _ _).0 last) v in (b.1, b.2)
  | inr more ↦
      let lt : suc n < s.chunk_count = ground arith in
      omega (arith, full_chunk s n lt, v.chunk_positive)
]

whole_size : (s : Session) (k : ℕ) → s.chunk_count ≡ k → IsPlanned s → bytes_of s k ≡ s.size_bytes
whole_size s zero e v = absurd (omega (arith, planned_bounds s v))
whole_size s (suc n) e v = (bytes_upto s n (sym e) v).0

-- The plan of a session whose size and chunk size are positive and whose count is computed from them
-- as on creation: the sizes that the chunks must have add up to the declared size, and each lies
-- between one byte and the chunk size.
pub plan_covers :
    (s : Session)
    → IsPlanned s
    → (bytes_of s s.chunk_count ≡ s.size_bytes)
      × ((n : ℕ)
          → n < s.chunk_count
          → (1 ≤ pos_part (expected_size s n))
            × (pos_part (expected_size s n) ≤ s.chunk_size_bytes))
plan_covers s v = (whole_size s s.chunk_count refl v, λ n h. chunk_size_bounds s n v h)
