-- ===== src/Upload/Shift.antt =====
-- services/upload/backpressure.go: the shift of `Deny` wraps round, and the cap makes up for it.
use Prim.Native.Nat.{◌∣◌}
use native.Mathlib.Nat.{
  pow-zero, pow-suc, mul-one, mul_assoc, mod-eq_of_lt, dvd-mul_left, dvd-mul_right, dvd-mod_iff,
  le_of_dvd, dvd-mul_left_of_dvd, mod-eq-zero_of_dvd, mul-le-mul_left, mul-le-mul_right, mul-le-mul,
  one-le-pow,
}
use aether_edit.Prelude.{
  ℕ, zero, suc, ◌+◌, ◌-◌, ◌*◌, ◌%◌, ◌^◌, ◌≤◌, ◌<◌, ◌≡◌, sym, ap, ◌∙◌, subst, arith, ltb,
  if◌then◌else◌, inl, inr, ◌⊎◌, String, str_eq, lt→ltb,
}
use aether_edit.Prelude.Assoc.{insert, lookup-insert}
use aether_edit.Upload.Gauge.{Backoff, level_of, shift, delay, deny}

pow-add : (m n : ℕ) → 2 ^ (m + n) ≡ 2 ^ m * 2 ^ n
pow-add m zero = rw (pow-zero, mul-one) (ap (λ (k : ℕ). 2 ^ k) (omega arith))
pow-add m (suc n) =
    let e : m + suc n ≡ suc (m + n) = omega arith in
    rw (e, pow-suc, pow-suc, pow-add m n) (mul_assoc (2 ^ m) (2 ^ n) 2)

split : (a b : ℕ) → (a < b) ⊎ (b ≤ a)
split a b = grind arith

-- A value below 2 ^ 63 is not changed.
shift_small : (base level : ℕ) → base * 2 ^ level < 2 ^ 63 → shift base level ≡ base * 2 ^ level
unfolding shift
shift_small base level h = mod-eq_of_lt (omega arith)

-- A wrapped value keeps the factors of two that the base and the shift have.
divides : (odd e k : ℕ) → e + k ≡ 64 → (2 ^ e) ∣ (odd * 2 ^ e % 2 ^ 64)
divides odd e k h =
    (dvd-mod_iff (2 ^ e) (
        subst (λ m. (2 ^ e) ∣ m) (sym (pow-add e k) ∙ ap (λ (n : ℕ). 2 ^ n) h)
          (dvd-mul_right (2 ^ e) (2 ^ k)))).1
      (dvd-mul_left (2 ^ e) odd)

vanishes : (odd e k : ℕ) → e ≡ 64 + k → odd * 2 ^ e % 2 ^ 64 ≡ 0
vanishes odd e k h = mod-eq-zero_of_dvd (2 ^ 64) (
    subst (λ m. (2 ^ 64) ∣ (odd * m)) (sym (ap (λ (n : ℕ). 2 ^ n) h ∙ pow-add 64 k))
      (dvd-mul_left_of_dvd (2 ^ 64) (dvd-mul_right (2 ^ 64) (2 ^ k)) odd))

-- A wrapped value is zero, negative, or past the cap.
past_cap :
    (odd max e v : ℕ)
    → v ≡ odd * 2 ^ e % 2 ^ 64
    → odd * max < 2 ^ 63
    → 2 ^ 63 ≤ odd * 2 ^ e
    → (v ≡ 0) ⊎ (max < v)
past_cap odd max e v def small big = elim (split e 64) [
  | inr le ↦ inl (def ∙ vanishes odd e (e - 64) (omega arith))
  | inl lt ↦ elim (split 0 v) [
    | inr z ↦ inl (omega arith)
    | inl p ↦
        let d =
          le_of_dvd p (subst (λ m. (2 ^ e) ∣ m) (sym def) (divides odd e (64 - e) (omega arith))) in
        elim (split max (2 ^ e)) [
          | inl h ↦ inr (omega arith)
          | inr h ↦ absurd (omega (arith, mul-le-mul_left odd h))
        ]
  ]
]

delay_wrapped :
    (base max level : ℕ)
    → (shift base level ≡ 0) ⊎ (max < shift base level)
    → delay base max level ≡ max
unfolding delay
delay_wrapped base max level h = ground arith

delay_exact :
    (base max level : ℕ)
    → 0 < shift base level
    → shift base level < 2 ^ 63
    → delay base max level ≡ (if ltb max (shift base level) then max else shift base level)
unfolding delay
delay_exact base max level p q = ground arith

regroup : (odd j level : ℕ) → odd * 2 ^ j * 2 ^ level ≡ odd * 2 ^ (j + level)
regroup odd j level = mul_assoc odd (2 ^ j) (2 ^ level) ∙ ap (λ m. odd * m) (sym (pow-add j level))

shift_lem : (odd j level : ℕ) → shift (odd * 2 ^ j) level ≡ odd * 2 ^ (j + level) % 2 ^ 64
unfolding shift
shift_lem odd j level = ap (λ n. n % 2 ^ 64) (regroup odd j level)

delay_lem :
    (odd j max level : ℕ)
    → 0 < odd
    → odd * max < 2 ^ 63
    → delay (odd * 2 ^ j) max level
      ≡ (if ltb max (odd * 2 ^ j * 2 ^ level) then max else odd * 2 ^ j * 2 ^ level)
delay_lem odd j max level p small = elim (split (odd * 2 ^ j * 2 ^ level) (2 ^ 63)) [
  | inl lt ↦
      let e = shift_small (odd * 2 ^ j) level lt in
      let pos =
        mul-le-mul (mul-le-mul p (one-le-pow j 2 (omega arith)))
          (one-le-pow level 2 (omega arith)) in
      rw (← e) (delay_exact (odd * 2 ^ j) max level (omega (arith, e, pos)) (omega (arith, e)))
  | inr le ↦
      let big : 2 ^ 63 ≤ odd * 2 ^ (j + level) = rw (← regroup odd j level) le in
      let low : max < odd * 2 ^ j * 2 ^ level = omega (arith, mul-le-mul_right max p) in
      rw (lt→ltb _ _ low) (
        delay_wrapped (odd * 2 ^ j) max level (
          past_cap odd max (j + level) (shift (odd * 2 ^ j) level) (shift_lem odd j level) small
            big))
]

level-insert :
    (id k : String) (n : ℕ) (b : Backoff)
    → level_of k (record b { levels = insert id n b.levels })
      ≡ (if str_eq id k then n else level_of k b)
level-insert id k n b = ground (arith, lookup-insert id k n b.levels)

-- Where the base is an odd number times a power of two and that odd number times the cap is below
-- 2 ^ 63, a denial's delay is the base doubled once for each denial since the last reset, up to the
-- cap, also where the shift wraps round; it counts one more denial for this session, and none for
-- the others.
pub deny_lem :
    (id : String) (b : Backoff) (odd j : ℕ)
    → b.base ≡ odd * 2 ^ j
    → 0 < odd
    → odd * b.max < 2 ^ 63
    → ((deny id b).0
        ≡ (if ltb b.max (b.base * 2 ^ level_of id b) then b.max else b.base * 2 ^ level_of id b))
      × ((k : String)
          → level_of k (deny id b).1 ≡ (if str_eq id k then level_of id b + 1 else level_of k b))
unfolding deny
deny_lem id b odd j e p small = (
  rw e (delay_lem odd j b.max (level_of id b) p small),
  λ k. level-insert id k (level_of id b + 1) b,
)
