-- ===== src/Prelude/Float.antt =====
-- Go's float64 as far as the services use it: a type with the operations that the code applies.
-- The checker has no floats, so the type and its operations are a parameter of the models.
use Prim.Native.Nat.{ℕ, ◌+◌, ◌-◌, ◌*◌, ◌/◌}
use mathlib.Core.Bool.{Bool}
use aether_edit.Prelude.Tests.{ltb, leb}

pub record Float : Type 1 where
  pub F : Type 0
  pub of_nat : ℕ → F
  pub add : F → F → F
  pub sub : F → F → F
  pub mul : F → F → F
  pub div : F → F → F
  -- `a < b`
  pub lt : F → F → Bool
  -- `a <= b`
  pub le : F → F → Bool

-- Whole numbers in the place of floats, at which the tests run the code.
abbrev pub whole : Float
whole = record {
  F = ℕ;
  of_nat = λ n. n;
  add = λ a b. a + b;
  sub = λ a b. a - b;
  mul = λ a b. a * b;
  div = λ a b. a / b;
  lt = λ a b. ltb a b;
  le = λ a b. leb a b;
}
