-- ===== src/Prelude/Selecting.antt =====
-- How the statements on a table change the first row that passes a test.
use mathlib.Core.Bool.{Bool, true}
use mathlib.Core.Path.{◌≡◌, subst}
use mathlib.Core.Option.{some}
use mathlib.Core.Logic.{inl, inr}
use mathlib.Core.List.{List, [], ◌∷◌, ◌++◌}
use native.Mathlib.Omega.{arith}
use aether_edit.Prelude.Tests.{if◌then◌else◌, Bool-cases}
use aether_edit.Prelude.Table.{select_first, update_where}

module _ {A : Type 0} where
  pub select_first-append :
      (p : A → Bool) (xs ys : List A) (x : A)
      → select_first p xs ≡ some x
      → select_first p (xs ++ ys) ≡ some x
  unfolding select_first
  select_first-append p [] ys x h = ground (arith, h)
  select_first-append p (y ∷ xs) ys x h = ground (arith, h, select_first-append p xs ys x)

  -- An update that the test does not see.
  pub select_first-update_where :
      (p q : A → Bool) (f : A → A) (xs : List A) (x : A)
      → ((y : A) → p (f y) ≡ p y)
      → select_first p xs ≡ some x
      → select_first p (update_where q f xs) ≡ some (if q x then f x else x)
  unfolding select_first update_where
  select_first-update_where p q f [] x same h = ground (arith, h)
  select_first-update_where p q f (y ∷ xs) x same h =
      let s = same y in ground (arith, h, s, select_first-update_where p q f xs x same)

  -- What is found passes.
  pub select_first_lem :
      (p : A → Bool) (xs : List A) (x : A) → select_first p xs ≡ some x → p x ≡ true
  unfolding select_first
  select_first_lem p [] x h = ground (arith, h)
  select_first_lem p (y ∷ xs) x h = elim (Bool-cases (p y)) [
    | inl e ↦ let same : y ≡ x = ground (arith, h, e) in subst (λ z. p z ≡ true) same e
    | inr e ↦ select_first_lem p xs x (ground (arith, h, e))
  ]
