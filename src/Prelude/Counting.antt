-- ===== src/Prelude/Counting.antt =====
-- How the statements on a table change the number of the rows that pass a test.
use Prim.Native.Nat.{◌+◌, ◌≤◌}
use mathlib.Core.Bool.{Bool, true, false, ◌&&◌}
use mathlib.Core.Path.{◌≡◌, refl}
use mathlib.Core.Option.{none, some}
use mathlib.Core.List.{List, [], ◌∷◌, ◌++◌}
use native.Mathlib.Omega.{arith}
use aether_edit.Prelude.Tests.{if◌then◌else◌}
use aether_edit.Prelude.Table.{select_first, count_where, update_where, delete_where}

module _ {A : Type 0} where
  abbrev pub both : (A → Bool) → (A → Bool) → A → Bool
  both p q a = p a && q a

  pub count_where-both :
      (p q : A → Bool) (xs : List A) → count_where (both p q) xs ≤ count_where p xs
  unfolding count_where
  count_where-both p q [] = omega arith
  count_where-both p q (x ∷ xs) = ground (arith, count_where-both p q xs)

  -- An update takes from the rows that pass a test at most those that it changes.
  pub count_where-update_where :
      (p q : A → Bool) (f : A → A) (xs : List A)
      → count_where q xs ≤ count_where q (update_where p f xs) + count_where (both p q) xs
  unfolding count_where update_where
  count_where-update_where p q f [] = omega arith
  count_where-update_where p q f (x ∷ xs) = ground (arith, count_where-update_where p q f xs)

  -- An update that the test does not see.
  pub count_where-update_where_same :
      (p q : A → Bool) (f : A → A) (xs : List A)
      → ((x : A) → q (f x) ≡ q x)
      → count_where q (update_where p f xs) ≡ count_where q xs
  unfolding count_where update_where
  count_where-update_where_same p q f [] h = refl
  count_where-update_where_same p q f (x ∷ xs) h =
      let hx = h x in ground (arith, hx, count_where-update_where_same p q f xs h)

  -- An update whose new rows all pass.
  pub count_where-update_where_gain :
      (p q : A → Bool) (f : A → A) (xs : List A)
      → ((x : A) → p x ≡ true → q (f x) ≡ true)
      → count_where q xs ≤ count_where q (update_where p f xs)
  unfolding count_where update_where
  count_where-update_where_gain p q f [] h = omega arith
  count_where-update_where_gain p q f (x ∷ xs) h =
      let hx = h x in ground (arith, hx, count_where-update_where_gain p q f xs h)

  -- A deletion takes exactly the rows that pass both tests.
  pub count_where-delete_where :
      (p q : A → Bool) (xs : List A)
      → count_where q (delete_where p xs) + count_where (both p q) xs ≡ count_where q xs
  unfolding count_where delete_where
  count_where-delete_where p q [] = refl
  count_where-delete_where p q (x ∷ xs) = ground (arith, count_where-delete_where p q xs)

  -- Of the only row, the first one tells.
  pub count_where-select_first :
      (p q : A → Bool) (xs : List A) (x : A)
      → count_where p xs ≤ 1
      → select_first p xs ≡ some x
      → q x ≡ false
      → count_where (both p q) xs ≡ 0
  unfolding count_where select_first
  count_where-select_first p q [] x one e no_q = ground (arith, e)
  count_where-select_first p q (y ∷ ys) x one e no_q =
      let ih = count_where-select_first p q ys x in
      ground (arith, ih, one, e, no_q, count_where-both p q ys)

  pub count_where_none :
      (p : A → Bool) (xs : List A) → ((x : A) → p x ≡ false) → count_where p xs ≡ 0
  unfolding count_where
  count_where_none p [] h = refl
  count_where_none p (x ∷ xs) h = let hx = h x in ground (arith, hx, count_where_none p xs h)

  pub count_where-append :
      (p : A → Bool) (xs : List A) (y : A)
      → count_where p (xs ++ y ∷ []) ≡ count_where p xs + (if p y then 1 else 0)
  unfolding count_where
  count_where-append p [] y = ground arith
  count_where-append p (x ∷ xs) y = ground (arith, count_where-append p xs y)

  pub count_where-select_first-none :
      (p : A → Bool) (xs : List A) → select_first p xs ≡ none → count_where p xs ≡ 0
  unfolding count_where select_first
  count_where-select_first-none p [] h = refl
  count_where-select_first-none p (x ∷ xs) h = ground (arith, h, count_where-select_first-none p xs)

  -- An update whose new rows do not pass takes exactly the rows that pass both tests.
  pub count_where-update_where_loss :
      (p q : A → Bool) (f : A → A) (xs : List A)
      → ((x : A) → q (f x) ≡ false)
      → count_where q (update_where p f xs) + count_where (both p q) xs ≡ count_where q xs
  unfolding count_where update_where
  count_where-update_where_loss p q f [] h = refl
  count_where-update_where_loss p q f (x ∷ xs) h =
      let hx = h x in ground (arith, hx, count_where-update_where_loss p q f xs h)

  -- A row that is found counts.
  pub count_where-select_first-some :
      (p q : A → Bool) (xs : List A) (x : A)
      → select_first p xs ≡ some x
      → q x ≡ true
      → 1 ≤ count_where q xs
  unfolding count_where select_first
  count_where-select_first-some p q [] x e h = ground (arith, e)
  count_where-select_first-some p q (y ∷ ys) x e h =
      ground (arith, e, h, count_where-select_first-some p q ys x)

  pub count_where_le :
      (p q : A → Bool) (xs : List A)
      → ((x : A) → p x ≡ true → q x ≡ true)
      → count_where p xs ≤ count_where q xs
  unfolding count_where
  count_where_le p q [] h = omega arith
  count_where_le p q (x ∷ xs) h = let hx = h x in ground (arith, hx, count_where_le p q xs h)
