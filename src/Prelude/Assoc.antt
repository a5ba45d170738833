-- ===== src/Prelude/Assoc.antt =====
-- A Go map with string keys, and a table with a text primary key, as an association list.
-- Each key occurs once (`HasKey` and `IsNodup` say so); `insert` overwrites in place.
use aether_edit.Prelude.Tests.{if◌then◌else◌}
use Prim.Native.Nat.{ℕ, suc, ◌+◌}
use Prim.Native.String.{String}
use mathlib.Core.Path.{◌≡◌, refl}
use mathlib.Core.Logic.{◌≢◌}
use mathlib.Core.Bool.{Bool}
use mathlib.Core.Option.{Option, none, some}
use mathlib.Core.List.{List, [], ◌∷◌}
use native.Mathlib.Omega.{arith}
use text.Mathlib.Text.{◌==◌ as str_eq}
use text.Mathlib.TextEquality.{eq_iff}

abbrev pub Assoc {ℓ} : Type ℓ → Type ℓ
Assoc V = List (String × V)

module _ {ℓ} {V : Type ℓ} where
  -- `m[key]`, with `none` where Go's second result is false.
  unfoldable pub lookup : String → Assoc V → Option V
  lookup key [] = none
  lookup key ((name, x) ∷ rest) = if str_eq name key then some x else lookup key rest

  -- `delete(m, key)`
  unfoldable pub delete : String → Assoc V → Assoc V
  delete key [] = []
  delete key ((name, x) ∷ rest) = if str_eq name key then rest else (name, x) ∷ delete key rest

  -- `m[key] = value`
  unfoldable pub insert : String → V → Assoc V → Assoc V
  insert key value [] = (key, value) ∷ []
  insert key value ((name, x) ∷ rest) =
      if str_eq name key then (key, value) ∷ rest else (name, x) ∷ insert key value rest

  pub lookup-insert :
      (key asked : String) (value : V) (table : Assoc V)
      → lookup asked (insert key value table)
        ≡ (if str_eq key asked then some value else lookup asked table)
  unfolding lookup insert
  lookup-insert key asked value [] = refl
  lookup-insert key asked value ((name, x) ∷ rest) = ground (
    arith,
    lookup-insert key asked value rest,
    eq_iff name asked,
    eq_iff name key,
    eq_iff key asked,
  )

  pub lookup-delete_ne : (k j : String) (m : Assoc V) → k ≢ j → lookup j (delete k m) ≡ lookup j m
  unfolding lookup delete
  lookup-delete_ne k j [] ne = refl
  lookup-delete_ne k j ((i, w) ∷ m) ne =
      ground (arith, eq_iff i k, eq_iff i j, lookup-delete_ne k j m ne)

  -- No key occurs twice.
  abbrev pub IsNodup : Assoc V → Type ℓ
  IsNodup [] = Unit
  IsNodup ((k, v) ∷ m) = (lookup k m ≡ none) × IsNodup m

  pub lookup-delete_self : (k : String) (m : Assoc V) → IsNodup m → lookup k (delete k m) ≡ none
  unfolding lookup delete
  lookup-delete_self k [] h = refl
  lookup-delete_self k ((i, w) ∷ m) h = ground (arith, eq_iff i k, lookup-delete_self k m h.1)

  pub insert-IsNodup : (k : String) (v : V) (m : Assoc V) → IsNodup m → IsNodup (insert k v m)
  unfolding lookup insert
  insert-IsNodup k v [] h = (refl, tt)
  insert-IsNodup k v ((i, w) ∷ m) h =
      ground (arith, eq_iff i k, eq_iff k i, lookup-insert k i v m, insert-IsNodup k v m h.1)

  pub lookup-delete-none :
      (k j : String) (m : Assoc V) → lookup j m ≡ none → lookup j (delete k m) ≡ none
  unfolding lookup delete
  lookup-delete-none k j [] h = refl
  lookup-delete-none k j ((i, w) ∷ m) h = ground (arith, lookup-delete-none k j m)

  pub delete-IsNodup : (k : String) (m : Assoc V) → IsNodup m → IsNodup (delete k m)
  unfolding delete
  delete-IsNodup k [] h = tt
  delete-IsNodup k ((i, w) ∷ m) h =
      ground (arith, lookup-delete-none k i m h.0, delete-IsNodup k m h.1)

  -- How many values pass the test.
  unfoldable pub count_by : (V → Bool) → Assoc V → ℕ
  count_by p [] = 0
  count_by p ((k, v) ∷ m) = if p v then suc (count_by p m) else count_by p m

  -- 1 if there is a value and it passes the test.
  abbrev pub one_if : (V → Bool) → Option V → ℕ
  one_if p none = 0
  one_if p (some v) = if p v then 1 else 0

  pub count_by-insert :
      (p : V → Bool) (k : String) (v : V) (m : Assoc V)
      → count_by p (insert k v m) + one_if p (lookup k m) ≡ count_by p m + one_if p (some v)
  unfolding count_by insert lookup
  count_by-insert p k v [] = ground arith
  count_by-insert p k v ((i, w) ∷ m) = ground (arith, count_by-insert p k v m)

  pub count_by-delete :
      (p : V → Bool) (k : String) (m : Assoc V)
      → count_by p (delete k m) + one_if p (lookup k m) ≡ count_by p m
  unfolding count_by delete lookup
  count_by-delete p k [] = ground arith
  count_by-delete p k ((i, w) ∷ m) = ground (arith, count_by-delete p k m)
