-- ===== src/Prelude/Table.antt =====
-- SQL statements over a table that is the list of its rows.
use Prim.Native.Nat.{ℕ, suc}
use mathlib.Core.Bool.{Bool}
use mathlib.Core.Option.{Option, none, some}
use mathlib.Core.List.{List, [], ◌∷◌}
use aether_edit.Prelude.Tests.{if◌then◌else◌}

-- `UPDATE … SET f WHERE p`, over any table.
unfoldable pub update_where {ℓ} : {A : Type ℓ} → (A → Bool) → (A → A) → List A → List A
update_where p f [] = []
update_where p f (r ∷ rs) = (if p r then f r else r) ∷ update_where p f rs

-- `SELECT … WHERE p`, the first row.
unfoldable pub select_first {ℓ} : {A : Type ℓ} → (A → Bool) → List A → Option A
select_first p [] = none
select_first p (r ∷ rs) = if p r then some r else select_first p rs

unfoldable pub select_all {ℓ} : {A : Type ℓ} → (A → Bool) → List A → List A
select_all p [] = []
select_all p (r ∷ rs) = if p r then r ∷ select_all p rs else select_all p rs

-- `SELECT count(*) … WHERE p`.
unfoldable pub count_where {ℓ} : {A : Type ℓ} → (A → Bool) → List A → ℕ
count_where p [] = 0
count_where p (r ∷ rs) = if p r then suc (count_where p rs) else count_where p rs

-- `DELETE … WHERE p`
unfoldable pub delete_where {ℓ} : {A : Type ℓ} → (A → Bool) → List A → List A
delete_where p [] = []
delete_where p (r ∷ rs) = if p r then delete_where p rs else r ∷ delete_where p rs
