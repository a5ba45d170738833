-- ===== src/Store/Keys.antt =====
-- The primary key of the jobs table of services/orchestrator/internal/store/store.go is kept.
use aether_edit.Prelude.{
  ℕ, String, ◌≡◌, refl, sym, subst, ◌≢◌, inl, inr, Bool, true, false, none, List, [], ◌∷◌, ◌++◌,
  arith, eq_iff, if◌then◌else◌, Option-cases, Result,
}
use aether_edit.Prelude.Float.{Float}
use aether_edit.Jobs.{valid_error_class, Job}
use aether_edit.Store.{StoreError, same_id, new_row, create_job, claim_next_queued, oldest_queued}
use aether_edit.Prelude.Table.{update_where, select_first}
use aether_edit.Store.Rows.{All, UniqueIds}
use aether_edit.Store.Ops.{Op, create, claim, progress, complete, fail, retry, cancel, apply}

module _ {fl : Float} where
  others-update :
      (p : Job fl → Bool) (f : Job fl → Job fl) (id : String)
      → ((j : Job fl) → (f j).id ≡ j.id)
      → (rows : List (Job fl)) → All (λ k. k.id ≢ id) rows
      → All (λ k. k.id ≢ id) (update_where p f rows)
  unfolding update_where
  others-update p f id keep [] h = tt
  others-update p f id keep (j ∷ rows) h =
      (ground (arith, keep j, h.0), others-update p f id keep rows h.1)

  if-id :
      (b : Bool) (f : Job fl → Job fl) (j : Job fl)
      → (f j).id ≡ j.id
      → (if b then f j else j).id ≡ j.id
  if-id true f j h = h
  if-id false f j h = refl

  update-UniqueIds :
      (p : Job fl → Bool) (f : Job fl → Job fl)
      → ((j : Job fl) → (f j).id ≡ j.id)
      → (rows : List (Job fl)) → UniqueIds rows
      → UniqueIds (update_where p f rows)
  unfolding update_where
  update-UniqueIds p f keep [] u = tt
  update-UniqueIds p f keep (j ∷ rows) u = (
    subst (λ id. All (λ k. k.id ≢ id) (update_where p f rows)) (sym (if-id (p j) f j (keep j)))
        (others-update p f j.id keep rows u.0),
    update-UniqueIds p f keep rows u.1,
  )

  absent :
      (id : String) (rows : List (Job fl))
      → select_first (same_id id) rows ≡ none
      → All (λ k. k.id ≢ id) rows
  unfolding select_first
  absent id [] h = tt
  absent id (j ∷ rows) h = ground (arith, eq_iff j.id id, absent id rows)

  others-append :
      (id : String) (rows : List (Job fl)) (k : Job fl)
      → All (λ j. j.id ≢ id) rows
      → k.id ≢ id
      → All (λ j. j.id ≢ id) (rows ++ k ∷ [])
  others-append id [] k h ne = (ne, tt)
  others-append id (j ∷ rows) k h ne = (h.0, others-append id rows k h.1 ne)

  append-UniqueIds :
      (rows : List (Job fl)) (k : Job fl)
      → UniqueIds rows
      → All (λ j. j.id ≢ k.id) rows
      → UniqueIds (rows ++ k ∷ [])
  append-UniqueIds [] k u h = (tt, tt)
  append-UniqueIds (j ∷ rows) k u h =
      (others-append j.id rows k u.0 (λ e. h.0 (sym e)), append-UniqueIds rows k u.1 h.1)

  create-UniqueIds :
      (id : String) (now : ℕ) (j : Job fl) (rows : List (Job fl))
      → UniqueIds rows
      → UniqueIds (create_job id now j rows).1
  unfolding create_job
  create-UniqueIds id now j rows u = elim (Option-cases (select_first (same_id id) rows)) [
    | inl e ↦ rw (e, create_job) (append-UniqueIds rows (new_row id now j) u (absent id rows e))
    | inr (k, e) ↦ rw (e, create_job) u
  ]

  claim-UniqueIds :
      (now : ℕ) (rows : List (Job fl)) → UniqueIds rows → UniqueIds (claim_next_queued now rows).1
  unfolding claim_next_queued
  claim-UniqueIds now rows u = elim (Option-cases (oldest_queued rows)) [
    | inl e ↦ rw (e, claim_next_queued) u
    | inr (k, e) ↦ rw (e, claim_next_queued) (update-UniqueIds _ _ (λ j. refl) rows u)
  ]

  if-UniqueIds :
      (b : Bool) (x : Result StoreError (Job fl)) (rows : List (Job fl))
      (upd : Result StoreError (Job fl) × List (Job fl))
      → UniqueIds rows
      → UniqueIds upd.1
      → UniqueIds (if b then upd else (x, rows)).1
  if-UniqueIds true x rows upd u v = v
  if-UniqueIds false x rows upd u v = u

  pub apply-UniqueIds :
      (op : Op fl) (rows : List (Job fl)) → UniqueIds rows → UniqueIds (apply op rows)
  unfolding apply
  apply-UniqueIds (create id now j) rows u = create-UniqueIds id now j rows u
  apply-UniqueIds (claim now) rows u = claim-UniqueIds now rows u
  apply-UniqueIds (fail id now c msg) rows u =
      if-UniqueIds (valid_error_class c) _ rows _ u (update-UniqueIds _ _ (λ j. refl) rows u)
  apply-UniqueIds (progress id pct fps speed eta o) rows u = update-UniqueIds _ _ (λ j. refl) rows u
  apply-UniqueIds (complete id now o) rows u = update-UniqueIds _ _ (λ j. refl) rows u
  apply-UniqueIds (retry ws id now) rows u = update-UniqueIds _ _ (λ j. refl) rows u
  apply-UniqueIds (cancel ws id now) rows u = update-UniqueIds _ _ (λ j. refl) rows u
