-- ===== src/Store/Moves.antt =====
-- The guards in the SQL of services/orchestrator/internal/store/store.go against the transition
-- table of jobs/job.go: what any run of statements can do to the table.
use aether_edit.Prelude.{
  ℕ, zero, suc, String, ◌≡◌, refl, ap, ◌∙◌, subst, inl, inr, Bool, true, false, some, List, [], ◌∷◌,
  ◌++◌, if◌then◌else◌, Option-cases, get_elem?, Result,
}
use aether_edit.Prelude.Float.{Float}
use aether_edit.Jobs.{queued, completed, internal, Job, valid_error_class}
use aether_edit.Store.{
  StoreError, same_id, new_row, create_job, claimed, claim_next_queued, oldest_queued,
}
use aether_edit.Prelude.Table.{update_where, select_first}
use aether_edit.Store.Rows.{
  All, UniqueIds, Moved, Moved-refl, if-Moved, All-rows, map_All, claimed-Moved, completed-Moved,
  failed-Moved, requeued-Moved, progress-Moved, running_of, failed_of, right_of, active_of_queued,
}
use aether_edit.Store.Claim.{claim_target}
use aether_edit.Store.Keys.{apply-UniqueIds}
use aether_edit.Store.Ops.{Op, create, claim, progress, complete, fail, retry, cancel, apply, run}

module _ {fl : Float} where
  -- Row by row; rows past the end of the old table are new, and queued.
  abbrev pub Evolved : List (Job fl) → List (Job fl) → Type 0
  Evolved [] [] = Unit
  Evolved [] (k ∷ ks) = (k.state ≡ queued) × (k.attempts ≡ 0) × Evolved [] ks
  Evolved (j ∷ js) [] = ⊥
  Evolved (j ∷ js) (k ∷ ks) = Moved j k × Evolved js ks

  update_where-Evolved :
      (p : Job fl → Bool) (f : Job fl → Job fl) (rows : List (Job fl))
      → All (λ j. p j ≡ true → Moved j (f j)) rows
      → Evolved rows (update_where p f rows)
  unfolding update_where
  update_where-Evolved p f [] h = tt
  update_where-Evolved p f (j ∷ rows) h =
      (if-Moved (p j) j (f j) h.0, update_where-Evolved p f rows h.1)

  append-Evolved :
      (rows : List (Job fl)) (k : Job fl)
      → k.state ≡ queued
      → k.attempts ≡ 0
      → Evolved rows (rows ++ k ∷ [])
  append-Evolved [] k h a = (h, a, tt)
  append-Evolved (j ∷ rows) k h a = (Moved-refl j, append-Evolved rows k h a)

  Evolved-refl : (rows : List (Job fl)) → Evolved rows rows
  Evolved-refl [] = tt
  Evolved-refl (j ∷ rows) = (Moved-refl j, Evolved-refl rows)

  create-Evolved :
      (id : String) (now : ℕ) (j : Job fl) (rows : List (Job fl))
      → Evolved rows (create_job id now j rows).1
  unfolding create_job
  create-Evolved id now j rows = elim (Option-cases (select_first (same_id id) rows)) [
    | inl e ↦ rw (e, create_job) (append-Evolved rows (new_row id now j) refl refl)
    | inr (k, e) ↦ rw (e, create_job) (Evolved-refl rows)
  ]

  claim-Evolved :
      (now : ℕ) (rows : List (Job fl))
      → UniqueIds rows
      → Evolved rows (claim_next_queued now rows).1
  unfolding claim_next_queued
  claim-Evolved now rows u = elim (Option-cases (oldest_queued rows)) [
    | inl e ↦ rw (e, claim_next_queued) (Evolved-refl rows)
    | inr (k, e) ↦
        rw (e, claim_next_queued)
          (update_where-Evolved (same_id k.id) (claimed now) rows
            (map_All (λ j h t. claimed-Moved now j (h t)) rows (claim_target rows k u e)))
  ]

  if-Evolved :
      (b : Bool) (x : Result StoreError (Job fl)) (rows : List (Job fl))
      (upd : Result StoreError (Job fl) × List (Job fl))
      → Evolved rows upd.1
      → Evolved rows (if b then upd else (x, rows)).1
  if-Evolved true x rows upd h = h
  if-Evolved false x rows upd h = Evolved-refl rows

  -- One statement, on a table with its primary key: every row stays in its state or makes a move
  -- of the transition table, its attempts grow by one exactly on a claim, a completed row is left
  -- as it was, and the only new row is a queued one with no attempts.
  pub apply-Evolved :
      (op : Op fl) (rows : List (Job fl)) → UniqueIds rows → Evolved rows (apply op rows)
  unfolding apply
  apply-Evolved (create id now j) rows u = create-Evolved id now j rows
  apply-Evolved (claim now) rows u = claim-Evolved now rows u
  apply-Evolved (progress id pct fps speed eta o) rows u = update_where-Evolved _ _ rows (
      All-rows (λ j h. progress-Moved pct fps speed eta o j (running_of j.state (right_of _ _ h)))
        rows)
  apply-Evolved (complete id now o) rows u =
      update_where-Evolved _ _ rows
        (All-rows (λ j h. completed-Moved now o j (running_of j.state (right_of _ _ h))) rows)
  apply-Evolved (fail id now c msg) rows u = if-Evolved (valid_error_class c) _ rows _ (
      update_where-Evolved _ _ rows
        (All-rows (λ j h. failed-Moved now c msg j (right_of _ _ h)) rows))
  apply-Evolved (retry ws id now) rows u =
      update_where-Evolved _ _ rows
        (All-rows (λ j h. requeued-Moved now j (failed_of j.state (right_of _ _ h))) rows)
  apply-Evolved (cancel ws id now) rows u = update_where-Evolved _ _ rows (
      All-rows
        (λ j h.
          failed-Moved now internal "canceled by user" j
            (active_of_queued j.state (right_of _ _ h)))
        rows)

  head_eq : (r j : Job fl) → some r ≡ some j → r ≡ j
  head_eq r j h = cc

  row_at :
      (i : ℕ) (rows rows' : List (Job fl)) (j : Job fl)
      → Evolved rows rows'
      → get_elem? rows i ≡ some j
      → (k : Job fl) × (get_elem? rows' i ≡ some k) × Moved j k
  row_at i [] rows' j e h = cc
  row_at zero (r ∷ rows) [] j e h = elim e [ ]
  row_at (suc i) (r ∷ rows) [] j e h = elim e [ ]
  row_at zero (r ∷ rows) (k ∷ rows') j e h = (k, refl, subst (λ m. Moved m k) (head_eq r j h) e.0)
  row_at (suc i) (r ∷ rows) (k ∷ rows') j e h = row_at i rows rows' j e.1 h

  -- Whatever statements run, in whatever order, on a table with its primary key, a completed job
  -- keeps its place in the table and every one of its columns.
  pub run-completed :
      (ops : List (Op fl)) (rows : List (Job fl)) (i : ℕ) (j : Job fl)
      → UniqueIds rows
      → get_elem? rows i ≡ some j
      → j.state ≡ completed
      → get_elem? (run ops rows) i ≡ some j
  unfolding run
  run-completed [] rows i j u h c = h
  run-completed (op ∷ ops) rows i j u h c =
      let (k, at, moved) = row_at i rows (apply op rows) j (apply-Evolved op rows u) h in
      run-completed ops (apply op rows) i j (apply-UniqueIds op rows u)
        (at ∙ ap some (moved.frozen c)) c
