-- ===== src/Store/Consistent.antt =====
-- The columns of a jobs row agree with its state, after any run of the statements of
-- services/orchestrator/internal/store/store.go.
use aether_edit.Prelude.{
  ℕ, ◌≤◌, String, ◌≡◌, refl, inl, inr, Bool, true, false, ◌||◌, Option, none, some, List, [], ◌∷◌,
  ◌++◌, arith, if◌then◌else◌, Option-cases, Result,
}
use aether_edit.Prelude.Float.{Float}
use aether_edit.Jobs.{
  queued, running, is_running, is_completed, is_failed, valid_state, ErrorClass, valid_error_class,
  OutputProgress, internal, Job,
}
use aether_edit.Store.{
  StoreError, new_row, create_job, claimed, claim_next_queued, oldest_queued, same_id,
  completed_with, failed_with, requeued,
}
use aether_edit.Prelude.Table.{update_where, select_first}
use aether_edit.Store.Rows.{All, UniqueIds, All-rows, map_All, running_of, right_of}
use aether_edit.Store.Claim.{claim_target}
use aether_edit.Store.Keys.{apply-UniqueIds}
use aether_edit.Store.Ops.{Op, create, claim, progress, complete, fail, retry, cancel, apply, run}

abbrev pub is_some {ℓ} : {A : Type ℓ} → Option A → Bool
is_some none = false
is_some (some _) = true

-- A class, where there is one, is of the taxonomy.
abbrev pub known_class : Option ErrorClass → Bool
known_class none = true
known_class (some c) = valid_error_class c

internal_known : valid_error_class internal ≡ true
unfolding valid_error_class
internal_known = refl

module _ {fl : Float} where
  pub record IsConsistent (j : Job fl) : Type 0 where
    pub state_known : valid_state j.state ≡ true
    pub class_when_failed : is_some j.error_class ≡ is_failed j.state
    pub class_known : known_class j.error_class ≡ true
    pub finished_at_end : is_some j.finished_at ≡ (is_completed j.state || is_failed j.state)
    pub queued_not_started : j.state ≡ queued → j.started_at ≡ none
    pub started_when_run :
        (is_running j.state || is_completed j.state) ≡ true
        → (is_some j.started_at ≡ true) × (1 ≤ j.attempts)

  new-IsConsistent : (id : String) (now : ℕ) (j : Job fl) → IsConsistent (new_row id now j)
  unfolding valid_state
  new-IsConsistent id now j = ground arith

  claimed-IsConsistent :
      (now : ℕ) (j : Job fl) → j.state ≡ queued → IsConsistent j → IsConsistent (claimed now j)
  unfolding valid_state
  claimed-IsConsistent now j q v = ground arith

  completed-IsConsistent :
      (now : ℕ) (o : List (OutputProgress fl)) (j : Job fl)
      → j.state ≡ running
      → IsConsistent j
      → IsConsistent (completed_with now o j)
  unfolding valid_state
  completed-IsConsistent now o j q v = ground arith

  failed-IsConsistent :
      (now : ℕ) (c : ErrorClass) (msg : String) (j : Job fl)
      → valid_error_class c ≡ true
      → IsConsistent j
      → IsConsistent (failed_with now c msg j)
  unfolding valid_state
  failed-IsConsistent now c msg j k v = ground arith

  requeued-IsConsistent : (now : ℕ) (j : Job fl) → IsConsistent j → IsConsistent (requeued now j)
  unfolding valid_state
  requeued-IsConsistent now j v = ground arith

  progress-IsConsistent :
      (pct fps speed eta : fl.F) (o : List (OutputProgress fl)) (j : Job fl)
      → IsConsistent j
      → IsConsistent (record j {
        progress_pct = pct;
        fps = fps;
        speed_x = speed;
        eta_seconds = eta;
        outputs = o;
      })
  progress-IsConsistent pct fps speed eta o j v = ground arith

  update_where-All :
      (P : Job fl → Type 0) (p : Job fl → Bool) (f : Job fl → Job fl) (rows : List (Job fl))
      → All P rows
      → All (λ j. p j ≡ true → P j → P (f j)) rows
      → All P (update_where p f rows)
  unfolding update_where
  update_where-All P p f [] v h = tt
  update_where-All P p f (j ∷ rows) v h =
      (if-P (p j) (λ e. h.0 e v.0), update_where-All P p f rows v.1 h.1)
    where
      if-P : (b : Bool) → (b ≡ true → P (f j)) → P (if b then f j else j)
      if-P true k = k refl
      if-P false k = v.0

  append-All :
      (P : Job fl → Type 0) (rows : List (Job fl)) (k : Job fl)
      → All P rows
      → P k
      → All P (rows ++ k ∷ [])
  append-All P [] k v h = (h, tt)
  append-All P (j ∷ rows) k v h = (v.0, append-All P rows k v.1 h)

  create-Consistent :
      (id : String) (now : ℕ) (j : Job fl) (rows : List (Job fl))
      → All IsConsistent rows
      → All IsConsistent (create_job id now j rows).1
  unfolding create_job
  create-Consistent id now j rows v = elim (Option-cases (select_first (same_id id) rows)) [
    | inl e ↦
        rw (e, create_job)
          (append-All IsConsistent rows (new_row id now j) v (new-IsConsistent id now j))
    | inr (k, e) ↦ rw (e, create_job) v
  ]

  claim-Consistent :
      (now : ℕ) (rows : List (Job fl))
      → UniqueIds rows
      → All IsConsistent rows
      → All IsConsistent (claim_next_queued now rows).1
  unfolding claim_next_queued
  claim-Consistent now rows u v = elim (Option-cases (oldest_queued rows)) [
    | inl e ↦ rw (e, claim_next_queued) v
    | inr (k, e) ↦
        rw (e, claim_next_queued)
          (update_where-All IsConsistent (same_id k.id) (claimed now) rows v
            (map_All (λ j h t. claimed-IsConsistent now j (h t)) rows (claim_target rows k u e)))
  ]

  fail-Consistent :
      (b : Bool) (x : Result StoreError (Job fl)) (rows : List (Job fl))
      (upd : Result StoreError (Job fl) × List (Job fl))
      → All IsConsistent rows
      → (b ≡ true → All IsConsistent upd.1)
      → All IsConsistent (if b then upd else (x, rows)).1
  fail-Consistent true x rows upd v h = h refl
  fail-Consistent false x rows upd v h = v

  apply-Consistent :
      (op : Op fl) (rows : List (Job fl))
      → UniqueIds rows
      → All IsConsistent rows
      → All IsConsistent (apply op rows)
  unfolding apply
  apply-Consistent (create id now j) rows u v = create-Consistent id now j rows v
  apply-Consistent (claim now) rows u v = claim-Consistent now rows u v
  apply-Consistent (progress id pct fps speed eta o) rows u v =
      update_where-All IsConsistent _ _ rows v
        (All-rows (λ j h. progress-IsConsistent pct fps speed eta o j) rows)
  apply-Consistent (complete id now o) rows u v =
      update_where-All IsConsistent _ _ rows v (
        All-rows (λ j h. completed-IsConsistent now o j (running_of j.state (right_of _ _ h))) rows)
  apply-Consistent (fail id now c msg) rows u v =
      fail-Consistent (valid_error_class c) _ rows _ v (λ k.
        update_where-All IsConsistent _ _ rows v
          (All-rows (λ j h. failed-IsConsistent now c msg j k) rows))
  apply-Consistent (retry ws id now) rows u v =
      update_where-All IsConsistent _ _ rows v (All-rows (λ j h. requeued-IsConsistent now j) rows)
  apply-Consistent (cancel ws id now) rows u v =
      update_where-All IsConsistent _ _ rows v (
        All-rows (λ j h. failed-IsConsistent now internal "canceled by user" j internal_known) rows)

  from_IsConsistent :
      (ops : List (Op fl)) (rows : List (Job fl))
      → UniqueIds rows
      → All IsConsistent rows
      → UniqueIds (run ops rows) × All IsConsistent (run ops rows)
  unfolding run
  from_IsConsistent [] rows u v = (u, v)
  from_IsConsistent (op ∷ ops) rows u v =
      from_IsConsistent ops (apply op rows) (apply-UniqueIds op rows u)
        (apply-Consistent op rows u v)

  -- From the empty table, whatever statements run in whatever order: ids stay unique, and in every
  -- row the state is one of the four, there is an error class exactly in a failed one and it is of
  -- the taxonomy, there is a finish time exactly in a completed or failed one, a queued one has no
  -- start time, and a running or completed one has a start time and at least one attempt.
  pub run-IsConsistent :
      (ops : List (Op fl)) → UniqueIds (run ops []) × All IsConsistent (run ops [])
  run-IsConsistent ops = from_IsConsistent ops [] tt tt
