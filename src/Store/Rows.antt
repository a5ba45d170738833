-- ===== src/Store/Rows.antt =====
-- What one statement of services/orchestrator/internal/store/store.go may do to one row, and that
-- each statement's SET clause does no more under its WHERE clause.
use aether_edit.Prelude.{
  ℕ, ◌+◌, String, ◌≡◌, refl, ◌≢◌, ◌⊎◌, inl, inr, Bool, true, false, ◌&&◌, List, [], ◌∷◌, arith,
  if◌then◌else◌,
}
use aether_edit.Prelude.Float.{Float}
use aether_edit.Jobs.{
  State, queued, running, completed, failed, is_queued, is_running, is_failed, OutputProgress,
  ErrorClass, Job,
}
use aether_edit.Jobs.Lifecycle
use aether_edit.Jobs.Lifecycle.{◌⟶◌}
use aether_edit.Store.{is_active, claimed, completed_with, failed_with, requeued}

abbrev pub All {ℓ} : {A : Type ℓ} → (A → Type 0) → List A → Type 0
All P [] = Unit
All P (x ∷ xs) = P x × All P xs

pub active_cases : (s : State) → is_active s ≡ true → (s ≡ queued) ⊎ (s ≡ running)
active_cases s h = ground arith

pub active_of_queued : (s : State) → is_queued s ≡ true → is_active s ≡ true
active_of_queued s h = ground arith

pub running_of : (s : State) → is_running s ≡ true → s ≡ running
running_of s h = ground arith

pub queued_of : (s : State) → is_queued s ≡ true → s ≡ queued
queued_of s h = ground arith

pub failed_of : (s : State) → is_failed s ≡ true → s ≡ failed
failed_of s h = ground arith

pub right_of : (a b : Bool) → (a && b) ≡ true → b ≡ true
right_of a b h = ground arith

module _ {fl : Float} where
  -- The primary key of the table.
  abbrev pub UniqueIds : List (Job fl) → Type 0
  UniqueIds [] = Unit
  UniqueIds (j ∷ rows) = All (λ k. k.id ≢ j.id) rows × UniqueIds rows

  -- What one statement may do to a row: stay in its state or make a legal move, count an attempt
  -- exactly on a claim, and never touch a completed row, nor what names the job.
  pub record Moved (j k : Job fl) : Type 0 where
    pub identity :
        (k.id ≡ j.id)
        × (k.workspace_id ≡ j.workspace_id)
        × (k.preset_id ≡ j.preset_id)
        × (k.source_object_key ≡ j.source_object_key)
    pub legal : (k.state ≡ j.state) ⊎ (j.state ⟶ k.state)
    pub attempts :
        k.attempts
        ≡ (if is_queued j.state && is_running k.state then j.attempts + 1 else j.attempts)
    pub frozen : j.state ≡ completed → k ≡ j

  pub Moved-refl : (j : Job fl) → Moved j j
  Moved-refl j = record {
    identity = (refl, refl, refl, refl);
    legal = inl refl;
    attempts = ground arith;
    frozen = λ h. refl;
  }

  pub if-Moved : (b : Bool) (j k : Job fl) → (b ≡ true → Moved j k) → Moved j (if b then k else j)
  if-Moved true j k h = h refl
  if-Moved false j k h = Moved-refl j

  pub All-rows : {P : Job fl → Type 0} → ((j : Job fl) → P j) → (rows : List (Job fl)) → All P rows
  All-rows h [] = tt
  All-rows h (j ∷ rows) = (h j, All-rows h rows)

  pub map_All :
      {P Q : Job fl → Type 0}
      → ((j : Job fl) → P j → Q j)
      → (rows : List (Job fl)) → All P rows
      → All Q rows
  map_All f [] h = tt
  map_All f (j ∷ rows) h = (f j h.0, map_All f rows h.1)

  pub claimed-Moved : (now : ℕ) (j : Job fl) → j.state ≡ queued → Moved j (claimed now j)
  claimed-Moved now j q = record {
    identity = (refl, refl, refl, refl);
    legal = inr (rw q Lifecycle.claim);
    attempts = ground arith;
    frozen = λ c. ground arith;
  }

  pub completed-Moved :
      (now : ℕ) (o : List (OutputProgress fl)) (j : Job fl)
      → j.state ≡ running
      → Moved j (completed_with now o j)
  completed-Moved now o j q = record {
    identity = (refl, refl, refl, refl);
    legal = inr (rw q Lifecycle.finish);
    attempts = ground arith;
    frozen = λ c. ground arith;
  }

  pub failed-Moved :
      (now : ℕ) (c : ErrorClass) (msg : String) (j : Job fl)
      → is_active j.state ≡ true
      → Moved j (failed_with now c msg j)
  failed-Moved now c msg j q = record {
    identity = (refl, refl, refl, refl);
    legal = elim (active_cases j.state q) [
      | inl e ↦ inr (rw e Lifecycle.withdraw)
      | inr e ↦ inr (rw e Lifecycle.abort)
    ];
    attempts = ground arith;
    frozen = λ c. ground arith;
  }

  pub requeued-Moved : (now : ℕ) (j : Job fl) → j.state ≡ failed → Moved j (requeued now j)
  requeued-Moved now j q = record {
    identity = (refl, refl, refl, refl);
    legal = inr (rw q Lifecycle.retry);
    attempts = ground arith;
    frozen = λ c. ground arith;
  }

  pub progress-Moved :
      (pct fps speed eta : fl.F) (o : List (OutputProgress fl)) (j : Job fl)
      → j.state ≡ running
      → Moved j (record j {
        progress_pct = pct;
        fps = fps;
        speed_x = speed;
        eta_seconds = eta;
        outputs = o;
      })
  progress-Moved pct fps speed eta o j q = record {
    identity = (refl, refl, refl, refl);
    legal = inl refl;
    attempts = ground arith;
    frozen = λ c. ground arith;
  }
