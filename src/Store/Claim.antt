-- ===== src/Store/Claim.antt =====
-- Which row `ClaimNextQueued` of services/orchestrator/internal/store/store.go takes.
use aether_edit.Prelude.{
  ℕ, ◌+◌, ◌≤◌, String, ◌≡◌, sym, subst, ◌≢◌, ◌⊎◌, inl, inr, true, none, some, List, [], ◌∷◌, arith,
  str_eq, eq_iff, Option-cases, ok, err,
}
use aether_edit.Prelude.Float.{Float}
use aether_edit.Jobs.{queued, running, Job}
use aether_edit.Store.{not_found, oldest_queued, claim_next_queued}
use mathlib.Core.List.{Memᴰ}
use aether_edit.Store.Rows.{All, UniqueIds, map_All}

module _ {fl : Float} where
  -- The row that a claim picks is queued.
  pub oldest-is_queued :
      (rows : List (Job fl)) (k : Job fl) → oldest_queued rows ≡ some k → k.state ≡ queued
  unfolding oldest_queued
  oldest-is_queued [] k h = cc
  oldest-is_queued (j ∷ rows) k h = ground (arith, oldest-is_queued rows k)

  not_oldest :
      (id : String) (rows : List (Job fl)) (k : Job fl)
      → All (λ r. r.id ≢ id) rows
      → oldest_queued rows ≡ some k
      → k.id ≢ id
  unfolding oldest_queued
  not_oldest id [] k h e = cc
  not_oldest id (j ∷ rows) k h e = ground (arith, not_oldest id rows k h.1)

  others_differ :
      (id : String) (rows : List (Job fl))
      → All (λ r. r.id ≢ id) rows
      → All (λ j. str_eq j.id id ≡ true → j.state ≡ queued) rows
  others_differ id [] h = tt
  others_differ id (j ∷ rows) h =
      ((λ e. absurd (h.0 ((eq_iff j.id id).0 e))), others_differ id rows h.1)

  oldest_inv :
      (j : Job fl) (rows : List (Job fl)) (k : Job fl)
      → oldest_queued (j ∷ rows) ≡ some k
      → (oldest_queued rows ≡ some k) ⊎ ((j ≡ k) × (j.state ≡ queued))
  unfolding oldest_queued
  oldest_inv j rows k h = ground arith

  -- Every row with the id of the picked one is queued.
  pub claim_target :
      (rows : List (Job fl)) (k : Job fl)
      → UniqueIds rows
      → oldest_queued rows ≡ some k
      → All (λ j. str_eq j.id k.id ≡ true → j.state ≡ queued) rows
  unfolding oldest_queued
  claim_target [] k u e = tt
  claim_target (j ∷ rows) k u e = elim (oldest_inv j rows k e) [
    | inl e' ↦ (
      (λ q. absurd (not_oldest j.id rows k u.0 e' (sym ((eq_iff j.id k.id).0 q)))),
      claim_target rows k u.1 e',
    )
    | inr (same, q) ↦ (
      (λ _. q),
      subst (λ m. All (λ r. str_eq r.id m.id ≡ true → r.state ≡ queued) rows) same
          (others_differ j.id rows u.0),
    )
  ]

  -- No queued row is left out when nothing is found.
  oldest-none :
      (rows : List (Job fl)) → oldest_queued rows ≡ none → All (λ r. r.state ≢ queued) rows
  unfolding oldest_queued
  oldest-none [] h = tt
  oldest-none (j ∷ rows) h = ground (arith, oldest-none rows)

  oldest_head :
      (j : Job fl) (rows : List (Job fl)) (k : Job fl)
      → oldest_queued (j ∷ rows) ≡ some k
      → j.state ≡ queued
      → k.queued_at ≤ j.queued_at
  unfolding oldest_queued
  oldest_head j rows k h q = ground arith

  oldest_tail :
      (j : Job fl) (rows : List (Job fl)) (k m : Job fl)
      → oldest_queued rows ≡ some m
      → oldest_queued (j ∷ rows) ≡ some k
      → k.queued_at ≤ m.queued_at
  unfolding oldest_queued
  oldest_tail j rows k m e h = ground arith

  oldest-le :
      (rows : List (Job fl)) (k : Job fl)
      → oldest_queued rows ≡ some k
      → All (λ r. r.state ≡ queued → k.queued_at ≤ r.queued_at) rows
  oldest-le [] k h = tt
  oldest-le (j ∷ rows) k h = elim (Option-cases (oldest_queued rows)) [
    | inl e ↦
        (oldest_head j rows k h, map_All (λ r no_q q. absurd (no_q q)) rows (oldest-none rows e))
    | inr (m, e) ↦ (
      oldest_head j rows k h,
      map_All (λ r le q. omega (arith, le q, oldest_tail j rows k m e h)) rows (oldest-le rows m e),
    )
  ]

  oldest-mem : (rows : List (Job fl)) (k : Job fl) → oldest_queued rows ≡ some k → Memᴰ k rows
  unfolding oldest_queued
  oldest-mem [] k h = cc
  oldest-mem (j ∷ rows) k h = elim (oldest_inv j rows k h) [
    | inl e ↦ Memᴰ.tail (oldest-mem rows k e)
    | inr (same, q) ↦ Memᴰ.head (sym same)
  ]

  -- A claim that returns a job returns a row of the table that was queued, no queued row being
  -- older, as a running one with one more attempt.
  pub claim_takes_oldest :
      (now : ℕ) (rows : List (Job fl)) (k : Job fl)
      → (claim_next_queued now rows).0 ≡ ok k
      → (j : Job fl) × Memᴰ j rows
        × (j.state ≡ queued)
        × All (λ r. r.state ≡ queued → j.queued_at ≤ r.queued_at) rows
        × (k ≡ record j {
          state = running;
          started_at = some now;
          error_class = none;
          error_message = "";
          attempts = j.attempts + 1;
        })
  unfolding claim_next_queued
  claim_takes_oldest now rows k h = elim (Option-cases (oldest_queued rows)) [
    | inl e ↦ absurd (ground arith)
    | inr (j, e) ↦
        (j, oldest-mem rows j e, oldest-is_queued rows j e, oldest-le rows j e, ground arith)
  ]

  -- A claim finds nothing only when no row is queued, and then changes nothing.
  pub claim_none :
      (now : ℕ) (rows : List (Job fl))
      → (claim_next_queued now rows).0 ≡ err not_found
      → All (λ r. r.state ≢ queued) rows × ((claim_next_queued now rows).1 ≡ rows)
  unfolding claim_next_queued
  claim_none now rows h = ground (arith, oldest-none rows)
