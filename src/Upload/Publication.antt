-- ===== src/Upload/Publication.antt =====
-- services/upload/server.go: what the loop of `publishJSON` guarantees.
use aether_edit.Prelude.{
  ℕ, zero, suc, ◌+◌, ◌<◌, ◌≡◌, refl, ◌⊎◌, inl, inr, Bool, true, false, List, [], ◌∷◌, arith,
}
use aether_edit.Upload.Handler.{
  Call, World, Try, delivered, refused, cut_off, publish_rounds, publish,
}

-- The call was made.
abbrev pub Sent : Call → List Call → Type 0
Sent c [] = ⊥
Sent c (d ∷ ds) = (d ≡ c) ⊎ Sent c ds

-- One of the rounds of `publishJSON` was answered without an error.
abbrev pub IsDelivered : ℕ → (ℕ → Try) → Type 0
IsDelivered retries tries = (k : ℕ) × (k < retries) × (tries k ≡ delivered)

-- One round more of `publishJSON`.
publish_round :
    (P : Bool × World → Type 0) (left i : ℕ) (fine : Bool) (tries : ℕ → Try) (c : Call) (w : World)
    → (tries i ≡ delivered → P (true, record w { calls = c ∷ w.calls }))
    → P (publish_rounds left (i + 1) false tries c (record w { calls = c ∷ w.calls }))
    → P (false, record w { calls = c ∷ w.calls })
    → P (publish_rounds (suc left) i fine tries c w)
unfolding publish_rounds
publish_round P left i fine tries c w a b d =
    (elim (tries i)
        as (λ t.
          tries i ≡ t
          → P (elim t [
            | delivered ↦ (true, record w { calls = c ∷ w.calls })
            | refused ↦ publish_rounds left (i + 1) false tries c (record w { calls = c ∷ w.calls })
            | cut_off ↦ (false, record w { calls = c ∷ w.calls })
          ])) [ delivered ↦ a | refused ↦ λ _. b | cut_off ↦ λ _. d ])
      refl

rounds_deliver :
    (left i : ℕ) (tries : ℕ → Try) (c : Call) (w : World)
    → (publish_rounds left i false tries c w).0 ≡ true
    → (k : ℕ) × (k < i + left) × (tries k ≡ delivered)
unfolding publish_rounds
rounds_deliver zero i tries c w = λ h. absurd (ground arith)
rounds_deliver (suc left) i tries c w =
    publish_round (λ m. m.0 ≡ true → (k : ℕ) × (k < i + suc left) × (tries k ≡ delivered)) left i
      false tries c w (λ e h. (i, omega arith, e))
      (λ h.
        let (k, lt, e) = rounds_deliver left (i + 1) tries c (record w { calls = c ∷ w.calls }) h in
        (k, omega arith, e))
      (λ h. absurd (ground arith))

-- A publication that answers no error was delivered in one of its rounds, if there was one.
pub publish-IsDelivered :
    (retries : ℕ) (tries : ℕ → Try) (c : Call) (w : World)
    → 0 < retries
    → (publish retries tries c w).0 ≡ true
    → IsDelivered retries tries
unfolding publish
publish-IsDelivered zero tries c w p = λ h. absurd (omega arith)
publish-IsDelivered (suc left) tries c w p =
    publish_round (λ m. m.0 ≡ true → IsDelivered (suc left) tries) left 0 true tries c w
      (λ e h. (0, omega arith, e))
      (λ h.
        let (k, lt, e) = rounds_deliver left 1 tries c (record w { calls = c ∷ w.calls }) h in
        (k, omega arith, e))
      (λ h. absurd (ground arith))

publish_keeps :
    (d : Call) (left i : ℕ) (fine : Bool) (tries : ℕ → Try) (c : Call) (w : World)
    → Sent d w.calls
    → Sent d (publish_rounds left i fine tries c w).1.calls
unfolding publish_rounds
publish_keeps d zero i fine tries c w h = h
publish_keeps d (suc left) i fine tries c w h =
    publish_round (λ m. Sent d m.1.calls) left i fine tries c w (λ _. inr h)
      (publish_keeps d left (i + 1) false tries c (record w { calls = c ∷ w.calls }) (inr h))
      (inr h)

pub publish-Sent :
    (retries : ℕ) (tries : ℕ → Try) (c : Call) (w : World)
    → 0 < retries
    → Sent c (publish retries tries c w).1.calls
unfolding publish
publish-Sent zero tries c w p = absurd (omega arith)
publish-Sent (suc left) tries c w p =
    publish_round (λ m. Sent c m.1.calls) left 0 true tries c w (λ _. inl refl)
      (publish_keeps c left 1 false tries c (record w { calls = c ∷ w.calls }) (inl refl))
      (inl refl)

pub publish_keeps_call :
    (d : Call) (retries : ℕ) (tries : ℕ → Try) (c : Call) (w : World)
    → Sent d w.calls
    → Sent d (publish retries tries c w).1.calls
unfolding publish
publish_keeps_call d retries tries c w h = publish_keeps d retries 0 true tries c w h

rounds-db :
    (left i : ℕ) (fine : Bool) (tries : ℕ → Try) (c : Call) (w : World)
    → (publish_rounds left i fine tries c w).1.db ≡ w.db
unfolding publish_rounds
rounds-db zero i fine tries c w = refl
rounds-db (suc left) i fine tries c w =
    publish_round (λ m. m.1.db ≡ w.db) left i fine tries c w (λ _. refl)
      (rounds-db left (i + 1) false tries c (record w { calls = c ∷ w.calls })) refl

pub publish-db :
    (retries : ℕ) (tries : ℕ → Try) (c : Call) (w : World) → (publish retries tries c w).1.db ≡ w.db
unfolding publish
publish-db retries tries c w = rounds-db retries 0 true tries c w
