-- ===== src/Jobs/Lifecycle.antt =====
-- What the transition table of services/orchestrator/internal/jobs/job.go means for the life of a
-- job: the legal moves as a relation, and the paths that they make.
use aether_edit.Prelude.{◌≡◌, refl, ◌↔◌, true, none, arith}
use aether_edit.Jobs.{
  State, queued, running, completed, failed, unknown, can_transition, transition,
}

-- The five legal moves, as the comment of `CanTransition` lists them.
infix 40 ◌⟶◌
pub data ◌⟶◌ : State → State → Type 0 where
  claim : queued ⟶ running
  withdraw : queued ⟶ failed
  finish : running ⟶ completed
  abort : running ⟶ failed
  retry : failed ⟶ queued

moves_of_test : (s t : State) → can_transition s t ≡ true → s ⟶ t
unfolding can_transition
moves_of_test queued running h = claim
moves_of_test queued failed h = withdraw
moves_of_test queued queued h = cc
moves_of_test queued completed h = cc
moves_of_test queued (unknown _) h = cc
moves_of_test running completed h = finish
moves_of_test running failed h = abort
moves_of_test running queued h = cc
moves_of_test running running h = cc
moves_of_test running (unknown _) h = cc
moves_of_test failed queued h = retry
moves_of_test failed running h = cc
moves_of_test failed completed h = cc
moves_of_test failed failed h = cc
moves_of_test failed (unknown _) h = cc
moves_of_test completed t h = cc
moves_of_test (unknown _) t h = cc

test_of_move : {s t : State} → s ⟶ t → can_transition s t ≡ true
unfolding can_transition
test_of_move claim = refl
test_of_move withdraw = refl
test_of_move finish = refl
test_of_move abort = refl
test_of_move retry = refl

ok_of_test : (s t : State) → can_transition s t ≡ true → transition s t ≡ none
unfolding transition
ok_of_test s t h = ground arith

test_of_ok : (s t : State) → transition s t ≡ none → can_transition s t ≡ true
unfolding transition
test_of_ok s t h = ground arith

-- `Transition` returns a nil error for exactly the five legal moves.
pub transition_iff : (s t : State) → (transition s t ≡ none) ↔ (s ⟶ t)
transition_iff s t =
    ((λ h. moves_of_test s t (test_of_ok s t h)), (λ m. ok_of_test s t (test_of_move m)))
