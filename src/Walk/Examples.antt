-- ===== src/Walk/Examples.antt =====
-- Runs of walk/deque.go with two workers, and one use of each theorem.
use gripgrep.Base.{ℕ, ◌≡◌, refl, some, List, [], ◌∷◌, ◌==◌}
use gripgrep.Walk.Deque.{
  push, pop, steal, Worker, Walk, push_step, pop_step, steal_step, put_step, WalkRun, stays, goes,
}
use gripgrep.Walk.Deque.Steps.{Kept, pop-push, run-Kept}

abbrev both : Worker ℕ → Worker ℕ → List ℕ → List ℕ → Walk ℕ
both w u pushed popped = record { workers = w ∷ u ∷ []; pushed = pushed; popped = popped }

abbrev idle : Worker ℕ
idle = record { queue = []; stolen = [] }

abbrev holding : List ℕ → Worker ℕ
holding q = record { queue = q; stolen = [] }

abbrev thief : Worker ℕ
thief = record { queue = []; stolen = 7 ∷ [] }

-- The first worker pushes 7 and 8; the second one steals the older, and pops it.
shared_work : WalkRun (both idle idle [] []) (both (holding (8 ∷ [])) idle (8 ∷ 7 ∷ []) (7 ∷ []))
unfolding push pop steal
shared_work =
    goes _ (both (holding (8 ∷ [])) (holding (7 ∷ [])) (8 ∷ 7 ∷ []) []) _
      (goes _ (both (holding (8 ∷ [])) thief (8 ∷ 7 ∷ []) []) _
        (goes _ (both (holding (7 ∷ 8 ∷ [])) idle (8 ∷ 7 ∷ []) []) _
          (goes _ (both (holding (7 ∷ [])) idle (7 ∷ []) []) _
            (goes _ (both idle idle [] []) _ (stays (both idle idle [] []))
              (push_step (both idle idle [] []) 0 idle 7 refl))
            (push_step (both (holding (7 ∷ [])) idle (7 ∷ []) []) 0 (holding (7 ∷ [])) 8 refl))
          (steal_step (both (holding (7 ∷ 8 ∷ [])) idle (8 ∷ 7 ∷ []) []) 1 0 idle
            (holding (7 ∷ 8 ∷ [])) (7 ∷ []) (8 ∷ []) refl refl refl refl))
        (put_step (both (holding (8 ∷ [])) thief (8 ∷ 7 ∷ []) []) 1 thief refl))
      (pop_step (both (holding (8 ∷ [])) (holding (7 ∷ [])) (8 ∷ 7 ∷ []) []) 1 (holding (7 ∷ [])) 7
        [] refl refl)

run-Kept_example : Kept (λ t. t == 7) (both (holding (8 ∷ [])) idle (8 ∷ 7 ∷ []) (7 ∷ []))
run-Kept_example =
    run-Kept (λ t. t == 7) (both idle idle [] [])
      (both (holding (8 ∷ [])) idle (8 ∷ 7 ∷ []) (7 ∷ [])) shared_work refl

abbrev two_tasks : List ℕ
two_tasks = 1 ∷ 2 ∷ []

pop-push_example : pop (push two_tasks 3) ≡ some (3, two_tasks)
pop-push_example = pop-push two_tasks 3
