-- ===== src/ThreadPool/Examples.antt =====
-- The pool of src/common/comm_class.cc with two threads and three tasks, and its properties.
use cdroid_demo.Common.{◌≡◌, List, [], ◌∷◌, true, false}
use cdroid_demo.ThreadPool.{new_pool}
use cdroid_demo.ThreadPool.Conservation.{places}
use cdroid_demo.ThreadPool.Turns.{
  Turn, inits, adds, dels, handles, works, turns, once, turns-new_pool,
}

-- Both threads start, take a task each, one ends its own, and the main thread is done with it.
abbrev session : List Turn
session =
    inits 2
    ∷ adds
    ∷ adds
    ∷ adds
    ∷ works 0 false
    ∷ works 1 false
    ∷ handles (λ id. false)
    ∷ works 1 true
    ∷ dels 3
    ∷ handles (λ id. false)
    ∷ []

turns-new_pool_example : places 2 (turns new_pool session) ≡ once 2 (turns new_pool session).task_id
turns-new_pool_example = turns-new_pool session 2
