-- ===== src/Queue/Tests.antt =====
-- Runs of the queue operations on concrete queues.
use yalnix.Base.{◌≡◌, refl, none, some, List, [], ◌∷◌, arith}
use yalnix.Queue.{Links, queue_init, queue_push_back, queue_entry_init}
use yalnix.Queue.Refine.{IsQueue, queue_init-IsQueue}
use yalnix.Queue.Trace.{Op, push, pop, unlink, step, run, run_spec, spec, run-run_spec}
use yalnix.Queue.Frame.{step-frame}

abbrev zeroed : Links
zeroed = record { prev = λ _. 0; next = λ _. 0; owner = λ _. 0; length = λ _. 0 }

abbrev ops : List Op
ops = push 20 ∷ push 30 ∷ push 40 ∷ unlink 30 ∷ pop ∷ pop ∷ pop ∷ []

run-run_spec_example :
    (run (queue_init zeroed 10) 10 ops).0
    ≡ none ∷ none ∷ none ∷ none ∷ some 20 ∷ some 40 ∷ none ∷ []
unfolding run_spec spec
run-run_spec_example =
    (run-run_spec (queue_init zeroed 10) 10 [] ops (queue_init-IsQueue zeroed 10 (omega arith))
      (omega arith, (omega arith, (omega arith, (refl, (tt, (tt, (tt, tt)))))))).0

abbrev two_queues : Links
two_queues = queue_init (queue_init zeroed 10) 11

first_empty : IsQueue two_queues 10 []
unfolding queue_init
first_empty = omega arith

-- Two empty queues, and a push on the first.
step-frame_example : IsQueue (step two_queues 10 (push 20)).1 11 []
step-frame_example =
    step-frame {h = two_queues} {q = 10} {r = 11} [] [] (push 20) first_empty (omega arith)
      (queue_init-IsQueue (queue_init zeroed 10) 11 (omega arith)) (omega arith) (omega arith)

owner_kept : (queue_push_back (queue_entry_init zeroed 20 7) 10 20).owner 20 ≡ 7
unfolding queue_push_back queue_entry_init
owner_kept = refl
