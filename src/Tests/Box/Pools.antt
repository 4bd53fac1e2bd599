-- ===== src/Tests/Box/Pools.antt =====
-- A pool of two threads, and the nodes of a table.
use sp.Base.{ℕ, ◌+◌, ◌≤◌, ◌≡◌, refl, true, false, some, List, [], ◌∷◌, ◌++◌, length, get_elem?}
use sp.Base.Int.{pos}
use sp.Box.Table.{HashNode, Chain}
use sp.Box.Pool.{
  TaskThread, waiting, Event, offer, go_on, Pool, init_thread_pool, run_pool, init_task_thread,
  launch, task_thread_func, run_task, task_of, after_offer, after_step, pool_step,
}
use sp.Box.Pool.Kept.{tasks_of, pending}
use sp.Box.Pool.Tasks.{run_pool_sound}

-- Both threads get to their second lock; of three offers the last is refused, and one thread begins.
abbrev schedule : List (Event ℕ)
schedule = go_on 0 ∷ go_on 0 ∷ go_on 1 ∷ go_on 1 ∷ offer 5 ∷ offer 6 ∷ offer 7 ∷ go_on 1 ∷ []

abbrev two_threads : Pool ℕ
two_threads = run_pool (init_thread_pool 2) schedule

-- The first thread still has its task to begin.
abbrev first_thread : TaskThread ℕ
first_thread = record { place = waiting; busy = true; locked = false; arg = some 5 }

two_threads_first : get_elem? two_threads.threads 0 ≡ some first_thread
unfolding run_pool init_thread_pool init_task_thread launch task_thread_func run_task task_of
    after_offer after_step pool_step
two_threads_first = refl

run_pool_sound_example :
    (tasks_of 0 two_threads.accepted ≡ tasks_of 0 two_threads.begun ++ pending first_thread)
    × (length (pending first_thread) ≤ 1)
    × (first_thread.busy ≡ false
        → (first_thread.place ≡ waiting)
          × (first_thread.locked ≡ true)
          × (pending first_thread ≡ []))
run_pool_sound_example = run_pool_sound 2 schedule 0 first_thread two_threads_first

abbrev some_node : ℕ → HashNode ℕ
some_node n = record { contain = n + n; hash_code = pos n }

abbrev some_table : List (Chain ℕ)
some_table = [] ∷ (some_node 1 ∷ some_node 5 ∷ []) ∷ [] ∷ (some_node 3 ∷ []) ∷ []
