-- ===== src/Box/Pool.antt =====
-- MP5/src/thread.c: the pool of task threads of the server of MP5. A thread goes from one call on its
-- lock or its flag to the next; `run_task`, which holds the dispatch lock, is one step. The calls of
-- pthread succeed.
pub mod Kept
pub mod Tasks
use sp.Base.{
  ℕ, zero, suc, ◌+◌, Bool, true, false, not, ◌&&◌, Option, none, some, List, [], ◌∷◌, ◌++◌,
  if◌then◌else◌, get_elem?, set, replicate,
}

-- Where a task thread is in `task_thread_func`: before the first lock, before `busy = 0`, before the
-- lock in the loop, in the task.
pub data Place : Type 0 where
  created at_top waiting working : Place

pub record TaskThread {ℓ} (A : Type ℓ) : Type ℓ where
  pub place : Place
  pub busy : Bool
  -- `control_lock` is held
  pub locked : Bool
  -- what `launch` set
  pub arg : Option A

-- A schedule of the pool: a task is offered, or a thread goes on.
pub data Event {ℓ} (A : Type ℓ) : Type ℓ where
  offer : A → Event A
  go_on : ℕ → Event A

-- The threads, with the tasks that were accepted and those that were begun, each with its thread.
pub record Pool {ℓ} (A : Type ℓ) : Type ℓ where
  pub threads : List (TaskThread A)
  pub accepted : List (ℕ × A)
  pub begun : List (ℕ × A)

module _ {ℓ} {A : Type ℓ} where
  unfoldable pub init_task_thread : TaskThread A
  init_task_thread = record { place = created; busy = true; locked = false; arg = none }

  unfoldable pub init_thread_pool : ℕ → Pool A
  unfolding init_task_thread
  init_thread_pool num = record {
    threads = replicate num init_task_thread;
    accepted = [];
    begun = [];
  }

  -- The argument is set and the control lock released.
  unfoldable pub launch : TaskThread A → A → TaskThread A
  launch t a = record t { arg = some a; locked = false }

  -- The next step of `task_thread_func`: the thread, and whether it begins its task. It stays where it
  -- is as long as another holds its lock.
  unfoldable pub task_thread_func : TaskThread A → TaskThread A × Bool
  task_thread_func t = elim t.place [
    | created ↦ if t.locked then (t, false) else (record t { place = at_top; locked = true }, false)
    | at_top ↦ (record t { place = waiting; busy = false }, false)
    | waiting ↦ if t.locked then (t, false) else (record t { place = working; locked = true }, true)
    | working ↦ (record t { place = at_top }, false)
  ]

  -- The first thread that is not busy, from index `i` on, is launched.
  unfoldable pub run_task : ℕ → List (TaskThread A) → A → List (TaskThread A) × Option ℕ
  unfolding launch
  run_task i [] a = ([], none)
  run_task i (t ∷ ts) a =
      let others = run_task (i + 1) ts a in
      if t.busy
      then (t ∷ others.0, others.1)
      else (launch (record t { busy = true }) a ∷ ts, some i)

  unfoldable pub is_finished : List (TaskThread A) → Bool
  is_finished [] = true
  is_finished (t ∷ ts) = not t.busy && is_finished ts

  -- The task that a thread begins.
  unfoldable pub task_of : ℕ → Option A → List (ℕ × A)
  task_of i none = []
  task_of i (some a) = (i, a) ∷ []

  unfoldable pub after_offer : Pool A → A → List (TaskThread A) × Option ℕ → Pool A
  after_offer p a (ts, none) = record p { threads = ts }
  after_offer p a (ts, some i) = record p { threads = ts; accepted = p.accepted ++ (i, a) ∷ [] }

  unfoldable pub after_step : Pool A → ℕ → TaskThread A × Bool → Pool A
  unfolding task_of
  after_step p i (t, false) = record p { threads = set p.threads i t }
  after_step p i (t, true) = record p {
    threads = set p.threads i t;
    begun = p.begun ++ task_of i t.arg;
  }

  unfoldable pub pool_step : Pool A → Event A → Pool A
  unfolding after_offer run_task after_step task_thread_func
  pool_step p (offer a) = after_offer p a (run_task 0 p.threads a)
  pool_step p (go_on i) = elim (get_elem? p.threads i) [
    | none ↦ p
    | some t ↦ after_step p i (task_thread_func t)
  ]

  unfoldable pub run_pool : Pool A → List (Event A) → Pool A
  unfolding pool_step
  run_pool p [] = p
  run_pool p (e ∷ es) = run_pool (pool_step p e) es
