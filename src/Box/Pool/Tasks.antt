-- ===== src/Box/Pool/Tasks.antt =====
-- MP5/src/thread.c: every task that the pool accepts is begun once, by the thread that it was given to.
use mathlib.Core.Option.{some-injective}
use sp.Base.{
  ℕ, zero, suc, ◌+◌, ◌≤◌, ◌≡◌, ◌≢◌, ◌⊎◌, refl, sym, ap, subst, ◌∙◌, inl, inr, Bool, true, false,
  Option, some, List, [], ◌∷◌, ◌++◌, append-nil, arith, ◌==◌, ==_refl, Option-cases, ℕ_discrete,
  length, get_elem?, set, get_elem?-set_ne, replicate,
}
use sp.Box.Pool.{
  Place, created, at_top, waiting, working, TaskThread, Event, offer, go_on, Pool, init_task_thread,
  init_thread_pool, launch, task_thread_func, run_task, task_of, after_offer, after_step, pool_step,
  run_pool,
}
use sp.Box.Pool.Kept.{tasks_of, pending, IsKept, tasks_of-append, idle, launched, run_task-cases}

module _ {ℓ} {A : Type ℓ} where
  set_at :
      (ts : List (TaskThread A)) (j : ℕ) (t v : TaskThread A)
      → get_elem? ts j ≡ some t
      → get_elem? (set ts j v) j ≡ some v
  set_at [] j t v h = absurd (cc)
  set_at (x ∷ ts) zero t v h = refl
  set_at (x ∷ ts) (suc j) t v h = set_at ts j t v h

  -- The flags are kept, and what a thread was given is what it has begun and what it still has to do.
  abbrev pub IsSound : Pool A → Type ℓ
  IsSound p =
      (i : ℕ) (t : TaskThread A)
      → get_elem? p.threads i ≡ some t
      → IsKept t × (tasks_of i p.accepted ≡ tasks_of i p.begun ++ pending t)

  -- One thread changes, and only its tasks are logged.
  changed-IsSound :
      (p p' : Pool A) (j : ℕ) (t v : TaskThread A)
      → IsSound p
      → get_elem? p.threads j ≡ some t
      → p'.threads ≡ set p.threads j v
      → IsKept v × (tasks_of j p'.accepted ≡ tasks_of j p'.begun ++ pending v)
      → ((i : ℕ)
          → j ≢ i
          → (tasks_of i p'.accepted ≡ tasks_of i p.accepted)
            × (tasks_of i p'.begun ≡ tasks_of i p.begun))
      → IsSound p'
  changed-IsSound p p' j t v h g e k o i u f =
      let f' : get_elem? (set p.threads j v) i ≡ some u =
        subst (λ ts. get_elem? ts i ≡ some u) e f in
      elim (ℕ_discrete j i) [
        | yes x ↦
            let s : get_elem? (set p.threads j v) i ≡ some v =
              subst (λ n. get_elem? (set p.threads j v) n ≡ some v) x (set_at p.threads j t v g) in
            let same : v ≡ u = some-injective _ _ (sym s ∙ f') in
            subst (λ w. IsKept w × (tasks_of i p'.accepted ≡ tasks_of i p'.begun ++ pending w)) same
              (subst (λ n. IsKept v × (tasks_of n p'.accepted ≡ tasks_of n p'.begun ++ pending v)) x
                k)
        | no x ↦
            let (l, r) = h i u (sym (get_elem?-set_ne p.threads v x) ∙ f') in
            let (y, z) = o i x in (l, y ∙ r ∙ ap (λ q. q ++ pending u) (sym z))
      ]

  one-task_of : (i j : ℕ) (a : A) → j ≢ i → tasks_of i ((j, a) ∷ []) ≡ []
  unfolding tasks_of
  one-task_of i j a n = let e : (j == i) ≡ false = ground arith in rw e refl

  own-task_of : (j : ℕ) (a : A) → tasks_of j ((j, a) ∷ []) ≡ a ∷ []
  unfolding tasks_of
  own-task_of j a = rw (==_refl j) refl

  log_other :
      (i j : ℕ) (a : A) (log : List (ℕ × A))
      → j ≢ i
      → tasks_of i (log ++ (j, a) ∷ []) ≡ tasks_of i log
  log_other i j a log n =
      tasks_of-append i log ((j, a) ∷ [])
      ∙ ap (λ r. tasks_of i log ++ r) (one-task_of i j a n)
      ∙ append-nil (tasks_of i log)

  log_own :
      (j : ℕ) (a : A) (log : List (ℕ × A))
      → tasks_of j (log ++ (j, a) ∷ []) ≡ tasks_of j log ++ a ∷ []
  log_own j a log =
      tasks_of-append j log ((j, a) ∷ []) ∙ ap (λ r. tasks_of j log ++ r) (own-task_of j a)

  offer-IsSound : (p : Pool A) (a : A) → IsSound p → IsSound (pool_step p (offer a))
  unfolding pool_step after_offer
  offer-IsSound p a h = elim (run_task-cases 0 p.threads a) [
    | inl e ↦ rw (pool_step, e) h
    | inr (j, t, g, b, e) ↦
        let (k, r) = h j t g in
        let (q, w) = idle t k b in
        let v = launch (record t { busy = true }) a in
        let (kv, pv) = launched t a w in
        let z : 0 + j ≡ j = omega arith in
        let e' : run_task 0 p.threads a ≡ (set p.threads j v, some j) =
          e ∙ ap (λ n. (set p.threads j v, some n)) z in
        rw (pool_step, e')
          (changed-IsSound p
            (record p { threads = set p.threads j v; accepted = p.accepted ++ (j, a) ∷ [] }) j t v h
            g refl
            (
              kv,
              log_own j a p.accepted
                  ∙ ap (λ x. x ++ a ∷ []) (r ∙ ap (λ x. tasks_of j p.begun ++ x) q ∙ append-nil _)
                  ∙ ap (λ x. tasks_of j p.begun ++ x) (sym pv),
            )
            (λ i n. (log_other i j a p.accepted n, refl)))
  ]

  -- A step of a thread keeps its flag and its lock, and begins the task that was pending, or none.
  pub thread_step :
      (place : Place) (busy locked : Bool) (arg : Option A)
      → (let t : TaskThread A = record { place = place; busy = busy; locked = locked; arg = arg } in
          IsKept t
          → IsKept (task_thread_func t).0
            × ((((task_thread_func t).1 ≡ false) × (pending (task_thread_func t).0 ≡ pending t))
                ⊎ (((task_thread_func t).1 ≡ true)
                    × (pending (task_thread_func t).0 ≡ [])
                    × ((a : A) × ((task_thread_func t).0.arg ≡ some a) × (pending t ≡ a ∷ [])))))
  unfolding task_thread_func IsKept pending
  thread_step created busy true arg k = absurd (cc)
  thread_step created busy false arg k = ((k.0, refl, tt), inl (refl, refl))
  thread_step at_top busy true arg k = (inl (refl, refl, tt), inl (refl, refl))
  thread_step at_top busy false arg k = absurd (cc)
  thread_step waiting busy true arg k = (k, inl (refl, refl))
  thread_step waiting busy false arg (inl k) = absurd (cc)
  thread_step waiting busy false arg (inr (b, l, (a, e))) =
      ((b, refl, tt), inr (refl, refl, (a, e, rw e refl)))
  thread_step working busy true arg k = ((k.0, refl, tt), inl (refl, refl))
  thread_step working busy false arg k = absurd (cc)

  go_on-IsSound : (p : Pool A) (i : ℕ) → IsSound p → IsSound (pool_step p (go_on i))
  unfolding pool_step after_step task_of
  go_on-IsSound p i h = elim (Option-cases (get_elem? p.threads i)) [
    | inl g ↦ rw (pool_step, g) h
    | inr (t, g) ↦
        let (k, r) = h i t g in
        let v = task_thread_func t in
        let (kv, c) = thread_step t.place t.busy t.locked t.arg k in
        elim c [
          | inl (b, q) ↦
              rw (pool_step, g)
                (subst (λ x. IsSound (after_step p i (v.0, x))) (sym b)
                  (changed-IsSound p (record p { threads = set p.threads i v.0 }) i t v.0 h g refl
                    (kv, r ∙ ap (λ x. tasks_of i p.begun ++ x) (sym q)) (λ n x. (refl, refl))))
          | inr (b, q, (a, e, w)) ↦
              rw (pool_step, g)
                (subst (λ x. IsSound (after_step p i (v.0, x))) (sym b)
                  (rw (after_step, e)
                    (changed-IsSound p
                      (record p { threads = set p.threads i v.0; begun = p.begun ++ (i, a) ∷ [] }) i
                      t v.0 h g refl
                      (
                        kv,
                        r
                            ∙ ap (λ x. tasks_of i p.begun ++ x) w
                            ∙ sym (log_own i a p.begun)
                            ∙ sym (append-nil _)
                            ∙ ap (λ x. tasks_of i (p.begun ++ (i, a) ∷ []) ++ x) (sym q),
                      )
                      (λ n x. (refl, log_other n i a p.begun x)))))
        ]
  ]

  run_pool-IsSound : (p : Pool A) (es : List (Event A)) → IsSound p → IsSound (run_pool p es)
  unfolding run_pool
  run_pool-IsSound p [] h = h
  run_pool-IsSound p (offer a ∷ es) h =
      run_pool-IsSound (pool_step p (offer a)) es (offer-IsSound p a h)
  run_pool-IsSound p (go_on i ∷ es) h =
      run_pool-IsSound (pool_step p (go_on i)) es (go_on-IsSound p i h)

  new_thread :
      (n i : ℕ) (t : TaskThread A)
      → get_elem? (replicate n init_task_thread) i ≡ some t
      → IsKept t × ([] ≡ pending t)
  unfolding IsKept pending init_task_thread
  new_thread zero i t g = absurd (cc)
  new_thread (suc n) zero t g =
      subst (λ x. IsKept x × ([] ≡ pending x)) (some-injective _ _ g) ((refl, refl, tt), refl)
  new_thread (suc n) (suc i) t g = new_thread n i t g

  new-IsSound : (n : ℕ) → IsSound (init_thread_pool n)
  unfolding init_thread_pool tasks_of
  new-IsSound n i t g = new_thread n i t g

  pending_le : (t : TaskThread A) → length (pending t) ≤ 1
  unfolding pending
  pending_le t = ground arith

  idle_locked :
      (t : TaskThread A)
      → IsKept t
      → t.busy ≡ false
      → (t.place ≡ waiting) × (t.locked ≡ true) × (pending t ≡ [])
  unfolding pending IsKept
  idle_locked t k b = ground arith

  -- From a new pool on, whatever tasks are offered and in whatever order the threads go on: the tasks
  -- that a thread was given by an accepted offer are those that it has begun, in the same order, and at
  -- most one that it still has to begin; and a thread that is not busy waits with its lock held.
  pub run_pool_sound :
      (n : ℕ) (es : List (Event A)) (i : ℕ) (t : TaskThread A)
      → (let p = run_pool (init_thread_pool n) es in
          get_elem? p.threads i ≡ some t
          → (tasks_of i p.accepted ≡ tasks_of i p.begun ++ pending t)
            × (length (pending t) ≤ 1)
            × (t.busy ≡ false → (t.place ≡ waiting) × (t.locked ≡ true) × (pending t ≡ [])))
  run_pool_sound n es i t g =
      let (k, r) = run_pool-IsSound (init_thread_pool n) es (new-IsSound n) i t g in
      (r, pending_le t, idle_locked t k)
