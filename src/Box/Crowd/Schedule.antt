-- ===== src/Box/Crowd/Schedule.antt =====
-- MP5: the steps of the threads, and whole schedules of the server.
use mathlib.Core.Option.{some-injective}
use sp.Base.{
  ℕ, zero, suc, ◌≡◌, refl, subst, inl, inr, Bool, true, false, Option, none, some, List, [], ◌∷◌,
  Bool-cases, Option-cases, get_elem?, set, replicate,
}
use sp.Box.Server.{Setup}
use sp.Box.Daemon.{Host, Request}
use sp.Box.Pool.{
  Place, created, at_top, waiting, working, TaskThread, init_task_thread, task_thread_func,
}
use sp.Box.Pool.Kept.{IsKept}
use sp.Box.Pool.Tasks.{thread_step}
use sp.Box.Crowd.{
  Crowd, Step, poll, arrive, ready, go_on, perform, finish, is_free, set_flag, goes_on, task_at,
  performs, finishes, crowd_step, crowd_run, start_crowd,
}
use sp.Box.Crowd.Alone.{
  works_on, works_on-step, IsAlone, IsLeft, clients-IsAlone, thread-IsAlone, set-IsLeft,
}
use sp.Box.Crowd.Choice.{
  Alone, IsCalm, AreCalm, arrive-IsAlone, serve_on-IsAlone, choose_thread-IsAlone, IsNoLogin,
  set_flag-false,
}

module _ (h : Host) (cfg : Setup) where
  goes_on-IsAlone :
      (s : Crowd h.Fs) (i : ℕ) (t : TaskThread ℕ)
      → Alone h cfg s
      → get_elem? s.threads i ≡ some t
      → Alone h cfg (goes_on h s i t)
  unfolding goes_on
  goes_on-IsAlone s i t a g =
      let k = a.kept i t g in
      let b =
        thread-IsAlone s.client s.threads a i t (task_thread_func t).0 g
          (thread_step t.place t.busy t.locked t.arg k).0
          (works_on-step t.place t.busy t.locked t.arg k) in
      by_place t.place refl b
    where
      by_place :
          (p : Place)
          → t.place ≡ p
          → IsAlone s.client (set s.threads i (task_thread_func t).0)
          → Alone h cfg (goes_on h s i t)
      by_place created e b = rw (goes_on, e) b
      by_place at_top e b = rw (goes_on, e) b
      by_place waiting e b = rw (goes_on, e) b
      by_place working e b = rw (goes_on, e) a

  -- The thread that is in a task works for its connection, and then for none.
  in_task :
      (place : Place) (busy locked : Bool) (arg : Option ℕ) (fd : ℕ)
      → (let t : TaskThread ℕ = record { place = place; busy = busy; locked = locked; arg = arg } in
          task_at h t ≡ some fd → (works_on t ≡ some fd) × (works_on (task_thread_func t).0 ≡ none))
  unfolding task_at works_on task_thread_func
  in_task created busy locked arg fd e = absurd (cc)
  in_task at_top busy locked arg fd e = absurd (cc)
  in_task waiting busy locked arg fd e = absurd (cc)
  in_task working busy locked arg fd e = (e, refl)

  finishes-IsAlone :
      (s : Crowd h.Fs) (i : ℕ) (t : TaskThread ℕ) (o : Option ℕ) (b : Option Bool)
      → Alone h cfg s
      → get_elem? s.threads i ≡ some t
      → task_at h t ≡ o
      → Alone h cfg (finishes h s i t o b)
  unfolding finishes
  finishes-IsAlone s i t none b a g e = a
  finishes-IsAlone s i t (some fd) none a g e = a
  finishes-IsAlone s i t (some fd) (some false) a g e = a
  finishes-IsAlone s i t (some fd) (some true) a g e =
      let k = a.kept i t g in
      let (w, w') = in_task t.place t.busy t.locked t.arg fd e in
      let v = (task_thread_func t).0 in
      let b =
        thread-IsAlone s.client s.threads a i t v g (thread_step t.place t.busy t.locked t.arg k).0
          (inl w') in
      clients-IsAlone s.client (set s.threads i v) b (set_flag s.client fd false) (λ j x.
        elim (set_flag-false s.client fd j x) [
          | inr y ↦ inl y
          | inl y ↦ inr (
              subst (IsLeft (set s.threads i v)) y
                (set-IsLeft s.client s.threads a i t v fd g w w'))
        ])

  performs-IsAlone :
      (s : Crowd h.Fs) (i : ℕ) (o : Option ℕ) (b : Option Bool) (r : Request)
      → Alone h cfg s
      → IsNoLogin r
      → Alone h cfg (performs h cfg s i o b r)
  unfolding performs
  performs-IsAlone s i none b r a n = a
  performs-IsAlone s i (some fd) none r a n = a
  performs-IsAlone s i (some fd) (some true) r a n = a
  performs-IsAlone s i (some fd) (some false) r a n = serve_on-IsAlone h cfg s fd r a n

  crowd_step-IsAlone :
      (s : Crowd h.Fs) (e : Step)
      → Alone h cfg s
      → IsCalm h cfg s e
      → Alone h cfg (crowd_step h cfg s e)
  unfolding crowd_step
  crowd_step-IsAlone s poll a c = a
  crowd_step-IsAlone s (arrive fd r) a c = arrive-IsAlone h cfg s fd r a c
  crowd_step-IsAlone s (ready fd r) a c = elim (Bool-cases (is_free s.client fd)) [
    | inl x ↦ rw (crowd_step, x) (choose_thread-IsAlone h cfg s fd r a x)
    | inr x ↦ rw (crowd_step, x) a
  ]
  crowd_step-IsAlone s (go_on i) a c = elim (Option-cases (get_elem? s.threads i)) [
    | inl g ↦ rw (crowd_step, g) a
    | inr (t, g) ↦ rw (crowd_step, g) (goes_on-IsAlone s i t a g)
  ]
  crowd_step-IsAlone s (perform i r) a c = elim (Option-cases (get_elem? s.threads i)) [
    | inl g ↦ rw (crowd_step, g) a
    | inr (t, g) ↦
        rw (crowd_step, g) (performs-IsAlone s i (task_at h t) (get_elem? s.handled i) r a c)
  ]
  crowd_step-IsAlone s (finish i) a c = elim (Option-cases (get_elem? s.threads i)) [
    | inl g ↦ rw (crowd_step, g) a
    | inr (t, g) ↦
        rw (crowd_step, g) (finishes-IsAlone s i t (task_at h t) (get_elem? s.handled i) a g refl)
  ]

  crowd_run-IsAlone :
      (s : Crowd h.Fs) (es : List Step)
      → Alone h cfg s
      → AreCalm h cfg s es
      → Alone h cfg (crowd_run h cfg s es)
  unfolding crowd_run
  crowd_run-IsAlone s [] a c = a
  crowd_run-IsAlone s (e ∷ es) a (c, cs) =
      crowd_run-IsAlone (crowd_step h cfg s e) es (crowd_step-IsAlone s e a c) cs

  new_thread :
      (n i : ℕ) (t : TaskThread ℕ)
      → get_elem? (replicate n init_task_thread) i ≡ some t
      → IsKept t × (works_on t ≡ none)
  unfolding IsKept works_on init_task_thread
  new_thread zero i t g = absurd (cc)
  new_thread (suc n) zero t g =
      subst (λ x. IsKept x × (works_on x ≡ none)) (some-injective _ _ g) ((refl, refl, tt), refl)
  new_thread (suc n) (suc i) t g = new_thread n i t g

  start-IsAlone : (fs : h.Fs) (n : ℕ) → Alone h cfg (start_crowd h fs n)
  unfolding start_crowd
  start-IsAlone fs n = record {
    kept = λ i t g. (new_thread n i t g).0;
    taken = λ i t fd g w. let k = (new_thread n i t g).1 in absurd (cc);
    apart = λ i j t u fd g g' w w'. let k = (new_thread n i t g).1 in absurd (cc);
  }

  -- From the server's start on, in whatever order connections can be read and threads go on: no two
  -- threads work for the same connection, from the moment when one is given it to the moment when it has
  -- reset its flag, and in between the connection is not offered to a thread again. For this no thread
  -- may handle a login, and no new connection may get the number of one for which a thread still works.
  pub crowd_run-alone :
      (fs : h.Fs) (n : ℕ) (es : List Step)
      → AreCalm h cfg (start_crowd h fs n) es
      → (i j : ℕ) (t u : TaskThread ℕ) (fd : ℕ)
      → (let s = crowd_run h cfg (start_crowd h fs n) es in
          get_elem? s.threads i ≡ some t
          → get_elem? s.threads j ≡ some u
          → works_on t ≡ some fd
          → works_on u ≡ some fd
          → (i ≡ j) × (is_free s.client fd ≡ false))
  crowd_run-alone fs n es c i j t u fd g g' w w' =
      let a = crowd_run-IsAlone (start_crowd h fs n) es (start-IsAlone fs n) c in
      (a.apart i j t u fd g g' w w', a.taken i t fd g w)
