-- ===== src/Box/Pool/Kept.antt =====
-- What a thread of MP5/src/thread.c keeps, and what run_task does to a pool of such threads.
use sp.Base.{
  ℕ, suc, ◌+◌, ◌≡◌, ◌⊎◌, refl, inl, inr, true, false, none, some, List, [], ◌∷◌, ◌++◌, arith, ◌==◌,
  if◌then◌else◌, Bool-cases, get_elem?, set,
}
use sp.Box.Pool.{created, at_top, waiting, working, TaskThread, launch, run_task}

module _ {ℓ} {A : Type ℓ} where
  -- The tasks of one thread.
  unfoldable pub tasks_of : ℕ → List (ℕ × A) → List A
  tasks_of i [] = []
  tasks_of i ((j, a) ∷ log) = let rest = tasks_of i log in if j == i then a ∷ rest else rest

  -- The task that a thread was given and has not begun.
  unfoldable pub pending : TaskThread A → List A
  pending t = elim t.place [
    | created ↦ []
    | at_top ↦ []
    | waiting ↦ (if t.locked then [] else elim t.arg [ none ↦ [] | some a ↦ a ∷ [] ])
    | working ↦ []
  ]

  -- The flag and the lock at each place.
  unfoldable pub IsKept : TaskThread A → Type ℓ
  IsKept t = elim t.place [
    | created ↦ (t.busy ≡ true) × (t.locked ≡ false) × Unit {ℓ}
    | at_top ↦ (t.busy ≡ true) × (t.locked ≡ true) × Unit {ℓ}
    | waiting ↦
        ((t.busy ≡ false) × (t.locked ≡ true) × Unit {ℓ})
        ⊎ ((t.busy ≡ true) × (t.locked ≡ false) × ((a : A) × (t.arg ≡ some a)))
    | working ↦ (t.busy ≡ true) × (t.locked ≡ true) × Unit {ℓ}
  ]

  pub tasks_of-append :
      (i : ℕ) (xs ys : List (ℕ × A)) → tasks_of i (xs ++ ys) ≡ tasks_of i xs ++ tasks_of i ys
  unfolding tasks_of
  tasks_of-append i [] ys = refl
  tasks_of-append i ((j, a) ∷ xs) ys = elim (Bool-cases (j == i)) [
    | inl e ↦ rw (e, tasks_of-append i xs ys) refl
    | inr e ↦ rw (e, tasks_of-append i xs ys) refl
  ]

  -- A thread that is not busy waits, and has nothing to do.
  pub idle : (t : TaskThread A) → IsKept t → t.busy ≡ false → (pending t ≡ []) × (t.place ≡ waiting)
  unfolding pending IsKept
  idle t k b = ground arith

  pub launched :
      (t : TaskThread A) (a : A)
      → t.place ≡ waiting
      → IsKept (launch (record t { busy = true }) a)
        × (pending (launch (record t { busy = true }) a) ≡ a ∷ [])
  unfolding pending IsKept launch
  launched t a p = rw p (inr (refl, refl, (a, refl)), refl)

  -- What `run_task` does: nothing, or the launch of a thread that was not busy.
  pub run_task-cases :
      (i : ℕ) (ts : List (TaskThread A)) (a : A)
      → (run_task i ts a ≡ (ts, none))
        ⊎ ((j : ℕ) × (t : TaskThread A) × (get_elem? ts j ≡ some t)
            × (t.busy ≡ false)
            × (run_task i ts a ≡ (set ts j (launch (record t { busy = true }) a), some (i + j))))
  unfolding run_task
  run_task-cases i [] a = inl refl
  run_task-cases i (t ∷ ts) a = elim (Bool-cases t.busy) [
    | inr b ↦ let z : i + 0 ≡ i = omega arith in inr (0, t, refl, b, rw (run_task, b, z) refl)
    | inl b ↦ elim (run_task-cases (i + 1) ts a) [
      | inl e ↦ inl (rw (run_task, b, e) refl)
      | inr (j, t', g, b', e) ↦
          let s : i + 1 + j ≡ i + suc j = omega arith in
          inr (suc j, t', g, b', rw (run_task, b, e, s) refl)
    ]
  ]
