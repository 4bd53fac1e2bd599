-- ===== src/Box/Crowd/Alone.antt =====
-- MP5: no two threads of the pool work for the same connection.
use mathlib.Core.Option.{some-injective}
use sp.Base.{
  ℕ, zero, suc, ◌≡◌, ◌≢◌, ◌⊎◌, refl, sym, ap, subst, ◌∙◌, inl, inr, Bool, true, false, Option, none,
  some, List, [], ◌∷◌, arith, if◌then◌else◌, Bool-cases, get_elem?, set,
}
use sp.Box.Pool.{Place, created, at_top, waiting, working, TaskThread, launch, task_thread_func}
use sp.Box.Pool.Kept.{IsKept}
use sp.Box.Crowd.{ClientInfo, client_at, free_of, is_free}

-- The connection that a thread was given and has not ended with.
unfoldable pub works_on : TaskThread ℕ → Option ℕ
works_on t = elim t.place [
  | created ↦ none
  | at_top ↦ none
  | waiting ↦ (if t.locked then none else t.arg)
  | working ↦ t.arg
]

pub works_on-step :
    (place : Place) (busy locked : Bool) (arg : Option ℕ)
    → (let t : TaskThread ℕ = record { place = place; busy = busy; locked = locked; arg = arg } in
        IsKept t
        → (works_on (task_thread_func t).0 ≡ none) ⊎ (works_on (task_thread_func t).0 ≡ works_on t))
unfolding works_on task_thread_func IsKept
works_on-step created busy true arg k = absurd (cc)
works_on-step created busy false arg k = inl refl
works_on-step at_top busy true arg k = inl refl
works_on-step at_top busy false arg k = absurd (cc)
works_on-step waiting busy true arg k = inl refl
works_on-step waiting busy false arg k = inr refl
works_on-step working busy true arg k = inl refl
works_on-step working busy false arg k = inl refl

pub works_on-launch :
    (t : TaskThread ℕ) (fd : ℕ)
    → t.place ≡ waiting
    → works_on (launch (record t { busy = true }) fd) ≡ some fd
unfolding works_on launch
works_on-launch t fd p = rw p refl

pub works_on-idle : (t : TaskThread ℕ) → IsKept t → t.busy ≡ false → works_on t ≡ none
unfolding works_on IsKept
works_on-idle t k b = ground arith

-- Each thread is kept, no connection that a thread works for is free, and no two work for one.
pub record IsAlone (cs : List (Option ClientInfo)) (ts : List (TaskThread ℕ)) : Type 0 where
  pub kept : (i : ℕ) (t : TaskThread ℕ) → get_elem? ts i ≡ some t → IsKept t
  pub taken :
      (i : ℕ) (t : TaskThread ℕ) (fd : ℕ)
      → get_elem? ts i ≡ some t
      → works_on t ≡ some fd
      → is_free cs fd ≡ false
  pub apart :
      (i j : ℕ) (t u : TaskThread ℕ) (fd : ℕ)
      → get_elem? ts i ≡ some t
      → get_elem? ts j ≡ some u
      → works_on t ≡ some fd
      → works_on u ≡ some fd
      → i ≡ j

-- An element after a write: the one that was written, or one that was there.
get_elem?-set {ℓ} :
    {A : Type ℓ} (xs : List A) (i j : ℕ) (x y : A)
    → get_elem? (set xs i y) j ≡ some x
    → ((i ≡ j) × (x ≡ y)) ⊎ ((i ≢ j) × (get_elem? xs j ≡ some x))
get_elem?-set [] i j x y e = absurd (cc)
get_elem?-set (z ∷ xs) zero zero x y e = inl (refl, sym (some-injective _ _ e))
get_elem?-set (z ∷ xs) zero (suc j) x y e = inr ((λ q. absurd (omega arith)), e)
get_elem?-set (z ∷ xs) (suc i) zero x y e = inr ((λ q. absurd (omega arith)), e)
get_elem?-set (z ∷ xs) (suc i) (suc j) x y e = elim (get_elem?-set xs i j x y e) [
  | inl (a, b) ↦ inl (ap suc a, b)
  | inr (a, b) ↦ inr ((λ q. a (omega arith)), b)
]

-- What is free after a write to a client.
pub is_free-set :
    (cs : List (Option ClientInfo)) (k j : ℕ) (o : Option ClientInfo)
    → is_free (set cs k o) j ≡ true
    → ((k ≡ j) × (free_of o ≡ true)) ⊎ ((k ≢ j) × (is_free cs j ≡ true))
unfolding is_free client_at free_of
is_free-set [] k j o e = absurd (cc)
is_free-set (c ∷ cs) zero zero o e = inl (refl, e)
is_free-set (c ∷ cs) zero (suc j) o e = inr ((λ q. absurd (omega arith)), e)
is_free-set (c ∷ cs) (suc k) zero o e = inr ((λ q. absurd (omega arith)), e)
is_free-set (c ∷ cs) (suc k) (suc j) o e = elim (is_free-set cs k j o e) [
  | inl (a, b) ↦ inl (ap suc a, b)
  | inr (a, b) ↦ inr ((λ q. a (omega arith)), b)
]

-- No thread works for the connection.
abbrev pub IsLeft : List (TaskThread ℕ) → ℕ → Type 0
IsLeft ts fd = (i : ℕ) (t : TaskThread ℕ) → get_elem? ts i ≡ some t → works_on t ≢ some fd

module _ (cs : List (Option ClientInfo)) (ts : List (TaskThread ℕ)) (a : IsAlone cs ts) where
  -- Clients change, and what becomes free is left by all threads.
  pub clients-IsAlone :
      (cs' : List (Option ClientInfo))
      → ((fd : ℕ) → is_free cs' fd ≡ true → (is_free cs fd ≡ true) ⊎ IsLeft ts fd)
      → IsAlone cs' ts
  clients-IsAlone cs' f = record {
    kept = a.kept;
    taken = λ i t fd g w. elim (Bool-cases (is_free cs' fd)) [
      | inr x ↦ x
      | inl x ↦ elim (f fd x) [
        | inl y ↦ let z = a.taken i t fd g w in absurd (cc)
        | inr y ↦ absurd (y i t g w)
      ]
    ];
    apart = a.apart;
  }

  -- One thread changes, and works for what it worked for, or nothing.
  pub thread-IsAlone :
      (i : ℕ) (t v : TaskThread ℕ)
      → get_elem? ts i ≡ some t
      → IsKept v
      → (works_on v ≡ none) ⊎ (works_on v ≡ works_on t)
      → IsAlone cs (set ts i v)
  thread-IsAlone i t v g k w = record {
    kept = λ j u e. elim (get_elem?-set ts i j u v e) [
      | inl (x, y) ↦ subst IsKept (sym y) k
      | inr x ↦ a.kept j u x.1
    ];
    taken = λ j u fd e z. let (u', x, y) = before j u fd e z in a.taken j u' fd x y;
    apart = λ j j' u u' fd e e' z z'.
        let (x, y, y') = before j u fd e z in
        let (x', q, q') = before j' u' fd e' z' in a.apart j j' x x' fd y q y' q';
  }
    where
      before :
          (j : ℕ) (u : TaskThread ℕ) (fd : ℕ)
          → get_elem? (set ts i v) j ≡ some u
          → works_on u ≡ some fd
          → (u' : TaskThread ℕ) × (get_elem? ts j ≡ some u') × (works_on u' ≡ some fd)
      before j u fd e z = elim (get_elem?-set ts i j u v e) [
        | inr x ↦ (u, x.1, z)
        | inl (x, y) ↦
            let p : works_on v ≡ some fd = subst (λ k. works_on k ≡ some fd) y z in
            elim w [ inl q ↦ absurd (cc) | inr q ↦ (t, rw (← x) g, sym q ∙ p) ]
      ]

  -- One thread takes a connection that is left by all.
  pub launch-IsAlone :
      (i : ℕ) (t v : TaskThread ℕ) (fd : ℕ)
      → get_elem? ts i ≡ some t
      → IsKept v
      → works_on v ≡ some fd
      → IsLeft ts fd
      → is_free cs fd ≡ false
      → IsAlone cs (set ts i v)
  launch-IsAlone i t v fd g k w l f = record {
    kept = λ j u e. elim (get_elem?-set ts i j u v e) [
      | inl (x, y) ↦ subst IsKept (sym y) k
      | inr x ↦ a.kept j u x.1
    ];
    taken = λ j u fd' e z. elim (get_elem?-set ts i j u v e) [
      | inr x ↦ a.taken j u fd' x.1 z
      | inl (x, y) ↦ rw (← same u fd' y z) f
    ];
    apart = λ j j' u u' fd' e e' z z'.
        both j j' u u' fd' z z' (get_elem?-set ts i j u v e) (get_elem?-set ts i j' u' v e');
  }
    where
      same : (u : TaskThread ℕ) (fd' : ℕ) → u ≡ v → works_on u ≡ some fd' → fd ≡ fd'
      same u fd' y z = some-injective _ _ (sym w ∙ subst (λ k. works_on k ≡ some fd') y z)

      both :
          (j j' : ℕ) (u u' : TaskThread ℕ) (fd' : ℕ)
          → works_on u ≡ some fd'
          → works_on u' ≡ some fd'
          → ((i ≡ j) × (u ≡ v)) ⊎ ((i ≢ j) × (get_elem? ts j ≡ some u))
          → ((i ≡ j') × (u' ≡ v)) ⊎ ((i ≢ j') × (get_elem? ts j' ≡ some u'))
          → j ≡ j'
      both j j' u u' fd' z z' (inl (x, y)) (inl (x', y')) = sym x ∙ x'
      both j j' u u' fd' z z' (inl (x, y)) (inr (_, q)) =
          absurd (l j' u' q (z' ∙ ap some (sym (same u fd' y z))))
      both j j' u u' fd' z z' (inr (_, q)) (inl (x, y)) =
          absurd (l j u q (z ∙ ap some (sym (same u' fd' y z'))))
      both j j' u u' fd' z z' (inr (_, q)) (inr (_, q')) = a.apart j j' u u' fd' q q' z z'

  -- The connection of a thread that works for nothing any more is left by all.
  pub set-IsLeft :
      (i : ℕ) (t v : TaskThread ℕ) (fd : ℕ)
      → get_elem? ts i ≡ some t
      → works_on t ≡ some fd
      → works_on v ≡ none
      → IsLeft (set ts i v) fd
  set-IsLeft i t v fd g w n j u q z = elim (get_elem?-set ts i j u v q) [
    | inl (x, y) ↦
        let p : works_on v ≡ some fd = subst (λ k. works_on k ≡ some fd) y z in absurd (cc)
    | inr (x, y) ↦ absurd (x (a.apart i j t u fd g y w z))
  ]
