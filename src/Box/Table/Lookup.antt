-- ===== src/Box/Table/Lookup.antt =====
-- What a change of the table does to the lookups.
use mathlib.Core.Option.{some-injective}
use sp.Base.{
  ℕ, ◌<◌, ◌≡◌, refl, sym, ap, subst, ◌∙◌, inl, inr, Bool, true, false, ◌||◌, Option, none, some, [],
  ◌∷◌, arith, if◌then◌else◌, Bool-cases, Option-cases,
}
use sp.Base.Int.{ℤ, pos, negsuc, ◌==ℤ◌, ==ℤ_iff, ==ℤ_sym}
use sp.Box.Table.{HashNode, Chain, slot, put_chain, get_chain, unlink, del_chain}

pub slot-lt : (code : ℤ) (n : ℕ) → 0 < n → slot code n < n
unfolding slot
slot-lt (pos c) n h = grind arith
slot-lt (negsuc c) n h = ground arith

module _ {ℓ} {A : Type ℓ} where
  -- Two nodes of different codes may be looked at in either order.
  swapped :
      (n new : HashNode A) (q : ℤ) (rest : Option A)
      → (n.hash_code ==ℤ new.hash_code) ≡ false
      → (if n.hash_code ==ℤ q
          then some n.contain
          else if new.hash_code ==ℤ q
          then some new.contain
          else rest)
        ≡ (if new.hash_code ==ℤ q
            then some new.contain
            else if n.hash_code ==ℤ q
            then some n.contain
            else rest)
  swapped n new q rest e = elim (Bool-cases (n.hash_code ==ℤ q)) [
    | inr x ↦ rw x refl
    | inl x ↦ elim (Bool-cases (new.hash_code ==ℤ q)) [
      | inr y ↦ rw (x, y) refl
      | inl y ↦
          let a : n.hash_code ≡ q = (==ℤ_iff n.hash_code q).0 x in
          let b : new.hash_code ≡ q = (==ℤ_iff new.hash_code q).0 y in
          let t : (n.hash_code ==ℤ new.hash_code) ≡ true =
            (==ℤ_iff n.hash_code new.hash_code).1 (a ∙ sym b) in
          absurd (cc)
    ]
  ]

  pub get-put_chain :
      (c c' : Chain A) (new : HashNode A) (q : ℤ)
      → put_chain c new ≡ some c'
      → get_chain c' q ≡ (if new.hash_code ==ℤ q then some new.contain else get_chain c q)
  unfolding put_chain get_chain
  get-put_chain [] c' new q h = rw (← some-injective _ _ h) refl
  get-put_chain (n ∷ c) c' new q h = elim (Bool-cases (n.hash_code ==ℤ new.hash_code)) [
    | inl e ↦ absurd (cc (sym (rw e at h)))
    | inr e ↦ elim (Option-cases (put_chain c new)) [
      | inl f ↦ absurd (cc (sym (rw (e, f) at h)))
      | inr (d, f) ↦
          let g = some-injective _ _ (rw (e, f) at h) in
          rw (← g, get-put_chain c d new q f) (swapped n new q (get_chain c q) e)
    ]
  ]

  -- The node is refused if there is one of its code.
  pub put_chain-none :
      (c : Chain A) (new : HashNode A)
      → put_chain c new ≡ none
      → (a : A) × (get_chain c new.hash_code ≡ some a)
  unfolding put_chain get_chain
  put_chain-none [] new h = absurd (cc)
  put_chain-none (n ∷ c) new h = elim (Bool-cases (n.hash_code ==ℤ new.hash_code)) [
    | inl e ↦ (n.contain, rw e refl)
    | inr e ↦ elim (Option-cases (put_chain c new)) [
      | inl f ↦ let (a, g) = put_chain-none c new f in (a, rw e g)
      | inr (d, f) ↦ absurd (cc (sym (rw (e, f) at h)))
    ]
  ]

  pub put_chain-some :
      (c c' : Chain A) (new : HashNode A)
      → put_chain c new ≡ some c'
      → get_chain c new.hash_code ≡ none
  unfolding put_chain get_chain
  put_chain-some [] c' new h = refl
  put_chain-some (n ∷ c) c' new h = elim (Bool-cases (n.hash_code ==ℤ new.hash_code)) [
    | inl e ↦ absurd (cc (sym (rw e at h)))
    | inr e ↦ elim (Option-cases (put_chain c new)) [
      | inl f ↦ absurd (cc (sym (rw (e, f) at h)))
      | inr (d, f) ↦ rw e (put_chain-some c d new f)
    ]
  ]

  unlink-none : (c : Chain A) (code : ℤ) → unlink c code ≡ none → get_chain c code ≡ none
  unfolding unlink get_chain
  unlink-none [] code h = refl
  unlink-none (n ∷ c) code h = elim (Bool-cases (n.hash_code ==ℤ code)) [
    | inl e ↦ absurd (cc (sym (rw e at h)))
    | inr e ↦ elim (Option-cases (unlink c code)) [
      | inl f ↦ rw e (unlink-none c code f)
      | inr (r, f) ↦ absurd (cc (sym (rw (e, f) at h)))
    ]
  ]

  -- No two nodes have the same code.
  abbrev pub IsUnique : Chain A → Type ℓ
  IsUnique [] = Unit
  IsUnique (n ∷ c) = (get_chain c n.hash_code ≡ none) × IsUnique c

  first_gone :
      (n : HashNode A) (c : Chain A) (code q : ℤ)
      → get_chain c n.hash_code ≡ none
      → (n.hash_code ==ℤ code) ≡ true
      → get_chain c q
        ≡ (if q ==ℤ code then none else if n.hash_code ==ℤ q then some n.contain else get_chain c q)
  first_gone n c code q u e = elim (Bool-cases (q ==ℤ code)) [
    | inl x ↦
        let a : n.hash_code ≡ code = (==ℤ_iff n.hash_code code).0 e in
        let b : q ≡ code = (==ℤ_iff q code).0 x in rw x (ap (get_chain c) (b ∙ sym a) ∙ u)
    | inr x ↦ elim (Bool-cases (n.hash_code ==ℤ q)) [
      | inl y ↦
          let a : n.hash_code ≡ code = (==ℤ_iff n.hash_code code).0 e in
          let b : n.hash_code ≡ q = (==ℤ_iff n.hash_code q).0 y in
          let t : (q ==ℤ code) ≡ true = (==ℤ_iff q code).1 (sym b ∙ a) in absurd (cc)
      | inr y ↦ rw (x, y) refl
    ]
  ]

  kept_first :
      (n : HashNode A) (code q : ℤ) (rest : Option A)
      → (n.hash_code ==ℤ code) ≡ false
      → (if n.hash_code ==ℤ q then some n.contain else if q ==ℤ code then none else rest)
        ≡ (if q ==ℤ code then none else if n.hash_code ==ℤ q then some n.contain else rest)
  kept_first n code q rest e = elim (Bool-cases (q ==ℤ code)) [
    | inr x ↦ rw x refl
    | inl x ↦ elim (Bool-cases (n.hash_code ==ℤ q)) [
      | inr y ↦ rw (x, y) refl
      | inl y ↦
          let a : n.hash_code ≡ q = (==ℤ_iff n.hash_code q).0 y in
          let b : q ≡ code = (==ℤ_iff q code).0 x in
          let t : (n.hash_code ==ℤ code) ≡ true = (==ℤ_iff n.hash_code code).1 (a ∙ b) in
          absurd (cc)
    ]
  ]

  unlink-get :
      (c : Chain A) (code q : ℤ) (a : A) (c' : Chain A)
      → IsUnique c
      → unlink c code ≡ some (a, c')
      → (get_chain c code ≡ some a)
        × (get_chain c' q ≡ (if q ==ℤ code then none else get_chain c q))
  unfolding unlink get_chain
  unlink-get [] code q a c' u h = absurd (cc)
  unlink-get (n ∷ c) code q a c' u h = elim (Bool-cases (n.hash_code ==ℤ code)) [
    | inl e ↦
        let g = some-injective _ _ (rw e at h) in
        let ga : n.contain ≡ a = ap (λ r. r.0) g in
        let gc : c ≡ c' = ap (λ r. r.1) g in
        (rw e (ap some ga), rw (← gc) (first_gone n c code q u.0 e))
    | inr e ↦ elim (Option-cases (unlink c code)) [
      | inl f ↦ absurd (cc (sym (rw (e, f) at h)))
      | inr ((b, d), f) ↦
          let g = some-injective _ _ (rw (e, f) at h) in
          let ga : b ≡ a = ap (λ r. r.0) g in
          let gc : n ∷ d ≡ c' = ap (λ r. r.1) g in
          let r = unlink-get c code q b d u.1 f in
          (rw e (r.0 ∙ ap some ga), rw (← gc, r.1) (kept_first n code q (get_chain c q) e))
    ]
  ]

  -- The code is that of the first node.
  unfoldable pub leads : Chain A → ℤ → Bool
  leads [] code = false
  leads (n ∷ c) code = n.hash_code ==ℤ code

  pub get-del_chain :
      (c : Chain A) (code q : ℤ) (a : A) (c' : Chain A)
      → IsUnique c
      → del_chain c code ≡ some (a, c')
      → (get_chain c code ≡ some a)
        × (get_chain c' q ≡ (if leads c code || (q ==ℤ code) then none else get_chain c q))
  unfolding del_chain unlink get_chain leads
  get-del_chain [] code q a c' u h = absurd (cc)
  get-del_chain (n ∷ c) code q a c' u h = elim (Bool-cases (n.hash_code ==ℤ code)) [
    | inl e ↦
        let g = some-injective _ _ (rw e at h) in
        let ga : n.contain ≡ a = ap (λ r. r.0) g in
        let gc : [] ≡ c' = ap (λ r. r.1) g in (rw e (ap some ga), rw (← gc, e) refl)
    | inr e ↦
        let h' : unlink (n ∷ c) code ≡ some (a, c') = rw e (rw e at h) in
        let r = unlink-get (n ∷ c) code q a c' u h' in (r.0, rw e r.1)
  ]

  pub del_chain-none : (c : Chain A) (code : ℤ) → del_chain c code ≡ none → get_chain c code ≡ none
  unfolding del_chain unlink
  del_chain-none [] code h = unlink-none [] code refl
  del_chain-none (n ∷ c) code h = elim (Bool-cases (n.hash_code ==ℤ code)) [
    | inl e ↦ absurd (cc (sym (rw e at h)))
    | inr e ↦ unlink-none (n ∷ c) code (rw e (rw e at h))
  ]

  pub put_chain-IsUnique :
      (c c' : Chain A) (new : HashNode A) → IsUnique c → put_chain c new ≡ some c' → IsUnique c'
  unfolding put_chain get_chain
  put_chain-IsUnique [] c' new u h = subst IsUnique (some-injective _ _ h) (refl, tt)
  put_chain-IsUnique (n ∷ c) c' new u h = elim (Bool-cases (n.hash_code ==ℤ new.hash_code)) [
    | inl e ↦ absurd (cc (sym (rw e at h)))
    | inr e ↦ elim (Option-cases (put_chain c new)) [
      | inl f ↦ absurd (cc (sym (rw (e, f) at h)))
      | inr (d, f) ↦
          let g = some-injective _ _ (rw (e, f) at h) in
          subst IsUnique g (
            rw (get-put_chain c d new n.hash_code f)
                (rw (==ℤ_sym new.hash_code n.hash_code, e) u.0),
            put_chain-IsUnique c d new u.1 f,
          )
    ]
  ]

  -- What is left after an unlinking is part of what was there.
  unlink-IsUnique :
      (c c' : Chain A) (code : ℤ) (a : A) → IsUnique c → unlink c code ≡ some (a, c') → IsUnique c'
  unfolding unlink
  unlink-IsUnique [] c' code a u h = absurd (cc)
  unlink-IsUnique (n ∷ c) c' code a u h = elim (Bool-cases (n.hash_code ==ℤ code)) [
    | inl e ↦
        let g = some-injective _ _ (rw e at h) in
        let gc : c ≡ c' = ap (λ r. r.1) g in subst IsUnique gc u.1
    | inr e ↦ elim (Option-cases (unlink c code)) [
      | inl f ↦ absurd (cc (sym (rw (e, f) at h)))
      | inr ((b, d), f) ↦
          let g = some-injective _ _ (rw (e, f) at h) in
          let gc : n ∷ d ≡ c' = ap (λ r. r.1) g in
          let r = unlink-get c code n.hash_code b d u.1 f in
          let fresh : get_chain d n.hash_code ≡ none = rw (r.1, e, u.0) refl in
          subst IsUnique gc (fresh, unlink-IsUnique c d code b u.1 f)
    ]
  ]

  pub del_chain-IsUnique :
      (c c' : Chain A) (code : ℤ) (a : A)
      → IsUnique c
      → del_chain c code ≡ some (a, c')
      → IsUnique c'
  unfolding del_chain unlink
  del_chain-IsUnique [] c' code a u h = absurd (cc)
  del_chain-IsUnique (n ∷ c) c' code a u h = elim (Bool-cases (n.hash_code ==ℤ code)) [
    | inl e ↦
        let g = some-injective _ _ (rw e at h) in
        let gc : [] ≡ c' = ap (λ r. r.1) g in subst IsUnique gc tt
    | inr e ↦
        let h' : unlink (n ∷ c) code ≡ some (a, c') = rw e (rw e at h) in
        unlink-IsUnique (n ∷ c) c' code a u h'
  ]
