-- ===== src/Box/Table/Unique.antt =====
-- MP2/src/hash.c: what `init_hash`, `put_into_hash` and `del_from_hash` keep of the table.
use mathlib.Core.Option.{some-injective}
use sp.Base.{
  ℕ, zero, suc, ◌<◌, ◌≡◌, refl, sym, ap, subst, inl, inr, Bool, Option, some, List, [], ◌==◌,
  Bool-cases, Option-cases, length, set, length-set, replicate,
}
use sp.Base.Int.{ℤ}
use sp.Box.Table.{
  HashNode, Chain, slot, init_hash, put_chain, del_chain, stored, removed, put_into_hash,
  del_from_hash,
}
use sp.Box.Table.Lookup.{slot-lt, IsUnique, put_chain-IsUnique, del_chain-IsUnique}
use sp.Box.Table.Change.{IsTable, chain-some, set-IsTable, found_at}

length-replicate {ℓ} : {A : Type ℓ} → (n : ℕ) (a : A) → length (replicate n a) ≡ n
length-replicate zero a = refl
length-replicate (suc n) a = ap suc (length-replicate n a)

module _ {ℓ} {A : Type ℓ} where
  empty-IsTable : (n : ℕ) → IsTable {A = A} (replicate n [])
  empty-IsTable zero i c h = absurd (cc)
  empty-IsTable (suc n) zero c h = subst IsUnique (some-injective _ _ h) tt
  empty-IsTable (suc n) (suc i) c h = empty-IsTable n i c h

  -- A new table.
  pub init_hash-IsTable :
      (n : ℕ) (h : List (Chain A)) → init_hash [] n ≡ some h → IsTable h × (length h ≡ n)
  unfolding init_hash
  init_hash-IsTable n h e = elim (Bool-cases (n == 0)) [
    | inl x ↦ absurd (cc (sym (rw x at e)))
    | inr x ↦
        subst (λ h. IsTable h × (length h ≡ n)) (some-injective _ _ (rw x at e))
          (empty-IsTable n, length-replicate n [])
  ]

  -- The table stays one of that many chains without a code twice.
  pub put_into_hash-IsTable :
      (h h' : List (Chain A)) (a : A) (code : ℤ) (ok : Bool)
      → 0 < length h
      → IsTable h
      → put_into_hash h a code ≡ some (h', ok)
      → IsTable h' × (length h' ≡ length h)
  unfolding put_into_hash stored
  put_into_hash-IsTable h h' a code ok n t p =
      let (c, e) = chain-some h code n in
      let u : IsUnique c = t (slot code (length h)) c (found_at h code c e) in
      let new : HashNode A = record { contain = a; hash_code = code } in
      elim (Option-cases (put_chain c new)) [
        | inl f ↦
            let g : h ≡ h' = ap (λ r. r.0) (some-injective _ _ (rw (e, f) at p)) in
            subst (λ k. IsTable k × (length k ≡ length h)) g (t, refl)
        | inr (d, f) ↦
            let g : set h (slot code (length h)) d ≡ h' =
              ap (λ r. r.0) (some-injective _ _ (rw (e, f) at p)) in
            subst (λ k. IsTable k × (length k ≡ length h)) g
              (
                set-IsTable h (slot code (length h)) d (slot-lt code (length h) n) t
                    (put_chain-IsUnique c d new u f),
                length-set h (slot code (length h)) d,
              )
      ]

  -- And so does a table from which an entry is deleted.
  pub del_from_hash-IsTable :
      (h h' : List (Chain A)) (code : ℤ) (o : Option A)
      → 0 < length h
      → IsTable h
      → del_from_hash h code ≡ some (h', o)
      → IsTable h' × (length h' ≡ length h)
  unfolding del_from_hash removed
  del_from_hash-IsTable h h' code o n t p =
      let (c, e) = chain-some h code n in
      let u : IsUnique c = t (slot code (length h)) c (found_at h code c e) in
      elim (Option-cases (del_chain c code)) [
        | inl f ↦
            let g : h ≡ h' = ap (λ r. r.0) (some-injective _ _ (rw (e, f) at p)) in
            subst (λ k. IsTable k × (length k ≡ length h)) g (t, refl)
        | inr ((a, d), f) ↦
            let g : set h (slot code (length h)) d ≡ h' =
              ap (λ r. r.0) (some-injective _ _ (rw (e, f) at p)) in
            subst (λ k. IsTable k × (length k ≡ length h)) g
              (
                set-IsTable h (slot code (length h)) d (slot-lt code (length h) n) t
                    (del_chain-IsUnique c d code a u f),
                length-set h (slot code (length h)) d,
              )
      ]
