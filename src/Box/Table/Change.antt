-- ===== src/Box/Table/Change.antt =====
-- What `put_into_hash` and `del_from_hash` do to every lookup in the table.
use mathlib.Core.Option.{some-injective}
use sp.Base.{
  ℕ, ◌<◌, ◌≡◌, ◌≢◌, ◌↔◌, refl, sym, ap, subst, ◌∙◌, inl, inr, Bool, true, false, ◌&&◌, ◌||◌, Option,
  none, some, List, ◌==◌, ==_iff, if◌then◌else◌, Bool-cases, Option-cases, ℕ_discrete, length,
  get_elem?, set, length-set, get_elem?-lt, get_elem?-set_self, get_elem?-set_ne,
}
use sp.Base.Int.{ℤ, ◌==ℤ◌, ==ℤ_iff}
use sp.Box.Table.{
  HashNode, Chain, slot, put_chain, get_chain, del_chain, chain_of, stored, removed, put_into_hash,
  get_from_hash, del_from_hash,
}
use sp.Box.Table.Lookup.{
  slot-lt, get-put_chain, put_chain-none, put_chain-some, IsUnique, leads, get-del_chain,
  del_chain-none,
}

module _ {ℓ} {A : Type ℓ} where
  -- No two nodes of a chain have the same code.
  abbrev pub IsTable : List (Chain A) → Type ℓ
  IsTable h = (i : ℕ) (c : Chain A) → get_elem? h i ≡ some c → IsUnique c

  pub chain-some :
      (h : List (Chain A)) (code : ℤ) → 0 < length h → (c : Chain A) × (chain_of h code ≡ some c)
  unfolding chain_of
  chain-some h code n = get_elem?-lt h (slot code (length h)) (slot-lt code (length h) n)

  chain-set_self :
      (h : List (Chain A)) (code q : ℤ) (c : Chain A)
      → 0 < length h
      → slot code (length h) ≡ slot q (length h)
      → chain_of (set h (slot code (length h)) c) q ≡ some c
  unfolding chain_of
  chain-set_self h code q c n e =
      rw (length-set h (slot code (length h)) c, ← e)
        (get_elem?-set_self h (slot code (length h)) c (slot-lt code (length h) n))

  chain-set_ne :
      (h : List (Chain A)) (code q : ℤ) (c : Chain A)
      → slot code (length h) ≢ slot q (length h)
      → chain_of (set h (slot code (length h)) c) q ≡ chain_of h q
  unfolding chain_of
  chain-set_ne h code q c e = rw (length-set h (slot code (length h)) c) (get_elem?-set_ne h c e)

  same_chain :
      (h : List (Chain A)) (code q : ℤ)
      → slot code (length h) ≡ slot q (length h)
      → chain_of h q ≡ chain_of h code
  unfolding chain_of
  same_chain h code q e = rw e refl

  pub set-IsTable :
      (h : List (Chain A)) (i : ℕ) (c : Chain A)
      → i < length h
      → IsTable h
      → IsUnique c
      → IsTable (set h i c)
  set-IsTable h i c n t u j d e = elim (ℕ_discrete i j) [
    | yes x ↦
        let f : get_elem? (set h i c) j ≡ some c =
          subst (λ k. get_elem? (set h i c) k ≡ some c) x (get_elem?-set_self h i c n) in
        subst IsUnique (some-injective _ _ (sym f ∙ e)) u
    | no x ↦ t j d (sym (get_elem?-set_ne h c x) ∙ e)
  ]

  -- What a lookup finds, once a chain is given another content.
  pub get-set :
      (h : List (Chain A)) (code q : ℤ) (b c : Chain A)
      → 0 < length h
      → chain_of h code ≡ some b
      → get_from_hash (set h (slot code (length h)) c) q ≡ (
          if slot code (length h) == slot q (length h)
          then some (get_chain c q)
          else get_from_hash h q)
  unfolding get_from_hash
  get-set h code q b c n e = elim (Bool-cases (slot code (length h) == slot q (length h))) [
    | inl x ↦ rw (x, chain-set_self h code q c n ((==_iff _ _).0 x)) refl
    | inr x ↦
        rw
          (
            x,
            chain-set_ne h code q c
                (λ y. absurd (cc ((==_iff (slot code (length h)) (slot q (length h))).1 y))),
          )
          refl
  ]

  pub found_at :
      (h : List (Chain A)) (code : ℤ) (c : Chain A)
      → chain_of h code ≡ some c
      → get_elem? h (slot code (length h)) ≡ some c
  unfolding chain_of
  found_at h code c e = e

  pub get-same :
      (h : List (Chain A)) (code q : ℤ) (c : Chain A)
      → chain_of h code ≡ some c
      → slot code (length h) ≡ slot q (length h)
      → get_from_hash h q ≡ some (get_chain c q)
  unfolding get_from_hash
  get-same h code q c e x = rw (same_chain h code q x, e) refl

  get-put :
      (h : List (Chain A)) (contain : A) (code q : ℤ) (c d : Chain A)
      → 0 < length h
      → chain_of h code ≡ some c
      → put_chain c (record { contain = contain; hash_code = code }) ≡ some d
      → get_from_hash (set h (slot code (length h)) d) q
        ≡ (if code ==ℤ q then some (some contain) else get_from_hash h q)
  get-put h contain code q c d n e f =
      get-set h code q c d n e ∙ elim (Bool-cases (slot code (length h) == slot q (length h))) [
        | inl x ↦
            let y = (==_iff (slot code (length h)) (slot q (length h))).0 x in
            let g : get_chain d q ≡ (if code ==ℤ q then some contain else get_chain c q) =
              get-put_chain c d (record { contain = contain; hash_code = code }) q f in
            rw (x, g, get-same h code q c e y)
              (elim (Bool-cases (code ==ℤ q)) [ inl z ↦ rw z refl | inr z ↦ rw z refl ])
        | inr x ↦ elim (Bool-cases (code ==ℤ q)) [
          | inl z ↦
              let y : code ≡ q = (==ℤ_iff code q).0 z in
              let w =
                (==_iff (slot code (length h)) (slot q (length h))).1
                  (ap (λ k. slot k (length h)) y) in
              absurd (cc)
          | inr z ↦ rw (x, z) refl
        ]
      ]

  get-del :
      (h : List (Chain A)) (code q : ℤ) (c d : Chain A) (a : A)
      → 0 < length h
      → IsUnique c
      → chain_of h code ≡ some c
      → del_chain c code ≡ some (a, d)
      → get_from_hash (set h (slot code (length h)) d) q ≡ (
          if (slot code (length h) == slot q (length h)) && leads c code || (q ==ℤ code)
          then some none
          else get_from_hash h q)
  get-del h code q c d a n u e f =
      get-set h code q c d n e ∙ elim (Bool-cases (slot code (length h) == slot q (length h))) [
        | inl x ↦
            let y = (==_iff (slot code (length h)) (slot q (length h))).0 x in
            let g = (get-del_chain c code q a d u f).1 in
            rw (x, g, get-same h code q c e y)
              (elim (Bool-cases (leads c code || (q ==ℤ code))) [
                | inl z ↦ rw z refl
                | inr z ↦ rw z refl
              ])
        | inr x ↦ elim (Bool-cases (q ==ℤ code)) [
          | inl z ↦
              let y : q ≡ code = (==ℤ_iff q code).0 z in
              let w =
                (==_iff (slot code (length h)) (slot q (length h))).1
                  (ap (λ k. slot k (length h)) (sym y)) in
              absurd (cc)
          | inr z ↦ rw (x, z) refl
        ]
      ]

  -- At a table with memory for its chains `put_into_hash` succeeds exactly when no entry of the
  -- code is found; then every lookup of that code finds the new entry, and every other lookup, and
  -- every lookup after a refused call, finds what it found before.
  pub put_into_hash-get_from_hash :
      (h : List (Chain A)) (contain : A) (code : ℤ)
      → 0 < length h
      → (r : List (Chain A) × Bool) × (put_into_hash h contain code ≡ some r)
        × ((r.1 ≡ true) ↔ (get_from_hash h code ≡ some none))
        × ((q : ℤ)
            → get_from_hash r.0 q
              ≡ (if r.1 && (code ==ℤ q) then some (some contain) else get_from_hash h q))
  unfolding put_into_hash stored
  put_into_hash-get_from_hash h contain code n =
      let (c, e) = chain-some h code n in
      let new : HashNode A = record { contain = contain; hash_code = code } in
      let s : get_from_hash h code ≡ some (get_chain c code) = get-same h code code c e refl in
      elim (Option-cases (put_chain c new)) [
        | inl f ↦
            let (a, g) = put_chain-none c new f in
            (
              (h, false),
              rw (e, f) refl,
              ((λ x. absurd (cc)), (λ x. absurd (cc (sym (some-injective _ _ (sym s ∙ x)) ∙ g)))),
              (λ q. refl),
            )
        | inr (d, f) ↦ (
          (set h (slot code (length h)) d, true),
          rw (e, f) refl,
          ((λ x. s ∙ ap some (put_chain-some c d new f)), (λ x. refl)),
          (λ q. get-put h contain code q c d n e f),
        )
      ]

  -- The chain of the code starts with it.
  unfoldable pub first_of : List (Chain A) → ℤ → Bool
  unfolding chain_of leads
  first_of h code = elim (chain_of h code) [ none ↦ false | some c ↦ leads c code ]

  first_of-chain :
      (h : List (Chain A)) (code : ℤ) (c : Chain A)
      → chain_of h code ≡ some c
      → first_of h code ≡ leads c code
  unfolding first_of
  first_of-chain h code c e = rw (first_of, e) refl

  -- At a table with memory for its chains, in which no two nodes of a chain have the same code,
  -- `del_from_hash` returns what a lookup of the code finds. When that is nothing, no lookup
  -- changes. Otherwise the code is no longer found, and every other lookup finds what it found
  -- before, but for one case: when the code is that of the first node of its chain, no code of that
  -- chain's slot is found any more.
  pub del_from_hash-get_from_hash :
      (h : List (Chain A)) (code : ℤ)
      → 0 < length h
      → IsTable h
      → (r : List (Chain A) × Option A) × (del_from_hash h code ≡ some r)
        × (get_from_hash h code ≡ some r.1)
        × ((q : ℤ)
            → get_from_hash r.0 q ≡ elim r.1 [
              | none ↦ get_from_hash h q
              | some a ↦
                  if (slot code (length h) == slot q (length h)) && first_of h code || (q ==ℤ code)
                  then some none
                  else get_from_hash h q
            ])
  unfolding del_from_hash removed
  del_from_hash-get_from_hash h code n t =
      let (c, e) = chain-some h code n in
      let s : get_from_hash h code ≡ some (get_chain c code) = get-same h code code c e refl in
      let u : IsUnique c = t (slot code (length h)) c (found_at h code c e) in
      elim (Option-cases (del_chain c code)) [
        | inl f ↦ ((h, none), rw (e, f) refl, s ∙ ap some (del_chain-none c code f), (λ q. refl))
        | inr ((a, d), f) ↦ (
          (set h (slot code (length h)) d, some a),
          rw (e, f) refl,
          s ∙ ap some (get-del_chain c code code a d u f).0,
          (λ q. rw (first_of-chain h code c e) (get-del h code q c d a n u e f)),
        )
      ]
