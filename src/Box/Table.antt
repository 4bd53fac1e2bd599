-- ===== src/Box/Table.antt =====
-- MP2/src/hash.c: a table of chains; MP5/src/hash.c has the same functions. A table without memory
-- for its chains is []. Allocations are taken to succeed, and the number of chains is not negative.
pub mod Lookup
pub mod Change
pub mod Unique
pub mod Iterator
use sp.Base.{
  ℕ, zero, suc, ◌+◌, ◌-◌, ◌%◌, Bool, true, false, Option, none, some, List, [], ◌∷◌, ◌==◌,
  if◌then◌else◌, ◌>>=◌, length, get_elem?, set, replicate,
}
use sp.Base.Int.{ℤ, pos, negsuc, ◌==ℤ◌}

pub record HashNode {ℓ} (A : Type ℓ) : Type ℓ where
  pub contain : A
  pub hash_code : ℤ

abbrev pub Chain {ℓ} : Type ℓ → Type ℓ
Chain A = List (HashNode A)

-- `hash_code % n`, with n added to a negative remainder.
unfoldable pub slot : ℤ → ℕ → ℕ
slot (pos c) n = c % n
slot (negsuc c) n = if (c + 1) % n == 0 then 0 else n - (c + 1) % n

module _ {ℓ} {A : Type ℓ} where
  unfoldable pub init_hash : List (Chain A) → ℕ → Option (List (Chain A))
  init_hash [] n = if n == 0 then none else some (replicate n [])
  init_hash (c ∷ h) n = none

  -- The chain with a new node at its end; `none` if the code is there.
  unfoldable pub put_chain : Chain A → HashNode A → Option (Chain A)
  put_chain [] new = some (new ∷ [])
  put_chain (n ∷ c) new =
      if n.hash_code ==ℤ new.hash_code then none else (put_chain c new >>= λ c'. some (n ∷ c'))

  unfoldable pub get_chain : Chain A → ℤ → Option A
  get_chain [] code = none
  get_chain (n ∷ c) code = if n.hash_code ==ℤ code then some n.contain else get_chain c code

  -- `pre->next = n->next`
  unfoldable pub unlink : Chain A → ℤ → Option (A × Chain A)
  unlink [] code = none
  unlink (n ∷ c) code =
      if n.hash_code ==ℤ code
      then some (n.contain, c)
      else (unlink c code >>= λ r. some (r.0, n ∷ r.1))

  -- If the node is the first of its chain, `h->node[pos] = NULL`.
  unfoldable pub del_chain : Chain A → ℤ → Option (A × Chain A)
  unfolding unlink
  del_chain [] code = none
  del_chain (n ∷ c) code =
      if n.hash_code ==ℤ code
      then some (n.contain, [])
      else (unlink c code >>= λ r. some (r.0, n ∷ r.1))

  -- The chain of a code. A table without chains faults at `%`.
  unfoldable pub chain_of : List (Chain A) → ℤ → Option (Chain A)
  unfolding slot
  chain_of h code = get_elem? h (slot code (length h))

  unfoldable pub stored : List (Chain A) → ℤ → Option (Chain A) → List (Chain A) × Bool
  unfolding slot
  stored h code none = (h, false)
  stored h code (some c) = (set h (slot code (length h)) c, true)

  -- The table and what is returned.
  unfoldable pub put_into_hash : List (Chain A) → A → ℤ → Option (List (Chain A) × Bool)
  unfolding chain_of put_chain stored
  put_into_hash h contain code = do
    c ← chain_of h code
    some (stored h code (put_chain c (record { contain = contain; hash_code = code })))

  unfoldable pub get_from_hash : List (Chain A) → ℤ → Option (Option A)
  unfolding chain_of get_chain
  get_from_hash h code = chain_of h code >>= λ c. some (get_chain c code)

  unfoldable pub removed : List (Chain A) → ℤ → Option (A × Chain A) → List (Chain A) × Option A
  unfolding slot
  removed h code none = (h, none)
  removed h code (some r) = (set h (slot code (length h)) r.1, some r.0)

  unfoldable pub del_from_hash : List (Chain A) → ℤ → Option (List (Chain A) × Option A)
  unfolding chain_of del_chain removed
  del_from_hash h code = do c ← chain_of h code; some (removed h code (del_chain c code))

  -- `clean_hash` and `destroy_hash`, which differ in what they free.
  unfoldable pub clean_hash : List (Chain A) → List (Chain A)
  clean_hash h = []
