-- ===== src/Box/Table/Iterator.antt =====
-- MP5/src/hash.c: what that table has besides the functions of MP2: an iterator, and
-- `get_from_hash_by_path`, which takes the entry of a given content out.
use sp.Base.{
  ℕ, zero, suc, ◌+◌, ◌<◌, ◌≡◌, ◌⊎◌, refl, sym, ap, inl, inr, Bool, true, false, List, [], ◌∷◌, ◌++◌,
  arith, ◌==◌, if◌then◌else◌, length, drop,
}
use sp.Box.Table.{HashNode, Chain}

-- `it->node` is the rest of its chain from the node on, [] for NULL.
pub record HashIterator {ℓ} (A : Type ℓ) : Type ℓ where
  pub n : ℕ
  pub node : Chain A

module _ {ℓ} {A : Type ℓ} where
  -- The first chain with a node among those from index n on.
  unfoldable pub search : List (Chain A) → ℕ → HashIterator A
  search [] n = record { n = n; node = [] }
  search ([] ∷ hs) n = search hs (n + 1)
  search ((x ∷ c) ∷ hs) n = record { n = n; node = x ∷ c }

  unfoldable pub init_hash_iterator : List (Chain A) → HashIterator A
  unfolding search
  init_hash_iterator h = search h 0

  unfoldable pub add_hash_iterator : List (Chain A) → HashIterator A → HashIterator A
  unfolding search
  add_hash_iterator h it = if it.n == length h then it else elim it.node [
    | [] ↦ it
    | x ∷ c ↦ elim c [
      | [] ↦ search (drop (it.n + 1) h) (it.n + 1)
      | y ∷ d ↦ record { n = it.n; node = y ∷ d }
    ]
  ]

  -- The nodes that the iterator comes to, until it is at the end.
  unfoldable pub visit_nodes : ℕ → List (Chain A) → HashIterator A → Chain A
  unfolding add_hash_iterator
  visit_nodes zero h it = []
  visit_nodes (suc fuel) h it = elim it.node [
    | [] ↦ []
    | x ∷ c ↦ x ∷ visit_nodes fuel h (add_hash_iterator h it)
  ]

  contains : (A → Bool) → Chain A → Bool
  contains same [] = false
  contains same (x ∷ c) = let rest = contains same c in if same x.contain then true else rest

  -- From the chain of index `pos` on. As `pre` stays NULL, the whole chain goes.
  by_path_from : ℕ → List (Chain A) → (A → Bool) → List (Chain A) × ℕ
  unfolding contains
  by_path_from pos [] same = ([], 0)
  by_path_from pos (c ∷ h) same =
      let rest = by_path_from (pos + 1) h same in
      if contains same c then ([] ∷ h, pos) else (c ∷ rest.0, rest.1)

  -- `same` is the comparison with the path. What is returned is the chain's index, or 0 when nothing
  -- is found.
  unfoldable pub get_from_hash_by_path : List (Chain A) → (A → Bool) → List (Chain A) × ℕ
  unfolding by_path_from
  get_from_hash_by_path h same = by_path_from 0 h same

  -- All nodes, chain by chain.
  unfoldable pub nodes : List (Chain A) → Chain A
  nodes [] = []
  nodes (c ∷ h) = c ++ nodes h

  -- The iterator is at the end, or has a node in front of it and then the nodes of the next chains.
  IsBefore : List (Chain A) → HashIterator A → Chain A → Type ℓ
  IsBefore h it left =
      ((left ≡ []) × (it.node ≡ []) × Unit {ℓ})
      ⊎ ((it.n < length h)
          × ((x : HashNode A) × (c : Chain A) × (it.node ≡ x ∷ c)
              × (left ≡ (x ∷ c) ++ nodes (drop (it.n + 1) h))))

  drop_suc :
      (h hs : List (Chain A)) (c : Chain A) (n : ℕ)
      → drop n h ≡ c ∷ hs
      → (drop (n + 1) h ≡ hs) × (n < length h)
  drop_suc [] hs c zero e = absurd (cc)
  drop_suc [] hs c (suc n) e = absurd (cc)
  drop_suc (d ∷ h) hs c zero e = (tail_eq e, omega arith)
    where
      tail_eq : d ∷ h ≡ c ∷ hs → h ≡ hs
      tail_eq e = cc
  drop_suc (d ∷ h) hs c (suc n) e =
      let r = drop_suc h hs c n e in
      let s : suc n + 1 ≡ suc (n + 1) = omega arith in (rw s r.0, omega (arith, r.1))

  search_lem : (h hs : List (Chain A)) (n : ℕ) → drop n h ≡ hs → IsBefore h (search hs n) (nodes hs)
  unfolding IsBefore search nodes
  search_lem h [] n e = inl (refl, refl, tt)
  search_lem h ([] ∷ hs) n e = search_lem h hs (n + 1) (drop_suc h hs [] n e).0
  search_lem h ((x ∷ c) ∷ hs) n e =
      let r = drop_suc h hs (x ∷ c) n e in
      inr (r.1, (x, c, refl, ap (λ q. (x ∷ c) ++ nodes q) (sym r.0)))

  visit_nodes-IsBefore :
      (fuel : ℕ) (h : List (Chain A)) (it : HashIterator A) (left : Chain A)
      → IsBefore h it left
      → length left < fuel
      → visit_nodes fuel h it ≡ left
  unfolding IsBefore visit_nodes nodes
  visit_nodes-IsBefore zero h it left b f = absurd (omega arith)
  visit_nodes-IsBefore (suc fuel) h it left (inl (e, g, _)) f = rw (visit_nodes, g, e) refl
  visit_nodes-IsBefore (suc fuel) h it left (inr (l, (x, [], g, e))) f =
      let k : (it.n == length h) ≡ false = ground arith in
      let r =
        visit_nodes-IsBefore fuel h (search (drop (it.n + 1) h) (it.n + 1))
          (nodes (drop (it.n + 1) h)) (search_lem h (drop (it.n + 1) h) (it.n + 1) refl)
          (omega (arith, ap length e)) in
      rw (visit_nodes, g, add_hash_iterator, k, g, r) (sym e)
  visit_nodes-IsBefore (suc fuel) h it left (inr (l, (x, y ∷ d, g, e))) f =
      let k : (it.n == length h) ≡ false = ground arith in
      let r =
        visit_nodes-IsBefore fuel h (record { n = it.n; node = y ∷ d })
          ((y ∷ d) ++ nodes (drop (it.n + 1) h)) (inr (l, (y, d, refl, refl)))
          (omega (arith, ap length e)) in
      rw (visit_nodes, g, add_hash_iterator, k, g, r) (sym e)

  -- From its start on, with as many steps as there are nodes and one more, the iterator comes to every
  -- node of the table once, chain by chain.
  pub visit_nodes-nodes :
      (h : List (Chain A)) → visit_nodes (suc (length (nodes h))) h (init_hash_iterator h) ≡ nodes h
  unfolding init_hash_iterator
  visit_nodes-nodes h =
      visit_nodes-IsBefore (suc (length (nodes h))) h (search h 0) (nodes h) (search_lem h h 0 refl)
        (omega arith)
