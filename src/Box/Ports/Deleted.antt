-- ===== src/Box/Ports/Deleted.antt =====
-- The register after a record is deleted.
use mathlib.Core.Option.{some-injective}
use sp.Base.{
  ℕ, zero, suc, ◌<◌, ◌≡◌, ◌⊎◌, refl, ap, subst, ◌∙◌, inl, inr, Bool, true, false, ◌&&◌, ◌||◌,
  Option, none, some, List, [], ◌∷◌, ◌==◌, if◌then◌else◌, Bool-cases, length, get_elem?, All,
}
use sp.Base.Int.{ℤ, ◌==ℤ◌, ==ℤ_iff}
use sp.Box.Table.{HashNode, Chain, slot, get_chain, get_from_hash, del_from_hash}
use sp.Box.Table.Change.{IsTable, first_of, del_from_hash-get_from_hash}
use sp.Box.Table.Unique.{del_from_hash-IsTable}
use sp.Box.Ports.{PortRecord, Register, port_of}
use sp.Box.Ports.Booked.{ports}

-- As many chains and as long a reserve, and each lookup finds what it found before or nothing.
pub record IsCleaned (s s' : Register) : Type 0 where
  pub table : IsTable s'.record_hash
  pub chains : length s'.record_hash ≡ length s.record_hash
  pub size : length s'.port_reserve ≡ length s.port_reserve
  pub fewer :
      (q : ℤ)
      → (ports s'.record_hash q ≡ some none) ⊎ (ports s'.record_hash q ≡ ports s.record_hash q)

pub unchanged : (s : Register) → IsTable s.record_hash → IsCleaned s s
unchanged s t = record { table = t; chains = refl; size = refl; fewer = λ q. inr refl }

pub IsCleaned-trans : {s t u : Register} → IsCleaned s t → IsCleaned t u → IsCleaned s u
IsCleaned-trans a b = record {
  table = b.table;
  chains = b.chains ∙ a.chains;
  size = b.size ∙ a.size;
  fewer = λ q. both (a.fewer q) (b.fewer q);
}
  where
    both :
        {x y z : Option (Option ℕ)}
        → (y ≡ some none) ⊎ (y ≡ x)
        → (z ≡ some none) ⊎ (z ≡ y)
        → (z ≡ some none) ⊎ (z ≡ x)
    both p (inl e) = inl e
    both (inl d) (inr e) = inl (e ∙ d)
    both (inr d) (inr e) = inr (e ∙ d)

-- What is not found stays so.
pub still_gone :
    (s s' : Register) (q : ℤ)
    → IsCleaned s s'
    → ports s.record_hash q ≡ some none
    → ports s'.record_hash q ≡ some none
still_gone s s' q k e = elim (k.fewer q) [ inl x ↦ x | inr x ↦ x ∙ e ]

none_ports :
    (b : Bool) (x y : Option (Option PortRecord))
    → x ≡ (if b then some none else y)
    → (port_of x ≡ some none) ⊎ (port_of x ≡ port_of y)
unfolding port_of
none_ports true x y e = inl (ap port_of e)
none_ports false x y e = inr (ap port_of e)

or_true : (b : Bool) → (b || true) ≡ true
or_true true = refl
or_true false = refl

pub deleted :
    (h : List (Chain PortRecord)) (code : ℤ)
    → 0 < length h
    → IsTable h
    → (h' : List (Chain PortRecord)) × (o : Option PortRecord) × (del_from_hash h code
        ≡ some (h', o))
      × IsTable h'
      × (length h' ≡ length h)
      × ((q : ℤ) → (ports h' q ≡ some none) ⊎ (ports h' q ≡ ports h q))
      × (ports h' code ≡ some none)
unfolding port_of
deleted h code l t = by_result (del_from_hash-get_from_hash h code l t)
  where
    by_result :
        (r : List (Chain PortRecord) × Option PortRecord) × (del_from_hash h code ≡ some r)
          × (get_from_hash h code ≡ some r.1)
          × ((q : ℤ)
              → get_from_hash r.0 q ≡ elim r.1 [
                | none ↦ get_from_hash h q
                | some a ↦
                    if (slot code (length h) == slot q (length h)) && first_of h code
                      || (q ==ℤ code)
                    then some none
                    else get_from_hash h q
              ])
        → (h' : List (Chain PortRecord)) × (o : Option PortRecord) × (del_from_hash h code
            ≡ some (h', o))
          × IsTable h'
          × (length h' ≡ length h)
          × ((q : ℤ) → (ports h' q ≡ some none) ⊎ (ports h' q ≡ ports h q))
          × (ports h' code ≡ some none)
    by_result ((h', none), e, g, f) =
        let (t', c) = del_from_hash-IsTable h h' code none l t e in
        (h', none, e, t', c, (λ q. inr (ap port_of (f q))), ap port_of (f code ∙ g))
    by_result ((h', some a), e, g, f) =
        let (t', c) = del_from_hash-IsTable h h' code (some a) l t e in
        (h', some a, e, t', c, (λ q. none_ports _ _ _ (f q)), self)
      where
        self : ports h' code ≡ some none
        self =
            let y : (code ==ℤ code) ≡ true = (==ℤ_iff code code).1 refl in
            let b = (slot code (length h) == slot code (length h)) && first_of h code in
            ap port_of (rw (y, or_true b) at (f code))

-- The record of a lookup in a chain is one of the chain.
pub get_chain-All {κ} :
    (P : HashNode PortRecord → Type κ) (c : Chain PortRecord) (q : ℤ) (r : PortRecord)
    → All P c
    → get_chain c q ≡ some r
    → (n : HashNode PortRecord) × P n × (n.hash_code ≡ q) × (n.contain ≡ r)
unfolding get_chain
get_chain-All P [] q r a e = absurd (cc)
get_chain-All P (n ∷ c) q r (a, as') e = elim (Bool-cases (n.hash_code ==ℤ q)) [
  | inl x ↦ (n, a, (==ℤ_iff _ _).0 x, some-injective _ _ (rw x at e))
  | inr x ↦ get_chain-All P c q r as' (rw x at e)
]

pub All-get_elem? {ℓ κ} :
    {A : Type ℓ} (P : A → Type κ) (xs : List A) (i : ℕ) (x : A)
    → All P xs
    → get_elem? xs i ≡ some x
    → P x
All-get_elem? P [] i x a e = absurd (cc)
All-get_elem? P (y ∷ ys) zero x (a, as') e = subst P (some-injective _ _ e) a
All-get_elem? P (y ∷ ys) (suc i) x (a, as') e = All-get_elem? P ys i x as' e
