-- ===== src/Box/Ports/Ledger.antt =====
-- The port register of MP5: no two names that are registered under different codes have the same port.
use mathlib.Core.Option.{some-injective}
use sp.Base.{
  ℕ, zero, suc, ◌+◌, ◌<◌, ◌≡◌, ◌≢◌, ◌⊎◌, refl, sym, ap, ◌∙◌, inl, inr, Bool, true, false, Option,
  none, some, List, [], ◌∷◌, Bytes, arith, if◌then◌else◌, Bool-cases, length, get_elem?, set, All,
  length-set,
}
use sp.Base.Int.{ℤ, ◌==ℤ◌, ==ℤ_iff}
use sp.Box.Table.{Chain, get_from_hash}
use sp.Box.Table.Change.{IsTable, chain-some, get-same}
use sp.Box.Ports.{
  PortRecord, Register, next_port, get_next_port, port_of, book_port, get_port, web_port,
}
use sp.Box.Ports.Booked.{ports, IsBooked, Books, book_port_lem}

-- The next port is the first that is not reserved, and only it is reserved more.
abbrev pub IsNext : ℕ → List Bool → Option (ℕ × List Bool) → Type 0
IsNext i rs none = All (λ r. r ≡ true) rs
IsNext i rs (some (port, rs')) =
    (k : ℕ) × (port ≡ i + k + 2501)
    × (get_elem? rs k ≡ some false)
    × (rs' ≡ set rs k true)
    × ((j : ℕ) → j < k → get_elem? rs j ≡ some true)

next_port_lem : (i : ℕ) (rs : List Bool) → IsNext i rs (next_port i rs)
unfolding next_port
next_port_lem i [] = tt
next_port_lem i (false ∷ rs) = (0, omega arith, refl, refl, (λ j h. absurd (omega arith)))
next_port_lem i (true ∷ rs) = behind (next_port (i + 1) rs) (next_port_lem (i + 1) rs)
  where
    behind :
        (o : Option (ℕ × List Bool))
        → IsNext (i + 1) rs o
        → IsNext i (true ∷ rs) (elim o [ none ↦ none | some (p, rs') ↦ some (p, true ∷ rs') ])
    behind none a = (refl, a)
    behind (some (p, rs')) (k, e, f, g, l) = (suc k, omega arith, f, ap (λ x. true ∷ x) g, before)
      where
        before : (j : ℕ) → j < suc k → get_elem? (true ∷ rs) j ≡ some true
        before zero h = refl
        before (suc j) h = l j (omega arith)

-- `get_next_port` returns the first port that is not reserved and reserves it, and returns -1 only
-- when all are reserved.
pub get_next_port_lem : (reserve : List Bool) → IsNext 0 reserve (get_next_port reserve)
unfolding get_next_port
get_next_port_lem reserve = next_port_lem 0 reserve

-- Each port that is found is one of those reserved, and belongs to one code.
pub record IsRegister (s : Register) : Type 0 where
  pub table : IsTable s.record_hash
  pub chains : 0 < length s.record_hash
  pub size : length s.port_reserve ≡ 512
  pub kept :
      (q : ℤ) (p : ℕ)
      → ports s.record_hash q ≡ some (some p)
      → (k : ℕ) × (p ≡ k + 2501) × (get_elem? s.port_reserve k ≡ some true)
  pub apart :
      (q q' : ℤ) (p : ℕ)
      → ports s.record_hash q ≡ some (some p)
      → ports s.record_hash q' ≡ some (some p)
      → q ≡ q'

set-keeps :
    (rs : List Bool) (k j : ℕ)
    → get_elem? rs j ≡ some true
    → get_elem? (set rs k true) j ≡ some true
set-keeps [] k j e = absurd (cc)
set-keeps (r ∷ rs) zero zero e = refl
set-keeps (r ∷ rs) zero (suc j) e = e
set-keeps (r ∷ rs) (suc k) zero e = e
set-keeps (r ∷ rs) (suc k) (suc j) e = set-keeps rs k j e

set-reserves :
    (rs : List Bool) (k : ℕ) → get_elem? rs k ≡ some false → get_elem? (set rs k true) k ≡ some true
set-reserves [] k e = absurd (cc)
set-reserves (r ∷ rs) zero e = refl
set-reserves (r ∷ rs) (suc k) e = set-reserves rs k e

-- A port that is found after a booking was found before, or is the new one.
found_in :
    (h h' : List (Chain PortRecord)) (code q : ℤ) (port p : ℕ)
    → ports h' q ≡ (if code ==ℤ q then some (some port) else ports h q)
    → ports h' q ≡ some (some p)
    → ((code ≡ q) × (port ≡ p)) ⊎ (ports h q ≡ some (some p))
found_in h h' code q port p f e = elim (Bool-cases (code ==ℤ q)) [
  | inl x ↦ inl ((==ℤ_iff _ _).0 x, some-injective _ _ (some-injective _ _ (sym (rw x at f) ∙ e)))
  | inr x ↦ inr (sym (rw x at f) ∙ e)
]

module _ (s : Register) (i : IsRegister s) where
  booked-IsRegister :
      (code : ℤ) (port : ℕ) (reserve : List Bool) (h' : List (Chain PortRecord))
      → IsNext 0 s.port_reserve (some (port, reserve))
      → IsBooked s.record_hash h' code port
      → IsRegister (record { record_hash = h'; port_reserve = reserve })
  booked-IsRegister code port reserve h' (k, e, f, g, _) (t, l, b) = record {
    table = t;
    chains = rw l i.chains;
    size = rw g (length-set s.port_reserve k true ∙ i.size);
    kept = λ q p x. kept' q p x;
    apart = λ q q' p x x'. apart' q q' p x x';
  }
    where
      kept' :
          (q : ℤ) (p : ℕ)
          → ports h' q ≡ some (some p)
          → (k : ℕ) × (p ≡ k + 2501) × (get_elem? reserve k ≡ some true)
      kept' q p x = elim (found_in s.record_hash h' code q port p (b q) x) [
        | inl (c, d) ↦ (k, omega arith, rw g (set-reserves s.port_reserve k f))
        | inr c ↦ let (j, y, z) = i.kept q p c in (j, y, rw g (set-keeps s.port_reserve k j z))
      ]

      new : (q : ℤ) → ports s.record_hash q ≢ some (some port)
      new q x =
          let (j, y, z) = i.kept q port x in
          let same : k ≡ j = omega arith in
          let w : get_elem? s.port_reserve k ≡ some true = rw same z in absurd (cc)

      apart' :
          (q q' : ℤ) (p : ℕ) → ports h' q ≡ some (some p) → ports h' q' ≡ some (some p) → q ≡ q'
      apart' q q' p x x' =
          both (found_in s.record_hash h' code q port p (b q) x)
            (found_in s.record_hash h' code q' port p (b q') x')
        where
          both :
              ((code ≡ q) × (port ≡ p)) ⊎ (ports s.record_hash q ≡ some (some p))
              → ((code ≡ q') × (port ≡ p)) ⊎ (ports s.record_hash q' ≡ some (some p))
              → q ≡ q'
          both (inl (c, d)) (inl (c', d')) = sym c ∙ c'
          both (inl (c, d)) (inr c') = absurd (new q' (c' ∙ ap (λ n. some (some n)) (sym d)))
          both (inr c) (inl (c', d')) = absurd (new q (c ∙ ap (λ n. some (some n)) (sym d')))
          both (inr c) (inr c') = i.apart q q' p c c'

  pub book_port-IsRegister :
      (code_of : Bytes → ℤ) (name : Bytes)
      → (r : Register × Option ℕ) × (book_port code_of s name ≡ some r) × IsRegister r.0
  book_port-IsRegister code_of name =
      by_next (get_next_port s.port_reserve) (get_next_port_lem s.port_reserve)
        (book_port_lem code_of s name i.chains i.table)
    where
      by_next :
          (o : Option (ℕ × List Bool))
          → IsNext 0 s.port_reserve o
          → Books s (code_of name) (book_port code_of s name) o
          → (r : Register × Option ℕ) × (book_port code_of s name ≡ some r) × IsRegister r.0
      by_next none a e = ((s, none), e, i)
      by_next (some (port, reserve)) a (h', e, b) = (
        (record { record_hash = h'; port_reserve = reserve }, some port),
        e,
        booked-IsRegister (code_of name) port reserve h' a b,
      )

  pub get_port-some :
      (code_of : Bytes → ℤ) (name : Bytes) → (o : Option ℕ) × (get_port code_of s name ≡ some o)
  unfolding get_port port_of
  get_port-some code_of name =
      let (c, e) = chain-some s.record_hash (code_of name) i.chains in
      let g = get-same s.record_hash (code_of name) (code_of name) c e refl in
      by_found _ (get_from_hash s.record_hash (code_of name)) g
    where
      by_found :
          (o : Option PortRecord) (f : Option (Option PortRecord))
          → f ≡ some o
          → (p : Option ℕ) × (port_of f ≡ some p)
      by_found o none g = absurd (cc)
      by_found o (some none) g = (none, refl)
      by_found o (some (some r)) g = (some r.port, refl)

  pub web_port-IsRegister :
      (code_of : Bytes → ℤ) (name : Bytes)
      → (r : Register × Option ℕ) × (web_port code_of s name ≡ some r) × IsRegister r.0
  unfolding web_port
  web_port-IsRegister code_of name =
      by_port (get_port-some code_of name).0 (get_port-some code_of name).1
    where
      by_port :
          (o : Option ℕ)
          → get_port code_of s name ≡ some o
          → (r : Register × Option ℕ) × (web_port code_of s name ≡ some r) × IsRegister r.0
      by_port none e =
          let (r, b, j) = book_port-IsRegister code_of name in (r, rw (web_port, e) b, j)
      by_port (some p) e = ((s, some p), rw (web_port, e) refl, i)
