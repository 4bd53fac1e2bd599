-- ===== src/Box/Ports/Booked.antt =====
-- The port registers of MP2 and MP5: what `book_port` does to every lookup.
use mathlib.Core.Option.{some-injective}
use sp.Base.{
  ℕ, ◌<◌, ◌≡◌, refl, sym, ap, subst, ◌∙◌, inl, inr, Bool, false, Option, none, some, List, [], ◌∷◌,
  Bytes, arith, ◌==◌, ==_iff, if◌then◌else◌, Bool-cases, Option-cases, length, set, length-set,
}
use sp.Base.Int.{ℤ, ◌==ℤ◌, ==ℤ_iff}
use sp.Box.Table.{Chain, slot, get_chain, chain_of, get_from_hash}
use sp.Box.Table.Lookup.{slot-lt, IsUnique}
use sp.Box.Table.Change.{
  IsTable, chain-some, found_at, set-IsTable, get-set, get-same, put_into_hash-get_from_hash,
}
use sp.Box.Table.Unique.{put_into_hash-IsTable}
use sp.Box.Ports.{
  PortRecord, Register, get_next_port, set_port, with_port, booked, port_of, book_port,
}

-- The port that is found for a code.
abbrev pub ports : List (Chain PortRecord) → ℤ → Option (Option ℕ)
ports h q = port_of (get_from_hash h q)

with_new : Bool → ℕ → Option PortRecord → Option PortRecord
with_new same port none = none
with_new same port (some r) = some (if same then record r { port = port } else r)

with_new-false : (port : ℕ) (o : Option PortRecord) → with_new false port o ≡ o
unfolding with_new
with_new-false port none = refl
with_new-false port (some r) = refl

get-set_port :
    (c : Chain PortRecord) (code q : ℤ) (port : ℕ)
    → get_chain (set_port c code port) q ≡ with_new (code ==ℤ q) port (get_chain c q)
unfolding get_chain set_port with_new
get-set_port [] code q port = refl
get-set_port (n ∷ c) code q port = elim (Bool-cases (n.hash_code ==ℤ code)) [
  | inl e ↦
      let a : n.hash_code ≡ code = (==ℤ_iff _ _).0 e in
      let b : (n.hash_code ==ℤ q) ≡ (code ==ℤ q) = ap (λ k. k ==ℤ q) a in
      rw (e, b)
        (elim (Bool-cases (code ==ℤ q)) [
          | inl x ↦ rw x refl
          | inr x ↦ rw x (sym (with_new-false port (get_chain c q)))
        ])
  | inr e ↦ elim (Bool-cases (n.hash_code ==ℤ q)) [
    | inl x ↦
        let y : (code ==ℤ q) ≡ false = ground (arith, ==ℤ_iff n.hash_code q, ==ℤ_iff code q) in
        rw (e, x, y) refl
    | inr x ↦ rw (e, x) (get-set_port c code q port)
  ]
]

with_new-none :
    (same : Bool) (port : ℕ) (o : Option PortRecord) → o ≡ none → with_new same port o ≡ none
unfolding with_new
with_new-none same port o e = rw e refl

set_port-IsUnique :
    (c : Chain PortRecord) (code : ℤ) (port : ℕ) → IsUnique c → IsUnique (set_port c code port)
unfolding set_port
set_port-IsUnique [] code port u = tt
set_port-IsUnique (n ∷ c) code port (a, u) = elim (Bool-cases (n.hash_code ==ℤ code)) [
  | inl e ↦ rw e (a, u)
  | inr e ↦ rw e (
    get-set_port c code n.hash_code port
        ∙ with_new-none (code ==ℤ n.hash_code) port (get_chain c n.hash_code) a,
    set_port-IsUnique c code port u,
  )
]

with_port-set :
    (h : List (Chain PortRecord)) (code : ℤ) (port : ℕ) (c : Chain PortRecord)
    → chain_of h code ≡ some c
    → with_port h code port ≡ set h (slot code (length h)) (set_port c code port)
unfolding with_port
with_port-set h code port c e = rw (with_port, e) refl

get-with_port :
    (h : List (Chain PortRecord)) (code q : ℤ) (port : ℕ) (c : Chain PortRecord) (r : PortRecord)
    → 0 < length h
    → chain_of h code ≡ some c
    → get_chain c code ≡ some r
    → ports (with_port h code port) q ≡ (if code ==ℤ q then some (some port) else ports h q)
unfolding with_new port_of
get-with_port h code q port c r n e g =
    let s = with_port-set h code port c e in
    let w = get-set h code q c (set_port c code port) n e in
    let v = get-set_port c code q port in
    rw (s, w)
      (elim (Bool-cases (slot code (length h) == slot q (length h))) [
        | inl x ↦
            let y = get-same h code q c e ((==_iff _ _).0 x) in
            elim (Bool-cases (code ==ℤ q)) [
              | inl z ↦
                  let k : get_chain c q ≡ some r =
                    subst (λ k. get_chain c k ≡ some r) ((==ℤ_iff _ _).0 z) g in
                  rw (x, v, z, k) refl
              | inr z ↦ rw (x, v, z, y, with_new-false port (get_chain c q)) refl
            ]
        | inr x ↦ elim (Bool-cases (code ==ℤ q)) [
          | inl z ↦
              let y : slot code (length h) ≡ slot q (length h) =
                ap (λ k. slot k (length h)) ((==ℤ_iff code q).0 z) in
              let w = (==_iff (slot code (length h)) (slot q (length h))).1 y in absurd (cc)
          | inr z ↦ rw (x, z) refl
        ]
      ])

-- The table after a booking: as many chains, no code twice, and the port for the code only.
abbrev pub IsBooked : List (Chain PortRecord) → List (Chain PortRecord) → ℤ → ℕ → Type 0
IsBooked h h' code port =
    IsTable h'
    × (length h' ≡ length h)
    × ((q : ℤ) → ports h' q ≡ (if code ==ℤ q then some (some port) else ports h q))

booked-IsBooked :
    (h : List (Chain PortRecord)) (code : ℤ) (name : Bytes) (port : ℕ) (found : Option PortRecord)
    → 0 < length h
    → IsTable h
    → get_from_hash h code ≡ some found
    → (h' : List (Chain PortRecord)) × (booked h code name port found ≡ some h')
      × IsBooked h h' code port
unfolding booked port_of
booked-IsBooked h code name port (some r) n t g =
    let (c, e) = chain-some h code n in
    let k : get_chain c code ≡ some r =
      some-injective _ _ (sym (get-same h code code c e refl) ∙ g) in
    let s = with_port-set h code port c e in
    (
      with_port h code port,
      refl,
      (
        rw s (
            set-IsTable h (slot code (length h)) (set_port c code port) (slot-lt code (length h) n)
              t (set_port-IsUnique c code port (t (slot code (length h)) c (found_at h code c e)))),
        rw s (length-set h (slot code (length h)) (set_port c code port)),
        (λ q. get-with_port h code q port c r n e k),
      ),
    )
booked-IsBooked h code name port none n t g =
    let new : PortRecord = record { name = name; port = port } in
    let ((h', done), e, i, f) = put_into_hash-get_from_hash h new code n in
    let (t', l) = put_into_hash-IsTable h h' new code done n t e in
    (
      h',
      rw (booked, e) refl,
      (
        t',
        l,
        (λ q.
            rw (f q, i.1 g)
              (elim (Bool-cases (code ==ℤ q)) [ inl x ↦ rw x refl | inr x ↦ rw x refl ])),
      ),
    )

-- What a booking returns, by the next port.
abbrev pub Books : Register → ℤ → Option (Register × Option ℕ) → Option (ℕ × List Bool) → Type 0
Books s code result none = result ≡ some (s, none)
Books s code result (some (port, reserve)) =
    (h' : List (Chain PortRecord)) × (result
      ≡ some (record { record_hash = h'; port_reserve = reserve }, some port))
    × IsBooked s.record_hash h' code port

-- At a table with memory for its chains, `book_port` finds no fault. When all ports are reserved it
-- returns -1 and changes nothing. Otherwise it returns the next port and reserves it, a later lookup
-- of the name's code finds this port, and every other lookup finds what it found before.
pub book_port_lem :
    (code_of : Bytes → ℤ) (s : Register) (name : Bytes)
    → 0 < length s.record_hash
    → IsTable s.record_hash
    → Books s (code_of name) (book_port code_of s name) (get_next_port s.port_reserve)
unfolding book_port
book_port_lem code_of s name n t =
    let (c, e) = chain-some s.record_hash (code_of name) n in
    let g = get-same s.record_hash (code_of name) (code_of name) c e refl in
    elim (Option-cases (get_next_port s.port_reserve)) [
      | inl x ↦ rw (book_port, x, g, x) refl
      | inr ((port, reserve), x) ↦
          let (h', b, i) =
            booked-IsBooked s.record_hash (code_of name) name port (get_chain c (code_of name)) n t
              g in
          rw x (h', rw (book_port, g, x, b) refl, i)
    ]
