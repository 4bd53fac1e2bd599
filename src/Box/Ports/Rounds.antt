-- ===== src/Box/Ports/Rounds.antt =====
-- The port register of MP5 over all rounds of its main loop.
use mathlib.Core.Option.{some-injective}
use sp.Base.{
  ℕ, zero, suc, ◌+◌, ◌<◌, ◌≤◌, ◌≡◌, ◌≢◌, refl, sym, ap, subst, ◌∙◌, inl, inr, Bool, true, false,
  not, Option, none, some, List, [], ◌∷◌, Bytes, arith, ◌==◌, Bool-cases, Option-cases, length,
  get_elem?, take, replicate, All,
}
use sp.Base.Int.{ℤ}
use sp.Box.Table.{Chain, get_chain, get_from_hash, chain_of, slot, init_hash}
use sp.Box.Table.Unique.{init_hash-IsTable}
use sp.Box.Ports.{
  PortRecord, Register, port_of, get_port, written, web_written, asked, serve_name, handle_request,
  check_from, check_port_reserve, clean_chains, clean_port_reserve, Event, connection, idle, round,
  rounds, start_register, get_hash_code,
}
use sp.Box.Ports.Booked.{ports}
use sp.Box.Ports.Cleaned.{clean_chains-found, clean_chains-IsCleaned}
use sp.Box.Ports.Ledger.{IsRegister, book_port-IsRegister, get_port-some, web_port-IsRegister}

-- A round that finds no fault and leaves a register.
abbrev pub IsServed : Option (Register × Option ℕ) → Type 0
IsServed o = (r : Register × Option ℕ) × (o ≡ some r) × IsRegister r.0

written-IsServed : (o : Option (Register × Option ℕ)) → IsServed o → IsServed (written o)
unfolding written
written-IsServed o ((s, p), e, i) = rw e ((s, _), refl, i)

web_written-IsServed : (o : Option (Register × Option ℕ)) → IsServed o → IsServed (web_written o)
unfolding web_written
web_written-IsServed o ((s, p), e, i) = rw e ((s, _), refl, i)

serve_name-IsServed :
    (s : Register) (i : IsRegister s) (act : ℕ) (name : Bytes) → IsServed (serve_name s act name)
unfolding serve_name asked
serve_name-IsServed s i act name = elim (Bool-cases (act == b'0')) [
  | inl x ↦ rw x (written-IsServed _ (book_port-IsRegister s i get_hash_code name))
  | inr x ↦ elim (Bool-cases (act == b'1')) [
    | inl y ↦ let (o, e) = get_port-some s i get_hash_code name in rw (x, y, e) ((s, _), refl, i)
    | inr y ↦ elim (Bool-cases (act == b'2')) [
      | inl z ↦ rw (x, y, z) (web_written-IsServed _ (web_port-IsRegister s i get_hash_code name))
      | inr z ↦ rw (x, y, z) ((s, none), refl, i)
    ]
  ]
]

handle_request-IsServed :
    (s : Register) (i : IsRegister s) (bytes : Bytes) → IsServed (handle_request s bytes)
unfolding handle_request
handle_request-IsServed s i [] = ((s, none), refl, i)
handle_request-IsServed s i (act ∷ []) = ((s, none), refl, i)
handle_request-IsServed s i (act ∷ c ∷ name) = serve_name-IsServed s i act (take 512 (c ∷ name))

length-check_from :
    (i : ℕ) (rs : List Bool) (can_bind : ℕ → Bool) → length (check_from i rs can_bind) ≡ length rs
unfolding check_from
length-check_from i [] can_bind = refl
length-check_from i (r ∷ rs) can_bind = ap suc (length-check_from (i + 1) rs can_bind)

get_elem?-check_from :
    (i : ℕ) (rs : List Bool) (can_bind : ℕ → Bool) (k : ℕ)
    → k < length rs
    → get_elem? (check_from i rs can_bind) k ≡ some (not (can_bind (i + k + 2501)))
unfolding check_from
get_elem?-check_from i [] can_bind k l = absurd (omega arith)
get_elem?-check_from i (r ∷ rs) can_bind zero l = ap (λ n. some (not (can_bind n))) (omega arith)
get_elem?-check_from i (r ∷ rs) can_bind (suc k) l =
    get_elem?-check_from (i + 1) rs can_bind k (omega arith)
    ∙ ap (λ n. some (not (can_bind n))) (omega arith)

pub get_elem?-bound {ℓ} :
    {A : Type ℓ} (xs : List A) (k : ℕ) (x : A) → get_elem? xs k ≡ some x → k < length xs
get_elem?-bound [] k x e = absurd (cc)
get_elem?-bound (y ∷ ys) zero x e = omega arith
get_elem?-bound (y ∷ ys) (suc k) x e = omega (arith, get_elem?-bound ys k x e)

-- A port that was in use while the records were cleaned is so in the check that follows.
abbrev pub IsSteady : Event → Type 0
IsSteady (connection bytes) = Unit
IsSteady (idle can_bind later) = (p : ℕ) → can_bind p ≡ false → later p ≡ false

clean_port_reserve-IsRegister :
    (s : Register) (can_bind later : ℕ → Bool)
    → IsRegister s
    → IsSteady (idle can_bind later)
    → IsRegister (clean_port_reserve s can_bind later)
unfolding clean_port_reserve check_port_reserve
clean_port_reserve-IsRegister s can_bind later i h =
    let c = clean_chains-IsCleaned can_bind s i.chains i.table in
    let s' = clean_chains s s.record_hash can_bind in
    let size : length s'.port_reserve ≡ 512 = c.size ∙ i.size in
    record {
      table = c.table;
      chains = rw c.chains i.chains;
      size = length-check_from 0 s'.port_reserve later ∙ size;
      kept = λ q p x.
          let (y, z) = clean_chains-found can_bind s i.chains i.table q p x in
          let (k, e, f) = i.kept q p y in
          let l : k < length s'.port_reserve =
            omega (arith, get_elem?-bound s.port_reserve k true f, i.size) in
          let u : later (0 + k + 2501) ≡ false =
            subst (λ n. later n ≡ false) (omega arith) (h p z) in
          (k, e, get_elem?-check_from 0 s'.port_reserve later k l ∙ ap (λ b. some (not b)) u);
      apart = λ q q' p x x'.
          i.apart q q' p (clean_chains-found can_bind s i.chains i.table q p x).0
            (clean_chains-found can_bind s i.chains i.table q' p x').0;
    }

round-IsServed : (s : Register) (i : IsRegister s) (e : Event) → IsSteady e → IsServed (round s e)
unfolding round
round-IsServed s i (connection bytes) h = handle_request-IsServed s i bytes
round-IsServed s i (idle can_bind later) h = (
  (clean_port_reserve s can_bind later, none),
  refl,
  clean_port_reserve-IsRegister s can_bind later i h,
)

rounds-IsRegister :
    (s : Register) (i : IsRegister s) (es : List Event)
    → All IsSteady es
    → (s' : Register) × (rounds s es ≡ some s') × IsRegister s'
unfolding rounds
rounds-IsRegister s i [] h = (s, refl, i)
rounds-IsRegister s i (e ∷ es) (h, hs) =
    let ((s', out), x, j) = round-IsServed s i e h in rw (rounds, x) (rounds-IsRegister s' j es hs)

abbrev no_chains : ℕ → List (Chain PortRecord)
no_chains n = replicate n []

ports_empty : (n k : ℕ) (c : Chain PortRecord) → get_elem? (no_chains n) k ≡ some c → c ≡ []
ports_empty zero k c e = absurd (cc)
ports_empty (suc n) zero c e = sym (some-injective _ _ e)
ports_empty (suc n) (suc k) c e = ports_empty n k c e

no_port : (n : ℕ) (q : ℤ) (p : ℕ) → 0 < n → ports (no_chains n) q ≢ some (some p)
unfolding port_of get_from_hash chain_of get_chain
no_port n q p l e = elim (Option-cases (chain_of (no_chains n) q)) [
  | inl x ↦ let y : ports (no_chains n) q ≡ none = rw (get_from_hash, x) refl in absurd (cc)
  | inr (c, x) ↦
      let y : ports (no_chains n) q ≡ some none =
        rw (get_from_hash, x, ports_empty n (slot q (length (no_chains n))) c x) refl in
      absurd (cc)
]

-- The register before the first round.
pub start_register-IsRegister : (can_bind : ℕ → Bool) → IsRegister (start_register can_bind)
unfolding start_register check_port_reserve init_hash
start_register-IsRegister can_bind =
    let (t, l) = init_hash-IsTable {A = PortRecord} 100 (no_chains 100) refl in
    record {
      table = t;
      chains = rw l (omega arith);
      size = length-check_from 0 (replicate 512 false) can_bind;
      kept = λ q p x. absurd (no_port 100 q p (omega arith) x);
      apart = λ q q' p x. absurd (no_port 100 q p (omega arith) x);
    }

-- Whatever connections ask for, and whenever the register cleans its records, no round has a fault;
-- a port that it gives for a name is one of 2501 to 3012, and two names that it gives the same port
-- have the same code. For this a port that is in use while the records are cleaned has to be so in
-- the check that follows.
pub rounds_apart :
    (can_bind : ℕ → Bool) (es : List Event)
    → All IsSteady es
    → (s : Register) × (rounds (start_register can_bind) es ≡ some s)
      × ((name name' : Bytes) (p : ℕ)
          → get_port get_hash_code s name ≡ some (some p)
          → get_port get_hash_code s name' ≡ some (some p)
          → (2501 ≤ p) × (p ≤ 3012) × (get_hash_code name ≡ get_hash_code name'))
unfolding get_port
rounds_apart can_bind es h =
    let (s, e, i) =
      rounds-IsRegister (start_register can_bind) (start_register-IsRegister can_bind) es h in
    (
      s,
      e,
      (λ name name' p x x'.
          let (k, y, z) = i.kept (get_hash_code name) p x in
          let l = get_elem?-bound s.port_reserve k true z in
          (
            omega arith,
            omega (arith, i.size),
            i.apart (get_hash_code name) (get_hash_code name') p x x',
          )),
    )
