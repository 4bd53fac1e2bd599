-- ===== src/Box/Ports.antt =====
-- MP5/src/port_register.c: the register that gives a port to each name. MP2/src/port_register.c differs
-- in `get_hash_code`, which is a parameter here, and has no `web_port`. Allocations succeed, and -1 as
-- a port is none.
pub mod Codes
pub mod Booked
pub mod Deleted
pub mod Cleaned
pub mod Ledger
pub mod Rounds
pub mod Start
use sp.Base.{
  ℕ, zero, suc, ◌+◌, ◌-◌, ◌*◌, ◌/◌, ◌%◌, ◌^◌, Bool, true, false, not, Option, none, some, List, [],
  ◌∷◌, Bytes, ltb, ◌==◌, if◌then◌else◌, length, take, set, replicate,
}
use sp.Base.Int.{ℤ, pos, negsuc, ◌==ℤ◌}
use sp.Box.Table.{
  HashNode, Chain, slot, chain_of, stored, init_hash, put_into_hash, get_from_hash, del_from_hash,
}

-- `record`
pub record PortRecord : Type 0 where
  pub name : Bytes
  pub port : ℕ

pub record Register : Type 0 where
  pub record_hash : List (Chain PortRecord)
  -- true for 1
  pub port_reserve : List Bool

-- A `char` as the 32 bits of an `int`.
unfoldable pub char_bits : ℕ → ℕ
char_bits c = if ltb c 128 then c else c + 4294967040

-- The `int` of 32 bits.
unfoldable pub int_of : ℕ → ℤ
int_of w = if ltb w 2147483648 then pos w else negsuc (4294967295 - w)

-- `get_hash_code`, whose products wrap around.
unfoldable pub code_bits : ℕ → Bytes → ℕ
unfolding char_bits
code_bits code [] = code
code_bits code (c ∷ name) = code_bits ((code * code + char_bits c) % 4294967296) name

unfoldable pub get_hash_code : Bytes → ℤ
unfolding code_bits int_of
get_hash_code name = int_of (code_bits 1 name)

-- The first port that is not reserved, from index `i` on.
unfoldable pub next_port : ℕ → List Bool → Option (ℕ × List Bool)
next_port i [] = none
next_port i (r ∷ rs) =
    let rest = next_port (i + 1) rs in
    if r
    then elim rest [ none ↦ none | some (p, rs') ↦ some (p, r ∷ rs') ]
    else some (i + 2501, true ∷ rs)

unfoldable pub get_next_port : List Bool → Option (ℕ × List Bool)
unfolding next_port
get_next_port reserve = next_port 0 reserve

-- `r->port = port`, for the record of a code.
unfoldable pub set_port : Chain PortRecord → ℤ → ℕ → Chain PortRecord
set_port [] code port = []
set_port (n ∷ c) code port =
    let rest = set_port c code port in
    if n.hash_code ==ℤ code
    then record n { contain = record n.contain { port = port } } ∷ c
    else n ∷ rest

unfoldable pub with_port : List (Chain PortRecord) → ℤ → ℕ → List (Chain PortRecord)
unfolding set_port slot chain_of
with_port h code port = elim (chain_of h code) [
  | none ↦ h
  | some c ↦ set h (slot code (length h)) (set_port c code port)
]

-- The record is new, or its port is set.
unfoldable pub booked :
    List (Chain PortRecord) → ℤ → Bytes → ℕ → Option PortRecord → Option (List (Chain PortRecord))
unfolding with_port
booked h code name port (some r) = some (with_port h code port)
booked h code name port none = elim (put_into_hash h (record { name = name; port = port }) code) [
  | none ↦ none
  | some (h', done) ↦ some h'
]

-- The port of what a lookup finds.
unfoldable pub port_of : Option (Option PortRecord) → Option (Option ℕ)
port_of none = none
port_of (some none) = some none
port_of (some (some r)) = some (some r.port)

module _ (code_of : Bytes → ℤ) where
  -- The register, and the port or -1; `none` is a fault.
  unfoldable pub book_port : Register → Bytes → Option (Register × Option ℕ)
  unfolding get_next_port booked
  book_port s name = elim (get_from_hash s.record_hash (code_of name)) [
    | none ↦ none
    | some found ↦ elim (get_next_port s.port_reserve) [
      | none ↦ some (s, none)
      | some (port, reserve) ↦ elim (booked s.record_hash (code_of name) name port found) [
        | none ↦ none
        | some h ↦ some (record { record_hash = h; port_reserve = reserve }, some port)
      ]
    ]
  ]

  unfoldable pub get_port : Register → Bytes → Option (Option ℕ)
  unfolding port_of
  get_port s name = port_of (get_from_hash s.record_hash (code_of name))

  -- Before `htonl`.
  unfoldable pub web_port : Register → Bytes → Option (Register × Option ℕ)
  unfolding get_port book_port
  web_port s name = elim (get_port s name) [
    | none ↦ none
    | some none ↦ book_port s name
    | some (some port) ↦ some (s, some port)
  ]

-- The `int` as it is written, -1 for none.
unfoldable pub word_of : Option ℕ → ℕ
word_of none = 4294967295
word_of (some port) = port

-- `htonl`, on a machine with the lowest byte first.
unfoldable pub htonl : ℕ → ℕ
htonl w = w % 256 * 16777216 + w / 256 % 256 * 65536 + w / 65536 % 256 * 256 + w / 16777216 % 256

-- What is written to the connection: `info_ret`, or nothing.
unfoldable pub written : Option (Register × Option ℕ) → Option (Register × Option ℕ)
unfolding word_of
written none = none
written (some (s, port)) = some (s, some (word_of port))

unfoldable pub web_written : Option (Register × Option ℕ) → Option (Register × Option ℕ)
unfolding word_of htonl
web_written none = none
web_written (some (s, port)) = some (s, some (htonl (word_of port)))

unfoldable pub asked : Register → Option (Option ℕ) → Option (Register × Option ℕ)
unfolding word_of
asked s none = none
asked s (some port) = some (s, some (word_of port))

-- `act` is the first byte, `name` what the second read gives, up to 512 bytes.
unfoldable pub serve_name : Register → ℕ → Bytes → Option (Register × Option ℕ)
unfolding written web_written asked book_port get_port web_port get_hash_code
serve_name s act name =
    if act == b'0'
    then written (book_port get_hash_code s name)
    else if act == b'1'
    then asked s (get_port get_hash_code s name)
    else if act == b'2'
    then web_written (web_port get_hash_code s name)
    else some (s, none)

-- The bytes that the connection has sent when it is read.
unfoldable pub handle_request : Register → Bytes → Option (Register × Option ℕ)
unfolding serve_name
handle_request s [] = some (s, none)
handle_request s (act ∷ []) = some (s, none)
handle_request s (act ∷ c ∷ name) = serve_name s act (take 512 (c ∷ name))

-- `can_bind` is whether `bind` to a port succeeds.
unfoldable pub check_from : ℕ → List Bool → (ℕ → Bool) → List Bool
check_from i [] can_bind = []
check_from i (r ∷ rs) can_bind = not (can_bind (i + 2501)) ∷ check_from (i + 1) rs can_bind

unfoldable pub check_port_reserve : Register → (ℕ → Bool) → Register
unfolding check_from
check_port_reserve s can_bind = record s { port_reserve = check_from 0 s.port_reserve can_bind }

-- One record: the port is free again, and the record goes.
unfoldable pub clean_record : Register → HashNode PortRecord → (ℕ → Bool) → Register
clean_record s n can_bind =
    if can_bind n.contain.port
    then elim (del_from_hash s.record_hash n.hash_code) [
      | none ↦ s
      | some (h, r) ↦ record {
        record_hash = h;
        port_reserve = set s.port_reserve (n.contain.port - 2501) false;
      }
    ]
    else s

unfoldable pub clean_chain : Register → Chain PortRecord → (ℕ → Bool) → Register
unfolding clean_record
clean_chain s [] can_bind = s
clean_chain s (n ∷ c) can_bind = clean_chain (clean_record s n can_bind) c can_bind

-- The chains, as they are before; those that are still to come do not change meanwhile.
unfoldable pub clean_chains : Register → List (Chain PortRecord) → (ℕ → Bool) → Register
unfolding clean_chain
clean_chains s [] can_bind = s
clean_chains s (c ∷ cs) can_bind = clean_chains (clean_chain s c can_bind) cs can_bind

-- `can_bind` in the loop over the records, and then in the check.
unfoldable pub clean_port_reserve : Register → (ℕ → Bool) → (ℕ → Bool) → Register
unfolding clean_chains check_port_reserve
clean_port_reserve s can_bind later =
    check_port_reserve (clean_chains s s.record_hash can_bind) later

-- A round of the main loop: a connection with what it sends, or none for 5 seconds.
pub data Event : Type 0 where
  connection : Bytes → Event
  idle : (ℕ → Bool) → (ℕ → Bool) → Event

unfoldable pub round : Register → Event → Option (Register × Option ℕ)
unfolding handle_request clean_port_reserve
round s (connection bytes) = handle_request s bytes
round s (idle can_bind later) = some (clean_port_reserve s can_bind later, none)

unfoldable pub rounds : Register → List Event → Option Register
unfolding round
rounds s [] = some s
rounds s (e ∷ es) = elim (round s e) [ none ↦ none | some (s', out) ↦ rounds s' es ]

-- The register before the first round.
unfoldable pub start_register : (ℕ → Bool) → Register
unfolding check_port_reserve
start_register can_bind =
    check_port_reserve
      (record { record_hash = replicate 100 []; port_reserve = replicate 512 false }) can_bind
