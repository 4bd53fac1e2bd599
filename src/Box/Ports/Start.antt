-- ===== src/Box/Ports/Start.antt =====
-- MP5/src/connect.c: `server_start` and `client_start`, which ask the port register; MP2/src/connect.c has
-- the same functions. The sockets work, and a name has at most 510 bytes.
use sp.Base.{
  ℕ, ◌+◌, ◌≤◌, ◌≡◌, refl, ap, ◌∙◌, Bool, true, false, Option, none, some, List, ◌∷◌, Bytes, arith,
  ◌==◌, if◌then◌else◌, length, get_elem?, take-length,
}
use sp.Base.Int.{ℤ, ◌==ℤ◌, ==ℤ_iff}
use sp.Box.Table.{Chain}
use sp.Box.Ports.Rounds.{get_elem?-bound}
use sp.Box.Ports.{
  PortRecord, Register, get_next_port, book_port, get_port, written, asked, word_of, serve_name,
  handle_request, get_hash_code,
}
use sp.Box.Ports.Booked.{ports, Books, book_port_lem}
use sp.Box.Ports.Ledger.{IsRegister, IsNext, get_next_port_lem}

-- The port that the register gave: `none` when nothing was read, or -1.
unfoldable pub assigned : Option ℕ → Option ℕ
assigned none = none
assigned (some reg) = if reg == 4294967295 then none else some reg

unfoldable pub answered : Option (Register × Option ℕ) → Option (Register × Option ℕ)
unfolding assigned
answered none = none
answered (some (s, reg)) = some (s, assigned reg)

unfoldable pub ask : Register → ℕ → Bytes → Option (Register × Option ℕ)
unfolding answered handle_request
ask s act name = answered (handle_request s (act ∷ name))

-- The register afterwards, and the port to listen on; `name` is that of the user.
unfoldable pub server_start : Register → Bytes → Option (Register × Option ℕ)
unfolding ask
server_start s name = ask s b'0' name

-- The port to connect to.
unfoldable pub client_start : Register → Bytes → Option (Register × Option ℕ)
unfolding ask
client_start s name = ask s b'1' name

asked_as :
    (s : Register) (act c : ℕ) (name : Bytes)
    → length (c ∷ name) ≤ 510
    → handle_request s (act ∷ c ∷ name) ≡ serve_name s act (c ∷ name)
unfolding handle_request
asked_as s act c name l = ap (serve_name s act) (take-length 512 (c ∷ name) (omega arith))

booked_answer :
    (s s' : Register) (c : ℕ) (name : Bytes) (port : Option ℕ)
    → length (c ∷ name) ≤ 510
    → book_port get_hash_code s (c ∷ name) ≡ some (s', port)
    → server_start s (c ∷ name) ≡ some (s', assigned (some (word_of port)))
unfolding server_start ask answered serve_name written
booked_answer s s' c name port l e =
    ap answered (asked_as s b'0' c name l) ∙ ap (λ o. answered (written o)) e

known_answer :
    (s : Register) (c : ℕ) (name : Bytes) (port : Option ℕ)
    → length (c ∷ name) ≤ 510
    → get_port get_hash_code s (c ∷ name) ≡ some port
    → client_start s (c ∷ name) ≡ some (s, assigned (some (word_of port)))
unfolding client_start ask answered serve_name asked
known_answer s c name port l e =
    ap answered (asked_as s b'1' c name l) ∙ ap (λ o. answered (asked s o)) e

found :
    (h' : List (Chain PortRecord)) (port : ℕ) (q : ℤ) (o : Option (Option ℕ))
    → ports h' q ≡ (if q ==ℤ q then some (some port) else o)
    → ports h' q ≡ some (some port)
found h' port q o g = let e : (q ==ℤ q) ≡ true = (==ℤ_iff q q).1 refl in rw e at g

-- What starting a server and then a client gives, by the next port.
abbrev pub Starts : Register → Bytes → Option (ℕ × List Bool) → Type 0
Starts s name none = server_start s name ≡ some (s, none)
Starts s name (some (port, reserve)) =
    (s' : Register) × (server_start s name ≡ some (s', some port))
    × (s'.port_reserve ≡ reserve)
    × (client_start s' name ≡ some (s', some port))

assigned-port :
    (s : Register) (port k : ℕ)
    → IsRegister s
    → port ≡ 0 + k + 2501
    → get_elem? s.port_reserve k ≡ some false
    → assigned (some port) ≡ some port
unfolding assigned
assigned-port s port k i e f =
    let l = get_elem?-bound s.port_reserve k false f in
    let n = i.size in let x : (port == 4294967295) ≡ false = ground arith in rw x refl

-- A server that starts is given the first port that is not reserved, and then a client that asks for
-- its name is told this port. When all ports are reserved the server does not start, and the register
-- stays as it is. Names have 1 to 510 bytes.
pub client_start-server_start :
    (s : Register) (c : ℕ) (name : Bytes)
    → IsRegister s
    → length (c ∷ name) ≤ 510
    → Starts s (c ∷ name) (get_next_port s.port_reserve)
unfolding get_port word_of assigned
client_start-server_start s c name i l =
    by_next (get_next_port s.port_reserve) (get_next_port_lem s.port_reserve)
      (book_port_lem get_hash_code s (c ∷ name) i.chains i.table)
  where
    by_next :
        (o : Option (ℕ × List Bool))
        → IsNext 0 s.port_reserve o
        → Books s (get_hash_code (c ∷ name)) (book_port get_hash_code s (c ∷ name)) o
        → Starts s (c ∷ name) o
    by_next none n b = booked_answer s s c name none l b ∙ refl
    by_next (some (port, reserve)) (k, e, f, _, _) (h', b, (t, u, g)) =
        let s' : Register = record { record_hash = h'; port_reserve = reserve } in
        let a = assigned-port s port k i e f in
        let v : get_port get_hash_code s' (c ∷ name) ≡ some (some port) =
          found h' port (get_hash_code (c ∷ name)) _ (g (get_hash_code (c ∷ name))) in
        (
          s',
          booked_answer s s' c name (some port) l b ∙ ap (λ x. some (s', x)) a,
          refl,
          known_answer s' c name (some port) l v ∙ ap (λ x. some (s', x)) a,
        )
