-- ===== src/Tests/Box/Registers.antt =====
-- Small registers and tables of watches, for the theorems on the port registers and on the client of MP5.
use mathlib.Core.Option.{some-injective}
use sp.Base.{
  ℕ, zero, suc, ◌≤◌, ◌≡◌, refl, subst, Bool, true, false, none, some, List, [], ◌∷◌, ◌++◌, Bytes,
  codes, arith,
}
use sp.Base.Int.{ℤ, pos}
use sp.Box.Protocol.{Stat}
use sp.Box.Server.{Setup}
use sp.Box.Table.{put_into_hash, get_from_hash, get_chain}
use sp.Box.Table.Lookup.{IsUnique}
use sp.Box.Table.Change.{IsTable}
use sp.Box.Ports.{
  Register, book_port, get_next_port, get_port, get_hash_code, start_register, rounds, Event,
  connection, idle,
}
use sp.Box.Ports.Codes
use sp.Box.Ports.Codes.{booked_by_another}
use sp.Box.Ports.Rounds.{rounds_apart, start_register-IsRegister}
use sp.Box.Ports.Start.{Starts, client_start-server_start}
use sp.Box.Daemon.{Connection}
use sp.Box.Monitor.{Machine, Client, returned, out_of_rounds, no_stat}
use sp.Box.Monitor.Relative.{convert_to_relative_path, convert_to_relative_path-take, absolute}
use sp.Box.Monitor.Events as Events
use sp.Box.Monitor.Events.{handle_events, handle_events_stuck}
use sp.Tests.Box.Daemons.{Contents, no_files}

abbrev all_free : ℕ → Bool
all_free port = true

abbrev some_rounds : List Event
some_rounds = connection (codes "0ab") ∷ connection (codes "2cd") ∷ idle all_free all_free ∷ []

rounds_apart_example :
    (s : Register) × (rounds (start_register all_free) some_rounds ≡ some s)
    × ((name name' : Bytes) (p : ℕ)
        → get_port get_hash_code s name ≡ some (some p)
        → get_port get_hash_code s name' ≡ some (some p)
        → (2501 ≤ p) × (p ≤ 3012) × (get_hash_code name ≡ get_hash_code name'))
rounds_apart_example = rounds_apart all_free some_rounds (tt, (tt, ((λ p e. e), tt)))

client_start-server_start_example :
    Starts
      (start_register all_free)
      (codes "ab")
      (get_next_port (start_register all_free).port_reserve)
client_start-server_start_example =
    client_start-server_start (start_register all_free) b'a' (b'b' ∷ [])
      (start_register-IsRegister all_free) (omega arith)

-- One chain and two ports, of which one is reserved.
abbrev one_chain : Register
one_chain = record { record_hash = [] ∷ []; port_reserve = true ∷ false ∷ [] }

abbrev with_ab1234 : Register
with_ab1234 = record {
  record_hash =
      (record { contain = record { name = codes "ab1234"; port = 2502 }; hash_code = pos 825373492 }
        ∷ [])
      ∷ [];
  port_reserve = true ∷ true ∷ [];
}

one_chain-IsTable : IsTable one_chain.record_hash
one_chain-IsTable zero c e = subst IsUnique (some-injective _ _ e) tt
one_chain-IsTable (suc i) c e = absurd (cc)

ab1234_booked :
    book_port Codes.get_hash_code one_chain (codes "ab1234") ≡ some (with_ab1234, some 2502)
unfolding book_port Codes.get_hash_code get_from_hash put_into_hash
ab1234_booked = refl

booked_by_another_example :
    get_port Codes.get_hash_code with_ab1234 (codes "xyz1234") ≡ some (some 2502)
booked_by_another_example =
    booked_by_another one_chain with_ab1234 (codes "ab") (codes "xyz") (codes "1234") 2502 refl
      (omega arith) one_chain-IsTable ab1234_booked

long_path : absolute [] (codes "/a/bcd") ≡ codes "/a" ++ codes "/bcd"
unfolding absolute
long_path = refl

-- "/bcd" is cut to the length of "/a".
convert_to_relative_path-take_example :
    convert_to_relative_path (codes "/a") [] (codes "/a/bcd") (codes "junk")
    ≡ some (some (codes "/b"))
convert_to_relative_path-take_example =
    convert_to_relative_path-take (codes "/a") (codes "/bcd") (codes "junk") [] (codes "/a/bcd")
      long_path (omega arith) (omega arith)

abbrev regular : Stat
regular = record no_stat { st_mode = 32768 }

abbrev machine : Machine
machine = record {
  lstat = λ path. some regular;
  read = λ path. some (codes "x");
  chdir = λ path. true;
  inotify_add_watch = λ path. pos 1;
  md5 = λ b. b;
  junk = λ path. [];
  behind = λ path. [];
}

abbrev watching : Client
watching = record {
  client_id = 5;
  root = codes "/a";
  dir_hash = [] ∷ [];
  inotify_hash = [] ∷ [];
  ignore_inotify_event = false;
  sent = [];
  replies = [];
  unwatched = [];
}

abbrev event_of : ℤ → Events.Event
event_of wd = record {
  wd = wd;
  in_create = false;
  in_attrib = false;
  in_delete = false;
  in_isdir = false;
  name = codes "b";
}

-- The watch 1 is in the table, and a file below it is not below the root.
abbrev half_known : Client
half_known = record watching {
  root = codes "/z";
  inotify_hash = (record { contain = codes "/a"; hash_code = pos 1 } ∷ []) ∷ [];
}

one_handled : handle_events machine 2 (event_of (pos 1) ∷ []) half_known ≡ returned half_known
unfolding handle_events get_from_hash get_chain
one_handled = refl

not_there : get_from_hash half_known.inotify_hash (pos 3) ≡ some none
unfolding get_from_hash get_chain
not_there = refl

handle_events_stuck_example :
    handle_events machine 700 (event_of (pos 1) ∷ event_of (pos 3) ∷ []) half_known ≡ out_of_rounds
handle_events_stuck_example =
    handle_events_stuck machine (event_of (pos 1) ∷ []) (event_of (pos 3)) [] half_known half_known
      one_handled not_there 700

abbrev setup : Setup
setup = record { path = codes "/home"; accounts = none }

abbrev entered : Connection Contents
entered = record { fs = no_files; client = some (codes "u"); sent = [] }
