-- ===== src/Box/Daemon/Configure.antt =====
-- MP5/src/csiebox_server.c: `parse_arg`. It reads the file as the server of MP2 does (see Box.Config), and
-- takes the number of threads and a directory to run in besides.
pub mod Same
use sp.Base.{
  ℕ, zero, suc, ◌+◌, ◌-◌, ◌*◌, Bool, true, false, ◌&&◌, ◌||◌, Option, none, some, List, [], ◌∷◌,
  Bytes, codes, bytes_eq, newline, leb, ◌==◌, if◌then◌else◌, length, take,
}
use sp.Base.Int.{ℤ, pos, negsuc}
use sp.Box.Config.{getdelim, chop, Field, given, assign, field, all_accepted}

-- `server->arg`; `thread` is none until it is given.
pub record Arg : Type 0 where
  -- `path` and `account_path`
  pub fields : List Field
  pub thread : Option ℤ
  -- the size that is tested is that of `account_path`, which is the same
  pub run_path : Field
  pub daemonize : Bool

unfoldable pub is_digit : ℕ → Bool
is_digit c = leb b'0' c && leb c b'9'

-- The digits at the front, behind a number; an `int` that is too large is outside of the model.
unfoldable pub digits : ℕ → Bytes → ℕ
unfolding is_digit
digits n [] = n
digits n (c ∷ s) = let more = digits (n * 10 + (c - b'0')) s in if is_digit c then more else n

unfoldable pub negated : ℕ → ℤ
negated zero = pos 0
negated (suc n) = negsuc n

-- `isspace`
unfoldable pub is_space : ℕ → Bool
is_space c = c == 32 || (leb 9 c && leb c 13)

unfoldable pub atoi : Bytes → ℤ
unfolding is_space digits negated
atoi [] = pos 0
atoi (c ∷ s) =
    let rest = atoi s in
    if is_space c
    then rest
    else if c == b'-'
    then negated (digits 0 s)
    else if c == b'+'
    then pos (digits 0 s)
    else pos (digits 0 (c ∷ s))

-- The comparisons of the key; the keys differ, so that their order plays no part.
unfoldable pub assign_arg : Arg → Bytes → Bytes → Arg
unfolding assign given atoi
assign_arg a key val =
    if bytes_eq (codes "thread") key
    then record a { thread = some (atoi val) }
    else if bytes_eq (codes "run_path") key
    then record a { run_path = given a.run_path val }
    else record a { fields = assign a.fields key val }

pub data ParsedArg : Type 0 where
  -- `val[-2] = '\0'`, when the file ends behind a key
  fault : ParsedArg
  config_error : ParsedArg
  accepted : Arg → ParsedArg

unfoldable pub is_given : Option ℤ → Bool
is_given none = false
is_given (some n) = true

unfoldable pub verdict : Arg → ParsedArg
unfolding all_accepted is_given
verdict a = if all_accepted a.fields && is_given a.thread then accepted a else config_error

unfoldable pub read_arg : ℕ → Bytes → Arg → ParsedArg
unfolding verdict
read_arg zero text a = fault
read_arg (suc fuel) text a = elim (getdelim b'=' text) [
  | none ↦ verdict a
  | some (key, more) ↦ if length key == 1 then verdict a else elim (getdelim newline more) [
    | none ↦ fault
    | some (val, rest) ↦ read_arg fuel rest (assign_arg a (chop key) (chop val))
  ]
]

unfoldable pub start_arg : Arg
unfolding field
start_arg = record {
  fields = field (codes "path") 4096 ∷ field (codes "account_path") 4096 ∷ [];
  thread = none;
  run_path = field (codes "run_path") 4096;
  daemonize = false;
}

-- `argv` behind the configuration file; -d is looked for only when it is the one argument.
unfoldable pub daemon_flag : List Bytes → Bool
daemon_flag [] = false
daemon_flag (a ∷ []) = bytes_eq (take 2 a) (codes "-d")
daemon_flag (a ∷ b ∷ more) = false

-- The text of the configuration file, none if it cannot be opened.
unfoldable pub parse_arg : Option Bytes → List Bytes → ParsedArg
unfolding read_arg daemon_flag start_arg
parse_arg none argv = config_error
parse_arg (some text) argv =
    read_arg (suc (length text)) text (record start_arg { daemonize = daemon_flag argv })
