-- ===== src/Box/Config.antt =====
-- MP2/src/csiebox_server.cpp and MP2/src/csiebox_client.cpp: `parse_arg`, which reads the configuration
-- file. The buffers of `server->arg` or `client->arg` are a list in the order of the comparisons, each
-- as its bytes before the first '\0'; the text has no '\0'. A value that fills its buffer is not
-- terminated there: only the bytes of the buffer are modelled.
pub mod Lines
use sp.Base.{
  ℕ, zero, suc, ◌-◌, Bool, true, false, ◌&&◌, Option, none, some, List, [], ◌∷◌, ◌++◌, Bytes, codes,
  bytes_eq, newline, leb, ltb, ◌==◌, if◌then◌else◌, length, drop,
}

-- `getdelim`: the bytes up to and including the delimiter, and what is left; `none` at the end.
unfoldable pub getdelim : ℕ → Bytes → Option (Bytes × Bytes)
getdelim d [] = none
getdelim d (c ∷ s) =
    let rest = getdelim d s in
    if c == d
    then some (c ∷ [], s)
    else elim rest [ none ↦ some (c ∷ [], []) | some r ↦ some (c ∷ r.0, r.1) ]

-- `s[len - 1] = '\0'`: without the last byte, which is the delimiter unless the file ends there.
unfoldable pub chop : Bytes → Bytes
chop [] = []
chop (c ∷ []) = []
chop (c ∷ d ∷ s) = c ∷ chop (d ∷ s)

-- `strncpy(buffer, val, strlen(val))`: the bytes behind the copy stay.
unfoldable pub overlay : Bytes → Bytes → Bytes
overlay buffer val = val ++ drop (length val) buffer

pub record Field : Type 0 where
  pub name : Bytes
  pub size : ℕ
  pub value : Bytes
  pub accept_config : Bool

unfoldable pub given : Field → Bytes → Field
unfolding overlay
given f val =
    if leb (length val) f.size
    then record { name = f.name; size = f.size; value = overlay f.value val; accept_config = true }
    else f

-- The comparisons of the key, in their order.
unfoldable pub assign : List Field → Bytes → Bytes → List Field
unfolding given
assign [] key val = []
assign (f ∷ fs) key val = if bytes_eq f.name key then given f val ∷ fs else f ∷ assign fs key val

pub data Parsed : Type 0 where
  -- `val[-2] = '\0'`, when the file ends behind a key
  fault : Parsed
  config_error : Parsed
  accepted : List Field → Parsed

unfoldable pub all_accepted : List Field → Bool
all_accepted [] = true
all_accepted (f ∷ fs) = f.accept_config && all_accepted fs

unfoldable pub verdict : List Field → Parsed
unfolding all_accepted
verdict fs = if all_accepted fs then accepted fs else config_error

unfoldable pub read_config : ℕ → Bytes → List Field → Parsed
unfolding verdict
read_config zero text fs = fault
read_config (suc fuel) text fs = elim (getdelim b'=' text) [
  | none ↦ verdict fs
  | some (key, more) ↦ if length key == 1 then verdict fs else elim (getdelim newline more) [
    | none ↦ fault
    | some (val, rest) ↦ read_config fuel rest (assign fs (chop key) (chop val))
  ]
]

-- A round reads at least one byte.
unfoldable pub parse_arg : Bytes → List Field → Parsed
unfolding read_config
parse_arg text fs = read_config (suc (length text)) text fs

unfoldable pub field : Bytes → ℕ → Field
field name size = record { name = name; size = size; value = []; accept_config = false }

unfoldable pub server_fields : List Field
unfolding field
server_fields = field (codes "path") 4096 ∷ field (codes "account_path") 4096 ∷ []

unfoldable pub client_fields : List Field
unfolding field
client_fields =
    field (codes "name") 30
    ∷ field (codes "server") 30
    ∷ field (codes "user") 30
    ∷ field (codes "passwd") 30
    ∷ field (codes "path") 4096
    ∷ []
