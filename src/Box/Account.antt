-- ===== src/Box/Account.antt =====
-- MP2/src/csiebox_server.cpp: `get_account_info`, over the text of the account file, which has no '\0'.
pub mod Lookup
use sp.Base.{
  ℕ, zero, suc, Bool, true, false, Option, none, some, List, [], ◌∷◌, Bytes, bytes_eq, newline,
  ◌==◌, if◌then◌else◌, length,
}
use sp.Box.Config.{getdelim, chop}

-- The bytes before the first ',', and those behind it.
unfoldable pub token : Bytes → Bytes × Bytes
token [] = ([], [])
token (c ∷ s) = let rest = token s in if c == b',' then ([], s) else (c ∷ rest.0, rest.1)

-- `strtok(s, ",")`, and where the next call goes on.
unfoldable pub strtok : Bytes → Option (Bytes × Bytes)
unfolding token
strtok [] = none
strtok (c ∷ s) =
    let rest = strtok s in if c == b',' then rest else some (c ∷ (token s).0, (token s).1)

-- `none`: the account is not found. The first line without a text before its last byte ends the search.
unfoldable pub search_account : (Bytes → Bytes) → ℕ → Bytes → Bytes → Option Bytes
unfolding getdelim chop strtok
search_account md5 zero text user = none
search_account md5 (suc fuel) text user = elim (getdelim newline text) [
  | none ↦ none
  | some (line, rest) ↦
      let others = search_account md5 fuel rest user in
      if length line == 1 then none else elim (strtok (chop line)) [
        | none ↦ others
        | some (u, more) ↦
            if bytes_eq user u
            then elim (strtok more) [ none ↦ others | some (passwd, more) ↦ some (md5 passwd) ]
            else others
      ]
]

-- The digest of the account's password; the file may be missing. A round reads at least one byte.
unfoldable pub get_account_info : (Bytes → Bytes) → Option Bytes → Bytes → Option Bytes
unfolding search_account
get_account_info md5 none user = none
get_account_info md5 (some text) user = search_account md5 (suc (length text)) text user
