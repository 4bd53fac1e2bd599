-- ===== src/Box/Account/Lookup.antt =====
-- MP2: `get_account_info` over a file of lines `user,password`.
use sp.Base.{
  ℕ, zero, suc, ◌≤◌, ◌<◌, ◌≡◌, refl, inl, inr, Option, none, some, List, [], ◌∷◌, ◌++◌, arith,
  Bytes, Free, append-Free, bytes_eq, newline, if◌then◌else◌, length, length-append, Bool-cases,
}
use sp.Box.Config.{getdelim}
use sp.Box.Config.Lines.{getdelim-append, chop-append, length-end}
use sp.Box.Account.{token, strtok, search_account, get_account_info}

abbrev pub line_of : Bytes × Bytes → Bytes
line_of (user, passwd) = user ++ b',' ∷ passwd

abbrev pub account_file : List (Bytes × Bytes) → Bytes
account_file [] = []
account_file (a ∷ all) = line_of a ++ newline ∷ account_file all

-- Neither name nor password is empty or has a ',' or a newline.
abbrev pub IsAccount : Bytes × Bytes → Type 0
IsAccount (user, passwd) =
    ((0 < length user) × Free b',' user × Free newline user)
    × ((0 < length passwd) × Free b',' passwd × Free newline passwd)

abbrev pub AreAccounts : List (Bytes × Bytes) → Type 0
AreAccounts [] = Unit
AreAccounts (a ∷ all) = IsAccount a × AreAccounts all

-- The password of the first account of the name.
unfoldable pub find_account : List (Bytes × Bytes) → Bytes → Option Bytes
find_account [] user = none
find_account ((u, passwd) ∷ all) user =
    let others = find_account all user in if bytes_eq user u then some passwd else others

token-append : (u rest : Bytes) → Free b',' u → token (u ++ b',' ∷ rest) ≡ (u, rest)
unfolding token
token-append [] rest h = refl
token-append (c ∷ u) rest (n, h) = ground (arith, token-append u rest h)

token-all : (u : Bytes) → Free b',' u → token u ≡ (u, [])
unfolding token
token-all [] h = refl
token-all (c ∷ u) (n, h) = ground (arith, token-all u h)

strtok-append :
    (u rest : Bytes) → 0 < length u → Free b',' u → strtok (u ++ b',' ∷ rest) ≡ some (u, rest)
unfolding strtok
strtok-append [] rest n h = elim n [ ]
strtok-append (c ∷ u) rest n (k, h) = ground (arith, token-append u rest h)

strtok-all : (u : Bytes) → 0 < length u → Free b',' u → strtok u ≡ some (u, [])
unfolding strtok
strtok-all [] n h = elim n [ ]
strtok-all (c ∷ u) n (k, h) = ground (arith, token-all u h)

line_of-Free : (a : Bytes × Bytes) → IsAccount a → Free newline (line_of a)
line_of-Free (user, passwd) ((n, c, f), (n', c', f')) =
    append-Free newline user (b',' ∷ passwd) f ((λ e. absurd (omega (arith, e))), f')

length-account_file : (all : List (Bytes × Bytes)) → length all ≤ length (account_file all)
length-account_file [] = omega arith
length-account_file (a ∷ all) = grind (arith, length-append, length-account_file all)

search_account-file :
    (md5 : Bytes → Bytes) (fuel : ℕ) (all : List (Bytes × Bytes)) (user : Bytes)
    → AreAccounts all
    → length all < fuel
    → search_account md5 fuel (account_file all) user
      ≡ elim (find_account all user) [ none ↦ none | some passwd ↦ some (md5 passwd) ]
unfolding search_account find_account getdelim
search_account-file md5 zero all user h n = absurd (omega arith)
search_account-file md5 (suc fuel) [] user h n = refl
search_account-file md5 (suc fuel) ((u, passwd) ∷ all) user (a, h) n =
    rw
      (
        search_account,
        getdelim-append newline (line_of (u, passwd)) (account_file all)
            (line_of-Free (u, passwd) a),
        length-end (line_of (u, passwd)) newline (grind (arith, length-append, a.0.0)),
        chop-append (line_of (u, passwd)) newline,
        strtok-append u passwd a.0.0 a.0.1,
        strtok-all passwd a.1.0 a.1.1,
        search_account-file md5 fuel all user h (omega arith),
      )
      (elim (Bool-cases (bytes_eq user u)) [ inl e ↦ rw e refl | inr e ↦ rw e refl ])

pub get_account_info-file :
    (md5 : Bytes → Bytes) (all : List (Bytes × Bytes)) (user : Bytes)
    → AreAccounts all
    → get_account_info md5 (some (account_file all)) user
      ≡ elim (find_account all user) [ none ↦ none | some passwd ↦ some (md5 passwd) ]
unfolding get_account_info
get_account_info-file md5 all user h =
    search_account-file md5 (suc (length (account_file all))) all user h
      (omega (arith, length-account_file all))
