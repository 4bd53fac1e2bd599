-- ===== src/Loser/Compare.antt =====
-- `Compare` of MP1/main.cpp: the last commit is taken apart by `std::string::find`, then the two
-- lists are compared. `none` is an iterator behind the end of the text, or a number that is none.
pub mod Steps
pub mod Classify
pub mod Judged
pub mod Find
pub mod Entries
pub mod Parse
pub mod Listing
use sp.Base.{
  ℕ, zero, suc, ◌+◌, ◌-◌, true, false, not, ◌&&◌, Option, none, some, List, [], ◌∷◌, ◌++◌, Bytes,
  newline, space, bytes_eq, leb, ◌==◌, if◌then◌else◌, ◌>>=◌, length, take, drop,
}
use sp.Loser.Files.{Entry}
use sp.Loser.Commit.{Report}
use sp.Loser.Commit.Decimal.{stoi}

-- `s.find(c, from)`; `none` is npos.
unfoldable pub find : ℕ → Bytes → ℕ → Option ℕ
find c [] from = none
find c (x ∷ s) zero =
    let rest = find c s 0 in if x == c then some 0 else (rest >>= λ n. some (suc n))
find c (x ∷ s) (suc from) = find c s from >>= λ n. some (suc n)

-- `npos + 1` wraps to 0.
abbrev behind : Option ℕ → ℕ
behind none = 0
behind (some n) = n + 1

-- `t.assign(s.begin() + from, s.begin() + to)`
unfoldable pub assign : Bytes → ℕ → Option ℕ → Option Bytes
assign s from none = none
assign s from (some to) =
    if leb from to && leb to (length s) then some (take (to - from) (drop from s)) else none

-- The entries behind `(MD5)`: the round of the loop whose file begins behind `begin_pos`.
unfoldable pub parse_entries : ℕ → Bytes → ℕ → Option ℕ → Option (List Entry)
parse_entries zero s begin_pos end_pos = none
parse_entries (suc fuel) s begin_pos end_pos = do
  file ← assign s (begin_pos + 1) end_pos
  let line_end = find newline s (behind end_pos - 1)
  md5 ← assign s (behind end_pos) line_end
  let next = find space s (behind line_end - 1)
  let rest = parse_entries fuel s (behind line_end - 1) next
  elim next [
    | none ↦ some (record { name = file; md5 = md5 } ∷ [])
    | some _ ↦ (rest >>= λ es. some (record { name = file; md5 = md5 } ∷ es))
  ]

-- `commit_count` less one, and `last_commit_vector`.
unfoldable pub parse_commit : Bytes → Option (ℕ × List Entry)
parse_commit s = do
  let begin_pos = behind (find space s 2)
  let end_pos = find newline s begin_pos
  count ← assign s begin_pos end_pos
  n ← stoi count
  let mark = behind (find b')' s (behind end_pos - 1))
  es ← parse_entries (suc (length s)) s mark (find space s mark)
  some (n, es)

-- `MD5_map[md5]`: the file that was entered last, or the empty string.
unfoldable pub md5_map : List Entry → Bytes → Bytes
md5_map [] md5 = []
md5_map (e ∷ es) md5 = elim (md5_map es md5) [
  | [] ↦ (if bytes_eq e.md5 md5 then e.name else [])
  | c ∷ name ↦ c ∷ name
]

abbrev pub no_change : Report
no_change = record { new_file = []; modified = []; copied = []; listing = []; is_change = false }

-- A new or copied file.
unfoldable pub add_new : List Entry → Report → Entry → Report
unfolding md5_map
add_new old r e =
    let file_name = md5_map old e.md5 in
    record r {
      new_file = if bytes_eq file_name [] then r.new_file ++ e.name ∷ [] else r.new_file;
      copied =
          if not (bytes_eq file_name []) && not (bytes_eq file_name e.name)
          then r.copied ++ record { from = file_name; to = e.name } ∷ []
          else r.copied;
      listing = r.listing ++ e ∷ [];
      is_change = true;
    }

-- A file that the last commit had under the same name.
unfoldable pub add_old : Report → Entry → Entry → Report
add_old r old e =
    if bytes_eq old.md5 e.md5 then record r { listing = r.listing ++ old ∷ [] } else record r {
      modified = r.modified ++ e.name ∷ [];
      listing = r.listing ++ e ∷ [];
      is_change = true;
    }

-- `while(j < MD5_vector.size())`, when the last commit has been gone through.
unfoldable pub drain : List Entry → Report → List Entry → Report
unfolding add_new
drain old r [] = r
drain old r (e ∷ es) = drain old (add_new old r e) es

-- The loop over both lists, from `i` and `j` on.
unfoldable pub compare_loop : List Entry → List Entry → List Entry → Report → Report
unfolding add_old drain
compare_loop old [] es r = r
compare_loop old (o ∷ os) [] r = r
compare_loop old (o ∷ os) (e ∷ es) r = elim (bytes_eq o.name e.name) [
  | false ↦ compare_loop old (o ∷ os) es (add_new old r e)
  | true ↦ elim os [
    | [] ↦ drain old (add_old r o e) es
    | o' ∷ os' ↦ compare_loop old (o' ∷ os') es (add_old r o e)
  ]
]

-- `last_commit_vector` is also what `MD5_map` was filled from.
unfoldable pub compare_commits : List Entry → List Entry → Report
unfolding compare_loop
compare_commits old new = compare_loop old old new no_change
