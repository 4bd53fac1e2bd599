-- ===== src/Loser/Record.antt =====
-- `fetch_record` of MP1/main.cpp: the commits of the record, read backwards from its end. The file
-- is its bytes and a position; a seek to before the first byte fails and moves nothing. `none` is a
-- loop that goes on for ever.
pub mod Fetch
use sp.Base.{
  ℕ, zero, suc, ◌+◌, ◌-◌, ◌*◌, ◌≤◌, ◌<◌, ◌≡◌, ◌≢◌, refl, sym, ap, subst, ◌∙◌, ◌⊎◌, inl, inr, Bool,
  true, false, not, ◌&&◌, Option, none, some, List, [], ◌∷◌, ◌++◌, append-nil, append_assoc, arith,
  Bytes, newline, Free, ltb, ◌==◌, if◌then◌else◌, ◌>>=◌, length, length-append, get_elem?, take,
  get_elem?-at, Snoc,
}

-- `fseek(record, -k, SEEK_CUR)`
unfoldable pub seek_back : ℕ → ℕ → ℕ
seek_back k pos = if ltb pos k then pos else pos - k

-- `while ((fread(buffer, 1, 1, record)) > 0)`: the new position, and the commit if its first byte
-- was found. `commit` is `commit_tmp` read backwards, as it is printed.
unfoldable pub fetch_commit : ℕ → Bytes → ℕ → ℕ → Bytes → Option (ℕ × Option Bytes)
unfolding seek_back
fetch_commit zero record_file cmp pos commit = none
fetch_commit (suc fuel) record_file cmp pos commit = elim (get_elem? record_file pos) [
  | none ↦ some (pos, none)
  | some b ↦
      let back = seek_back 2 (pos + 1) in
      let rest = fetch_commit fuel record_file cmp back (b ∷ commit) in
      if b == cmp then some (seek_back 1 back, some (b ∷ commit)) else rest
]

-- What a commit adds to `record_string`.
abbrev pub added : ℕ → Option Bytes → Bytes
added i none = []
added i (some commit) = if i == 0 then commit else newline ∷ commit

-- The loop over `number`, from `i` on.
unfoldable pub fetch_loop : ℕ → Bytes → ℕ → ℕ → ℕ → ℕ → Bytes → Option Bytes
unfolding fetch_commit
fetch_loop fuel record_file cmp zero i pos out = some out
fetch_loop fuel record_file cmp (suc number) i pos out = elim (pos == 0) [
  | true ↦ some out
  | false ↦ elim (fetch_commit fuel record_file cmp pos []) [
    | none ↦ none
    | some (pos', commit) ↦
        fetch_loop fuel record_file cmp number (i + 1) pos' (out ++ added i commit)
  ]
]

-- The seek to the last byte fails in an empty file.
unfoldable pub fetch_record : Bytes → ℕ → ℕ → Option Bytes
unfolding fetch_loop
fetch_record record_file cmp number =
    fetch_loop (suc (length record_file)) record_file cmp number 0
      (seek_back 1 (length record_file)) []

-- A record as commits write it, the newest commit first in the list and last in the file.
unfoldable pub record_text : List Bytes → Bytes
record_text [] = []
record_text (c ∷ []) = c
record_text (c ∷ d ∷ cs) = record_text (d ∷ cs) ++ newline ∷ c

-- Each commit starts with the mark, has it nowhere else and is not the mark alone.
abbrev pub AreCommits : ℕ → List Bytes → Type 0
AreCommits cmp [] = Unit {0}
AreCommits cmp (c ∷ cs) =
    ((body : Bytes) × (c ≡ cmp ∷ body) × Free cmp body × (0 < length body)) × AreCommits cmp cs

-- What is printed: the newest commit first, a '\n' between two.
unfoldable pub newest : ℕ → ℕ → List Bytes → Bytes
newest i zero cs = []
newest i (suc number) [] = []
newest i (suc number) (c ∷ cs) = added i (some c) ++ newest (i + 1) number cs
