-- ===== src/Counting.antt =====
-- MP0/char_count.cpp: how many characters of a set each line holds. A byte outside of
-- the table of 95 is a fault, `none`.
pub mod Lines
use sp.Base.{
  ℕ, ◌+◌, ◌-◌, ◌≤◌, ◌<◌, Bool, true, false, ◌&&◌, Option, none, some, List, [], ◌∷◌, ◌++◌, Bytes,
  newline, ltb, leb, ◌==◌, if◌then◌else◌, ◌>>=◌,
}

-- `string_table[c - 32]`
abbrev pub in_table : ℕ → Bool
in_table c = leb 32 c && ltb c 127

-- `string_table`, from the characters of the set.
unfoldable pub fill_table : Bytes → (ℕ → Bool) → Option (ℕ → Bool)
fill_table [] table = some table
fill_table (c ∷ set) table =
    let rest = fill_table set (λ n. if n == c then true else table n) in
    if in_table c then rest else none

-- The loop of `check_input`, up to EOF, which a byte 255 is taken for: `char` is signed. The counts
-- are printed at the end.
unfoldable pub check_input : (ℕ → Bool) → ℕ → List ℕ → Bytes → Option (List ℕ)
check_input table count ans [] = some ans
check_input table count ans (c ∷ input) =
    let next_line = check_input table 0 (ans ++ count ∷ []) input in
    let next_char = check_input table (if table c then count + 1 else count) ans input in
    if c == 255
    then some ans
    else if c == newline
    then next_line
    else if in_table c
    then next_char
    else none

-- The loop `while(*buffer)` of `check_file`, on the buffer and the memory behind it; a count is
-- printed at the end of its line. `none` is also a read past the memory.
unfoldable pub count_buffer : (ℕ → Bool) → ℕ → List ℕ → Bytes → Option (List ℕ)
count_buffer table count printed [] = none
count_buffer table count printed (c ∷ buffer) =
    let next_line = count_buffer table 0 (printed ++ count ∷ []) buffer in
    let next_char = count_buffer table (if table c then count + 1 else count) printed buffer in
    if c == 0
    then some printed
    else if c == newline
    then next_line
    else if in_table c
    then next_char
    else none

-- The buffer has the size of the file, with no '\0' of its own: `beyond` is the memory behind it.
unfoldable pub check_file : (ℕ → Bool) → Bytes → Bytes → Option (List ℕ)
unfolding count_buffer
check_file table contents beyond = count_buffer table 0 [] (contents ++ beyond)

-- `main`: the set, and a file if one is named.
unfoldable pub main : Bytes → Option (Bytes × Bytes) → Bytes → Option (List ℕ)
unfolding fill_table check_input check_file
main set file input = fill_table set (λ n. false) >>= λ table. elim file [
  | none ↦ check_input table 0 [] input
  | some (contents, beyond) ↦ check_file table contents beyond
]
