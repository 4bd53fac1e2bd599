-- ===== src/Counting/Lines.antt =====
-- The counts, a line at a time.
use sp.Base.{
  ℕ, ◌+◌, ◌≡◌, refl, sym, ap, ◌∙◌, Bool, true, some, List, [], ◌∷◌, ◌++◌, map, append-nil,
  append_assoc, arith, Bytes, newline, All, if◌then◌else◌,
}
use sp.Counting.{in_table, check_input, count_buffer, check_file}

-- How many characters of the set a text holds.
unfoldable pub occurrences : (ℕ → Bool) → Bytes → ℕ
occurrences table [] = 0
occurrences table (c ∷ s) = (if table c then 1 else 0) + occurrences table s

-- Lines, each with its '\n'.
unfoldable pub text_of : List Bytes → Bytes
text_of [] = []
text_of (l ∷ lines) = l ++ newline ∷ text_of lines

abbrev pub IsPrintable : Bytes → Type 0
IsPrintable = All (λ c. in_table c ≡ true)

check_input-character :
    (table : ℕ → Bool) (count : ℕ) (ans : List ℕ) (c : ℕ) (s : Bytes)
    → in_table c ≡ true
    → check_input table count ans (c ∷ s)
      ≡ check_input table (if table c then count + 1 else count) ans s
unfolding check_input
check_input-character table count ans c s h = ground arith

check_input-line :
    (table : ℕ → Bool) (count : ℕ) (ans : List ℕ) (line rest : Bytes)
    → IsPrintable line
    → check_input table count ans (line ++ newline ∷ rest)
      ≡ check_input table 0 (ans ++ (count + occurrences table line) ∷ []) rest
unfolding check_input occurrences
check_input-line table count ans [] rest h =
    ap (λ n. check_input table 0 (ans ++ n ∷ []) rest) (omega arith)
check_input-line table count ans (c ∷ line) rest h =
    check_input-character table count ans c (line ++ newline ∷ rest) h.0
    ∙ check_input-line table (if table c then count + 1 else count) ans line rest h.1
    ∙ ap (λ n. check_input table 0 (ans ++ n ∷ []) rest) (ground arith)

count_buffer-character :
    (table : ℕ → Bool) (count : ℕ) (printed : List ℕ) (c : ℕ) (s : Bytes)
    → in_table c ≡ true
    → count_buffer table count printed (c ∷ s)
      ≡ count_buffer table (if table c then count + 1 else count) printed s
unfolding count_buffer
count_buffer-character table count printed c s h = ground arith

count_buffer-line :
    (table : ℕ → Bool) (count : ℕ) (printed : List ℕ) (line rest : Bytes)
    → IsPrintable line
    → count_buffer table count printed (line ++ newline ∷ rest)
      ≡ count_buffer table 0 (printed ++ (count + occurrences table line) ∷ []) rest
unfolding count_buffer occurrences
count_buffer-line table count printed [] rest h =
    ap (λ n. count_buffer table 0 (printed ++ n ∷ []) rest) (omega arith)
count_buffer-line table count printed (c ∷ line) rest h =
    count_buffer-character table count printed c (line ++ newline ∷ rest) h.0
    ∙ count_buffer-line table (if table c then count + 1 else count) printed line rest h.1
    ∙ ap (λ n. count_buffer table 0 (printed ++ n ∷ []) rest) (ground arith)

abbrev pub ArePrintable : List Bytes → Type 0
ArePrintable [] = Unit {0}
ArePrintable (l ∷ lines) = IsPrintable l × ArePrintable lines

check_input-tail :
    (table : ℕ → Bool) (count : ℕ) (ans : List ℕ) (tail : Bytes)
    → IsPrintable tail
    → check_input table count ans tail ≡ some ans
unfolding check_input
check_input-tail table count ans [] h = refl
check_input-tail table count ans (c ∷ tail) h =
    check_input-character table count ans c tail h.0
    ∙ check_input-tail table (if table c then count + 1 else count) ans tail h.1

count_buffer-tail :
    (table : ℕ → Bool) (count : ℕ) (printed : List ℕ) (tail beyond : Bytes)
    → IsPrintable tail
    → count_buffer table count printed (tail ++ 0 ∷ beyond) ≡ some printed
unfolding count_buffer
count_buffer-tail table count printed [] beyond h = refl
count_buffer-tail table count printed (c ∷ tail) beyond h =
    count_buffer-character table count printed c (tail ++ 0 ∷ beyond) h.0
    ∙ count_buffer-tail table (if table c then count + 1 else count) printed tail beyond h.1

check_input_all :
    (table : ℕ → Bool) (ans : List ℕ) (lines : List Bytes) (tail : Bytes)
    → ArePrintable lines
    → IsPrintable tail
    → check_input table 0 ans (text_of lines ++ tail) ≡ some (ans ++ map (occurrences table) lines)
unfolding text_of
check_input_all table ans [] tail h k =
    check_input-tail table 0 ans tail k ∙ ap some (sym (append-nil ans))
check_input_all table ans (l ∷ lines) tail h k =
    let n = occurrences table l in
    rw (append_assoc l (newline ∷ text_of lines) tail) (
      check_input-line table 0 ans l (text_of lines ++ tail) h.0
      ∙ ap (λ x. check_input table 0 (ans ++ x ∷ []) (text_of lines ++ tail)) (omega arith)
      ∙ check_input_all table (ans ++ n ∷ []) lines tail h.1 k
      ∙ ap some (append_assoc ans (n ∷ []) (map (occurrences table) lines)))

count_buffer_all :
    (table : ℕ → Bool) (printed : List ℕ) (lines : List Bytes) (tail beyond : Bytes)
    → ArePrintable lines
    → IsPrintable tail
    → count_buffer table 0 printed (text_of lines ++ (tail ++ 0 ∷ beyond))
      ≡ some (printed ++ map (occurrences table) lines)
unfolding text_of
count_buffer_all table printed [] tail beyond h k =
    count_buffer-tail table 0 printed tail beyond k ∙ ap some (sym (append-nil printed))
count_buffer_all table printed (l ∷ lines) tail beyond h k =
    let n = occurrences table l in
    rw (append_assoc l (newline ∷ text_of lines) (tail ++ 0 ∷ beyond)) (
      count_buffer-line table 0 printed l (text_of lines ++ (tail ++ 0 ∷ beyond)) h.0
      ∙ ap (λ x. count_buffer table 0 (printed ++ x ∷ []) (text_of lines ++ (tail ++ 0 ∷ beyond)))
          (omega arith)
      ∙ count_buffer_all table (printed ++ n ∷ []) lines tail beyond h.1 k
      ∙ ap some (append_assoc printed (n ∷ []) (map (occurrences table) lines)))

-- On a text of printable lines the input is counted line by line: one count for each complete line,
-- the number of its characters that are in the set, and none for a last line without a '\n'. A file
-- gives the same counts if the byte behind its buffer happens to be a '\0'.
pub check_file-check_input :
    (table : ℕ → Bool) (lines : List Bytes) (tail beyond : Bytes)
    → ArePrintable lines
    → IsPrintable tail
    → (check_input table 0 [] (text_of lines ++ tail) ≡ some (map (occurrences table) lines))
      × (check_file table (text_of lines ++ tail) (0 ∷ beyond)
          ≡ check_input table 0 [] (text_of lines ++ tail))
unfolding check_file
check_file-check_input table lines tail beyond h k =
    let counted = check_input_all table [] lines tail h k in
    (
      counted,
      rw (append_assoc (text_of lines) tail (0 ∷ beyond))
            (count_buffer_all table [] lines tail beyond h k)
          ∙ sym counted,
    )
