-- ===== src/Tests/Counting.antt =====
-- Two lines of text and the beginning of a third.
use sp.Base.{ℕ, ◌≡◌, Bool, some, List, [], ◌∷◌, ◌++◌, arith, Bytes, codes, ◌==◌}
use sp.Counting.{check_input, check_file}
use sp.Counting.Lines.{occurrences, text_of, check_file-check_input}

abbrev an_a : ℕ → Bool
an_a c = c == b'a'

abbrev two_lines : List Bytes
two_lines = codes "banana" ∷ codes "cat" ∷ []

check_file-check_input_example :
    (check_input an_a 0 [] (text_of two_lines ++ codes "a") ≡ some (3 ∷ 1 ∷ []))
    × (check_file an_a (text_of two_lines ++ codes "a") (0 ∷ 7 ∷ [])
        ≡ check_input an_a 0 [] (text_of two_lines ++ codes "a"))
unfolding occurrences
check_file-check_input_example =
    check_file-check_input an_a two_lines (codes "a") (7 ∷ []) (ground arith, (ground arith, tt))
      (ground arith)
