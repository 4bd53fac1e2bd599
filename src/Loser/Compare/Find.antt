-- ===== src/Loser/Compare/Find.antt =====
-- MP1/main.cpp: what `find` and `assign` give on a text that is made of parts.
use sp.Base.{
  ℕ, ◌+◌, ◌-◌, ◌≡◌, refl, ap, ◌∙◌, true, ◌&&◌, Option, none, some, List, [], ◌∷◌, ◌++◌, arith,
  Bytes, newline, space, Free, leb, length, length-append, take_front, drop_front,
}
use sp.Loser.Files.{Entry}
use sp.Loser.Commit.{entry_lines}
use sp.Loser.Compare.{find, assign}

find_from :
    (c : ℕ) (pre xs ys : Bytes)
    → Free c xs
    → find c (pre ++ (xs ++ c ∷ ys)) (length pre) ≡ some (length pre + length xs)
unfolding find
find_from c [] [] ys h = ground arith
find_from c [] (x ∷ xs) ys h = ground (arith, find_from c [] xs ys h.1)
find_from c (p ∷ pre) xs ys h = rw (find_from c pre xs ys h) (ground arith)

find_nowhere : (c : ℕ) (pre xs : Bytes) → Free c xs → find c (pre ++ xs) (length pre) ≡ none
unfolding find
find_nowhere c [] [] h = refl
find_nowhere c [] (x ∷ xs) h = ground (arith, find_nowhere c [] xs h.1)
find_nowhere c (p ∷ pre) xs h = rw (find_nowhere c pre xs h)

assign_between :
    (pre xs ys : Bytes) (from to : ℕ)
    → from ≡ length pre
    → to ≡ from + length xs
    → assign (pre ++ (xs ++ ys)) from (some to) ≡ some xs
unfolding assign
assign_between pre xs ys from to p q =
    let inside : (leb from to && leb to (length (pre ++ (xs ++ ys)))) ≡ true =
      ground (arith, length-append pre (xs ++ ys), length-append xs ys) in
    let size : to - from ≡ length xs = omega arith in
    rw (inside, size, p, drop_front pre (xs ++ ys)) (ap some (take_front xs ys))

-- The same, for a text that is known to fall into such parts.
pub find_in :
    (c : ℕ) (s pre xs ys : Bytes) (from : ℕ)
    → s ≡ pre ++ (xs ++ c ∷ ys)
    → from ≡ length pre
    → Free c xs
    → find c s from ≡ some (from + length xs)
find_in c s pre xs ys from e p h = rw (e, p) (find_from c pre xs ys h)

pub assign_in :
    (s pre xs ys : Bytes) (from to : ℕ)
    → s ≡ pre ++ (xs ++ ys)
    → from ≡ length pre
    → to ≡ from + length xs
    → assign s from (some to) ≡ some xs
assign_in s pre xs ys from to e p q = rw e (assign_between pre xs ys from to p q)

-- What an entry must be like to be read back.
pub record IsEntry (e : Entry) : Type 0 where
  pub name_space : Free space e.name
  pub md5_newline : Free newline e.md5

abbrev pub AreEntries : List Entry → Type 0
AreEntries [] = Unit {0}
AreEntries (e ∷ es) = IsEntry e × AreEntries es

-- Where the name of the first of the entries ends.
abbrev name_end : ℕ → List Entry → Option ℕ
name_end start [] = none
name_end start (e ∷ es) = some (start + (1 + length e.name))

pub find_name_end :
    (s pre : Bytes) (from : ℕ) (es : List Entry)
    → s ≡ pre ++ newline ∷ entry_lines es
    → from ≡ length pre
    → AreEntries es
    → find space s from ≡ name_end from es
find_name_end s pre from [] e p h =
    rw (e, p) (find_nowhere space pre (newline ∷ []) (omega arith, tt))
find_name_end s pre from (x ∷ es) e p h =
    find_in space s pre (newline ∷ x.name) (x.md5 ++ newline ∷ entry_lines es) from e p
      (omega arith, h.0.name_space)
    ∙ ap (λ n. some (from + n)) (omega arith)

pub back_again : (n : ℕ) → n + 1 - 1 ≡ n
back_again n = omega arith
