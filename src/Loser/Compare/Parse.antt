-- ===== src/Loser/Compare/Parse.antt =====
-- A commit is taken apart as it was put together.
use sp.Base.{
  ℕ, suc, ◌+◌, ◌≤◌, ◌<◌, ◌≡◌, ◌≢◌, refl, ap, ◌∙◌, some, List, [], ◌∷◌, ◌++◌, append_assoc, arith,
  Bytes, newline, space, codes, Free, append-Free, length, length-append, All,
}
use sp.Loser.Files.{Entry}
use sp.Loser.Commit.{Report, Copy, name_lines, copy_lines, entry_lines, changes_text, commit_text}
use sp.Loser.Commit.Decimal.{to_string, stoi, stoi-to_string, to_string-Free}
use sp.Loser.Compare.{find, assign, parse_entries, parse_commit}
use sp.Loser.Compare.Find.{AreEntries, find_in, assign_in, find_name_end, back_again}
use sp.Loser.Compare.Entries.{FreeCopies, IsReport, parse_entries_lem}

pub name_lines-Free :
    (c : ℕ) (names : List Bytes) → newline ≢ c → All (Free c) names → Free c (name_lines names)
name_lines-Free c [] h k = tt
name_lines-Free c (a ∷ names) h k =
    append-Free c a (newline ∷ name_lines names) k.0 (h, name_lines-Free c names h k.1)

pub copy_lines-Free :
    (c : ℕ) (xs : List Copy)
    → newline ≢ c
    → Free c (codes " => ")
    → FreeCopies c xs
    → Free c (copy_lines xs)
copy_lines-Free c [] h a k = tt
copy_lines-Free c (x ∷ xs) h a k = append-Free c x.from _ k.0.0 (
    append-Free c (codes " => ") _ a (append-Free c x.to _ k.0.1 (h, copy_lines-Free c xs h a k.1)))

changes_text-Free : (r : Report) → IsReport r → Free b')' (changes_text r)
changes_text-Free r h = append-Free _ (codes "[new_file]\n") _ (omega arith) (
    append-Free _ (name_lines r.new_file) _ (name_lines-Free _ r.new_file (omega arith) h.new_file)
      (append-Free _ (codes "[modified]\n") _ (omega arith) (
        append-Free _ (name_lines r.modified) _
          (name_lines-Free _ r.modified (omega arith) h.modified)
          (append-Free _ (codes "[copied]\n") _ (omega arith)
            (copy_lines-Free _ r.copied (omega arith) (omega arith) h.copied)))))

-- `Compare` before its loop, by what its searches find.
parse_commit-found :
    (s num : Bytes) (b e n k q : ℕ) (es : List Entry)
    → find space s 2 ≡ some b
    → find newline s (b + 1) ≡ some e
    → assign s (b + 1) (some e) ≡ some num
    → stoi num ≡ some n
    → find b')' s e ≡ some k
    → find space s (k + 1) ≡ some q
    → parse_entries (suc (length s)) s (k + 1) (some q) ≡ some es
    → parse_commit s ≡ some (n, es)
unfolding parse_commit
parse_commit-found s num b e n k q es f1 f2 f3 f4 f5 f6 f7 =
    simp (f1, f2, f3, f4, back_again e, f5, f6, f7)

length-entry_lines : (es : List Entry) → length es ≤ length (entry_lines es)
length-entry_lines [] = omega arith
length-entry_lines (e ∷ es) = omega (
  arith,
  length-entry_lines es,
  length-append e.name (space ∷ (e.md5 ++ newline ∷ entry_lines es)),
  length-append e.md5 (newline ∷ entry_lines es),
)

parse_parts :
    (s num changes : Bytes) (n : ℕ) (e : Entry) (es : List Entry)
    → s
      ≡ codes "# commit "
        ++ (num ++ newline ∷ (changes ++ (codes "(MD5)\n" ++ entry_lines (e ∷ es))))
    → Free newline num
    → stoi num ≡ some n
    → Free b')' changes
    → AreEntries (e ∷ es)
    → parse_commit s ≡ some (n, e ∷ es)
parse_parts s num changes n e es w free value plain h =
    parse_commit-found s num 8 (9 + length num) n k (k + 1 + (1 + length e.name)) (e ∷ es)
      (find_in space s (codes "# ") (codes "commit") _ 2 w (omega arith) (omega arith))
      (find_in newline s (codes "# commit ") num _ 9 w (omega arith) free)
      (assign_in s (codes "# commit ") num _ 9 (9 + length num) w (omega arith) refl) value
      (find_in b')' s (codes "# commit " ++ num) (newline ∷ (changes ++ codes "(MD5"))
        (newline ∷ entry_lines (e ∷ es)) (9 + length num) (w ∙ simp append_assoc)
        (omega (arith, length-append (codes "# commit ") num))
        (omega arith, append-Free b')' changes (codes "(MD5") plain (omega arith)))
      (find_name_end s pre (k + 1) (e ∷ es) whole at h)
      (parse_entries_lem (suc (length s)) es s pre (k + 1) e whole at h (
        omega (
          arith,
          length-entry_lines es,
          ap length whole,
          length-append pre (newline ∷ entry_lines (e ∷ es)),
          length-entry_lines (e ∷ es),
        )))
  where
    k : ℕ
    k = 9 + length num + length (newline ∷ (changes ++ codes "(MD5"))

    pre : Bytes
    pre = codes "# commit " ++ (num ++ newline ∷ (changes ++ codes "(MD5)"))

    whole : s ≡ pre ++ newline ∷ entry_lines (e ∷ es)
    whole = w ∙ simp append_assoc

    at : k + 1 ≡ length pre
    at = omega (
      arith,
      length-append num (newline ∷ (changes ++ codes "(MD5)")),
      length-append changes (codes "(MD5"),
      length-append changes (codes "(MD5)"),
    )

abbrev commit_parts : ℕ → Report → List Entry → Bytes
commit_parts n r es =
    codes "# commit "
    ++ (to_string n ++ newline ∷ (changes_text r ++ (codes "(MD5)\n" ++ entry_lines es)))

pub commit_text_lem : (n : ℕ) (r : Report) → commit_text n r ≡ commit_parts n r r.listing
unfolding commit_text
commit_text_lem n r = refl

-- `Compare` reads back the number and the listing of a commit that it has written, if some file
-- is listed, names hold no blank and no closing bracket, and digests no '\n'.
pub parse_commit-commit_text :
    (n : ℕ) (r : Report) → IsReport r → parse_commit (commit_text n r) ≡ some (n, r.listing)
parse_commit-commit_text n r h = go r.listing refl h.entries h.some_entry
  where
    go :
        (es : List Entry)
        → r.listing ≡ es
        → AreEntries es
        → 0 < length es
        → parse_commit (commit_text n r) ≡ some (n, es)
    go [] e a l = absurd (omega arith)
    go (x ∷ es) e a l =
        parse_parts _ (to_string n) (changes_text r) n x es
          (commit_text_lem n r ∙ ap (commit_parts n r) e) (to_string-Free newline n (omega arith))
          (stoi-to_string n) (changes_text-Free r h) a
