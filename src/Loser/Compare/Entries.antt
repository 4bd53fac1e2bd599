-- ===== src/Loser/Compare/Entries.antt =====
-- MP1/main.cpp: the entries of a commit's text are read back.
use sp.Base.{
  ℕ, zero, suc, ◌+◌, ◌<◌, ◌≡◌, sym, ap, ◌∙◌, none, some, List, [], ◌∷◌, ◌++◌, append_assoc, arith,
  Bytes, newline, space, Free, length, length-append, All,
}
use sp.Loser.Files.{Entry}
use sp.Loser.Commit.{Report, Copy, entry_lines}
use sp.Loser.Compare.{find, assign, parse_entries}
use sp.Loser.Compare.Find.{IsEntry, AreEntries, find_in, assign_in, find_name_end, back_again}

-- One round, by what its searches find.
parse_entries-last :
    (fuel : ℕ) (s file md5 : Bytes) (from to line_end : ℕ)
    → assign s (from + 1) (some to) ≡ some file
    → find newline s to ≡ some line_end
    → assign s (to + 1) (some line_end) ≡ some md5
    → find space s line_end ≡ none
    → parse_entries (suc fuel) s from (some to) ≡ some (record { name = file; md5 = md5 } ∷ [])
unfolding parse_entries
parse_entries-last fuel s file md5 from to line_end a b c d =
    rw (a, back_again to, b, c, back_again line_end, d)

parse_entries-more :
    (fuel : ℕ) (s file md5 : Bytes) (from to line_end next : ℕ) (es : List Entry)
    → assign s (from + 1) (some to) ≡ some file
    → find newline s to ≡ some line_end
    → assign s (to + 1) (some line_end) ≡ some md5
    → find space s line_end ≡ some next
    → parse_entries fuel s line_end (some next) ≡ some es
    → parse_entries (suc fuel) s from (some to) ≡ some (record { name = file; md5 = md5 } ∷ es)
unfolding parse_entries
parse_entries-more fuel s file md5 from to line_end next es a b c d e =
    simp (a, back_again to, b, c, back_again line_end, d, e)

-- What a round finds in the text of an entry with more lines behind it, from its line's start on.
record Found (s : Bytes) (from : ℕ) (e : Entry) (pre rest : Bytes) : Type 0 where
  file : assign s (from + 1) (some (from + (1 + length e.name))) ≡ some e.name
  line :
      find newline s (from + (1 + length e.name))
      ≡ some (from + (1 + length e.name) + (1 + length e.md5))
  md5 :
      assign s
        (from + (1 + length e.name) + 1)
        (some (from + (1 + length e.name) + (1 + length e.md5)))
      ≡ some e.md5
  behind_it : s ≡ (pre ++ newline ∷ (e.name ++ space ∷ e.md5)) ++ newline ∷ rest
  at :
      from + (1 + length e.name) + (1 + length e.md5)
      ≡ length (pre ++ newline ∷ (e.name ++ space ∷ e.md5))

entry-Found :
    (s pre rest : Bytes) (from : ℕ) (e : Entry)
    → s ≡ pre ++ newline ∷ (e.name ++ space ∷ (e.md5 ++ newline ∷ rest))
    → from ≡ length pre
    → IsEntry e
    → Found s from e pre rest
entry-Found s pre rest from e w p h = record {
  file =
      assign_in s (pre ++ newline ∷ []) e.name _ (from + 1) _ (w ∙ sym (append_assoc pre _ _))
        (omega (arith, length-append pre (newline ∷ []))) (omega arith);
  line =
      find_in newline s (pre ++ newline ∷ e.name) (space ∷ e.md5) rest (from + (1 + length e.name))
        (w ∙ simp append_assoc) (omega (arith, length-append pre (newline ∷ e.name)))
        (omega arith, h.md5_newline)
      ∙ ap (λ n. some (from + (1 + length e.name) + n)) one_more;
  md5 =
      assign_in s (pre ++ newline ∷ (e.name ++ space ∷ [])) e.md5 (newline ∷ rest) _ _
        (w ∙ simp append_assoc)
        (omega (
          arith,
          length-append pre (newline ∷ (e.name ++ space ∷ [])),
          length-append e.name (space ∷ []),
        ))
        (omega arith);
  behind_it = w ∙ simp append_assoc;
  at = omega (
    arith,
    length-append pre (newline ∷ (e.name ++ space ∷ e.md5)),
    length-append e.name (space ∷ e.md5),
  );
}
  where
    one_more : suc (length e.md5) ≡ 1 + length e.md5
    one_more = omega arith

pub parse_entries_lem :
    (fuel : ℕ) (es : List Entry) (s pre : Bytes) (from : ℕ) (e : Entry)
    → s ≡ pre ++ newline ∷ entry_lines (e ∷ es)
    → from ≡ length pre
    → AreEntries (e ∷ es)
    → length es < fuel
    → parse_entries fuel s from (some (from + (1 + length e.name))) ≡ some (e ∷ es)
parse_entries_lem zero es s pre from e w p h f = absurd (omega arith)
parse_entries_lem (suc fuel) [] s pre from e w p h f =
    let r = entry-Found s pre [] from e w p h.0 in
    let line_end = from + (1 + length e.name) + (1 + length e.md5) in
    parse_entries-last fuel s e.name e.md5 from (from + (1 + length e.name)) line_end r.file r.line
      r.md5 (find_name_end s _ line_end [] r.behind_it r.at tt)
parse_entries_lem (suc fuel) (x ∷ es) s pre from e w p h f =
    let r = entry-Found s pre (entry_lines (x ∷ es)) from e w p h.0 in
    let line_end = from + (1 + length e.name) + (1 + length e.md5) in
    let pre' = pre ++ newline ∷ (e.name ++ space ∷ e.md5) in
    parse_entries-more fuel s e.name e.md5 from (from + (1 + length e.name)) line_end
      (line_end + (1 + length x.name)) (x ∷ es) r.file r.line r.md5
      (find_name_end s pre' line_end (x ∷ es) r.behind_it r.at h.1)
      (parse_entries_lem fuel es s pre' line_end x r.behind_it r.at h.1 (omega arith))

-- The texts of a report that stand before the closing bracket of `(MD5)`.
abbrev pub FreeCopies : ℕ → List Copy → Type 0
FreeCopies c [] = Unit {0}
FreeCopies c (x ∷ xs) = (Free c x.from × Free c x.to) × FreeCopies c xs

pub record IsReport (r : Report) : Type 0 where
  pub new_file : All (Free b')') r.new_file
  pub modified : All (Free b')') r.modified
  pub copied : FreeCopies b')' r.copied
  pub entries : AreEntries r.listing
  pub some_entry : 0 < length r.listing
