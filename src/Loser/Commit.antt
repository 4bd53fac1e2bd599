-- ===== src/Loser/Commit.antt =====
-- The text of a commit, as `Compare` and `Commit` of MP1/main.cpp write it. The sections are kept
-- as lists until they are printed; the program appends a line to a string for each entry.
pub mod Decimal
use sp.Base.{
  ℕ, zero, suc, ◌+◌, ◌*◌, ◌/◌, ◌%◌, ◌<◌, ◌≡◌, refl, Bool, true, false, List, [], ◌∷◌, ◌++◌, arith,
  Bytes, codes, newline, space, ltb, leb, ◌==◌, if◌then◌else◌,
}
use sp.Loser.Files.{Entry}
use Decimal.{to_string}

pub record Copy : Type 0 where
  pub from : Bytes
  pub to : Bytes

-- The variables of `Compare`: the four sections and `isChange`.
pub record Report : Type 0 where
  pub new_file : List Bytes
  pub modified : List Bytes
  pub copied : List Copy
  pub listing : List Entry
  pub is_change : Bool

abbrev pub name_lines : List Bytes → Bytes
name_lines [] = []
name_lines (a ∷ names) = a ++ newline ∷ name_lines names

abbrev pub copy_lines : List Copy → Bytes
copy_lines [] = []
copy_lines (c ∷ cs) = c.from ++ (codes " => " ++ (c.to ++ newline ∷ copy_lines cs))

abbrev pub entry_lines : List Entry → Bytes
entry_lines [] = []
entry_lines (e ∷ es) = e.name ++ space ∷ (e.md5 ++ newline ∷ entry_lines es)

-- What `status` prints, and the head of a commit.
abbrev pub changes_text : Report → Bytes
changes_text r =
    codes "[new_file]\n"
    ++ (name_lines r.new_file
        ++ (codes "[modified]\n"
            ++ (name_lines r.modified ++ (codes "[copied]\n" ++ copy_lines r.copied))))

unfoldable pub commit_text : ℕ → Report → Bytes
unfolding to_string
commit_text n r =
    codes "# commit "
    ++ (to_string n ++ newline ∷ (changes_text r ++ (codes "(MD5)\n" ++ entry_lines r.listing)))
