-- ===== src/Tests/Loser.antt =====
-- Records and directories of the version control program.
use sp.Base.{◌≡◌, refl, true, some, List, [], ◌∷◌, ◌++◌, arith, Bytes, codes, newline}
use sp.Loser.Files.{Entry}
use sp.Loser.Record.{fetch_record, record_text, AreCommits, newest}
use sp.Loser.Record.Fetch.{fetch_record-record_text}
use sp.Loser.Commit.{Report, commit_text}
use sp.Loser.Compare.{parse_commit, drain, no_change, compare_commits}
use sp.Loser.Compare.Entries.{IsReport}
use sp.Loser.Compare.Parse.{parse_commit-commit_text}
use sp.Loser.Compare.Judged.{
  new_of, modified_of, copied_of, gather, any_changed, compare_commits-judged,
}
use sp.Loser.Compare.Classify.{Aligned, finished, added, kept, compare_commits-deleted}
use sp.Loser.Commands.Alias.{Alias}

abbrev two_commits : List Bytes
two_commits = codes "#2b" ∷ (codes "#1" ++ newline ∷ []) ∷ []

two_commits-AreCommits : AreCommits b'#' two_commits
two_commits-AreCommits = (
  (codes "2b", refl, ground arith, ground arith),
  ((codes "1" ++ newline ∷ [], refl, ground arith, ground arith), tt),
)

fetch_record-record_text_example :
    fetch_record (record_text two_commits) b'#' 5 ≡ some (newest 0 5 two_commits)
fetch_record-record_text_example =
    fetch_record-record_text b'#' 5 two_commits two_commits-AreCommits

abbrev ann : Entry
ann = record { name = codes "ann"; md5 = codes "0a" }

abbrev bob : Entry
bob = record { name = codes "bob"; md5 = codes "0b" }

abbrev cat : Entry
cat = record { name = codes "cat"; md5 = codes "0a" }

abbrev new_bob : Entry
new_bob = record { name = codes "bob"; md5 = codes "ff" }

abbrev both_new : Report
both_new = record {
  new_file = codes "ann" ∷ codes "bob" ∷ [];
  modified = [];
  copied = [];
  listing = ann ∷ bob ∷ [];
  is_change = true;
}

both_new-IsReport : IsReport both_new
both_new-IsReport = record {
  new_file = (ground arith, (ground arith, tt));
  modified = tt;
  copied = tt;
  entries = (
    record { name_space = ground arith; md5_newline = ground arith },
    (record { name_space = ground arith; md5_newline = ground arith }, tt),
  );
  some_entry = ground arith;
}

parse_commit-commit_text_example : parse_commit (commit_text 3 both_new) ≡ some (3, ann ∷ bob ∷ [])
parse_commit-commit_text_example = parse_commit-commit_text 3 both_new both_new-IsReport

one_added-Aligned : Aligned (ann ∷ bob ∷ []) (ann ∷ new_bob ∷ cat ∷ [])
one_added-Aligned =
    kept refl (λ e. ground arith, (λ e. ground arith, tt))
      (kept refl (λ e. ground arith, tt) (added tt finished))

compare_commits-judged_example :
    (let old = ann ∷ bob ∷ [] in
      let new = ann ∷ new_bob ∷ cat ∷ [] in
      let r = compare_commits old new in
      (r.new_file ≡ gather (new_of old old) new)
      × (r.modified ≡ gather (modified_of old) new)
      × (r.copied ≡ gather (copied_of old old) new)
      × (r.listing ≡ new)
      × (r.is_change ≡ any_changed old new))
compare_commits-judged_example =
    compare_commits-judged (ann ∷ bob ∷ []) (ann ∷ new_bob ∷ cat ∷ []) one_added-Aligned
      (ground arith)

compare_commits-deleted_example :
    (compare_commits (ann ∷ bob ∷ []) (new_bob ∷ [])
      ≡ drain (ann ∷ bob ∷ []) no_change (new_bob ∷ []))
    × ((compare_commits (ann ∷ bob ∷ []) (new_bob ∷ [])).modified ≡ [])
compare_commits-deleted_example =
    compare_commits-deleted ann (bob ∷ []) (new_bob ∷ []) (λ e. ground arith, tt)

abbrev two_aliases : List Alias
two_aliases =
    record { name = codes "ci"; first = b'c'; more = codes "ommit" }
    ∷ record { name = codes "st"; first = b's'; more = codes "tatus" }
    ∷ []
