-- ===== src/Loser/Commands.antt =====
-- The sub-commands of MP1/main.cpp. The directory is the names that readdir() gives, the digest of
-- each file, and the bytes of `.loser_record` and `.loser_config` if they are there; `none` is a
-- run that does not end by itself: a fault, or an exception.
pub mod Alias
use sp.Base.{
  ℕ, ◌+◌, Bool, true, false, ◌||◌, Option, none, some, List, [], ◌∷◌, ◌++◌, map, Bytes, codes,
  newline, space, bytes_eq, ◌==◌, if◌then◌else◌, ◌>>=◌,
}
use sp.Loser.Files.{Entry, list_file, hash_files}
use sp.Loser.Record.{fetch_record}
use sp.Loser.Commit.{Report, name_lines, changes_text, commit_text}
use sp.Loser.Commit.Decimal.{stoi}
use sp.Loser.Compare.{parse_commit, compare_commits}

pub record Directory : Type 0 where
  pub names : List Bytes
  pub digest : Bytes → Bytes
  pub loser_record : Option Bytes
  pub loser_config : Option Bytes

-- What a run leaves behind: the record's bytes, and what was printed.
pub record Result : Type 0 where
  pub loser_record : Option Bytes
  pub printed : Bytes

abbrev pub entries : Directory → List Entry
entries d = hash_files d.digest (list_file d.names)

-- The first half of `Compare`, and the loop: the number of the next commit and the report.
unfoldable pub compare : Bytes → List Entry → Option (ℕ × Report)
compare record_file new = do
  last_commit ← fetch_record record_file b'#' 1
  old ← parse_commit last_commit
  some (old.0 + 1, compare_commits old.1 new)

status_text : Option (ℕ × Report) → Option Bytes
status_text none = none
status_text (some (n, r)) = some (changes_text r)

-- With no record every file is new.
first_status : List Bytes → Bytes
first_status names = codes "[new_file]\n" ++ (name_lines names ++ codes "[modified]\n[copied]\n")

status_with : Directory → Option Bytes → Option Bytes
unfolding first_status status_text
status_with d none = some (first_status (list_file d.names))
status_with d (some record_file) = status_text (compare record_file (entries d))

unfoldable pub status : Directory → Option Result
unfolding status_with
status d = status_with d d.loser_record >>= λ text.
    some (record { loser_record = d.loser_record; printed = text })

-- What a second and later commit writes at the end of the record.
abbrev pub appended : Bytes → ℕ × Report → Bytes
appended record_file (n, r) =
    if r.is_change then record_file ++ newline ∷ commit_text n r else record_file

-- The report of the first commit: all files are new.
abbrev pub first_report : List Entry → Report
first_report es = record {
  new_file = map (λ e. e.name) es;
  modified = [];
  copied = [];
  listing = es;
  is_change = true;
}

-- The record after a commit of files that are there.
unfoldable pub commit_to : Option Bytes → List Entry → Option Bytes
commit_to none es = some (commit_text 1 (first_report es))
commit_to (some record_file) es =
    compare record_file es >>= λ report. some (appended record_file report)

-- An empty directory exits before the record is opened.
commit_entries : Option Bytes → List Entry → Option (Option Bytes)
unfolding commit_to
commit_entries record_file [] = some record_file
commit_entries record_file (e ∷ es) = commit_to record_file (e ∷ es) >>= λ text. some (some text)

unfoldable pub commit : Directory → Option Result
unfolding commit_entries
commit d = commit_entries d.loser_record (entries d) >>= λ text.
    some (record { loser_record = text; printed = [] })

log_with : ℕ → Option Bytes → Option Bytes
log_with n none = some []
log_with n (some record_file) = if n == 0 then some [] else fetch_record record_file b'#' n

unfoldable pub log : ℕ → Directory → Option Result
unfolding log_with
log n d = log_with n d.loser_record >>= λ text.
    some (record { loser_record = d.loser_record; printed = text })

-- The text of the message is abbreviated to the name that it contains.
unfoldable pub action : Bytes → ℕ → Directory → Option Result
unfolding status commit log
action type n d =
    if bytes_eq type (codes "status")
    then status d
    else if bytes_eq type (codes "commit")
    then commit d
    else if bytes_eq type (codes "log")
    then log n d
    else some (record { loser_record = d.loser_record; printed = type })

-- `Update_action`, on the bytes of the configuration: `alias = command`, a line each. The place in
-- a line: in the alias, at the '=', at the blank behind it, at the command's first byte, behind it.
pub data Place : Type 0 where
  alias equals blank command : Bytes → Place
  rest : Place

abbrev pub word : ℕ → Option Bytes
word c =
    if c == b's'
    then some (codes "status")
    else if c == b'c'
    then some (codes "commit")
    else if c == b'l'
    then some (codes "log")
    else none

abbrev pub skip : ℕ → Place
skip c = if c == newline then alias [] else rest

-- The switch, if the alias is the one that was typed.
abbrev pub chosen : Bytes → Bytes → ℕ → Option Bytes
chosen typed tmp c = if bytes_eq tmp typed then word c else none

-- `while(*buf)`: a '\0' ends the text at the start of a line or in an alias.
unfoldable pub update : Bytes → Place → Bytes → Option Bytes
update typed place [] = none
update typed (alias tmp) (c ∷ s) =
    let next = update typed (if c == space then equals tmp else alias (tmp ++ c ∷ [])) s in
    if c == 0 then some typed else next
update typed (equals tmp) (c ∷ s) = update typed (blank tmp) s
update typed (blank tmp) (c ∷ s) = update typed (command tmp) s
update typed (command tmp) (c ∷ s) =
    let next = update typed (skip c) s in
    elim (chosen typed tmp c) [ some w ↦ some w | none ↦ next ]
update typed rest (c ∷ s) = update typed (skip c) s

-- The buffer has no '\0' of its own: the loop reads on into the memory `beyond` it.
unfoldable pub update_action : Bytes → Bytes → Option Bytes → Option Bytes
unfolding update
update_action typed beyond none = some typed
update_action typed beyond (some config) =
    if bytes_eq typed (codes "commit") || bytes_eq typed (codes "status")
    then some typed
    else update typed (alias []) (config ++ beyond)

-- The program's end with a usage line, or with an error.
pub data Outcome : Type 0 where
  done : Result → Outcome
  usage wrong_parameter : Outcome

finished : Option Result → Option Outcome
finished none = none
finished (some r) = some (done r)

run : Bytes → Bytes → ℕ → Directory → Option Outcome
unfolding finished action update_action
run typed beyond n d =
    update_action typed beyond d.loser_config >>= λ type. finished (action type n d)

-- `main` over `argv[1]` and what follows it. `std::stoll` is read for numbers without a sign.
unfoldable pub main : List Bytes → Bytes → Directory → Option Outcome
unfolding run
main [] beyond d = some usage
main (typed ∷ []) beyond d = some wrong_parameter
main (typed ∷ dir ∷ []) beyond d = run typed beyond 0 d
main (typed ∷ number ∷ dir ∷ []) beyond d = stoi number >>= λ n. run typed beyond n d
main (typed ∷ number ∷ dir ∷ more ∷ others) beyond d = some wrong_parameter
