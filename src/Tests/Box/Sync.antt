-- ===== src/Tests/Box/Sync.antt =====
-- A client's files and a server's, and a small tree.
use mathlib.Core.Option.{some-injective}
use sp.Base.{
  ◌>>=◌, ℕ, ◌+◌, ◌≤◌, ◌≡◌, ◌↔◌, ◌⊎◌, refl, sym, subst, true, none, some, List, [], ◌∷◌, arith,
  Bytes, codes, if◌then◌else◌, length, take,
}
use sp.Box.Protocol.{Stat, file_type, s_ifreg, Response, op_login}
use sp.Box.Server.{Server, Setup, login, get_user_homedir}
use sp.Box.Config.{getdelim, chop}
use sp.Box.Account.{get_account_info, search_account, strtok, token}
use sp.Box.Posix.{Posix}
use sp.Box.Account.Lookup.{AreAccounts, account_file, find_account}
use sp.Box.Client.{InodeMap, find_inode, is_ok, login as client_login}
use sp.Box.Client.Traverse.{Entries, over, entry, traverse_dir_tree}
use sp.Box.Client.Traverse.Longest.{IsAt, traverse_dir_tree_longest}
use sp.Box.Exchange.{finished, waits, served, sync_meta}
use sp.Box.Exchange.File.{sync_meta_delivers, sync_meta_waits}
use sp.Box.Exchange.Link.{sync_meta_links}
use sp.Box.Exchange.Login.{login_iff, login_home_iff}
use sp.Box.Exchange.Run.{Client, Ran, exited, blocked, ran, perform}
use sp.Tests.Box.{plain, pointer, directory, Files, put, stat_of, toy, toy-IsPosix}

abbrev nothing : Files
nothing path = none

abbrev client_files : Files
client_files =
    put (put nothing (codes "a") (some (plain (codes "hello")))) (codes "l")
      (some (pointer (codes "cdir/a")))

abbrev server_files : Files
server_files = put nothing (codes "a") (some (plain (codes "old")))

abbrev accounts : List (Bytes × Bytes)
accounts = (codes "ann", codes "pw") ∷ (codes "bo", codes "qx") ∷ []

abbrev setup : Setup
setup = record { path = codes "sdir"; accounts = some (account_file accounts) }

abbrev server : Server Files
server = record {
  fs = server_files;
  sync_path = codes "sdir/ann";
  client = none;
  path = [];
  dir_stat_stack = [];
  sent = [];
}

abbrev regular : Stat
regular = stat_of 33188 5

abbrev symbolic : Stat
symbolic = stat_of 41471 6

abbrev twice_named : Stat
twice_named = record regular { st_nlink = 2 }

regular-file_type : file_type regular ≡ s_ifreg
unfolding file_type
regular-file_type = refl

twice_named-file_type : file_type twice_named ≡ s_ifreg
unfolding file_type
twice_named-file_type = refl

abbrev delivered : Files
delivered =
    put (put server_files (codes "a") (some (plain []))) (codes "a") (some (plain (codes "hello")))

sync_meta_delivers_example :
    (s' : Server Files) × (sync_meta toy setup 5 client_files [] (codes "a") regular server
      ≡ finished [] s')
    × (toy.read s'.fs (codes "a") ≡ some (codes "hello"))
    × (s'.path ≡ codes "a")
    × (s'.dir_stat_stack ≡ record { dir = regular; path = codes "a" } ∷ [])
sync_meta_delivers_example =
    sync_meta_delivers toy toy-IsPosix setup 5 client_files [] (codes "a") (codes "hello") regular
      server (put server_files (codes "a") (some (plain []))) delivered regular-file_type
      (omega arith) (omega arith) refl refl refl (λ st e. (codes "old", refl))
      (λ b r h. absurd (cc (subst (λ x. take 8 x ≡ codes "hello") (sym (some-injective _ _ r)) h)))

-- A server without the file.
abbrev hidden : Server Files
hidden = record server { fs = nothing }

-- The server's calls when nothing can be opened.
abbrev read_only : Posix
read_only = record toy { fopen_w = λ fs path. none }

sync_meta_waits_example :
    (s' : Server Files) × (sync_meta read_only setup 5 client_files [] (codes "a") regular hidden
      ≡ waits s')
    × (s'.fs ≡ nothing)
sync_meta_waits_example =
    sync_meta_waits read_only setup 5 client_files [] (codes "a") (codes "hello") regular hidden
      regular-file_type (omega arith) (omega arith) refl refl refl

abbrev inodes : InodeMap
inodes = (7, codes "a") ∷ []

sync_meta_links_example :
    (s' : Server Files) × (sync_meta toy setup 5 client_files inodes (codes "b") twice_named server
      ≡ finished inodes s')
    × (toy.read s'.fs (codes "b") ≡ toy.read server_files (find_inode inodes 7))
unfolding find_inode
sync_meta_links_example =
    sync_meta_links toy toy-IsPosix setup 5 client_files inodes (codes "b") twice_named server
      (put server_files (codes "b") (some (plain (codes "old")))) twice_named-file_type
      (omega arith) (omega arith) (omega arith) refl refl

accounts-AreAccounts : AreAccounts accounts
accounts-AreAccounts = ground arith

login_iff_example :
    (s' : Server Files) × (r : Response) × ((client_login toy (codes "bo") (codes "qx")
        >>= served toy setup 5 server)
      ≡ some s')
    × (s'.sent ≡ r ∷ [])
    × ((is_ok op_login r ≡ true) ↔ (
        (found : Bytes) × (find_account accounts (codes "bo") ≡ some found) × (codes "qx" ≡ found)))
    × (s'.client ≡ (if is_ok op_login r then some (codes "bo") else none))
login_iff_example =
    login_iff toy setup 5 server accounts (codes "bo") (codes "qx") accounts-AreAccounts refl
      (omega arith) (omega arith)

bo_found : get_account_info (λ b. b) (some (account_file accounts)) (codes "bo") ≡ some (codes "qx")
unfolding get_account_info search_account getdelim chop strtok token
bo_found = refl

login_home_iff_example :
    ((login toy setup 5 server (codes "bo") (codes "qx")).sync_path
      ≡ get_user_homedir setup (codes "bo"))
    ↔ (8 ≤ length (get_user_homedir setup (codes "bo")))
login_home_iff_example = login_home_iff toy setup 5 server (codes "bo") (codes "qx") bo_found

-- A file, and a directory with a file.
abbrev tree : Entries
tree = entry (codes ".") (stat_of 16877 0) over (
    entry (codes "a") regular over
      (entry (codes "d") (stat_of 16877 0) (entry (codes "c") regular over over) over))

traverse_dir_tree_longest_example :
    (let w = traverse_dir_tree tree regular regular in
      ((level : ℕ) (path : Bytes) → IsAt [] 0 tree level path → level + 1 ≤ w.depth)
      × (((w.depth ≡ 0) × (w.longest_path ≡ []))
          ⊎ ((level : ℕ) × (w.depth ≡ level + 1) × IsAt [] 0 tree level w.longest_path)))
traverse_dir_tree_longest_example = traverse_dir_tree_longest tree regular regular

abbrev root_files : Files
root_files = put nothing (codes ".") (some directory)

abbrev tree_client : Client toy
tree_client = record {
  fs = put root_files (codes "a") (some (plain (codes "hello")));
  inode_map = [];
  inotify_map = [];
}

abbrev empty_server : Server Files
empty_server = record server { fs = root_files }

abbrev small_tree : Entries
small_tree = entry (codes "a") regular over over

abbrev client_after : Ran toy → Client toy
client_after exited = tree_client
client_after blocked = tree_client
client_after (ran c s) = c

abbrev server_after : Ran toy → Server Files
server_after exited = server
server_after blocked = server
server_after (ran c s) = s

abbrev small_run : Ran toy
small_run =
    perform toy setup 5 length tree_client empty_server
      (traverse_dir_tree small_tree regular (stat_of 16877 0)).actions
