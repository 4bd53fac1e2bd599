-- ===== src/Box/Client/Traverse.antt =====
-- MP2/src/csiebox_client.cpp: `traverse` and `traverse_dir_tree`, as what they have the client do. What a
-- `sync_meta` returns is not read, and the times of what was visited are set back, so that the tree is
-- the same all along. A directory that cannot be opened is outside of the model.
pub mod Longest
use sp.Base.{
  ℕ, zero, suc, ◌+◌, Bool, true, false, ◌||◌, List, [], ◌∷◌, ◌++◌, Bytes, codes, bytes_eq, ltb,
  if◌then◌else◌,
}
use sp.Box.Protocol.{Stat, FileType, s_ifdir, s_iflnk, s_ifreg, s_ifother, file_type}

-- What `readdir` gives: a name, what `lstat` gives for it, what is in it, and the names that follow.
pub data Entries : Type 0 where
  over : Entries
  entry : Bytes → Stat → Entries → Entries → Entries

pub data Action : Type 0 where
  do_meta : Bytes → Stat → Action
  do_rm : Bytes → Action
  do_end : Action
  restore_time : Bytes → Stat → Action
  -- `inotify_add_watch`
  add_watch : Bytes → Action
  -- `inode_map[ino] = path`
  set_inode : ℕ → Bytes → Action
  -- `remove` and `fwrite` of longestPath.txt
  clear_longest : Action
  write_longest : Bytes → Action

-- `depth` is one more than in the source, where it starts at -1.
pub record Walk : Type 0 where
  pub depth : ℕ
  pub longest_path : Bytes
  pub actions : List Action

unfoldable pub is_dot : Bytes → Bool
is_dot name = bytes_eq name (codes ".") || bytes_eq name (codes "..")

unfoldable pub act : List Action → Walk → Walk
act xs w = record w { actions = w.actions ++ xs }

-- `if(cur > depth)`
unfoldable pub note_depth : ℕ → Bytes → Walk → Walk
note_depth cur path w =
    if ltb w.depth (cur + 1) then record w { depth = cur + 1; longest_path = path } else w

-- After `sync_meta` of an entry; `inner` is the walk after the entries below it.
unfoldable pub leave_entry : FileType → ℕ → Bytes → Stat → Walk → Walk → Walk
unfolding act note_depth
leave_entry s_iflnk cur path st w inner = w
leave_entry s_ifdir cur path st w inner =
    note_depth cur path (act (restore_time path st ∷ add_watch path ∷ []) inner)
leave_entry s_ifreg cur path st w inner = note_depth cur path (act (restore_time path st ∷ []) w)
leave_entry s_ifother cur path st w inner = note_depth cur path (act (restore_time path st ∷ []) w)

-- `sync_meta` comes first.
unfoldable pub meet : Bytes → Stat → Walk → Walk
unfolding act
meet path st w = act (do_meta path st ∷ []) w

-- One entry, once those below it are walked.
unfoldable pub visit : Bytes → Bytes → Stat → ℕ → Walk → Walk → Walk
unfolding is_dot leave_entry file_type meet
visit upper_path name st cur w inner =
    if is_dot name
    then w
    else leave_entry (file_type st) cur (upper_path ++ name) st (meet (upper_path ++ name) st w)
        inner

unfoldable pub traverse : Bytes → Entries → ℕ → Walk → Walk
unfolding meet visit
traverse upper_path over cur w = w
traverse upper_path (entry name st below rest) cur w =
    let path = upper_path ++ name in
    let inner = traverse (path ++ b'/' ∷ []) below (cur + 1) (meet path st w) in
    traverse upper_path rest cur (visit upper_path name st cur w inner)

unfoldable pub start_walk : Walk
start_walk = record { depth = 0; longest_path = []; actions = clear_longest ∷ [] }

-- `longest_stat` and `root_stat` are what `lstat` gives for longestPath.txt and for ".".
unfoldable pub traverse_dir_tree : Entries → Stat → Stat → Walk
unfolding start_walk traverse act
traverse_dir_tree tree longest_stat root_stat =
    let w = traverse [] tree 0 start_walk in
    act
      (write_longest w.longest_path
        ∷ do_meta (codes "longestPath.txt") longest_stat
        ∷ add_watch (codes ".")
        ∷ do_meta (codes ".") root_stat
        ∷ do_end
        ∷ [])
      w
