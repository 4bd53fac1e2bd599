-- ===== src/Box/Exchange/Run.antt =====
-- MP2/src/csiebox_client.cpp: `csiebox_client_run` with the answers of the server.
use sp.Base.{ℕ, Option, none, some, List, [], ◌∷◌, Bytes, codes, ◌==◌, if◌then◌else◌, ◌>>=◌}
use sp.Box.Posix.{Posix}
use sp.Box.Protocol.{Stat, op_login}
use sp.Box.Server.{Server, Setup}
use sp.Box.Client.{InodeMap, is_ok, login, sync_rm, sync_end}
use sp.Box.Client.Traverse.{
  Entries, Action, do_meta, do_rm, do_end, restore_time, add_watch, set_inode, clear_longest,
  write_longest, traverse_dir_tree,
}
use sp.Box.Client.Events.{Event, new_path, is_process_end, event_actions}
use sp.Box.Exchange.{Outcome, stopped, waits, finished, served, responded, sync_meta}

-- The path that was put last for a watch is first.
abbrev pub InotifyMap : Type 0
InotifyMap = List (ℕ × Bytes)

-- `inotify_map[wd]`, "" when there is none.
unfoldable pub find_watch : InotifyMap → ℕ → Bytes
find_watch [] wd = []
find_watch ((w, path) ∷ m) wd = let rest = find_watch m wd in if w == wd then path else rest

module _ (p : Posix) where
  open p use {Fs, chdir, lstat, fopen_w, fwrite, remove, utimensat}

  pub record Client : Type 0 where
    pub fs : Fs
    pub inode_map : InodeMap
    pub inotify_map : InotifyMap

  -- As `Outcome`, with the client's whole state.
  pub data Ran : Type 0 where
    exited : Ran
    blocked : Ran
    ran : Client → Server Fs → Ran

  unfoldable pub as_ran : Client → Outcome p → Ran
  as_ran c stopped = exited
  as_ran c (waits s) = blocked
  as_ran c (finished m s) = ran (record c { inode_map = m }) s

  unfoldable pub on_fs : Client → Server Fs → Option Fs → Ran
  on_fs c s none = exited
  on_fs c s (some fs) = ran (record c { fs = fs }) s

  module _ (cfg : Setup) (fd : ℕ) (wd_of : Bytes → ℕ) where
    -- `wd_of` is what `inotify_add_watch` returns for a path.
    unfoldable pub perform_one : Client → Server Fs → Action → Ran
    unfolding as_ran on_fs responded served sync_meta sync_rm sync_end
    perform_one c s (do_meta path st) = as_ran c (sync_meta p cfg fd c.fs c.inode_map path st s)
    perform_one c s (do_rm path) =
        as_ran c (responded p c.inode_map (served p cfg fd s (sync_rm path)))
    perform_one c s do_end = elim (served p cfg fd s sync_end) [
      | none ↦ exited
      | some s' ↦ ran c s'
    ]
    perform_one c s (restore_time path st) = on_fs c s (utimensat c.fs path st.st_atim st.st_mtim)
    perform_one c s (add_watch path) =
        ran (record c { inotify_map = (wd_of path, path) ∷ c.inotify_map }) s
    perform_one c s (set_inode ino path) =
        ran (record c { inode_map = (ino, path) ∷ c.inode_map }) s
    perform_one c s clear_longest = elim (remove c.fs (codes "longestPath.txt")) [
      | none ↦ ran c s
      | some fs ↦ ran (record c { fs = fs }) s
    ]
    perform_one c s (write_longest path) = elim (fopen_w c.fs (codes "longestPath.txt")) [
      | none ↦ exited
      | some fs ↦ ran (record c { fs = (fwrite fs (codes "longestPath.txt") path).0 }) s
    ]

    unfoldable pub perform : Client → Server Fs → List Action → Ran
    unfolding perform_one
    perform c s [] = ran c s
    perform c s (a ∷ xs) = elim (perform_one c s a) [
      | exited ↦ exited
      | blocked ↦ blocked
      | ran c' s' ↦ perform c' s' xs
    ]

    -- `lstat` into a variable that is not set: `unset` is what is there when it fails.
    unfoldable pub lstat_or : Stat → Fs → Bytes → Stat
    lstat_or unset fs path = elim (lstat fs path) [ none ↦ unset | some st ↦ st ]

    -- The events in their order, until one of a name that starts with "process_end" ends the client.
    unfoldable pub watch_events : Stat → Client → Server Fs → List Event → Ran
    unfolding perform is_process_end event_actions find_watch lstat_or
    watch_events unset c s [] = ran c s
    watch_events unset c s (e ∷ es) =
        if is_process_end e
        then ran c s
        else let upper = find_watch c.inotify_map e.wd in
          let st = lstat_or unset c.fs (new_path upper e) in
          elim (perform c s (event_actions upper e st (lstat_or unset c.fs upper))) [
            | exited ↦ exited
            | blocked ↦ blocked
            | ran c' s' ↦ watch_events unset c' s' es
          ]

    -- After the login: the whole tree, and then the events.
    after_login : Stat → Entries → Stat → Stat → List Event → Client → Server Fs → Ran
    unfolding perform traverse_dir_tree watch_events
    after_login unset tree longest_stat root_stat es c s =
        elim (perform c s (traverse_dir_tree tree longest_stat root_stat).actions) [
          | exited ↦ exited
          | blocked ↦ blocked
          | ran c' s' ↦ watch_events unset c' s' es
        ]

    -- `login` fails: the client ends. The directory's listing and the attributes are what the system
    -- calls give.
    unfoldable pub csiebox_client_run :
        Bytes → Bytes → Bytes → Stat → Entries → Stat → Stat → List Event → Client → Server Fs → Ran
    unfolding served login is_ok after_login
    csiebox_client_run user passwd path unset tree longest_stat root_stat es c s =
        elim (login p user passwd >>= served p cfg fd s) [
          | none ↦ exited
          | some s' ↦ elim s'.sent [
            | [] ↦ blocked
            | r ∷ rs ↦
                if is_ok op_login r
                then after_login unset tree longest_stat root_stat es
                    (record c { fs = chdir c.fs path }) s'
                else ran c s'
          ]
        ]
