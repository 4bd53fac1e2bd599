-- ===== src/Box/Monitor/Walk.antt =====
-- MP5/src/csiebox_client.c: `sync_all`, which walks the directories, and `prepare_and_sync`. A name that
-- was read can be given to `lstat`, and `chdir` back to a directory succeeds.
pub mod Ready
pub mod Announced
use sp.Base.{
  ◌%◌, Bool, true, false, ◌||◌, Option, none, some, ◌∷◌, ◌++◌, Bytes, codes, bytes_eq,
  if◌then◌else◌,
}
use sp.Base.Int.{ℤ}
use sp.Box.Protocol.{Stat}
use sp.Box.Table.{put_into_hash}
use sp.Box.Ports.{int_of}
use sp.Box.Monitor.{
  Machine, Client, Run, returned, ◌>>=◌, or_fault, send, send_end, is_dir, stat_or_none, sync_file,
  add_inotify,
}

-- What `readdir` gives: a name, what is in it if it is a directory, and the names that follow.
pub data Listing : Type 0 where
  over : Listing
  name : Bytes → Listing → Listing → Listing

-- `get_hash_code` of src/csiebox_common.c: the inode as an `int`, 0 if there is none.
unfoldable pub code_of_stat : Option Stat → ℤ
unfolding int_of
code_of_stat none = int_of 0
code_of_stat (some st) = int_of (st.st_ino % 4294967296)

unfoldable pub is_dot : Bytes → Bool
is_dot n = bytes_eq n (codes ".") || bytes_eq n (codes "..")

unfoldable pub under : Bytes → Bytes → Bytes
under cwd n = cwd ++ b'/' ∷ n

module _ (m : Machine) where
  open m use {lstat, chdir}

  -- A directory that was walked already is not walked again.
  unfoldable pub check_walked_dir : Client → Bytes → Run (Bool × Client)
  unfolding or_fault code_of_stat
  check_walked_dir c cwd = do
    (h, new) ← or_fault (put_into_hash c.dir_hash cwd (code_of_stat (lstat cwd)))
    returned (new, record c { dir_hash = h })

  -- `sync_all`, of the directory whose names are walked by `walk`.
  unfoldable pub enter : Client → Bytes → (Client → Run Client) → Run Client
  unfolding check_walked_dir add_inotify
  enter c cwd walk = do
    (new, c') ← check_walked_dir c cwd
    if new then (add_inotify m c' cwd >>= walk) else returned c'

  -- The names of a directory, in the order in which they are read.
  unfoldable pub sync_names : Bytes → Listing → Client → Run Client
  unfolding is_dot under sync_file is_dir stat_or_none enter
  sync_names cwd over c = returned c
  sync_names cwd (name n below rest) c =
      let path = under cwd n in
      let others = λ (c : Client). sync_names cwd rest c in
      let inner = λ (c : Client). sync_names path below c in
      if is_dot n
      then others c
      else (sync_file m c path >>= λ c'.
          if is_dir (stat_or_none (lstat path))
          then (if chdir path then (enter c' path inner >>= others) else others c')
          else others c')

  unfoldable pub sync_all : Bytes → Listing → Client → Run Client
  unfolding enter sync_names
  sync_all cwd below c = enter c cwd (sync_names cwd below)

  -- `getcwd` succeeds; `path` is that of the configuration, resolved.
  unfoldable pub prepare_and_sync : Bytes → Listing → Client → Run (Bool × Client)
  unfolding sync_all send
  prepare_and_sync path tree c =
      if chdir path
      then (sync_all path tree c >>= λ c'. returned (true, send c' (send_end c'.client_id)))
      else returned (false, c)
