-- ===== src/Box/Server.antt =====
-- MP2/src/csiebox_server.cpp: what the server does for one connection. `none` as a result: the process
-- exits or writes outside of a buffer, or what is received is outside of the model. Sending succeeds.
pub mod Rounds
pub mod Accepting
use sp.Base.{
  ℕ, zero, suc, ◌<◌, Bool, true, false, not, Option, none, some, List, [], ◌∷◌, ◌++◌, Bytes, codes,
  bytes_eq, ltb, if◌then◌else◌, ◌>>=◌, length, take, drop, replicate,
}
use sp.Box.Config.{overlay}
use sp.Box.Account.{get_account_info}
use sp.Box.Posix.{Posix}
use sp.Box.Protocol.{
  Op, op_login, op_sync_meta, op_sync_file, op_sync_hardlink, op_rm, Status, status_ok, status_fail,
  status_more, Response, Stat, FileType, s_ifdir, s_iflnk, s_ifreg, s_ifother, file_type, Meta,
  Request, req_login, req_meta, req_file, req_hardlink, req_rm, req_end, unknown, Piece, request,
  data_of, recv_bytes,
}

-- `dir_stat`
pub record DirStat : Type 0 where
  pub dir : Stat
  pub path : Bytes

-- What the configuration gives.
pub record Setup : Type 0 where
  pub path : Bytes
  -- the text of the account file
  pub accounts : Option Bytes

-- The state of `handle_request`: its own variables and what it uses of the server. The stack has the
-- entry that was pushed last at its head. `sent` has the responses in their order.
pub record Server (Fs : Type 0) : Type 0 where
  pub fs : Fs
  pub sync_path : Bytes
  -- `server->client[conn_fd]`, as the account's name
  pub client : Option Bytes
  pub path : Bytes
  pub dir_stat_stack : List DirStat
  pub sent : List Response

-- `header.res`
unfoldable pub res : Op → Status → Response
res op status = record { op = op; status = status; client_id = 0 }

-- A target inside the client's directory is made relative to the server's.
unfoldable pub strip_cdir : Bytes → Bytes
strip_cdir target =
    if bytes_eq (take 8 target) (codes "../cdir/")
    then drop 8 target
    else if bytes_eq (take 5 target) (codes "cdir/")
    then drop 5 target
    else target

-- `get_user_homedir`: `sync_path` is written over without an end.
unfoldable pub get_user_homedir : Setup → Bytes → Bytes
get_user_homedir cfg user = cfg.path ++ b'/' ∷ user

module _ (p : Posix) where
  open p use {
    Fs, is_dir, mkdir, lstat, read, fopen_w, fwrite, symlink, link, remove, utimensat, set_owner,
    md5, chdir,
  }

  -- The file system and the responses change together.
  unfoldable pub answer : Server Fs → Fs → Response → Server Fs
  answer s fs r = record s { fs = fs; sent = s.sent ++ r ∷ [] }

  -- `md5_file` into a buffer that is 0.
  unfoldable pub md5_file : Fs → Bytes → Bytes
  md5_file fs path = elim (read fs path) [ none ↦ replicate 16 0 | some bytes ↦ md5 bytes ]

  -- A file that cannot be opened is not answered.
  unfoldable pub handle_sync_file : Server Fs → ℕ → List Piece → Option (Server Fs × List Piece)
  unfolding answer res
  handle_sync_file s datalen ps = do
    (buf, rest) ← recv_bytes datalen ps
    elim (fopen_w s.fs s.path) [
      | none ↦ some (s, rest)
      | some fs ↦
          let w = fwrite fs s.path buf in
          some (answer s w.0 (res op_sync_file (if w.1 then status_ok else status_fail)), rest)
    ]

  -- A link that fails is not answered.
  unfoldable pub handle_sync_hardlink : Server Fs → ℕ → List Piece → Option (Server Fs × List Piece)
  unfolding answer res
  handle_sync_hardlink s targetlen ps = do
    (buf, rest) ← recv_bytes targetlen ps
    elim (link s.fs buf s.path) [
      | none ↦ some (s, rest)
      | some fs ↦ some (answer s fs (res op_sync_hardlink status_ok), rest)
    ]

  -- The cases of `handle_sync_meta`: the file system, the response's status, and what is left.
  unfoldable pub sync_dir : Fs → Stat → Bytes → Option Fs
  sync_dir fs st path = if is_dir fs path then some fs else mkdir fs path st.st_mode

  unfoldable pub sync_symlink : Fs → Bytes → Bytes → Option Fs
  unfolding strip_cdir
  sync_symlink fs path target = elim (lstat fs path) [
    | some st ↦ some fs
    | none ↦ symlink fs (strip_cdir target) path
  ]

  -- `memcmp` over `sizeof((char*)hash)`, which is 8.
  unfoldable pub compare_reg : Fs → Bytes → Bytes → Status
  unfolding md5_file
  compare_reg fs path hash = elim (lstat fs path) [
    | none ↦ status_more
    | some st ↦
        if bytes_eq (take 8 (md5_file fs path)) (take 8 hash) then status_ok else status_more
  ]

  unfoldable pub meta_case :
      FileType → Fs → Meta → Bytes → List Piece → Option (Fs × Status × List Piece)
  unfolding sync_dir sync_symlink compare_reg
  meta_case s_ifdir fs m path ps = sync_dir fs m.stat path >>= λ fs'. some (fs', status_ok, ps)
  meta_case s_iflnk fs m path ps = do
    (target, rest) ← recv_bytes m.stat.st_size ps
    fs' ← sync_symlink fs path target
    some (fs', status_ok, rest)
  meta_case s_ifreg fs m path ps = some (fs, compare_reg fs path m.hash, ps)
  meta_case s_ifother fs m path ps = some (fs, status_ok, ps)

  unfoldable pub received_meta :
      Server Fs → Meta → Bytes → List Piece → Option (Server Fs × List Piece)
  unfolding meta_case file_type res answer
  received_meta s m buf ps = do
    (fs, status, rest) ← meta_case (file_type m.stat) s.fs m buf ps
    some (answer (record s { path = buf }) fs (res op_sync_meta status), rest)

  -- `buf` has 400 bytes, and the path is terminated in it.
  unfoldable pub handle_sync_meta : Server Fs → Meta → List Piece → Option (Server Fs × List Piece)
  unfolding received_meta
  handle_sync_meta s m ps =
      if ltb m.pathlen 400
      then (recv_bytes m.pathlen ps >>= λ r. received_meta s m r.0 r.1)
      else none

  unfoldable pub handle_sync_rm : Server Fs → ℕ → List Piece → Option (Server Fs × List Piece)
  unfolding answer res
  handle_sync_rm s pathlen ps = do
    (buf, rest) ← recv_bytes pathlen ps
    elim (remove s.fs buf) [
      | none ↦ some (answer s s.fs (res op_rm status_fail), rest)
      | some fs ↦ some (answer s fs (res op_rm status_ok), rest)
    ]

  -- The times and the owner of the entries, from the one that was pushed last to the first.
  unfoldable pub restore : Fs → List DirStat → Option Fs
  restore fs [] = some fs
  restore fs (e ∷ stack) = do
    fs' ← utimensat fs e.path e.dir.st_atim e.dir.st_mtim
    let link : Bool = elim (file_type e.dir) [
      | s_iflnk ↦ true
      | s_ifdir ↦ false
      | s_ifreg ↦ false
      | s_ifother ↦ false
    ]
    restore (set_owner fs' e.path link e.dir) stack

  unfoldable pub handle_sync_end : Server Fs → Option (Server Fs)
  unfolding restore
  handle_sync_end s = do
    fs ← restore s.fs s.dir_stat_stack
    some (record s { fs = fs; path = []; dir_stat_stack = [] })

  -- `mkdir` may fail; what `chdir` returns is not read.
  unfoldable pub entered : Setup → Server Fs → Bytes → ℕ → Server Fs
  unfolding get_user_homedir overlay answer
  entered cfg s user fd =
      let home = get_user_homedir cfg user in
      let made : Fs = elim (mkdir s.fs home 493) [ none ↦ s.fs | some fs ↦ fs ] in
      let sync_path = overlay s.sync_path home in
      answer (record s { client = some user; sync_path = sync_path }) (chdir made sync_path)
        (record { op = op_login; status = status_ok; client_id = fd })

  -- `user` is the text of a field of USER_LEN_MAX bytes that has a '\0' (see `dispatch`).
  unfoldable pub login : Setup → ℕ → Server Fs → Bytes → Bytes → Server Fs
  unfolding entered res answer get_account_info
  login cfg fd s user passwd_hash =
      let refused = answer s (chdir s.fs s.sync_path) (res op_login status_fail) in
      elim (get_account_info md5 cfg.accounts user) [
        | none ↦ refused
        | some hash ↦ if bytes_eq passwd_hash hash then entered cfg s user fd else refused
      ]

  unfoldable pub logout : Server Fs → Server Fs
  logout s = record s { client = none }

  -- The stack gets the entry of a meta request after it is handled.
  unfoldable pub push_meta : Meta → Server Fs × List Piece → Server Fs × List Piece
  push_meta m (s, ps) =
      (record s { dir_stat_stack = record { dir = m.stat; path = s.path } ∷ s.dir_stat_stack }, ps)

  -- A user's name that fills its field of 30 bytes has no '\0': what is read behind it is outside of the
  -- model.
  unfoldable pub dispatch :
      Setup → ℕ → Server Fs → Request → List Piece → Option (Server Fs × List Piece)
  unfolding login handle_sync_meta push_meta handle_sync_file handle_sync_hardlink handle_sync_rm
      handle_sync_end
  dispatch cfg fd s (req_login user passwd_hash) ps =
      if ltb (length user) 30 then some (login cfg fd s user passwd_hash, ps) else none
  dispatch cfg fd s (req_meta m) ps = handle_sync_meta s m ps >>= λ r. some (push_meta m r)
  dispatch cfg fd s (req_file datalen) ps = handle_sync_file s datalen ps
  dispatch cfg fd s (req_hardlink targetlen) ps = handle_sync_hardlink s targetlen ps
  dispatch cfg fd s (req_rm pathlen) ps = handle_sync_rm s pathlen ps
  dispatch cfg fd s req_end ps = handle_sync_end s >>= λ s'. some (s', ps)
  dispatch cfg fd s unknown ps = some (s, ps)

  -- The loop, until the connection has no more pieces. A round receives at least one.
  unfoldable pub serve : Setup → ℕ → ℕ → Server Fs → List Piece → Option (Server Fs)
  unfolding dispatch
  serve cfg fd zero s ps = none
  serve cfg fd (suc fuel) s [] = some s
  serve cfg fd (suc fuel) s (data_of bs ∷ ps) = none
  serve cfg fd (suc fuel) s (request r ∷ ps) =
      dispatch cfg fd s r ps >>= λ t. serve cfg fd fuel t.0 t.1

  unfoldable pub handle_request : Setup → ℕ → Server Fs → List Piece → Option (Server Fs)
  unfolding serve logout
  handle_request cfg fd s ps = do
    s' ← serve cfg fd (suc (length ps)) (record s { path = []; dir_stat_stack = [] }) ps
    let out = logout s'
    some (record out { fs = chdir out.fs (codes "../../bin") })
