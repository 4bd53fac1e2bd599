-- ===== src/Box/Daemon.antt =====
-- MP5/src/csiebox_server.c: the requests of one connection; `get_account_info` is that of MP2. Paths are
-- shorter than PATH_MAX, and sending succeeds.
pub mod Chunks
pub mod Guard
pub mod Stored
pub mod Configure
pub mod Startup
use sp.Base.{
  ℕ, zero, suc, ◌-◌, ◌<◌, ◌≡◌, Bool, true, false, not, ◌&&◌, Option, none, some, List, [], ◌∷◌,
  ◌++◌, Bytes, bytes_eq, ltb, leb, ◌==◌, if◌then◌else◌, length, take, drop, replicate,
}
use sp.Box.Account.{get_account_info}
use sp.Box.Protocol.{
  Op, op_login, op_sync_meta, op_sync_file, op_rm, Status, status_ok, status_fail, status_more,
  Response, Stat, FileType, s_ifdir, s_iflnk, s_ifreg, s_ifother, file_type,
}
use sp.Box.Server.{Setup, get_user_homedir}

-- The system calls and MD5; a call that fails, and whose failure is not looked at, gives the files as
-- they are.
pub record Host : Type 1 where
  pub Fs : Type 0
  pub lstat : Fs → Bytes → Option Stat
  pub read : Fs → Bytes → Option Bytes
  -- `open` with O_CREAT and O_TRUNC
  pub open_w : Fs → Bytes → Option Fs
  -- `write` to the file that was opened, and how many bytes were written
  pub write : Fs → Bytes → Bytes → Fs × ℕ
  pub mkdir : Fs → Bytes → Fs
  pub chmod : Fs → Bytes → ℕ → Fs
  pub utime : Fs → Bytes → ℕ → ℕ → Fs
  pub rmdir : Fs → Bytes → Fs
  pub unlink : Fs → Bytes → Fs
  pub md5 : Bytes → Bytes

-- A file that was opened is empty, and what is written, when all of it is, is put to its end.
pub record IsHost (h : Host) : Type 0 where
  pub read-open_w :
      (fs fs' : h.Fs) (path : Bytes) → h.open_w fs path ≡ some fs' → h.read fs' path ≡ some []
  pub read-write :
      (fs : h.Fs) (path a b : Bytes)
      → h.read fs path ≡ some a
      → (h.write fs path b).1 ≡ length b
      → h.read (h.write fs path b).0 path ≡ some (a ++ b)

-- A meta request, with the path that follows it.
pub record MetaRequest : Type 0 where
  pub client_id : ℕ
  pub path : Bytes
  pub stat : Stat
  pub hash : Bytes

-- What comes over the connection behind a meta request, if it is asked for.
pub record FileData : Type 0 where
  pub datalen : ℕ
  pub bytes : Bytes

pub data Request : Type 0 where
  -- `user` and `passwd_hash`
  req_login : Bytes → Bytes → Request
  req_meta : MetaRequest → FileData → Request
  -- `client_id` and the path
  req_rm : ℕ → Bytes → Request
  req_end : Request
  -- the end of the connection
  closed : Request

pub record Connection (Fs : Type 0) : Type 0 where
  pub fs : Fs
  -- `server->client[conn_fd]`, as the account's name
  pub client : Option Bytes
  pub sent : List Response

-- `recv_message` of bytes: `none` when the connection ends before.
unfoldable pub recv_exact : ℕ → Bytes → Option (Bytes × Bytes)
recv_exact n s =
    if (n == 0) then none else (if leb n (length s) then some (take n s, drop n s) else none)

-- `total` and `readlen`: the next piece has 4096 bytes, or what is left.
unfoldable pub readlen : ℕ → ℕ
readlen left = if ltb left 4096 then left else 4096

-- The requests to come, when these bytes were left.
abbrev pub read_on : (Bytes → List Request → List Request) → Bytes → List Request → List Request
read_on reread [] rs = rs
read_on reread (b ∷ bs) rs = reread (b ∷ bs) rs

module _ (h : Host) where
  open h use {Fs, lstat, read, open_w, write, mkdir, chmod, utime, rmdir, unlink, md5}

  -- The loop over `datalen`, which does not look at what `write` returns, with what is left of it; `opened` is `fd > 0`. What is left of the
  -- connection comes back with the files.
  unfoldable pub receive_chunks : ℕ → ℕ → Bool → Fs → Bytes → Bytes → Fs × Bytes
  unfolding recv_exact readlen
  receive_chunks zero left opened fs path s = (fs, s)
  receive_chunks (suc fuel) left opened fs path s =
      if left == 0 then (fs, s) else elim (recv_exact (readlen left) s) [
        | none ↦ (fs, s)
        | some (b, rest) ↦
            receive_chunks fuel (left - readlen left) opened
              (if opened then (write fs path b).0 else fs) path rest
      ]

  -- A round takes at least one byte.
  unfoldable pub receive_file : Fs → Bytes → FileData → Fs × Bytes
  unfolding receive_chunks
  receive_file fs path d = elim (open_w fs path) [
    | none ↦ receive_chunks (suc d.datalen) d.datalen false fs path d.bytes
    | some fs' ↦ receive_chunks (suc d.datalen) d.datalen true fs' path d.bytes
  ]

  unfoldable pub is_dir : Stat → Bool
  unfolding file_type
  is_dir st = elim (file_type st) [
    | s_ifdir ↦ true
    | s_iflnk ↦ false
    | s_ifreg ↦ false
    | s_ifother ↦ false
  ]

  -- `md5_file` into a buffer that is 0; a directory has the digest 0.
  unfoldable pub digest_at : Fs → Bytes → Stat → Bytes
  unfolding is_dir
  digest_at fs path st = elim (read fs path) [
    | none ↦ replicate 16 0
    | some b ↦ if is_dir st then replicate 16 0 else md5 b
  ]

  -- The mode and the times of what is there.
  unfoldable pub update_stat : Fs → Bytes → Stat → Stat → Fs
  update_stat fs path st wanted =
      let fs' = if st.st_mode == wanted.st_mode then fs else chmod fs path wanted.st_mode in
      if (st.st_atim == wanted.st_atim) && (st.st_mtim == wanted.st_mtim)
      then fs'
      else utime fs' path wanted.st_atim wanted.st_mtim

  -- The files, `need_data` and `change`.
  unfoldable pub compare_meta : Fs → Bytes → MetaRequest → Fs × Bool × Bool
  unfolding update_stat digest_at
  compare_meta fs path m = elim (lstat fs path) [
    | none ↦ (fs, true, true)
    | some st ↦
        let fs' = update_stat fs path st m.stat in
        (fs', not (bytes_eq (digest_at fs' path st) m.hash), false)
  ]

  -- The data: a directory or a file, and then its attributes if it is new.
  unfoldable pub receive_data : Fs → Bytes → MetaRequest → FileData → Bool → Fs
  unfolding is_dir receive_file
  receive_data fs path m d change =
      let fs' = if is_dir m.stat then mkdir fs path else (receive_file fs path d).0 in
      if change
      then utime (chmod fs' path m.stat.st_mode) path m.stat.st_atim m.stat.st_mtim
      else fs'

  unfoldable pub res : Op → Status → ℕ → Response
  res op status conn_fd = record { op = op; status = status; client_id = conn_fd }

  -- With the home directory of the client.
  unfoldable pub sync_at : ℕ → Connection Fs → Bytes → MetaRequest → FileData → Connection Fs
  unfolding compare_meta receive_data res
  sync_at conn_fd c home m d =
      let path = home ++ m.path in
      let (fs, need_data, change) = compare_meta c.fs path m in
      if need_data
      then record c {
        fs = receive_data fs path m d change;
        sent =
            c.sent
            ++ res op_sync_meta status_more conn_fd ∷ res op_sync_file status_ok conn_fd ∷ [];
      }
      else record c { fs = fs; sent = c.sent ++ res op_sync_meta status_ok conn_fd ∷ [] }

  -- `none`: the client is not logged in on this connection.
  unfoldable pub check_client_and_get_homedir : Setup → ℕ → Connection Fs → ℕ → Option Bytes
  unfolding get_user_homedir
  check_client_and_get_homedir cfg conn_fd c client_id = elim c.client [
    | none ↦ none
    | some user ↦ if conn_fd == client_id then some (get_user_homedir cfg user) else none
  ]

  unfoldable pub sync_file : Setup → ℕ → Connection Fs → MetaRequest → FileData → Connection Fs
  unfolding check_client_and_get_homedir sync_at
  sync_file cfg conn_fd c m d = elim (check_client_and_get_homedir cfg conn_fd c m.client_id) [
    | none ↦ c
    | some home ↦ sync_at conn_fd c home m d
  ]

  remove_at : Fs → Bytes → Fs
  unfolding is_dir
  remove_at fs path = elim (lstat fs path) [
    | none ↦ unlink fs path
    | some st ↦ if is_dir st then rmdir fs path else unlink fs path
  ]

  -- The answer is OK whatever the removal did.
  unfoldable pub rm_file : Setup → ℕ → Connection Fs → ℕ → Bytes → Connection Fs
  unfolding check_client_and_get_homedir remove_at res
  rm_file cfg conn_fd c client_id path =
      elim (check_client_and_get_homedir cfg conn_fd c client_id) [
        | none ↦ c
        | some home ↦ record c {
          fs = remove_at c.fs (home ++ path);
          sent = c.sent ++ res op_rm status_ok conn_fd ∷ [];
        }
      ]

  -- The name ends within its field of 30 bytes.
  unfoldable pub login : Setup → ℕ → Connection Fs → Bytes → Bytes → Connection Fs
  unfolding get_account_info get_user_homedir res
  login cfg conn_fd c user passwd_hash =
      let refused = record c { sent = c.sent ++ res op_login status_fail 0 ∷ [] } in
      elim (get_account_info md5 cfg.accounts user) [
        | none ↦ refused
        | some hash ↦
            if bytes_eq passwd_hash hash
            then record c {
              fs = mkdir c.fs (get_user_homedir cfg user);
              client = some user;
              sent = c.sent ++ res op_login status_ok conn_fd ∷ [];
            }
            else refused
      ]

  unfoldable pub logout : Connection Fs → Connection Fs
  logout c = record c { client = none }

  -- One call of `handle_request`. The path of a meta or rm request that is refused is not taken from the
  -- connection (see `unread`).
  unfoldable pub handle_request : Setup → ℕ → Connection Fs → Request → Connection Fs
  unfolding login sync_file rm_file logout
  handle_request cfg conn_fd c (req_login user passwd_hash) = login cfg conn_fd c user passwd_hash
  handle_request cfg conn_fd c (req_meta m d) = sync_file cfg conn_fd c m d
  handle_request cfg conn_fd c (req_rm client_id path) = rm_file cfg conn_fd c client_id path
  handle_request cfg conn_fd c req_end = c
  handle_request cfg conn_fd c closed = logout c

  unfoldable pub unread_path : Option Bytes → Bytes → Bytes
  unread_path none path = path
  unread_path (some home) path = []

  -- What a request leaves on the connection.
  unfoldable pub unread : Setup → ℕ → Connection Fs → Request → Bytes
  unfolding check_client_and_get_homedir unread_path
  unread cfg conn_fd c (req_login user passwd_hash) = []
  unread cfg conn_fd c (req_meta m d) =
      unread_path (check_client_and_get_homedir cfg conn_fd c m.client_id) m.path
  unread cfg conn_fd c (req_rm client_id path) =
      unread_path (check_client_and_get_homedir cfg conn_fd c client_id) path
  unread cfg conn_fd c req_end = []
  unread cfg conn_fd c closed = []

  -- The first requests of a connection, as many as `count`. `reread` gives the requests that the server
  -- finds when it reads on at bytes that were left there, before the messages to come; it depends on the
  -- layout of the messages.
  unfoldable pub handle_requests :
      (Bytes → List Request → List Request)
      → Setup
      → ℕ
      → ℕ
      → Connection Fs
      → List Request
      → Connection Fs
  unfolding handle_request unread
  handle_requests reread cfg conn_fd zero c rs = c
  handle_requests reread cfg conn_fd (suc count) c [] = c
  handle_requests reread cfg conn_fd (suc count) c (r ∷ rs) =
      handle_requests reread cfg conn_fd count (handle_request cfg conn_fd c r)
        (read_on reread (unread cfg conn_fd c r) rs)
