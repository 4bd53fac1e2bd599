-- ===== src/Box/Monitor.antt =====
-- MP5/src/csiebox_client.c: the client that keeps a directory in step with the server of MP5, and
-- watches it by inotify. What it sends and the responses that come are lists. Sending succeeds, and the
-- working directory can be read.
pub mod Relative
pub mod Walk
pub mod Events
pub mod Delivery
pub mod Session
use sp.Base.{
  ℕ, zero, suc, ◌-◌, ◌/◌, ◌%◌, Bool, true, false, Option, none, some, List, [], ◌∷◌, ◌++◌, Bytes,
  bytes_eq, ltb, ◌==◌, if◌then◌else◌, length, replicate,
}
use sp.Base.Int.{ℤ, pos, negsuc}
use sp.Box.Protocol.{
  Op, op_login, op_sync_meta, op_sync_file, op_rm, op_sync_end, Stat, Status, status_ok,
  status_fail, status_more, Response, FileType, s_ifdir, s_iflnk, s_ifreg, s_ifother, file_type,
}
use sp.Box.Table.{Chain, put_into_hash, get_from_hash, del_from_hash}
use sp.Box.Table.Iterator.{get_from_hash_by_path}
use sp.Box.Daemon.{MetaRequest}
use sp.Box.Monitor.Relative.{convert_to_relative_path}

-- `csiebox_protocol_status` of MP5
pub data Answer : Type 0 where
  ok fail more busy : Answer

-- `header.res`, when its magic is that of a response
pub record Reply : Type 0 where
  pub op : Op
  pub status : Answer
  pub client_id : ℕ

-- A complete message, with the bytes that follow it.
pub data Message : Type 0 where
  -- `user` and `passwd_hash`
  send_login : Bytes → Bytes → Message
  send_meta : MetaRequest → Message
  -- `datalen`, and what is sent behind it
  send_file : ℕ → Bytes → Message
  -- `client_id` and the path
  send_rm : ℕ → Bytes → Message
  send_end : ℕ → Message

-- What the client has of the system: files by their absolute paths, MD5, and what memory holds.
pub record Machine : Type 0 where
  pub lstat : Bytes → Option Stat
  pub read : Bytes → Option Bytes
  pub chdir : Bytes → Bool
  pub inotify_add_watch : Bytes → ℤ
  pub md5 : Bytes → Bytes
  -- what `malloc` left behind a path in a buffer of PATH_MAX bytes
  pub junk : Bytes → Bytes
  -- what stands behind the copy of a watched path, up to a '\0': the copy itself has none
  pub behind : Bytes → Bytes

pub record Client : Type 0 where
  pub client_id : ℕ
  pub root : Bytes
  pub dir_hash : List (Chain Bytes)
  pub inotify_hash : List (Chain Bytes)
  pub ignore_inotify_event : Bool
  pub sent : List Message
  -- the responses that are still to come
  pub replies : List Reply
  -- the watches that were removed
  pub unwatched : List ℤ

-- A call returns, waits for a response that does not come, faults, or goes on for longer than the rounds
-- that it was given.
pub data Run (A : Type 0) : Type 0 where
  returned : A → Run A
  waits fault out_of_rounds : Run A

infixl 5 ◌>>=◌
abbrev pub ◌>>=◌ : {A B : Type 0} → Run A → (A → Run B) → Run B
returned a >>= f = f a
waits >>= f = waits
fault >>= f = fault
out_of_rounds >>= f = out_of_rounds

unfoldable pub or_fault : {A : Type 0} → Option A → Run A
or_fault none = fault
or_fault (some a) = returned a

unfoldable pub send : Client → Message → Client
send c m = record c { sent = c.sent ++ m ∷ [] }

unfoldable pub recv : Client → Run (Reply × Client)
recv c = elim c.replies [ [] ↦ waits | r ∷ rs ↦ returned (r, record c { replies = rs }) ]

unfoldable pub is_dir : Stat → Bool
unfolding file_type
is_dir st = elim (file_type st) [
  | s_ifdir ↦ true
  | s_iflnk ↦ false
  | s_ifreg ↦ false
  | s_ifother ↦ false
]

-- `struct stat` after `memset`
abbrev pub no_stat : Stat
no_stat = record {
  st_ino = 0;
  st_mode = 0;
  st_nlink = 0;
  st_uid = 0;
  st_gid = 0;
  st_size = 0;
  st_atim = 0;
  st_mtim = 0;
}

unfoldable pub stat_or_none : Option Stat → Stat
stat_or_none none = no_stat
stat_or_none (some st) = st

-- The response to `login`: the operation and the status are those of a login that succeeded.
unfoldable pub is_login_ok : Reply → Bool
is_login_ok r = elim r.op [
  | op_login ↦ elim r.status [ ok ↦ true | fail ↦ false | more ↦ false | busy ↦ false ]
  | op_sync_meta ↦ false
  | op_sync_file ↦ false
  | Op.op_sync_hardlink ↦ false
  | op_sync_end ↦ false
  | op_rm ↦ false
]

module _ (m : Machine) where
  open m use {lstat, read, inotify_add_watch, md5, junk, behind}

  -- The name and the password end within their fields of 30 bytes.
  unfoldable pub login : Client → Bytes → Bytes → Run (Bool × Client)
  unfolding send recv is_login_ok
  login c user passwd = do
    (r, c') ← recv (send c (send_login user (md5 passwd)))
    if is_login_ok r
        then returned (true, record c' { client_id = r.client_id })
        else returned (false, c')

  -- `md5_file` into a buffer that is 0.
  unfoldable pub md5_file : Bytes → Bytes
  md5_file path = elim (read path) [ none ↦ replicate 16 0 | some b ↦ md5 b ]

  unfoldable pub digest : Bytes → Stat → Bytes
  unfolding is_dir md5_file
  digest path st = if is_dir st then replicate 16 0 else md5_file path

  -- The request for a file, with its path relative to the root.
  unfoldable pub meta_of : Client → Bytes → Bytes → MetaRequest
  unfolding digest stat_or_none
  meta_of c path relative =
      let st = stat_or_none (lstat path) in
      record { client_id = c.client_id; path = relative; stat = st; hash = digest path st }

  -- What a status FAIL returns is not determined, as `return` has no value.
  unfoldable pub sync_file_meta : Client → Bytes → Run (Answer × Client)
  unfolding meta_of send recv or_fault convert_to_relative_path
  sync_file_meta c path = do
    converted ← or_fault (convert_to_relative_path c.root [] path (junk path))
    elim converted [
      | none ↦ returned (fail, c)
      | some relative ↦ recv (send c (send_meta (meta_of c path relative))) >>= λ r.
          elim r.0.status [
            | ok ↦ returned (ok, r.1)
            | fail ↦ fault
            | more ↦ returned (more, r.1)
            | busy ↦ returned (busy, r.1)
          ]
    ]

  -- The content of a file; a directory, or a file that cannot be opened, has no data.
  unfoldable pub file_bytes : Bytes → Bytes
  unfolding is_dir stat_or_none
  file_bytes path =
      if is_dir (stat_or_none (lstat path)) then [] else elim (read path) [ none ↦ [] | some b ↦ b ]

  unfoldable pub sync_file_data : Client → Bytes → Run Client
  unfolding file_bytes send recv
  sync_file_data c path = do
    (r, c') ← recv (send c (send_file (length (file_bytes path)) (file_bytes path)))
    returned c'

  unfoldable pub after_meta : Bytes → Answer × Client → Run Client
  unfolding sync_file_data
  after_meta path (more, c) = sync_file_data c path
  after_meta path (ok, c) = returned c
  after_meta path (fail, c) = returned c
  after_meta path (busy, c) = returned c

  unfoldable pub sync_file : Client → Bytes → Run Client
  unfolding sync_file_meta after_meta
  sync_file c path = sync_file_meta c path >>= after_meta path

  -- The copy of the path is one byte too short for its '\0'.
  unfoldable pub add_inotify : Client → Bytes → Run Client
  unfolding or_fault
  add_inotify c path = do
    (h, done) ←
        or_fault (put_into_hash c.inotify_hash (path ++ behind path) (inotify_add_watch path))
    returned (record c { inotify_hash = h })

  -- The watch of a directory that is gone.
  unfoldable pub forget_watch : Client → Bytes → Run Client
  unfolding or_fault get_from_hash_by_path
  forget_watch c path =
      let (h, wd) = get_from_hash_by_path c.inotify_hash (λ p. bytes_eq p path) in
      or_fault (del_from_hash h (pos wd)) >>= λ r.
      returned (record c { inotify_hash = r.0; unwatched = c.unwatched ++ pos wd ∷ [] })

  unfoldable pub send_removal : Client → Bytes → Run Client
  unfolding send recv
  send_removal c relative = do (r, c') ← recv (send c (send_rm c.client_id relative)); returned c'

  unfoldable pub rm_file : Client → Bytes → Bool → Run Client
  unfolding or_fault forget_watch send_removal convert_to_relative_path
  rm_file c path is_dir = do
    converted ← or_fault (convert_to_relative_path c.root [] path (junk path))
    elim converted [
      | none ↦ returned c
      | some relative ↦
          if is_dir
          then (forget_watch c path >>= λ c'. send_removal c' relative)
          else send_removal c relative
    ]
