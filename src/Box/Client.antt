-- ===== src/Box/Client.antt =====
-- MP2/src/csiebox_client.cpp: `sync_meta`, `sync_file`, `sync_hardlink`, `sync_rm`, `sync_end` and
-- `login`: what each sends, and what it makes of the response. Sending succeeds, and `none` as a result
-- means that the process exits or reads outside of a buffer.
pub mod Traverse
pub mod Events
use sp.Base.{
  ℕ, zero, suc, ◌≤◌, Bool, true, false, Option, none, some, List, [], ◌∷◌, ◌++◌, Bytes, leb, ltb,
  ◌&&◌, ◌==◌, if◌then◌else◌, ◌>>=◌, length, take, replicate,
}
use sp.Box.Posix.{Posix}
use sp.Box.Server.{md5_file}
use sp.Box.Protocol.{
  Op, op_login, op_sync_meta, op_sync_file, op_sync_hardlink, op_rm, op_sync_end, Status, status_ok,
  status_fail, status_more, Response, Stat, FileType, s_ifdir, s_iflnk, s_ifreg, s_ifother,
  file_type, Meta, Request, req_login, req_meta, req_file, req_hardlink, req_rm, req_end, Piece,
  request, data_of, send_bytes,
}

-- `inode_map`: the path that was put last for an inode is first.
abbrev pub InodeMap : Type 0
InodeMap = List (ℕ × Bytes)

-- `inode_map[ino]`, "" when there is none.
unfoldable pub find_inode : InodeMap → ℕ → Bytes
find_inode [] ino = []
find_inode ((i, path) ∷ m) ino = let rest = find_inode m ino in if i == ino then path else rest

-- What `sync_meta` decides before it sends: the map and the path of the file's other name, "" when
-- it is no hard link.
unfoldable pub note_inode : InodeMap → Stat → Bytes → InodeMap × Bytes
unfolding find_inode
note_inode m st path =
    let existed = find_inode m st.st_ino in
    if leb 2 st.st_nlink
    then (if length existed == 0 then ((st.st_ino, path) ∷ m, []) else (m, existed))
    else (m, [])

-- What `sync_meta` does once the response is there: it returns, or syncs the hard link or the file.
pub data Next : Type 0 where
  done : Next
  please_hardlink : Bytes → Next
  please_file : Next

unfoldable pub is_op : Op → Op → Bool
is_op op_login op_login = true
is_op op_sync_meta op_sync_meta = true
is_op op_sync_file op_sync_file = true
is_op op_sync_hardlink op_sync_hardlink = true
is_op op_sync_end op_sync_end = true
is_op op_rm op_rm = true
is_op _ _ = false

-- The response is for the operation, and its status is OK.
unfoldable pub is_ok : Op → Response → Bool
unfolding is_op
is_ok op r = elim r.status [ status_ok ↦ is_op op r.op | status_fail ↦ false | status_more ↦ false ]

unfoldable pub meta_next : Response → Bytes → Next
meta_next r existed = elim r.status [
  | status_ok ↦ done
  | status_fail ↦ done
  | status_more ↦ if length existed == 0 then please_file else please_hardlink existed
]

unfoldable pub sync_hardlink : Bytes → List Piece
unfolding send_bytes
sync_hardlink existed = request (req_hardlink (length existed)) ∷ send_bytes existed

unfoldable pub sync_rm : Bytes → List Piece
unfolding send_bytes
sync_rm path = request (req_rm (length path)) ∷ send_bytes path

unfoldable pub sync_end : List Piece
sync_end = request req_end ∷ []

module _ (p : Posix) where
  open p use {Fs, lstat, read, readlink, md5}

  -- A file that cannot be opened ends the process.
  unfoldable pub sync_file : Fs → Bytes → Option (List Piece)
  unfolding send_bytes
  sync_file fs path = do
    bytes ← read fs path
    some (request (req_file (length bytes)) ∷ send_bytes bytes)

  -- `sync_meta` up to the response: the map, the other name, and what is sent. A link whose target
  -- has become shorter than `st_size` is outside of the model.
  unfoldable pub meta_request :
      FileType → Fs → InodeMap → Bytes → Stat → Option (InodeMap × Bytes × List Piece)
  unfolding send_bytes note_inode md5_file
  meta_request s_iflnk fs m path st = do
    linkto ← readlink fs path
    some (
      m,
      [],
      request (req_meta (record { pathlen = length path; stat = st; hash = replicate 16 0 }))
            ∷ send_bytes path
          ++ send_bytes (take st.st_size linkto),
    )
  meta_request s_ifreg fs m path st =
      let noted = note_inode m st path in
      some (
        noted.0,
        noted.1,
        request (req_meta (record { pathlen = length path; stat = st; hash = md5_file p fs path }))
            ∷ send_bytes path,
      )
  meta_request _ fs m path st = some (
    m,
    [],
    request (req_meta (record { pathlen = length path; stat = st; hash = replicate 16 0 }))
        ∷ send_bytes path,
  )

  -- `none`: one of the fields of 30 bytes of the configuration is full and has no '\0', so that it is read
  -- past its end.
  unfoldable pub login : Bytes → Bytes → Option (List Piece)
  login user passwd =
      if ltb (length user) 30 && ltb (length passwd) 30
      then some (request (req_login user (md5 passwd)) ∷ [])
      else none
