-- ===== src/Box/Protocol.antt =====
-- MP2/include/csiebox_common.h and MP2/src/csiebox_common.c: the messages of a connection. What is sent
-- is a sequence of pieces: a header with the body that belongs to it, or bytes. A piece that is
-- received as something else, or in part, is outside of the model, and so is a lost connection.
use sp.Base.{
  ℕ, ◌%◌, ◌/◌, zero, suc, Option, none, some, List, [], ◌∷◌, Bytes, ◌==◌, if◌then◌else◌, length,
}

-- `csiebox_protocol_op`
pub data Op : Type 0 where
  op_login op_sync_meta op_sync_file op_sync_hardlink op_sync_end op_rm : Op

-- `csiebox_protocol_status`
pub data Status : Type 0 where
  status_ok status_fail status_more : Status

-- `header.res`, whose magic is CSIEBOX_PROTOCOL_MAGIC_RES
pub record Response : Type 0 where
  pub op : Op
  pub status : Status
  pub client_id : ℕ

-- The fields of `struct stat` that the programs read.
pub record Stat : Type 0 where
  pub st_ino : ℕ
  pub st_mode : ℕ
  pub st_nlink : ℕ
  pub st_uid : ℕ
  pub st_gid : ℕ
  pub st_size : ℕ
  pub st_atim : ℕ
  pub st_mtim : ℕ

-- `st_mode & S_IFMT`
pub data FileType : Type 0 where
  s_ifdir s_iflnk s_ifreg s_ifother : FileType

unfoldable pub file_type : Stat → FileType
file_type s =
    let m = (s.st_mode / 4096) % 16 in
    if m == 4 then s_ifdir else if m == 10 then s_iflnk else if m == 8 then s_ifreg else s_ifother

-- `csiebox_protocol_meta`
pub record Meta : Type 0 where
  pub pathlen : ℕ
  pub stat : Stat
  pub hash : Bytes

-- A complete header, whose magic is CSIEBOX_PROTOCOL_MAGIC_REQ.
pub data Request : Type 0 where
  -- `user` and `passwd_hash`
  req_login : Bytes → Bytes → Request
  req_meta : Meta → Request
  -- `datalen`
  req_file : ℕ → Request
  -- `targetlen`
  req_hardlink : ℕ → Request
  -- `pathlen`
  req_rm : ℕ → Request
  req_end : Request
  -- a header of another magic or of another operation
  unknown : Request

pub data Piece : Type 0 where
  request : Request → Piece
  data_of : Bytes → Piece

-- `send_message` of bytes: nothing is sent when there are none.
unfoldable pub send_bytes : Bytes → List Piece
send_bytes [] = []
send_bytes (b ∷ bs) = data_of (b ∷ bs) ∷ []

-- `recv_message` of bytes into a buffer that is 0: nothing is received when the length is 0.
unfoldable pub recv_bytes : ℕ → List Piece → Option (Bytes × List Piece)
recv_bytes zero ps = some ([], ps)
recv_bytes (suc n) (data_of bs ∷ ps) = if length bs == suc n then some (bs, ps) else none
recv_bytes (suc n) (request r ∷ ps) = none
recv_bytes (suc n) [] = none
