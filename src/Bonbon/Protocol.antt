-- ===== src/Bonbon/Protocol.antt =====
-- The structures of MP4/protocol.hpp, as they go through the pipes between the server and its
-- children. Each type number is a constructor; file descriptors are natural numbers.
use sp.Base.{ℕ, Bytes, ◌==◌, if◌then◌else◌}

abbrev pub child_num : ℕ
child_num = 20

pub record User : Type 0 where
  pub name : Bytes
  pub age : ℕ
  pub gender : Bytes
  pub introduction : Bytes

-- `struct User_Data`, without its type, which only the end of a matching uses.
pub record UserData : Type 0 where
  pub fd : ℕ
  pub user : User
  pub filter_path : Bytes

-- `struct Header` with the user behind it: server to child.
pub data Header : Type 0 where
  to_match put_in_queue : ℕ → Bytes → User → Header
  delete : ℕ → ℕ → Header
  exit : Header

-- `struct Match`: child to server.
pub data Match : Type 0 where
  send_match : ℕ → ℕ → Match
  no_match : Match

-- `a[k] = v` on an array that is indexed by descriptors.
abbrev pub put : {A : Type 0} → (ℕ → A) → ℕ → A → ℕ → A
put a k v n = if n == k then v else a n
