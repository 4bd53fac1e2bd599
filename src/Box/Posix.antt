-- ===== src/Box/Posix.antt =====
-- The system calls of MP2/src/csiebox_server.cpp and MP2/src/csiebox_client.cpp, and MD5, which are not
-- part of the repository. A call that fails returns `none`.
use sp.Base.{ℕ, ◌≡◌, Bool, true, Option, none, some, Bytes}
use sp.Box.Protocol.{Stat}

pub record Posix : Type 1 where
  -- the file system, with the working directory of the process
  pub Fs : Type 0
  pub chdir : Fs → Bytes → Fs
  -- `opendir` succeeds
  pub is_dir : Fs → Bytes → Bool
  pub mkdir : Fs → Bytes → ℕ → Option Fs
  pub lstat : Fs → Bytes → Option Stat
  -- the bytes of a file, by `open` and `read`
  pub read : Fs → Bytes → Option Bytes
  -- `fopen(path, "w")`
  pub fopen_w : Fs → Bytes → Option Fs
  -- `fwrite` to the file that was opened, and `fclose`; false when not all bytes are written
  pub fwrite : Fs → Bytes → Bytes → Fs × Bool
  pub readlink : Fs → Bytes → Option Bytes
  pub symlink : Fs → Bytes → Bytes → Option Fs
  pub link : Fs → Bytes → Bytes → Option Fs
  pub remove : Fs → Bytes → Option Fs
  -- `utimensat` with AT_SYMLINK_NOFOLLOW
  pub utimensat : Fs → Bytes → ℕ → ℕ → Option Fs
  -- `chmod` and `chown`, or for a symbolic link `fchmodat` and `lchown`; what they return is not read
  pub set_owner : Fs → Bytes → Bool → Stat → Fs
  pub md5 : Bytes → Bytes

-- What the calls promise: a file that was opened for writing and written holds those bytes, a new
-- symbolic link holds its target, a new hard link holds what the file holds, a removed path is not
-- there.
pub record IsPosix (p : Posix) : Type 0 where
  pub read-fwrite :
      (fs fs' fs'' : p.Fs) (path bytes : Bytes)
      → p.fopen_w fs path ≡ some fs'
      → p.fwrite fs' path bytes ≡ (fs'', true)
      → p.read fs'' path ≡ some bytes
  pub readlink-symlink :
      (fs fs' : p.Fs) (target path : Bytes)
      → p.symlink fs target path ≡ some fs'
      → p.readlink fs' path ≡ some target
  pub read-link :
      (fs fs' : p.Fs) (existed path : Bytes)
      → p.link fs existed path ≡ some fs'
      → p.read fs' path ≡ p.read fs existed
  pub lstat-remove :
      (fs fs' : p.Fs) (path : Bytes) → p.remove fs path ≡ some fs' → p.lstat fs' path ≡ none
