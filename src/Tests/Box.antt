-- ===== src/Tests/Box.antt =====
-- A file system as a function from paths to what is there, for the theorems on MP2.
pub mod Sync
pub mod Tables
pub mod Pools
pub mod Daemons
pub mod Registers
pub mod Crowds
pub mod Walks
use mathlib.Core.Option.{some-injective}
use sp.Base.{
  ℕ, ◌≡◌, refl, sym, ap, subst, ◌∙◌, Bool, true, false, Option, none, some, List, [], ◌∷◌, Bytes,
  codes, bytes_eq, bytes_eq_refl, if◌then◌else◌, length, arith,
}
use sp.Box.Posix.{Posix, IsPosix}
use sp.Box.Protocol.{Stat}

pub data Node : Type 0 where
  plain : Bytes → Node
  pointer : Bytes → Node
  directory : Node

abbrev pub Files : Type 0
Files = Bytes → Option Node

abbrev pub put : Files → Bytes → Option Node → Files
put fs path n q = if bytes_eq q path then n else fs q

abbrev pub stat_of : ℕ → ℕ → Stat
stat_of mode size = record {
  st_ino = 7;
  st_mode = mode;
  st_nlink = 1;
  st_uid = 0;
  st_gid = 0;
  st_size = size;
  st_atim = 3;
  st_mtim = 4;
}

abbrev pub node_stat : Node → Stat
node_stat (plain b) = stat_of 33188 (length b)
node_stat (pointer b) = stat_of 41471 (length b)
node_stat directory = stat_of 16877 0

abbrev pub absent_or : {A : Type 0} → Option Node → A → Option A
absent_or none a = some a
absent_or (some n) a = none

abbrev pub present_or : {A : Type 0} → Option Node → A → Option A
present_or none a = none
present_or (some n) a = some a

abbrev pub bytes_of : Option Node → Option Bytes
bytes_of (some (plain b)) = some b
bytes_of _ = none

abbrev pub target_of : Option Node → Option Bytes
target_of (some (pointer b)) = some b
target_of _ = none

abbrev pub is_directory : Option Node → Bool
is_directory (some directory) = true
is_directory _ = false

abbrev pub open_for : Files → Bytes → Option Node → Option Files
open_for fs path (some directory) = none
open_for fs path _ = some (put fs path (some (plain [])))

abbrev pub link_as : Files → Bytes → Option Node → Option Files
link_as fs path none = none
link_as fs path (some n) = some (put fs path (some n))

abbrev pub stat_at : Option Node → Option Stat
stat_at none = none
stat_at (some n) = some (node_stat n)

abbrev pub toy : Posix
toy = record {
  Fs = Files;
  chdir = λ fs path. fs;
  is_dir = λ fs path. is_directory (fs path);
  mkdir = λ fs path mode. absent_or (fs path) (put fs path (some directory));
  lstat = λ fs path. stat_at (fs path);
  read = λ fs path. bytes_of (fs path);
  fopen_w = λ fs path. open_for fs path (fs path);
  fwrite = λ fs path b. (put fs path (some (plain b)), true);
  readlink = λ fs path. target_of (fs path);
  symlink = λ fs target path. absent_or (fs path) (put fs path (some (pointer target)));
  link = λ fs existed path. link_as fs path (fs existed);
  remove = λ fs path. present_or (fs path) (put fs path none);
  utimensat = λ fs path a m. present_or (fs path) fs;
  set_owner = λ fs path link st. fs;
  md5 = λ b. b;
}

put_self : (fs : Files) (path : Bytes) (n : Option Node) → put fs path n path ≡ n
put_self fs path n = rw (bytes_eq_refl path) refl

pub toy-IsPosix : IsPosix toy
toy-IsPosix = record {
  read-fwrite = λ fs fs' fs'' path b o w.
      ap (λ x. bytes_of (x.0 path)) (sym w) ∙ ap bytes_of (put_self fs' path (some (plain b)));
  readlink-symlink = λ fs fs' target path o. linked fs fs' target path (fs path) o;
  read-link = λ fs fs' existed path o. copied fs fs' path (fs existed) o;
  lstat-remove = λ fs fs' path o. gone fs fs' path (fs path) o;
}
  where
    linked :
        (fs fs' : Files) (target path : Bytes) (n : Option Node)
        → absent_or n (put fs path (some (pointer target))) ≡ some fs'
        → target_of (fs' path) ≡ some target
    linked fs fs' target path none o =
        ap (λ x. target_of (x path)) (sym (some-injective _ _ o))
        ∙ ap target_of (put_self fs path (some (pointer target)))
    linked fs fs' target path (some n) o = absurd (cc)

    copied :
        (fs fs' : Files) (path : Bytes) (n : Option Node)
        → link_as fs path n ≡ some fs'
        → bytes_of (fs' path) ≡ bytes_of n
    copied fs fs' path none o = absurd (cc)
    copied fs fs' path (some n) o =
        ap (λ x. bytes_of (x path)) (sym (some-injective _ _ o))
        ∙ ap bytes_of (put_self fs path (some n))

    gone :
        (fs fs' : Files) (path : Bytes) (n : Option Node)
        → present_or n (put fs path none) ≡ some fs'
        → stat_at (fs' path) ≡ none
    gone fs fs' path none o = absurd (cc)
    gone fs fs' path (some n) o =
        ap (λ x. stat_at (x path)) (sym (some-injective _ _ o)) ∙ ap stat_at (put_self fs path none)
