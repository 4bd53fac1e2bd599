-- ===== src/Box/Daemon/Startup.antt =====
-- MP5/src/csiebox_server.c: `csiebox_server_init` from the reading of the configuration on, and
-- `sig_handler`. The daemon writes its number to a file and makes a named pipe, through which it tells how
-- many threads are at work. Allocations and `mkfifo` succeed.
use sp.Base.{
  ℕ, ◌<◌, ◌≡◌, ◌≢◌, refl, ap, ◌∙◌, Bool, true, false, Option, none, some, List, [], ◌∷◌, ◌++◌,
  Bytes, codes, ltb, ◌==◌, if◌then◌else◌, length, arith, lt→ltb, ==_refl,
}
use sp.Box.Ports.{htonl}

-- The file system, and `sprintf("%d")`.
pub record Disk : Type 1 where
  pub Files : Type 0
  pub remove : Files → Bytes → Files
  -- `open` with O_CREAT and O_WRONLY
  pub create : Files → Bytes → Option Files
  -- `write` to the file that was opened, and how many bytes were written
  pub write : Files → Bytes → Bytes → Files × ℕ
  pub mkfifo : Files → Bytes → Files
  -- `open` with O_RDWR
  pub open_fifo : Files → Bytes → Bool
  pub read : Files → Bytes → Option Bytes
  pub decimal : ℕ → Bytes

-- A file that was removed and created is empty, and then holds the bytes that were written if all of them
-- were; a call leaves the files of other paths as they are.
pub record IsDisk (d : Disk) : Type 0 where
  pub read-write :
      (fs fs' fs'' : d.Files) (path bytes : Bytes)
      → d.create (d.remove fs path) path ≡ some fs'
      → d.write fs' path bytes ≡ (fs'', length bytes)
      → d.read fs'' path ≡ some bytes
  pub read-remove :
      (fs : d.Files) (path other : Bytes)
      → path ≢ other
      → d.read (d.remove fs path) other ≡ d.read fs other
  pub read-mkfifo :
      (fs : d.Files) (path other : Bytes)
      → path ≢ other
      → d.read (d.mkfifo fs path) other ≡ d.read fs other

-- What the process is after `csiebox_server_init`.
pub data Started (Files : Type 0) : Type 0 where
  -- the server is not set, and main does not run it
  not_started : Started Files
  -- the parent of the daemon, or a process whose `fork` failed
  parent_ends : Started Files
  failed : Started Files
  -- a path longer than its buffer
  overflow : Started Files
  -- with the path of the pipe
  running : Files → Bytes → Started Files

-- `fork`: what it returns is 0 in the daemon.
pub data Fork : Type 0 where
  in_daemon in_parent fork_fails : Fork

unfoldable pub pid_path : Bytes → Bytes
pid_path run_path = run_path ++ codes "/csiebox_server.pid"

module _ (d : Disk) where
  open d use {Files, remove, create, write, mkfifo, open_fifo, decimal}

  unfoldable pub fifo_name : ℕ → Bytes
  fifo_name pid = codes "/fifo." ++ decimal pid

  unfoldable pub fifo_path : Bytes → ℕ → Bytes
  fifo_path run_path pid = run_path ++ fifo_name pid

  -- The buffers of 100 bytes have room for a '\0' too.
  unfoldable pub make_fifo : Files → Bytes → Started Files
  make_fifo fs path =
      if ltb (length path) 100
      then (let fs' = mkfifo (remove fs path) path in
          if open_fifo fs' path then running fs' path else failed)
      else overflow

  -- `size != strlen(pid_num)`
  unfoldable pub all_written : ℕ → Files × ℕ → Option Files
  all_written n (fs, size) = if size == n then some fs else none

  unfoldable pub write_pid : Files → Bytes → ℕ → Option Files
  unfolding all_written
  write_pid fs path pid = elim (create (remove fs path) path) [
    | none ↦ none
    | some fs' ↦ all_written (length (decimal pid)) (write fs' path (decimal pid))
  ]

  unfoldable pub as_daemon : Files → Bytes → ℕ → Started Files
  unfolding pid_path fifo_path write_pid make_fifo
  as_daemon fs run_path pid =
      if ltb (length (pid_path run_path)) 100
      then elim (write_pid fs (pid_path run_path) pid) [
        | none ↦ failed
        | some fs' ↦ make_fifo fs' (fifo_path run_path pid)
      ]
      else overflow

  unfoldable pub forked : Fork → Files → Bytes → ℕ → Started Files
  unfolding as_daemon
  forked in_daemon fs run_path pid = as_daemon fs run_path pid
  forked in_parent fs run_path pid = parent_ends
  forked fork_fails fs run_path pid = parent_ends

  -- `configured` is whether `parse_arg` succeeds, with the directory and the flag; `listening` whether
  -- `server_start` does.
  unfoldable pub csiebox_server_init :
      Option (Bytes × Bool) → Bool → Fork → Files → ℕ → Started Files
  unfolding forked
  csiebox_server_init none listening fork fs pid = not_started
  csiebox_server_init (some (run_path, daemonize)) false fork fs pid = not_started
  csiebox_server_init (some (run_path, true)) true fork fs pid = forked fork fs run_path pid
  csiebox_server_init (some (run_path, false)) true fork fs pid = as_daemon fs run_path pid

-- The signals that are handled.
pub data Signal : Type 0 where
  sigusr1 sigint sigterm sigpipe other_signal : Signal

-- The pipe: whether its file is there, whether the process runs, and the words that were written.
pub record Pipe : Type 0 where
  pub there : Bool
  pub alive : Bool
  pub words : List ℕ

-- `active` is `active_thread_num`.
unfoldable pub sig_handler : Pipe → ℕ → Signal → Pipe
unfolding htonl
sig_handler p active sigusr1 = record p { words = p.words ++ htonl active ∷ [] }
sig_handler p active sigint = record p { there = false; alive = false }
sig_handler p active sigterm = record p { there = false; alive = false }
sig_handler p active sigpipe = record p { words = p.words ++ htonl active ∷ [] }
sig_handler p active other_signal = p

behind_prefix : (r xs ys : Bytes) → xs ≢ ys → r ++ xs ≢ r ++ ys
behind_prefix [] xs ys n e = n e
behind_prefix (c ∷ r) xs ys n e = behind_prefix r xs ys n (tail_eq e)
  where
    tail_eq : c ∷ (r ++ xs) ≡ c ∷ (r ++ ys) → r ++ xs ≡ r ++ ys
    tail_eq e = cc

abbrev second : ℕ → Bytes → ℕ
second n [] = n
second n (a ∷ []) = n
second n (a ∷ b ∷ s) = b

module _ (d : Disk) (laws : IsDisk d) where
  fifo_name-start : (pid : ℕ) → second 0 (fifo_name d pid) ≡ 102
  unfolding fifo_name
  fifo_name-start pid = refl

  fifo-pid : (run_path : Bytes) (pid : ℕ) → fifo_path d run_path pid ≢ pid_path run_path
  unfolding fifo_path pid_path
  fifo-pid run_path pid =
      behind_prefix run_path (fifo_name d pid) (codes "/csiebox_server.pid") (λ e.
        let x : second 0 (fifo_name d pid) ≡ 99 = ap (second 0) e in
        let y = fifo_name-start pid in absurd (omega arith))

  -- When the configuration is read and the server listens, the paths have less than 100 bytes and the
  -- calls succeed, a server that is told to be a daemon runs as the child of its process, and one that
  -- is not runs itself: the pipe is made, and the file of the process's number holds this number also
  -- after that.
  pub csiebox_server_init-runs :
      (fs fs' fs'' : d.Files) (run_path : Bytes) (daemonize : Bool) (pid : ℕ)
      → length (pid_path run_path) < 100
      → length (fifo_path d run_path pid) < 100
      → d.create (d.remove fs (pid_path run_path)) (pid_path run_path) ≡ some fs'
      → d.write fs' (pid_path run_path) (d.decimal pid) ≡ (fs'', length (d.decimal pid))
      → ((fs : d.Files)
          → d.open_fifo (d.mkfifo fs (fifo_path d run_path pid)) (fifo_path d run_path pid) ≡ true)
      → (last : d.Files) × (csiebox_server_init d (some (run_path, daemonize)) true in_daemon fs pid
          ≡ running last (fifo_path d run_path pid))
        × (d.read last (pid_path run_path) ≡ some (d.decimal pid))
  unfolding csiebox_server_init as_daemon write_pid make_fifo all_written
  csiebox_server_init-runs fs fs' fs'' run_path daemonize pid l m c w o =
      let path = fifo_path d run_path pid in
      let last = d.mkfifo (d.remove fs'' path) path in (last, by_flag daemonize, kept)
    where
      started :
          as_daemon d fs run_path pid
          ≡ running
              (d.mkfifo (d.remove fs'' (fifo_path d run_path pid)) (fifo_path d run_path pid))
              (fifo_path d run_path pid)
      started =
          let x = lt→ltb (length (pid_path run_path)) 100 l in
          let y = lt→ltb (length (fifo_path d run_path pid)) 100 m in
          rw
            (
              x,
              c,
              w,
              ==_refl (length (d.decimal pid)),
              y,
              o (d.remove fs'' (fifo_path d run_path pid)),
            )
            refl

      by_flag :
          (b : Bool)
          → csiebox_server_init d (some (run_path, b)) true in_daemon fs pid
            ≡ running
                (d.mkfifo (d.remove fs'' (fifo_path d run_path pid)) (fifo_path d run_path pid))
                (fifo_path d run_path pid)
      by_flag true = started
      by_flag false = started

      kept :
          d.read
            (d.mkfifo (d.remove fs'' (fifo_path d run_path pid)) (fifo_path d run_path pid))
            (pid_path run_path)
          ≡ some (d.decimal pid)
      kept =
          let n = fifo-pid run_path pid in
          laws.read-mkfifo (d.remove fs'' (fifo_path d run_path pid)) (fifo_path d run_path pid)
            (pid_path run_path) n
          ∙ laws.read-remove fs'' (fifo_path d run_path pid) (pid_path run_path) n
          ∙ laws.read-write fs fs' fs'' (pid_path run_path) (d.decimal pid) c w
