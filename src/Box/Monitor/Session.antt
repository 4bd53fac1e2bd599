-- ===== src/Box/Monitor/Session.antt =====
-- MP5/src/csiebox_client.c: `parse_arg`, `csiebox_client_init`, `csiebox_client_run` and `monitor_home`.
-- Allocations succeed.
pub mod Started
use sp.Base.{ℕ, Bool, true, false, ◌&&◌, Option, none, some, List, [], ◌∷◌, Bytes, if◌then◌else◌}
use sp.Box.Config as Config
use sp.Box.Config.{Parsed, Field, client_fields}
use sp.Box.Table.{Chain, init_hash}
use sp.Box.Monitor.{Machine, Client, Reply, Run, returned, waits, fault, ◌>>=◌, or_fault, login}
use sp.Box.Monitor.Walk.{Listing, prepare_and_sync}
use sp.Box.Monitor.Events.{Event, handle_inotify}

-- `argv` behind the program, and the text of the configuration file, none if it cannot be opened. The
-- keys and sizes are those of MP2's client.
unfoldable pub parse_arg : List Bytes → Option Bytes → Parsed
unfolding Config.parse_arg client_fields
parse_arg [] text = Config.config_error
parse_arg (file ∷ []) none = Config.config_error
parse_arg (file ∷ []) (some text) = Config.parse_arg text client_fields
parse_arg (file ∷ more ∷ others) text = Config.config_error

-- The client before it logs in; `client_id` is 0 after `memset`.
unfoldable pub new_client : Bytes → List Reply → List (Chain Bytes) → List (Chain Bytes) → Client
new_client root replies dirs watches = record {
  client_id = 0;
  root = root;
  dir_hash = dirs;
  inotify_hash = watches;
  ignore_inotify_event = false;
  sent = [];
  replies = replies;
  unwatched = [];
}

-- A table that cannot be made is used nevertheless, after everything was freed.
unfoldable pub make_tables : Bytes → List Reply → Run (Option Client)
unfolding init_hash or_fault new_client
make_tables root replies = do
  watches ← or_fault (init_hash [] 100)
  dirs ← or_fault (init_hash [] 100)
  returned (some (new_client root replies dirs watches))

-- `connected` is whether `client_start` succeeds, `watching` whether `inotify_init` does; `root` is the
-- directory of the configuration, resolved.
unfoldable pub csiebox_client_init : Parsed → Bool → Bool → Bytes → List Reply → Run (Option Client)
unfolding make_tables
csiebox_client_init Config.fault connected watching root replies = fault
csiebox_client_init Config.config_error connected watching root replies = returned none
csiebox_client_init (Config.accepted fs) connected watching root replies =
    if connected && watching then make_tables root replies else returned none

module _ (m : Machine) where
  -- `reads` is what each read of the events brings; after them a read waits.
  unfoldable pub monitor_home : ℕ → List (Option (List Event)) → Client → Run (Bool × Client)
  unfolding handle_inotify
  monitor_home fuel [] c = waits
  monitor_home fuel (r ∷ reads) c = handle_inotify m fuel r c >>= monitor_home fuel reads

  unfoldable pub watch_on : ℕ → List (Option (List Event)) → Bool × Client → Run (Bool × Client)
  unfolding monitor_home
  watch_on fuel reads (done, c) = if done then monitor_home fuel reads c else returned (false, c)

  unfoldable pub sync_on :
      ℕ → List (Option (List Event)) → Listing → Bool × Client → Run (Bool × Client)
  unfolding prepare_and_sync watch_on
  sync_on fuel reads tree (done, c) =
      if done
      then (prepare_and_sync m c.root tree c >>= watch_on fuel reads)
      else returned (false, c)

  -- `user` and `passwd` are those of the configuration.
  unfoldable pub csiebox_client_run :
      ℕ → List (Option (List Event)) → Listing → Bytes → Bytes → Client → Run (Bool × Client)
  unfolding login sync_on
  csiebox_client_run fuel reads tree user passwd c =
      login m c user passwd >>= sync_on fuel reads tree
