-- ===== src/Tests/Box/Walks.antt =====
-- A directory with a directory and a file in it, for the theorem on the walk of the client of MP5.
use sp.Base.{◌≡◌, refl, true, some, [], ◌∷◌, ◌++◌, map, Bytes, codes, bytes_eq, if◌then◌else◌, drop}
use sp.Base.Int.{pos}
use sp.Box.Protocol.{Stat, Op, op_login, op_sync_meta}
use sp.Box.Monitor.{
  Machine, Client, Reply, is_login_ok, send_login, send_end, ok, returned, no_stat, is_dir,
}
use sp.Box.Monitor.Relative.{convert_to_relative_path}
use sp.Box.Monitor.Walk.{Listing, over, name, code_of_stat, is_dot, under}
use sp.Box.Monitor.Walk.Ready.{meta_for, enters}
use sp.Box.Config.{accepted, client_fields}
use sp.Box.Monitor.Session.{csiebox_client_init, csiebox_client_run, monitor_home}
use sp.Box.Monitor.Session.Started.{csiebox_client_run-announces}

abbrev stat_at : Bytes → Stat
stat_at path =
    if bytes_eq path (codes "/abcd/d")
    then record no_stat { st_mode = 16384; st_ino = 2 }
    else record no_stat { st_mode = 32768; st_ino = 1 }

abbrev at_home : Machine
at_home = record {
  lstat = λ path. some (stat_at path);
  read = λ path. some (codes "x");
  chdir = λ path. true;
  inotify_add_watch = λ path. pos 1;
  md5 = λ b. b;
  junk = λ path. codes "junk";
  behind = λ path. [];
}

abbrev tree : Listing
tree = name (codes ".") over (name (codes "d") (name (codes "b") over over) over)

abbrev behind_root : Bytes → Bytes
behind_root path = drop 5 path

abbrev reply : Op → Reply
reply o = record { op = o; status = ok; client_id = 5 }

csiebox_client_run-announces_example :
    (c c' : Client) × (csiebox_client_init
        (accepted client_fields)
        true
        true
        (codes "/abcd")
        (reply op_login ∷ reply op_sync_meta ∷ reply op_sync_meta ∷ [])
      ≡ returned (some c))
    × (csiebox_client_run at_home 9 [] tree (codes "ann") (codes "pw") c
        ≡ monitor_home at_home 9 [] c')
    × (c'.replies ≡ [])
    × (c'.sent
        ≡ send_login (codes "ann") (codes "pw")
          ∷ (map
                (meta_for at_home 5 (codes "/abcd") behind_root)
                (codes "/abcd/d" ∷ codes "/abcd/d/b" ∷ [])
              ++ send_end 5 ∷ []))
unfolding convert_to_relative_path code_of_stat enters is_dot is_dir under is_login_ok
csiebox_client_run-announces_example =
    csiebox_client_run-announces at_home 5 (codes "/abcd") behind_root (λ p. reply op_sync_meta)
      (λ p. refl) client_fields tree (codes "ann") (codes "pw") (reply op_login) 9 [] [] refl refl
      refl ((refl, tt), (tt, tt)) (refl, (refl, tt))
