-- ===== src/Box/Client/Events.antt =====
-- MP2/src/csiebox_client.cpp: what `csiebox_client_run` does for an event of inotify.
use sp.Base.{ℕ, Bool, List, [], ◌∷◌, ◌++◌, Bytes, codes, bytes_eq, if◌then◌else◌, take}
use sp.Box.Protocol.{Stat}
use sp.Box.Client.Traverse.{Action, do_meta, do_rm, do_end, add_watch, set_inode}

-- `inotify_event`: the watch, the bits of the mask that are tested, and the name.
pub record Event : Type 0 where
  pub wd : ℕ
  pub in_create : Bool
  pub in_delete : Bool
  pub in_attrib : Bool
  pub in_modify : Bool
  pub in_isdir : Bool
  pub name : Bytes

-- `memcmp(event->name, "process_end", 11) == 0`
unfoldable pub is_process_end : Event → Bool
is_process_end e = bytes_eq (take 11 e.name) (codes "process_end")

-- `"./" + upper_path + "/" + event->name`
unfoldable pub new_path : Bytes → Event → Bytes
new_path upper_path e = codes "./" ++ upper_path ++ b'/' ∷ e.name

unfoldable pub when : Bool → List Action → List Action
when c xs = if c then xs else []

-- `stat` and `upper_dir_stat` are what `lstat` gives for the new path and for the directory.
unfoldable pub event_actions : Bytes → Event → Stat → Stat → List Action
unfolding new_path when
event_actions upper_path e stat upper_dir_stat =
    let path = new_path upper_path e in
    when e.in_create (do_meta path stat ∷ do_meta upper_path upper_dir_stat ∷ [])
    ++ when e.in_delete (do_rm path ∷ do_meta upper_path upper_dir_stat ∷ [])
    ++ when e.in_attrib (do_meta path stat ∷ [])
    ++ when e.in_modify (do_meta path stat ∷ [])
    ++ (if e.in_isdir
        then when e.in_create (add_watch path ∷ [])
        else set_inode stat.st_ino path ∷ [])
    ++ do_end ∷ []
