-- ===== src/Box/Monitor/Walk/Ready.antt =====
-- MP5: one step of the walk of the client, when the server has everything already.
use sp.Base.{
  ℕ, ◌<◌, ◌≡◌, refl, ap, ◌∙◌, Bool, true, false, ◌&&◌, none, some, List, [], ◌∷◌, ◌++◌, Bytes,
  if◌then◌else◌, length, All,
}
use sp.Base.Int.{ℤ, ◌==ℤ◌}
use sp.Box.Table.{Chain, put_into_hash, get_from_hash}
use sp.Box.Table.Change.{IsTable, put_into_hash-get_from_hash}
use sp.Box.Table.Unique.{put_into_hash-IsTable}
use sp.Box.Monitor.Relative.{convert_to_relative_path}
use sp.Box.Monitor.{
  Machine, Client, Run, returned, or_fault, Reply, ok, Message, send_meta, send, recv, is_dir,
  stat_or_none, digest, meta_of, sync_file, sync_file_meta, after_meta, add_inotify,
}
use sp.Box.Monitor.Walk.{Listing, over, name, code_of_stat, is_dot, under, check_walked_dir, enter}

module _ (m : Machine) where
  -- A directory that can be entered.
  unfoldable pub enters : Bytes → Bool
  unfolding is_dir stat_or_none
  enters path = is_dir (stat_or_none (m.lstat path)) && m.chdir path

  -- The paths of a directory: each name, and then what is in it.
  abbrev pub paths : Bytes → Listing → List Bytes
  paths cwd over = []
  paths cwd (name n below rest) =
      let path = under cwd n in
      let inner = paths path below in
      let others = paths cwd rest in
      if is_dot n then others else path ∷ (if enters path then inner else []) ++ others

  -- The codes of the directories that are entered, in that order.
  abbrev pub codes_of : Bytes → Listing → List ℤ
  codes_of cwd over = []
  codes_of cwd (name n below rest) =
      let path = under cwd n in
      let inner = codes_of path below in
      let others = codes_of cwd rest in
      if is_dot n
      then others
      else (if enters path then code_of_stat (m.lstat path) ∷ inner else []) ++ others

-- The codes are new to the table, and different.
abbrev pub IsFresh : List (Chain Bytes) → List ℤ → Type 0
IsFresh h [] = Unit
IsFresh h (k ∷ ks) =
    (get_from_hash h k ≡ some none) × All (λ j. (k ==ℤ j) ≡ false) ks × IsFresh h ks

put-IsFresh :
    (h h' : List (Chain Bytes)) (k : ℤ) (path : Bytes) (ks : List ℤ)
    → ((q : ℤ) → get_from_hash h' q ≡ (if k ==ℤ q then some (some path) else get_from_hash h q))
    → All (λ j. (k ==ℤ j) ≡ false) ks
    → IsFresh h ks
    → IsFresh h' ks
put-IsFresh h h' k path [] f a i = tt
put-IsFresh h h' k path (j ∷ ks) f (e, a) (g, b, i) =
    (f j ∙ rw e g, b, put-IsFresh h h' k path ks f a i)

-- A table that can take more.
abbrev pub IsOpen : List (Chain Bytes) → Type 0
IsOpen h = (0 < length h) × IsTable h

put_new :
    (h : List (Chain Bytes)) (path : Bytes) (k : ℤ) (ks : List ℤ)
    → IsOpen h
    → IsFresh h (k ∷ ks)
    → (h' : List (Chain Bytes)) × (put_into_hash h path k ≡ some (h', true))
      × IsOpen h'
      × IsFresh h' ks
put_new h path k ks (l, t) (g, a, i) = by_result (put_into_hash-get_from_hash h path k l)
  where
    by_result :
        (r : List (Chain Bytes) × Bool) × (put_into_hash h path k ≡ some r)
          × ((r.1 ≡ true → get_from_hash h k ≡ some none)
              × (get_from_hash h k ≡ some none → r.1 ≡ true))
          × ((q : ℤ)
              → get_from_hash r.0 q
                ≡ (if r.1 && (k ==ℤ q) then some (some path) else get_from_hash h q))
        → (h' : List (Chain Bytes)) × (put_into_hash h path k ≡ some (h', true))
          × IsOpen h'
          × IsFresh h' ks
    by_result ((h', done), e, (_, b), f) =
        let d : done ≡ true = b g in
        let (t', n) = put_into_hash-IsTable h h' path k done l t e in
        (
          h',
          e ∙ ap (λ x. some (h', x)) d,
          (rw n l, t'),
          put-IsFresh h h' k path ks
              (λ q.
                f q ∙ ap (λ x. if x && (k ==ℤ q) then some (some path) else get_from_hash h q) d)
              a i,
        )

module _ (m : Machine) (id : ℕ) (root : Bytes) (rel : Bytes → Bytes) where
  -- The request for a path.
  abbrev pub meta_for : Bytes → Message
  meta_for path =
      let st = stat_or_none (m.lstat path) in
      send_meta (record { client_id = id; path = rel path; stat = st; hash = digest m path st })

  abbrev pub IsConverted : Bytes → Type 0
  IsConverted path = convert_to_relative_path root [] path (m.junk path) ≡ some (some (rel path))

  -- A client with these responses to come, to whose tables these codes are new.
  pub record IsReady (c : Client) (ks : List ℤ) (rs : List Reply) : Type 0 where
    pub dirs : IsOpen c.dir_hash
    pub watches : IsOpen c.inotify_hash
    pub fresh : IsFresh c.dir_hash ks
    pub coming : c.replies ≡ rs
    pub own_id : c.client_id ≡ id
    pub own_root : c.root ≡ root

  pub synced :
      (c : Client) (ks : List ℤ) (path : Bytes) (r : Reply) (rs : List Reply)
      → IsReady c ks (r ∷ rs)
      → r.status ≡ ok
      → IsConverted path
      → (c' : Client) × (sync_file m c path ≡ returned c')
        × IsReady c' ks rs
        × (c'.sent ≡ c.sent ++ meta_for path ∷ [])
  unfolding sync_file sync_file_meta after_meta send recv or_fault meta_of
  synced c ks path r rs i o e =
      let e' : convert_to_relative_path c.root [] path (m.junk path) ≡ some (some (rel path)) =
        rw i.own_root e in
      let c' : Client = record c {
        sent = c.sent ++ send_meta (meta_of m c path (rel path)) ∷ [];
        replies = rs;
      } in
      (
        c',
        rw (sync_file, sync_file_meta, e', i.coming, o) refl,
        record {
          dirs = i.dirs;
          watches = i.watches;
          fresh = i.fresh;
          coming = refl;
          own_id = i.own_id;
          own_root = i.own_root;
        },
        rw i.own_id refl,
      )

  watched :
      (c : Client) (path : Bytes)
      → IsOpen c.inotify_hash
      → (h : List (Chain Bytes)) × (add_inotify m c path ≡ returned (record c { inotify_hash = h }))
        × IsOpen h
  unfolding add_inotify or_fault
  watched c path (l, t) =
      let ((h, done), e, _, _) =
        put_into_hash-get_from_hash c.inotify_hash (path ++ m.behind path)
          (m.inotify_add_watch path) l in
      let (t', n) =
        put_into_hash-IsTable c.inotify_hash h (path ++ m.behind path) (m.inotify_add_watch path)
          done l t e in
      (h, rw (add_inotify, e) refl, (rw n l, t'))

  pub entered :
      (c : Client) (ks : List ℤ) (path : Bytes) (rs : List Reply)
      → IsReady c (code_of_stat (m.lstat path) ∷ ks) rs
      → (c' : Client) × IsReady c' ks rs
        × (c'.sent ≡ c.sent)
        × ((walk : Client → Run Client) → enter m c path walk ≡ walk c')
  unfolding enter check_walked_dir or_fault
  entered c ks path rs i =
      let (h, e, o, f) = put_new c.dir_hash path (code_of_stat (m.lstat path)) ks i.dirs i.fresh in
      let c1 : Client = record c { dir_hash = h } in
      let (w, x, y) = watched c1 path i.watches in
      (
        record c1 { inotify_hash = w },
        record {
          dirs = o;
          watches = y;
          fresh = f;
          coming = i.coming;
          own_id = i.own_id;
          own_root = i.own_root;
        },
        refl,
        (λ walk. rw (enter, check_walked_dir, e, x) refl),
      )
