-- ===== src/Box/Monitor/Session/Started.antt =====
-- MP5: what a client that was just made tells a server that lets it log in and has everything already.
use mathlib.Core.Option.{some-injective}
use sp.Base.{
  ℕ, zero, suc, ◌≡◌, refl, sym, ap, true, false, Option, none, some, List, [], ◌∷◌, ◌++◌, map,
  Bytes, replicate, get_elem?, length, All, arith,
}
use sp.Base.Int.{ℤ, ◌==ℤ◌}
use sp.Box.Table.{Chain, chain_of, get_chain, slot, init_hash, get_from_hash}
use sp.Box.Table.Change.{chain-some}
use sp.Box.Table.Unique.{init_hash-IsTable}
use sp.Box.Monitor.{
  Machine, Client, returned, ◌>>=◌, Reply, ok, send, send_login, send_end, recv, is_login_ok,
  or_fault, login,
}
use sp.Box.Monitor.Walk.{Listing, code_of_stat, sync_all, prepare_and_sync}
use sp.Box.Monitor.Walk.Ready.{IsFresh, paths, codes_of, meta_for, IsConverted, IsReady}
use sp.Box.Monitor.Walk.Announced.{sync_all-announces}
use sp.Box.Monitor.Events.{Event}
use sp.Box.Monitor.Session.{
  new_client, make_tables, csiebox_client_init, monitor_home, watch_on, sync_on, csiebox_client_run,
}
use sp.Box.Config as Config
use sp.Box.Config.{Field}

abbrev empty_table : List (Chain Bytes)
empty_table = replicate 100 []

chain_empty : (n k : ℕ) (c : Chain Bytes) → get_elem? (replicate n []) k ≡ some c → c ≡ []
chain_empty zero k c e = absurd (cc)
chain_empty (suc n) zero c e = sym (some-injective _ _ e)
chain_empty (suc n) (suc k) c e = chain_empty n k c e

nothing_in : (k : ℤ) → get_from_hash empty_table k ≡ some none
unfolding get_from_hash chain_of get_chain
nothing_in k =
    let (c, x) = chain-some empty_table k (omega arith) in
    rw (get_from_hash, x, chain_empty 100 (slot k (length empty_table)) c x) refl

-- No code is there twice.
abbrev pub AreDistinct : List ℤ → Type 0
AreDistinct [] = Unit
AreDistinct (k ∷ ks) = All (λ j. (k ==ℤ j) ≡ false) ks × AreDistinct ks

empty-IsFresh : (ks : List ℤ) → AreDistinct ks → IsFresh empty_table ks
empty-IsFresh [] d = tt
empty-IsFresh (k ∷ ks) (a, d) = (nothing_in k, a, empty-IsFresh ks d)

init-new :
    (fs : List Field) (root : Bytes) (replies : List Reply)
    → csiebox_client_init (Config.accepted fs) true true root replies
      ≡ returned (some (new_client root replies empty_table empty_table))
unfolding csiebox_client_init make_tables init_hash or_fault
init-new fs root replies = refl

module _ (m : Machine) (id : ℕ) (root : Bytes) (rel : Bytes → Bytes) (answer : Bytes → Reply)
    (good : (p : Bytes) → (answer p).status ≡ ok) where
  -- The client behind a login that succeeded.
  abbrev logged_in : Bytes → Bytes → List Reply → Client
  logged_in user passwd replies = record (new_client root replies empty_table empty_table) {
    client_id = id;
    sent = send_login user (m.md5 passwd) ∷ [];
  }

  logged_in-IsReady :
      (user passwd : Bytes) (ks : List ℤ) (rs : List Reply)
      → AreDistinct ks
      → IsReady m id root rel (logged_in user passwd rs) ks rs
  unfolding new_client init_hash
  logged_in-IsReady user passwd ks rs d =
      let (t, l) = init_hash-IsTable {A = Bytes} 100 empty_table refl in
      record {
        dirs = (omega arith, t);
        watches = (omega arith, t);
        fresh = empty-IsFresh ks d;
        coming = refl;
        own_id = refl;
        own_root = refl;
      }

  login-logged_in :
      (r : Reply) (user passwd : Bytes) (rs : List Reply)
      → is_login_ok r ≡ true
      → r.client_id ≡ id
      → login m (new_client root (r ∷ rs) empty_table empty_table) user passwd
        ≡ returned (true, logged_in user passwd rs)
  unfolding login send recv new_client
  login-logged_in r user passwd rs g i = rw (g, i) refl

  synced_on :
      (fuel : ℕ) (reads : List (Option (List Event))) (tree : Listing) (c c1 : Client)
      → m.chdir c.root ≡ true
      → sync_all m c.root tree c ≡ returned c1
      → sync_on m fuel reads tree (true, c)
        ≡ monitor_home m fuel reads (send c1 (send_end c1.client_id))
  unfolding sync_on watch_on prepare_and_sync
  synced_on fuel reads tree c c1 enter walk = rw enter (
      ap
        (λ x.
          (x >>= λ c'. returned (true, send c' (send_end c'.client_id))) >>= watch_on m fuel reads)
        walk)

  -- When the configuration is accepted and the connections are made, `csiebox_client_init` makes a
  -- client. If its directory can be entered, the server lets it log in and answers each request of the walk
  -- with OK, the paths lie below the root and the directories have codes that differ, the run of this
  -- client sends the login first, then one request for each name but "." and "..", that of a directory
  -- before those of what is in it, and then the end, each with the id that the login gave; it takes one
  -- response for each of them but the end, and goes on to watch.
  pub csiebox_client_run-announces :
      (fs : List Field) (tree : Listing) (user passwd : Bytes) (r : Reply) (fuel : ℕ)
      (reads : List (Option (List Event))) (more : List Reply)
      → is_login_ok r ≡ true
      → r.client_id ≡ id
      → m.chdir root ≡ true
      → AreDistinct (code_of_stat (m.lstat root) ∷ codes_of m root tree)
      → All (IsConverted m id root rel) (paths m root tree)
      → (c c' : Client) × (csiebox_client_init
            (Config.accepted fs)
            true
            true
            root
            (r ∷ (map answer (paths m root tree) ++ more))
          ≡ returned (some c))
        × (csiebox_client_run m fuel reads tree user passwd c ≡ monitor_home m fuel reads c')
        × (c'.replies ≡ more)
        × (c'.sent
            ≡ send_login user (m.md5 passwd)
              ∷ (map (meta_for m id root rel) (paths m root tree) ++ send_end id ∷ []))
  unfolding csiebox_client_run send new_client
  csiebox_client_run-announces fs tree user passwd r fuel reads more g i enter d v =
      let rs = map answer (paths m root tree) ++ more in
      let (c1, walk, left, told, own) =
        sync_all-announces m id root rel answer good tree root (logged_in user passwd rs) more
          (logged_in-IsReady user passwd (code_of_stat (m.lstat root) ∷ codes_of m root tree) rs d)
          v in
      (
        new_client root (r ∷ rs) empty_table empty_table,
        send c1 (send_end c1.client_id),
        init-new fs root (r ∷ rs),
        rw (login-logged_in r user passwd rs g i)
            (synced_on fuel reads tree (logged_in user passwd rs) c1 enter walk),
        left,
        rw (told, own) refl,
      )
