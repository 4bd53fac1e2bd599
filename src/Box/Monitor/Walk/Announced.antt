-- ===== src/Box/Monitor/Walk/Announced.antt =====
-- MP5: what the walk of the client tells a server that has everything already.
use mathlib.Core.List.{map-append}
use sp.Base.{
  ℕ, ◌≡◌, refl, sym, ap, subst, ◌∙◌, inl, inr, true, false, List, [], ◌∷◌, ◌++◌, map, append_assoc,
  append-nil, Bytes, Bool-cases, All,
}
use sp.Base.Int.{ℤ}
use sp.Box.Monitor.{
  Machine, Client, Run, returned, ◌>>=◌, Reply, ok, is_dir, stat_or_none, sync_file,
}
use sp.Box.Monitor.Walk.{
  Listing, over, name, code_of_stat, is_dot, under, enter, sync_names, sync_all,
}
use sp.Box.Monitor.Walk.Ready.{
  enters, paths, codes_of, meta_for, IsConverted, IsReady, synced, entered,
}

All-split {ℓ κ} :
    {A : Type ℓ} (P : A → Type κ) (xs ys : List A) → All P (xs ++ ys) → All P xs × All P ys
All-split P [] ys a = (tt, a)
All-split P (x ∷ xs) ys (p, a) = let (b, c) = All-split P xs ys a in ((p, b), c)

module _ (m : Machine) where
  names-over : (cwd : Bytes) (c : Client) → sync_names m cwd over c ≡ returned c
  unfolding sync_names
  names-over cwd c = refl

  names-dot :
      (cwd n : Bytes) (below rest : Listing) (c : Client)
      → is_dot n ≡ true
      → sync_names m cwd (name n below rest) c ≡ sync_names m cwd rest c
  unfolding sync_names
  names-dot cwd n below rest c d = rw (sync_names, d) refl

  names-plain :
      (cwd n : Bytes) (below rest : Listing) (c c' : Client)
      → is_dot n ≡ false
      → sync_file m c (under cwd n) ≡ returned c'
      → enters m (under cwd n) ≡ false
      → sync_names m cwd (name n below rest) c ≡ sync_names m cwd rest c'
  unfolding sync_names enters
  names-plain cwd n below rest c c' d s e =
      elim (Bool-cases (is_dir (stat_or_none (m.lstat (under cwd n))))) [
        | inr x ↦ rw (sync_names, d, s, x) refl
        | inl x ↦
            let y : m.chdir (under cwd n) ≡ false = rw (enters, x) at e in
            rw (sync_names, d, s, x, y) refl
      ]

  names-enter :
      (cwd n : Bytes) (below rest : Listing) (c c' : Client)
      → is_dot n ≡ false
      → sync_file m c (under cwd n) ≡ returned c'
      → enters m (under cwd n) ≡ true
      → sync_names m cwd (name n below rest) c
        ≡ (enter m c' (under cwd n) (sync_names m (under cwd n) below) >>= sync_names m cwd rest)
  unfolding sync_names enters
  names-enter cwd n below rest c c' d s e =
      elim (Bool-cases (is_dir (stat_or_none (m.lstat (under cwd n))))) [
        | inr x ↦ absurd (cc (rw (enters, x) at e))
        | inl x ↦
            let y : m.chdir (under cwd n) ≡ true = rw (enters, x) at e in
            rw (sync_names, d, s, x, y) refl
      ]

module _ (m : Machine) (id : ℕ) (root : Bytes) (rel : Bytes → Bytes) (answer : Bytes → Reply)
    (good : (p : Bytes) → (answer p).status ≡ ok) where
  -- The walk returns, and has sent the requests for these paths, and no more.
  abbrev Walked : Client → Run Client → List Bytes → List ℤ → List Reply → Type 0
  Walked c run ps ks more =
      (c' : Client) × (run ≡ returned c')
      × IsReady m id root rel c' ks more
      × (c'.sent ≡ c.sent ++ map (meta_for m id root rel) ps)

  -- One walk after another.
  walk_on :
      (c c' : Client) (run : Run Client) (ps qs : List Bytes) (ks : List ℤ) (more : List Reply)
      → c'.sent ≡ c.sent ++ map (meta_for m id root rel) ps
      → Walked c' run qs ks more
      → Walked c run (ps ++ qs) ks more
  walk_on c c' run ps qs ks more s (d, e, i, t) = (
    d,
    e,
    i,
    t
        ∙ ap (λ x. x ++ map (meta_for m id root rel) qs) s
        ∙ append_assoc c.sent (map (meta_for m id root rel) ps) (map (meta_for m id root rel) qs)
        ∙ ap (λ x. c.sent ++ x) (sym (map-append (meta_for m id root rel) ps qs)),
  )

  -- A directory that is entered, and what follows it.
  enter-Walked :
      (c : Client) (path : Bytes) (inner others : List Bytes) (ds es ks : List ℤ)
      (more : List Reply) (walk walk' : Client → Run Client)
      → IsReady m id root rel c
          (code_of_stat (m.lstat path) ∷ (ds ++ es) ++ ks)
          (map answer (inner ++ others) ++ more)
      → ((c' : Client)
          → IsReady m id root rel c'
              (ds ++ (es ++ ks))
              (map answer inner ++ (map answer others ++ more))
          → Walked c' (walk c') inner (es ++ ks) (map answer others ++ more))
      → ((c' : Client)
          → IsReady m id root rel c' (es ++ ks) (map answer others ++ more)
          → Walked c' (walk' c') others ks more)
      → Walked c (enter m c path walk >>= walk') (inner ++ others) ks more
  enter-Walked c path inner others ds es ks more walk walk' i f g =
      let (c1, j, t, w) =
        entered m id root rel c ((ds ++ es) ++ ks) path (map answer (inner ++ others) ++ more) i in
      let answers : map answer (inner ++ others) ++ more
          ≡ map answer inner ++ (map answer others ++ more) =
        ap (λ x. x ++ more) (map-append answer inner others)
        ∙ append_assoc (map answer inner) (map answer others) more in
      let j1 = subst (IsReady m id root rel c1 ((ds ++ es) ++ ks)) answers j in
      let j2 =
        subst (λ k. IsReady m id root rel c1 k (map answer inner ++ (map answer others ++ more)))
          (append_assoc ds es ks) j1 in
      let (c2, x, k, u) = f c1 j2 in
      subst (λ r. Walked c r (inner ++ others) ks more) (sym (ap (λ r. r >>= walk') (w walk ∙ x)))
        (walk_on c c2 (walk' c2) inner others ks more
          (u ∙ ap (λ y. y ++ map (meta_for m id root rel) inner) t) (g c2 k))

  names-Walked :
      (tree : Listing) (cwd : Bytes) (c : Client) (ks : List ℤ) (more : List Reply)
      → IsReady m id root rel c (codes_of m cwd tree ++ ks) (map answer (paths m cwd tree) ++ more)
      → All (IsConverted m id root rel) (paths m cwd tree)
      → Walked c (sync_names m cwd tree c) (paths m cwd tree) ks more
  names-Walked over cwd c ks more i v = (c, names-over m cwd c, i, sym (append-nil c.sent))
  names-Walked (name n below rest) cwd c ks more i v = elim (Bool-cases (is_dot n)) [
    | inl d ↦
        rw (names-dot m cwd n below rest c d, d)
          (names-Walked rest cwd c ks more (rw d at i) (rw d at v))
    | inr d ↦
        let path = under cwd n in
        elim (Bool-cases (enters m path)) [
          | inr e ↦
              let v' = rw (d, e) at v in
              let (c', s, j, t) =
                synced m id root rel c (codes_of m cwd rest ++ ks) path (answer path)
                  (map answer (paths m cwd rest) ++ more) (rw (d, e) at i) (good path) v'.0 in
              rw (names-plain m cwd n below rest c c' d s e, d, e)
                (walk_on c c' (sync_names m cwd rest c') (path ∷ []) (paths m cwd rest) ks more t
                  (names-Walked rest cwd c' ks more j v'.1))
          | inl e ↦
              let inner = paths m path below in
              let others = paths m cwd rest in
              let v' = rw (d, e) at v in
              let (vi, vo) = All-split (IsConverted m id root rel) inner others v'.1 in
              let (c1, s, j, t) =
                synced m id root rel c
                  (code_of_stat (m.lstat path) ∷ (codes_of m path below ++ codes_of m cwd rest)
                    ++ ks)
                  path (answer path) (map answer (inner ++ others) ++ more) (rw (d, e) at i)
                  (good path) v'.0 in
              let back = names-enter m cwd n below rest c c1 d s e in
              let pe : paths m cwd (name n below rest) ≡ path ∷ (inner ++ others) =
                rw (d, e) refl in
              let run = enter m c1 path (sync_names m path below) >>= sync_names m cwd rest in
              let walked : Walked c1 run (inner ++ others) ks more =
                enter-Walked c1 path inner others (codes_of m path below) (codes_of m cwd rest) ks
                  more (sync_names m path below) (sync_names m cwd rest) j
                  (λ c' k.
                    names-Walked below path c' (codes_of m cwd rest ++ ks)
                      (map answer others ++ more) k vi)
                  (λ c' k. names-Walked rest cwd c' ks more k vo) in
              subst (λ r. Walked c r (paths m cwd (name n below rest)) ks more) (sym back)
                (subst (λ ps. Walked c run ps ks more) (sym pe)
                  (walk_on c c1 run (path ∷ []) (inner ++ others) ks more t walked))
        ]
  ]

  -- When the server answers each request of the walk with OK, the paths lie below the root and the
  -- directories have codes that differ, `sync_all` returns, and it has sent one request for each name but
  -- "." and "..": that of a directory before those of what is in it, and a directory that cannot be
  -- entered without. It takes one response for each request.
  pub sync_all-announces :
      (tree : Listing) (cwd : Bytes) (c : Client) (more : List Reply)
      → IsReady m id root rel c
          (code_of_stat (m.lstat cwd) ∷ codes_of m cwd tree)
          (map answer (paths m cwd tree) ++ more)
      → All (IsConverted m id root rel) (paths m cwd tree)
      → (c' : Client) × (sync_all m cwd tree c ≡ returned c')
        × (c'.replies ≡ more)
        × (c'.sent ≡ c.sent ++ map (meta_for m id root rel) (paths m cwd tree))
        × (c'.client_id ≡ id)
  unfolding sync_all
  sync_all-announces tree cwd c more i v =
      let (c1, j, t, w) =
        entered m id root rel c (codes_of m cwd tree) cwd (map answer (paths m cwd tree) ++ more)
          i in
      let j' : IsReady m id root rel c1 (codes_of m cwd tree ++ [])
          (map answer (paths m cwd tree) ++ more) =
        subst (λ k. IsReady m id root rel c1 k (map answer (paths m cwd tree) ++ more))
          (sym (append-nil (codes_of m cwd tree))) j in
      let (c2, x, k, u) = names-Walked tree cwd c1 [] more j' v in
      (
        c2,
        w (sync_names m cwd tree) ∙ x,
        k.coming,
        u ∙ ap (λ y. y ++ map (meta_for m id root rel) (paths m cwd tree)) t,
        k.own_id,
      )
