-- ===== src/Box/Client/Traverse/Longest.antt =====
-- MP2: the path that `traverse` finds to be the longest.
use sp.Base.{
  ℕ, ◌+◌, ◌≤◌, ◌<◌, ◌≡◌, ◌≢◌, ◌⊎◌, refl, sym, subst, ◌∙◌, inl, inr, false, [], ◌∷◌, ◌++◌, arith,
  Bytes, Bool-cases,
}
use sp.Box.Protocol.{Stat, FileType, s_ifdir, s_iflnk, s_ifreg, s_ifother, file_type}
use sp.Box.Client.Traverse.{
  Entries, over, entry, Walk, is_dot, act, note_depth, leave_entry, restore_time, add_watch, meet,
  visit, traverse, start_walk, traverse_dir_tree,
}

-- A path of an entry that is no symbolic link, at a level below the directory that is walked.
pub data IsAt : Bytes → ℕ → Entries → ℕ → Bytes → Type 0 where
  here :
      (upper name : Bytes) (cur : ℕ) (st : Stat) (below rest : Entries)
      → is_dot name ≡ false
      → file_type st ≢ s_iflnk
      → IsAt upper cur (entry name st below rest) cur (upper ++ name)
  inside :
      (upper name path : Bytes) (cur level : ℕ) (st : Stat) (below rest : Entries)
      → is_dot name ≡ false
      → file_type st ≡ s_ifdir
      → IsAt ((upper ++ name) ++ b'/' ∷ []) (cur + 1) below level path
      → IsAt upper cur (entry name st below rest) level path
  later :
      (upper name path : Bytes) (cur level : ℕ) (st : Stat) (below rest : Entries)
      → IsAt upper cur rest level path
      → IsAt upper cur (entry name st below rest) level path

-- The walk before and the walk after: nothing deeper was met, or the longest path is that of an entry.
abbrev IsFound : Bytes → ℕ → Entries → Walk → Walk → Type 0
IsFound upper cur es w w' =
    ((w'.depth ≡ w.depth) × (w'.longest_path ≡ w.longest_path))
    ⊎ ((level : ℕ) × (w'.depth ≡ level + 1)
        × (w.depth < w'.depth)
        × IsAt upper cur es level w'.longest_path)

-- The two cases of `note_depth`.
note_depth-cases :
    (cur : ℕ) (path : Bytes) (w : Walk)
    → ((cur + 1 ≤ w.depth) × (note_depth cur path w ≡ w))
      ⊎ ((w.depth < cur + 1)
          × (note_depth cur path w ≡ record w { depth = cur + 1; longest_path = path }))
unfolding note_depth
note_depth-cases cur path w = ground arith

then-IsFound :
    (upper : Bytes) (cur : ℕ) (es es' : Entries) (w w' w'' : Walk)
    → ((level : ℕ) (path : Bytes) → IsAt upper cur es' level path → IsAt upper cur es level path)
    → IsFound upper cur es w w'
    → IsFound upper cur es' w' w''
    → IsFound upper cur es w w''
then-IsFound upper cur es es' w w' w'' lift (inl (a, b)) (inl (c, d)) = inl (c ∙ a, d ∙ b)
then-IsFound upper cur es es' w w' w'' lift (inl (a, b)) (inr (l, c, d, e)) =
    inr (l, c, omega arith, lift l _ e)
then-IsFound upper cur es es' w w' w'' lift (inr (l, a, b, at)) (inl (c, d)) =
    inr (l, c ∙ a, omega arith, subst (λ q. IsAt upper cur es l q) (sym d) at)
then-IsFound upper cur es es' w w' w'' lift (inr (l, a, b, at)) (inr (l', c, d, e)) =
    inr (l', c, omega arith, lift l' _ e)

found-le :
    (upper : Bytes) (cur : ℕ) (es : Entries) (w w' : Walk)
    → IsFound upper cur es w w'
    → w.depth ≤ w'.depth
found-le upper cur es w w' (inl (a, b)) = omega arith
found-le upper cur es w w' (inr (l, a, b, at)) = omega arith

noted :
    (upper : Bytes) (cur level : ℕ) (es : Entries) (path : Bytes) (w w' : Walk)
    → IsFound upper cur es w w'
    → IsAt upper cur es level path
    → IsFound upper cur es w (note_depth level path w')
noted upper cur level es path w w' found at = elim (note_depth-cases level path w') [
  | inl (l, e) ↦ rw e found
  | inr (l, e) ↦
      let m = found-le upper cur es w w' found in rw e (inr (level, refl, omega arith, at))
]

-- One entry, once those below it are walked.
leave_entry-IsFound :
    (upper name : Bytes) (cur : ℕ) (st : Stat) (below rest : Entries) (t : FileType)
    (w inner : Walk)
    → file_type st ≡ t
    → is_dot name ≡ false
    → IsFound ((upper ++ name) ++ b'/' ∷ []) (cur + 1) below w inner
    → IsFound upper cur (entry name st below rest) w (leave_entry t cur (upper ++ name) st w inner)
unfolding leave_entry act
leave_entry-IsFound upper name cur st below rest s_iflnk w inner f d found = inl (refl, refl)
leave_entry-IsFound upper name cur st below rest s_ifdir w inner f d found =
    noted upper cur cur (entry name st below rest) (upper ++ name) w
      (act (restore_time (upper ++ name) st ∷ add_watch (upper ++ name) ∷ []) inner) (raised found)
      (here upper name cur st below rest d (λ e. absurd (cc)))
  where
    raised :
        IsFound ((upper ++ name) ++ b'/' ∷ []) (cur + 1) below w inner
        → IsFound upper cur
            (entry name st below rest)
            w
            (act (restore_time (upper ++ name) st ∷ add_watch (upper ++ name) ∷ []) inner)
    raised (inl (a, b)) = inl (a, b)
    raised (inr (l, a, b, at)) = inr (l, a, b, inside upper name _ cur l st below rest d f at)
leave_entry-IsFound upper name cur st below rest s_ifreg w inner f d found =
    noted upper cur cur (entry name st below rest) (upper ++ name) w
      (act (restore_time (upper ++ name) st ∷ []) w) (inl (refl, refl))
      (here upper name cur st below rest d (λ e. absurd (cc)))
leave_entry-IsFound upper name cur st below rest s_ifother w inner f d found =
    noted upper cur cur (entry name st below rest) (upper ++ name) w
      (act (restore_time (upper ++ name) st ∷ []) w) (inl (refl, refl))
      (here upper name cur st below rest d (λ e. absurd (cc)))

visit-IsFound :
    (upper name : Bytes) (cur : ℕ) (st : Stat) (below rest : Entries) (w inner : Walk)
    → IsFound ((upper ++ name) ++ b'/' ∷ []) (cur + 1) below (meet (upper ++ name) st w) inner
    → IsFound upper cur (entry name st below rest) w (visit upper name st cur w inner)
unfolding visit meet act
visit-IsFound upper name cur st below rest w inner found = elim (Bool-cases (is_dot name)) [
  | inl d ↦ rw d (inl (refl, refl))
  | inr d ↦ rw d (
      leave_entry-IsFound upper name cur st below rest (file_type st) (meet (upper ++ name) st w)
        inner refl d found)
]

traverse-IsFound :
    (upper : Bytes) (es : Entries) (cur : ℕ) (w : Walk)
    → IsFound upper cur es w (traverse upper es cur w)
unfolding traverse
traverse-IsFound upper over cur w = inl (refl, refl)
traverse-IsFound upper (entry name st below rest) cur w =
    let inner =
      traverse ((upper ++ name) ++ b'/' ∷ []) below (cur + 1) (meet (upper ++ name) st w) in
    let v = visit upper name st cur w inner in
    let below_found =
      traverse-IsFound ((upper ++ name) ++ b'/' ∷ []) below (cur + 1) (meet (upper ++ name) st w) in
    then-IsFound upper cur (entry name st below rest) rest w v (traverse upper rest cur v)
      (λ l p. later upper name p cur l st below rest)
      (visit-IsFound upper name cur st below rest w inner below_found)
      (traverse-IsFound upper rest cur v)

noted-le :
    (level : ℕ) (path : Bytes) (w : Walk)
    → (level + 1 ≤ (note_depth level path w).depth) × (w.depth ≤ (note_depth level path w).depth)
noted-le level path w = elim (note_depth-cases level path w) [
  | inl (l, e) ↦ rw e (l, omega arith)
  | inr (l, e) ↦ rw e (omega arith, omega arith)
]

-- An entry that is no symbolic link is counted, and so is what is in a directory.
leave_entry-le :
    (t : FileType) (cur : ℕ) (path : Bytes) (st : Stat) (w inner : Walk)
    → t ≢ s_iflnk
    → (cur + 1 ≤ (leave_entry t cur path st w inner).depth)
      × (t ≡ s_ifdir → inner.depth ≤ (leave_entry t cur path st w inner).depth)
unfolding leave_entry act
leave_entry-le s_iflnk cur path st w inner n = absurd (n refl)
leave_entry-le s_ifdir cur path st w inner n =
    let r = noted-le cur path (act (restore_time path st ∷ add_watch path ∷ []) inner) in
    (r.0, λ e. r.1)
leave_entry-le s_ifreg cur path st w inner n =
    ((noted-le cur path (act (restore_time path st ∷ []) w)).0, λ e. absurd (cc))
leave_entry-le s_ifother cur path st w inner n =
    ((noted-le cur path (act (restore_time path st ∷ []) w)).0, λ e. absurd (cc))

visit-le :
    (upper name : Bytes) (st : Stat) (cur : ℕ) (w inner : Walk)
    → is_dot name ≡ false
    → file_type st ≢ s_iflnk
    → (cur + 1 ≤ (visit upper name st cur w inner).depth)
      × (file_type st ≡ s_ifdir → inner.depth ≤ (visit upper name st cur w inner).depth)
unfolding visit
visit-le upper name st cur w inner d n =
    rw d (leave_entry-le (file_type st) cur (upper ++ name) st (meet (upper ++ name) st w) inner n)

-- Nothing that is visited is deeper than the walk's depth.
traverse-le :
    (upper : Bytes) (es : Entries) (cur : ℕ) (w : Walk) (level : ℕ) (path : Bytes)
    → IsAt upper cur es level path
    → level + 1 ≤ (traverse upper es cur w).depth
unfolding traverse
traverse-le upper over cur w level path at = elim at [ ]
traverse-le upper (entry name st below rest) cur w level path (here _ _ _ _ _ _ d n) =
    let inner =
      traverse ((upper ++ name) ++ b'/' ∷ []) below (cur + 1) (meet (upper ++ name) st w) in
    let v = visit upper name st cur w inner in
    let m =
      found-le upper cur rest v (traverse upper rest cur v) (traverse-IsFound upper rest cur v) in
    let l = (visit-le upper name st cur w inner d n).0 in omega arith
traverse-le upper (entry name st below rest) cur w level path (inside _ _ _ _ _ _ _ _ d f at) =
    let inner =
      traverse ((upper ++ name) ++ b'/' ∷ []) below (cur + 1) (meet (upper ++ name) st w) in
    let v = visit upper name st cur w inner in
    let m =
      found-le upper cur rest v (traverse upper rest cur v) (traverse-IsFound upper rest cur v) in
    let l = (visit-le upper name st cur w inner d (λ e. absurd (cc (sym f ∙ e)))).1 f in
    let k =
      traverse-le ((upper ++ name) ++ b'/' ∷ []) below (cur + 1) (meet (upper ++ name) st w) level
        path at in
    omega arith
traverse-le upper (entry name st below rest) cur w level path (later _ _ _ _ _ _ _ _ at) =
    let inner =
      traverse ((upper ++ name) ++ b'/' ∷ []) below (cur + 1) (meet (upper ++ name) st w) in
    traverse-le upper rest cur (visit upper name st cur w inner) level path at

-- The path that `traverse_dir_tree` finds to be the longest is that of an entry, other than a symbolic
-- link, at the deepest level at which there is one; when there is none, it is empty.
pub traverse_dir_tree_longest :
    (tree : Entries) (longest_stat root_stat : Stat)
    → (let w = traverse_dir_tree tree longest_stat root_stat in
        ((level : ℕ) (path : Bytes) → IsAt [] 0 tree level path → level + 1 ≤ w.depth)
        × (((w.depth ≡ 0) × (w.longest_path ≡ []))
            ⊎ ((level : ℕ) × (w.depth ≡ level + 1) × IsAt [] 0 tree level w.longest_path)))
unfolding traverse_dir_tree act start_walk
traverse_dir_tree_longest tree longest_stat root_stat = (
  (λ level path at. traverse-le [] tree 0 start_walk level path at),
  elim (traverse-IsFound [] tree 0 start_walk) [
    | inl (a, b) ↦ inl (a, b)
    | inr (l, a, b, at) ↦ inr (l, a, at)
  ],
)
