-- ===== src/Box/Exchange/Walked.antt =====
-- MP2: a walk of the client's tree, performed with the server, up to the end of the sync.
use sp.Base.{
  ℕ, ◌≡◌, refl, sym, ap, subst, ◌∙◌, inl, inr, List, [], ◌∷◌, ◌++◌, ◌+◌, append-nil, append_assoc,
  arith, Bytes, if◌then◌else◌, Bool-cases,
}
use sp.Box.Protocol.{Stat, FileType, s_ifdir, s_iflnk, s_ifreg, s_ifother, file_type}
use sp.Box.Server.{DirStat}
use sp.Box.Client.Traverse.{
  Entries, over, entry, Action, do_meta, do_rm, do_end, restore_time, add_watch, set_inode,
  clear_longest, write_longest, Walk, is_dot, act, note_depth, leave_entry, meet, visit, traverse,
}

-- What one entry adds, given what is below it.
unfoldable seen : Bytes → Bytes → Stat → List DirStat → List DirStat
seen name path st below =
    if is_dot name
    then []
    else record { dir = st; path = path }
      ∷ elim (file_type st) [ s_ifdir ↦ below | s_iflnk ↦ [] | s_ifreg ↦ [] | s_ifother ↦ [] ]

-- The entries below a directory, each before what is in it.
unfoldable pub visited : Bytes → Entries → List DirStat
unfolding seen
visited upper over = []
visited upper (entry name st below rest) =
    seen name (upper ++ name) st (visited ((upper ++ name) ++ b'/' ∷ []) below)
    ++ visited upper rest

-- What the server is told, in its order.
unfoldable pub metas : List Action → List DirStat
metas [] = []
metas (do_meta path st ∷ xs) = record { dir = st; path = path } ∷ metas xs
metas (_ ∷ xs) = metas xs

pub metas-append : (xs ys : List Action) → metas (xs ++ ys) ≡ metas xs ++ metas ys
unfolding metas
metas-append [] ys = refl
metas-append (do_meta path st ∷ xs) ys =
    ap (λ r. record { dir = st; path = path } ∷ r) (metas-append xs ys)
metas-append (do_rm path ∷ xs) ys = metas-append xs ys
metas-append (do_end ∷ xs) ys = metas-append xs ys
metas-append (restore_time path st ∷ xs) ys = metas-append xs ys
metas-append (add_watch path ∷ xs) ys = metas-append xs ys
metas-append (set_inode ino path ∷ xs) ys = metas-append xs ys
metas-append (clear_longest ∷ xs) ys = metas-append xs ys
metas-append (write_longest path ∷ xs) ys = metas-append xs ys

-- Nothing is removed, and the sync does not end.
abbrev pub IsWalk : List Action → Type 0
IsWalk [] = Unit
IsWalk (do_rm path ∷ xs) = ⊥
IsWalk (do_end ∷ xs) = ⊥
IsWalk (_ ∷ xs) = IsWalk xs

note_depth-actions :
    (cur : ℕ) (path : Bytes) (w : Walk) → (note_depth cur path w).actions ≡ w.actions
unfolding note_depth
note_depth-actions cur path w = ground arith

leave_entry-metas :
    (t : FileType) (cur : ℕ) (path : Bytes) (st : Stat) (w inner : Walk) (here below : List DirStat)
    → metas w.actions ≡ here
    → metas inner.actions ≡ here ++ below
    → metas (leave_entry t cur path st w inner).actions
      ≡ here ++ elim t [ s_ifdir ↦ below | s_iflnk ↦ [] | s_ifreg ↦ [] | s_ifother ↦ [] ]
unfolding leave_entry act metas
leave_entry-metas s_iflnk cur path st w inner here below h k = h ∙ sym (append-nil here)
leave_entry-metas s_ifdir cur path st w inner here below h k =
    ap metas (note_depth-actions cur path (act (restore_time path st ∷ add_watch path ∷ []) inner))
    ∙ metas-append inner.actions _
    ∙ append-nil _
    ∙ k
leave_entry-metas s_ifreg cur path st w inner here below h k =
    ap metas (note_depth-actions cur path (act (restore_time path st ∷ []) w))
    ∙ metas-append w.actions _
    ∙ append-nil _
    ∙ h
    ∙ sym (append-nil here)
leave_entry-metas s_ifother cur path st w inner here below h k =
    ap metas (note_depth-actions cur path (act (restore_time path st ∷ []) w))
    ∙ metas-append w.actions _
    ∙ append-nil _
    ∙ h
    ∙ sym (append-nil here)

visit-metas :
    (upper name : Bytes) (st : Stat) (cur : ℕ) (w inner : Walk) (below : List DirStat)
    → metas inner.actions ≡ metas (meet (upper ++ name) st w).actions ++ below
    → metas (visit upper name st cur w inner).actions
      ≡ metas w.actions ++ seen name (upper ++ name) st below
unfolding visit seen meet act metas
visit-metas upper name st cur w inner below h = elim (Bool-cases (is_dot name)) [
  | inl d ↦ rw d (sym (append-nil (metas w.actions)))
  | inr d ↦
      let here = metas w.actions ++ record { dir = st; path = upper ++ name } ∷ [] in
      let m : metas (meet (upper ++ name) st w).actions ≡ here =
        metas-append w.actions (do_meta (upper ++ name) st ∷ []) in
      rw d (
        leave_entry-metas (file_type st) cur (upper ++ name) st (meet (upper ++ name) st w) inner
          here below m (h ∙ ap (λ r. r ++ below) m)
        ∙ append_assoc (metas w.actions) (record { dir = st; path = upper ++ name } ∷ []) _)
]

-- The walk tells the server of the entries that it visits.
pub traverse-metas :
    (upper : Bytes) (es : Entries) (cur : ℕ) (w : Walk)
    → metas (traverse upper es cur w).actions ≡ metas w.actions ++ visited upper es
unfolding traverse visited
traverse-metas upper over cur w = sym (append-nil _)
traverse-metas upper (entry name st below rest) cur w =
    let met = meet (upper ++ name) st w in
    let inner = traverse ((upper ++ name) ++ b'/' ∷ []) below (cur + 1) met in
    let v = visit upper name st cur w inner in
    let i = traverse-metas ((upper ++ name) ++ b'/' ∷ []) below (cur + 1) met in
    let under = visited ((upper ++ name) ++ b'/' ∷ []) below in
    traverse-metas upper rest cur v
    ∙ ap (λ r. r ++ visited upper rest) (visit-metas upper name st cur w inner under i)
    ∙ append_assoc (metas w.actions) (seen name (upper ++ name) st under) (visited upper rest)

pub append-IsWalk : (xs ys : List Action) → IsWalk xs → IsWalk ys → IsWalk (xs ++ ys)
append-IsWalk [] ys h k = k
append-IsWalk (do_meta path st ∷ xs) ys h k = append-IsWalk xs ys h k
append-IsWalk (do_rm path ∷ xs) ys h k = elim h [ ]
append-IsWalk (do_end ∷ xs) ys h k = elim h [ ]
append-IsWalk (restore_time path st ∷ xs) ys h k = append-IsWalk xs ys h k
append-IsWalk (add_watch path ∷ xs) ys h k = append-IsWalk xs ys h k
append-IsWalk (set_inode ino path ∷ xs) ys h k = append-IsWalk xs ys h k
append-IsWalk (clear_longest ∷ xs) ys h k = append-IsWalk xs ys h k
append-IsWalk (write_longest path ∷ xs) ys h k = append-IsWalk xs ys h k

leave_entry-IsWalk :
    (t : FileType) (cur : ℕ) (path : Bytes) (st : Stat) (w inner : Walk)
    → IsWalk w.actions
    → IsWalk inner.actions
    → IsWalk (leave_entry t cur path st w inner).actions
unfolding leave_entry act
leave_entry-IsWalk s_iflnk cur path st w inner h k = h
leave_entry-IsWalk s_ifdir cur path st w inner h k =
    subst IsWalk
      (sym (note_depth-actions cur path (act (restore_time path st ∷ add_watch path ∷ []) inner)))
      (append-IsWalk inner.actions (restore_time path st ∷ add_watch path ∷ []) k tt)
leave_entry-IsWalk s_ifreg cur path st w inner h k =
    subst IsWalk (sym (note_depth-actions cur path (act (restore_time path st ∷ []) w)))
      (append-IsWalk w.actions (restore_time path st ∷ []) h tt)
leave_entry-IsWalk s_ifother cur path st w inner h k =
    subst IsWalk (sym (note_depth-actions cur path (act (restore_time path st ∷ []) w)))
      (append-IsWalk w.actions (restore_time path st ∷ []) h tt)

pub traverse-IsWalk :
    (upper : Bytes) (es : Entries) (cur : ℕ) (w : Walk)
    → IsWalk w.actions
    → IsWalk (traverse upper es cur w).actions
unfolding traverse visit meet act
traverse-IsWalk upper over cur w h = h
traverse-IsWalk upper (entry name st below rest) cur w h =
    let met = meet (upper ++ name) st w in
    let m = append-IsWalk w.actions (do_meta (upper ++ name) st ∷ []) h tt in
    let inner = traverse ((upper ++ name) ++ b'/' ∷ []) below (cur + 1) met in
    let i = traverse-IsWalk ((upper ++ name) ++ b'/' ∷ []) below (cur + 1) met m in
    traverse-IsWalk upper rest cur (visit upper name st cur w inner)
      (elim (Bool-cases (is_dot name)) [
        | inl d ↦ rw d h
        | inr d ↦ rw d (leave_entry-IsWalk (file_type st) cur (upper ++ name) st met inner m i)
      ])
