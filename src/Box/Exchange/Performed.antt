-- ===== src/Box/Exchange/Performed.antt =====
-- MP2: what a list of actions leaves of the attributes that the server has collected.
use sp.Base.{
  ℕ, ◌⊎◌, ◌≡◌, refl, sym, ap, subst, ◌∙◌, inl, inr, Option, none, some, List, [], ◌∷◌, ◌++◌,
  append-nil, append_assoc, Bytes, codes, Option-cases, reverse,
}
use sp.Box.Posix.{Posix}
use sp.Box.Server.{Server, Setup, DirStat}
use sp.Box.Client.Traverse.{
  Action, do_meta, do_rm, do_end, restore_time, add_watch, set_inode, clear_longest, write_longest,
}
use sp.Box.Exchange.{Outcome, stopped, waits, finished, sync_meta}
use sp.Box.Exchange.Run.{Client, Ran, exited, blocked, ran, as_ran, on_fs, perform_one, perform}
use sp.Box.Exchange.Stack.{HasStack, sync_meta-HasStack}
use sp.Box.Exchange.Walked.{metas, metas-append, IsWalk}
use mathlib.Core.List.{reverse-cons}

module _ (p : Posix) (cfg : Setup) (fd : ℕ) (wd_of : Bytes → ℕ) where
  Ran-cases :
      (r : Ran p)
      → (r ≡ exited) ⊎ ((r ≡ blocked) ⊎ ((c : Client p) × (s : Server p.Fs) × (r ≡ ran c s)))
  Ran-cases exited = inl refl
  Ran-cases blocked = inr (inl refl)
  Ran-cases (ran c s) = inr (inr (c, s, refl))

  -- The server after a run that goes on.
  abbrev pub ran_server : Server p.Fs → Ran p → Server p.Fs
  ran_server d exited = d
  ran_server d blocked = d
  ran_server d (ran c s) = s

  -- One action, and then the others.
  perform-step :
      (c c' : Client p) (s s' : Server p.Fs) (a : Action) (xs : List Action)
      → perform p cfg fd wd_of c s (a ∷ xs) ≡ ran c' s'
      → (c1 : Client p) × (s1 : Server p.Fs) × (perform_one p cfg fd wd_of c s a ≡ ran c1 s1)
        × (perform p cfg fd wd_of c1 s1 xs ≡ ran c' s')
  unfolding perform
  perform-step c c' s s' a xs h = elim (Ran-cases (perform_one p cfg fd wd_of c s a)) [
    | inl e ↦ absurd (cc (sym (rw (perform, e) at h)))
    | inr (inl e) ↦ absurd (cc (sym (rw (perform, e) at h)))
    | inr (inr (c1, s1, e)) ↦ (c1, s1, e, rw (perform, e) at h)
  ]

  pub perform-append :
      (c c' : Client p) (s s' : Server p.Fs) (xs ys : List Action)
      → perform p cfg fd wd_of c s (xs ++ ys) ≡ ran c' s'
      → (c1 : Client p) × (s1 : Server p.Fs) × (perform p cfg fd wd_of c s xs ≡ ran c1 s1)
        × (perform p cfg fd wd_of c1 s1 ys ≡ ran c' s')
  unfolding perform
  perform-append c c' s s' [] ys h = (c, s, refl, h)
  perform-append c c' s s' (a ∷ xs) ys h =
      let (c1, s1, e, k) = perform-step c c' s s' a (xs ++ ys) h in
      let (c2, s2, f, g) = perform-append c1 c' s1 s' xs ys k in (c2, s2, rw (perform, e) f, g)

  ran-stack :
      (c c' : Client p) (s s' : Server p.Fs) (stack : List DirStat)
      → s.dir_stat_stack ≡ stack
      → ran c s ≡ ran c' s'
      → s'.dir_stat_stack ≡ stack
  ran-stack c c' s s' stack k e = subst (λ x. x.dir_stat_stack ≡ stack) (ap (ran_server s) e) k

  as_ran-stack :
      (c c' : Client p) (s' : Server p.Fs) (o : Outcome p) (stack : List DirStat)
      → HasStack p o stack
      → as_ran p c o ≡ ran c' s'
      → s'.dir_stat_stack ≡ stack
  unfolding as_ran
  as_ran-stack c c' s' stopped stack k e = absurd (cc)
  as_ran-stack c c' s' (waits t) stack k e = absurd (cc)
  as_ran-stack c c' s' (finished m t) stack k e =
      ran-stack (record c { inode_map = m }) c' t s' stack k e

  on_fs-stack :
      (c c' : Client p) (s s' : Server p.Fs) (o : Option p.Fs)
      → on_fs p c s o ≡ ran c' s'
      → s'.dir_stat_stack ≡ s.dir_stat_stack
  unfolding on_fs
  on_fs-stack c c' s s' none e = absurd (cc)
  on_fs-stack c c' s s' (some fs) e =
      ran-stack (record c { fs = fs }) c' s s' s.dir_stat_stack refl e

  -- An action of a walk changes the server's stack by what it tells the server.
  perform_one-stack :
      (c c' : Client p) (s s' : Server p.Fs) (a : Action)
      → IsWalk (a ∷ [])
      → perform_one p cfg fd wd_of c s a ≡ ran c' s'
      → s'.dir_stat_stack ≡ metas (a ∷ []) ++ s.dir_stat_stack
  unfolding perform_one metas
  perform_one-stack c c' s s' (do_meta path st) w h =
      as_ran-stack c c' s' (sync_meta p cfg fd c.fs c.inode_map path st s) _
        (sync_meta-HasStack p cfg fd c.fs c.inode_map path st s) h
  perform_one-stack c c' s s' (do_rm path) w h = elim w [ ]
  perform_one-stack c c' s s' do_end w h = elim w [ ]
  perform_one-stack c c' s s' (restore_time path st) w h = on_fs-stack c c' s s' _ h
  perform_one-stack c c' s s' (add_watch path) w h = ran-stack _ c' s s' s.dir_stat_stack refl h
  perform_one-stack c c' s s' (set_inode ino path) w h = ran-stack _ c' s s' s.dir_stat_stack refl h
  perform_one-stack c c' s s' clear_longest w h =
      elim (Option-cases (p.remove c.fs (codes "longestPath.txt"))) [
        | inl e ↦ ran-stack c c' s s' s.dir_stat_stack refl (rw (perform_one, e) at h)
        | inr (fs, e) ↦
            ran-stack (record c { fs = fs }) c' s s' s.dir_stat_stack refl
              (rw (perform_one, e) at h)
      ]
  perform_one-stack c c' s s' (write_longest path) w h =
      elim (Option-cases (p.fopen_w c.fs (codes "longestPath.txt"))) [
        | inl e ↦ absurd (cc (sym (rw (perform_one, e) at h)))
        | inr (fs, e) ↦ ran-stack _ c' s s' s.dir_stat_stack refl (rw (perform_one, e) at h)
      ]

  head-IsWalk : (a : Action) (xs : List Action) → IsWalk (a ∷ xs) → IsWalk (a ∷ []) × IsWalk xs
  head-IsWalk (do_meta path st) xs w = (tt, w)
  head-IsWalk (do_rm path) xs w = elim w [ ]
  head-IsWalk do_end xs w = elim w [ ]
  head-IsWalk (restore_time path st) xs w = (tt, w)
  head-IsWalk (add_watch path) xs w = (tt, w)
  head-IsWalk (set_inode ino path) xs w = (tt, w)
  head-IsWalk clear_longest xs w = (tt, w)
  head-IsWalk (write_longest path) xs w = (tt, w)

  one-metas : (a : Action) → (metas (a ∷ []) ≡ []) ⊎ ((d : DirStat) × (metas (a ∷ []) ≡ d ∷ []))
  unfolding metas
  one-metas (do_meta path st) = inr (record { dir = st; path = path }, refl)
  one-metas (do_rm path) = inl refl
  one-metas do_end = inl refl
  one-metas (restore_time path st) = inl refl
  one-metas (add_watch path) = inl refl
  one-metas (set_inode ino path) = inl refl
  one-metas clear_longest = inl refl
  one-metas (write_longest path) = inl refl

  reversed :
      (a : Action) (xs : List Action)
      → reverse (metas xs) ++ metas (a ∷ []) ≡ reverse (metas (a ∷ xs))
  reversed a xs = elim (one-metas a) [
    | inl e ↦ rw (metas-append (a ∷ []) xs, e) (append-nil (reverse (metas xs)))
    | inr (d, e) ↦ rw (metas-append (a ∷ []) xs, e) (sym (reverse-cons d (metas xs)))
  ]

  pub perform-stack :
      (c c' : Client p) (s s' : Server p.Fs) (xs : List Action)
      → IsWalk xs
      → perform p cfg fd wd_of c s xs ≡ ran c' s'
      → s'.dir_stat_stack ≡ reverse (metas xs) ++ s.dir_stat_stack
  unfolding perform metas
  perform-stack c c' s s' [] w h = ran-stack c c' s s' s.dir_stat_stack refl h
  perform-stack c c' s s' (a ∷ xs) w h =
      let (c1, s1, e, k) = perform-step c c' s s' a xs h in
      let (w1, w2) = head-IsWalk a xs w in
      let one = perform_one-stack c c1 s s1 a w1 e in
      perform-stack c1 c' s1 s' xs w2 k
      ∙ ap (λ r. reverse (metas xs) ++ r) one
      ∙ sym (append_assoc (reverse (metas xs)) (metas (a ∷ [])) s.dir_stat_stack)
      ∙ ap (λ r. r ++ s.dir_stat_stack) (reversed a xs)
