-- ===== src/Box/Exchange/Stack.antt =====
-- MP2: the attributes that the server has collected when the client's walk is over.
use sp.Base.{ℕ, ◌≡◌, refl, subst, inl, inr, Option, none, some, List, ◌∷◌, Bytes, Option-cases}
use sp.Box.Posix.{Posix}
use sp.Box.Protocol.{Stat, file_type}
use sp.Box.Server.{Server, Setup, DirStat}
use sp.Box.Client.{
  InodeMap, meta_request, meta_next, Next, done, please_file, please_hardlink, sync_file,
  sync_hardlink,
}
use sp.Box.Exchange.{
  Outcome, stopped, waits, finished, served, responded, follow_up, after_meta, sync_meta,
}
use sp.Box.Exchange.Pushed.{
  served-meta_stack, served-file_stack, served-hardlink_stack, meta_request-shape, List-cases,
}

module _ (p : Posix) where
  -- When the call returns, the server's stack is this.
  abbrev pub HasStack : Outcome p → List DirStat → Type 0
  HasStack stopped stack = Unit
  HasStack (waits s) stack = Unit
  HasStack (finished m s) stack = s.dir_stat_stack ≡ stack

  responded-HasStack :
      (m : InodeMap) (o : Option (Server p.Fs)) (stack : List DirStat)
      → ((s : Server p.Fs) → o ≡ some s → s.dir_stat_stack ≡ stack)
      → HasStack (responded p m o) stack
  unfolding responded
  responded-HasStack m none stack h = tt
  responded-HasStack m (some s) stack h = elim (List-cases s.sent) [
    | inl e ↦ rw (responded, e) tt
    | inr (r, rs, e) ↦ rw (responded, e) (h s refl)
  ]

  follow_up-HasStack :
      (cfg : Setup) (fd : ℕ) (cfs : p.Fs) (m : InodeMap) (path : Bytes) (s : Server p.Fs)
      (next : Next)
      → HasStack (follow_up p cfg fd cfs m path s next) s.dir_stat_stack
  unfolding follow_up sync_hardlink sync_file
  follow_up-HasStack cfg fd cfs m path s done = refl
  follow_up-HasStack cfg fd cfs m path s (please_hardlink existed) =
      responded-HasStack m _ s.dir_stat_stack (λ t e. served-hardlink_stack p cfg fd s t existed e)
  follow_up-HasStack cfg fd cfs m path s please_file = elim (Option-cases (p.read cfs path)) [
    | inl e ↦ rw (follow_up, sync_file, e) tt
    | inr (bytes, e) ↦
        rw (follow_up, sync_file, e)
          (responded-HasStack m _ s.dir_stat_stack (λ t k. served-file_stack p cfg fd s t bytes k))
  ]

  after_meta-HasStack :
      (cfg : Setup) (fd : ℕ) (cfs : p.Fs) (m : InodeMap) (existed path : Bytes)
      (o : Option (Server p.Fs)) (stack : List DirStat)
      → ((s : Server p.Fs) → o ≡ some s → s.dir_stat_stack ≡ stack)
      → HasStack (after_meta p cfg fd cfs m existed path o) stack
  unfolding after_meta
  after_meta-HasStack cfg fd cfs m existed path none stack h = tt
  after_meta-HasStack cfg fd cfs m existed path (some s) stack h = elim (List-cases s.sent) [
    | inl e ↦ rw (after_meta, e) tt
    | inr (r, rs, e) ↦
        rw (after_meta, e)
          (subst (λ q. HasStack (follow_up p cfg fd cfs m path s (meta_next r existed)) q)
            (h s refl) (follow_up-HasStack cfg fd cfs m path s (meta_next r existed)))
  ]

  -- When the client's `sync_meta` returns, the server has pushed the attributes with the path, and
  -- nothing else.
  pub sync_meta-HasStack :
      (cfg : Setup) (fd : ℕ) (cfs : p.Fs) (m : InodeMap) (path : Bytes) (st : Stat)
      (s : Server p.Fs)
      → HasStack
          (sync_meta p cfg fd cfs m path st s)
          (record { dir = st; path = path } ∷ s.dir_stat_stack)
  unfolding sync_meta
  sync_meta-HasStack cfg fd cfs m path st s =
      elim (Option-cases (meta_request p (file_type st) cfs m path st)) [
        | inl e ↦ rw (sync_meta, e) tt
        | inr ((m', existed, ps), e) ↦
            let (hash, more, d, f) =
              meta_request-shape p (file_type st) cfs m path st (m', existed, ps) e in
            rw (sync_meta, e)
              (after_meta-HasStack cfg fd cfs m' existed path (served p cfg fd s ps) _ (λ t k.
                served-meta_stack p cfg fd s t path hash st more d
                  (subst (λ q. served p cfg fd s q ≡ some t) f k)))
      ]
