-- ===== src/Box/Daemon/Stored.antt =====
-- MP5: what the server has of a file once it has handled a meta request for it.
use sp.Base.{
  ℕ, ◌≡◌, ◌≢◌, ◌⊎◌, refl, sym, ap, ◌∙◌, inl, inr, Bool, true, false, ◌&&◌, some, List, [], ◌∷◌,
  ◌++◌, arith, Bytes, bytes_eq, bytes_eq_sound, ◌==◌, Bool-cases, Option-cases, length, take-length,
  replicate,
}
use sp.Box.Protocol.{op_sync_meta, op_sync_file, Stat, status_ok, status_more, Response}
use sp.Box.Daemon.{
  is_dir as is_directory, Host, IsHost, MetaRequest, FileData, Connection, sync_at, compare_meta,
  update_stat, digest_at, receive_data, receive_file, res,
}
use sp.Box.Daemon.Chunks.{WritesAll, receive_file_lem}

-- The file can be read with this mode if it could be before, and the times are not its content.
pub record KeepsBytes (h : Host) (path : Bytes) (mode : ℕ) : Type 0 where
  pub read-chmod : (fs : h.Fs) → h.read (h.chmod fs path mode) path ≡ h.read fs path
  pub read-utime : (fs : h.Fs) (a t : ℕ) → h.read (h.utime fs path a t) path ≡ h.read fs path

module _ (h : Host) (laws : IsHost h) (fs : h.Fs) (path b : Bytes) where
  update_stat-read :
      (st wanted : Stat)
      → KeepsBytes h path wanted.st_mode
      → h.read (update_stat h fs path st wanted) path ≡ h.read fs path
  unfolding update_stat
  update_stat-read st wanted keeps = elim (Bool-cases (st.st_mode == wanted.st_mode)) [
    | inl x ↦ elim (Bool-cases ((st.st_atim == wanted.st_atim) && (st.st_mtim == wanted.st_mtim))) [
      | inl y ↦ rw (x, y) refl
      | inr y ↦ rw (x, y) (keeps.read-utime fs wanted.st_atim wanted.st_mtim)
    ]
    | inr x ↦ elim (Bool-cases ((st.st_atim == wanted.st_atim) && (st.st_mtim == wanted.st_mtim))) [
      | inl y ↦ rw (x, y) (keeps.read-chmod fs)
      | inr y ↦
          rw (x, y)
            (keeps.read-utime (h.chmod fs path wanted.st_mode) wanted.st_atim wanted.st_mtim
              ∙ keeps.read-chmod fs)
    ]
  ]

  -- A digest that is that of the content belongs to it.
  same_digest :
      (st : Stat) (hash : Bytes)
      → hash ≢ replicate 16 0
      → ((x : Bytes) → h.read fs path ≡ some x → h.md5 x ≡ hash → x ≡ b)
      → bytes_eq (digest_at h fs path st) hash ≡ true
      → h.read fs path ≡ some b
  unfolding digest_at
  same_digest st hash z k e = elim (Option-cases (h.read fs path)) [
    | inl x ↦
        let y : replicate 16 0 ≡ hash = bytes_eq_sound _ _ (rw (digest_at, x) at e) in
        absurd (z (sym y))
    | inr (a, x) ↦ elim (Bool-cases (is_directory h st)) [
      | inl y ↦
          let w : replicate 16 0 ≡ hash = bytes_eq_sound _ _ (rw (digest_at, x, y) at e) in
          absurd (z (sym w))
      | inr y ↦
          let w : h.md5 a ≡ hash = bytes_eq_sound _ _ (rw (digest_at, x, y) at e) in
          x ∙ ap some (k a x w)
    ]
  ]

module _ (h : Host) (laws : IsHost h) (path b : Bytes) where
  -- Either the data is asked for, or the content is there already.
  compared :
      (fs : h.Fs) (q : MetaRequest)
      → KeepsBytes h path q.stat.st_mode
      → q.hash ≢ replicate 16 0
      → ((x : Bytes) → h.read fs path ≡ some x → h.md5 x ≡ q.hash → x ≡ b)
      → ((compare_meta h fs path q).1 ≡ true)
        ⊎ (((compare_meta h fs path q).1 ≡ false)
            × (h.read (compare_meta h fs path q).0 path ≡ some b))
  unfolding compare_meta
  compared fs q keeps z k = elim (Option-cases (h.lstat fs path)) [
    | inl x ↦ inl (rw (compare_meta, x) refl)
    | inr (st, x) ↦
        let fs' = update_stat h fs path st q.stat in
        let r = update_stat-read h laws fs path b st q.stat keeps in
        elim (Bool-cases (bytes_eq (digest_at h fs' path st) q.hash)) [
          | inr y ↦ inl (rw (compare_meta, x, y) refl)
          | inl y ↦ inr (
            rw (compare_meta, x, y) refl,
            rw (compare_meta, x)
                (same_digest h laws fs' path b st q.hash z (λ a e. k a (sym r ∙ e)) y),
          )
        ]
  ]

  received :
      (fs : h.Fs) (q : MetaRequest) (change : Bool)
      → KeepsBytes h path q.stat.st_mode
      → WritesAll h path
      → is_directory h q.stat ≡ false
      → ((fs : h.Fs) → (fs' : h.Fs) × (h.open_w fs path ≡ some fs'))
      → h.read (receive_data h fs path q (record { datalen = length b; bytes = b }) change) path
        ≡ some b
  unfolding receive_data
  received fs q change keeps all n o =
      let d : FileData = record { datalen = length b; bytes = b } in
      let (fs', e) = o fs in
      let r =
        (receive_file_lem h laws fs fs' path d all e (omega arith)).0
        ∙ ap some (take-length (length b) b (omega arith)) in
      by_change change r
    where
      by_change :
          (change : Bool)
          → h.read (receive_file h fs path (record { datalen = length b; bytes = b })).0 path
            ≡ some b
          → h.read (receive_data h fs path q (record { datalen = length b; bytes = b }) change) path
            ≡ some b
      by_change true r =
          rw (receive_data, n)
            (keeps.read-utime _ q.stat.st_atim q.stat.st_mtim ∙ keeps.read-chmod _ ∙ r)
      by_change false r = rw (receive_data, n) r

  -- The responses of the server, and the content that it then has.
  pub synced_at :
      (fd : ℕ) (conn : Connection h.Fs) (home : Bytes) (q : MetaRequest)
      → KeepsBytes h path q.stat.st_mode
      → WritesAll h path
      → home ++ q.path ≡ path
      → q.hash ≢ replicate 16 0
      → is_directory h q.stat ≡ false
      → ((fs : h.Fs) → (fs' : h.Fs) × (h.open_w fs path ≡ some fs'))
      → ((x : Bytes) → h.read conn.fs path ≡ some x → h.md5 x ≡ q.hash → x ≡ b)
      → (c : Connection h.Fs) × (rs : List Response) × (sync_at h fd conn home q
            (record { datalen = length b; bytes = b })
          ≡ c)
        × (h.read c.fs path ≡ some b)
        × (c.sent ≡ conn.sent ++ rs)
        × ((rs ≡ res h op_sync_meta status_ok fd ∷ [])
            ⊎ (rs ≡ res h op_sync_meta status_more fd ∷ res h op_sync_file status_ok fd ∷ []))
  unfolding sync_at
  synced_at fd conn home q keeps all p z n o k = elim (compared conn.fs q keeps z k) [
    | inl y ↦ (
      sync_at h fd conn home q (record { datalen = length b; bytes = b }),
      res h op_sync_meta status_more fd ∷ res h op_sync_file status_ok fd ∷ [],
      refl,
      rw (sync_at, p, y)
          (received (compare_meta h conn.fs path q).0 q (compare_meta h conn.fs path q).2 keeps all
            n o),
      rw (sync_at, p, y) refl,
      inr refl,
    )
    | inr (y, w) ↦ (
      sync_at h fd conn home q (record { datalen = length b; bytes = b }),
      res h op_sync_meta status_ok fd ∷ [],
      refl,
      rw (sync_at, p, y) w,
      rw (sync_at, p, y) refl,
      inl refl,
    )
  ]
