-- ===== src/Box/Exchange/Pushed.antt =====
-- MP2: what a request leaves of the attributes that the server has collected.
use mathlib.Core.Option.{some-injective}
use sp.Base.{
  ℕ, ◌⊎◌, ◌≡◌, refl, sym, ap, subst, ◌∙◌, inl, inr, some, List, [], ◌∷◌, ◌++◌, Bytes, ltb,
  >>=-eq-some, Bool-cases, Option-cases, length, take, replicate, append-nil,
}
use sp.Box.Posix.{Posix}
use sp.Box.Protocol.{
  Status, Stat, FileType, s_ifdir, s_iflnk, s_ifreg, s_ifother, file_type, Meta, req_meta, req_file,
  req_hardlink, Response, Piece, request, send_bytes, recv_bytes,
}
use sp.Box.Server.{
  Server, Setup, dispatch, handle_sync_meta, handle_sync_file, handle_sync_hardlink, received_meta,
  push_meta, meta_case, sync_dir, sync_symlink, answer, md5_file,
}
use sp.Box.Client.{InodeMap, meta_request}
use sp.Box.Exchange.{served}
use sp.Box.Exchange.File.{recv_bytes-send_bytes}
use sp.Box.Exchange.Sent.{
  IsData, send_bytes-IsData, append-IsData, recv_bytes-IsData, served-dispatch,
}

pub List-cases :
    (xs : List Response) → (xs ≡ []) ⊎ ((x : Response) × (ys : List Response) × (xs ≡ x ∷ ys))
List-cases [] = inl refl
List-cases (x ∷ ys) = inr (x, ys, refl)

module _ (p : Posix) where
  meta_case-IsData :
      (t : FileType) (fs : p.Fs) (m : Meta) (path : Bytes) (ps : List Piece)
      (r : p.Fs × Status × List Piece)
      → IsData ps
      → meta_case p t fs m path ps ≡ some r
      → IsData r.2
  unfolding meta_case
  meta_case-IsData s_ifdir fs m path ps r d h =
      let (fs', e, k) = >>=-eq-some (sync_dir p fs m.stat path) _ h in
      subst (λ x. IsData x.2) (some-injective _ _ k) d
  meta_case-IsData s_iflnk fs m path ps r d h =
      let (got, e, k) = >>=-eq-some (recv_bytes m.stat.st_size ps) _ h in
      let (fs', e', k') = >>=-eq-some (sync_symlink p fs path got.0) _ k in
      subst (λ x. IsData x.2) (some-injective _ _ k') (recv_bytes-IsData m.stat.st_size ps got d e)
  meta_case-IsData s_ifreg fs m path ps r d h = subst (λ x. IsData x.2) (some-injective _ _ h) d
  meta_case-IsData s_ifother fs m path ps r d h = subst (λ x. IsData x.2) (some-injective _ _ h) d

  received_meta-result :
      (s : Server p.Fs) (m : Meta) (buf : Bytes) (ps : List Piece) (t : Server p.Fs × List Piece)
      → IsData ps
      → received_meta p s m buf ps ≡ some t
      → IsData t.1 × (t.0.path ≡ buf) × (t.0.dir_stat_stack ≡ s.dir_stat_stack)
  unfolding received_meta answer
  received_meta-result s m buf ps t d h =
      let (c, e, k) = >>=-eq-some (meta_case p (file_type m.stat) s.fs m buf ps) _ h in
      subst (λ x. IsData x.1 × (x.0.path ≡ buf) × (x.0.dir_stat_stack ≡ s.dir_stat_stack))
        (some-injective _ _ k) (meta_case-IsData (file_type m.stat) s.fs m buf ps c d e, refl, refl)

  handle_sync_meta-result :
      (s : Server p.Fs) (m : Meta) (ps : List Piece) (t : Server p.Fs × List Piece)
      → IsData ps
      → handle_sync_meta p s m ps ≡ some t
      → (got : Bytes × List Piece) × (recv_bytes m.pathlen ps ≡ some got)
        × (IsData t.1 × (t.0.path ≡ got.0) × (t.0.dir_stat_stack ≡ s.dir_stat_stack))
  unfolding handle_sync_meta
  handle_sync_meta-result s m ps t d h = elim (Bool-cases (ltb m.pathlen 400)) [
    | inr x ↦ absurd (cc (sym (rw x at h)))
    | inl x ↦
        let (got, e, k) = >>=-eq-some (recv_bytes m.pathlen ps) _ (rw x at h) in
        (got, e, received_meta-result s m got.0 got.1 t (recv_bytes-IsData m.pathlen ps got d e) k)
  ]

  -- A meta request pushes its attributes with the path that was received.
  dispatch-meta :
      (cfg : Setup) (fd : ℕ) (s : Server p.Fs) (m : Meta) (ps : List Piece)
      (r : Server p.Fs × List Piece)
      → IsData ps
      → dispatch p cfg fd s (req_meta m) ps ≡ some r
      → IsData r.1
        × ((got : Bytes × List Piece) × (recv_bytes m.pathlen ps ≡ some got)
            × (r.0.dir_stat_stack ≡ record { dir = m.stat; path = got.0 } ∷ s.dir_stat_stack))
  unfolding dispatch push_meta
  dispatch-meta cfg fd s m ps r d h =
      let (t, e, k) = >>=-eq-some (handle_sync_meta p s m ps) _ h in
      let (got, e', (i, a, b)) = handle_sync_meta-result s m ps t d e in
      subst
        (λ x.
          IsData x.1
          × ((got : Bytes × List Piece) × (recv_bytes m.pathlen ps ≡ some got)
              × (x.0.dir_stat_stack ≡ record { dir = m.stat; path = got.0 } ∷ s.dir_stat_stack)))
        (some-injective _ _ k) (i, (got, e', rw (a, b) refl))

  dispatch-file :
      (cfg : Setup) (fd : ℕ) (s : Server p.Fs) (n : ℕ) (ps : List Piece)
      (r : Server p.Fs × List Piece)
      → IsData ps
      → dispatch p cfg fd s (req_file n) ps ≡ some r
      → IsData r.1 × (r.0.dir_stat_stack ≡ s.dir_stat_stack)
  unfolding dispatch handle_sync_file answer
  dispatch-file cfg fd s n ps r d h =
      let (got, e, k) = >>=-eq-some (recv_bytes n ps) _ h in
      let i = recv_bytes-IsData n ps got d e in
      elim (Option-cases (p.fopen_w s.fs s.path)) [
        | inl o ↦
            subst (λ x. IsData x.1 × (x.0.dir_stat_stack ≡ s.dir_stat_stack))
              (some-injective _ _ (rw o at k)) (i, refl)
        | inr (fs, o) ↦
            subst (λ x. IsData x.1 × (x.0.dir_stat_stack ≡ s.dir_stat_stack))
              (some-injective _ _ (rw o at k)) (i, refl)
      ]

  dispatch-hardlink :
      (cfg : Setup) (fd : ℕ) (s : Server p.Fs) (n : ℕ) (ps : List Piece)
      (r : Server p.Fs × List Piece)
      → IsData ps
      → dispatch p cfg fd s (req_hardlink n) ps ≡ some r
      → IsData r.1 × (r.0.dir_stat_stack ≡ s.dir_stat_stack)
  unfolding dispatch handle_sync_hardlink answer
  dispatch-hardlink cfg fd s n ps r d h =
      let (got, e, k) = >>=-eq-some (recv_bytes n ps) _ h in
      let i = recv_bytes-IsData n ps got d e in
      elim (Option-cases (p.link s.fs got.0 s.path)) [
        | inl o ↦
            subst (λ x. IsData x.1 × (x.0.dir_stat_stack ≡ s.dir_stat_stack))
              (some-injective _ _ (rw o at k)) (i, refl)
        | inr (fs, o) ↦
            subst (λ x. IsData x.1 × (x.0.dir_stat_stack ≡ s.dir_stat_stack))
              (some-injective _ _ (rw o at k)) (i, refl)
      ]

  -- What the client sends for an entry.
  pub meta_request-shape :
      (t : FileType) (fs : p.Fs) (m : InodeMap) (path : Bytes) (st : Stat)
      (r : InodeMap × Bytes × List Piece)
      → meta_request p t fs m path st ≡ some r
      → (hash : Bytes) × (more : List Piece) × IsData more
        × (r.2
            ≡ request (req_meta (record { pathlen = length path; stat = st; hash = hash }))
                ∷ send_bytes path
              ++ more)
  unfolding meta_request
  meta_request-shape s_iflnk fs m path st r h =
      let (linkto, e, k) = >>=-eq-some (p.readlink fs path) _ h in
      (
        replicate 16 0,
        send_bytes (take st.st_size linkto),
        send_bytes-IsData (take st.st_size linkto),
        sym (ap (λ x. x.2) (some-injective _ _ k)),
      )
  meta_request-shape s_ifreg fs m path st r h =
      (md5_file p fs path, [], tt, sym (ap (λ x. x.2) (some-injective _ _ h)) ∙ sym (append-nil _))
  meta_request-shape s_ifdir fs m path st r h =
      (replicate 16 0, [], tt, sym (ap (λ x. x.2) (some-injective _ _ h)) ∙ sym (append-nil _))
  meta_request-shape s_ifother fs m path st r h =
      (replicate 16 0, [], tt, sym (ap (λ x. x.2) (some-injective _ _ h)) ∙ sym (append-nil _))

  -- The server's stack after what is sent for an entry.
  pub served-meta_stack :
      (cfg : Setup) (fd : ℕ) (s s' : Server p.Fs) (path hash : Bytes) (st : Stat)
      (more : List Piece)
      → IsData more
      → served p cfg fd s (
          request (req_meta (record { pathlen = length path; stat = st; hash = hash }))
            ∷ send_bytes path
          ++ more)
        ≡ some s'
      → s'.dir_stat_stack ≡ record { dir = st; path = path } ∷ s.dir_stat_stack
  served-meta_stack cfg fd s s' path hash st more d h =
      let m : Meta = record { pathlen = length path; stat = st; hash = hash } in
      let ps = send_bytes path ++ more in
      let only = append-IsData (send_bytes path) more (send_bytes-IsData path) d in
      let t : Server p.Fs = record s { sent = [] } in
      let (rest, e) =
        served-dispatch p cfg fd s s' (req_meta m) ps
          (λ x k. (dispatch-meta cfg fd t m ps x only k).0) h in
      let (i, (got, f, g)) = dispatch-meta cfg fd t m ps (s', rest) only e in
      let same : path ≡ got.0 =
        ap (λ x. x.0) (some-injective _ _ (sym (recv_bytes-send_bytes path more) ∙ f)) in
      g ∙ ap (λ q. record { dir = st; path = q } ∷ s.dir_stat_stack) (sym same)

  pub served-file_stack :
      (cfg : Setup) (fd : ℕ) (s s' : Server p.Fs) (bytes : Bytes)
      → served p cfg fd s (request (req_file (length bytes)) ∷ send_bytes bytes) ≡ some s'
      → s'.dir_stat_stack ≡ s.dir_stat_stack
  served-file_stack cfg fd s s' bytes h =
      let t : Server p.Fs = record s { sent = [] } in
      let d = send_bytes-IsData bytes in
      let (rest, e) =
        served-dispatch p cfg fd s s' (req_file (length bytes)) (send_bytes bytes)
          (λ x k. (dispatch-file cfg fd t (length bytes) (send_bytes bytes) x d k).0) h in
      (dispatch-file cfg fd t (length bytes) (send_bytes bytes) (s', rest) d e).1

  pub served-hardlink_stack :
      (cfg : Setup) (fd : ℕ) (s s' : Server p.Fs) (bytes : Bytes)
      → served p cfg fd s (request (req_hardlink (length bytes)) ∷ send_bytes bytes) ≡ some s'
      → s'.dir_stat_stack ≡ s.dir_stat_stack
  served-hardlink_stack cfg fd s s' bytes h =
      let t : Server p.Fs = record s { sent = [] } in
      let d = send_bytes-IsData bytes in
      let (rest, e) =
        served-dispatch p cfg fd s s' (req_hardlink (length bytes)) (send_bytes bytes)
          (λ x k. (dispatch-hardlink cfg fd t (length bytes) (send_bytes bytes) x d k).0) h in
      (dispatch-hardlink cfg fd t (length bytes) (send_bytes bytes) (s', rest) d e).1
