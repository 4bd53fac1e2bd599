-- ===== src/Box/Server/Rounds.antt =====
-- MP2/src/csiebox_server.cpp: the loop of `handle_request` as a relation without fuel.
use mathlib.Core.Option.{some-injective}
use sp.Base.{
  ℕ, zero, suc, ◌≤◌, ◌<◌, ◌≡◌, ◌↔◌, refl, sym, subst, inl, inr, some, List, [], ◌∷◌, arith, Bytes,
  ltb, Bool-cases, length, >>=-eq-some,
}
use sp.Box.Posix.{Posix}
use sp.Box.Protocol.{
  FileType, s_ifdir, s_iflnk, s_ifreg, s_ifother, file_type, Meta, Request, req_login, req_meta,
  req_file, req_hardlink, req_rm, req_end, unknown, Piece, request, data_of, recv_bytes, Status,
}
use sp.Box.Server.{
  Server, Setup, serve, dispatch, handle_sync_meta, handle_sync_file, handle_sync_hardlink,
  handle_sync_rm, received_meta, push_meta, meta_case, sync_dir, sync_symlink, handle_sync_end,
}

recv_bytes-le :
    (n : ℕ) (ps : List Piece) (r : Bytes × List Piece)
    → recv_bytes n ps ≡ some r
    → length r.1 ≤ length ps
unfolding recv_bytes
recv_bytes-le zero ps r h = ground arith
recv_bytes-le (suc n) (data_of bs ∷ ps) r h = ground arith
recv_bytes-le (suc n) (request q ∷ ps) r h = absurd (cc)
recv_bytes-le (suc n) [] r h = absurd (cc)

module _ (p : Posix) where
  -- The loop from a state, with what is still to be received, to the state at the end of the
  -- connection.
  pub data Serves (cfg : Setup) (fd : ℕ) : Server p.Fs → List Piece → Server p.Fs → Type 0 where
    finish : (s : Server p.Fs) → Serves cfg fd s [] s
    round :
        (s s' s'' : Server p.Fs) (r : Request) (ps ps' : List Piece)
        → dispatch p cfg fd s r ps ≡ some (s', ps')
        → Serves cfg fd s' ps' s''
        → Serves cfg fd s (request r ∷ ps) s''

  meta_case-le :
      (t : FileType) (fs : p.Fs) (m : Meta) (path : Bytes) (ps : List Piece)
      (r : p.Fs × Status × List Piece)
      → meta_case p t fs m path ps ≡ some r
      → length r.2 ≤ length ps
  unfolding meta_case
  meta_case-le s_ifdir fs m path ps r h =
      let (fs', e, k) = >>=-eq-some (sync_dir p fs m.stat path) _ h in ground arith
  meta_case-le s_iflnk fs m path ps r h =
      let (got, e, k) = >>=-eq-some (recv_bytes m.stat.st_size ps) _ h in
      let (fs', e', k') = >>=-eq-some (sync_symlink p fs path got.0) _ k in
      let l = recv_bytes-le m.stat.st_size ps got e in ground arith
  meta_case-le s_ifreg fs m path ps r h = ground arith
  meta_case-le s_ifother fs m path ps r h = ground arith

  handle_sync_meta-le :
      (s : Server p.Fs) (m : Meta) (ps : List Piece) (r : Server p.Fs × List Piece)
      → handle_sync_meta p s m ps ≡ some r
      → length r.1 ≤ length ps
  unfolding handle_sync_meta received_meta
  handle_sync_meta-le s m ps r h = elim (Bool-cases (ltb m.pathlen 400)) [
    | inr x ↦ absurd (cc (sym (rw x at h)))
    | inl x ↦
        let (got, e, k) = >>=-eq-some (recv_bytes m.pathlen ps) _ (rw x at h) in
        let (t, e', k') = >>=-eq-some (meta_case p (file_type m.stat) s.fs m got.0 got.1) _ k in
        let l = recv_bytes-le m.pathlen ps got e in
        let l' = meta_case-le (file_type m.stat) s.fs m got.0 got.1 t e' in ground arith
  ]

  handle_sync_file-le :
      (s : Server p.Fs) (n : ℕ) (ps : List Piece) (r : Server p.Fs × List Piece)
      → handle_sync_file p s n ps ≡ some r
      → length r.1 ≤ length ps
  unfolding handle_sync_file
  handle_sync_file-le s n ps r h =
      let (got, e, k) = >>=-eq-some (recv_bytes n ps) _ h in
      let l = recv_bytes-le n ps got e in ground arith

  handle_sync_hardlink-le :
      (s : Server p.Fs) (n : ℕ) (ps : List Piece) (r : Server p.Fs × List Piece)
      → handle_sync_hardlink p s n ps ≡ some r
      → length r.1 ≤ length ps
  unfolding handle_sync_hardlink
  handle_sync_hardlink-le s n ps r h =
      let (got, e, k) = >>=-eq-some (recv_bytes n ps) _ h in
      let l = recv_bytes-le n ps got e in ground arith

  handle_sync_rm-le :
      (s : Server p.Fs) (n : ℕ) (ps : List Piece) (r : Server p.Fs × List Piece)
      → handle_sync_rm p s n ps ≡ some r
      → length r.1 ≤ length ps
  unfolding handle_sync_rm
  handle_sync_rm-le s n ps r h =
      let (got, e, k) = >>=-eq-some (recv_bytes n ps) _ h in
      let l = recv_bytes-le n ps got e in ground arith

  dispatch-le :
      (cfg : Setup) (fd : ℕ) (s : Server p.Fs) (q : Request) (ps : List Piece)
      (r : Server p.Fs × List Piece)
      → dispatch p cfg fd s q ps ≡ some r
      → length r.1 ≤ length ps
  unfolding dispatch push_meta
  dispatch-le cfg fd s (req_login user passwd) ps r h = ground arith
  dispatch-le cfg fd s (req_meta m) ps r h =
      let (t, e, k) = >>=-eq-some (handle_sync_meta p s m ps) _ h in
      let l = handle_sync_meta-le s m ps t e in ground arith
  dispatch-le cfg fd s (req_file n) ps r h = handle_sync_file-le s n ps r h
  dispatch-le cfg fd s (req_hardlink n) ps r h = handle_sync_hardlink-le s n ps r h
  dispatch-le cfg fd s (req_rm n) ps r h = handle_sync_rm-le s n ps r h
  dispatch-le cfg fd s req_end ps r h =
      let (t, e, k) = >>=-eq-some (handle_sync_end p s) _ h in ground arith
  dispatch-le cfg fd s unknown ps r h = ground arith

  pub serve-Serves :
      (cfg : Setup) (fd fuel : ℕ) (s s' : Server p.Fs) (ps : List Piece)
      → serve p cfg fd fuel s ps ≡ some s'
      → Serves cfg fd s ps s'
  unfolding serve
  serve-Serves cfg fd zero s s' ps h = absurd (cc)
  serve-Serves cfg fd (suc fuel) s s' [] h =
      subst (Serves cfg fd s []) (some-injective _ _ h) (finish s)
  serve-Serves cfg fd (suc fuel) s s' (data_of bs ∷ ps) h = absurd (cc)
  serve-Serves cfg fd (suc fuel) s s' (request r ∷ ps) h =
      let (t, e, k) = >>=-eq-some (dispatch p cfg fd s r ps) _ h in
      round s t.0 s' r ps t.1 e (serve-Serves cfg fd fuel t.0 s' t.1 k)

  serve-enough :
      (cfg : Setup) (fd fuel : ℕ) (s s' : Server p.Fs) (ps : List Piece)
      → Serves cfg fd s ps s'
      → length ps < fuel
      → serve p cfg fd fuel s ps ≡ some s'
  unfolding serve
  serve-enough cfg fd zero s s' ps h n = absurd (omega arith)
  serve-enough cfg fd (suc fuel) s _ [] (finish _) n = refl
  serve-enough cfg fd (suc fuel) s s'' (data_of _ ∷ ps) h n = elim h [ ]
  serve-enough cfg fd (suc fuel) s s'' (request r ∷ ps) (round _ s' _ _ _ ps' e h) n =
      let l = dispatch-le cfg fd s r ps (s', ps') e in
      rw (serve, e) (serve-enough cfg fd fuel s' s'' ps' h (omega arith))

  -- With one round for each piece and one more, the loop of `handle_request` ends in a state exactly
  -- when the loop without a bound on its rounds does.
  pub serve_iff :
      (cfg : Setup) (fd : ℕ) (s s' : Server p.Fs) (ps : List Piece)
      → (serve p cfg fd (suc (length ps)) s ps ≡ some s') ↔ Serves cfg fd s ps s'
  serve_iff cfg fd s s' ps = (
    serve-Serves cfg fd (suc (length ps)) s s' ps,
    (λ h. serve-enough cfg fd (suc (length ps)) s s' ps h (omega arith)),
  )
