-- ===== src/Box/Exchange/File.antt =====
-- MP2: what the server holds after the client's `sync_meta` of a regular file.
use sp.Base.{
  ℕ, ◌⊎◌, ◌<◌, ◌≡◌, refl, ap, subst, ◌∙◌, inl, inr, true, false, none, some, List, [], ◌∷◌, ◌++◌,
  append-nil, arith, Bytes, bytes_eq, bytes_eq_sound, ltb, leb, Bool-cases, Option-cases, length,
  take,
}
use sp.Box.Posix.{Posix, IsPosix}
use sp.Box.Protocol.{
  op_sync_meta, op_sync_file, Status, status_ok, status_more, Stat, s_ifreg, file_type, Request,
  req_meta, req_file, Piece, request, send_bytes, recv_bytes,
}
use sp.Box.Server.{
  Server, Setup, serve, dispatch, handle_sync_meta, handle_sync_file, received_meta, push_meta,
  meta_case, compare_reg, md5_file, answer, res,
}
use sp.Box.Client.{InodeMap, note_inode, meta_request, meta_next, sync_file}
use sp.Box.Exchange.{waits, finished, served, responded, follow_up, after_meta, sync_meta}

-- What was sent is received.
pub recv_bytes-send_bytes :
    (bs : Bytes) (ps : List Piece) → recv_bytes (length bs) (send_bytes bs ++ ps) ≡ some (bs, ps)
unfolding recv_bytes send_bytes
recv_bytes-send_bytes [] ps = refl
recv_bytes-send_bytes (b ∷ bs) ps = ground arith

pub recv_bytes-sent : (bs : Bytes) → recv_bytes (length bs) (send_bytes bs) ≡ some (bs, [])
recv_bytes-sent bs =
    subst (λ ps. recv_bytes (length bs) ps ≡ some (bs, [])) (append-nil (send_bytes bs))
      (recv_bytes-send_bytes bs [])

module _ (p : Posix) where
  -- One request is handled in one round.
  pub served-one :
      (cfg : Setup) (fd : ℕ) (s s' : Server p.Fs) (r : Request) (ps : List Piece)
      → dispatch p cfg fd (record s { sent = [] }) r ps ≡ some (s', [])
      → served p cfg fd s (request r ∷ ps) ≡ some s'
  unfolding served serve
  served-one cfg fd s s' r ps h = rw h refl

  -- The metadata of a regular file.
  pub served-meta :
      (cfg : Setup) (fd : ℕ) (s : Server p.Fs) (st : Stat) (path hash : Bytes)
      → file_type st ≡ s_ifreg
      → length path < 400
      → served p cfg fd s (
          request (req_meta (record { pathlen = length path; stat = st; hash = hash }))
          ∷ send_bytes path)
        ≡ some (record s {
          path = path;
          dir_stat_stack = record { dir = st; path = path } ∷ s.dir_stat_stack;
          sent = res op_sync_meta (compare_reg p s.fs path hash) ∷ [];
        })
  unfolding dispatch handle_sync_meta received_meta push_meta meta_case answer
  served-meta cfg fd s st path hash f n =
      let l : ltb (length path) 400 ≡ true = ground arith in
      served-one cfg fd s _ _ _ (rw (l, recv_bytes-sent path, f) refl)

  served-file :
      (cfg : Setup) (fd : ℕ) (s : Server p.Fs) (bytes : Bytes) (fs fs' : p.Fs)
      → p.fopen_w s.fs s.path ≡ some fs
      → p.fwrite fs s.path bytes ≡ (fs', true)
      → served p cfg fd s (request (req_file (length bytes)) ∷ send_bytes bytes)
        ≡ some (record s { fs = fs'; sent = res op_sync_file status_ok ∷ [] })
  unfolding dispatch handle_sync_file answer
  served-file cfg fd s bytes fs fs' o w =
      served-one cfg fd s _ _ _ (rw (recv_bytes-sent bytes, o, w) refl)

  -- A file that the server cannot open: it receives the bytes, and sends nothing.
  served-unopened :
      (cfg : Setup) (fd : ℕ) (s : Server p.Fs) (bytes : Bytes)
      → p.fopen_w s.fs s.path ≡ none
      → served p cfg fd s (request (req_file (length bytes)) ∷ send_bytes bytes)
        ≡ some (record s { sent = [] })
  unfolding dispatch handle_sync_file answer
  served-unopened cfg fd s bytes o = served-one cfg fd s _ _ _ (rw (recv_bytes-sent bytes, o) refl)

  compare_reg-cases :
      (fs : p.Fs) (path bytes : Bytes)
      → ((st : Stat) → p.lstat fs path ≡ some st → (b : Bytes) × (p.read fs path ≡ some b))
      → ((b : Bytes)
          → p.read fs path ≡ some b
          → take 8 (p.md5 b) ≡ take 8 (p.md5 bytes)
          → b ≡ bytes)
      → ((compare_reg p fs path (p.md5 bytes) ≡ status_ok) × (p.read fs path ≡ some bytes))
        ⊎ (compare_reg p fs path (p.md5 bytes) ≡ status_more)
  unfolding compare_reg md5_file
  compare_reg-cases fs path bytes readable distinct = elim (Option-cases (p.lstat fs path)) [
    | inl e ↦ inr (rw (compare_reg, e) refl)
    | inr (st, e) ↦
        let (b, r) = readable st e in
        elim (Bool-cases (bytes_eq (take 8 (p.md5 b)) (take 8 (p.md5 bytes)))) [
          | inl x ↦
              let same =
                distinct b r (bytes_eq_sound (take 8 (p.md5 b)) (take 8 (p.md5 bytes)) x) in
              inl (rw (compare_reg, e, md5_file, r, x) refl, r ∙ ap some same)
          | inr x ↦ inr (rw (compare_reg, e, md5_file, r, x) refl)
        ]
  ]

  -- What the client sends for a regular file of one name.
  meta_request-file :
      (cfs : p.Fs) (m : InodeMap) (path bytes : Bytes) (st : Stat)
      → file_type st ≡ s_ifreg
      → st.st_nlink < 2
      → p.read cfs path ≡ some bytes
      → meta_request p (file_type st) cfs m path st
        ≡ some (
          m,
          [],
          request (req_meta (record { pathlen = length path; stat = st; hash = p.md5 bytes }))
              ∷ send_bytes path,
        )
  unfolding meta_request note_inode md5_file
  meta_request-file cfs m path bytes st f n r =
      let l : leb 2 st.st_nlink ≡ false = ground arith in rw (f, l, md5_file, r) refl

  pub sync_meta-request :
      (cfg : Setup) (fd : ℕ) (cfs : p.Fs) (m m' : InodeMap) (path existed : Bytes) (st : Stat)
      (s : Server p.Fs) (ps : List Piece)
      → meta_request p (file_type st) cfs m path st ≡ some (m', existed, ps)
      → sync_meta p cfg fd cfs m path st s
        ≡ after_meta p cfg fd cfs m' existed path (served p cfg fd s ps)
  unfolding sync_meta
  sync_meta-request cfg fd cfs m m' path existed st s ps h = rw (sync_meta, h) refl

  sync_meta-after :
      (cfg : Setup) (fd : ℕ) (cfs : p.Fs) (m : InodeMap) (path bytes : Bytes) (st : Stat)
      (s : Server p.Fs) (o : Status)
      → file_type st ≡ s_ifreg
      → st.st_nlink < 2
      → length path < 400
      → p.read cfs path ≡ some bytes
      → compare_reg p s.fs path (p.md5 bytes) ≡ o
      → sync_meta p cfg fd cfs m path st s
        ≡ follow_up p cfg fd cfs m path
            (record s {
              path = path;
              dir_stat_stack = record { dir = st; path = path } ∷ s.dir_stat_stack;
              sent = res op_sync_meta o ∷ [];
            })
            (meta_next (res op_sync_meta o) [])
  unfolding after_meta
  sync_meta-after cfg fd cfs m path bytes st s o f n l r c =
      sync_meta-request cfg fd cfs m m path [] st s _ (meta_request-file cfs m path bytes st f n r)
      ∙ rw (served-meta cfg fd s st path (p.md5 bytes) f l, c) refl

  -- For a regular file of one name that the client can read, whose path has less than 400 bytes, and
  -- a server that can open and write the path and can read what is there: when no content of the path
  -- at the server has the first 8 digest bytes of the client's content unless it is that content,
  -- the client's `sync_meta` finishes, and the server then reads the client's content at the path. Its
  -- current path is the file's, and the file's attributes have been pushed for the end of the sync.
  pub sync_meta_delivers :
      (laws : IsPosix p) (cfg : Setup) (fd : ℕ) (cfs : p.Fs) (m : InodeMap) (path bytes : Bytes)
      (st : Stat) (s : Server p.Fs) (fs fs' : p.Fs)
      → file_type st ≡ s_ifreg
      → st.st_nlink < 2
      → length path < 400
      → p.read cfs path ≡ some bytes
      → p.fopen_w s.fs path ≡ some fs
      → p.fwrite fs path bytes ≡ (fs', true)
      → ((st' : Stat) → p.lstat s.fs path ≡ some st' → (b : Bytes) × (p.read s.fs path ≡ some b))
      → ((b : Bytes)
          → p.read s.fs path ≡ some b
          → take 8 (p.md5 b) ≡ take 8 (p.md5 bytes)
          → b ≡ bytes)
      → (s' : Server p.Fs) × (sync_meta p cfg fd cfs m path st s ≡ finished m s')
        × (p.read s'.fs path ≡ some bytes)
        × (s'.path ≡ path)
        × (s'.dir_stat_stack ≡ record { dir = st; path = path } ∷ s.dir_stat_stack)
  unfolding follow_up meta_next res sync_file responded
  sync_meta_delivers laws cfg fd cfs m path bytes st s fs fs' f n l r o w readable distinct =
      elim (compare_reg-cases s.fs path bytes readable distinct) [
        | inl (c, same) ↦
            (_, sync_meta-after cfg fd cfs m path bytes st s status_ok f n l r c, same, refl, refl)
        | inr c ↦
            let t : Server p.Fs = record s {
              path = path;
              dir_stat_stack = record { dir = st; path = path } ∷ s.dir_stat_stack;
              sent = res op_sync_meta status_more ∷ [];
            } in
            (
              record t { fs = fs'; sent = res op_sync_file status_ok ∷ [] },
              sync_meta-after cfg fd cfs m path bytes st s status_more f n l r c
                  ∙ rw (follow_up, sync_file, r, served-file cfg fd t bytes fs fs' o w) refl,
              laws.read-fwrite s.fs fs fs' path bytes o w,
              refl,
              refl,
            )
      ]

  -- For a regular file of one name that the client can read, whose path has less than 400 bytes, and
  -- that is not at the server: when the server cannot open the path for writing, it receives the
  -- content and sends no response, so that the client waits for ever. The server's files are unchanged.
  pub sync_meta_waits :
      (cfg : Setup) (fd : ℕ) (cfs : p.Fs) (m : InodeMap) (path bytes : Bytes) (st : Stat)
      (s : Server p.Fs)
      → file_type st ≡ s_ifreg
      → st.st_nlink < 2
      → length path < 400
      → p.read cfs path ≡ some bytes
      → p.lstat s.fs path ≡ none
      → p.fopen_w s.fs path ≡ none
      → (s' : Server p.Fs) × (sync_meta p cfg fd cfs m path st s ≡ waits s') × (s'.fs ≡ s.fs)
  unfolding follow_up meta_next res sync_file responded compare_reg
  sync_meta_waits cfg fd cfs m path bytes st s f n l r gone o =
      let t : Server p.Fs = record s {
        path = path;
        dir_stat_stack = record { dir = st; path = path } ∷ s.dir_stat_stack;
        sent = res op_sync_meta status_more ∷ [];
      } in
      let c : compare_reg p s.fs path (p.md5 bytes) ≡ status_more = rw (compare_reg, gone) refl in
      (
        record t { sent = [] },
        sync_meta-after cfg fd cfs m path bytes st s status_more f n l r c
            ∙ rw (follow_up, sync_file, r, served-unopened cfg fd t bytes o) refl,
        refl,
      )
