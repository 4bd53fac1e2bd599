-- ===== src/Box/Exchange/Link.antt =====
-- MP2: what the server holds after the client's `sync_meta` of a hard link or of a symbolic link.
use sp.Base.{
  ℕ, ◌<◌, ◌≤◌, ◌≡◌, refl, ◌∙◌, true, false, none, some, [], ◌∷◌, arith, Bytes, leb, ◌==◌, length,
}
use sp.Box.Posix.{Posix, IsPosix}
use sp.Box.Protocol.{
  op_sync_meta, op_sync_hardlink, status_ok, status_more, Stat, s_ifreg, file_type, req_meta,
  request, send_bytes,
}
use sp.Box.Server.{
  Server, Setup, dispatch, handle_sync_hardlink, compare_reg, md5_file, answer, res,
}
use sp.Box.Client.{InodeMap, find_inode, note_inode, meta_request, meta_next, sync_hardlink}
use sp.Box.Exchange.{finished, served, responded, follow_up, after_meta, sync_meta}
use sp.Box.Exchange.File.{recv_bytes-sent, served-one, served-meta, sync_meta-request}

module _ (p : Posix) where
  meta_request-hardlink :
      (cfs : p.Fs) (m : InodeMap) (path : Bytes) (st : Stat)
      → file_type st ≡ s_ifreg
      → 2 ≤ st.st_nlink
      → 0 < length (find_inode m st.st_ino)
      → meta_request p (file_type st) cfs m path st
        ≡ some (
          m,
          find_inode m st.st_ino,
          request
                (req_meta (record { pathlen = length path; stat = st; hash = md5_file p cfs path }))
              ∷ send_bytes path,
        )
  unfolding meta_request note_inode
  meta_request-hardlink cfs m path st f n e =
      let l : leb 2 st.st_nlink ≡ true = ground arith in
      let k : (length (find_inode m st.st_ino) == 0) ≡ false = ground arith in rw (f, l, k) refl

  served-hardlink :
      (cfg : Setup) (fd : ℕ) (s : Server p.Fs) (existed : Bytes) (fs : p.Fs)
      → p.link s.fs existed s.path ≡ some fs
      → served p cfg fd s (sync_hardlink existed)
        ≡ some (record s { fs = fs; sent = res op_sync_hardlink status_ok ∷ [] })
  unfolding dispatch handle_sync_hardlink answer sync_hardlink
  served-hardlink cfg fd s existed fs o =
      served-one p cfg fd s _ _ _ (rw (recv_bytes-sent existed, o) refl)

  -- For a regular file with two names or more, of which the client has synced one, a path of less
  -- than 400 bytes that is not at the server, and a server that can make the link: the client's
  -- `sync_meta` finishes, and at the server the path then reads what the synced name did.
  pub sync_meta_links :
      (laws : IsPosix p) (cfg : Setup) (fd : ℕ) (cfs : p.Fs) (m : InodeMap) (path : Bytes)
      (st : Stat) (s : Server p.Fs) (fs : p.Fs)
      → file_type st ≡ s_ifreg
      → 2 ≤ st.st_nlink
      → 0 < length (find_inode m st.st_ino)
      → length path < 400
      → p.lstat s.fs path ≡ none
      → p.link s.fs (find_inode m st.st_ino) path ≡ some fs
      → (s' : Server p.Fs) × (sync_meta p cfg fd cfs m path st s ≡ finished m s')
        × (p.read s'.fs path ≡ p.read s.fs (find_inode m st.st_ino))
  unfolding follow_up meta_next res responded after_meta
  sync_meta_links laws cfg fd cfs m path st s fs f n e l gone o =
      let k : (length (find_inode m st.st_ino) == 0) ≡ false = ground arith in
      let c : compare_reg p s.fs path (md5_file p cfs path) ≡ status_more =
        rw (compare_reg, gone) refl in
      let t : Server p.Fs = record s {
        path = path;
        dir_stat_stack = record { dir = st; path = path } ∷ s.dir_stat_stack;
        sent = res op_sync_meta status_more ∷ [];
      } in
      (
        record t { fs = fs; sent = res op_sync_hardlink status_ok ∷ [] },
        sync_meta-request p cfg fd cfs m m path (find_inode m st.st_ino) st s _
              (meta_request-hardlink cfs m path st f n e)
            ∙ rw
                (
                  served-meta p cfg fd s st path (md5_file p cfs path) f l,
                  c,
                  k,
                  served-hardlink cfg fd t (find_inode m st.st_ino) fs o,
                )
                refl,
        laws.read-link s.fs fs (find_inode m st.st_ino) path o,
      )
