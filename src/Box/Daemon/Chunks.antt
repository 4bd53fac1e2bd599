-- ===== src/Box/Daemon/Chunks.antt =====
-- MP5: a file that arrives in pieces.
use sp.Base.{
  ℕ, zero, suc, ◌+◌, ◌-◌, ◌<◌, ◌≤◌, ◌≡◌, sym, ap, ◌∙◌, inl, inr, true, false, some, [], ◌++◌,
  append_assoc, append-nil, arith, Bytes, leb, ◌==◌, ==_iff, Bool-cases, length, take, drop,
  take-add, drop-add, length-drop,
}
use sp.Box.Daemon.{Host, IsHost, FileData, recv_exact, readlen, receive_chunks, receive_file}

readlen_le : (left : ℕ) → 0 < left → (0 < readlen left) × (readlen left ≤ left)
unfolding readlen
readlen_le left n = ground arith

-- Each write to the file is a complete one.
abbrev pub WritesAll : (h : Host) → Bytes → Type 0
WritesAll h path = (fs : h.Fs) (b : Bytes) → (h.write fs path b).1 ≡ length b

module _ (h : Host) (laws : IsHost h) where
  receive_chunks_lem :
      (fuel left : ℕ) (fs : h.Fs) (path s a : Bytes)
      → WritesAll h path
      → left < fuel
      → left ≤ length s
      → h.read fs path ≡ some a
      → (h.read (receive_chunks h fuel left true fs path s).0 path ≡ some (a ++ take left s))
        × ((receive_chunks h fuel left true fs path s).1 ≡ drop left s)
  unfolding receive_chunks recv_exact
  receive_chunks_lem zero left fs path s a all f l r = absurd (omega arith)
  receive_chunks_lem (suc fuel) left fs path s a all f l r = elim (Bool-cases (left == 0)) [
    | inl e ↦
        let z : left ≡ 0 = omega (arith, (==_iff left 0).0 e) in
        (
          rw e (r ∙ ap some (sym (append-nil a) ∙ ap (λ n. a ++ take n s) (sym z))),
          rw e (ap (λ n. drop n s) (sym z)),
        )
    | inr e ↦
        let (n, m) = readlen_le left (ground arith) in
        let k : (readlen left == 0) ≡ false = ground arith in
        let b : leb (readlen left) (length s) ≡ true = ground arith in
        let w = (h.write fs path (take (readlen left) s)).0 in
        let (x, y) =
          receive_chunks_lem fuel (left - readlen left) w path (drop (readlen left) s)
            (a ++ take (readlen left) s) all (omega arith)
            (omega (arith, length-drop (readlen left) s))
            (laws.read-write fs path a (take (readlen left) s) r
              (all fs (take (readlen left) s))) in
        let z : readlen left + (left - readlen left) ≡ left = omega arith in
        let t =
          append_assoc a (take (readlen left) s)
            (take (left - readlen left) (drop (readlen left) s)) in
        let u = sym (take-add (readlen left) (left - readlen left) s) ∙ ap (λ n. take n s) z in
        (
          rw (e, k, b) (x ∙ ap some (t ∙ ap (λ q. a ++ q) u)),
          rw (e, k, b)
              (y ∙ sym (drop-add (readlen left) (left - readlen left) s) ∙ ap (λ n. drop n s) z),
        )
  ]

  -- A file of any length, whose bytes come over the connection, which can be opened and to which every
  -- write is complete, holds those
  -- bytes when the loop of pieces of 4096 bytes is over, and nothing behind them is taken from the
  -- connection.
  pub receive_file_lem :
      (fs fs' : h.Fs) (path : Bytes) (d : FileData)
      → WritesAll h path
      → h.open_w fs path ≡ some fs'
      → d.datalen ≤ length d.bytes
      → (h.read (receive_file h fs path d).0 path ≡ some (take d.datalen d.bytes))
        × ((receive_file h fs path d).1 ≡ drop d.datalen d.bytes)
  unfolding receive_file
  receive_file_lem fs fs' path d all o l =
      rw (receive_file, o)
        (receive_chunks_lem (suc d.datalen) d.datalen fs' path d.bytes [] all (omega arith) l
          (laws.read-open_w fs fs' path o))
