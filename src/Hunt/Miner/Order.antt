-- ===== src/Hunt/Miner/Order.antt =====
-- The order in which a miner that searches all last bytes tries the texts.
use sp.Base.{ℕ, ◌+◌, ◌*◌, ◌%◌, ◌≤◌, ◌<◌, ◌≡◌, sym, ◌∙◌, inl, inr, none, [], ◌∷◌, ◌++◌, arith, Bytes}
use sp.Hunt.Md5.{Md5}
use sp.Hunt.Miner.{Mine, candidate, advance, hash_candidate, try_one}
use sp.Hunt.Miner.Rank.{rank, rank-snoc, rank-mining}
use sp.Hunt.Miner.Search.{judge_reports}

module _ (m : Md5) where
  open m use {Ctx}

  -- The place in the order of the text that is tried next.
  abbrev pub next_rank : Mine Ctx → ℕ
  next_rank s = rank (candidate m (advance m s))

  -- A miner whose range is all the bytes, between two rounds.
  pub record IsWhole (s : Mine Ctx) : Type 0 where
    pub from : s.start ≡ 0
    pub to : s.end ≡ 255
    pub within : s.start_tmp ≤ 256

  rank-candidate :
      (mine : Bytes) (b : ℕ) → b < 256 → rank (mine ++ (b % 256) ∷ []) ≡ 256 * rank mine + b + 1
  rank-candidate mine b h = omega (arith, rank-snoc mine (b % 256))

  advance_whole :
      (s : Mine Ctx)
      → IsWhole s
      → ((advance m s).start ≡ 0)
        × ((advance m s).end ≡ 255)
        × ((advance m s).start_tmp < 256)
        × (256 * rank (advance m s).mine + (advance m s).start_tmp
            ≡ 256 * rank s.mine + s.start_tmp)
  unfolding advance
  advance_whole s w = ground (arith, rank-mining s.mine)

  next_rank-eq : (s : Mine Ctx) → IsWhole s → next_rank s ≡ 256 * rank s.mine + s.start_tmp + 1
  next_rank-eq s w =
      let (_, _, l, e) = advance_whole s w in
      omega (arith, rank-candidate (advance m s).mine (advance m s).start_tmp l)

  -- From one round to the next, as long as nothing is found, a miner with the whole range goes on to
  -- the next text in the order: no text of bytes is skipped.
  pub next_rank-try_one :
      (s : Mine Ctx)
      → IsWhole s
      → (try_one m s).1 ≡ none
      → (next_rank (try_one m s).0 ≡ next_rank s + 1) × IsWhole (try_one m s).0
  unfolding try_one
  next_rank-try_one s w silent =
      let a = advance m s in
      let s' = hash_candidate m (record a { start_tmp = a.start_tmp + 1 }) (candidate m a) in
      let (f, t, l, e) = advance_whole s w in
      let w' : IsWhole s' = record { from = f; to = t; within = omega arith } in
      elim (judge_reports m s' (candidate m a)) [
        | inl h ↦ absurd (cc (sym silent ∙ h.0))
        | inr h ↦ rw h.1 (omega (arith, next_rank-eq s' w', next_rank-eq s w), w')
      ]
