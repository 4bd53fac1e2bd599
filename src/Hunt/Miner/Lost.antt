-- ===== src/Hunt/Miner/Lost.antt =====
-- What becomes of a miner's range once another treasure is found: `clear_mine` sets `end` to 0, and
-- the message with mode 3 brings no new range.
use sp.Base.{
  ℕ, zero, suc, ◌+◌, ◌%◌, ◌<◌, ◌≡◌, sym, ap, ◌∙◌, inl, inr, none, some, List, [], ◌∷◌, ◌++◌, arith,
  Bytes,
}
use sp.Hunt.Md5.{Md5}
use sp.Hunt.Protocol.{found}
use sp.Hunt.Miner.{Mine, Notice, candidate, advance, hash_candidate, try_one, receive}
use sp.Hunt.Miner.Search.{judge_reports}

module _ (m : Md5) where
  open m use {Ctx}

  -- The miner after some rounds, and that nothing was found in them.
  pub rounds : ℕ → Mine Ctx → Mine Ctx
  rounds zero s = s
  rounds (suc k) s = rounds k (try_one m s).0

  abbrev pub Silent : ℕ → Mine Ctx → Type 0
  Silent zero s = Unit {0}
  Silent (suc k) s = ((try_one m s).1 ≡ none) × Silent k (try_one m s).0

  record IsLost (from : ℕ) (s : Mine Ctx) : Type 0 where
    kept : s.start ≡ from
    ended : s.end ≡ 0
    past : 0 < s.start_tmp

  advance_ranges : (s : Mine Ctx) → ((advance m s).start ≡ s.start) × ((advance m s).end ≡ s.end)
  unfolding advance
  advance_ranges s = ground arith

  try_one-IsLost :
      (from : ℕ) (s : Mine Ctx)
      → s.start ≡ from
      → s.end ≡ 0
      → (try_one m s).1 ≡ none
      → IsLost from (try_one m s).0
  unfolding try_one
  try_one-IsLost from s f t silent =
      let a = advance m s in
      elim (judge_reports m
        (hash_candidate m (record a { start_tmp = a.start_tmp + 1 }) (candidate m a))
        (candidate m a)) [
          | inl h ↦ absurd (cc (sym silent ∙ h.0))
          | inr h ↦ rw h.1 (record {
            kept = (advance_ranges s).0 ∙ f;
            ended = (advance_ranges s).1 ∙ t;
            past = omega arith;
          })
        ]

  rounds-IsLost :
      (from k : ℕ) (s : Mine Ctx) → IsLost from s → Silent k s → IsLost from (rounds k s)
  unfolding rounds
  rounds-IsLost from zero s l q = l
  rounds-IsLost from (suc k) s l q =
      rounds-IsLost from k _ (try_one-IsLost from s l.kept l.ended q.0) q.1

  candidate_lost :
      (from : ℕ) (s : Mine Ctx)
      → IsLost from s
      → (prefix : Bytes) × (candidate m (advance m s) ≡ prefix ++ (from % 256) ∷ [])
  unfolding advance
  candidate_lost from s l =
      ((advance m s).mine, ap (λ b. (advance m s).mine ++ (b % 256) ∷ []) (ground arith))

  -- After the news of a treasure, and as long as the miner itself finds nothing, each text that it
  -- tries but the first ends with the first byte of its old range: the rest of the range is lost.
  pub found-candidate :
      (s t : Mine Ctx) (notices : List Notice) (ctx : Ctx) (n k : ℕ) (winner hash : Bytes)
      → receive m (found ctx n winner hash) s ≡ (some t, notices)
      → Silent (suc k) t
      → (prefix : Bytes) × (candidate m (advance m (rounds (suc k) t))
          ≡ prefix ++ (s.start % 256) ∷ [])
  unfolding receive rounds
  found-candidate s t notices ctx n k winner hash e q =
      candidate_lost s.start _
        (rounds-IsLost s.start k _ (try_one-IsLost s.start t (ground arith) (ground arith) q.0) q.1)
