-- ===== src/Hunt/Boss/Jobs.antt =====
-- `assign_jobs` of MP3/server/boss.cpp: the messages in the order of the miners, and how the ranges
-- of mode 1 cut up the 256 values of a byte. With no miner the division faults.
use sp.Base.{
  ℕ, zero, suc, ◌+◌, ◌-◌, ◌*◌, ◌/◌, ◌≤◌, ◌<◌, ◌≡◌, refl, ap, ◌&&◌, Option, none, some, List, [],
  ◌∷◌, arith, ltb, leb, ◌==◌, if◌then◌else◌, replicate, dec_lt,
}
use sp.Hunt.Md5.{Md5}
use sp.Hunt.Protocol.{Message, start, found}
use sp.Hunt.Boss.State.{Config}

pub data Mode : Type 0 where
  begin again : Mode

module _ (m : Md5) where
  open m use {Ctx}

  -- One round of the loop: the range ends at 255 at the latest.
  abbrev pub job : Mode → Config Ctx → ℕ → ℕ → Message Ctx
  job begin c first range = start c.md_context c.n_treasure first range
  job again c first range = found c.md_context c.n_treasure c.win_name c.hash

  unfoldable pub jobs : Mode → Config Ctx → ℕ → ℕ → ℕ → List (Message Ctx)
  jobs mode c load first zero = []
  jobs mode c load first (suc more) =
      let range = if ltb 255 (first + load) then 255 else first + load in
      job mode c first range ∷ jobs mode c load (range + 1) more

  unfoldable pub assign_jobs : Mode → Config Ctx → Option (List (Message Ctx))
  unfolding jobs
  assign_jobs mode c =
      if c.num_miners == 0 then none else some (jobs mode c (256 / c.num_miners - 1) 0 c.num_miners)

  -- How many of the messages give the byte to a miner.
  abbrev pub covers : ℕ → Message Ctx → ℕ
  covers b (start ctx n from to) = if leb from b && leb b to then 1 else 0
  covers b _ = 0

  pub times_covered : ℕ → List (Message Ctx) → ℕ
  times_covered b [] = 0
  times_covered b (x ∷ xs) = covers b x + times_covered b xs

  times_covered-jobs :
      (c : Config Ctx) (b load first more : ℕ)
      → first + more * (load + 1) ≤ 256
      → times_covered b (jobs begin c load first more)
        ≡ (if leb first b && ltb b (first + more * (load + 1)) then 1 else 0)
  unfolding times_covered jobs
  times_covered-jobs c b load first zero h = ground arith
  times_covered-jobs c b load first (suc more) h =
      ground (arith, times_covered-jobs c b load (first + load + 1) more)

  share_bounds : (k : ℕ) → 0 < k → k ≤ 256 → (0 < 256 / k) × (k * (256 / k) ≤ 256)
  share_bounds k p q = (grind arith, grind arith)

  share_eq : (k : ℕ) → 0 < 256 / k → k * (256 / k - 1 + 1) ≡ k * (256 / k)
  share_eq k p = ap (λ x. k * x) (omega arith)

  -- When jobs are given to up to 256 miners, a byte value goes to exactly one of them if it is
  -- below `num_miners * (256 / num_miners)`, and to none otherwise: the ranges are disjoint, and
  -- they cover all bytes exactly when the number of miners divides 256.
  pub assign_jobs-covered :
      (c : Config Ctx) (b : ℕ) (messages : List (Message Ctx))
      → c.num_miners ≤ 256
      → assign_jobs begin c ≡ some messages
      → times_covered b messages ≡ (if ltb b (c.num_miners * (256 / c.num_miners)) then 1 else 0)
  unfolding assign_jobs
  assign_jobs-covered c b messages few e = elim (dec_lt 0 c.num_miners) [
    | yes some_miner ↦
        let (p, q) = share_bounds c.num_miners some_miner few in
        let r = share_eq c.num_miners p in
        ground (arith, times_covered-jobs c b (256 / c.num_miners - 1) 0 c.num_miners)
    | no nobody ↦ ground arith
  ]

  jobs-again :
      (c : Config Ctx) (load first more : ℕ)
      → jobs again c load first more
        ≡ replicate more (found c.md_context c.n_treasure c.win_name c.hash)
  unfolding jobs
  jobs-again c load first zero = refl
  jobs-again c load first (suc more) =
      let next = (if ltb 255 (first + load) then 255 else first + load) + 1 in
      ap (◌∷◌ (job again c first 0)) (jobs-again c load next more)

  -- The news of a treasure goes to each miner alike.
  pub assign_jobs-again :
      (c : Config Ctx) (messages : List (Message Ctx))
      → assign_jobs again c ≡ some messages
      → messages ≡ replicate c.num_miners (found c.md_context c.n_treasure c.win_name c.hash)
  unfolding assign_jobs
  assign_jobs-again c messages e =
      ground (arith, jobs-again c (256 / c.num_miners - 1) 0 c.num_miners)
