-- ===== src/Hunt/Boss/Treasures.antt =====
-- `handle_treasure` of MP3/server/boss.cpp. The buffers for the name, for the text and for all texts
-- together have 1000 bytes; what goes past them is a fault, `none`.
use sp.Base.{
  ◌+◌, ◌≤◌, ◌≡◌, ◌≢◌, refl, sym, ap, ◌∙◌, ◌⊎◌, inl, inr, Bool, true, false, ◌&&◌, Option, none,
  some, List, [], ◌∷◌, ◌++◌, arith, Bytes, leb, ◌==◌, if◌then◌else◌, length, ◌>>=◌, append_assoc,
  append-nil,
}
use sp.Hunt.Md5.{Md5, IsMd5}
use sp.Hunt.Digest.{hex, leading_zeros}
use sp.Hunt.Protocol.{Treasure}
use sp.Hunt.Boss.State.{Config}
use sp.Hunt.Miner.Search.{IsHonest}

module _ (m : Md5) where
  open m use {Ctx, init, update, final}

  -- The reads into the buffers on the stack.
  abbrev reads_fit : Treasure Ctx → Bool
  reads_fit t = leb (length t.name + 1) 1000 && leb (length t.append) 1000

  accept : Config Ctx → Treasure Ctx → Config Ctx
  accept c t = record c {
    n_treasure = t.n_treasure;
    md_context = t.ctx;
    win_name = t.name;
    append = c.append ++ t.append;
    hash = t.hash;
  }

  -- The new configuration, and whether the treasure was taken.
  unfoldable pub handle_treasure : Config Ctx → Treasure Ctx → Option (Config Ctx × Bool)
  unfolding accept
  handle_treasure c t =
      if reads_fit t
      then (if t.n_treasure == c.n_treasure + 1
          then (if leb (length c.append + length t.append) 1000
              then some (accept c t, true)
              else none)
          else some (c, false))
      else none

  -- All of a run's messages, in the order in which they are read.
  unfoldable pub handle_treasures : Config Ctx → List (Treasure Ctx) → Option (Config Ctx)
  unfolding handle_treasure
  handle_treasures c [] = some c
  handle_treasures c (t ∷ ts) = do r ← handle_treasure c t; handle_treasures r.0 ts

  -- The boss's record of the hunt: the context has hashed the mine and the texts that were appended,
  -- and the hash is its digest, with as many zeros at the front as the count says.
  pub record IsConsistent (c : Config Ctx) : Type 0 where
    pub context : c.md_context ≡ update init (c.treasure ++ c.append)
    pub digest : c.hash ≡ hex (final c.md_context)
    pub zeros : leading_zeros c.hash ≡ c.n_treasure

  module _ (law : IsMd5 m) where
    -- An honest treasure that continues the boss's context is taken while there is room for it, and
    -- the record stays consistent: the winner's text is appended, and the count rises by one.
    pub handle_treasure-honest :
        (c : Config Ctx) (t : Treasure Ctx)
        → c.md_context ≡ update init (c.treasure ++ c.append)
        → IsHonest m c.md_context c.n_treasure t
        → length t.name + 1 ≤ 1000
        → length c.append + length t.append ≤ 1000
        → (d : Config Ctx) × (handle_treasure c t ≡ some (d, true))
          × IsConsistent d
          × (d.n_treasure ≡ c.n_treasure + 1)
          × (d.append ≡ c.append ++ t.append)
          × (d.win_name ≡ t.name)
    unfolding handle_treasure
    handle_treasure-honest c t ctx h short room = (
      accept c t,
      ground (arith, h.counted),
      record {
        context =
            h.continued
            ∙ ap (λ x. update x t.append) ctx
            ∙ law.update-update _ _ _
            ∙ ap (update init) (append_assoc c.treasure c.append t.append);
        digest = h.hashed;
        zeros = h.zeros ∙ sym h.counted;
      },
      h.counted,
      refl,
      refl,
    )

  handle_treasure_cases :
      (c : Config Ctx) (t : Treasure Ctx)
      → (handle_treasure c t ≡ none)
        ⊎ (((t.n_treasure ≢ c.n_treasure + 1) × (handle_treasure c t ≡ some (c, false)))
            ⊎ ((t.n_treasure ≡ c.n_treasure + 1) × (handle_treasure c t ≡ some (accept c t, true))))
  unfolding handle_treasure
  handle_treasure_cases c t = ground arith

  -- Whatever a miner sends, the count never falls and rises by one at most, the mine and what was
  -- appended before stay, and a treasure that is not the next one changes nothing.
  pub handle_treasure-monotone :
      (c d : Config Ctx) (t : Treasure Ctx) (taken : Bool)
      → handle_treasure c t ≡ some (d, taken)
      → (d.treasure ≡ c.treasure)
        × ((rest : Bytes) × (d.append ≡ c.append ++ rest))
        × (((taken ≡ true) × (d.n_treasure ≡ c.n_treasure + 1))
            ⊎ ((taken ≡ false) × (d ≡ c) × (t.n_treasure ≢ c.n_treasure + 1)))
  unfolding handle_treasure
  handle_treasure-monotone c d t taken e = elim (handle_treasure_cases c t) [
    | inl fault ↦ cc
    | inr (inl (stale, f)) ↦
        let same : d ≡ c = ground arith in
        (
          ap (λ (x : Config Ctx). x.treasure) same,
          ([], ap (λ (x : Config Ctx). x.append) same ∙ sym (append-nil c.append)),
          inr (ground arith, same, stale),
        )
    | inr (inr (next, f)) ↦
        let same : d ≡ accept c t = ground arith in
        (
          ap (λ (x : Config Ctx). x.treasure) same,
          (t.append, ap (λ (x : Config Ctx). x.append) same),
          inl (ground arith, ap (λ (x : Config Ctx). x.n_treasure) same ∙ next),
        )
  ]
