-- ===== src/Hunt/Boss/Loading.antt =====
-- `MD5(fd, config)` of MP3/server/boss.cpp: each round of the main loop hashes one more packet of the
-- mine; the round after the last one ends the loading. `none` is a sum that no `int` holds, or a write
-- behind `data`. The '\0' that `sprintf` puts behind `tmp`, one byte too far, is taken to meet nothing that
-- is used.
use sp.Base.{
  ℕ, zero, suc, ◌+◌, ◌-◌, ◌/◌, ◌≤◌, ◌<◌, ◌≡◌, refl, sym, ap, ◌∙◌, true, false, arith, Bytes, ltb,
  ◌==◌, if◌then◌else◌, ◌&&◌, leb, Option, some, none, ◌>>=◌, dec_lt, length, take, drop, take-add,
  take-length,
}
use sp.Hunt.Md5.{Md5, IsMd5}
use sp.Hunt.Digest.{hex, n_treasure_count}
use sp.Hunt.Boss.State.{Config, load_mine_data}

module _ (m : Md5) where
  open m use {Ctx, init, update, final}

  -- The size of a packet, and of the one that is hashed now.
  pkt_size : Config Ctx → ℕ
  pkt_size c = if ltb 0 (c.size / 1000000) then c.size / 1000000 else 1

  process_ptr : Config Ctx → ℕ
  unfolding pkt_size
  process_ptr c = if ltb c.size (c.mine_ptr + pkt_size c) then c.size - c.mine_ptr else pkt_size c

  add_packet : Config Ctx → Config Ctx
  unfolding process_ptr
  add_packet c =
      let ctx = update c.md_context (take (process_ptr c) (drop c.mine_ptr c.treasure)) in
      let r = n_treasure_count c.hash (final ctx) c.n_treasure in
      record c {
        hash = r.1;
        n_treasure_tmp = if r.0 == c.n_treasure_tmp + 1 then r.0 else c.n_treasure_tmp;
        mine_ptr = c.mine_ptr + process_ptr c;
        md_context = ctx;
      }

  -- `data` has 8192 bytes.
  hash_packet : Config Ctx → Option (Config Ctx)
  unfolding pkt_size add_packet
  hash_packet c =
      if ltb (c.mine_ptr + pkt_size c) 2147483648 && leb (process_ptr c) 8192
      then some (add_packet c)
      else none

  finish_loading : Config Ctx → Config Ctx
  finish_loading c = record c {
    n_treasure = c.n_treasure_tmp;
    is_done = true;
    hash = hex (final c.md_context);
  }

  unfoldable pub md5_step : Config Ctx → Option (Config Ctx)
  unfolding hash_packet finish_loading
  md5_step c = if c.mine_ptr == c.size then some (finish_loading c) else hash_packet c

  -- `if(!config.isDone) MD5(mine_fd, &config);`
  unfoldable pub load_round : Config Ctx → Option (Config Ctx)
  unfolding md5_step
  load_round c = if c.is_done then some c else md5_step c

  -- Some rounds of the main loop.
  unfoldable pub load : ℕ → Config Ctx → Option (Config Ctx)
  load zero c = some c
  load (suc rounds) c = load_round c >>= load rounds

  record IsLoading (content : Bytes) (c : Config Ctx) : Type 0 where
    mapped : c.treasure ≡ content
    sized : c.size ≡ length content
    reached : c.mine_ptr ≤ length content
    hashed : c.md_context ≡ update init (take c.mine_ptr content)

  -- What the loading is for.
  pub record IsLoaded (content : Bytes) (c : Config Ctx) : Type 0 where
    pub finished : c.is_done ≡ true
    pub context : c.md_context ≡ update init content
    pub digest : c.hash ≡ hex (final (update init content))
    pub counted : c.n_treasure ≡ c.n_treasure_tmp

  round_done : (c : Config Ctx) → c.is_done ≡ true → load_round c ≡ some c
  unfolding load_round
  round_done c h = ground arith

  -- The largest mine whose sums are `int`s: 2147481500 is 2 ^ 31 less 2148.
  load_round_cases :
      (c : Config Ctx)
      → c.size ≤ 2147481500
      → (c.is_done ≡ false → c.mine_ptr ≡ c.size → load_round c ≡ some (finish_loading c))
        × (c.is_done ≡ false → c.mine_ptr < c.size → load_round c ≡ some (add_packet c))
  unfolding load_round pkt_size process_ptr
  load_round_cases c n = (λ h e. ground arith, λ h l. ground arith)

  process_ptr_bounds :
      (c : Config Ctx)
      → c.mine_ptr < c.size
      → (0 < process_ptr c) × (c.mine_ptr + process_ptr c ≤ c.size)
  unfolding process_ptr
  process_ptr_bounds c h = ground arith

  module _ (law : IsMd5 m) where
    add_packet-IsLoading :
        (content : Bytes) (c : Config Ctx)
        → IsLoading content c
        → c.mine_ptr < c.size
        → IsLoading content (add_packet c)
    unfolding add_packet
    add_packet-IsLoading content c l h = record {
      mapped = l.mapped;
      sized = l.sized;
      reached = omega (arith, process_ptr_bounds c h);
      hashed =
          rw (l.mapped, l.hashed, law.update-update, ← take-add c.mine_ptr (process_ptr c) content);
    }

    finish_loading-IsLoaded :
        (content : Bytes) (c : Config Ctx)
        → IsLoading content c
        → c.mine_ptr ≡ c.size
        → IsLoaded content (finish_loading c)
    unfolding finish_loading
    finish_loading-IsLoaded content c l h = record {
      finished = refl;
      context = whole;
      digest = ap (λ ctx. hex (final ctx)) whole;
      counted = refl;
    }
      where
        whole : c.md_context ≡ update init content
        whole =
            l.hashed ∙ ap (update init) (take-length c.mine_ptr content (omega (arith, l.sized)))

    load_after :
        (rounds : ℕ) (c d : Config Ctx)
        → load_round c ≡ some d
        → load (suc rounds) c ≡ load rounds d
    unfolding load
    load_after rounds c d e = ap (λ r. r >>= load rounds) e

    load_done : (rounds : ℕ) (c : Config Ctx) → c.is_done ≡ true → load rounds c ≡ some c
    unfolding load
    load_done zero c h = refl
    load_done (suc rounds) c h = load_after rounds c c (round_done c h) ∙ load_done rounds c h

    finish_loading-is_done : (c : Config Ctx) → (finish_loading c).is_done ≡ true
    unfolding finish_loading
    finish_loading-is_done c = refl

    add_packet_moves :
        (c : Config Ctx)
        → ((add_packet c).is_done ≡ c.is_done)
          × ((add_packet c).mine_ptr ≡ c.mine_ptr + process_ptr c)
    unfolding add_packet
    add_packet_moves c = (refl, refl)

    load_from :
        (content : Bytes) (rounds : ℕ) (c : Config Ctx)
        → length content ≤ 2147481500
        → IsLoading content c
        → c.is_done ≡ false
        → length content < c.mine_ptr + rounds
        → (d : Config Ctx) × (load rounds c ≡ some d) × IsLoaded content d
    load_from content zero c n l busy h = absurd (omega (arith, l.reached))
    load_from content (suc rounds) c n l busy h =
        let cases = load_round_cases c (omega (arith, l.sized)) in
        elim (dec_lt c.mine_ptr c.size) [
          | yes below ↦
              let (d, e, i) =
                load_from content rounds (add_packet c) n (add_packet-IsLoading content c l below)
                  ((add_packet_moves c).0 ∙ busy)
                  (omega (arith, (add_packet_moves c).1, process_ptr_bounds c below)) in
              (d, load_after rounds c (add_packet c) (cases.1 busy below) ∙ e, i)
          | no above ↦
              let last : c.mine_ptr ≡ c.size = omega (arith, l.reached, l.sized) in
              (
                finish_loading c,
                load_after rounds c (finish_loading c) (cases.0 busy last)
                    ∙ load_done rounds (finish_loading c) (finish_loading-is_done c),
                finish_loading-IsLoaded content c l last,
              )
        ]

    -- From a fresh configuration, for a mine of at most 2147481500 bytes, whose sums are `int`s, one
    -- round more than the mine has bytes hashes all of it without a write behind `data`: the context
    -- and the digest are those of the whole mine, whatever the size of a packet.
    pub load-IsLoaded :
        (content : Bytes) (rounds : ℕ) (c : Config Ctx)
        → length content ≤ 2147481500
        → c.is_done ≡ false
        → c.mine_ptr ≡ 0
        → c.md_context ≡ init
        → length content < rounds
        → (d : Config Ctx) × ((load_mine_data m c content >>= load rounds) ≡ some d)
          × IsLoaded content d
    unfolding load_mine_data
    load-IsLoaded content rounds c n busy start fresh enough =
        let at : Config Ctx = record c { treasure = content; size = length content } in
        let (d, e, i) =
          load_from content rounds at n
            (record {
              mapped = refl;
              sized = refl;
              reached = omega arith;
              hashed = rw (start, fresh) (sym (law.update-nil init));
            })
            busy (omega arith) in
        let b : ltb (length content) 2147483648 ≡ true = ground arith in (d, rw (b) e, i)
