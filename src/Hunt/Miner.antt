-- ===== src/Hunt/Miner.antt =====
-- MP3/client/miner.cpp: the state `struct Mine`, the enumeration `mining`, one round of the work
-- loop and the messages of the boss. The buffer `mine` is the list of its first `mine_size` bytes.
-- `name_size` and the '\0' behind a name belong to the pipe's encoding and are left out.
pub mod Rank
pub mod Search
pub mod Lost
pub mod Order
use sp.Base.{
  ℕ, zero, suc, ◌+◌, ◌%◌, Bool, true, false, not, ◌&&◌, Option, none, some, List, [], ◌∷◌, ◌++◌,
  Bytes, bytes_eq, ltb, ◌==◌, if◌then◌else◌, length, get_elem?, set,
}
use sp.Hunt.Md5.{Md5}
use sp.Hunt.Digest.{hex, peek}
use sp.Hunt.Protocol.{Message, Treasure, hello, start, status, found, quit, leave}

pub record Mine (Ctx : Type 0) : Type 0 where
  pub start : ℕ
  pub start_tmp : ℕ
  pub end : ℕ
  pub n_treasure : ℕ
  pub work : Bool
  pub mine : Bytes
  pub win_name : Bytes
  pub mine_hash : Bytes
  pub working_hash : Bytes
  pub name : Bytes
  pub md_context : Ctx
  pub tmp_context : Ctx

-- `mining(mine, ptr)`: at 0 the first byte is cleared and the text shifted up by one place.
unfoldable pub mining : ℕ → Bytes → Bytes
mining zero mine = 0 ∷ set mine 0 0
mining (suc ptr) mine = elim (get_elem? mine ptr) [
  | none ↦ mine
  | some b ↦
      let carry = mining ptr (set mine ptr 0) in if b == 255 then carry else set mine ptr (b + 1)
]

-- `while(working_hash[ptr++] == '0')` from `ptr` on: whether the body's test holds in some round.
unfoldable pub has_zeros : ℕ → ℕ → Bytes → Bool
has_zeros n ptr [] = false
has_zeros n ptr (c ∷ s) =
    let rest = has_zeros n (ptr + 1) s in
    if c == b'0' then (if (ptr + 1 == n + 1) && not (peek s == b'0') then true else rest) else false

-- What the miner prints.
pub data Notice : Type 0 where
  mindful at_rest bye : Notice
  working_on : Bytes → Notice
  i_win : ℕ → Bytes → Notice
  other_wins : Bytes → ℕ → Bytes → Notice

module _ (m : Md5) where
  open m use {Ctx, init, update, final}

  unfoldable pub initialize_mine : Bytes → Mine Ctx
  initialize_mine name = record {
    start = 0;
    start_tmp = 0;
    end = 0;
    n_treasure = 0;
    work = false;
    mine = [];
    win_name = [];
    mine_hash = [];
    working_hash = [];
    name = name;
    md_context = init;
    tmp_context = init;
  }

  -- `start` is kept.
  unfoldable pub clear_mine : Mine Ctx → Mine Ctx
  clear_mine s = record s {
    start_tmp = 0;
    end = 0;
    n_treasure = 0;
    work = false;
    mine = [];
    win_name = [];
    mine_hash = [];
    working_hash = [];
    md_context = init;
    tmp_context = init;
  }

  -- The guard at the head of the work loop: past the end of the range the next prefix is taken.
  unfoldable pub advance : Mine Ctx → Mine Ctx
  unfolding mining
  advance s =
      if ltb s.end s.start_tmp
      then record s { start_tmp = s.start; mine = mining (length s.mine) s.mine }
      else s

  -- The text that is hashed next: the prefix and the byte `start_tmp`.
  abbrev pub candidate : Mine Ctx → Bytes
  candidate s = s.mine ++ (s.start_tmp % 256) ∷ []

  -- `MD5(&mine, mine_tmp, mine_size + 1)`
  unfoldable pub hash_candidate : Mine Ctx → Bytes → Mine Ctx
  hash_candidate s text =
      let ctx = update s.md_context text in
      record s { tmp_context = ctx; working_hash = hex (final ctx) }

  -- What is written to the boss.
  abbrev pub report : Mine Ctx → Bytes → Treasure Ctx
  report s text = record {
    ctx = s.tmp_context;
    n_treasure = s.n_treasure + 1;
    name = s.name;
    append = text;
    hash = s.working_hash;
  }

  -- The rest of the round, after the candidate has been hashed.
  unfoldable pub judge : Mine Ctx → Bytes → Mine Ctx × Option (Treasure Ctx)
  unfolding has_zeros
  judge s text =
      if has_zeros s.n_treasure 0 s.working_hash
      then (
        record s {
          md_context = s.tmp_context;
          mine = text;
          work = false;
          mine_hash = s.working_hash;
        },
        some (report s text),
      )
      else (s, none)

  -- One round of `while(mine.work && count--)`.
  unfoldable pub try_one : Mine Ctx → Mine Ctx × Option (Treasure Ctx)
  unfolding advance hash_candidate judge
  try_one s =
      let a = advance s in
      judge (hash_candidate (record a { start_tmp = a.start_tmp + 1 }) (candidate a)) (candidate a)

  -- The loop itself, with what it writes to the boss.
  unfoldable pub work_loop : ℕ → Mine Ctx → Mine Ctx × List (Treasure Ctx)
  unfolding try_one
  work_loop zero s = (s, [])
  work_loop (suc count) s =
      let r = try_one s in
      let rest = work_loop count r.0 in
      if s.work then (rest.0, elim r.1 [ none ↦ rest.1 | some t ↦ t ∷ rest.1 ]) else (s, [])

  -- The switch on the mode, and the notices that it prints; `none` is exit(0).
  unfoldable pub receive : Message Ctx → Mine Ctx → Option (Mine Ctx) × List Notice
  unfolding clear_mine
  receive hello s = (some s, mindful ∷ [])
  receive (start ctx n from to) s = (
    some (record s { work = true; md_context = ctx; n_treasure = n; start = from; end = to }),
    [],
  )
  receive status s = (some s, working_on s.working_hash ∷ [])
  receive (found ctx n winner hash) s = (
    some (record (clear_mine s) {
      work = true;
      md_context = ctx;
      n_treasure = n;
      win_name = winner;
      mine_hash = hash;
    }),
    (if bytes_eq winner s.name then i_win n hash else other_wins winner n hash) ∷ [],
  )
  receive quit s = (some (clear_mine s), at_rest ∷ [])
  receive leave s = (none, bye ∷ [])

  -- The second half of the main loop's body: 500 rounds at most.
  abbrev after_message :
      Option (Mine Ctx) × List Notice → Option (Mine Ctx) × List Notice × List (Treasure Ctx)
  after_message (none, notices) = (none, notices, [])
  after_message (some s, notices) = let r = work_loop 500 s in (some r.0, notices, r.1)

  -- One round of `while(true)`, with the message that select() found, if any.
  pub miner_round :
      Option (Message Ctx) → Mine Ctx → Option (Mine Ctx) × List Notice × List (Treasure Ctx)
  miner_round none s = after_message (some s, [])
  miner_round (some message) s = after_message (receive message s)
