-- ===== src/Hunt/Boss/Dumps.antt =====
-- The dumps of MP3/server/boss.cpp: `struct DUMP_INFO` and the loop over `dump_vector`. A write is
-- taken to write all that it is given, as the loop does. The sum `ptr + 3000000` is taken to be an `int`, as
-- it is for mines of less than 2144483648 bytes; numbers have no bound here.
use sp.Base.{
  ℕ, zero, suc, ◌+◌, ◌-◌, Bool, true, false, [], ◌++◌, Bytes, ltb, ◌==◌, if◌then◌else◌, length,
  take, drop,
}
use sp.Hunt.Boss.State.{Config}

pub record Dump : Type 0 where
  pub size : ℕ
  pub ptr : ℕ
  pub fd : ℕ

-- A dump after its turn, what it has written, and whether it ended.
pub record Turn : Type 0 where
  pub dump : Dump
  pub written : Bytes
  pub ended : Bool

-- At most 3000000 bytes at a time.
pub writein_size : Dump → ℕ
writein_size d = if ltb (d.ptr + 3000000) d.size then 3000000 else d.size - d.ptr

idle : Dump → Turn
idle d = record { dump = d; written = []; ended = false }

module _ (Ctx : Type 0) where
  write_mine : Config Ctx → Dump → Turn
  unfolding writein_size
  write_mine c d = record {
    dump = record d { ptr = d.ptr + writein_size d };
    written = take (writein_size d) (drop d.ptr c.treasure);
    ended = false;
  }

  write_append : Config Ctx → Dump → Turn
  write_append c d = record {
    dump = record d { ptr = d.ptr + length c.append; fd = 0 };
    written = c.append;
    ended = true;
  }

  -- The body of the loop, for a descriptor that select() found writable or not.
  unfoldable pub dump_turn : Config Ctx → Bool → Dump → Turn
  unfolding write_mine write_append idle
  dump_turn c ready d =
      if d.fd == 0
      then idle d
      else if ready
      then (if ltb d.ptr d.size
          then write_mine c d
          else if d.size == d.ptr
          then write_append c d
          else idle d)
      else idle d

  -- What a dump writes in some rounds in which its file is writable.
  unfoldable pub dump_run : ℕ → Config Ctx → Dump → Dump × Bytes
  dump_run zero c d = (d, [])
  dump_run (suc rounds) c d =
      let t = dump_turn c true d in let r = dump_run rounds c t.dump in (r.0, t.written ++ r.1)

  -- A turn, and then some rounds.
  abbrev then_run : ℕ → Config Ctx → Turn → Dump × Bytes
  then_run rounds c t = ((dump_run rounds c t.dump).0, t.written ++ (dump_run rounds c t.dump).1)
