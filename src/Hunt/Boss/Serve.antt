-- ===== src/Hunt/Boss/Serve.antt =====
-- The main loop of MP3/server/boss.cpp, a round at a time. What select() reports and what stands in
-- the pipes is the round's event; what the boss writes and prints is the list of outputs.
pub mod Quitting
use sp.Base.{
  ℕ, ◌+◌, ◌-◌, Bool, true, false, not, ◌&&◌, ◌||◌, Option, none, some, List, [], ◌∷◌, ◌++◌, map,
  Bytes, ◌==◌, if◌then◌else◌, ◌>>=◌,
}
use sp.Hunt.Md5.{Md5}
use sp.Hunt.Protocol.{Message, Treasure, quit}
use sp.Hunt.Boss.State.{Config}
use sp.Hunt.Boss.Loading.{load_round}
use sp.Hunt.Boss.Jobs.{assign_jobs, begin, again}
use sp.Hunt.Boss.Treasures.{handle_treasure}
use sp.Hunt.Boss.Commands.{Effect, Files, Flag, leaves, opened, Reply, handle_command, exit}
use sp.Hunt.Boss.Dumps.{Dump, Turn, dump_turn}

pub record Server (Ctx : Type 0) : Type 0 where
  pub config : Config Ctx
  pub quitting : Bool
  pub dump_num : ℕ
  pub dumps : List Dump

-- A line on the standard input, the descriptors that can be written to, the miners' treasures in
-- the order of the miners.
pub record Event (Ctx : Type 0) : Type 0 where
  pub stdin : Option Bytes
  pub writable : ℕ → Bool
  pub treasures : List (Treasure Ctx)

pub data Output (Ctx : Type 0) : Type 0 where
  effect : Effect Ctx → Output Ctx
  send : List (Message Ctx) → Output Ctx
  send_all : ℕ → Message Ctx → Output Ctx
  write_dump : ℕ → Bytes → Output Ctx
  close_dump : ℕ → Output Ctx
  discovered : ℕ → Bytes → Output Ctx

-- The loop goes on, or the program leaves it, or exit() is called in a command.
pub data Next (Ctx : Type 0) : Type 0 where
  on : Server Ctx → List (Output Ctx) → Next Ctx
  stopped : Server Ctx → List (Output Ctx) → Next Ctx
  exited : List (Output Ctx) → Next Ctx

-- The dumps that still have a descriptor.
unfoldable pub live : List Dump → ℕ
live [] = 0
live (d ∷ ds) = (if d.fd == 0 then 0 else 1) + live ds

-- The loop over `dump_vector`: the dumps, how many of them ended, the outputs.
pub record Served (Ctx : Type 0) : Type 0 where
  pub dumps : List Dump
  pub ended : ℕ
  pub outputs : List (Output Ctx)

-- A write of no bytes is none.
abbrev wrote : {Ctx : Type 0} → ℕ → Bytes → List (Output Ctx)
wrote fd [] = []
wrote fd (b ∷ bs) = write_dump fd (b ∷ bs) ∷ []

module _ (m : Md5) (files : Files) where
  open m use {Ctx}

  abbrev watched : List Dump → ℕ → Bool
  watched [] fd = false
  watched (d ∷ ds) fd = (d.fd == fd) || watched ds fd

  turn_outputs : ℕ → Turn → List (Output Ctx)
  turn_outputs fd t = wrote fd t.written ++ (if t.ended then close_dump fd ∷ [] else [])

  unfoldable pub serve_dumps : Config Ctx → (ℕ → Bool) → List Dump → Served Ctx
  unfolding turn_outputs dump_turn
  serve_dumps c ready [] = record { dumps = []; ended = 0; outputs = [] }
  serve_dumps c ready (d ∷ ds) =
      let t = dump_turn Ctx c (ready d.fd) d in
      let rest = serve_dumps c ready ds in
      record {
        dumps = t.dump ∷ rest.dumps;
        ended = (if t.ended then 1 else 0) + rest.ended;
        outputs = turn_outputs d.fd t ++ rest.outputs;
      }

  -- The loop over the miners: a treasure that is taken is announced to all.
  serve_treasures : Config Ctx → List (Treasure Ctx) → Option (Config Ctx × List (Output Ctx))
  serve_treasures c [] = some (c, [])
  serve_treasures c (t ∷ ts) = do
    r ← handle_treasure m c t
    jobs ← (if r.1 then assign_jobs m again r.0 else some [])
    rest ← serve_treasures r.0 ts
    some (
      rest.0,
      (if r.1 then discovered r.0.n_treasure r.0.hash ∷ send jobs ∷ [] else []) ++ rest.1,
    )

  -- The head of the round: `isDumping` follows `dump_num`, and a quit that waited is carried out.
  head : Server Ctx → Server Ctx × Bool × List (Output Ctx)
  head s =
      if s.dump_num == 0
      then (
        record s { config = record (s.config) { is_dumping = false } },
        s.quitting,
        (if s.quitting then send_all s.config.num_miners quit ∷ [] else []),
      )
      else (s, false, [])

  -- One packet of the mine; at its end the jobs are given out.
  load_mine : Config Ctx → Option (Config Ctx × List (Output Ctx))
  unfolding load_round assign_jobs
  load_mine c = load_round m c >>= λ c'.
      if not c.is_done && c'.is_done
      then (assign_jobs m begin c' >>= λ jobs. some (record c' { mine_ptr = 0 }, send jobs ∷ []))
      else some (c', [])

  -- The state at the end of a round.
  proceed :
      Server Ctx
      → Served Ctx
      → List (Output Ctx)
      → Config Ctx × List (Output Ctx)
      → Option (Next Ctx)
  proceed s d before r = some (
      on (record s { config = r.0; dump_num = s.dump_num - d.ended; dumps = d.dumps })
        (before ++ (d.outputs ++ r.1)))

  -- The miners are read unless the boss is about to quit.
  read_miners : Server Ctx → List (Treasure Ctx) → Option (Config Ctx × List (Output Ctx))
  unfolding serve_treasures
  read_miners s treasures =
      if s.quitting then some (s.config, []) else serve_treasures s.config treasures

  -- The rest of the round, from the dumps on.
  finish : Server Ctx → (ℕ → Bool) → List (Treasure Ctx) → List (Output Ctx) → Option (Next Ctx)
  unfolding serve_dumps read_miners proceed
  finish s ready treasures before =
      read_miners s treasures >>= proceed s (serve_dumps s.config ready s.dumps) before

  exits : List (Effect Ctx) → Bool
  exits [] = false
  exits (exit ∷ es) = true
  exits (_ ∷ es) = exits es

  new_dump : Server Ctx → ℕ → Server Ctx
  new_dump s fd = record s {
    dump_num = s.dump_num + 1;
    dumps = s.dumps ++ record { size = s.config.size; ptr = 0; fd = fd } ∷ [];
  }

  -- What follows a command, by its flag.
  obey :
      Server Ctx → (ℕ → Bool) → List (Treasure Ctx) → List (Output Ctx) → Flag → Option (Next Ctx)
  unfolding finish new_dump
  obey s ready treasures before leaves =
      let s' = record s { quitting = true } in
      if s.dump_num == 0 then some (stopped s' before) else finish s' ready treasures before
  obey s ready treasures before (opened fd) = finish (new_dump s fd) ready treasures before
  obey s ready treasures before _ = finish s ready treasures before

  obey_reply :
      Server Ctx
      → (ℕ → Bool)
      → List (Treasure Ctx)
      → List (Output Ctx)
      → Reply Ctx
      → Option (Next Ctx)
  unfolding obey exits
  obey_reply s ready treasures before r =
      let outputs = before ++ map effect r.effects in
      if exits r.effects
      then some (exited outputs)
      else obey (record s { config = r.config }) ready treasures outputs r.flag

  command :
      Server Ctx → (ℕ → Bool) → List (Treasure Ctx) → List (Output Ctx) → Bytes → Option (Next Ctx)
  unfolding obey_reply handle_command
  command s ready treasures before line =
      handle_command m files s.config s.quitting line >>= obey_reply s ready treasures before

  -- The input, if select() reports one.
  react :
      Server Ctx
      → (ℕ → Bool)
      → List (Treasure Ctx)
      → List (Output Ctx)
      → Option Bytes
      → Option (Next Ctx)
  unfolding command
  react s ready treasures before none = finish s ready treasures before
  react s ready treasures before (some line) = command s ready treasures before line

  after_loading :
      Server Ctx
      → Event Ctx
      → List (Output Ctx)
      → Config Ctx × List (Output Ctx)
      → Option (Next Ctx)
  unfolding react
  after_loading s e before l =
      react (record s { config = l.0 }) (λ fd. watched s.dumps fd && e.writable fd) e.treasures
        (before ++ l.1) e.stdin

  -- A round that does not leave the loop at its head.
  serve : Server Ctx → Event Ctx → List (Output Ctx) → Option (Next Ctx)
  unfolding load_mine after_loading
  serve s e before = load_mine s.config >>= after_loading s e before

  -- One round of `while (1)`.
  unfoldable pub round : Server Ctx → Event Ctx → Option (Next Ctx)
  unfolding head serve
  round s e = let (h, leave, out) = head s in if leave then some (stopped h out) else serve h e out
