-- ===== src/Tests/Hunt.antt =====
-- The treasure hunt with a small digest: the context is the text so far, and its length the first of
-- the 16 bytes of the digest.
use sp.Base.{
  ◌>>=◌, ℕ, zero, suc, ◌+◌, ◌%◌, ◌<◌, ◌≡◌, refl, ◌⊎◌, true, false, none, some, List, [], ◌∷◌, ◌++◌,
  append_assoc, append-nil, arith, Bytes, codes, newline, length, replicate, All,
}
use sp.Hunt.Md5.{Md5, IsMd5}
use sp.Hunt.Digest.{hex, leading_zeros}
use sp.Hunt.Protocol.{Treasure, quit}
use sp.Hunt.Miner.{
  Mine, other_wins, mining, initialize_mine, clear_mine, candidate, hash_candidate, judge,
  has_zeros, advance, try_one, receive,
}
use sp.Hunt.Miner.Rank.{rank, nth_mine, nth_mine-onto}
use sp.Hunt.Miner.Search.{IsHonest, digest_text, try_one-reports}
use sp.Hunt.Miner.Order.{IsWhole}
use sp.Hunt.Miner.Lost.{rounds, Silent, found-candidate}
use sp.Hunt.Boss.State.{PipePair, Config, initialize_config, load_mine_data}
use sp.Hunt.Boss.Configure.{load_config_file, config_text, load_config_file-config_text}
use sp.Hunt.Boss.Loading.{load, IsLoaded, load-IsLoaded}
use sp.Hunt.Boss.Jobs.{begin, jobs, assign_jobs, times_covered, assign_jobs-covered}
use sp.Hunt.Boss.Treasures.{handle_treasure, IsConsistent, handle_treasure-honest}
use sp.Hunt.Boss.Commands.{Files, to_all, Reply, dump_command}
use sp.Hunt.Boss.Serve.{Server, Event, Output, effect, on, live, round}
use sp.Hunt.Boss.Serve.Quitting.{Ends, round-Ends}

abbrev small : Md5
small = record {
  Ctx = Bytes;
  init = [];
  update = λ c xs. c ++ xs;
  final = λ c. (length c % 256) ∷ replicate 15 17;
}

replicate_small : (k : ℕ) → All (λ b. b < 256) (replicate k 17)
replicate_small zero = tt
replicate_small (suc k) = (ground arith, replicate_small k)

small-IsMd5 : IsMd5 small
small-IsMd5 = record {
  update-update = λ c xs ys. append_assoc c xs ys;
  update-nil = λ c. append-nil c;
  length-final = λ c. refl;
  final-bytes = λ c. (grind arith, replicate_small 15);
}

abbrev no_hash : Bytes
no_hash = codes "f"

nth_mine-onto_example : nth_mine (rank (1 ∷ 0 ∷ [])) ≡ 1 ∷ 0 ∷ []
nth_mine-onto_example = nth_mine-onto (1 ∷ 0 ∷ []) (ground arith, (ground arith, tt))

-- A miner at work on the text 'T' from 'a' on, with no zero found yet.
abbrev at_work : Mine Bytes
at_work = record (initialize_mine small (codes "ann")) {
  start = 0;
  start_tmp = 97;
  end = 255;
  n_treasure = 0;
  work = true;
  md_context = codes "T";
}

-- The same with one zero found already, so that the small digest never has the next one.
abbrev in_vain : Mine Bytes
in_vain = record at_work { n_treasure = 1 }

try_one-reports_example :
    ((t : Treasure Bytes) × ((try_one small at_work).1 ≡ some t)
      × IsHonest small at_work.md_context at_work.n_treasure t
      × (t.append ≡ candidate small (advance small at_work))
      × ((try_one small at_work).0.work ≡ false)
      × (leading_zeros (digest_text small at_work) ≡ at_work.n_treasure + 1))
    ⊎ (((try_one small at_work).1 ≡ none)
        × ((try_one small at_work).0.work ≡ at_work.work)
        × ((try_one small at_work).0.md_context ≡ at_work.md_context)
        × ((try_one small at_work).0.n_treasure ≡ at_work.n_treasure)
        × (¬ (leading_zeros (digest_text small at_work) ≡ at_work.n_treasure + 1)))
try_one-reports_example = try_one-reports small at_work

in_vain-IsWhole : IsWhole small in_vain
in_vain-IsWhole = record { from = refl; to = refl; within = ground arith }

in_vain-silent : (try_one small in_vain).1 ≡ none
unfolding try_one advance hash_candidate judge has_zeros hex initialize_mine
in_vain-silent = refl

-- The same with the bytes from 10 on, and once bob has found the second zero.
abbrev ranged : Mine Bytes
ranged = record in_vain { start = 10; start_tmp = 20 }

abbrev after_news : Mine Bytes
after_news = record (clear_mine small ranged) {
  work = true;
  md_context = codes "Tx";
  n_treasure = 1;
  win_name = codes "bob";
  mine_hash = codes "0";
}

after_news-Silent : Silent small 2 after_news
unfolding try_one advance hash_candidate judge has_zeros hex clear_mine mining initialize_mine
after_news-Silent = (refl, (refl, tt))

found-candidate_example :
    (prefix : Bytes) × (candidate small (advance small (rounds small 2 after_news))
      ≡ prefix ++ (ranged.start % 256) ∷ [])
unfolding receive clear_mine initialize_mine
found-candidate_example =
    found-candidate small ranged after_news (other_wins (codes "bob") 1 (codes "0") ∷ [])
      (codes "Tx") 1 1 (codes "bob") (codes "0") refl after_news-Silent

abbrev two_pipes : List PipePair
two_pipes =
    record { input_pipe = codes "a_in"; output_pipe = codes "a_out" }
    ∷ record { input_pipe = codes "b_in"; output_pipe = codes "b_out" }
    ∷ []

abbrev fresh : Config Bytes
fresh = initialize_config small

load_config_file-config_text_example :
    load_config_file small fresh (config_text (codes "m") two_pipes)
    ≡ some (record fresh { mine_file = codes "m"; pipes = two_pipes; num_miners = 2 })
load_config_file-config_text_example =
    load_config_file-config_text small fresh (codes "m") two_pipes (ground arith) (ground arith)
      (
        record {
          input_space = ground arith;
          output_newline = ground arith;
          input_end = ground arith;
          output_end = ground arith;
          input_fits = ground arith;
          output_fits = ground arith;
        },
        (
          record {
            input_space = ground arith;
            output_newline = ground arith;
            input_end = ground arith;
            output_end = ground arith;
            input_fits = ground arith;
            output_fits = ground arith;
          },
          tt,
        ),
      )
      (ground arith)

load-IsLoaded_example :
    (d : Config Bytes) × ((load_mine_data small fresh (codes "Tr") >>= load small 3) ≡ some d)
    × IsLoaded small (codes "Tr") d
unfolding initialize_config
load-IsLoaded_example =
    load-IsLoaded small small-IsMd5 (codes "Tr") 3 fresh (ground arith) refl refl refl
      (ground arith)

abbrev with_miners : ℕ → Config Bytes
with_miners k = record fresh { num_miners = k }

-- 256 / 3 is 85, so that the last byte is given to none of three miners.
three_jobs :
    assign_jobs small begin (with_miners 3) ≡ some (jobs small begin (with_miners 3) 84 0 3)
unfolding assign_jobs initialize_config
three_jobs = refl

assign_jobs-covered_example : times_covered small 255 (jobs small begin (with_miners 3) 84 0 3) ≡ 0
unfolding initialize_config
assign_jobs-covered_example =
    assign_jobs-covered small (with_miners 3) 255 (jobs small begin (with_miners 3) 84 0 3)
      (ground arith) three_jobs

abbrev hunted : Config Bytes
hunted = record fresh { treasure = codes "Tr"; size = 2; md_context = codes "Tr"; is_done = true }

abbrev first_treasure : Treasure Bytes
first_treasure = record {
  ctx = codes "Tra";
  n_treasure = 1;
  name = codes "ann";
  append = codes "a";
  hash = hex (small.final (codes "Tra"));
}

first_treasure-IsHonest : IsHonest small hunted.md_context hunted.n_treasure first_treasure
unfolding initialize_config hex leading_zeros
first_treasure-IsHonest = record { continued = refl; hashed = refl; counted = refl; zeros = refl }

handle_treasure-honest_example :
    (d : Config Bytes) × (handle_treasure small hunted first_treasure ≡ some (d, true))
    × IsConsistent small d
    × (d.n_treasure ≡ hunted.n_treasure + 1)
    × (d.append ≡ hunted.append ++ first_treasure.append)
    × (d.win_name ≡ first_treasure.name)
unfolding initialize_config
handle_treasure-honest_example =
    handle_treasure-honest small small-IsMd5 hunted first_treasure refl first_treasure-IsHonest
      (ground arith) (ground arith)

-- A second first treasure is out of date.
abbrev won : Config Bytes
won = record hunted { n_treasure = 1 }

stale : handle_treasure small won first_treasure ≡ some (won, false)
unfolding handle_treasure initialize_config
stale = refl

-- A descriptor 7 for each path, and no fifo.
abbrev seven : Files
seven = record { is_fifo = λ path. false; open_write = λ path. some 7 }

abbrev dump_line : Bytes
dump_line = codes "dump out" ++ newline ∷ []

abbrev dumping : Reply Bytes
dumping = dump_command small seven hunted (codes "out")

abbrev found_one : Config Bytes
found_one = record hunted { append = codes "a" }

-- A quit while a dump waits for its file.
abbrev busy : Server Bytes
busy = record {
  config = hunted;
  quitting = false;
  dump_num = 1;
  dumps = record { size = 2; ptr = 0; fd = 7 } ∷ [];
}

abbrev quit_event : Event Bytes
quit_event = record {
  stdin = some (codes "quit" ++ newline ∷ []);
  writable = λ fd. false;
  treasures = [];
}

abbrev waiting : Server Bytes
waiting = record busy { quitting = true }

abbrev told : List (Output Bytes)
told = effect (to_all 0 quit) ∷ []

quit_round : round small seven busy quit_event ≡ some (on waiting told)
unfolding round initialize_config
quit_round = refl

round-Ends_example : Ends small seven (on waiting told)
unfolding live
round-Ends_example = round-Ends small seven busy quit_event (on waiting told) refl quit_round
