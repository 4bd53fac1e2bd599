-- ===== src/Hunt/Boss/State.antt =====
-- `struct server_config` of MP3/server/boss.h and its first values. `append` holds its first
-- `append_size` bytes, `pipes` its first `num_miners` entries.
use sp.Base.{ℕ, Bool, false, Option, some, none, List, [], Bytes, length, ltb, if◌then◌else◌}
use sp.Hunt.Md5.{Md5}

pub record PipePair : Type 0 where
  pub input_pipe : Bytes
  pub output_pipe : Bytes

pub record Config (Ctx : Type 0) : Type 0 where
  pub win_name : Bytes
  pub n_treasure : ℕ
  pub treasure : Bytes
  pub size : ℕ
  pub hash : Bytes
  pub mine_file : Bytes
  pub pipes : List PipePair
  pub num_miners : ℕ
  pub append : Bytes
  pub n_treasure_tmp : ℕ
  pub mine_ptr : ℕ
  pub is_done : Bool
  pub md_context : Ctx
  pub is_dumping : Bool

module _ (m : Md5) where
  open m use {Ctx, init}

  unfoldable pub initialize_config : Config Ctx
  initialize_config = record {
    win_name = [];
    n_treasure = 0;
    treasure = [];
    size = 0;
    hash = [];
    mine_file = [];
    pipes = [];
    num_miners = 0;
    append = [];
    n_treasure_tmp = 0;
    mine_ptr = 0;
    is_done = false;
    md_context = init;
    is_dumping = false;
  }

  -- `load_mine_data`: the file is mapped into memory. `none`: its size is not that of an `int`.
  unfoldable pub load_mine_data : Config Ctx → Bytes → Option (Config Ctx)
  load_mine_data config content =
      if ltb (length content) 2147483648
      then some (record config { treasure = content; size = length content })
      else none
