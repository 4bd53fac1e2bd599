-- ===== src/Hunt/Protocol.antt =====
-- What goes through the named pipes: MP3/server/boss.cpp writes a mode, then the fields of the mode;
-- MP3/client/miner.cpp answers with a treasure.
use sp.Base.{ℕ, Bytes}

-- Boss to miner. The context type is the one of the MD5 interface.
pub data Message (Ctx : Type 0) : Type 0 where
  hello : Message Ctx
  start : Ctx → ℕ → ℕ → ℕ → Message Ctx
  status : Message Ctx
  found : Ctx → ℕ → Bytes → Bytes → Message Ctx
  quit : Message Ctx
  leave : Message Ctx

-- Miner to boss.
pub record Treasure (Ctx : Type 0) : Type 0 where
  pub ctx : Ctx
  pub n_treasure : ℕ
  pub name : Bytes
  pub append : Bytes
  pub hash : Bytes
