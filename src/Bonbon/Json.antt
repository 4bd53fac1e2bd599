-- ===== src/Bonbon/Json.antt =====
-- What MP4/inf-bonbon-server.cpp calls of the JSON library, which is a parameter. `none` is an
-- exception, which nothing catches.
use sp.Base.{ℕ, Option, Bytes}

pub record JsonLib : Type 1 where
  pub Json : Type 0
  pub null : Json
  pub parse : Bytes → Option Json
  pub get_string : Json → Bytes → Option Bytes
  pub get_number : Json → Bytes → Option ℕ
  pub put_string : Json → Bytes → Bytes → Json
  pub dump : Json → Bytes
