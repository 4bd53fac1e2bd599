-- ===== src/Hunt/Md5.antt =====
-- <openssl/md5.h>, which both programs call and the repository does not hold: a context type with
-- MD5_Init, MD5_Update and MD5_Final. Contexts are copied by memcpy, so they are plain values.
use sp.Base.{◌<◌, ◌≡◌, ◌++◌, [], Bytes, length, All}

pub record Md5 : Type 1 where
  pub Ctx : Type 0
  pub init : Ctx
  pub update : Ctx → Bytes → Ctx
  pub final : Ctx → Bytes

-- What the callers rely on: hashing in chunks is hashing the concatenation, and a digest is 16 bytes.
pub record IsMd5 (m : Md5) : Type 0 where
  pub update-update :
      (c : m.Ctx) (xs ys : Bytes) → m.update (m.update c xs) ys ≡ m.update c (xs ++ ys)
  pub update-nil : (c : m.Ctx) → m.update c [] ≡ c
  pub length-final : (c : m.Ctx) → length (m.final c) ≡ 16
  pub final-bytes : (c : m.Ctx) → All (λ b. b < 256) (m.final c)
