-- ===== src/Bonbon/Server/Paired.antt =====
-- Partners as a table, and its changes.
use sp.Base.{ℕ, ◌≡◌, ◌≢◌, Bool, true, false, arith}
use sp.Bonbon.Protocol.{put}

-- Partners point to each other, 0 has none, and whoever has a partner is not waiting for one.
pub record Paired (is_done : ℕ → Bool) (pair : ℕ → ℕ) : Type 0 where
  pub zero_alone : pair 0 ≡ 0
  pub mutual_pair : (fd : ℕ) → pair fd ≢ 0 → pair (pair fd) ≡ fd
  pub busy : (fd : ℕ) → pair fd ≢ 0 → is_done fd ≡ true

pub Paired-join :
    (is_done : ℕ → Bool) (pair : ℕ → ℕ) (a b : ℕ)
    → a ≢ b
    → a ≢ 0
    → b ≢ 0
    → is_done a ≡ false
    → is_done b ≡ false
    → Paired is_done pair
    → Paired (put (put is_done a true) b true) (put (put pair a b) b a)
Paired-join is_done pair a b n n' n'' d d' p = record {
  zero_alone = ground (arith, p.zero_alone);
  mutual_pair =
      λ fd h. ground (arith, p.mutual_pair fd, p.zero_alone, p.busy a, p.busy b, p.mutual_pair a);
  busy = λ fd h. ground (arith, p.busy fd);
}

pub Paired-part :
    (is_done : ℕ → Bool) (pair : ℕ → ℕ) (fd : ℕ)
    → pair fd ≢ 0
    → Paired is_done pair
    → Paired is_done (put (put pair (pair fd) 0) fd 0)
Paired-part is_done pair fd n p = record {
  zero_alone = ground (arith, p.zero_alone);
  mutual_pair = λ x h. ground (arith, p.mutual_pair x, p.mutual_pair fd, p.zero_alone);
  busy = λ x h. ground (arith, p.busy x);
}

pub Paired-forget :
    (is_done : ℕ → Bool) (pair : ℕ → ℕ) (a b : ℕ)
    → Paired is_done pair
    → Paired (put (put is_done a true) b true) pair
Paired-forget is_done pair a b p = record {
  zero_alone = p.zero_alone;
  mutual_pair = p.mutual_pair;
  busy = λ fd h. ground (arith, p.busy fd h);
}

pub Paired-wait :
    (is_done : ℕ → Bool) (pair : ℕ → ℕ) (fd : ℕ)
    → pair fd ≡ 0
    → Paired is_done pair
    → Paired (put is_done fd false) pair
Paired-wait is_done pair fd e p = record {
  zero_alone = p.zero_alone;
  mutual_pair = p.mutual_pair;
  busy = λ x h. ground (arith, p.busy x h);
}
