-- ===== src/Hunt/Miner/Rank.antt =====
-- `mining` is the successor in the order by length and then by the bytes, first byte first.
use mathlib.Core.List.{reverse-reverse, reverse-cons}
use sp.Base.{
  ℕ, zero, suc, ◌+◌, ◌*◌, ◌<◌, ◌≡◌, refl, sym, ap, subst, ◌∙◌, some, [], ◌∷◌, ◌++◌, reverse,
  append-nil, append_assoc, arith, Bytes, ◌==◌, Bool-cases, Option-cases, inl, inr, ==_iff, length,
  get_elem?, set, replicate, All, All-append, Snoc, get_elem?-at,
}
use sp.Hunt.Miner.{mining}

-- The place of a text in that order: numerals of base 256 with the digits 1 to 256.
unfoldable pub rank_from : ℕ → Bytes → ℕ
rank_from acc [] = acc
rank_from acc (b ∷ bs) = rank_from (256 * acc + b + 1) bs

unfoldable pub rank : Bytes → ℕ
unfolding rank_from
rank = rank_from 0

pub rank_from-append :
    (acc : ℕ) (xs ys : Bytes) → rank_from acc (xs ++ ys) ≡ rank_from (rank_from acc xs) ys
unfolding rank_from
rank_from-append acc [] ys = refl
rank_from-append acc (x ∷ xs) ys = rank_from-append (256 * acc + x + 1) xs ys

-- All digits at their least after a carry, or all at their greatest before it.
rank_from-carry :
    (acc k : ℕ) → rank_from (acc + 1) (replicate k 0) ≡ rank_from acc (replicate k 255) + 1
unfolding rank_from
rank_from-carry acc zero = refl
rank_from-carry acc (suc k) =
    ap (λ n. rank_from n (replicate k 0)) (omega arith) ∙ rank_from-carry (256 * acc + 255 + 1) k

pub rank-snoc : (xs : Bytes) (b : ℕ) → rank (xs ++ b ∷ []) ≡ 256 * rank xs + b + 1
unfolding rank rank_from
rank-snoc xs b = rank_from-append 0 xs (b ∷ [])

set-end : (ys : Bytes) (b c : ℕ) (zs : Bytes) → set (ys ++ b ∷ zs) (length ys) c ≡ ys ++ c ∷ zs
set-end [] b c zs = refl
set-end (y ∷ ys) b c zs = ap (◌∷◌ y) (set-end ys b c zs)

replicate-snoc : (k b : ℕ) → replicate k b ++ b ∷ [] ≡ replicate (suc k) b
replicate-snoc zero b = refl
replicate-snoc (suc k) b = ap (◌∷◌ b) (replicate-snoc k b)

set-zeros : (k : ℕ) → 0 ∷ set (replicate k 0) 0 0 ≡ replicate {A = ℕ} (suc k) 0
set-zeros zero = refl
set-zeros (suc k) = refl

-- One place: a 255 carries on to the left, any other byte is raised.
rank-mining_place :
    (k b : ℕ) (ys : Bytes)
    → rank (mining (length ys) (ys ++ replicate (suc k) 0))
      ≡ rank_from (rank ys) (replicate (suc k) 255) + 1
    → rank (mining (suc (length ys)) (ys ++ b ∷ replicate k 0))
      ≡ rank_from (256 * rank ys + b + 1) (replicate k 255) + 1
unfolding mining rank rank_from
rank-mining_place k b ys carried =
    rw (get_elem?-at ys b (replicate k 0), mining)
      (rw (set-end ys b 0 (replicate k 0)) (
        rw (set-end ys b (b + 1) (replicate k 0)) (elim (Bool-cases (b == 255)) [
          | inl e ↦ rw e (
              carried
              ∙ ap (λ x. rank_from (256 * rank ys + x + 1) (replicate k 255) + 1)
                  (omega (arith, (==_iff b 255).0 e)))
          | inr e ↦ rw e (
              rank_from-append 0 ys _
              ∙ (ap (λ x. rank_from x (replicate k 0)) (omega arith)
                  ∙ rank_from-carry (256 * rank ys + b + 1) k))
        ])))

-- The carry runs through the last places, which are 0 by then.
rank-mining_carry :
    (n k : ℕ) (xs : Bytes)
    → length xs ≡ n
    → rank (mining n (xs ++ replicate k 0)) ≡ rank_from (rank xs) (replicate k 255) + 1
unfolding mining rank rank_from
rank-mining_carry zero k [] h = ap rank (set-zeros k) ∙ rank_from-carry 0 k
rank-mining_carry zero k (x ∷ xs) h = absurd (omega arith)
rank-mining_carry (suc n) k xs h =
    let (ys, b, e, l) = Snoc n xs h in
    let ih = rank-mining_carry n (suc k) ys l in
    rw (e, append_assoc)
      (subst
        (λ m.
          rank (mining (suc m) (ys ++ b ∷ replicate k 0))
          ≡ rank_from (rank (ys ++ b ∷ [])) (replicate k 255) + 1)
        l
        (rank-mining_place k b ys (rw l ih)
          ∙ ap (λ x. rank_from x (replicate k 255) + 1) (sym (rank_from-append 0 ys _))))

-- `mining` takes every text to the next one in the order: none is skipped and none repeated.
pub rank-mining : (mine : Bytes) → rank (mining (length mine) mine) ≡ rank mine + 1
unfolding rank_from
rank-mining mine = rw (append-nil mine) at (rank-mining_carry (length mine) 0 mine refl)

-- Different texts have different places.
rank_of_reversed : Bytes → ℕ
rank_of_reversed [] = 0
rank_of_reversed (b ∷ bs) = 256 * rank_of_reversed bs + b + 1

rank_from_reversed :
    (xs r : Bytes) → rank_from (rank_of_reversed r) xs ≡ rank_of_reversed (reverse xs ++ r)
unfolding rank_from rank_of_reversed
rank_from_reversed [] r = refl
rank_from_reversed (x ∷ xs) r = rank_from_reversed xs (x ∷ r) ∙ rw (reverse-cons x xs, append_assoc)

rank_of_reversed-injective :
    (xs ys : Bytes)
    → All (λ b. b < 256) xs
    → All (λ b. b < 256) ys
    → rank_of_reversed xs ≡ rank_of_reversed ys
    → xs ≡ ys
unfolding rank_of_reversed
rank_of_reversed-injective [] [] h k e = refl
rank_of_reversed-injective [] (y ∷ ys) h k e = absurd (omega arith)
rank_of_reversed-injective (x ∷ xs) [] h k e = absurd (omega arith)
rank_of_reversed-injective (x ∷ xs) (y ∷ ys) h k e =
    let heads : x ≡ y = omega arith in
    let tails = rank_of_reversed-injective xs ys h.1 k.1 (omega arith) in cc

abbrev pub IsBytes : Bytes → Type 0
IsBytes = All (λ b. b < 256)

reverse-IsBytes : (xs : Bytes) → IsBytes xs → IsBytes (reverse xs)
reverse-IsBytes [] h = tt
reverse-IsBytes (x ∷ xs) h =
    rw (reverse-cons x xs)
      (All-append (λ b. b < 256) (reverse xs) (x ∷ []) (reverse-IsBytes xs h.1) (h.0, tt))

pub rank-injective : (xs ys : Bytes) → IsBytes xs → IsBytes ys → rank xs ≡ rank ys → xs ≡ ys
unfolding rank rank_of_reversed
rank-injective xs ys h k e = sym (reverse-reverse xs) ∙ ap reverse same ∙ reverse-reverse ys
  where
    place : (zs : Bytes) → rank zs ≡ rank_of_reversed (reverse zs)
    place zs = rank_from_reversed zs [] ∙ rw (append-nil (reverse zs))

    same : reverse xs ≡ reverse ys
    same =
        rank_of_reversed-injective _ _ (reverse-IsBytes xs h) (reverse-IsBytes ys k)
          (sym (place xs) ∙ e ∙ place ys)

set-IsBytes : (xs : Bytes) (i v : ℕ) → v < 256 → IsBytes xs → IsBytes (set xs i v)
set-IsBytes [] i v l h = tt
set-IsBytes (x ∷ xs) zero v l h = (l, h.1)
set-IsBytes (x ∷ xs) (suc i) v l h = (h.0, set-IsBytes xs i v l h.1)

get_elem?-IsBytes : (xs : Bytes) (i b : ℕ) → IsBytes xs → get_elem? xs i ≡ some b → b < 256
get_elem?-IsBytes [] i b h e = cc
get_elem?-IsBytes (x ∷ xs) zero b h e = ground arith
get_elem?-IsBytes (x ∷ xs) (suc i) b h e = get_elem?-IsBytes xs i b h.1 e

pub mining-IsBytes : (ptr : ℕ) (mine : Bytes) → IsBytes mine → IsBytes (mining ptr mine)
unfolding mining
mining-IsBytes zero mine h = (omega arith, set-IsBytes mine 0 0 (omega arith) h)
mining-IsBytes (suc ptr) mine h = elim (Option-cases (get_elem? mine ptr)) [
  | inl e ↦ rw (e, mining) h
  | inr f ↦
      let (b, e) = f in
      rw (e, mining)
        (elim (Bool-cases (b == 255)) [
          | inl full ↦ rw full (mining-IsBytes ptr _ (set-IsBytes mine ptr 0 (omega arith) h))
          | inr more ↦
              rw more
                (set-IsBytes mine ptr (b + 1) (ground (arith, get_elem?-IsBytes mine ptr b h e)) h)
        ])
]

-- The prefixes in the order in which a miner comes to them.
pub nth_mine : ℕ → Bytes
nth_mine zero = []
nth_mine (suc n) = let mine = nth_mine n in mining (length mine) mine

nth_mine-rank : (n : ℕ) → (rank (nth_mine n) ≡ n) × IsBytes (nth_mine n)
unfolding nth_mine rank rank_from
nth_mine-rank zero = (refl, tt)
nth_mine-rank (suc n) = (
  omega (arith, rank-mining (nth_mine n), (nth_mine-rank n).0),
  mining-IsBytes _ (nth_mine n) (nth_mine-rank n).1,
)

-- Every text of bytes is reached, and its place says after how many steps.
pub nth_mine-onto : (text : Bytes) → IsBytes text → nth_mine (rank text) ≡ text
nth_mine-onto text h =
    rank-injective _ text (nth_mine-rank (rank text)).1 h (nth_mine-rank (rank text)).0
