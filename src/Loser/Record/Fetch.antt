-- ===== src/Loser/Record/Fetch.antt =====
-- Reading back a record that commits have written.
use sp.Base.{
  ℕ, zero, suc, ◌+◌, ◌-◌, ◌<◌, ◌≡◌, ◌≢◌, refl, sym, ap, subst, ◌∙◌, false, some, List, [], ◌∷◌,
  ◌++◌, append-nil, append_assoc, arith, Bytes, newline, Free, ◌==◌, length, length-append,
  get_elem?, get_elem?-at, Snoc,
}
use sp.Loser.Record.{
  seek_back, fetch_commit, added, fetch_loop, fetch_record, record_text, AreCommits, newest,
}

-- A read of the mark ends the commit.
fetch_commit-mark :
    (fuel cmp pos : ℕ) (file commit : Bytes)
    → get_elem? file pos ≡ some cmp
    → fetch_commit (suc fuel) file cmp pos commit ≡ some (pos - 2, some (cmp ∷ commit))
unfolding fetch_commit
fetch_commit-mark fuel cmp pos file commit e = rw (e, fetch_commit) (ground arith)

-- A read of any other byte goes on with the byte before it.
fetch_commit-other :
    (fuel cmp pos b : ℕ) (file commit : Bytes)
    → get_elem? file pos ≡ some b
    → b ≢ cmp
    → 0 < pos
    → fetch_commit (suc fuel) file cmp pos commit
      ≡ fetch_commit fuel file cmp (pos - 1) (b ∷ commit)
unfolding fetch_commit seek_back
fetch_commit-other fuel cmp pos b file commit e h l =
    let back : seek_back 2 (pos + 1) ≡ pos - 1 = ground arith in
    rw (e, fetch_commit) (rw back (ground arith))

Free-snoc : (c : ℕ) (xs : Bytes) (b : ℕ) → Free c (xs ++ b ∷ []) → Free c xs × (b ≢ c)
Free-snoc c [] b h = (tt, h.0)
Free-snoc c (x ∷ xs) b h = let r = Free-snoc c xs b h.1 in ((h.0, r.0), r.1)

fetch_commit_lem :
    (n : ℕ) (xs : Bytes) (fuel cmp : ℕ) (before ys commit : Bytes)
    → length xs ≡ n
    → n < fuel
    → Free cmp xs
    → fetch_commit fuel (before ++ cmp ∷ (xs ++ ys)) cmp (length before + n) commit
      ≡ some (length before - 2, some (cmp ∷ (xs ++ commit)))
fetch_commit_lem n xs zero cmp before ys commit l f h = absurd (omega arith)
fetch_commit_lem zero [] (suc fuel) cmp before ys commit l f h =
    let e : length before + 0 ≡ length before = omega arith in
    rw e (fetch_commit-mark fuel cmp (length before) _ commit (get_elem?-at before cmp ys))
fetch_commit_lem zero (x ∷ xs) (suc fuel) cmp before ys commit l f h = absurd (omega arith)
fetch_commit_lem (suc n) xs (suc fuel) cmp before ys commit l f h =
    let (zs, b, e, k) = Snoc n xs l in
    let free = Free-snoc cmp zs b (subst (Free cmp) e h) in
    let same : before ++ cmp ∷ (xs ++ ys) ≡ (before ++ cmp ∷ zs) ++ b ∷ ys =
      rw (e, append_assoc before (cmp ∷ zs) (b ∷ ys), append_assoc zs) in
    let here : length before + suc n ≡ length (before ++ cmp ∷ zs) =
      omega (arith, length-append before (cmp ∷ zs)) in
    let next : length before + suc n - 1 ≡ length before + n = omega arith in
    let read : get_elem? (before ++ cmp ∷ (xs ++ ys)) (length before + suc n) ≡ some b =
      rw (same, here) (get_elem?-at (before ++ cmp ∷ zs) b ys) in
    fetch_commit-other fuel cmp _ b _ commit read free.1 (omega arith)
    ∙ ap (λ p. fetch_commit fuel (before ++ cmp ∷ (xs ++ ys)) cmp p (b ∷ commit)) next
    ∙ ap (λ s. fetch_commit fuel (before ++ cmp ∷ s) cmp (length before + n) (b ∷ commit))
        (rw (e, append_assoc zs))
    ∙ fetch_commit_lem n zs fuel cmp before (b ∷ ys) (b ∷ commit) k (omega arith) free.0
    ∙ ap (λ s. some (length before - 2, some (cmp ∷ s))) (rw (e, append_assoc zs))

-- What stands before the newest commit.
abbrev earlier : List Bytes → Bytes
earlier [] = []
earlier (d ∷ cs) = record_text (d ∷ cs) ++ newline ∷ []

record_text-cons : (c : Bytes) (cs : List Bytes) → record_text (c ∷ cs) ≡ earlier cs ++ c
unfolding record_text
record_text-cons c [] = refl
record_text-cons c (d ∷ cs) = sym (append_assoc (record_text (d ∷ cs)) (newline ∷ []) c)

-- Behind the earlier commits there may be anything.
earlier_split :
    (cs : List Bytes) (rest : Bytes)
    → (tail : Bytes) × (earlier cs ++ rest ≡ record_text cs ++ tail)
      × (length (earlier cs) - 2 ≡ length (record_text cs) - 1)
unfolding record_text
earlier_split [] rest = (rest, refl, refl)
earlier_split (d ∷ cs) rest = (
  newline ∷ rest,
  append_assoc (record_text (d ∷ cs)) (newline ∷ []) rest,
  omega (arith, length-append (record_text (d ∷ cs)) (newline ∷ [])),
)

fetch_loop-zero :
    (fuel cmp i pos : ℕ) (file out : Bytes) → fetch_loop fuel file cmp zero i pos out ≡ some out
unfolding fetch_loop
fetch_loop-zero fuel cmp i pos file out = refl

record_text-nil : length (record_text []) - 1 ≡ 0
unfolding record_text
record_text-nil = refl

fetch_loop-stop :
    (fuel cmp number i pos : ℕ) (file out : Bytes)
    → pos ≡ 0
    → fetch_loop fuel file cmp (suc number) i pos out ≡ some out
unfolding fetch_loop
fetch_loop-stop fuel cmp number i pos file out h = rw h

fetch_loop-next :
    (fuel cmp number i pos pos' : ℕ) (file out commit : Bytes)
    → 0 < pos
    → fetch_commit fuel file cmp pos [] ≡ some (pos', some commit)
    → fetch_loop fuel file cmp (suc number) i pos out
      ≡ fetch_loop fuel file cmp number (i + 1) pos' (out ++ added i (some commit))
unfolding fetch_loop
fetch_loop-next fuel cmp number i pos pos' file out commit h e =
    let more : (pos == 0) ≡ false = ground arith in rw (more, fetch_loop) (rw (e, fetch_loop))

fetch_loop_lem :
    (number : ℕ) (cs : List Bytes) (i cmp fuel pos : ℕ) (file tail out : Bytes)
    → AreCommits cmp cs
    → file ≡ record_text cs ++ tail
    → length file < fuel
    → pos ≡ length (record_text cs) - 1
    → fetch_loop fuel file cmp number i pos out ≡ some (out ++ newest i number cs)
unfolding newest
fetch_loop_lem zero cs i cmp fuel pos file tail out h e f p =
    fetch_loop-zero fuel cmp i pos file out ∙ ap some (sym (append-nil out))
fetch_loop_lem (suc number) [] i cmp fuel pos file tail out h e f p =
    fetch_loop-stop fuel cmp number i pos file out (p ∙ record_text-nil)
    ∙ ap some (sym (append-nil out))
fetch_loop_lem (suc number) (c ∷ cs) i cmp fuel pos file tail out h e f p =
    let (body, starts, free, some_bytes) = h.0 in
    let before = earlier cs in
    let whole : file ≡ before ++ cmp ∷ (body ++ tail) =
      rw (e, record_text-cons c cs, starts) (append_assoc before (cmp ∷ body) tail) in
    let place : pos ≡ length before + length body =
      omega (arith, ap length (record_text-cons c cs), length-append before c, ap length starts) in
    let enough : length body < fuel = omega (
      arith,
      ap length whole,
      length-append before (cmp ∷ (body ++ tail)),
      length-append body tail,
    ) in
    let found : fetch_commit fuel file cmp pos [] ≡ some (length before - 2, some c) =
      rw (whole, place)
        (fetch_commit_lem (length body) body fuel cmp before tail [] refl enough free
          ∙ ap (λ s. some (length before - 2, some s))
              (rw starts (ap (◌∷◌ cmp) (append-nil body)))) in
    let (tail', split, at) = earlier_split cs (cmp ∷ (body ++ tail)) in
    fetch_loop-next fuel cmp number i pos (length before - 2) file out c (omega arith) found
    ∙ fetch_loop_lem number cs (i + 1) cmp fuel (length before - 2) file tail'
        (out ++ added i (some c)) h.1 (whole ∙ split) f at
    ∙ ap some (append_assoc out (added i (some c)) (newest (i + 1) number cs))

-- `fetch_record` ends and gives the newest commits of the record, as many as are asked for or as
-- there are, the newest first, whatever the commits hold besides the mark.
pub fetch_record-record_text :
    (cmp number : ℕ) (cs : List Bytes)
    → AreCommits cmp cs
    → fetch_record (record_text cs) cmp number ≡ some (newest 0 number cs)
unfolding fetch_record seek_back
fetch_record-record_text cmp number cs h =
    fetch_loop_lem number cs 0 cmp (suc (length (record_text cs)))
      (seek_back 1 (length (record_text cs))) (record_text cs) [] [] h (sym (append-nil _))
      (omega arith) (ground arith)
