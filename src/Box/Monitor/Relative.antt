-- ===== src/Box/Monitor/Relative.antt =====
-- MP5/src/csiebox_client.c: `convert_to_relative_path`, with the memory that it works on. `none` is a
-- read behind the buffer.
use mathlib.Core.Option.{some-injective}
use sp.Base.{
  ℕ, zero, suc, ◌+◌, ◌<◌, ◌≤◌, ◌≡◌, ◌≢◌, ◌⊎◌, refl, sym, ap, ◌∙◌, inl, inr, true, false, ◌&&◌,
  Option, none, some, List, [], ◌∷◌, ◌++◌, append_assoc, arith, Bytes, bytes_eq, bytes_eq_refl,
  Free, ltb, leb, ◌==◌, if◌then◌else◌, ◌>>=◌, Bool-cases, length, get_elem?, get_elem?-lt,
  get_elem?-set_self, get_elem?-set_ne, length-set, length-append, set, take, take_front,
  ℕ_discrete,
}

-- The bytes before the first '\0'.
unfoldable pub text_of : Bytes → Bytes
text_of [] = []
text_of (c ∷ m) = let rest = text_of m in if c == 0 then [] else c ∷ rest

-- The loop over `i`, with the rounds that are left.
unfoldable pub shift : ℕ → ℕ → ℕ → Bytes → Option Bytes
shift zero i rootlen m = some m
shift (suc n) i rootlen m = (if ltb i rootlen then get_elem? m (i + rootlen) else some 0) >>= λ b.
    shift n (i + 1) rootlen (set m i b)

-- The path from the root of the file system.
unfoldable pub absolute : Bytes → Bytes → Bytes
absolute cwd [] = cwd ++ b'/' ∷ []
absolute cwd (c ∷ path) = if c == b'/' then c ∷ path else cwd ++ b'/' ∷ c ∷ path

-- `junk` is what `malloc` left behind the path. The result is NULL when the path does not begin with
-- the root.
unfoldable pub convert_to_relative_path : Bytes → Bytes → Bytes → Bytes → Option (Option Bytes)
unfolding absolute shift text_of
convert_to_relative_path root cwd path junk =
    let ret = absolute cwd path in
    if bytes_eq (take (length root) ret) root
    then (shift (length ret) 0 (length root) (ret ++ 0 ∷ junk) >>= λ m. some (some (text_of m)))
    else some none

-- What a byte is once the rounds from `i` to `i + n` are over.
abbrev shifted : ℕ → ℕ → ℕ → Bytes → ℕ → Option ℕ
shifted n i rootlen m j =
    if leb i j && ltb j (i + n)
    then (if ltb j rootlen then get_elem? m (j + rootlen) else some 0)
    else get_elem? m j

shift_byte :
    (i rootlen : ℕ) (m : Bytes)
    → i < length m
    → rootlen + rootlen ≤ length m
    → (b : ℕ) × ((if ltb i rootlen then get_elem? m (i + rootlen) else some 0) ≡ some b)
shift_byte i rootlen m l k = elim (Bool-cases (ltb i rootlen)) [
  | inl x ↦ let (b, e) = get_elem?-lt m (i + rootlen) (ground arith) in (b, rw x e)
  | inr x ↦ (0, rw x refl)
]

shifted-set :
    (n i rootlen : ℕ) (m : Bytes) (b j : ℕ)
    → i < length m
    → (if ltb i rootlen then get_elem? m (i + rootlen) else some 0) ≡ some b
    → shifted n (i + 1) rootlen (set m i b) j ≡ shifted (suc n) i rootlen m j
shifted-set n i rootlen m b j l e = elim (ℕ_discrete i j) [
  | yes x ↦
      let f : get_elem? (set m i b) j ≡ some b = rw (← x) (get_elem?-set_self m i b l) in
      let g : (if ltb j rootlen then get_elem? m (j + rootlen) else some 0) ≡ some b = rw (← x) e in
      let u : leb (i + 1) j ≡ false = ground arith in
      let v : leb i j ≡ true = ground arith in
      let w : ltb j (i + suc n) ≡ true = ground arith in rw (u, v, w) (f ∙ sym g)
  | no x ↦
      let f : get_elem? (set m i b) j ≡ get_elem? m j = get_elem?-set_ne m b x in
      elim (Bool-cases (leb (i + 1) j)) [
        | inl y ↦
            let ne : i ≢ j + rootlen = λ (q : i ≡ j + rootlen). absurd (ground arith) in
            let g : get_elem? (set m i b) (j + rootlen) ≡ get_elem? m (j + rootlen) =
              get_elem?-set_ne m b ne in
            let v : leb i j ≡ true = ground arith in
            let w : ltb j (i + suc n) ≡ ltb j (i + 1 + n) = ap (ltb j) (omega arith) in
            rw (y, v, w, f, g) refl
        | inr y ↦ let v : leb i j ≡ false = ground arith in rw (y, v) f
      ]
]

shift_lem :
    (n i rootlen : ℕ) (m : Bytes)
    → i + n ≤ length m
    → rootlen + rootlen ≤ length m
    → (m' : Bytes) × (shift n i rootlen m ≡ some m')
      × ((j : ℕ) → get_elem? m' j ≡ shifted n i rootlen m j)
unfolding shift
shift_lem zero i rootlen m a b = (m, refl, (λ j. ground arith))
shift_lem (suc n) i rootlen m a k =
    let (b, e) = shift_byte i rootlen m (omega arith) k in
    let l : length (set m i b) ≡ length m = length-set m i b in
    let (m', f, g) = shift_lem n (i + 1) rootlen (set m i b) (omega arith) (omega arith) in
    (m', rw (shift, e) f, (λ j. g j ∙ shifted-set n i rootlen m b j (omega arith) e))

-- The text of a memory that agrees with a text and then has a '\0'.
text_of-agrees :
    (m t : Bytes)
    → Free 0 t
    → ((j : ℕ) → j < length t → get_elem? m j ≡ get_elem? t j)
    → get_elem? m (length t) ≡ some 0
    → text_of m ≡ t
unfolding text_of
text_of-agrees [] t f a z = absurd (cc)
text_of-agrees (c ∷ m) [] f a z = let x : c ≡ 0 = some-injective _ _ z in rw x refl
text_of-agrees (c ∷ m) (d ∷ t) (n, f) a z =
    let x : c ≡ d = some-injective _ _ (a 0 (omega arith)) in
    let r = text_of-agrees m t f (λ j l. a (suc j) (omega arith)) z in
    let y : (c == 0) ≡ false = ground arith in rw (y, r) (ap (λ k. k ∷ t) x)

get_elem?-behind {ℓ} :
    {A : Type ℓ} (xs ys : List A) (j : ℕ) → get_elem? (xs ++ ys) (j + length xs) ≡ get_elem? ys j
get_elem?-behind [] ys j = ap (get_elem? ys) (omega arith)
get_elem?-behind (x ∷ xs) ys j =
    let e : j + suc (length xs) ≡ suc (j + length xs) = omega arith in
    rw e (get_elem?-behind xs ys j)

get_elem?-front {ℓ} :
    {A : Type ℓ} (xs ys : List A) (j : ℕ) → j < length xs → get_elem? (xs ++ ys) j ≡ get_elem? xs j
get_elem?-front [] ys j l = absurd (omega arith)
get_elem?-front (x ∷ xs) ys zero l = refl
get_elem?-front (x ∷ xs) ys (suc j) l = get_elem?-front xs ys j (omega arith)

take-Free : (n : ℕ) (xs : Bytes) → Free 0 xs → Free 0 (take n xs)
take-Free zero xs f = tt
take-Free (suc n) [] f = tt
take-Free (suc n) (x ∷ xs) (a, f) = (a, take-Free n xs f)

get_elem?-take {ℓ} :
    {A : Type ℓ} (n : ℕ) (xs : List A) (j : ℕ)
    → j < length (take n xs)
    → (get_elem? (take n xs) j ≡ get_elem? xs j) × (j < n) × (j < length xs)
get_elem?-take zero xs j l = absurd (omega arith)
get_elem?-take (suc n) [] j l = absurd (omega arith)
get_elem?-take (suc n) (x ∷ xs) zero l = (refl, omega arith, omega arith)
get_elem?-take (suc n) (x ∷ xs) (suc j) l =
    let (a, b, c) = get_elem?-take n xs j (omega arith) in (a, omega arith, omega arith)

length-take {ℓ} :
    {A : Type ℓ} (n : ℕ) (xs : List A)
    → ((length (take n xs) ≡ n) × (n ≤ length xs))
      ⊎ ((length (take n xs) ≡ length xs) × (length xs < n))
length-take zero xs = inl (refl, omega arith)
length-take (suc n) [] = inr (refl, omega arith)
length-take (suc n) (x ∷ xs) = elim (length-take n xs) [
  | inl (a, b) ↦ inl (omega arith, omega arith)
  | inr (a, b) ↦ inr (omega arith, omega arith)
]

module _ (root rel junk : Bytes) where
  abbrev pub memory : Bytes
  memory = (root ++ rel) ++ 0 ∷ junk

  memory-at : (j : ℕ) → get_elem? memory (j + length root) ≡ get_elem? (rel ++ 0 ∷ junk) j
  memory-at j =
      ap (λ k. get_elem? k (j + length root)) (append_assoc root rel (0 ∷ junk))
      ∙ get_elem?-behind root (rel ++ 0 ∷ junk) j

  -- Behind the text there is a '\0'.
  memory-end : get_elem? memory (length rel + length root) ≡ some 0
  memory-end =
      memory-at (length rel)
      ∙ ap (λ k. get_elem? (rel ++ 0 ∷ junk) k) (omega arith)
      ∙ get_elem?-behind rel (0 ∷ junk) 0

  shifted-front :
      (j : ℕ)
      → j < length (take (length root) rel)
      → shifted (length (root ++ rel)) 0 (length root) memory j
        ≡ get_elem? (take (length root) rel) j
  shifted-front j l =
      let (a, b, c) = get_elem?-take (length root) rel j l in
      let n = length-append root rel in
      let x : ltb j (0 + length (root ++ rel)) ≡ true = ground (arith, n) in
      let y : ltb j (length root) ≡ true = ground arith in
      let z : leb 0 j ≡ true = ground arith in
      rw (x, y, z) (memory-at j ∙ get_elem?-front rel (0 ∷ junk) j c ∙ sym a)

  shifted-end :
      shifted (length (root ++ rel)) 0 (length root) memory (length (take (length root) rel))
      ≡ some 0
  shifted-end =
      let n = length-append root rel in
      let t = length (take (length root) rel) in
      let z : leb 0 t ≡ true = ground arith in
      elim (length-take (length root) rel) [
        | inr (a, b) ↦
            let x : ltb t (0 + length (root ++ rel)) ≡ true = ground (arith, n) in
            let y : ltb t (length root) ≡ true = ground arith in
            rw (x, y, z) (ap (λ k. get_elem? memory (k + length root)) a ∙ memory-end)
        | inl (a, b) ↦
            let y : ltb t (length root) ≡ false = ground arith in
            elim (Bool-cases (ltb t (0 + length (root ++ rel)))) [
              | inl x ↦ rw (x, y, z) refl
              | inr x ↦
                  let e : t ≡ length rel + length root = ground (arith, n) in
                  rw (x, z) (ap (get_elem? memory) e ∙ memory-end)
            ]
      ]

  -- Of a path below the root, `convert_to_relative_path` gives what comes behind the root, but at most
  -- as many bytes of it as the root has: the rest is cut off. What `malloc` left in the buffer plays no
  -- part.
  pub convert_to_relative_path-take :
      (cwd path : Bytes)
      → absolute cwd path ≡ root ++ rel
      → Free 0 rel
      → length root + length root ≤ length memory
      → convert_to_relative_path root cwd path junk ≡ some (some (take (length root) rel))
  unfolding convert_to_relative_path
  convert_to_relative_path-take cwd path e f l =
      let p : take (length root) (root ++ rel) ≡ root = take_front root rel in
      let n = length-append (root ++ rel) (0 ∷ junk) in
      let (m, s, g) = shift_lem (length (root ++ rel)) 0 (length root) memory (omega arith) l in
      let t : text_of m ≡ take (length root) rel =
        text_of-agrees m (take (length root) rel) (take-Free (length root) rel f)
          (λ j k. g j ∙ shifted-front j k) (g (length (take (length root) rel)) ∙ shifted-end) in
      rw (convert_to_relative_path, e, p, bytes_eq_refl root, s) (ap (λ k. some (some k)) t)
