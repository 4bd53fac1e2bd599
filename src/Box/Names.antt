-- ===== src/Box/Names.antt =====
-- MP5/src/csiebox_common.c: `get_dir_and_name`, which takes a path apart. The text has no '\0' and is not
-- empty.
pub mod Parts
use sp.Base.{
  ℕ, zero, suc, ◌+◌, ◌-◌, ◌<◌, ◌≤◌, ◌≡◌, ◌≢◌, refl, sym, ap, subst, ◌∙◌, inl, inr, Bool, true,
  false, not, ◌&&◌, Option, none, some, List, [], ◌∷◌, ◌++◌, append-nil, append_assoc, reverse,
  arith, Bytes, Free, ◌==◌, if◌then◌else◌, length, take, drop, Bool-cases,
}

-- The loop, over the text from its end: `later` is `target[i + 1]`, and the bytes before index i are in
-- front, the last one first. The result is the number of bytes before the '/' that it stops at.
unfoldable pub find_slash : ℕ → Bytes → Option ℕ
find_slash later [] = none
find_slash later (c ∷ front) =
    let rest = find_slash c front in
    if (c == b'/') && not (later == b'/') then some (length front) else rest

-- The directory, which is not set when there is no '/', and the name.
unfoldable pub get_dir_and_name : Bytes → Option Bytes × Bytes
unfolding find_slash
get_dir_and_name target = elim (reverse target) [
  | [] ↦ (none, [])
  | last ∷ front ↦ elim (find_slash last front) [
    | none ↦ (none, target)
    | some i ↦ (some (take i target), drop (i + 1) target)
  ]
]
