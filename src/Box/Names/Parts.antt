-- ===== src/Box/Names/Parts.antt =====
-- MP5/src/csiebox_common.c: a path that is made of a directory and a name is taken apart again.
use mathlib.Core.List.{reverse-cons, reverse-append}
use sp.Base.{
  ℕ, ◌+◌, ◌<◌, ◌≡◌, ◌≢◌, refl, sym, ap, subst, ◌∙◌, some, [], ◌∷◌, ◌++◌, append_assoc, reverse,
  arith, Bytes, Free, append-Free, length, length-append, drop, take_front, drop_front, drop-add,
}
use sp.Box.Names.{find_slash, get_dir_and_name}

find_slash_lem :
    (later : ℕ) (m r : Bytes)
    → later ≢ b'/'
    → Free b'/' m
    → find_slash later (m ++ b'/' ∷ r) ≡ some (length r)
unfolding find_slash
find_slash_lem later [] r n h = ground arith
find_slash_lem later (c ∷ m) r n (k, h) = ground (arith, find_slash_lem c m r k h)

reverse-Free : (c : ℕ) (xs : Bytes) → Free c xs → Free c (reverse xs)
reverse-Free c [] h = tt
reverse-Free c (x ∷ xs) (n, h) =
    subst (Free c) (sym (reverse-cons x xs))
      (append-Free c (reverse xs) (x ∷ []) (reverse-Free c xs h) (n, tt))

length-reverse : (xs : Bytes) → length (reverse xs) ≡ length xs
length-reverse [] = refl
length-reverse (x ∷ xs) =
    ap length (reverse-cons x xs)
    ∙ length-append (reverse xs) (x ∷ [])
    ∙ omega (arith, length-reverse xs)

drop_past : (dir rest : Bytes) (c : ℕ) → drop (length dir + 1) (dir ++ c ∷ rest) ≡ rest
drop_past dir rest c =
    drop-add (length dir) 1 (dir ++ c ∷ rest) ∙ ap (drop 1) (drop_front dir (c ∷ rest))

-- The text is taken apart where the last byte and those before it are known.
taken_apart :
    (dir name front : Bytes) (last : ℕ)
    → reverse (dir ++ b'/' ∷ name) ≡ last ∷ (front ++ b'/' ∷ reverse dir)
    → last ≢ b'/'
    → Free b'/' front
    → get_dir_and_name (dir ++ b'/' ∷ name) ≡ (some dir, name)
unfolding get_dir_and_name
taken_apart dir name front last e n h =
    rw
      (
        get_dir_and_name,
        e,
        find_slash_lem last front (reverse dir) n h,
        length-reverse dir,
        take_front dir (b'/' ∷ name),
        drop_past dir name b'/',
      )
      refl

-- A path that is a directory, a '/' and a name, which is not empty and has no '/', is taken apart into
-- that directory and that name, whatever the directory's text is.
pub get_dir_and_name_lem :
    (dir name : Bytes)
    → 0 < length name
    → Free b'/' name
    → get_dir_and_name (dir ++ b'/' ∷ name) ≡ (some dir, name)
get_dir_and_name_lem dir name l h = go (reverse name) refl
  where
    turned : reverse (dir ++ b'/' ∷ name) ≡ reverse name ++ b'/' ∷ reverse dir
    turned =
        reverse-append dir (b'/' ∷ name)
        ∙ ap (λ r. r ++ reverse dir) (reverse-cons b'/' name)
        ∙ append_assoc (reverse name) (b'/' ∷ []) (reverse dir)

    go : (r : Bytes) → reverse name ≡ r → get_dir_and_name (dir ++ b'/' ∷ name) ≡ (some dir, name)
    go [] e = absurd (omega (arith, length-reverse name, ap length e))
    go (last ∷ front) e =
        let f : Free b'/' (last ∷ front) = subst (Free b'/') e (reverse-Free b'/' name h) in
        taken_apart dir name front last (turned ∙ ap (λ r. r ++ b'/' ∷ reverse dir) e) f.0 f.1
