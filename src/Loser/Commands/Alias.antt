-- ===== src/Loser/Commands/Alias.antt =====
-- The aliases of `.loser_config`.
use sp.Base.{
  ℕ, ◌≡◌, ◌≢◌, refl, ◌∙◌, Option, none, some, List, [], ◌∷◌, ◌++◌, append-nil, append_assoc, arith,
  Bytes, newline, space, Free,
}
use sp.Loser.Commands.{alias, equals, command, rest, chosen, update}

pub record Alias : Type 0 where
  pub name : Bytes
  pub first : ℕ
  pub more : Bytes

-- `name = command`, where the command begins with `first`.
abbrev pub alias_lines : List Alias → Bytes
alias_lines [] = []
alias_lines (a ∷ others) =
    a.name ++ space ∷ b'=' ∷ space ∷ a.first ∷ (a.more ++ newline ∷ alias_lines others)

pub record IsAlias (a : Alias) : Type 0 where
  pub name_space : Free space a.name
  pub name_end : Free 0 a.name
  pub one_line : a.first ≢ newline
  pub more_newline : Free newline a.more

abbrev pub AreAliases : List Alias → Type 0
AreAliases [] = Unit {0}
AreAliases (a ∷ others) = IsAlias a × AreAliases others

-- The command of the first alias that was typed and stands for a command; else what was typed.
unfoldable pub resolve : Bytes → List Alias → Bytes
resolve typed [] = typed
resolve typed (a ∷ others) = elim (chosen typed a.name a.first) [
  | some w ↦ w
  | none ↦ resolve typed others
]

decided :
    (o found : Option Bytes) (otherwise : Bytes)
    → found ≡ some otherwise
    → elim o as (λ x. Option Bytes) [ some w ↦ some w | none ↦ found ]
      ≡ some (elim o as (λ x. Bytes) [ some w ↦ w | none ↦ otherwise ])
decided none found otherwise h = h
decided (some w) found otherwise h = refl

update-alias :
    (typed tmp name s : Bytes)
    → Free space name
    → Free 0 name
    → update typed (alias tmp) (name ++ space ∷ s) ≡ update typed (equals (tmp ++ name)) s
unfolding update
update-alias typed tmp [] s h k = rw append-nil
update-alias typed tmp (c ∷ name) s h k =
    ground
      (arith, update-alias typed (tmp ++ c ∷ []) name s h.1 k.1, append_assoc tmp (c ∷ []) name)

update-rest :
    (typed more s : Bytes)
    → Free newline more
    → update typed rest (more ++ newline ∷ s) ≡ update typed (alias []) s
unfolding update
update-rest typed [] s h = refl
update-rest typed (c ∷ more) s h = ground (arith, update-rest typed more s h.1)

update-line :
    (typed name : Bytes) (first : ℕ) (s : Bytes)
    → first ≢ newline
    → update typed (command name) (first ∷ s)
      ≡ elim (chosen typed name first) [ some w ↦ some w | none ↦ update typed rest s ]
unfolding update
update-line typed name first s h = ground arith

update-more :
    (typed more : Bytes) (others : Bytes) (junk : Bytes)
    → Free newline more
    → update typed rest ((more ++ newline ∷ others) ++ junk)
      ≡ update typed (alias []) (others ++ junk)
update-more typed more others junk h =
    rw (append_assoc more (newline ∷ others) junk) (update-rest typed more (others ++ junk) h)

-- A configuration of lines `name = command`, with no blank and no '\0' in a name and no '\n' in
-- a command, is searched from its first line on, if a '\0' follows it in memory: the first alias
-- that was typed and whose command begins with s, c or l decides, and without one the command
-- stays what it was.
pub update-alias_lines :
    (typed junk : Bytes) (aliases : List Alias)
    → AreAliases aliases
    → update typed (alias []) (alias_lines aliases ++ 0 ∷ junk) ≡ some (resolve typed aliases)
unfolding update resolve
update-alias_lines typed junk [] h = refl
update-alias_lines typed junk (a ∷ others) h =
    let (k, ks) = h in
    let tail = a.more ++ newline ∷ alias_lines others in
    rw
      (
        append_assoc a.name (space ∷ b'=' ∷ space ∷ a.first ∷ tail) (0 ∷ junk),
        update-alias typed [] a.name (b'=' ∷ space ∷ a.first ∷ (tail ++ 0 ∷ junk)) k.name_space
            k.name_end,
        update-line typed a.name a.first (tail ++ 0 ∷ junk) k.one_line,
      )
      (decided (chosen typed a.name a.first) (update typed rest (tail ++ 0 ∷ junk))
        (resolve typed others)
        (update-more typed a.more (alias_lines others) (0 ∷ junk) k.more_newline
          ∙ update-alias_lines typed junk others ks))
