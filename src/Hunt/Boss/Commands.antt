-- ===== src/Hunt/Boss/Commands.antt =====
-- `handle_command` of MP3/server/boss.cpp. The kernel's part is an interface: whether a path is a
-- FIFO, and the descriptor that open() gives. What the program prints, writes to the miners and asks
-- of the file system is the list of effects. Behind a text that lacks its '\n' the parser reads on
-- into unset memory, and a `dump` with no path reads an unset path: both are faults, `none`.
use mathlib.Core.Option.{some-injective}
use sp.Base.{
  ℕ, ◌+◌, ◌≡◌, ◌≢◌, refl, Bool, true, false, Option, none, some, List, [], ◌∷◌, ◌++◌, arith,
  append-nil, append_assoc, ◌⊎◌, inl, inr, subst, Option-cases, Bool-cases, sym, ap, ◌∙◌, Bytes,
  codes, newline, space, bytes_eq, Free, ltb, leb, ◌==◌, if◌then◌else◌, ◌>>=◌, length,
}
use sp.Hunt.Md5.{Md5}
use sp.Hunt.Protocol.{Message, status, quit, leave}
use sp.Hunt.Boss.State.{Config}
use sp.Hunt.Boss.Configure.{until, until_lem}

-- The text of a line up to its '\n', cut at the first blank: the command and the path.
unfoldable pub cut : Bytes → Bytes → Option (Bytes × Option Bytes)
unfolding until
cut cmd [] = none
cut cmd (c ∷ s) =
    let rest = cut (cmd ++ c ∷ []) s in
    if c == newline
    then some (cmd, none)
    else if c == space
    then (until newline [] s >>= λ path. some (cmd, some path.0))
    else rest

-- The words that `strcmp` is called with: status, dump, quit, the rude one, mine.
pub data Command : Type 0 where
  best dump bye rude mine unknown : Command

unfoldable pub command_of : Bytes → Command
command_of cmd =
    if bytes_eq cmd (codes "status")
    then best
    else if bytes_eq cmd (codes "dump")
    then dump
    else if bytes_eq cmd (codes "quit")
    then bye
    else if bytes_eq cmd (codes "fuck")
    then rude
    else if bytes_eq cmd (codes "mine")
    then mine
    else unknown

pub data Effect (Ctx : Type 0) : Type 0 where
  print_best : ℕ → Bytes → ℕ → Effect Ctx
  print_nothing : Effect Ctx
  print_mine : Config Ctx → Effect Ctx
  complain : Effect Ctx
  to_all : ℕ → Message Ctx → Effect Ctx
  remove : Bytes → Effect Ctx
  truncate : ℕ → ℕ → Effect Ctx
  exit : Effect Ctx

-- `-2`, `-1`, `0` and a descriptor.
pub data Flag : Type 0 where
  leaves failed nothing : Flag
  opened : ℕ → Flag

pub record Files : Type 0 where
  pub is_fifo : Bytes → Bool
  pub open_write : Bytes → Option ℕ

pub record Reply (Ctx : Type 0) : Type 0 where
  pub config : Config Ctx
  pub flag : Flag
  pub effects : List (Effect Ctx)

abbrev reply : {Ctx : Type 0} → Config Ctx → Flag → List (Effect Ctx) → Reply Ctx
reply c flag effects = record { config = c; flag = flag; effects = effects }

module _ (m : Md5) (files : Files) where
  open m use {Ctx}
  open files use {is_fifo, open_write}

  -- `config->size+config->append_size`
  abbrev pub total : Config Ctx → ℕ
  total c = c.size + length c.append

  status_command : Config Ctx → Reply Ctx
  status_command c = reply c nothing (
      (if ltb 0 c.n_treasure then print_best c.n_treasure c.hash (total c) else print_nothing)
      ∷ (if c.is_done then to_all c.num_miners status ∷ [] else []))

  -- What follows the open: `isDumping` is set, and the descriptor given back, once loading is done.
  after_open : Config Ctx → List (Effect Ctx) → Option ℕ → Reply Ctx
  after_open c effects none = reply c failed effects
  after_open c effects (some fd) =
      if c.is_done
      then reply (record c { is_dumping = true }) (if fd == 0 then nothing else opened fd) effects
      else reply c nothing effects

  -- ftruncate() of descriptor -1 has no effect.
  truncated : Config Ctx → Option ℕ → List (Effect Ctx)
  truncated c none = []
  truncated c (some fd) = truncate fd (total c) ∷ []

  unfoldable pub dump_command : Config Ctx → Bytes → Reply Ctx
  unfolding after_open truncated
  dump_command c path =
      let fd = open_write path in
      after_open c (if is_fifo path then [] else remove path ∷ truncated c fd) fd

  quit_command : Config Ctx → Reply Ctx
  quit_command c = reply c leaves (if c.is_dumping then [] else to_all c.num_miners quit ∷ [])

  unfoldable pub dispatch : Command → Config Ctx → Option Bytes → Option (Reply Ctx)
  unfolding status_command dump_command quit_command
  dispatch best c path = some (status_command c)
  dispatch dump c none = none
  dispatch dump c (some path) = some (dump_command c path)
  dispatch bye c path = some (quit_command c)
  dispatch rude c path = some (reply c nothing (to_all c.num_miners leave ∷ exit ∷ []))
  dispatch mine c path = some (reply c nothing (print_mine c ∷ []))
  dispatch unknown c path = some (reply c nothing (complain ∷ []))

  -- After a quit nothing is looked at. `cmd` has room for 19 characters.
  execute : Config Ctx → Bool → Bytes × Option Bytes → Option (Reply Ctx)
  unfolding dispatch command_of
  execute c quitting (cmd, path) =
      if leb (length cmd) 19
      then (if quitting then some (reply c leaves []) else dispatch (command_of cmd) c path)
      else none

  unfoldable pub handle_command : Config Ctx → Bool → Bytes → Option (Reply Ctx)
  unfolding cut execute
  handle_command c quitting input = cut [] input >>= execute c quitting

cut_word :
    (acc cmd rest : Bytes)
    → Free newline cmd
    → Free space cmd
    → cut acc (cmd ++ newline ∷ rest) ≡ some (acc ++ cmd, none)
unfolding cut
cut_word acc [] rest h k = rw append-nil
cut_word acc (c ∷ cmd) rest h k =
    ground (arith, cut_word (acc ++ c ∷ []) cmd rest h.1 k.1, append_assoc acc (c ∷ []) cmd)

cut_words :
    (acc cmd path rest : Bytes)
    → Free newline cmd
    → Free space cmd
    → Free newline path
    → cut acc (cmd ++ space ∷ (path ++ newline ∷ rest)) ≡ some (acc ++ cmd, some path)
unfolding cut
cut_words acc [] path rest h k l = rw (append-nil, until_lem newline [] path rest l)
cut_words acc (c ∷ cmd) path rest h k l =
    ground (arith, cut_words (acc ++ c ∷ []) cmd path rest h.1 k.1 l, append_assoc acc (c ∷ []) cmd)

-- A line is read as it was typed: the first blank ends the command, and the '\n' the path.
pub cut-line :
    (cmd path rest : Bytes)
    → Free newline cmd
    → Free space cmd
    → Free newline path
    → (cut [] (cmd ++ newline ∷ rest) ≡ some (cmd, none))
      × (cut [] (cmd ++ space ∷ (path ++ newline ∷ rest)) ≡ some (cmd, some path))
cut-line cmd path rest h k l = (cut_word [] cmd rest h k, cut_words [] cmd path rest h k l)

module _ (m : Md5) (files : Files) where
  open m use {Ctx}

  abbrev pub KeepsHunt : Config Ctx → Reply Ctx → Type 0
  KeepsHunt c r =
      (r.config ≡ c) ⊎ ((r.config ≡ record c { is_dumping = true }) × (c.is_done ≡ true))

  -- What a reply promises: at most the mark that a dump is running is set, and that only after the
  -- loading; a descriptor that is handed to the main loop is not 0.
  pub record IsReply (c : Config Ctx) (r : Reply Ctx) : Type 0 where
    pub kept : KeepsHunt c r
    pub real : (fd : ℕ) → r.flag ≡ opened fd → fd ≢ 0

  dump_command-IsReply : (c : Config Ctx) (path : Bytes) → IsReply c (dump_command m files c path)
  unfolding dump_command
  dump_command-IsReply c path = record { kept = ground arith; real = λ fd e. ground arith }

  -- A reply that keeps the configuration and opens nothing.
  plain-IsReply :
      (c : Config Ctx) (r s : Reply Ctx)
      → r.config ≡ c
      → ((fd : ℕ) → r.flag ≢ opened fd)
      → r ≡ s
      → IsReply c s
  plain-IsReply c r s e f h =
      subst (IsReply c) h (record { kept = inl e; real = λ fd g. absurd (f fd g) })

  dispatch-IsReply :
      (command : Command) (c : Config Ctx) (path : Option Bytes) (r : Reply Ctx)
      → dispatch m files command c path ≡ some r
      → IsReply c r
  unfolding dispatch
  dispatch-IsReply dump c none r e = cc
  dispatch-IsReply dump c (some path) r e =
      subst (IsReply c) (some-injective _ _ e) (dump_command-IsReply c path)
  dispatch-IsReply best c path r e = plain-IsReply c _ r refl (λ fd g. cc) (some-injective _ _ e)
  dispatch-IsReply bye c path r e = plain-IsReply c _ r refl (λ fd g. cc) (some-injective _ _ e)
  dispatch-IsReply rude c path r e = plain-IsReply c _ r refl (λ fd g. cc) (some-injective _ _ e)
  dispatch-IsReply mine c path r e = plain-IsReply c _ r refl (λ fd g. cc) (some-injective _ _ e)
  dispatch-IsReply unknown c path r e = plain-IsReply c _ r refl (λ fd g. cc) (some-injective _ _ e)

  execute-IsReply :
      (c : Config Ctx) (quitting : Bool) (parts : Bytes × Option Bytes) (r : Reply Ctx)
      → execute m files c quitting parts ≡ some r
      → IsReply c r
  unfolding execute
  execute-IsReply c quitting (cmd, path) r e = elim (Bool-cases (leb (length cmd) 19)) [
    | inl short ↦ go quitting (rw short at e)
    | inr long ↦ absurd (ground arith)
  ]
    where
      go :
          (q : Bool)
          → (if q then some (reply c leaves []) else dispatch m files (command_of cmd) c path)
            ≡ some r
          → IsReply c r
      go true f = plain-IsReply c _ r refl (λ fd g. cc) (some-injective _ _ f)
      go false f = dispatch-IsReply (command_of cmd) c path r f

  -- No command changes the boss's record of the hunt: at most the mark that a dump is running is
  -- set, and that only after the loading; and no reply hands descriptor 0 to the main loop.
  pub handle_command-IsReply :
      (c : Config Ctx) (quitting : Bool) (input : Bytes) (r : Reply Ctx)
      → handle_command m files c quitting input ≡ some r
      → IsReply c r
  unfolding handle_command
  handle_command-IsReply c quitting input r e = elim (Option-cases (cut [] input)) [
    | inl f ↦ absurd (cc)
    | inr f ↦
        execute-IsReply c quitting f.0 r (sym (ap (λ o. o >>= execute m files c quitting) f.1) ∙ e)
  ]
