-- ===== src/Hunt/Boss/Configure.antt =====
-- `load_config_file` of MP3/server/boss.cpp, on the bytes of the file; a '\0' ends them. `none` is a
-- read behind the last byte, where a delimiter is missing, a write behind one of the buffers of
-- PATH_MAX + 1 bytes, or a 34th miner.
use sp.Base.{
  ℕ, Bool, true, ◌&&◌, ◌≤◌, ◌≡◌, refl, ap, ◌∙◌, Option, none, some, List, [], ◌∷◌, ◌++◌, append-nil,
  append_assoc, arith, Bytes, codes, newline, space, Free, append-Free, leb, ◌==◌, if◌then◌else◌,
  ◌>>=◌, length,
}
use sp.Hunt.Md5.{Md5}
use sp.Hunt.Boss.State.{PipePair, Config}

-- `while(*ptr != stop) …`: the bytes before the next `stop`, and those behind it.
unfoldable pub until : ℕ → Bytes → Bytes → Option (Bytes × Bytes)
until stop acc [] = none
until stop acc (c ∷ s) =
    let rest = until stop (acc ++ c ∷ []) s in if c == stop then some (acc, s) else rest

-- Where the loop `while(*config_ptr)` stands: between two miners, at the byte behind a colon, in
-- the first path, in the second.
pub data Place : Type 0 where
  between colon : Place
  input : Bytes → Place
  output : Bytes → Bytes → Place

unfoldable pub miners : Place → List PipePair → Bytes → Option (List PipePair)
miners between found [] = some found
miners colon found [] = none
miners (input path) found [] = none
miners (output path path') found [] = none
miners between found (c ∷ s) = miners (if c == b':' then colon else between) found s
miners colon found (c ∷ s) = miners (input []) found s
miners (input path) found (c ∷ s) =
    miners (if c == space then output path [] else input (path ++ c ∷ [])) found s
miners (output path path') found (c ∷ s) =
    miners (if c == newline then between else output path (path' ++ c ∷ []))
      (if c == newline
        then found ++ record { input_pipe = path; output_pipe = path' } ∷ []
        else found)
      s

-- The bytes before the first '\0'.
unfoldable pub c_string : Bytes → Bytes
c_string [] = []
c_string (c ∷ s) = let rest = c_string s in if c == 0 then [] else c ∷ rest

-- A path of at most PATH_MAX bytes, with its '\0'.
unfoldable pub path_fits : Bytes → Bool
path_fits path = leb (length path) 4096

unfoldable pub pipes_fit : List PipePair → Bool
unfolding path_fits
pipes_fit [] = true
pipes_fit (p ∷ ps) = path_fits p.input_pipe && path_fits p.output_pipe && pipes_fit ps

fits : Bytes → List PipePair → Option (List PipePair)
unfolding path_fits pipes_fit
fits mine pipes =
    if path_fits mine && pipes_fit pipes && leb (length pipes) 33 then some pipes else none

module _ (m : Md5) where
  open m use {Ctx}

  unfoldable pub load_config_file : Config Ctx → Bytes → Option (Config Ctx)
  unfolding until miners c_string fits
  load_config_file config content = do
    label ← until space [] content
    mine ← until newline [] label.1
    pipes ← miners between [] (c_string mine.1)
    pipes ← fits mine.0 pipes
    some (record config { mine_file = mine.0; pipes = pipes; num_miners = length pipes })

-- The format of the documentation.
abbrev pub miner_line : PipePair → Bytes
miner_line p = codes "MINER: " ++ (p.input_pipe ++ space ∷ (p.output_pipe ++ newline ∷ []))

abbrev pub miner_lines : List PipePair → Bytes
miner_lines [] = []
miner_lines (p ∷ ps) = miner_line p ++ miner_lines ps

abbrev pub config_text : Bytes → List PipePair → Bytes
config_text mine pipes = codes "MINE: " ++ (mine ++ newline ∷ miner_lines pipes)

pub record IsPath (p : PipePair) : Type 0 where
  pub input_space : Free space p.input_pipe
  pub output_newline : Free newline p.output_pipe
  pub input_end : Free 0 p.input_pipe
  pub output_end : Free 0 p.output_pipe
  pub input_fits : length p.input_pipe ≤ 4096
  pub output_fits : length p.output_pipe ≤ 4096

abbrev pub ArePaths : List PipePair → Type 0
ArePaths [] = Unit {0}
ArePaths (p ∷ ps) = IsPath p × ArePaths ps

pub until_lem :
    (stop : ℕ) (acc xs rest : Bytes)
    → Free stop xs
    → until stop acc (xs ++ stop ∷ rest) ≡ some (acc ++ xs, rest)
unfolding until
until_lem stop acc [] rest h = rw append-nil (ground arith)
until_lem stop acc (x ∷ xs) rest h =
    ground (arith, until_lem stop (acc ++ x ∷ []) xs rest h.1, append_assoc acc (x ∷ []) xs)

miners-input :
    (found : List PipePair) (path xs rest : Bytes)
    → Free space xs
    → miners (input path) found (xs ++ space ∷ rest) ≡ miners (output (path ++ xs) []) found rest
unfolding miners
miners-input found path [] rest h = rw append-nil
miners-input found path (x ∷ xs) rest h =
    ground (arith, miners-input found (path ++ x ∷ []) xs rest h.1, append_assoc path (x ∷ []) xs)

miners-output :
    (found : List PipePair) (a b xs rest : Bytes)
    → Free newline xs
    → miners (output a b) found (xs ++ newline ∷ rest)
      ≡ miners between (found ++ record { input_pipe = a; output_pipe = b ++ xs } ∷ []) rest
unfolding miners
miners-output found a b [] rest h = rw append-nil
miners-output found a b (x ∷ xs) rest h =
    ground (arith, miners-output found a (b ++ x ∷ []) xs rest h.1, append_assoc b (x ∷ []) xs)

miners-miner_lines :
    (found ps : List PipePair)
    → ArePaths ps
    → miners between found (miner_lines ps) ≡ some (found ++ ps)
unfolding miners
miners-miner_lines found [] h = rw append-nil
miners-miner_lines found (p ∷ ps) h = rw (append_assoc p.input_pipe) (
    miners-input found [] p.input_pipe _ h.0.input_space
    ∙ ap (miners (output p.input_pipe []) found)
        (append_assoc p.output_pipe (newline ∷ []) (miner_lines ps))
    ∙ miners-output found p.input_pipe [] p.output_pipe (miner_lines ps) h.0.output_newline
    ∙ miners-miner_lines (found ++ p ∷ []) ps h.1
    ∙ ap some (append_assoc found (p ∷ []) ps))

c_string_lem : (xs : Bytes) → Free 0 xs → c_string xs ≡ xs
unfolding c_string
c_string_lem [] h = refl
c_string_lem (x ∷ xs) h = ground (arith, c_string_lem xs h.1)

miner_lines-Free : (ps : List PipePair) → ArePaths ps → Free 0 (miner_lines ps)
miner_lines-Free [] h = tt
miner_lines-Free (p ∷ ps) h =
    append-Free 0 (miner_line p) (miner_lines ps)
      (append-Free 0 (codes "MINER: ") _ (omega arith) (
        append-Free 0 p.input_pipe _ h.0.input_end (
          omega arith,
          append-Free 0 p.output_pipe (newline ∷ []) h.0.output_end (omega arith, tt),
        )))
      (miner_lines-Free ps h.1)

pipes_fit_lem : (ps : List PipePair) → ArePaths ps → pipes_fit ps ≡ true
unfolding pipes_fit path_fits
pipes_fit_lem [] h = refl
pipes_fit_lem (p ∷ ps) (i, h) = ground (arith, pipes_fit_lem ps h, i.input_fits, i.output_fits)

fits_lem :
    (mine : Bytes) (pipes : List PipePair)
    → length mine ≤ 4096
    → ArePaths pipes
    → length pipes ≤ 33
    → fits mine pipes ≡ some pipes
unfolding fits path_fits
fits_lem mine pipes l h n = ground (arith, pipes_fit_lem pipes h)

module _ (m : Md5) (config : Config m.Ctx) where
  -- A file in the documented format, whose paths have at most 4096 bytes, is read back as it was
  -- written: the mine's path and, in order, the pipes of up to 33 miners.
  pub load_config_file-config_text :
      (mine : Bytes) (pipes : List PipePair)
      → Free newline mine
      → length mine ≤ 4096
      → ArePaths pipes
      → length pipes ≤ 33
      → load_config_file m config (config_text mine pipes)
        ≡ some (record config { mine_file = mine; pipes = pipes; num_miners = length pipes })
  unfolding load_config_file
  load_config_file-config_text mine pipes free short paths few =
      rw (until_lem newline [] mine (miner_lines pipes) free) (
        rw (c_string_lem (miner_lines pipes) (miner_lines-Free pipes paths))
          (rw (miners-miner_lines [] pipes paths, fits_lem mine pipes short paths few) refl))
