-- ===== src/Box/Config/Lines.antt =====
-- What `parse_arg` makes of a file of lines `key=value`.
use sp.Base.{
  ℕ, zero, suc, ◌≤◌, ◌<◌, ◌≡◌, inl, inr, refl, ap, subst, ◌∙◌, Bool, true, false, ◌&&◌, ◌||◌, some,
  List, [], ◌∷◌, ◌++◌, arith, Bytes, Free, bytes_eq, newline, leb, ◌==◌, if◌then◌else◌, length,
  length-append, Bool-cases, bytes_eq_sound,
}
use sp.Box.Config.{
  field, server_fields, client_fields, getdelim, chop, Field, given, assign, config_error, accepted,
  all_accepted, verdict, read_config, parse_arg,
}

abbrev pub render : List (Bytes × Bytes) → Bytes
render [] = []
render ((key, val) ∷ ls) = key ++ b'=' ∷ (val ++ newline ∷ render ls)

abbrev pub IsLine : Bytes × Bytes → Type 0
IsLine (key, val) = (0 < length key) × Free b'=' key × Free newline val

abbrev pub AreLines : List (Bytes × Bytes) → Type 0
AreLines [] = Unit
AreLines (l ∷ ls) = IsLine l × AreLines ls

unfoldable pub assign_all : List Field → List (Bytes × Bytes) → List Field
unfolding assign
assign_all fs [] = fs
assign_all fs ((key, val) ∷ ls) = assign_all (assign fs key val) ls

pub getdelim-append :
    (d : ℕ) (s rest : Bytes) → Free d s → getdelim d (s ++ d ∷ rest) ≡ some (s ++ d ∷ [], rest)
unfolding getdelim
getdelim-append d [] rest h = ground arith
getdelim-append d (c ∷ s) rest (n, h) = ground (arith, getdelim-append d s rest h)

pub chop-append : (s : Bytes) (d : ℕ) → chop (s ++ d ∷ []) ≡ s
unfolding chop
chop-append [] d = refl
chop-append (c ∷ []) d = refl
chop-append (c ∷ e ∷ s) d = ap (λ r. c ∷ r) (chop-append (e ∷ s) d)

pub length-end : (s : Bytes) (d : ℕ) → 0 < length s → (length (s ++ d ∷ []) == 1) ≡ false
length-end [] d h = elim h [ ]
length-end (c ∷ []) d h = refl
length-end (c ∷ e ∷ s) d h = ground arith

pub read_config-render :
    (fuel : ℕ) (ls : List (Bytes × Bytes)) (fs : List Field)
    → AreLines ls
    → length ls < fuel
    → read_config fuel (render ls) fs ≡ verdict (assign_all fs ls)
unfolding read_config assign_all getdelim
read_config-render zero ls fs h n = absurd (omega arith)
read_config-render (suc fuel) [] fs h n = refl
read_config-render (suc fuel) ((key, val) ∷ ls) fs ((k, e, v), h) n =
    rw
      (
        read_config,
        getdelim-append b'=' key (val ++ newline ∷ render ls) e,
        length-end key b'=' k,
        getdelim-append newline val (render ls) v,
        chop-append key b'=',
        chop-append val newline,
      )
      (read_config-render fuel ls (assign fs key val) h (omega arith))

-- A line gives the key a value that its buffer takes.
unfoldable pub gives : Bytes → ℕ → List (Bytes × Bytes) → Bool
gives name size [] = false
gives name size ((key, val) ∷ ls) =
    (bytes_eq name key && leb (length val) size) || gives name size ls

unfoldable pub all_given : List Field → List (Bytes × Bytes) → Bool
unfolding gives
all_given [] ls = true
all_given (f ∷ fs) ls = (f.accept_config || gives f.name f.size ls) && all_given fs ls

abbrev pub Absent : Bytes → List Field → Type 0
Absent name [] = Unit
Absent name (f ∷ fs) = (bytes_eq f.name name ≡ false) × Absent name fs

-- No two buffers have the same key.
abbrev pub Distinct : List Field → Type 0
Distinct [] = Unit
Distinct (f ∷ fs) = Absent f.name fs × Distinct fs

pub assign-Absent :
    (name key val : Bytes) (fs : List Field) → Absent name fs → Absent name (assign fs key val)
unfolding assign given
assign-Absent name key val [] h = tt
assign-Absent name key val (f ∷ fs) h = elim (Bool-cases (bytes_eq f.name key)) [
  | inl e ↦ elim (Bool-cases (leb (length val) f.size)) [
    | inl l ↦ rw (e, l) h
    | inr l ↦ rw (e, l) h
  ]
  | inr e ↦ rw e (h.0, assign-Absent name key val fs h.1)
]

assign-Distinct : (key val : Bytes) (fs : List Field) → Distinct fs → Distinct (assign fs key val)
unfolding assign given
assign-Distinct key val [] h = tt
assign-Distinct key val (f ∷ fs) h = elim (Bool-cases (bytes_eq f.name key)) [
  | inl e ↦ elim (Bool-cases (leb (length val) f.size)) [
    | inl l ↦ rw (e, l) h
    | inr l ↦ rw (e, l) h
  ]
  | inr e ↦ rw e (assign-Absent f.name key val fs h.0, assign-Distinct key val fs h.1)
]

all_given-Absent :
    (key val : Bytes) (ls : List (Bytes × Bytes)) (fs : List Field)
    → Absent key fs
    → all_given fs ((key, val) ∷ ls) ≡ all_given fs ls
unfolding all_given gives
all_given-Absent key val ls [] h = refl
all_given-Absent key val ls (f ∷ fs) h = rw (h.0, all_given-Absent key val ls fs h.1) refl

all_given-assign :
    (key val : Bytes) (ls : List (Bytes × Bytes)) (fs : List Field)
    → Distinct fs
    → all_given (assign fs key val) ls ≡ all_given fs ((key, val) ∷ ls)
unfolding all_given gives assign given
all_given-assign key val ls [] h = refl
all_given-assign key val ls (f ∷ fs) h = elim (Bool-cases (bytes_eq f.name key)) [
  | inl e ↦
      let k : f.name ≡ key = bytes_eq_sound f.name key e in
      let a : Absent key fs = subst (λ n. Absent n fs) k h.0 in
      elim (Bool-cases (leb (length val) f.size)) [
        | inl l ↦
            rw (e, l, all_given-Absent key val ls fs a) (taken f.accept_config (all_given fs ls))
        | inr l ↦ rw (e, l, all_given-Absent key val ls fs a) refl
      ]
  | inr e ↦ rw (e, all_given-assign key val ls fs h.1) refl
]
  where
    taken : (a b : Bool) → b ≡ ((a || true) && b)
    taken true b = refl
    taken false b = refl

all_given-nil : (fs : List Field) → all_accepted fs ≡ all_given fs []
unfolding all_given gives all_accepted
all_given-nil [] = refl
all_given-nil (f ∷ fs) = rw (all_given-nil fs) (or_false f.accept_config (all_given fs []))
  where
    or_false : (a b : Bool) → (a && b) ≡ ((a || false) && b)
    or_false true b = refl
    or_false false b = refl

all_accepted-assign_all :
    (ls : List (Bytes × Bytes)) (fs : List Field)
    → Distinct fs
    → all_accepted (assign_all fs ls) ≡ all_given fs ls
unfolding assign_all
all_accepted-assign_all [] fs h = all_given-nil fs
all_accepted-assign_all ((key, val) ∷ ls) fs h =
    all_accepted-assign_all ls (assign fs key val) (assign-Distinct key val fs h)
    ∙ all_given-assign key val ls fs h

pub length-render : (ls : List (Bytes × Bytes)) → length ls ≤ length (render ls)
length-render [] = omega arith
length-render ((key, val) ∷ ls) = grind (arith, length-append, length-render ls)

-- For a file of lines `key=value`, whose keys are not empty and have no '=' and whose values have no
-- newline, and buffers of different keys, `parse_arg` does not fault. When for each buffer that is
-- not accepted yet some line gives its key a value that fits, it returns the buffers after all
-- lines; otherwise it is a configuration error.
pub parse_arg-render :
    (ls : List (Bytes × Bytes)) (fs : List Field)
    → AreLines ls
    → Distinct fs
    → parse_arg (render ls) fs
      ≡ (if all_given fs ls then accepted (assign_all fs ls) else config_error)
unfolding parse_arg verdict
parse_arg-render ls fs h d =
    rw
      (
        read_config-render (suc (length (render ls))) ls fs h (omega (arith, length-render ls)),
        all_accepted-assign_all ls fs d,
      )
      refl

-- The buffers of the server and those of the client have different keys.
pub fields-Distinct : Distinct server_fields × Distinct client_fields
unfolding server_fields client_fields field
fields-Distinct = (
  ((refl, tt), (tt, tt)),
  (
    (refl, (refl, (refl, (refl, tt)))),
    ((refl, (refl, (refl, tt))), ((refl, (refl, tt)), ((refl, tt), (tt, tt)))),
  ),
)
