-- ===== src/Box/Daemon/Configure/Same.antt =====
-- MP5's server reads its configuration as that of MP2 does, but for the keys that are new.
use sp.Base.{
  ℕ, zero, suc, ◌<◌, ◌≡◌, refl, sym, ap, subst, ◌∙◌, inl, inr, Bool, false, Option, none, some,
  List, [], ◌∷◌, ◌++◌, arith, Bytes, codes, bytes_eq, bytes_eq_sound, newline, if◌then◌else◌,
  length, Bool-cases,
}
use sp.Base.Int.{ℤ}
use sp.Box.Config.{Parsed, Field, given, assign, field, getdelim, server_fields, all_accepted}
use sp.Box.Config as Config
use sp.Box.Config.Lines.{
  render, AreLines, assign_all, getdelim-append, chop-append, length-end, read_config-render,
  Absent, assign-Absent, length-render,
}
use sp.Box.Daemon.Configure.{
  Arg, atoi, assign_arg, ParsedArg, fault, config_error, accepted, is_given, verdict, read_arg,
  start_arg, daemon_flag, parse_arg,
}

-- The number of the last line with the key `thread`.
abbrev pub thread_of : Option ℤ → List (Bytes × Bytes) → Option ℤ
thread_of o [] = o
thread_of o ((key, val) ∷ ls) =
    thread_of (if bytes_eq (codes "thread") key then some (atoi val) else o) ls

-- The buffer after the lines with the key `run_path`.
abbrev pub run_of : Field → List (Bytes × Bytes) → Field
run_of f [] = f
run_of f ((key, val) ∷ ls) = run_of (if bytes_eq (codes "run_path") key then given f val else f) ls

assign_args : Arg → List (Bytes × Bytes) → Arg
assign_args a [] = a
assign_args a ((key, val) ∷ ls) = assign_args (assign_arg a key val) ls

read_arg-render :
    (fuel : ℕ) (ls : List (Bytes × Bytes)) (a : Arg)
    → AreLines ls
    → length ls < fuel
    → read_arg fuel (render ls) a ≡ verdict (assign_args a ls)
unfolding read_arg assign_args getdelim
read_arg-render zero ls a h n = absurd (omega arith)
read_arg-render (suc fuel) [] a h n = refl
read_arg-render (suc fuel) ((key, val) ∷ ls) a ((k, e, v), h) n =
    rw
      (
        read_arg,
        getdelim-append b'=' key (val ++ newline ∷ render ls) e,
        length-end key b'=' k,
        getdelim-append newline val (render ls) v,
        chop-append key b'=',
        chop-append val newline,
      )
      (read_arg-render fuel ls (assign_arg a key val) h (omega arith))

-- A key that no buffer has.
assign_unchanged : (key val : Bytes) (fs : List Field) → Absent key fs → assign fs key val ≡ fs
unfolding assign
assign_unchanged key val [] h = refl
assign_unchanged key val (f ∷ fs) (n, h) = rw (n, assign_unchanged key val fs h) refl

assign_args_lem :
    (ls : List (Bytes × Bytes)) (a : Arg)
    → Absent (codes "thread") a.fields
    → Absent (codes "run_path") a.fields
    → assign_args a ls ≡ record {
      fields = assign_all a.fields ls;
      thread = thread_of a.thread ls;
      run_path = run_of a.run_path ls;
      daemonize = a.daemonize;
    }
unfolding assign_args assign_all assign_arg
assign_args_lem [] a x y = refl
assign_args_lem ((key, val) ∷ ls) a x y = elim (Bool-cases (bytes_eq (codes "thread") key)) [
  | inl e ↦
      let k : codes "thread" ≡ key = bytes_eq_sound (codes "thread") key e in
      let n : bytes_eq (codes "run_path") key ≡ false =
        subst (λ k. bytes_eq (codes "run_path") k ≡ false) k refl in
      let z = assign_unchanged key val a.fields (subst (λ k. Absent k a.fields) k x) in
      rw (e, n, z) (assign_args_lem ls (record a { thread = some (atoi val) }) x y)
  | inr e ↦ elim (Bool-cases (bytes_eq (codes "run_path") key)) [
    | inl f ↦
        let k : codes "run_path" ≡ key = bytes_eq_sound (codes "run_path") key f in
        let z = assign_unchanged key val a.fields (subst (λ k. Absent k a.fields) k y) in
        rw (e, f, z) (assign_args_lem ls (record a { run_path = given a.run_path val }) x y)
    | inr f ↦
        rw (e, f)
          (assign_args_lem ls (record a { fields = assign a.fields key val })
            (assign-Absent (codes "thread") key val a.fields x)
            (assign-Absent (codes "run_path") key val a.fields y))
  ]
]

-- What the server of MP5 makes of what the server of MP2 makes of the lines.
unfoldable pub extended : Bool → List (Bytes × Bytes) → Parsed → ParsedArg
extended daemonize ls Config.fault = fault
extended daemonize ls Config.config_error = config_error
extended daemonize ls (Config.accepted fs) =
    if is_given (thread_of none ls)
    then accepted (record {
      fields = fs;
      thread = thread_of none ls;
      run_path = run_of (field (codes "run_path") 4096) ls;
      daemonize = daemonize;
    })
    else config_error

verdict-extended :
    (fs : List Field) (daemonize : Bool) (ls : List (Bytes × Bytes))
    → verdict (record {
      fields = fs;
      thread = thread_of none ls;
      run_path = run_of (field (codes "run_path") 4096) ls;
      daemonize = daemonize;
    })
      ≡ extended daemonize ls (Config.verdict fs)
unfolding verdict extended Config.verdict
verdict-extended fs daemonize ls = elim (Bool-cases (all_accepted fs)) [
  | inl e ↦ rw (verdict, Config.verdict, e) refl
  | inr e ↦ rw (verdict, Config.verdict, e) refl
]

-- For a file of lines `key=value`, whose keys are not empty and have no '=' and whose values have no
-- newline: the server of MP5 accepts it exactly when that of MP2 does and some line gives a number of
-- threads. It then has the same paths, the number of the last such line, and the last directory to run
-- in that fits. A file that MP2's server refuses it refuses too.
pub parse_arg-same :
    (ls : List (Bytes × Bytes)) (argv : List Bytes)
    → AreLines ls
    → parse_arg (some (render ls)) argv
      ≡ extended (daemon_flag argv) ls (Config.parse_arg (render ls) server_fields)
unfolding parse_arg start_arg Config.parse_arg server_fields
parse_arg-same ls argv h =
    let a : Arg = record start_arg { daemonize = daemon_flag argv } in
    let n = length-render ls in
    let x = read_arg-render (suc (length (render ls))) ls a h (omega arith) in
    let y = assign_args_lem ls a (refl, (refl, tt)) (refl, (refl, tt)) in
    let z = read_config-render (suc (length (render ls))) ls server_fields h (omega arith) in
    x
    ∙ ap verdict y
    ∙ verdict-extended (assign_all server_fields ls) (daemon_flag argv) ls
    ∙ ap (extended (daemon_flag argv) ls) (sym z)
