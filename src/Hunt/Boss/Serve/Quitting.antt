-- ===== src/Hunt/Boss/Serve/Quitting.antt =====
-- The count of running dumps, on which the boss's way of quitting rests.
use mathlib.Core.Option.{some-injective}
use sp.Base.{
  ℕ, ◌+◌, ◌-◌, ◌≡◌, ◌≢◌, refl, subst, inl, inr, Bool, true, Option, none, some, List, [], ◌∷◌, ◌++◌,
  arith, Bytes, ◌==◌, if◌then◌else◌, Bool-cases, >>=-eq-some,
}
use sp.Hunt.Md5.{Md5}
use sp.Hunt.Protocol.{Treasure}
use sp.Hunt.Boss.State.{Config}
use sp.Hunt.Boss.Commands.{
  Files, Flag, leaves, failed, nothing, opened, handle_command, handle_command-IsReply,
}
use sp.Hunt.Boss.Dumps.{Dump, dump_turn}
use sp.Hunt.Boss.Serve.{
  Server, Event, Output, Next, on, stopped, exited, live, serve_dumps, head, load_mine, finish,
  proceed, read_miners, obey_reply, after_loading, exits, new_dump, obey, command, react, serve,
  round,
}

live-append : (ds : List Dump) (d : Dump) → d.fd ≢ 0 → live (ds ++ d ∷ []) ≡ live ds + 1
unfolding live
live-append [] d h = ground arith
live-append (e ∷ ds) d h = ground (arith, live-append ds d h)

module _ (m : Md5) (files : Files) where
  open m use {Ctx}

  -- `dump_num` is the number of dumps that still have a descriptor.
  abbrev pub IsCounted : Server Ctx → Type 0
  IsCounted s = s.dump_num ≡ live s.dumps

  -- After a round: the count holds while the loop goes on, and the loop is left by a quit only when
  -- no dump is running any more.
  abbrev pub Ends : Next Ctx → Type 0
  Ends (on s outputs) = IsCounted s
  Ends (stopped s outputs) = (live s.dumps ≡ 0) × (s.quitting ≡ true)
  Ends (exited outputs) = Unit {0}

  dump_turn_live :
      (c : Config Ctx) (ready : Bool) (d : Dump)
      → (if (dump_turn Ctx c ready d).dump.fd == 0 then 0 else 1)
          + (if (dump_turn Ctx c ready d).ended then 1 else 0)
        ≡ (if d.fd == 0 then 0 else 1)
  unfolding dump_turn
  dump_turn_live c ready d = ground arith

  live-serve_dumps :
      (c : Config Ctx) (ready : ℕ → Bool) (ds : List Dump)
      → live (serve_dumps m files c ready ds).dumps + (serve_dumps m files c ready ds).ended
        ≡ live ds
  unfolding serve_dumps live
  live-serve_dumps c ready [] = refl
  live-serve_dumps c ready (d ∷ ds) =
      omega (arith, live-serve_dumps c ready ds, dump_turn_live c (ready d.fd) d)

  finish-Ends :
      (s : Server Ctx) (ready : ℕ → Bool) (ts : List (Treasure Ctx)) (before : List (Output Ctx))
      (n : Next Ctx)
      → IsCounted s
      → finish m files s ready ts before ≡ some n
      → Ends n
  unfolding finish
  finish-Ends s ready ts before n h e =
      let d = serve_dumps m files s.config ready s.dumps in
      let (r, _, f) = >>=-eq-some (read_miners m files s ts) (proceed m files s d before) e in
      let counted : s.dump_num - d.ended ≡ live d.dumps =
        omega (arith, live-serve_dumps s.config ready s.dumps) in
      subst Ends (some-injective _ _ f) counted

  obey-Ends :
      (s : Server Ctx) (ready : ℕ → Bool) (ts : List (Treasure Ctx)) (before : List (Output Ctx))
      (flag : Flag) (n : Next Ctx)
      → IsCounted s
      → ((fd : ℕ) → flag ≡ opened fd → fd ≢ 0)
      → obey m files s ready ts before flag ≡ some n
      → Ends n
  unfolding obey new_dump
  obey-Ends s ready ts before leaves n h real e = elim (Bool-cases (s.dump_num == 0)) [
    | inl done ↦ subst Ends (some-injective _ _ (simp done at e)) (ground arith, refl)
    | inr busy ↦ finish-Ends (record s { quitting = true }) ready ts before n h (simp busy at e)
  ]
  obey-Ends s ready ts before (opened fd) n h real e =
      finish-Ends (new_dump m files s fd) ready ts before n
        (omega (
          arith,
          live-append s.dumps (record { size = s.config.size; ptr = 0; fd = fd }) (real fd refl),
        ))
        e
  obey-Ends s ready ts before failed n h real e = finish-Ends s ready ts before n h e
  obey-Ends s ready ts before nothing n h real e = finish-Ends s ready ts before n h e

  command-Ends :
      (s : Server Ctx) (ready : ℕ → Bool) (ts : List (Treasure Ctx)) (before : List (Output Ctx))
      (line : Bytes) (n : Next Ctx)
      → IsCounted s
      → command m files s ready ts before line ≡ some n
      → Ends n
  unfolding command
  command-Ends s ready ts before line n h e =
      let (r, replied, f) =
        >>=-eq-some (handle_command m files s.config s.quitting line)
          (obey_reply m files s ready ts before) e in
      let promise = handle_command-IsReply m files s.config s.quitting line r replied in
      elim (Bool-cases (exits m files r.effects)) [
        | inl out ↦ subst Ends (some-injective _ _ (simp out at f)) tt
        | inr in_loop ↦
            obey-Ends (record s { config = r.config }) ready ts _ r.flag n h promise.real
              (simp in_loop at f)
      ]

  head-IsCounted :
      (s : Server Ctx)
      → IsCounted s
      → IsCounted (head m files s).0
        × ((head m files s).1 ≡ true
            → (live (head m files s).0.dumps ≡ 0) × ((head m files s).0.quitting ≡ true))
  unfolding head
  head-IsCounted s h = elim (Bool-cases (s.dump_num == 0)) [
    | inl none_left ↦ simp none_left (h, λ q. (ground arith, q))
    | inr some_left ↦ simp some_left (h, λ q. absurd (cc))
  ]

  react-Ends :
      (s : Server Ctx) (ready : ℕ → Bool) (ts : List (Treasure Ctx)) (before : List (Output Ctx))
      (stdin : Option Bytes) (n : Next Ctx)
      → IsCounted s
      → react m files s ready ts before stdin ≡ some n
      → Ends n
  unfolding react
  react-Ends s ready ts before none n h e = finish-Ends s ready ts before n h e
  react-Ends s ready ts before (some line) n h e = command-Ends s ready ts before line n h e

  serve-Ends :
      (s : Server Ctx) (e : Event Ctx) (before : List (Output Ctx)) (n : Next Ctx)
      → IsCounted s
      → serve m files s e before ≡ some n
      → Ends n
  unfolding serve
  serve-Ends s e before n h f =
      let (l, _, g) =
        >>=-eq-some (load_mine m files s.config) (after_loading m files s e before) f in
      react-Ends (record s { config = l.0 }) _ e.treasures _ e.stdin n h g

  -- Each round of the main loop keeps `dump_num` equal to the number of running dumps, and a quit
  -- ends the loop only when none is running: a quit during a dump waits for it.
  pub round-Ends :
      (s : Server Ctx) (e : Event Ctx) (n : Next Ctx)
      → IsCounted s
      → round m files s e ≡ some n
      → Ends n
  unfolding round
  round-Ends s e n h r = elim (Bool-cases (head m files s).1) [
    | inl leave ↦ subst Ends (some-injective _ _ (rw leave at r)) ((head-IsCounted s h).1 leave)
    | inr stay ↦
        serve-Ends ((head m files s).0) e ((head m files s).2) n (head-IsCounted s h).0
          (rw stay at r)
  ]
