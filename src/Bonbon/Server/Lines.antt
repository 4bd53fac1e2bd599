-- ===== src/Bonbon/Server/Lines.antt =====
-- How the clients' data is cut into lines.
use mathlib.Core.Option.{some-injective}
use sp.Base.{
  ℕ, ◌+◌, ◌≤◌, ◌≡◌, refl, sym, ap, ◌∙◌, inl, inr, true, false, ◌&&◌, some, [], ◌∷◌, ◌++◌, arith,
  Bytes, codes, newline, Free, leb, ◌==◌, length, bytes_eq, Bool-cases,
}
use sp.Bonbon.Json.{JsonLib}
use sp.Bonbon.Server.{
  Server, Step, Setup, handle_msg, execute, try_match, queue_user, quit, part, forget,
  after_command, drop_line, obey_line, receive_text,
}
use sp.Bonbon.Server.Pairs.{send_message_lem}

-- A text is cut at its first '\n', if no '\0' stands before it.
pub handle_msg-line :
    (line rest : Bytes)
    → Free newline line
    → Free 0 line
    → handle_msg (line ++ newline ∷ rest) ≡ some (line, rest)
unfolding handle_msg
handle_msg-line [] rest h k = refl
handle_msg-line (c ∷ line) rest h k = ground (arith, handle_msg-line line rest h.1 k.1)

drop_line_lem :
    (line rest : Bytes)
    → Free newline line
    → Free 0 line
    → drop_line (line ++ newline ∷ rest) ≡ rest
unfolding drop_line
drop_line_lem line rest h k = rw (handle_msg-line line rest h k, drop_line) refl

module _ (json : JsonLib) (setup : Setup) where
  open json use {Json, parse, get_string}

  quit-temp_msg : (s : Server Json) (fd : ℕ) → (quit json setup s fd).server.temp_msg ≡ s.temp_msg
  unfolding quit part forget
  quit-temp_msg s fd = elim (Bool-cases (s.pair fd == 0)) [ inl e ↦ rw e refl | inr e ↦ rw e refl ]

  try_match-temp_msg :
      (s : Server Json) (fd : ℕ) (j : Json) (step : Step Json)
      → try_match json setup s fd j ≡ some step
      → step.server.temp_msg ≡ s.temp_msg
  unfolding try_match queue_user
  try_match-temp_msg s fd j step e = ground arith

  execute-temp_msg :
      (s : Server Json) (fd : ℕ) (j : Json) (cmd : Bytes) (step : Step Json)
      → execute json setup s fd j cmd ≡ some step
      → step.server.temp_msg ≡ s.temp_msg
  unfolding execute
  execute-temp_msg s fd j cmd step e = elim (Bool-cases (bytes_eq cmd (codes "try_match"))) [
    | inl t ↦ try_match-temp_msg s fd j step (rw (t, execute) at e)
    | inr t ↦ elim (Bool-cases (bytes_eq cmd (codes "quit"))) [
      | inl q ↦
          ap (λ (x : Step Json). x.server.temp_msg)
            (sym (some-injective _ _ (rw (t, q, execute) at e)))
          ∙ quit-temp_msg s fd
      | inr q ↦ elim (Bool-cases (bytes_eq cmd (codes "send_message"))) [
        | inl m ↦
            ap (λ (x : Server Json). x.temp_msg)
              (send_message_lem json setup s fd j step (rw (t, q, m, execute) at e))
        | inr m ↦
            ap (λ (x : Step Json). x.server.temp_msg)
              (sym (some-injective _ _ (rw (t, q, m, execute) at e)))
      ]
    ]
  ]

  -- A complete line is obeyed with what follows it in the buffer.
  receive_text-line :
      (s : Server Json) (fd : ℕ) (line rest : Bytes)
      → s.temp_msg ≡ []
      → length (line ++ newline ∷ rest) ≤ 9999
      → Free newline line
      → Free 0 line
      → receive_text json setup s fd (line ++ newline ∷ rest)
        ≡ obey_line json setup (record s { temp_msg = rest }) fd line
  unfolding receive_text
  receive_text-line s fd line rest empty short f f' =
      let fit : (leb (length (line ++ newline ∷ rest)) 9999
            && leb (0 + length (line ++ newline ∷ rest) + 1) 10000)
          ≡ true =
        ground arith in
      rw (empty, fit, handle_msg-line line rest f f') refl

  obey_line-parsed :
      (s : Server Json) (fd : ℕ) (line : Bytes) (j : Json) (cmd : Bytes) (mid : Step Json)
      → parse line ≡ some j
      → get_string j (codes "cmd") ≡ some cmd
      → execute json setup s fd j cmd ≡ some mid
      → obey_line json setup s fd line ≡ after_command json setup mid
  unfolding obey_line
  obey_line-parsed s fd line j cmd mid parsed is_cmd done = rw (parsed, is_cmd, done) refl

  after_command-line :
      (mid : Step Json) (second rest : Bytes)
      → mid.breaks ≡ false
      → mid.server.temp_msg ≡ second ++ newline ∷ rest
      → Free newline second
      → Free 0 second
      → after_command json setup mid
        ≡ some (record mid { server = record (mid.server) { temp_msg = rest } })
  unfolding after_command
  after_command-line mid second rest stays e g g' =
      rw (stays, e, drop_line_lem second rest g g') refl

  -- Of two lines that arrive together, in an empty buffer with room for them, only the first is
  -- obeyed, if it is understood and its command does not leave the loop: the second is cut off,
  -- and nothing looks at it.
  pub receive_text-second :
      (s : Server Json) (fd : ℕ) (line second rest : Bytes) (j : Json) (cmd : Bytes)
      (mid : Step Json)
      → s.temp_msg ≡ []
      → length (line ++ newline ∷ (second ++ newline ∷ rest)) ≤ 9999
      → Free newline line
      → Free 0 line
      → Free newline second
      → Free 0 second
      → parse line ≡ some j
      → get_string j (codes "cmd") ≡ some cmd
      → execute json setup (record s { temp_msg = second ++ newline ∷ rest }) fd j cmd ≡ some mid
      → mid.breaks ≡ false
      → receive_text json setup s fd (line ++ newline ∷ (second ++ newline ∷ rest))
        ≡ some (record mid { server = record (mid.server) { temp_msg = rest } })
  receive_text-second s fd line second rest j cmd mid empty short f f' g g' parsed is_cmd done
        stays =
      receive_text-line s fd line (second ++ newline ∷ rest) empty short f f'
      ∙ obey_line-parsed (record s { temp_msg = second ++ newline ∷ rest }) fd line j cmd mid parsed
          is_cmd done
      ∙ after_command-line mid second rest stays (execute-temp_msg _ fd j cmd mid done) g g'
