-- ===== src/Bonbon/Server/Pairs.antt =====
-- Who talks to whom.
use mathlib.Core.Option.{some-injective}
use sp.Base.{
  ℕ, ◌+◌, ◌%◌, ◌≡◌, ◌≢◌, refl, sym, ap, subst, ◌∙◌, inl, inr, Bool, true, false, ◌||◌, some, List,
  [], ◌∷◌, ◌++◌, arith, Bytes, codes, bytes_eq, ◌==◌, Bool-cases, Option-cases, >>=-eq-some, ◌>>=◌,
  leb, length, ◌&&◌, bytes_eq_sound,
}
use sp.Bonbon.Protocol.{Match, send_match, no_match, put}
use sp.Bonbon.Json.{JsonLib}
use sp.Bonbon.Server.{
  Server, Step, Setup, Input, closed, reset, failed, received, first_live, handle_msg, execute,
  try_match, queue_user, quit, part, forget, send_message, after_command, obey_line, receive_text,
  close_client, serve_client, join, settle,
}
use sp.Bonbon.Server.Paired.{Paired, Paired-join, Paired-part, Paired-forget, Paired-wait}

-- A report joins two different users, and never descriptor 0.
abbrev pub AreProper : List Match → Type 0
AreProper [] = Unit {0}
AreProper (no_match ∷ reports) = AreProper reports
AreProper (send_match a b ∷ reports) = ((a ≢ b) × (a ≢ 0) × (b ≢ 0)) × AreProper reports

first_live_lem :
    (is_done : ℕ → Bool) (reports : List Match) (a b : ℕ)
    → AreProper reports
    → first_live is_done reports ≡ some (a, b)
    → (a ≢ b) × (a ≢ 0) × (b ≢ 0) × (is_done a ≡ false) × (is_done b ≡ false)
unfolding first_live
first_live_lem is_done [] a b h e = absurd (cc)
first_live_lem is_done (no_match ∷ reports) a b h e = first_live_lem is_done reports a b h e
first_live_lem is_done (send_match x y ∷ reports) a b h e =
    elim (Bool-cases (is_done x || is_done y)) [
      | inl d ↦ first_live_lem is_done reports a b h.1 (rw d at e)
      | inr d ↦
          let f = some-injective _ _ (rw d at e) in
          let p : x ≡ a = ap (λ r. r.0) f in
          let q : y ≡ b = ap (λ r. r.1) f in
          rw (← p, ← q) (h.0.0, h.0.1, h.0.2, ground arith, ground arith)
    ]

module _ (json : JsonLib) (setup : Setup) where
  open json use {Json, parse, get_string}

  abbrev pub IsPaired : Server Json → Type 0
  IsPaired s = Paired s.is_done s.pair

  join_lem :
      (s : Server Json) (a b : ℕ) (step : Step Json)
      → join json setup s a b ≡ some step
      → (step.server.is_done ≡ put (put s.is_done a true) b true)
        × (step.server.pair ≡ put (put s.pair a b) b a)
  unfolding join
  join_lem s a b step e = ground arith

  join-IsPaired :
      (s : Server Json) (a b : ℕ) (step : Step Json)
      → IsPaired s
      → (a ≢ b) × (a ≢ 0) × (b ≢ 0) × (s.is_done a ≡ false) × (s.is_done b ≡ false)
      → join json setup s a b ≡ some step
      → IsPaired step.server
  join-IsPaired s a b step p (n, n', n'', d, d') e =
      let (x, y) = join_lem s a b step e in
      rw (x, y) (Paired-join s.is_done s.pair a b n n' n'' d d' p)

  -- The report of a child joins at most two users, who both waited: partners stay mutual, whatever
  -- else the child reports, as long as it names no user together with himself and none is 0.
  pub settle-IsPaired :
      (s : Server Json) (reports : List Match) (step : Step Json)
      → IsPaired s
      → AreProper reports
      → settle json setup s reports ≡ some step
      → IsPaired step.server
  unfolding settle
  settle-IsPaired s reports step p h e = elim (Option-cases (first_live s.is_done reports)) [
    | inl f ↦
        subst (λ (x : Step Json). IsPaired x.server) (some-injective _ _ (rw (f, settle) at e)) p
    | inr (r, f) ↦
        join-IsPaired (record s { matched = (s.matched + 1) % 20 }) r.0 r.1 step p
          (first_live_lem s.is_done reports r.0 r.1 h f) (rw (f, settle) at e)
  ]

  try_match_lem :
      (s : Server Json) (fd : ℕ) (j : Json) (step : Step Json)
      → try_match json setup s fd j ≡ some step
      → (step.server.is_done ≡ put s.is_done fd false) × (step.server.pair ≡ s.pair)
  unfolding try_match queue_user
  try_match_lem s fd j step e = ground arith

  pub send_message_lem :
      (s : Server Json) (fd : ℕ) (j : Json) (step : Step Json)
      → send_message json setup s fd j ≡ some step
      → step.server ≡ s
  unfolding send_message
  send_message_lem s fd j step e = ground arith

  quit-IsPaired : (s : Server Json) (fd : ℕ) → IsPaired s → IsPaired (quit json setup s fd).server
  unfolding quit forget part
  quit-IsPaired s fd p = elim (Bool-cases (s.pair fd == 0)) [
    | inl e ↦ rw e (Paired-forget s.is_done s.pair fd (s.pair fd) p)
    | inr e ↦
        rw e
          (Paired-part _ s.pair fd (ground arith) (Paired-forget s.is_done s.pair fd (s.pair fd) p))
  ]

  -- A connection that closes takes its pair apart on both sides.
  close_client-IsPaired :
      (s : Server Json) (fd : ℕ) → IsPaired s → IsPaired (close_client json setup s fd).server
  unfolding close_client forget part
  close_client-IsPaired s fd p = elim (Bool-cases (s.pair fd == 0)) [
    | inl e ↦ rw e (Paired-forget s.is_done s.pair fd (s.pair fd) p)
    | inr e ↦
        rw e
          (Paired-part _ s.pair fd (ground arith) (Paired-forget s.is_done s.pair fd (s.pair fd) p))
  ]

  execute-IsPaired :
      (s : Server Json) (fd : ℕ) (j : Json) (cmd : Bytes) (step : Step Json)
      → IsPaired s
      → (cmd ≡ codes "try_match" → s.pair fd ≡ 0)
      → execute json setup s fd j cmd ≡ some step
      → IsPaired step.server
  unfolding execute
  execute-IsPaired s fd j cmd step p alone e =
      elim (Bool-cases (bytes_eq cmd (codes "try_match"))) [
        | inl t ↦
            let (x, y) = try_match_lem s fd j step (rw (t, execute) at e) in
            rw (x, y) (Paired-wait s.is_done s.pair fd (alone (bytes_eq_sound _ _ t)) p)
        | inr t ↦ elim (Bool-cases (bytes_eq cmd (codes "quit"))) [
          | inl q ↦
              subst (λ (x : Step Json). IsPaired x.server)
                (some-injective _ _ (rw (t, q, execute) at e)) (quit-IsPaired s fd p)
          | inr q ↦ elim (Bool-cases (bytes_eq cmd (codes "send_message"))) [
            | inl m ↦ rw (send_message_lem s fd j step (rw (t, q, m, execute) at e)) p
            | inr m ↦
                subst (λ (x : Step Json). IsPaired x.server)
                  (some-injective _ _ (rw (t, q, m, execute) at e)) p
          ]
        ]
      ]

  after_command-IsPaired :
      (x y : Step Json)
      → IsPaired x.server
      → after_command json setup x ≡ some y
      → IsPaired y.server
  unfolding after_command
  after_command-IsPaired x y p e = elim (Bool-cases x.breaks) [
    | inl b ↦
        subst (λ (z : Step Json). IsPaired z.server)
          (some-injective _ _ (rw (b, after_command) at e)) p
    | inr b ↦
        subst (λ (z : Step Json). IsPaired z.server)
          (some-injective _ _ (rw (b, after_command) at e)) p
  ]

  obey_line-IsPaired :
      (s : Server Json) (fd : ℕ) (line : Bytes) (step : Step Json)
      → IsPaired s
      → ((j : Json)
          → parse line ≡ some j
          → get_string j (codes "cmd") ≡ some (codes "try_match")
          → s.pair fd ≡ 0)
      → obey_line json setup s fd line ≡ some step
      → IsPaired step.server
  unfolding obey_line
  obey_line-IsPaired s fd line step p alone e =
      let (j, parsed, e1) =
        >>=-eq-some (parse line)
          (λ j. get_string j (codes "cmd") >>= λ cmd.
            execute json setup s fd j cmd >>= after_command json setup)
          e in
      let (cmd, is_cmd, e2) =
        >>=-eq-some (get_string j (codes "cmd"))
          (λ cmd. execute json setup s fd j cmd >>= after_command json setup) e1 in
      let (mid, done, e3) =
        >>=-eq-some (execute json setup s fd j cmd) (after_command json setup) e2 in
      let q = execute-IsPaired s fd j cmd mid p (λ t. alone j parsed (is_cmd ∙ ap some t)) done in
      after_command-IsPaired mid step q e3

  -- Nobody asks for a match while he has a partner.
  abbrev pub AsksAlone : Server Json → ℕ → Bytes → Type 0
  AsksAlone s fd line =
      (j : Json)
      → parse line ≡ some j
      → get_string j (codes "cmd") ≡ some (codes "try_match")
      → s.pair fd ≡ 0

  receive_text-IsPaired :
      (s : Server Json) (fd : ℕ) (buffer : Bytes) (step : Step Json)
      → IsPaired s
      → ((line rest : Bytes)
          → handle_msg (s.temp_msg ++ buffer) ≡ some (line, rest)
          → AsksAlone s fd line)
      → receive_text json setup s fd buffer ≡ some step
      → IsPaired step.server
  unfolding receive_text
  receive_text-IsPaired s fd buffer step p h e =
      elim (Bool-cases
        (leb (length buffer) 9999 && leb (length s.temp_msg + length buffer + 1) 10000)) [
          | inr big ↦ absurd (cc (sym (rw (big, receive_text) at e)))
          | inl fit ↦ elim (Option-cases (handle_msg (s.temp_msg ++ buffer))) [
            | inl f ↦
                subst (λ (z : Step Json). IsPaired z.server)
                  (some-injective _ _ (rw (f, fit, receive_text) at e)) p
            | inr ((line, rest), f) ↦
                obey_line-IsPaired (record s { temp_msg = rest }) fd line step p (h line rest f)
                  (rw (f, fit, receive_text) at e)
          ]
        ]

  -- Whatever a client sends, and also when it leaves or its connection is reset, partners stay mutual
  -- and those who have one do not wait, as long as no client that has a partner asks for a match.
  pub serve_client-IsPaired :
      (s : Server Json) (fd : ℕ) (input : Input) (step : Step Json)
      → IsPaired s
      → ((buffer line rest : Bytes)
          → input ≡ received buffer
          → handle_msg (s.temp_msg ++ buffer) ≡ some (line, rest)
          → AsksAlone s fd line)
      → serve_client json setup s fd input ≡ some step
      → IsPaired step.server
  unfolding serve_client
  serve_client-IsPaired s fd closed step p h e =
      subst (λ (z : Step Json). IsPaired z.server) (some-injective _ _ e)
        (close_client-IsPaired s fd p)
  serve_client-IsPaired s fd reset step p h e =
      subst (λ (z : Step Json). IsPaired z.server) (some-injective _ _ e)
        (close_client-IsPaired s fd p)
  serve_client-IsPaired s fd failed step p h e = absurd (cc)
  serve_client-IsPaired s fd (received buffer) step p h e =
      receive_text-IsPaired s fd buffer step p (λ line rest f. h buffer line rest refl f) e
