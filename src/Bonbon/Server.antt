-- ===== src/Bonbon/Server.antt =====
-- MP4/inf-bonbon-server.cpp: the state of `main`, the messages of the clients and the reports of the
-- children. Descriptors are below 1200, the size of the arrays, as select() has at most 1024. The
-- vector FD is never read, and `readset` is part of what select() reports; both are left out. `none`
-- is a fault, or an exit on an error.
pub mod Paired
pub mod Pairs
pub mod Lines
pub mod Tasks
use sp.Base.{
  ℕ, zero, suc, ◌+◌, ◌%◌, Bool, true, false, ◌&&◌, ◌||◌, Option, none, some, List, [], ◌∷◌, ◌++◌,
  Bytes, codes, newline, bytes_eq, ltb, leb, ◌==◌, if◌then◌else◌, ◌>>=◌, length, take, max,
}
use sp.Loser.Commit.Decimal.{to_string}
use sp.Bonbon.Protocol.{
  child_num, User, Header, Match, to_match, put_in_queue, delete, exit, send_match, no_match, put,
}
use sp.Bonbon.Json.{JsonLib}

-- `handle_msg`: the line and what is left, if there is a '\n' before any '\0'.
unfoldable pub handle_msg : Bytes → Option (Bytes × Bytes)
handle_msg [] = none
handle_msg (c ∷ s) =
    let rest = handle_msg s in
    if c == newline
    then some ([], s)
    else if c == 0
    then none
    else (rest >>= λ r. some (c ∷ r.0, r.1))

pub record Server (Json : Type 0) : Type 0 where
  pub is_done : ℕ → Bool
  pub pair : ℕ → ℕ
  pub json_pool : ℕ → Json
  pub fd_queue : ℕ → Bool
  pub max_fd : ℕ
  pub current_process : ℕ
  pub matched : ℕ
  pub temp_msg : Bytes

pub data Output : Type 0 where
  to_child : ℕ → Header → Output
  send : ℕ → Bytes → Output
  close : ℕ → Output
  compile : Bytes → Bytes → Output

-- What recv() brings.
pub data Input : Type 0 where
  closed reset failed : Input
  received : Bytes → Input

-- What select() reports: the user's line, the packets of the child whose turn it is, the result of
-- accept(), and the clients' input.
pub record Event : Type 0 where
  pub stdin : Option Bytes
  pub report : Option (List Match)
  pub connection : Option ℕ
  pub inputs : ℕ → Option Input

-- The state after a part of the loop, what was written, and whether a `break` left the loop.
pub record Step (Json : Type 0) : Type 0 where
  pub server : Server Json
  pub outputs : List Output
  pub breaks : Bool

-- The descriptor that listens, and the children's pipes.
pub record Setup : Type 0 where
  pub sockfd : ℕ
  pub is_child : ℕ → Bool

-- The loops over the children, from `i` on: to all, or to all but one.
unfoldable pub to_all : ℕ → ℕ → Header → List Output
to_all i zero h = []
to_all i (suc more) h = to_child i h ∷ to_all (i + 1) more h

unfoldable pub to_others : ℕ → ℕ → ℕ → Header → List Output
to_others current i zero h = []
to_others current i (suc more) h =
    let rest = to_others current (i + 1) more h in
    if i == current then rest else to_child i h ∷ rest

unfoldable pub update_queue : ℕ → ℕ → List Output
unfolding to_all
update_queue fd1 fd2 = to_all 0 child_num (delete fd1 fd2)

-- The first report on two users who are not done.
unfoldable pub first_live : (ℕ → Bool) → List Match → Option (ℕ × ℕ)
first_live is_done [] = none
first_live is_done (no_match ∷ reports) = first_live is_done reports
first_live is_done (send_match a b ∷ reports) =
    let rest = first_live is_done reports in if is_done a || is_done b then rest else some (a, b)

-- `for(int i = 1; i < 1200; ++i) if(fd_queue[i]) …`
unfoldable pub highest : (ℕ → Bool) → ℕ → ℕ → ℕ → ℕ
highest fd_queue top i zero = top
highest fd_queue top i (suc more) =
    highest fd_queue (if fd_queue i then max top i else top) (i + 1) more

-- A text that goes out by way of a buffer of 10000 bytes.
abbrev pub sent_line : Bytes → Option Bytes
sent_line text = if leb (length text) 9998 then some (text ++ newline ∷ []) else none

abbrev pub other_side_quit : Bytes
other_side_quit = codes "{\"cmd\":\"other_side_quit\"}\n"

abbrev pub fits : ℕ → Bytes → Option Bytes
fits size text = if ltb (length text) size then some text else none

-- `isJson = handle_msg(buff, temp_msg, tmp_size)` behind a command: nothing looks at the line.
unfoldable pub drop_line : Bytes → Bytes
unfolding handle_msg
drop_line msg = elim (handle_msg msg) [ none ↦ msg | some r ↦ r.1 ]

module _ (json : JsonLib) (setup : Setup) where
  open json use {Json, null, parse, get_string, get_number, put_string, dump}
  open setup use {sockfd, is_child}

  abbrev on : Server Json → List Output → Step Json
  on s outputs = record { server = s; outputs = outputs; breaks = false }

  -- Into the buffers of `struct User`.
  unfoldable pub parse_json : Json → Option User
  parse_json j = do
    name ← get_string j (codes "name")
    name ← fits 33 name
    gender ← get_string j (codes "gender")
    gender ← fits 7 gender
    introduction ← get_string j (codes "introduction")
    introduction ← fits 1025 introduction
    age ← get_number j (codes "age")
    some (record { name = name; age = age; gender = gender; introduction = introduction })

  -- `compile`: where the filter goes, and its text.
  abbrev pub filter_path : Bytes → ℕ → Bytes
  filter_path name fd = codes "./filter/" ++ (name ++ (codes "_" ++ to_string fd))

  abbrev pub filter_text : Bytes → Bytes
  filter_text filter =
      codes "struct User {char name[33];unsigned int age;char gender[7];char introduction[1025];};"
      ++ filter

  -- The user is given to one child to match, and to the others to wait in their queues.
  unfoldable pub assign_task : ℕ → ℕ → Bytes → User → List Output
  assign_task current fd path user =
      to_child current (to_match fd path user)
      ∷ to_others current 0 child_num (put_in_queue fd path user)

  unfoldable pub queue_user : Server Json → ℕ → Json → Bytes → User → Step Json
  unfolding assign_task
  queue_user s fd j filter user =
      let path = filter_path user.name fd in
      on
        (record s {
          is_done = put s.is_done fd false;
          json_pool = put s.json_pool fd j;
          current_process = (s.current_process + 1) % child_num;
        })
        (compile path (filter_text filter)
          ∷ send fd (codes "{\"cmd\":\"try_match\"}\n")
          ∷ assign_task s.current_process fd path user)

  unfoldable pub try_match : Server Json → ℕ → Json → Option (Step Json)
  unfolding parse_json queue_user
  try_match s fd j = do
    user ← parse_json j
    filter ← get_string j (codes "filter_function")
    some (queue_user s fd j filter user)

  -- What a quit and a closed connection have in common.
  unfoldable pub forget : Server Json → ℕ → Server Json
  forget s fd = record s {
    is_done = put (put s.is_done fd true) (s.pair fd) true;
    json_pool = put (put s.json_pool fd null) (s.pair fd) null;
  }

  -- `pair[pair[fd]] = 0; pair[fd] = 0;`
  unfoldable pub part : Server Json → ℕ → Server Json
  part s fd = record s { pair = put (put s.pair (s.pair fd) 0) fd 0 }

  unfoldable pub quit : Server Json → ℕ → Step Json
  unfolding forget part update_queue
  quit s fd =
      let told = update_queue fd (s.pair fd) ++ send fd (codes "{\"cmd\":\"quit\"}\n") ∷ [] in
      if s.pair fd == 0
      then record { server = forget s fd; outputs = told; breaks = true }
      else on (part (forget s fd) fd) (told ++ send (s.pair fd) other_side_quit ∷ [])

  -- The acknowledgement to the sender, and the message to the other.
  unfoldable pub send_message : Server Json → ℕ → Json → Option (Step Json)
  send_message s fd j =
      if s.pair fd == 0 then some (record { server = s; outputs = []; breaks = true }) else do
        ack ← sent_line (dump j)
        text ← sent_line (dump (put_string j (codes "cmd") (codes "receive_message")))
        some (on s (send fd ack ∷ send (s.pair fd) text ∷ []))

  unfoldable pub execute : Server Json → ℕ → Json → Bytes → Option (Step Json)
  unfolding try_match quit send_message
  execute s fd j cmd =
      if bytes_eq cmd (codes "try_match")
      then try_match s fd j
      else if bytes_eq cmd (codes "quit")
      then some (quit s fd)
      else if bytes_eq cmd (codes "send_message")
      then send_message s fd j
      else some (on s [])

  unfoldable pub after_command : Step Json → Option (Step Json)
  unfolding drop_line
  after_command step =
      if step.breaks
      then some step
      else some (record step {
        server = record (step.server) { temp_msg = drop_line step.server.temp_msg };
      })

  unfoldable pub obey_line : Server Json → ℕ → Bytes → Option (Step Json)
  unfolding execute after_command
  obey_line s fd line = do
    j ← parse line
    cmd ← get_string j (codes "cmd")
    step ← execute s fd j cmd
    after_command step

  -- New data, into the one buffer that all clients share.
  unfoldable pub receive_text : Server Json → ℕ → Bytes → Option (Step Json)
  unfolding handle_msg obey_line
  receive_text s fd buffer =
      if leb (length buffer) 9999 && leb (length s.temp_msg + length buffer + 1) 10000
      then (elim (handle_msg (s.temp_msg ++ buffer)) [
        | none ↦ some (on (record s { temp_msg = s.temp_msg ++ buffer }) [])
        | some r ↦ obey_line (record s { temp_msg = r.1 }) fd r.0
      ])
      else none

  unfoldable pub close_client : Server Json → ℕ → Step Json
  unfolding forget part update_queue
  close_client s fd =
      let fds = put s.fd_queue fd false in
      let gone = record (forget s fd) { fd_queue = fds; max_fd = highest fds sockfd 1 1199 } in
      let told = close fd ∷ update_queue fd (s.pair fd) in
      if s.pair fd == 0
      then on gone told
      else on (part gone fd) (told ++ send (s.pair fd) other_side_quit ∷ [])

  unfoldable pub serve_client : Server Json → ℕ → Input → Option (Step Json)
  unfolding close_client receive_text
  serve_client s fd closed = some (close_client s fd)
  serve_client s fd reset = some (close_client s fd)
  serve_client s fd failed = none
  serve_client s fd (received buffer) = receive_text s fd buffer

  -- A new connection; a failed accept() leads to an index of -1.
  unfoldable pub accept : Server Json → Option ℕ → Option (Step Json)
  accept s none = none
  accept s (some client_fd) = some (
      on (record s { max_fd = max s.max_fd client_fd; fd_queue = put s.fd_queue client_fd true })
        [])

  -- The body of the loop over the descriptors.
  unfoldable pub serve_fd : Server Json → Event → ℕ → Option (Step Json)
  unfolding accept serve_client
  serve_fd s e fd = if is_child fd then some (on s []) else elim (e.inputs fd) [
    | none ↦ some (on s [])
    | some input ↦ (if fd == sockfd then accept s e.connection else serve_client s fd input)
  ]

  -- The loop, from `fd` on, up to `max_fd` as it is then.
  unfoldable pub serve_fds : ℕ → Server Json → Event → ℕ → Option (Server Json × List Output)
  unfolding serve_fd
  serve_fds zero s e fd = some (s, [])
  serve_fds (suc more) s e fd = elim (serve_fd s e fd) [
    | none ↦ (if ltb s.max_fd fd then some (s, []) else none)
    | some step ↦
        let rest = serve_fds more step.server e (fd + 1) in
        if ltb s.max_fd fd
        then some (s, [])
        else if step.breaks
        then some (step.server, step.outputs)
        else (rest >>= λ r. some (r.0, step.outputs ++ r.1))
  ]

  -- Two users are joined.
  unfoldable pub join : Server Json → ℕ → ℕ → Option (Step Json)
  unfolding update_queue
  join s a b = do
    to_other ← sent_line (dump (put_string (s.json_pool a) (codes "cmd") (codes "matched")))
    to_user ← sent_line (dump (put_string (s.json_pool b) (codes "cmd") (codes "matched")))
    some (
        on
          (record s {
            is_done = put (put s.is_done a true) b true;
            pair = put (put s.pair a b) b a;
          })
          (update_queue a b ++ send b to_other ∷ send a to_user ∷ []))

  unfoldable pub settle : Server Json → List Match → Option (Step Json)
  unfolding first_live join
  settle s reports =
      let s' = record s { matched = (s.matched + 1) % child_num } in
      elim (first_live s.is_done reports) [ none ↦ some (on s' []) | some r ↦ join s' r.0 r.1 ]

  -- The user's line: whether it leaves the loop.
  unfoldable pub handle_command : Bytes → Option Bool
  handle_command line =
      if leb (length line) 99 then some (bytes_eq (take 4 line) (codes "suck")) else none

  leave_or_stay : Server Json → Bool → Option (Step Json)
  unfolding to_all
  leave_or_stay s leave = some (record {
    server = s;
    outputs = if leave then to_all 0 child_num exit else [];
    breaks = leave;
  })

  all_fds : Server Json → Event → Option (Step Json)
  all_fds s e = serve_fds 1200 s e 1 >>= λ r. some (on r.0 r.1)

  -- One round of `while(1)`; a step that breaks leaves it.
  unfoldable pub round : Server Json → Event → Option (Step Json)
  unfolding handle_command settle leave_or_stay all_fds
  round s e = elim e.stdin [
    | some line ↦ (handle_command line >>= leave_or_stay s)
    | none ↦ elim e.report [ some reports ↦ settle s reports | none ↦ all_fds s e ]
  ]
