-- ===== src/Box/Crowd.antt =====
-- MP5/src/csiebox_server.c: the server over all its connections: the rounds of `csiebox_server_run`,
-- `choose_thread` and `server_thread_func`, with the pool of Box.Pool and the requests of Box.Daemon. A
-- schedule is a list of steps of the main thread and of the threads of the pool. Requests are whole: the
-- path that a busy server leaves unread behind a request is left out.
pub mod Alone
pub mod Choice
pub mod Schedule
use sp.Base.{
  ℕ, ◌+◌, Bool, true, false, Option, none, some, List, [], ◌∷◌, ◌++◌, Bytes, map, if◌then◌else◌,
  get_elem?, set, replicate,
}
use sp.Box.Protocol.{
  Op, op_login, op_sync_meta, op_rm, op_sync_end, status_ok, status_fail, status_more, Response,
}
use sp.Box.Server.{Setup}
use sp.Box.Daemon.{Host, Request, req_login, req_meta, req_rm, req_end, closed, handle_request}
use sp.Box.Monitor.{Reply, busy}
use sp.Box.Monitor.Delivery.{reply_of}
use sp.Box.Pool.{
  created, at_top, waiting, working, TaskThread, init_task_thread, task_thread_func, run_task,
}

-- `csiebox_client_info`
pub record ClientInfo : Type 0 where
  pub user : Bytes
  pub in_thread : Bool

pub record Crowd (Fs : Type 0) : Type 0 where
  pub fs : Fs
  -- `server->client`, by descriptors
  pub client : List (Option ClientInfo)
  -- a task is the descriptor of a connection
  pub threads : List (TaskThread ℕ)
  -- whether a thread has handled the request of its task
  pub handled : List Bool
  pub active_thread_num : ℕ
  pub replies : List (ℕ × Reply)

pub data Step : Type 0 where
  -- the flags are looked at before `select`
  poll : Step
  -- a new connection, with its first request
  arrive : ℕ → Request → Step
  -- a connection can be read, with what comes over it if the main thread reads it
  ready : ℕ → Request → Step
  -- a thread goes on, outside of its task
  go_on : ℕ → Step
  -- a thread handles the request of its connection
  perform : ℕ → Request → Step
  -- a thread ends its task
  finish : ℕ → Step

unfoldable pub client_at : List (Option ClientInfo) → ℕ → Option ClientInfo
client_at cs fd = elim (get_elem? cs fd) [ none ↦ none | some o ↦ o ]

unfoldable pub user_of : Option ClientInfo → Option Bytes
user_of none = none
user_of (some info) = some info.user

-- A logged in connection of which no thread takes care.
unfoldable pub free_of : Option ClientInfo → Bool
free_of none = false
free_of (some info) = if info.in_thread then false else true

unfoldable pub is_free : List (Option ClientInfo) → ℕ → Bool
unfolding client_at free_of
is_free cs fd = free_of (client_at cs fd)

-- `server->client[conn_fd]->in_thread = flag`, if there is a client.
unfoldable pub flagged : Bool → Option ClientInfo → Option ClientInfo
flagged flag none = none
flagged flag (some info) = some (record info { in_thread = flag })

unfoldable pub set_flag : List (Option ClientInfo) → ℕ → Bool → List (Option ClientInfo)
unfolding client_at flagged
set_flag cs fd flag = set cs fd (flagged flag (client_at cs fd))

unfoldable pub count_active : List (Option ClientInfo) → ℕ
count_active [] = 0
count_active (none ∷ cs) = count_active cs
count_active (some info ∷ cs) = let n = count_active cs in if info.in_thread then n + 1 else n

unfoldable pub has_status_ok : List Response → Bool
has_status_ok [] = false
has_status_ok (r ∷ rs) = elim r.status [
  | status_ok ↦ true
  | status_fail ↦ false
  | status_more ↦ false
]

-- The client after a request: a login that succeeds puts a new one there, with the flag 0.
unfoldable pub slot_after : Option ClientInfo → Request → List Response → Option ClientInfo
unfolding has_status_ok
slot_after old (req_login user hash) sent =
    if has_status_ok sent then some (record { user = user; in_thread = false }) else old
slot_after old (req_meta m d) sent = old
slot_after old (req_rm id path) sent = old
slot_after old req_end sent = old
slot_after old closed sent = none

-- `header.req.op`, which the answer of a busy server leaves in its place.
unfoldable pub op_of : Request → Op
op_of (req_login user hash) = op_login
op_of (req_meta m d) = op_sync_meta
op_of (req_rm id path) = op_rm
op_of req_end = op_sync_end
op_of closed = op_sync_end

unfoldable pub busy_reply : ℕ → Request → Reply
unfolding op_of
busy_reply fd r = record { op = op_of r; status = busy; client_id = fd }

module _ (h : Host) where
  open h use {Fs}

  -- A request that a thread or the main thread handles.
  unfoldable pub serve_on : Setup → ℕ → Crowd Fs → Request → Crowd Fs
  unfolding handle_request client_at user_of slot_after reply_of
  serve_on cfg fd s r =
      let old = client_at s.client fd in
      let c = handle_request h cfg fd (record { fs = s.fs; client = user_of old; sent = [] }) r in
      record s {
        fs = c.fs;
        client = set s.client fd (slot_after old r c.sent);
        replies = s.replies ++ map (λ a. (fd, reply_of a)) c.sent;
      }

  -- The main thread reads the message itself and answers that the server is busy.
  unfoldable pub answer_busy : Crowd Fs → ℕ → Request → Crowd Fs
  unfolding busy_reply
  answer_busy s fd closed = record s { client = set s.client fd none }
  answer_busy s fd r = record s { replies = s.replies ++ (fd, busy_reply fd r) ∷ [] }

  -- The flag was set; if no thread took the task, it is reset.
  unfoldable pub chosen : Crowd Fs → ℕ → Request → List (TaskThread ℕ) × Option ℕ → Crowd Fs
  unfolding set_flag answer_busy
  chosen s fd r (ts, some i) = record s { client = set_flag s.client fd true; threads = ts }
  chosen s fd r (ts, none) =
      answer_busy
        (record s { client = set_flag (set_flag s.client fd true) fd false; threads = ts }) fd r

  unfoldable pub choose_thread : Crowd Fs → ℕ → Request → Crowd Fs
  unfolding run_task chosen
  choose_thread s fd r = chosen s fd r (run_task 0 s.threads fd)

  unfoldable pub goes_on : Crowd Fs → ℕ → TaskThread ℕ → Crowd Fs
  unfolding task_thread_func
  goes_on s i t = elim t.place [
    | created ↦ record s { threads = set s.threads i (task_thread_func t).0 }
    | at_top ↦ record s { threads = set s.threads i (task_thread_func t).0 }
    | waiting ↦ record s { threads = set s.threads i (task_thread_func t).0 }
    | working ↦ s
  ]

  -- The connection whose task a thread is in.
  unfoldable pub task_at : TaskThread ℕ → Option ℕ
  task_at t = elim t.place [ created ↦ none | at_top ↦ none | waiting ↦ none | working ↦ t.arg ]

  -- `server_thread_func`: the request, and then the flag.
  unfoldable pub performs : Setup → Crowd Fs → ℕ → Option ℕ → Option Bool → Request → Crowd Fs
  unfolding serve_on
  performs cfg s i (some fd) (some false) r =
      let s' = serve_on cfg fd s r in record s' { handled = set s'.handled i true }
  performs cfg s i (some fd) (some true) r = s
  performs cfg s i (some fd) none r = s
  performs cfg s i none b r = s

  unfoldable pub finishes : Crowd Fs → ℕ → TaskThread ℕ → Option ℕ → Option Bool → Crowd Fs
  unfolding set_flag task_thread_func
  finishes s i t (some fd) (some true) = record s {
    client = set_flag s.client fd false;
    threads = set s.threads i (task_thread_func t).0;
    handled = set s.handled i false;
  }
  finishes s i t (some fd) (some false) = s
  finishes s i t (some fd) none = s
  finishes s i t none b = s

  unfoldable pub crowd_step : Setup → Crowd Fs → Step → Crowd Fs
  unfolding count_active serve_on is_free choose_thread goes_on performs finishes task_at
  crowd_step cfg s poll = record s { active_thread_num = count_active s.client }
  crowd_step cfg s (arrive fd r) = serve_on cfg fd s r
  crowd_step cfg s (ready fd r) = if is_free s.client fd then choose_thread s fd r else s
  crowd_step cfg s (go_on i) = elim (get_elem? s.threads i) [ none ↦ s | some t ↦ goes_on s i t ]
  crowd_step cfg s (perform i r) = elim (get_elem? s.threads i) [
    | none ↦ s
    | some t ↦ performs cfg s i (task_at t) (get_elem? s.handled i) r
  ]
  crowd_step cfg s (finish i) = elim (get_elem? s.threads i) [
    | none ↦ s
    | some t ↦ finishes s i t (task_at t) (get_elem? s.handled i)
  ]

  unfoldable pub crowd_run : Setup → Crowd Fs → List Step → Crowd Fs
  unfolding crowd_step
  crowd_run cfg s [] = s
  crowd_run cfg s (e ∷ es) = crowd_run cfg (crowd_step cfg s e) es

  unfoldable pub start_crowd : Fs → ℕ → Crowd Fs
  unfolding init_task_thread
  start_crowd fs thread = record {
    fs = fs;
    client = replicate 1024 none;
    threads = replicate thread init_task_thread;
    handled = replicate thread false;
    active_thread_num = 0;
    replies = [];
  }
