-- ===== src/Box/Exchange.antt =====
-- MP2/src/csiebox_client.cpp: `sync_meta` with the answers of the server of MP2/src/csiebox_server.cpp.
-- The client sends, the server handles all that was sent, and the client takes the response.
pub mod File
pub mod Sent
pub mod Pushed
pub mod Stack
pub mod Walked
pub mod Performed
pub mod Ended
pub mod Run
pub mod Link
pub mod Login
use sp.Base.{ℕ, zero, suc, Option, none, some, List, [], ◌∷◌, Bytes, length}
use sp.Box.Posix.{Posix}
use sp.Box.Protocol.{Stat, Response, Piece, file_type}
use sp.Box.Server.{Server, Setup, serve}
use sp.Box.Client.{
  InodeMap, Next, done, please_hardlink, please_file, meta_next, meta_request, sync_file,
  sync_hardlink,
}

module _ (p : Posix) where
  open p use {Fs}

  -- `stopped`: a process exits, or what happens is outside of the model. `waits`: the server has sent
  -- no response and waits for a request, and so the client waits for ever. `finished`: the call returns.
  pub data Outcome : Type 0 where
    stopped : Outcome
    waits : Server Fs → Outcome
    finished : InodeMap → Server Fs → Outcome

  -- The server handles the pieces; the responses before them have been taken.
  unfoldable pub served : Setup → ℕ → Server Fs → List Piece → Option (Server Fs)
  unfolding serve
  served cfg fd s ps = serve p cfg fd (suc (length ps)) (record s { sent = [] }) ps

  -- `recv_message` of the response.
  unfoldable pub responded : InodeMap → Option (Server Fs) → Outcome
  responded m none = stopped
  responded m (some s) = elim s.sent [ [] ↦ waits s | r ∷ rs ↦ finished m s ]

  unfoldable pub follow_up : Setup → ℕ → Fs → InodeMap → Bytes → Server Fs → Next → Outcome
  unfolding served responded sync_file sync_hardlink
  follow_up cfg fd cfs m path s done = finished m s
  follow_up cfg fd cfs m path s (please_hardlink existed) =
      responded m (served cfg fd s (sync_hardlink existed))
  follow_up cfg fd cfs m path s please_file = elim (sync_file p cfs path) [
    | none ↦ stopped
    | some ps ↦ responded m (served cfg fd s ps)
  ]

  unfoldable pub after_meta :
      Setup → ℕ → Fs → InodeMap → Bytes → Bytes → Option (Server Fs) → Outcome
  unfolding follow_up meta_next
  after_meta cfg fd cfs m existed path none = stopped
  after_meta cfg fd cfs m existed path (some s) = elim s.sent [
    | [] ↦ waits s
    | r ∷ rs ↦ follow_up cfg fd cfs m path s (meta_next r existed)
  ]

  unfoldable pub sync_meta : Setup → ℕ → Fs → InodeMap → Bytes → Stat → Server Fs → Outcome
  unfolding after_meta served meta_request file_type
  sync_meta cfg fd cfs m path st s = elim (meta_request p (file_type st) cfs m path st) [
    | none ↦ stopped
    | some (m', existed, ps) ↦ after_meta cfg fd cfs m' existed path (served cfg fd s ps)
  ]
