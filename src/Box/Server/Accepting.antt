-- ===== src/Box/Server/Accepting.antt =====
-- MP2/src/csiebox_server.cpp: `csiebox_server_init`, and `csiebox_server_run`, which serves one connection
-- after the other. Allocations succeed.
use mathlib.Core.Option.{some-injective}
use sp.Base.{
  ℕ, suc, length, ◌≡◌, refl, subst, Option-cases, inl, inr, Bool, true, false, Option, none, some,
  List, [], ◌∷◌, ◌++◌, ◌>>=◌, >>=-eq-some, All, if◌then◌else◌,
}
use sp.Box.Config as Config
use sp.Box.Config.{Parsed, Field}
use sp.Box.Posix.{Posix}
use sp.Box.Protocol.{Piece}
use sp.Box.Server.{Server, Setup, serve, logout, handle_request}

-- The configuration of a server that listens; `listening` is whether `server_start` succeeds.
unfoldable pub csiebox_server_init : Parsed → Bool → Option (List Field)
csiebox_server_init Config.fault listening = none
csiebox_server_init Config.config_error listening = none
csiebox_server_init (Config.accepted fs) listening = if listening then some fs else none

-- What `accept` gives: a connection, with what comes by it, or an error.
pub data Accepted : Type 0 where
  connected : ℕ → List Piece → Accepted
  -- ENFILE
  table_full : Accepted
  -- EAGAIN or EINTR
  interrupted : Accepted
  accept_err : Accepted

-- The loop stays.
unfoldable pub goes_on : Accepted → Bool
goes_on (connected fd ps) = true
goes_on table_full = true
goes_on interrupted = true
goes_on accept_err = false

module _ (p : Posix) where
  -- After the last of the list the server waits for another connection.
  unfoldable pub csiebox_server_run : Setup → Server p.Fs → List Accepted → Option (Server p.Fs)
  unfolding handle_request
  csiebox_server_run cfg s [] = some s
  csiebox_server_run cfg s (connected fd ps ∷ es) =
      handle_request p cfg fd s ps >>= λ s'. csiebox_server_run cfg s' es
  csiebox_server_run cfg s (table_full ∷ es) = csiebox_server_run cfg s es
  csiebox_server_run cfg s (interrupted ∷ es) = csiebox_server_run cfg s es
  csiebox_server_run cfg s (accept_err ∷ es) = some s

  handle_request-client :
      (cfg : Setup) (fd : ℕ) (s s' : Server p.Fs) (ps : List Piece)
      → handle_request p cfg fd s ps ≡ some s'
      → s'.client ≡ none
  unfolding handle_request logout
  handle_request-client cfg fd s s' ps h =
      elim (Option-cases
        (serve p cfg fd (suc (length ps)) (record s { path = []; dir_stat_stack = [] }) ps)) [
          | inl x ↦ absurd (cc (rw (x) at h))
          | inr (t, x) ↦
              subst (λ (x : Server p.Fs). x.client ≡ none) (some-injective _ _ (rw (x) at h)) refl
        ]

  -- No login is left behind by a connection: when nobody is logged in before, nobody is after any
  -- connections and errors.
  pub csiebox_server_run-client :
      (cfg : Setup) (s s' : Server p.Fs) (es : List Accepted)
      → s.client ≡ none
      → csiebox_server_run cfg s es ≡ some s'
      → s'.client ≡ none
  unfolding csiebox_server_run
  csiebox_server_run-client cfg s s' [] n h =
      subst (λ (x : Server p.Fs). x.client ≡ none) (some-injective _ _ h) n
  csiebox_server_run-client cfg s s' (connected fd ps ∷ es) n h =
      let (t, e, k) = >>=-eq-some (handle_request p cfg fd s ps) _ h in
      csiebox_server_run-client cfg t s' es (handle_request-client cfg fd s t ps e) k
  csiebox_server_run-client cfg s s' (table_full ∷ es) n h =
      csiebox_server_run-client cfg s s' es n h
  csiebox_server_run-client cfg s s' (interrupted ∷ es) n h =
      csiebox_server_run-client cfg s s' es n h
  csiebox_server_run-client cfg s s' (accept_err ∷ es) n h =
      subst (λ (x : Server p.Fs). x.client ≡ none) (some-injective _ _ h) n

  -- What came before plays no part but by the state, until an error ends the loop.
  pub csiebox_server_run-append :
      (cfg : Setup) (s : Server p.Fs) (es bs : List Accepted)
      → All (λ a. goes_on a ≡ true) es
      → csiebox_server_run cfg s (es ++ bs)
        ≡ (csiebox_server_run cfg s es >>= λ s'. csiebox_server_run cfg s' bs)
  unfolding csiebox_server_run goes_on
  csiebox_server_run-append cfg s [] bs g = refl
  csiebox_server_run-append cfg s (connected fd ps ∷ es) bs (g, gs) =
      elim (Option-cases (handle_request p cfg fd s ps)) [
        | inl x ↦ rw (x) refl
        | inr (s', x) ↦ rw (x) (csiebox_server_run-append cfg s' es bs gs)
      ]
  csiebox_server_run-append cfg s (table_full ∷ es) bs (g, gs) =
      csiebox_server_run-append cfg s es bs gs
  csiebox_server_run-append cfg s (interrupted ∷ es) bs (g, gs) =
      csiebox_server_run-append cfg s es bs gs
  csiebox_server_run-append cfg s (accept_err ∷ es) bs (g, gs) = absurd (cc)
