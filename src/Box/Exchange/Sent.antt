-- ===== src/Box/Exchange/Sent.antt =====
-- MP2: bytes that were sent behind a request are received with it.
use mathlib.Core.Option.{some-injective}
use sp.Base.{
  ℕ, zero, suc, ◌≡◌, refl, sym, ap, subst, ◌∙◌, inl, inr, some, List, [], ◌∷◌, ◌++◌, Bytes, ◌==◌,
  Bool-cases, length,
}
use sp.Box.Posix.{Posix}
use sp.Box.Protocol.{Request, Piece, request, data_of, send_bytes, recv_bytes}
use sp.Box.Server.{Server, Setup, dispatch}
use sp.Box.Server.Rounds.{Serves, serve-Serves, finish, round}
use sp.Box.Exchange.{served}

-- No piece is a request.
abbrev pub IsData : List Piece → Type 0
IsData [] = Unit
IsData (data_of bs ∷ ps) = IsData ps
IsData (request r ∷ ps) = ⊥

pub send_bytes-IsData : (bs : Bytes) → IsData (send_bytes bs)
unfolding send_bytes
send_bytes-IsData [] = tt
send_bytes-IsData (b ∷ bs) = tt

pub append-IsData : (ps qs : List Piece) → IsData ps → IsData qs → IsData (ps ++ qs)
append-IsData [] qs h k = k
append-IsData (data_of bs ∷ ps) qs h k = append-IsData ps qs h k
append-IsData (request r ∷ ps) qs h k = elim h [ ]

pub recv_bytes-IsData :
    (n : ℕ) (ps : List Piece) (r : Bytes × List Piece)
    → IsData ps
    → recv_bytes n ps ≡ some r
    → IsData r.1
unfolding recv_bytes
recv_bytes-IsData zero ps r d h = subst (λ x. IsData x.1) (some-injective _ _ h) d
recv_bytes-IsData (suc n) (data_of bs ∷ ps) r d h = elim (Bool-cases (length bs == suc n)) [
  | inl e ↦ subst (λ x. IsData x.1) (some-injective _ _ (rw e at h)) d
  | inr e ↦ absurd (cc (sym (rw e at h)))
]
recv_bytes-IsData (suc n) (request q ∷ ps) r d h = elim d [ ]
recv_bytes-IsData (suc n) [] r d h = absurd (cc)

module _ (p : Posix) where
  -- Bytes without a request are not served.
  data-stops :
      (cfg : Setup) (fd : ℕ) (s s' : Server p.Fs) (ps : List Piece)
      → IsData ps
      → Serves p cfg fd s ps s'
      → s ≡ s'
  data-stops cfg fd s s' [] d (finish _) = refl
  data-stops cfg fd s s' (data_of bs ∷ ps) d h = elim h [ ]
  data-stops cfg fd s s' (request r ∷ ps) d h = elim d [ ]

  -- What one request and its bytes leave.
  pub served-dispatch :
      (cfg : Setup) (fd : ℕ) (s s' : Server p.Fs) (r : Request) (ps : List Piece)
      → ((t : Server p.Fs × List Piece)
          → dispatch p cfg fd (record s { sent = [] }) r ps ≡ some t
          → IsData t.1)
      → served p cfg fd s (request r ∷ ps) ≡ some s'
      → (rest : List Piece) × (dispatch p cfg fd (record s { sent = [] }) r ps ≡ some (s', rest))
  unfolding served
  served-dispatch cfg fd s s' r ps d h = go (
      serve-Serves p cfg fd (suc (length (request r ∷ ps))) (record s { sent = [] }) s'
        (request r ∷ ps) h)
    where
      go :
          Serves p cfg fd (record s { sent = [] }) (request r ∷ ps) s'
          → (rest : List Piece) × (dispatch p cfg fd (record s { sent = [] }) r ps
              ≡ some (s', rest))
      go (round _ s1 _ _ _ rest e k) =
          (rest, e ∙ ap (λ x. some (x, rest)) (data-stops cfg fd s1 s' rest (d (s1, rest) e) k))
