-- ===== src/Bonbon/Child/Deleting.antt =====
-- What a child forgets when the server deletes users.
use mathlib.Core.Option.{some-injective}
use sp.Base.{
  ℕ, ◌≡◌, ◌≢◌, refl, sym, ap, subst, ◌∙◌, ◌⊎◌, inl, inr, Bool, true, false, Option, none, some,
  List, [], ◌∷◌, ◌++◌, arith, ◌==◌, Bool-cases, Option-cases,
}
use sp.Bonbon.Protocol.{
  UserData, Header, Match, to_match, put_in_queue, delete, exit, send_match, put,
}
use sp.Bonbon.Child.{Child, Filters, user_data, erase, receive, match_front, child_round}
use sp.Bonbon.Child.Matching.{Listed, match_front-IsPartner}

-- Each user who stands in the queue is not done.
abbrev pub AreLive : (ℕ → Bool) → List (Option UserData) → Type 0
AreLive is_done [] = Unit {0}
AreLive is_done (none ∷ users) = AreLive is_done users
AreLive is_done (some u ∷ users) = (is_done u.fd ≡ false) × AreLive is_done users

abbrev pub IsLive : Child → Type 0
IsLive c = AreLive c.is_done c.user_queue

AreLive-erase :
    (is_done : ℕ → Bool) (a b : ℕ) (users : List (Option UserData))
    → AreLive is_done users
    → AreLive (put (put is_done a true) b true) (erase a b users)
unfolding erase
AreLive-erase is_done a b [] h = tt
AreLive-erase is_done a b (none ∷ users) h = AreLive-erase is_done a b users h
AreLive-erase is_done a b (some u ∷ users) h = elim (Bool-cases (u.fd == a)) [
  | inl e ↦ rw e (AreLive-erase is_done a b users h.1)
  | inr e ↦ elim (Bool-cases (u.fd == b)) [
    | inl f ↦ rw (e, f) (AreLive-erase is_done a b users h.1)
    | inr f ↦ rw (e, f) (rw (e, f) (h.0), AreLive-erase is_done a b users h.1)
  ]
]

AreLive-added :
    (is_done : ℕ → Bool) (u : UserData) (users : List (Option UserData))
    → AreLive is_done users
    → AreLive (put is_done u.fd false) (users ++ some u ∷ [])
AreLive-added is_done u [] h = (ground arith, tt)
AreLive-added is_done u (none ∷ users) h = AreLive-added is_done u users h
AreLive-added is_done u (some v ∷ users) h = (ground arith, AreLive-added is_done u users h.1)

receive-IsLive : (h : Header) (c d : Child) → IsLive c → receive h c ≡ some d → IsLive d
unfolding receive
receive-IsLive exit c d l e = absurd (cc)
receive-IsLive (delete a b) c d l e =
    subst IsLive (some-injective _ _ e) (AreLive-erase c.is_done a b c.user_queue l)
receive-IsLive (to_match fd path user) c d l e =
    subst IsLive (some-injective _ _ e)
      (AreLive-added c.is_done (user_data fd path user) c.user_queue l)
receive-IsLive (put_in_queue fd path user) c d l e =
    subst IsLive (some-injective _ _ e)
      (AreLive-added c.is_done (user_data fd path user) c.user_queue l)

-- The packet brings the user in again.
abbrev pub brings : ℕ → Header → Bool
brings fd (to_match fd' path user) = fd' == fd
brings fd (put_in_queue fd' path user) = fd' == fd
brings fd _ = false

abbrev pub Spares : ℕ → List (Option Header) → Type 0
Spares fd [] = Unit {0}
Spares fd (none ∷ hs) = Spares fd hs
Spares fd (some h ∷ hs) = (brings fd h ≡ false) × Spares fd hs

receive-done :
    (h : Header) (c d : Child) (fd : ℕ)
    → c.is_done fd ≡ true
    → brings fd h ≡ false
    → receive h c ≡ some d
    → d.is_done fd ≡ true
unfolding receive
receive-done exit c d fd k b e = absurd (cc)
receive-done (delete x y) c d fd k b e =
    subst (λ (x : Child). x.is_done fd ≡ true) (some-injective _ _ e) (ground arith)
receive-done (to_match fd' path user) c d fd k b e =
    subst (λ (x : Child). x.is_done fd ≡ true) (some-injective _ _ e) (ground arith)
receive-done (put_in_queue fd' path user) c d fd k b e =
    subst (λ (x : Child). x.is_done fd ≡ true) (some-injective _ _ e) (ground arith)

module _ (filters : Filters) where
  match_front-keeps :
      (c : Child)
      → ((match_front filters c).0.is_done ≡ c.is_done)
        × ((match_front filters c).0.user_queue ≡ c.user_queue)
  unfolding match_front
  match_front-keeps c = go c.match_queue refl
    where
      go :
          (q : List UserData)
          → c.match_queue ≡ q
          → ((match_front filters c).0.is_done ≡ c.is_done)
            × ((match_front filters c).0.user_queue ≡ c.user_queue)
      go [] e = rw e (refl, refl)
      go (m ∷ others) e = rw e (refl, refl)

  match_front-IsLive : (c : Child) → IsLive c → IsLive (match_front filters c).0
  match_front-IsLive c h = rw ((match_front-keeps c).0, (match_front-keeps c).1) h

  -- In each round of a child, whatever the packet, if all users in its queue are not done, then so
  -- are all users in its queue after the round.
  pub child_round-IsLive :
      (header : Option Header) (c d : Child)
      → IsLive c
      → (child_round filters header c).0 ≡ some d
      → IsLive d
  unfolding child_round
  child_round-IsLive none c d l e = subst IsLive (some-injective _ _ e) (match_front-IsLive c l)
  child_round-IsLive (some h) c d l e = receive-IsLive h _ d (match_front-IsLive c l) e

  -- Some rounds, and all that is reported in them.
  unfoldable pub run : List (Option Header) → Child → List Match
  run [] c = []
  run (h ∷ hs) c =
      (child_round filters h c).1
      ++ elim (child_round filters h c).0 [ none ↦ [] | some d ↦ run hs d ]

  Listed-append : (x : Match) (xs ys : List Match) → Listed x (xs ++ ys) → Listed x xs ⊎ Listed x ys
  Listed-append x [] ys h = inr h
  Listed-append x (y ∷ xs) ys h = elim h [
    | inl e ↦ inl (inl e)
    | inr l ↦ elim (Listed-append x xs ys l) [ inl p ↦ inl (inr p) | inr p ↦ inr p ]
  ]

  reported-live :
      (c : Child) (fd a b : ℕ)
      → c.is_done fd ≡ true
      → Listed (send_match a b) (match_front filters c).1
      → (a ≢ fd) × (b ≢ fd)
  unfolding match_front
  reported-live c fd a b k l = go c.match_queue refl
    where
      clash : c.is_done fd ≡ false → ⊥
      clash f = ground arith

      go : (q : List UserData) → c.match_queue ≡ q → (a ≢ fd) × (b ≢ fd)
      go [] e = absurd (rw e at l)
      go (m ∷ others) e =
          let (p, live, partner) = (match_front-IsPartner filters c m others a b e).0 l in
          (
            λ q. clash (ap c.is_done (sym q ∙ p) ∙ live),
            λ q. clash (ap c.is_done (sym q) ∙ partner.live),
          )

  -- Between two rounds, a user who is done stays so, and is not reported.
  round-done :
      (header : Option Header) (c d : Child) (fd : ℕ)
      → c.is_done fd ≡ true
      → Spares fd (header ∷ [])
      → (child_round filters header c).0 ≡ some d
      → d.is_done fd ≡ true
  unfolding child_round
  round-done none c d fd k q e =
      subst (λ (x : Child). x.is_done fd ≡ true) (some-injective _ _ e)
        (rw ((match_front-keeps c).0) k)
  round-done (some h) c d fd k q e = receive-done h _ d fd (rw ((match_front-keeps c).0) k) q.0 e

  run-done :
      (hs : List (Option Header)) (c : Child) (fd a b : ℕ)
      → c.is_done fd ≡ true
      → Spares fd hs
      → Listed (send_match a b) (run hs c)
      → (a ≢ fd) × (b ≢ fd)
  unfolding run child_round
  run-done [] c fd a b k q l = absurd l
  run-done (h ∷ hs) c fd a b k q l = elim (Listed-append _ _ _ l) [
    | inl now ↦ reported-live c fd a b k now
    | inr later ↦ elim (Option-cases (child_round filters h c).0) [
      | inl e ↦ absurd (rw e at later)
      | inr (d, e) ↦
          run-done hs d fd a b (round-done h c d fd k (spares_head h hs q) e) (spares_tail h hs q)
            (rw e at later)
    ]
  ]
    where
      spares_head :
          (x : Option Header) (xs : List (Option Header)) → Spares fd (x ∷ xs) → Spares fd (x ∷ [])
      spares_head none xs p = tt
      spares_head (some y) xs p = (p.0, tt)

      spares_tail :
          (x : Option Header) (xs : List (Option Header)) → Spares fd (x ∷ xs) → Spares fd xs
      spares_tail none xs p = p
      spares_tail (some y) xs p = p.1

  -- Once the server has deleted two users, a child reports neither of them, in however many rounds,
  -- until the server brings a user with that descriptor in again.
  pub run-deleted :
      (c d : Child) (x y fd a b : ℕ) (hs : List (Option Header))
      → receive (delete x y) c ≡ some d
      → (fd ≡ x) ⊎ (fd ≡ y)
      → Spares fd hs
      → Listed (send_match a b) (run hs d)
      → (a ≢ fd) × (b ≢ fd)
  unfolding receive
  run-deleted c d x y fd a b hs e w q l =
      run-done hs d fd a b
        (subst (λ (z : Child). z.is_done fd ≡ true) (some-injective _ _ e) (gone w)) q l
    where
      gone : (fd ≡ x) ⊎ (fd ≡ y) → put (put c.is_done x true) y true fd ≡ true
      gone (inl p) = ground arith
      gone (inr p) = ground arith
