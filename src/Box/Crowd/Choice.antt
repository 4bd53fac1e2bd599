-- ===== src/Box/Crowd/Choice.antt =====
-- MP5: the steps of the main thread of the server, for the theorem on its schedules.
use sp.Base.{
  ℕ, ◌≡◌, ◌≢◌, ◌⊎◌, refl, sym, subst, inl, inr, true, false, Option, none, some, List, [], ◌∷◌,
  Bool-cases, set,
}
use sp.Box.Server.{Setup}
use sp.Box.Protocol.{Response}
use sp.Box.Daemon.{Host, Request, req_login, req_meta, req_rm, req_end, closed}
use sp.Box.Pool.{launch}
use sp.Box.Pool.Kept.{idle, launched, run_task-cases}
use sp.Box.Crowd.{
  ClientInfo, Crowd, Step, poll, arrive, ready, go_on, perform, finish, client_at, free_of, is_free,
  flagged, set_flag, slot_after, serve_on, answer_busy, chosen, choose_thread, crowd_step,
}
use sp.Box.Crowd.Alone.{
  works_on-launch, IsAlone, is_free-set, IsLeft, clients-IsAlone, launch-IsAlone,
}

-- A request that logs nobody in.
abbrev pub IsNoLogin : Request → Type 0
IsNoLogin (req_login user hash) = ⊥
IsNoLogin _ = Unit

flagged-true : (o : Option ClientInfo) → free_of (flagged true o) ≡ false
unfolding free_of flagged
flagged-true none = refl
flagged-true (some info) = refl

set_flag-true :
    (cs : List (Option ClientInfo)) (fd j : ℕ)
    → is_free (set_flag cs fd true) j ≡ true
    → (fd ≢ j) × (is_free cs j ≡ true)
unfolding set_flag
set_flag-true cs fd j e = elim (is_free-set cs fd j (flagged true (client_at cs fd)) e) [
  | inl (x, y) ↦ let z = flagged-true (client_at cs fd) in absurd (cc)
  | inr x ↦ x
]

pub set_flag-false :
    (cs : List (Option ClientInfo)) (fd j : ℕ)
    → is_free (set_flag cs fd false) j ≡ true
    → (fd ≡ j) ⊎ (is_free cs j ≡ true)
unfolding set_flag
set_flag-false cs fd j e = elim (is_free-set cs fd j (flagged false (client_at cs fd)) e) [
  | inl (x, y) ↦ inl x
  | inr x ↦ inr x.1
]

-- A request that is no login leaves the client, or takes it away.
slot_after-free :
    (old : Option ClientInfo) (r : Request) (sent : List Response)
    → IsNoLogin r
    → free_of (slot_after old r sent) ≡ true
    → free_of old ≡ true
unfolding slot_after free_of
slot_after-free old (req_login user hash) sent n e = absurd n
slot_after-free old (req_meta m d) sent n e = e
slot_after-free old (req_rm id path) sent n e = e
slot_after-free old req_end sent n e = e
slot_after-free old closed sent n e = absurd (cc)

module _ (h : Host) (cfg : Setup) where
  abbrev pub Alone : Crowd h.Fs → Type 0
  Alone s = IsAlone s.client s.threads

  -- Of the requests that come over new connections: no thread works for one of that number. Of those
  -- that threads handle: they are no logins.
  abbrev pub IsCalm : Crowd h.Fs → Step → Type 0
  IsCalm s (arrive fd r) = IsLeft s.threads fd
  IsCalm s (perform i r) = IsNoLogin r
  IsCalm s poll = Unit
  IsCalm s (ready fd r) = Unit
  IsCalm s (go_on i) = Unit
  IsCalm s (finish i) = Unit

  abbrev pub AreCalm : Crowd h.Fs → List Step → Type 0
  AreCalm s [] = Unit
  AreCalm s (e ∷ es) = IsCalm s e × AreCalm (crowd_step h cfg s e) es

  pub arrive-IsAlone :
      (s : Crowd h.Fs) (fd : ℕ) (r : Request)
      → Alone s
      → IsLeft s.threads fd
      → Alone (serve_on h cfg fd s r)
  unfolding serve_on
  arrive-IsAlone s fd r a l =
      clients-IsAlone s.client s.threads a (serve_on h cfg fd s r).client (λ j e.
        elim (is_free-set s.client fd j _ e) [
          | inl (x, y) ↦ inr (subst (IsLeft s.threads) x l)
          | inr x ↦ inl x.1
        ])

  pub serve_on-IsAlone :
      (s : Crowd h.Fs) (fd : ℕ) (r : Request)
      → Alone s
      → IsNoLogin r
      → Alone (serve_on h cfg fd s r)
  unfolding serve_on is_free
  serve_on-IsAlone s fd r a n =
      clients-IsAlone s.client s.threads a (serve_on h cfg fd s r).client (λ j e.
        elim (is_free-set s.client fd j _ e) [
          | inl (x, y) ↦ inl (
              subst (λ k. free_of (client_at s.client k) ≡ true) x
                (slot_after-free (client_at s.client fd) r _ n y))
          | inr x ↦ inl x.1
        ])

  -- A free connection is left by all threads.
  free-IsLeft :
      (s : Crowd h.Fs) (fd : ℕ) → Alone s → is_free s.client fd ≡ true → IsLeft s.threads fd
  free-IsLeft s fd a f i t g w = let z = a.taken i t fd g w in absurd (cc)

  answer_busy-IsAlone :
      (s : Crowd h.Fs) (fd : ℕ) (r : Request) → Alone s → Alone (answer_busy h s fd r)
  unfolding answer_busy free_of
  answer_busy-IsAlone s fd closed a =
      clients-IsAlone s.client s.threads a (set s.client fd none) (λ j e.
        elim (is_free-set s.client fd j none e) [ inl (x, y) ↦ absurd (cc) | inr x ↦ inl x.1 ])
  answer_busy-IsAlone s fd (req_login user hash) a = a
  answer_busy-IsAlone s fd (req_meta m d) a = a
  answer_busy-IsAlone s fd (req_rm id path) a = a
  answer_busy-IsAlone s fd req_end a = a

  pub choose_thread-IsAlone :
      (s : Crowd h.Fs) (fd : ℕ) (r : Request)
      → Alone s
      → is_free s.client fd ≡ true
      → Alone (choose_thread h s fd r)
  unfolding choose_thread chosen
  choose_thread-IsAlone s fd r a f =
      let l = free-IsLeft s fd a f in
      elim (run_task-cases 0 s.threads fd) [
        | inl e ↦
            let cs = set_flag (set_flag s.client fd true) fd false in
            let b : IsAlone cs s.threads = clients-IsAlone s.client s.threads a cs (λ j x.
              elim (set_flag-false (set_flag s.client fd true) fd j x) [
                | inl y ↦ inr (subst (IsLeft s.threads) y l)
                | inr y ↦ inl (set_flag-true s.client fd j y).1
              ]) in
            subst (λ o. Alone (chosen h s fd r o)) (sym e)
              (answer_busy-IsAlone (record s { client = cs }) fd r b)
        | inr (j, t, g, b, e) ↦
            let (q, w) = idle t (a.kept j t g) b in
            let (kv, pv) = launched t fd w in
            let c : IsAlone (set_flag s.client fd true) s.threads =
              clients-IsAlone s.client s.threads a (set_flag s.client fd true)
                (λ k x. inl (set_flag-true s.client fd k x).1) in
            let f' : is_free (set_flag s.client fd true) fd ≡ false =
              elim (Bool-cases (is_free (set_flag s.client fd true) fd)) [
                | inr x ↦ x
                | inl x ↦ absurd ((set_flag-true s.client fd fd x).0 refl)
              ] in
            subst (λ o. Alone (chosen h s fd r o)) (sym e)
              (launch-IsAlone (set_flag s.client fd true) s.threads c j t
                (launch (record t { busy = true }) fd) fd g kv (works_on-launch t fd w) l f')
      ]
