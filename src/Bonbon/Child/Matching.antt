-- ===== src/Bonbon/Child/Matching.antt =====
-- Whom a child reports as matched.
use sp.Base.{
  ℕ, ◌≡◌, ◌≢◌, ◌↔◌, refl, sym, ap, ◌∙◌, ◌⊎◌, inl, inr, Bool, true, false, Option, none, some, List,
  [], ◌∷◌, map, arith, ◌==◌, Bool-cases,
}
use sp.Bonbon.Protocol.{UserData, send_match}
use sp.Bonbon.Child.{
  Child, Filters, ask, is_match, match_result, scan, packets, matched_user, match_front,
}

abbrev pub Listed : {A : Type 0} → A → List A → Type 0
Listed a [] = ⊥
Listed a (x ∷ xs) = (x ≡ a) ⊎ Listed a xs

-- The user stands in the queue, and no entry up to his has the descriptor.
pub data Stands (fd : ℕ) : List (Option UserData) → UserData → Type 0 where
  here : {users : List (Option UserData)} {u : UserData} → fd ≢ u.fd → Stands fd (some u ∷ users) u
  past :
      {users : List (Option UserData)} {u : UserData}
      → Stands fd users u
      → Stands fd (none ∷ users) u
  over :
      {users : List (Option UserData)} {u v : UserData}
      → fd ≢ v.fd
      → Stands fd users u
      → Stands fd (some v ∷ users) u

ask_lem :
    (mine theirs : Option Bool)
    → is_match (ask mine theirs) ≡ true
    → (mine ≡ some true) × (theirs ≡ some true)
ask_lem none theirs h = absurd (ground arith)
ask_lem (some false) theirs h = absurd (ground arith)
ask_lem (some true) none h = absurd (ground arith)
ask_lem (some true) (some b) h = (refl, ap some h)

map-send :
    (fd a b : ℕ) (users : List ℕ)
    → Listed (send_match a b) (map (send_match fd) users) ↔ ((a ≡ fd) × Listed b users)
map-send fd a b [] = (λ h. absurd h, λ h. absurd h.1)
map-send fd a b (u ∷ users) = (
  λ h. elim h [
    | inl e ↦ (ground arith, inl (ground arith))
    | inr l ↦ let (p, q) = (map-send fd a b users).0 l in (p, inr q)
  ],
  λ h. elim h.1 [ inl e ↦ inl (cc) | inr l ↦ inr ((map-send fd a b users).1 (h.0, l)) ],
)

packets-send :
    (fd a b : ℕ) (users : List ℕ)
    → Listed (send_match a b) (packets fd users) ↔ ((a ≡ fd) × Listed b users)
unfolding packets
packets-send fd a b [] = (λ h. elim h [ inl e ↦ absurd (cc) | inr l ↦ absurd l ], λ h. absurd h.1)
packets-send fd a b (u ∷ users) = map-send fd a b (u ∷ users)

module _ (filters : Filters) where
  open filters use {filter}

  -- Another user who waited first, is not done, and whom the filters join in both directions.
  pub record IsPartner (is_done : ℕ → Bool) (m : UserData) (users : List (Option UserData)) (b : ℕ)
      : Type 0 where
    pub other : UserData
    pub first : Stands m.fd users other
    pub named : other.fd ≡ b
    pub live : is_done b ≡ false
    pub his : filter m.filter_path other.user ≡ some true
    pub hers : filter other.filter_path m.user ≡ some true

  IsPartner-over :
      (is_done : ℕ → Bool) (m u : UserData) (users : List (Option UserData)) (b : ℕ)
      → m.fd ≢ u.fd
      → IsPartner is_done m users b
      → IsPartner is_done m (some u ∷ users) b
  IsPartner-over is_done m u users b h p = record {
    other = p.other;
    first = over h p.first;
    named = p.named;
    live = p.live;
    his = p.his;
    hers = p.hers;
  }

  scan_sound :
      (is_done : ℕ → Bool) (m : UserData) (users : List (Option UserData)) (b : ℕ)
      → Listed b (scan filters is_done m users)
      → IsPartner is_done m users b
  unfolding scan match_result
  scan_sound is_done m [] b h = absurd h
  scan_sound is_done m (none ∷ users) b h =
      let p = scan_sound is_done m users b h in
      record {
        other = p.other;
        first = past p.first;
        named = p.named;
        live = p.live;
        his = p.his;
        hers = p.hers;
      }
  scan_sound is_done m (some u ∷ users) b h = elim (Bool-cases (m.fd == u.fd)) [
    | inl e ↦ absurd (rw e at h)
    | inr e ↦ elim (Bool-cases (is_done u.fd)) [
      | inl d ↦
          IsPartner-over is_done m u users b (ground arith)
            (scan_sound is_done m users b (rw (e, d) at h))
      | inr d ↦ elim (Bool-cases (is_match (match_result filters m u))) [
        | inr f ↦
            IsPartner-over is_done m u users b (ground arith)
              (scan_sound is_done m users b (rw (e, d, f) at h))
        | inl f ↦ elim (rw (e, d, f) at h) [
          | inl same ↦ record {
            other = u;
            first = here (ground arith);
            named = same;
            live = ap is_done (sym same) ∙ d;
            his = (ask_lem _ _ f).0;
            hers = (ask_lem _ _ f).1;
          }
          | inr later ↦
              IsPartner-over is_done m u users b (ground arith) (scan_sound is_done m users b later)
        ]
      ]
    ]
  ]

  scan_complete :
      (is_done : ℕ → Bool) (m : UserData) (users : List (Option UserData)) (b : ℕ)
      (other : UserData)
      → Stands m.fd users other
      → other.fd ≡ b
      → is_done b ≡ false
      → filter m.filter_path other.user ≡ some true
      → filter other.filter_path m.user ≡ some true
      → Listed b (scan filters is_done m users)
  unfolding scan match_result
  scan_complete is_done m [] b other h n l p q = elim h [ ]
  scan_complete is_done m (some u ∷ users) b other (here h) n l p q =
      let e : (m.fd == u.fd) ≡ false = ground arith in
      let d : is_done u.fd ≡ false = ap is_done n ∙ l in rw (e, d, p, q) (inl n)
  scan_complete is_done m (none ∷ users) b other (past h) n l p q =
      scan_complete is_done m users b other h n l p q
  scan_complete is_done m (some u ∷ users) b other (over k h) n l p q =
      let e : (m.fd == u.fd) ≡ false = ground arith in
      let rest = scan_complete is_done m users b other h n l p q in
      elim (Bool-cases (is_done u.fd)) [
        | inl d ↦ rw (e, d) rest
        | inr d ↦ elim (Bool-cases (is_match (match_result filters m u))) [
          | inl f ↦ rw (e, d, f) (inr rest)
          | inr f ↦ rw (e, d, f) rest
        ]
      ]

  -- The report on the user at the front of the queue names him together with another exactly if
  -- neither is done, the other has waited longer, and each one's filter accepts the other.
  pub match_front-IsPartner :
      (c : Child) (m : UserData) (others : List UserData) (a b : ℕ)
      → c.match_queue ≡ m ∷ others
      → Listed (send_match a b) (match_front filters c).1
        ↔ ((a ≡ m.fd) × (c.is_done m.fd ≡ false) × IsPartner c.is_done m c.user_queue b)
  unfolding match_front matched_user
  match_front-IsPartner c m others a b h = rw h (elim (Bool-cases (c.is_done m.fd)) [
    | inl d ↦
        rw d (λ l. elim l [ inl e ↦ absurd (cc) | inr n ↦ absurd n ], λ l. absurd (ground arith))
    | inr d ↦ rw d (
      λ l.
          let (e, k) = (packets-send m.fd a b _).0 l in
          (e, refl, scan_sound c.is_done m c.user_queue b k),
      λ l. (packets-send m.fd a b _).1 (l.0, partner_listed l.2),
    )
  ])
    where
      partner_listed :
          IsPartner c.is_done m c.user_queue b → Listed b (scan filters c.is_done m c.user_queue)
      partner_listed p =
          scan_complete c.is_done m c.user_queue b p.other p.first p.named p.live p.his p.hers
