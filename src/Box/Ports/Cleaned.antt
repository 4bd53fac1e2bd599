-- ===== src/Box/Ports/Cleaned.antt =====
-- The port registers of MP2 and MP5: what `clean_port_reserve` leaves of the records.
use mathlib.Core.Option.{some-injective}
use sp.Base.{
  ℕ, ◌-◌, ◌<◌, ◌≡◌, refl, sym, ap, subst, ◌∙◌, inl, inr, Bool, true, false, Option, none, some,
  List, [], ◌∷◌, Bool-cases, length, set, length-set, All,
}
use sp.Base.Int.{ℤ}
use sp.Box.Table.{HashNode, Chain, slot, get_chain}
use sp.Box.Table.Change.{IsTable, chain-some, found_at, get-same}
use sp.Box.Ports.{PortRecord, Register, port_of, clean_record, clean_chain, clean_chains}
use sp.Box.Ports.Booked.{ports}
use sp.Box.Ports.Deleted.{
  IsCleaned, unchanged, IsCleaned-trans, still_gone, deleted, get_chain-All, All-get_elem?,
}

port_of-some :
    (o : Option PortRecord) (p : ℕ)
    → port_of (some o) ≡ some (some p)
    → (r : PortRecord) × (o ≡ some r) × (r.port ≡ p)
unfolding port_of
port_of-some none p e = absurd (cc)
port_of-some (some r) p e = (r, refl, some-injective _ _ (some-injective _ _ e))

module _ (can_bind : ℕ → Bool) where
  -- The record's port is in use, or the record is not found.
  abbrev pub IsGone : Register → HashNode PortRecord → Type 0
  IsGone s n = can_bind n.contain.port ≡ true → ports s.record_hash n.hash_code ≡ some none

  clean_record-IsCleaned :
      (s : Register) (n : HashNode PortRecord)
      → 0 < length s.record_hash
      → IsTable s.record_hash
      → IsCleaned s (clean_record s n can_bind) × IsGone (clean_record s n can_bind) n
  unfolding clean_record port_of
  clean_record-IsCleaned s n l t = elim (Bool-cases (can_bind n.contain.port)) [
    | inr x ↦ (rw (clean_record, x) (unchanged s t), (λ y. absurd (cc)))
    | inl x ↦
        let (h, o, e, t', c, f, g) = deleted s.record_hash n.hash_code l t in
        let w : IsCleaned s (record {
          record_hash = h;
          port_reserve = set s.port_reserve (n.contain.port - 2501) false;
        }) =
          record {
            table = t';
            chains = c;
            size = length-set s.port_reserve (n.contain.port - 2501) false;
            fewer = f;
          } in
        (rw (clean_record, x, e) w, (λ y. rw (clean_record, x, e) g))
  ]

  clean_chain-IsGone :
      (s : Register) (c : Chain PortRecord)
      → 0 < length s.record_hash
      → IsTable s.record_hash
      → IsCleaned s (clean_chain s c can_bind) × All (IsGone (clean_chain s c can_bind)) c
  unfolding clean_chain
  clean_chain-IsGone s [] l t = (unchanged s t, tt)
  clean_chain-IsGone s (n ∷ c) l t =
      let (a, g) = clean_record-IsCleaned s n l t in
      let s' = clean_record s n can_bind in
      let (b, k) = clean_chain-IsGone s' c (rw a.chains l) a.table in
      (
        IsCleaned-trans a b,
        ((λ y. still_gone s' (clean_chain s' c can_bind) n.hash_code b (g y)), k),
      )

  All-IsGone :
      (s s' : Register) (c : Chain PortRecord)
      → IsCleaned s s'
      → All (IsGone s) c
      → All (IsGone s') c
  All-IsGone s s' [] k g = tt
  All-IsGone s s' (n ∷ c) k (g, gs) =
      ((λ y. still_gone s s' n.hash_code k (g y)), All-IsGone s s' c k gs)

  clean_chains-IsGone :
      (s : Register) (cs : List (Chain PortRecord))
      → 0 < length s.record_hash
      → IsTable s.record_hash
      → IsCleaned s (clean_chains s cs can_bind)
        × All (All (IsGone (clean_chains s cs can_bind))) cs
  unfolding clean_chains
  clean_chains-IsGone s [] l t = (unchanged s t, tt)
  clean_chains-IsGone s (c ∷ cs) l t =
      let (a, g) = clean_chain-IsGone s c l t in
      let s' = clean_chain s c can_bind in
      let (b, k) = clean_chains-IsGone s' cs (rw a.chains l) a.table in
      (IsCleaned-trans a b, (All-IsGone s' (clean_chains s' cs can_bind) c b g, k))

  -- A record that is still found was found before, and its port is in use.
  pub clean_chains-found :
      (s : Register)
      → 0 < length s.record_hash
      → IsTable s.record_hash
      → (q : ℤ) (p : ℕ)
      → ports (clean_chains s s.record_hash can_bind).record_hash q ≡ some (some p)
      → (ports s.record_hash q ≡ some (some p)) × (can_bind p ≡ false)
  unfolding port_of
  clean_chains-found s l t q p e =
      let (a, g) = clean_chains-IsGone s s.record_hash l t in
      elim (a.fewer q) [
        | inl x ↦ absurd (cc)
        | inr x ↦
            let y : ports s.record_hash q ≡ some (some p) = sym x ∙ e in
            let (c, d) = chain-some s.record_hash q l in
            let z = get-same s.record_hash q q c d refl in
            let (r, w, pr) = port_of-some (get_chain c q) p (ap port_of (sym z) ∙ y) in
            let (n, k, hc, hr) =
              get_chain-All (IsGone (clean_chains s s.record_hash can_bind)) c q r
                (All-get_elem? (All (IsGone (clean_chains s s.record_hash can_bind))) s.record_hash
                  (slot q (length s.record_hash)) c g (found_at s.record_hash q c d))
                w in
            (
              y,
              elim (Bool-cases (can_bind p)) [
                | inr v ↦ v
                | inl v ↦
                    let u = k (rw (hr, pr) v) in
                    let u' : ports (clean_chains s s.record_hash can_bind).record_hash q
                        ≡ some none =
                      subst
                        (λ j.
                          ports (clean_chains s s.record_hash can_bind).record_hash j ≡ some none)
                        hc u in
                    absurd (cc)
              ],
            )
      ]

  pub clean_chains-IsCleaned :
      (s : Register)
      → 0 < length s.record_hash
      → IsTable s.record_hash
      → IsCleaned s (clean_chains s s.record_hash can_bind)
  clean_chains-IsCleaned s l t = (clean_chains-IsGone s s.record_hash l t).0
