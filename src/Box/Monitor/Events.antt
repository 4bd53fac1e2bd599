-- ===== src/Box/Monitor/Events.antt =====
-- MP5/src/csiebox_client.c: `handle_inotify`, over the events that a read brings.
use sp.Base.{
  ℕ, zero, suc, ◌≡◌, refl, sym, ap, subst, ◌∙◌, inl, inr, Option-cases, Bool, false, Option, none,
  some, List, [], ◌∷◌, ◌++◌, Bytes, if◌then◌else◌, length,
}
use sp.Base.Int.{ℤ}
use sp.Box.Table.{get_from_hash}
use sp.Box.Monitor.{
  Machine, Client, Run, returned, waits, fault, out_of_rounds, ◌>>=◌, or_fault, sync_file,
  sync_file_meta, add_inotify, rm_file,
}

-- The bits of the mask that are tested.
pub record Event : Type 0 where
  pub wd : ℤ
  pub in_create : Bool
  pub in_attrib : Bool
  pub in_delete : Bool
  pub in_isdir : Bool
  pub name : Bytes

module _ (m : Machine) where
  -- One event, with the path of its directory and its own.
  unfoldable pub handle_event : Client → Event → Bytes → Run Client
  unfolding sync_file sync_file_meta add_inotify rm_file
  handle_event c e path =
      if e.in_create
      then (sync_file m c path >>= λ c'. if e.in_isdir then add_inotify m c' path else returned c')
      else if e.in_attrib
      then (sync_file_meta m c path >>= λ r. returned r.1)
      else if e.in_delete
      then rm_file m c path e.in_isdir
      else sync_file m c path

  -- The loop. An event whose watch is not in the table is looked at again, as `i` stays.
  unfoldable pub handle_events : ℕ → List Event → Client → Run Client
  unfolding handle_event or_fault
  handle_events zero es c = out_of_rounds
  handle_events (suc fuel) [] c = returned c
  handle_events (suc fuel) (e ∷ es) c = or_fault (get_from_hash c.inotify_hash e.wd) >>= λ found.
      elim found [
        | none ↦ handle_events fuel (e ∷ es) c
        | some wd_path ↦
            handle_event c e (wd_path ++ b'/' ∷ e.name) >>= λ c'. handle_events fuel es c'
      ]

  -- An event whose watch is not in the table keeps the loop for ever.
  unknown_watch :
      (fuel : ℕ) (e : Event) (es : List Event) (c : Client)
      → get_from_hash c.inotify_hash e.wd ≡ some none
      → handle_events fuel (e ∷ es) c ≡ out_of_rounds
  unfolding handle_events or_fault
  unknown_watch zero e es c x = refl
  unknown_watch (suc fuel) e es c x = rw (handle_events, x) (unknown_watch fuel e es c x)

  known_watch :
      (fuel : ℕ) (e : Event) (es : List Event) (c : Client) (w : Bytes)
      → get_from_hash c.inotify_hash e.wd ≡ some (some w)
      → handle_events (suc fuel) (e ∷ es) c
        ≡ (handle_event c e (w ++ b'/' ∷ e.name) >>= λ c'. handle_events fuel es c')
  unfolding handle_events or_fault
  known_watch fuel e es c w x = rw (handle_events, x) refl

  client_of : Client → Run Client → Client
  client_of d (returned c) = c
  client_of d waits = d
  client_of d fault = d
  client_of d out_of_rounds = d

  returned_from :
      (r : Run Client) (f : Client → Run Client) (c' : Client)
      → (r >>= f) ≡ returned c'
      → (c : Client) × (r ≡ returned c) × (f c ≡ returned c')
  returned_from (returned c) f c' h = (c, refl, h)
  returned_from waits f c' h = absurd (cc)
  returned_from fault f c' h = absurd (cc)
  returned_from out_of_rounds f c' h = absurd (cc)

  -- When the loop over some events returns, and then comes an event whose watch is not in the table that
  -- is left: whatever follows, and in however many rounds, the loop does not end.
  pub handle_events_stuck :
      (es : List Event) (e : Event) (more : List Event) (c c' : Client)
      → handle_events (suc (length es)) es c ≡ returned c'
      → get_from_hash c'.inotify_hash e.wd ≡ some none
      → (fuel : ℕ) → handle_events fuel (es ++ e ∷ more) c ≡ out_of_rounds
  unfolding handle_events or_fault client_of
  handle_events_stuck es e more c c' h u zero = refl
  handle_events_stuck [] e more c c' h u (suc fuel) =
      let same : c' ≡ c = ap (client_of c) (sym h) in
      unknown_watch (suc fuel) e more c
        (subst (λ (x : Client). get_from_hash x.inotify_hash e.wd ≡ some none) same u)
  handle_events_stuck (x ∷ es) e more c c' h u (suc fuel) =
      elim (Option-cases (get_from_hash c.inotify_hash x.wd)) [
        | inl k ↦ absurd (cc (rw (handle_events, k) at h))
        | inr (none, k) ↦ absurd (cc (sym (unknown_watch (suc (suc (length es))) x es c k) ∙ h))
        | inr (some w, k) ↦
            let (c1, a, b) =
              returned_from (handle_event c x (w ++ b'/' ∷ x.name))
                (handle_events (suc (length es)) es) c'
                (sym (known_watch (suc (length es)) x es c w k) ∙ h) in
            known_watch fuel x (es ++ e ∷ more) c w k
            ∙ ap (λ r. r >>= λ c2. handle_events fuel (es ++ e ∷ more) c2) a
            ∙ handle_events_stuck es e more c1 c' b u fuel
      ]

  -- `none` when nothing could be read.
  unfoldable pub handle_inotify : ℕ → Option (List Event) → Client → Run Client
  unfolding handle_events
  handle_inotify fuel none c = returned c
  handle_inotify fuel (some es) c =
      if c.ignore_inotify_event
      then returned (record c { ignore_inotify_event = false })
      else handle_events fuel es c
