-- ===== src/Loser/Compare/Listing.antt =====
-- What the comparison says for every two lists: the new listing is complete, and a directory that
-- has not changed is not reported.
use sp.Base.{
  ◌≡◌, refl, sym, ap, ◌∙◌, inl, inr, List, [], ◌∷◌, ◌++◌, append-nil, append_assoc, bytes_eq,
  bytes_eq_refl, bytes_eq_sound, Bool-cases,
}
use sp.Loser.Files.{Entry}
use sp.Loser.Commit.{Report}
use sp.Loser.Compare.Steps.{go_on, compare_loop-new, compare_loop-same, compare_loop-nil}
use sp.Loser.Compare.{no_change, add_new, add_old, drain, compare_commits}

add_new-listing :
    (old : List Entry) (r : Report) (e : Entry) → (add_new old r e).listing ≡ r.listing ++ e ∷ []
unfolding add_new
add_new-listing old r e = refl

Entry-eq : (o e : Entry) → o.name ≡ e.name → o.md5 ≡ e.md5 → o ≡ e
Entry-eq o e p q = λ i. record { name = p i; md5 = q i }

add_old-listing :
    (r : Report) (o e : Entry) → o.name ≡ e.name → (add_old r o e).listing ≡ r.listing ++ e ∷ []
unfolding add_old
add_old-listing r o e h = elim (Bool-cases (bytes_eq o.md5 e.md5)) [
  | inl same ↦
      rw same (ap (λ x. r.listing ++ x ∷ []) (Entry-eq o e h (bytes_eq_sound o.md5 e.md5 same)))
  | inr differ ↦ rw differ
]

drain-listing :
    (old : List Entry) (es : List Entry) (r : Report) → (drain old r es).listing ≡ r.listing ++ es
unfolding drain
drain-listing old [] r = sym (append-nil r.listing)
drain-listing old (e ∷ es) r =
    drain-listing old es (add_new old r e) ∙ append_assoc r.listing (e ∷ []) es

go_on-listing :
    (old es os : List Entry) (r : Report) → (go_on old os es r).listing ≡ r.listing ++ es
unfolding add_new
go_on-listing old es [] r = drain-listing old es r
go_on-listing old [] (o ∷ os) r =
    ap (λ (x : Report). x.listing) (compare_loop-nil old os o r) ∙ sym (append-nil r.listing)
go_on-listing old (e ∷ es) (o ∷ os) r = elim (Bool-cases (bytes_eq o.name e.name)) [
  | inr other ↦
      ap (λ (x : Report). x.listing) (compare_loop-new old os es o e r other)
      ∙ go_on-listing old es (o ∷ os) (add_new old r e)
      ∙ append_assoc r.listing (e ∷ []) es
  | inl same ↦
      let named = bytes_eq_sound o.name e.name same in
      ap (λ (x : Report). x.listing) (compare_loop-same old os es o e r named)
      ∙ go_on-listing old es os (add_old r o e)
      ∙ ap (λ l. l ++ es) (add_old-listing r o e named)
      ∙ append_assoc r.listing (e ∷ []) es
]

-- The listing of a new commit is that of the directory, entry by entry, whatever the last commit
-- held: each commit records the whole state, so that the last one is enough to compare with.
pub compare_commits-listing :
    (o : Entry) (os new : List Entry) → (compare_commits (o ∷ os) new).listing ≡ new
unfolding compare_commits
compare_commits-listing o os new = go_on-listing (o ∷ os) new (o ∷ os) no_change

add_old-same : (r : Report) (e : Entry) → add_old r e e ≡ record r { listing = r.listing ++ e ∷ [] }
unfolding add_old
add_old-same r e = rw (bytes_eq_refl e.md5)

go_on-same :
    (old : List Entry) (e : Entry) (es : List Entry) (r : Report)
    → go_on old (e ∷ es) (e ∷ es) r ≡ record r { listing = r.listing ++ e ∷ es }
unfolding drain
go_on-same old e [] r = compare_loop-same old [] [] e e r refl ∙ add_old-same r e
go_on-same old e (x ∷ es) r =
    compare_loop-same old (x ∷ es) (x ∷ es) e e r refl
    ∙ ap (go_on old (x ∷ es) (x ∷ es)) (add_old-same r e)
    ∙ go_on-same old x es (record r { listing = r.listing ++ e ∷ [] })
    ∙ ap (λ l. record r { listing = l }) (append_assoc r.listing (e ∷ []) (x ∷ es))

-- A directory that is as it was at the last commit has no new, no modified and no copied file, and
-- is not committed again.
pub compare_commits-same :
    (e : Entry) (es : List Entry)
    → compare_commits (e ∷ es) (e ∷ es) ≡ record no_change { listing = e ∷ es }
unfolding compare_commits
compare_commits-same e es = go_on-same (e ∷ es) e es no_change
