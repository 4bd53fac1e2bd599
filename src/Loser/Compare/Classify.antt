-- ===== src/Loser/Compare/Classify.antt =====
-- What the comparison says of each file, when no file was deleted; and when one was.
use sp.Base.{
  ◌≡◌, ◌≢◌, refl, sym, ap, ◌∙◌, inl, inr, false, Option, none, some, List, [], ◌∷◌, arith, Bytes,
  bytes_eq, bytes_eq_refl, bytes_eq_sound, if◌then◌else◌, Bool-cases, subst, ◌<◌, length,
}
use sp.Loser.Files.{Entry}
use sp.Loser.Commit.{Report}
use sp.Loser.Compare.{no_change, add_new, add_old, drain, compare_loop, compare_commits}
use sp.Loser.Compare.Steps.{go_on, compare_loop-new, compare_loop-same, compare_loop-nil, drain-eq}

-- The digest that the last commit has for a name.
unfoldable pub lookup : Bytes → List Entry → Option Bytes
lookup name [] = none
lookup name (o ∷ os) = if bytes_eq o.name name then some o.md5 else lookup name os

-- A file by its name alone, with what the last commit has for it.
abbrev pub judged : List Entry → Report → Entry → Option Bytes → Report
judged old r e none = add_new old r e
judged old r e (some md5) = add_old r (record { name = e.name; md5 = md5 }) e

unfoldable pub classify : List Entry → List Entry → List Entry → Report → Report
unfolding lookup
classify old os [] r = r
classify old os (e ∷ es) r = classify old os es (judged old r e (lookup e.name os))

-- No entry has the name.
abbrev pub Absent : Bytes → List Entry → Type 0
Absent name [] = Unit {0}
Absent name (e ∷ es) = (e.name ≢ name) × Absent name es

-- The names of the last commit stand among the new ones, in the same order: no file was deleted.
-- Names do not repeat.
pub data Aligned : List Entry → List Entry → Type 0 where
  finished : {es : List Entry} → Aligned [] es
  added : {os es : List Entry} {e : Entry} → Absent e.name os → Aligned os es → Aligned os (e ∷ es)
  kept :
      {os es : List Entry} {o e : Entry}
      → o.name ≡ e.name
      → Absent e.name es
      → Aligned os es
      → Aligned (o ∷ os) (e ∷ es)

ne_sound : (a b : Bytes) → a ≢ b → bytes_eq a b ≡ false
ne_sound a b h = elim (Bool-cases (bytes_eq a b)) [
  | inl e ↦ absurd (h (bytes_eq_sound a b e))
  | inr e ↦ e
]

lookup-Absent : (name : Bytes) (os : List Entry) → Absent name os → lookup name os ≡ none
unfolding lookup
lookup-Absent name [] h = refl
lookup-Absent name (o ∷ os) h = rw (ne_sound o.name name h.0) (lookup-Absent name os h.1)

lookup-head : (o : Entry) (os : List Entry) → lookup o.name (o ∷ os) ≡ some o.md5
unfolding lookup
lookup-head o os = rw (bytes_eq_refl o.name)

lookup-named :
    (o : Entry) (os : List Entry) (name : Bytes) → o.name ≡ name → lookup name (o ∷ os) ≡ some o.md5
lookup-named o os name h = rw (← h) (lookup-head o os)

classify-cons :
    (old os es : List Entry) (e : Entry) (r : Report)
    → classify old os (e ∷ es) r ≡ classify old os es (judged old r e (lookup e.name os))
unfolding classify
classify-cons old os es e r = refl

-- An entry that no name refers to may go.
classify-tail :
    (old os es : List Entry) (o : Entry) (r : Report)
    → Absent o.name es
    → classify old (o ∷ os) es r ≡ classify old os es r
unfolding classify
classify-tail old os [] o r h = refl
classify-tail old os (e ∷ es) o r h =
    rw (ne_sound o.name e.name (λ p. h.0 (sym p))) (classify-tail old os es o _ h.1)

classify-nil : (old es : List Entry) (r : Report) → classify old [] es r ≡ drain old r es
unfolding classify drain
classify-nil old [] r = refl
classify-nil old (e ∷ es) r = classify-nil old es (add_new old r e)

classify-empty : (old os : List Entry) (r : Report) → classify old os [] r ≡ r
unfolding classify
classify-empty old os r = refl

added_step :
    (old os es : List Entry) (e : Entry) (r : Report)
    → Absent e.name os
    → go_on old os es (add_new old r e) ≡ classify old os es (add_new old r e)
    → go_on old os (e ∷ es) r ≡ classify old os (e ∷ es) r
added_step old os es e r absent ih =
    start os absent
    ∙ ih
    ∙ sym (
        classify-cons old os es e r
        ∙ ap (λ l. classify old os es (judged old r e l)) (lookup-Absent e.name os absent))
  where
    start :
        (os : List Entry)
        → Absent e.name os
        → go_on old os (e ∷ es) r ≡ go_on old os es (add_new old r e)
    start [] h = (drain-eq old es e r).1
    start (o ∷ os) h = compare_loop-new old os es o e r (ne_sound o.name e.name h.0)

kept_step :
    (old os es : List Entry) (o e : Entry) (r : Report)
    → o.name ≡ e.name
    → Absent e.name es
    → go_on old os es (add_old r o e) ≡ classify old os es (add_old r o e)
    → go_on old (o ∷ os) (e ∷ es) r ≡ classify old (o ∷ os) (e ∷ es) r
kept_step old os es o e r named fresh ih =
    compare_loop-same old os es o e r named
    ∙ ih
    ∙ sym (
        classify-cons old (o ∷ os) es e r
        ∙ ap (λ l. classify old (o ∷ os) es (judged old r e l)) (lookup-named o os e.name named)
        ∙ ap (λ n. classify old (o ∷ os) es (add_old r (record { name = n; md5 = o.md5 }) e))
            (sym named)
        ∙ classify-tail old os es o (add_old r o e) (subst (λ n. Absent n es) (sym named) fresh))

go_on-classify :
    (old : List Entry) {os es : List Entry} (r : Report)
    → Aligned os es
    → go_on old os es r ≡ classify old os es r
go_on-classify old {es} r finished = sym (classify-nil old es r)
go_on-classify old r (added {os} {es} {e} absent rest) =
    added_step old os es e r absent (go_on-classify old (add_new old r e) rest)
go_on-classify old r (kept {os} {es} {o} {e} named fresh rest) =
    kept_step old os es o e r named fresh (go_on-classify old (add_old r o e) rest)

-- If the last commit had a file, none of its files was deleted and names do not repeat, the
-- comparison handles each file by `add_old` if the last commit had its name, and by `add_new` if not.
pub compare_commits-classify :
    (old new : List Entry)
    → Aligned old new
    → 0 < length old
    → compare_commits old new ≡ classify old old new no_change
unfolding compare_commits
compare_commits-classify [] new h l = absurd (omega arith)
compare_commits-classify (o ∷ os) new h l = go_on-classify (o ∷ os) no_change h

drain-modified : (old es : List Entry) (r : Report) → (drain old r es).modified ≡ r.modified
unfolding drain
drain-modified old [] r = refl
drain-modified old (e ∷ es) r = drain-modified old es (add_new old r e)

compare_loop-deleted :
    (old os es : List Entry) (o : Entry) (r : Report)
    → Absent o.name es
    → compare_loop old (o ∷ os) es r ≡ drain old r es
compare_loop-deleted old os [] o r h = compare_loop-nil old os o r ∙ sym (drain-eq old [] o r).0
compare_loop-deleted old os (e ∷ es) o r h =
    compare_loop-new old os es o e r (ne_sound o.name e.name (λ p. h.0 (sym p)))
    ∙ compare_loop-deleted old os es o (add_new old r e) h.1
    ∙ sym (drain-eq old es e r).1

-- Once the first file of the last commit is gone, the report is that of `drain`, the loop over files
-- that the last commit does not have, for the whole directory: no file is found modified, whatever its
-- digest.
pub compare_commits-deleted :
    (o : Entry) (os new : List Entry)
    → Absent o.name new
    → (compare_commits (o ∷ os) new ≡ drain (o ∷ os) no_change new)
      × ((compare_commits (o ∷ os) new).modified ≡ [])
unfolding compare_commits
compare_commits-deleted o os new h =
    let same = compare_loop-deleted (o ∷ os) os new o no_change h in
    (same, ap (λ (x : Report). x.modified) same ∙ drain-modified (o ∷ os) new no_change)
