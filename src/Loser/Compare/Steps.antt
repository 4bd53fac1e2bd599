-- ===== src/Loser/Compare/Steps.antt =====
-- One round of the comparison, by its cases.
use sp.Base.{◌≡◌, refl, true, false, List, [], ◌∷◌, bytes_eq, bytes_eq_refl}
use sp.Loser.Files.{Entry}
use sp.Loser.Commit.{Report}
use sp.Loser.Compare.{add_new, add_old, drain, compare_loop}

-- The rest of the comparison, when the last commit has these entries left.
abbrev pub go_on : List Entry → List Entry → List Entry → Report → Report
go_on old [] es r = drain old r es
go_on old (o ∷ os) es r = compare_loop old (o ∷ os) es r

pub compare_loop-new :
    (old os es : List Entry) (o e : Entry) (r : Report)
    → bytes_eq o.name e.name ≡ false
    → compare_loop old (o ∷ os) (e ∷ es) r ≡ go_on old (o ∷ os) es (add_new old r e)
unfolding compare_loop
compare_loop-new old os es o e r h = rw (h, compare_loop)

pub compare_loop-same :
    (old os es : List Entry) (o e : Entry) (r : Report)
    → o.name ≡ e.name
    → compare_loop old (o ∷ os) (e ∷ es) r ≡ go_on old os es (add_old r o e)
unfolding compare_loop
compare_loop-same old [] es o e r h =
    let same : bytes_eq o.name e.name ≡ true = rw h (bytes_eq_refl e.name) in
    rw (same, compare_loop)
compare_loop-same old (o' ∷ os) es o e r h =
    let same : bytes_eq o.name e.name ≡ true = rw h (bytes_eq_refl e.name) in
    rw (same, compare_loop)

pub compare_loop-nil :
    (old os : List Entry) (o : Entry) (r : Report) → compare_loop old (o ∷ os) [] r ≡ r
unfolding compare_loop
compare_loop-nil old os o r = refl

pub drain-eq :
    (old es : List Entry) (e : Entry) (r : Report)
    → (drain old r [] ≡ r) × (drain old r (e ∷ es) ≡ drain old (add_new old r e) es)
unfolding drain
drain-eq old es e r = (refl, refl)
