-- ===== src/Loser/Compare/Judged.antt =====
-- The report of the comparison, field by field, when no file was deleted.
use sp.Base.{
  ◌≡◌, ◌<◌, refl, ap, ◌∙◌, inl, inr, Bool, true, false, not, ◌||◌, Option, none, some, List, [],
  ◌∷◌, ◌++◌, append-nil, append_assoc, Bytes, bytes_eq, bytes_eq_sound, if◌then◌else◌, Bool-cases,
  length,
}
use sp.Loser.Files.{Entry}
use sp.Loser.Commit.{Report, Copy}
use sp.Loser.Compare.{no_change, md5_map, add_new, add_old, compare_commits}
use sp.Loser.Compare.Classify.{lookup, judged, classify, Aligned, compare_commits-classify}

-- What is said of a file, from the digest that the last commit has for its name. Its name is new when the
-- last commit has neither the name nor the digest.
abbrev pub new_for : List Entry → Entry → Option Bytes → List Bytes
new_for old e none = if bytes_eq (md5_map old e.md5) [] then e.name ∷ [] else []
new_for old e (some md5) = []

-- The name is there with another digest.
abbrev pub modified_for : Entry → Option Bytes → List Bytes
modified_for e none = []
modified_for e (some md5) = if bytes_eq md5 e.md5 then [] else e.name ∷ []

-- The name is not there, and another file has the digest.
abbrev pub copied_for : List Entry → Entry → Option Bytes → List Copy
copied_for old e none =
    if bytes_eq (md5_map old e.md5) []
    then []
    else if bytes_eq (md5_map old e.md5) e.name
    then []
    else record { from = md5_map old e.md5; to = e.name } ∷ []
copied_for old e (some md5) = []

-- The name is not there with this digest.
abbrev pub changed_for : Entry → Option Bytes → Bool
changed_for e none = true
changed_for e (some md5) = not (bytes_eq md5 e.md5)

abbrev pub new_of : List Entry → List Entry → Entry → List Bytes
new_of old os e = new_for old e (lookup e.name os)

abbrev pub modified_of : List Entry → Entry → List Bytes
modified_of os e = modified_for e (lookup e.name os)

abbrev pub copied_of : List Entry → List Entry → Entry → List Copy
copied_of old os e = copied_for old e (lookup e.name os)

abbrev pub is_changed : List Entry → Entry → Bool
is_changed os e = changed_for e (lookup e.name os)

abbrev pub gather : {A : Type 0} → (Entry → List A) → List Entry → List A
gather f [] = []
gather f (e ∷ es) = f e ++ gather f es

abbrev pub any_changed : List Entry → List Entry → Bool
any_changed os [] = false
any_changed os (e ∷ es) = is_changed os e || any_changed os es

abbrev extended : List Entry → List Entry → List Entry → Report → Report
extended old os es r = record {
  new_file = r.new_file ++ gather (new_of old os) es;
  modified = r.modified ++ gather (modified_of os) es;
  copied = r.copied ++ gather (copied_of old os) es;
  listing = r.listing ++ es;
  is_change = r.is_change || any_changed os es;
}

-- The same, with what the last commit has for the first file.
abbrev with_found : List Entry → List Entry → List Entry → Entry → Report → Option Bytes → Report
with_found old os es e r o = record {
  new_file = r.new_file ++ (new_for old e o ++ gather (new_of old os) es);
  modified = r.modified ++ (modified_for e o ++ gather (modified_of os) es);
  copied = r.copied ++ (copied_for old e o ++ gather (copied_of old os) es);
  listing = r.listing ++ e ∷ es;
  is_change = r.is_change || (changed_for e o || any_changed os es);
}

or_true : (b : Bool) → (b || true) ≡ true
or_true true = refl
or_true false = refl

or_false : (b : Bool) → (b || false) ≡ b
or_false true = refl
or_false false = refl

unchanged_step :
    (old os es : List Entry) (e : Entry) (md5 : Bytes) (r : Report)
    → bytes_eq md5 e.md5 ≡ true
    → extended old os es (judged old r e (some md5)) ≡ with_found old os es e r (some md5)
unfolding add_old
unchanged_step old os es e md5 r s =
    let x : md5 ≡ e.md5 = bytes_eq_sound md5 e.md5 s in
    rw (s, x, append_assoc r.listing (e ∷ []) es) refl

modified_step :
    (old os es : List Entry) (e : Entry) (md5 : Bytes) (r : Report)
    → bytes_eq md5 e.md5 ≡ false
    → extended old os es (judged old r e (some md5)) ≡ with_found old os es e r (some md5)
unfolding add_old
modified_step old os es e md5 r s =
    rw
      (
        s,
        append_assoc r.listing (e ∷ []) es,
        append_assoc r.modified (e.name ∷ []) (gather (modified_of os) es),
        or_true r.is_change,
      )
      refl

new_step :
    (old os es : List Entry) (e : Entry) (r : Report)
    → extended old os es (judged old r e none) ≡ with_found old os es e r none
unfolding add_new
new_step old os es e r = elim (Bool-cases (bytes_eq (md5_map old e.md5) [])) [
  | inl x ↦
      rw
        (
          x,
          append_assoc r.listing (e ∷ []) es,
          append_assoc r.new_file (e.name ∷ []) (gather (new_of old os) es),
          or_true r.is_change,
        )
        refl
  | inr x ↦ elim (Bool-cases (bytes_eq (md5_map old e.md5) e.name)) [
    | inl y ↦ rw (x, y, append_assoc r.listing (e ∷ []) es, or_true r.is_change) refl
    | inr y ↦
        rw
          (
            x,
            y,
            append_assoc r.listing (e ∷ []) es,
            append_assoc r.copied (record { from = md5_map old e.md5; to = e.name } ∷ [])
                (gather (copied_of old os) es),
            or_true r.is_change,
          )
          refl
  ]
]

classify-extended :
    (old os es : List Entry) (r : Report) → classify old os es r ≡ extended old os es r
unfolding classify
classify-extended old os [] r =
    rw
      (
        append-nil r.new_file,
        append-nil r.modified,
        append-nil r.copied,
        append-nil r.listing,
        or_false r.is_change,
      )
      refl
classify-extended old os (e ∷ es) r =
    classify-extended old os es (judged old r e (lookup e.name os)) ∙ by_found (lookup e.name os)
  where
    by_found :
        (o : Option Bytes) → extended old os es (judged old r e o) ≡ with_found old os es e r o
    by_found none = new_step old os es e r
    by_found (some md5) = elim (Bool-cases (bytes_eq md5 e.md5)) [
      | inl s ↦ unchanged_step old os es e md5 r s
      | inr s ↦ modified_step old os es e md5 r s
    ]

-- If the last commit had a file, none of its files was deleted and names do not repeat: modified are
-- exactly the files that it had with another digest; of the files whose name it did not have, those are new for
-- whose digest `MD5_map` has no name, and the others are copied from the name it has, if that is another; each
-- in the order of the directory. The new listing is the directory, and there is a change exactly when the last
-- commit does not have some file with its digest.
pub compare_commits-judged :
    (old new : List Entry)
    → Aligned old new
    → 0 < length old
    → ((compare_commits old new).new_file ≡ gather (new_of old old) new)
      × ((compare_commits old new).modified ≡ gather (modified_of old) new)
      × ((compare_commits old new).copied ≡ gather (copied_of old old) new)
      × ((compare_commits old new).listing ≡ new)
      × ((compare_commits old new).is_change ≡ any_changed old new)
compare_commits-judged old new h l =
    let e = compare_commits-classify old new h l ∙ classify-extended old old new no_change in
    (
      ap (λ (x : Report). x.new_file) e,
      ap (λ (x : Report). x.modified) e,
      ap (λ (x : Report). x.copied) e,
      ap (λ (x : Report). x.listing) e,
      ap (λ (x : Report). x.is_change) e,
    )
