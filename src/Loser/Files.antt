-- ===== src/Loser/Files.antt =====
-- `List_File` of MP1/main.cpp over the names that readdir() gives (MP1/list_file/list_file.cpp), and
-- `MD5`, which pairs each name with the digest of its file. `std::sort` is insertion sort here: on
-- strings every sort gives the same list.
use sp.Base.{
  Bool, true, false, not, ◌&&◌, ◌||◌, List, [], ◌∷◌, Bytes, codes, bytes_eq, ltb, ◌==◌,
  if◌then◌else◌,
}

-- `a < b` on std::string: by bytes, a prefix first.
unfoldable pub str_lt : Bytes → Bytes → Bool
str_lt [] [] = false
str_lt [] (y ∷ ys) = true
str_lt (x ∷ xs) [] = false
str_lt (x ∷ xs) (y ∷ ys) = ltb x y || ((x == y) && str_lt xs ys)

unfoldable pub sort_insert : Bytes → List Bytes → List Bytes
sort_insert a [] = a ∷ []
sort_insert a (b ∷ bs) = if str_lt b a then b ∷ sort_insert a bs else a ∷ b ∷ bs

unfoldable pub sort : List Bytes → List Bytes
unfolding sort_insert str_lt
sort [] = []
sort (a ∷ names) = sort_insert a (sort names)

-- The names that are listed: all but the record and the two directories.
unfoldable pub is_listed : Bytes → Bool
is_listed name =
    not (bytes_eq name (codes ".loser_record"))
    && (not (bytes_eq name (codes ".")) && not (bytes_eq name (codes "..")))

unfoldable pub keep_listed : List Bytes → List Bytes
unfolding is_listed
keep_listed [] = []
keep_listed (a ∷ names) = let rest = keep_listed names in if is_listed a then a ∷ rest else rest

unfoldable pub list_file : List Bytes → List Bytes
unfolding keep_listed sort
list_file names = sort (keep_listed names)

-- A file's name and its digest, two neighbours in the program's vectors.
pub record Entry : Type 0 where
  pub name : Bytes
  pub md5 : Bytes

-- `MD5(dir, file_vector, MD5_vector)`, where `digest` is `md5(dir, file)` of MP1/md5.
unfoldable pub hash_files : (Bytes → Bytes) → List Bytes → List Entry
hash_files digest [] = []
hash_files digest (a ∷ names) = record { name = a; md5 = digest a } ∷ hash_files digest names
