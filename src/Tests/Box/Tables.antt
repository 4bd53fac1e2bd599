-- ===== src/Tests/Box/Tables.antt =====
-- A table of three chains, and two configurations.
use sp.Base.{
  ℕ, ◌+◌, ◌≡◌, ◌↔◌, refl, Bool, true, ◌&&◌, ◌||◌, Option, none, some, List, [], ◌∷◌, ◌==◌, arith,
  Bytes, codes, if◌then◌else◌,
}
use sp.Base.Int.{ℤ, pos, negsuc, ◌==ℤ◌}
use sp.Box.Table.{
  HashNode, Chain, slot, put_into_hash, get_from_hash, del_from_hash, init_hash, put_chain,
  chain_of, stored, unlink, del_chain, removed,
}
use sp.Box.Table.Unique.{init_hash-IsTable, put_into_hash-IsTable, del_from_hash-IsTable}
use sp.Box.Table.Change.{
  IsTable, first_of, put_into_hash-get_from_hash, del_from_hash-get_from_hash,
}
use sp.Box.Config.{server_fields, accepted, config_error, parse_arg}
use sp.Box.Config.Lines.{render, AreLines, all_given, assign_all, parse_arg-render, fields-Distinct}

abbrev node : ℕ → HashNode ℕ
node n = record { contain = n + n; hash_code = pos n }

abbrev table : List (Chain ℕ)
table = (node 3 ∷ node 6 ∷ []) ∷ (node 1 ∷ []) ∷ [] ∷ []

abbrev two_chains : List (Chain ℕ)
two_chains = (node 3 ∷ []) ∷ (node 1 ∷ []) ∷ [] ∷ []

abbrev one_chain : List (Chain ℕ)
one_chain = (node 3 ∷ []) ∷ [] ∷ [] ∷ []

abbrev new_table : List (Chain ℕ)
new_table = [] ∷ [] ∷ [] ∷ []

-- The table as it is filled from a new one, and without one of its entries.
table-IsTable : IsTable table
unfolding init_hash put_into_hash put_chain chain_of stored slot
table-IsTable =
    let a = (init_hash-IsTable 3 new_table refl).0 in
    let b = (put_into_hash-IsTable new_table one_chain 6 (pos 3) true (omega arith) a refl).0 in
    let c = (put_into_hash-IsTable one_chain two_chains 2 (pos 1) true (omega arith) b refl).0 in
    (put_into_hash-IsTable two_chains table 12 (pos 6) true (omega arith) c refl).0

two_chains-IsTable : IsTable two_chains
unfolding del_from_hash del_chain unlink chain_of removed slot
two_chains-IsTable =
    (del_from_hash-IsTable table two_chains (pos 6) (some 12) (omega arith) table-IsTable refl).0

put_into_hash-get_from_hash_example :
    (r : List (Chain ℕ) × Bool) × (put_into_hash table 9 (negsuc 1) ≡ some r)
    × ((r.1 ≡ true) ↔ (get_from_hash table (negsuc 1) ≡ some none))
    × ((q : ℤ)
        → get_from_hash r.0 q
          ≡ (if r.1 && (negsuc 1 ==ℤ q) then some (some 9) else get_from_hash table q))
put_into_hash-get_from_hash_example = put_into_hash-get_from_hash table 9 (negsuc 1) (omega arith)

del_from_hash-get_from_hash_example :
    (r : List (Chain ℕ) × Option ℕ) × (del_from_hash table (pos 3) ≡ some r)
    × (get_from_hash table (pos 3) ≡ some r.1)
    × ((q : ℤ)
        → get_from_hash r.0 q ≡ elim r.1 [
          | none ↦ get_from_hash table q
          | some a ↦
              if (slot (pos 3) 3 == slot q 3) && first_of table (pos 3) || (q ==ℤ pos 3)
              then some none
              else get_from_hash table q
        ])
del_from_hash-get_from_hash_example =
    del_from_hash-get_from_hash table (pos 3) (omega arith) table-IsTable

abbrev config_lines : List (Bytes × Bytes)
config_lines =
    (codes "path", codes "sdir") ∷ (codes "x", []) ∷ (codes "account_path", codes "acc") ∷ []

config_lines-AreLines : AreLines config_lines
config_lines-AreLines = ground arith

parse_arg-render_example : parse_arg (render config_lines) server_fields ≡ (
    if all_given server_fields config_lines
    then accepted (assign_all server_fields config_lines)
    else config_error)
parse_arg-render_example =
    parse_arg-render config_lines server_fields config_lines-AreLines fields-Distinct.0
