-- ===== src/QueryBuilder/Select/Exists/Route.antt =====
-- What a dotted path means: the relations that it goes through and the column at its end, and the
-- condition that stands for it.
use c_orm.Base.{
  ℕ, zero, suc, ◌+◌, ◌<◌, ◌≡◌, refl, ap, inl, inr, Bool, true, false, Option, none, some, [], ◌∷◌,
  ◌++◌, arith, Bytes, codes, length, ◌==◌, Bool-cases,
}
use c_orm.Base.Search.{cons_first, split_at}
use c_orm.Memory.{◌>>◌}
use c_orm.Meta.{RelationMeta, TableMeta, Schema, is_many_to_many}
use c_orm.StringBuilder
use c_orm.StringBuilder.{StringBuilder}
use c_orm.StringBuilder.Emits.{Says, Emits-then, append-Says}
use c_orm.QueryBuilder.Select.Exists.{
  Text, find_relation, target_pk, rel_name, target_alias, column_test, join, exists_around, resolve,
  build_exists, build_exists_query,
}

pub data Route : Type 0 where
  column : Bytes → Route
  via : RelationMeta → TableMeta → Route → Route

-- The path leads from the table along the route.
pub data Resolves (tables : Schema) : TableMeta → Bytes → Route → Type 0 where
  here :
      {meta : TableMeta} {path : Bytes}
      → split_at b'.' path ≡ none
      → Resolves tables meta path (column path)
  step :
      {meta target : TableMeta} {path head rest : Bytes} {rel : RelationMeta} {r : Route}
      → split_at b'.' path ≡ some (head, rest)
      → resolve tables (find_relation (rel_name head) meta.relations) ≡ some (rel, target)
      → Resolves tables target rest r
      → Resolves tables meta path (via rel target r)

-- A string that is not NULL.
abbrev pub Present : Option Bytes → Type 0
Present none = ⊥
Present (some s) = Unit

abbrev pub key : Option Bytes → Bytes
key none = []
key (some s) = s

-- The relation has the keys that its type needs.
abbrev pub HasKeys : Bool → RelationMeta → Type 0
HasKeys true rel =
    Present rel.join_table
    × Present rel.join_foreign_key
    × Present rel.join_local_key
    × Present rel.local_key
HasKeys false rel = Present rel.foreign_key × Present rel.local_key

abbrev pub IsWired : Route → Type 0
IsWired (column c) = Unit
IsWired (via rel target r) = HasKeys (is_many_to_many rel.relation_type) rel × IsWired r

-- How the rows of the related table are tied to the row outside.
abbrev pub join_text : Bool → RelationMeta → Bytes → Bytes → Bytes → Bytes
join_text true rel pk alias parent =
    codes " INNER JOIN "
    ++ (key rel.join_table
        ++ (codes " j_"
            ++ (alias
                ++ (codes " ON "
                    ++ (alias
                        ++ (codes "."
                            ++ (pk
                                ++ (codes " = j_"
                                    ++ (alias
                                        ++ (codes "."
                                            ++ (key rel.join_foreign_key
                                                ++ (codes " WHERE j_"
                                                    ++ (alias
                                                        ++ (codes "."
                                                            ++ (key rel.join_local_key
                                                            ++ (codes " = "
                                                            ++ (parent
                                                            ++ (codes "."
                                                            ++ key rel.local_key))))))))))))))))))
join_text false rel pk alias parent =
    codes " WHERE "
    ++ (alias
        ++ (codes "."
            ++ (key rel.foreign_key
                ++ (codes " = " ++ (parent ++ (codes "." ++ key rel.local_key))))))

-- The condition for a route below the table that `parent` names.
abbrev pub condition : Bytes → Bytes → ℕ → Route → Bytes
condition op parent depth (column c) =
    parent ++ (codes "." ++ (c ++ (codes " " ++ (op ++ codes " ?"))))
condition op parent depth (via rel target r) =
    codes "EXISTS (SELECT 1 FROM "
    ++ (target.name
        ++ (codes " "
            ++ (target_alias depth
                ++ (join_text (is_many_to_many rel.relation_type) rel (target_pk target.columns)
                      (target_alias depth) parent
                    ++ (codes " AND "
                        ++ (condition op (target_alias depth) (depth + 1) r ++ codes ")"))))))

module _ {c d : Text} {s u : Bytes} where
  infixr 5 ◌then◌
  abbrev ◌then◌ : Says c s → Says d u → Says (c >> d) (s ++ u)
  ◌then◌ = Emits-then (λ o. o) (λ _. tt)

key-Says : (o : Option Bytes) → Present o → Says (StringBuilder.append o) (key o)
key-Says none p = absurd p
key-Says (some s) p = append-Says s

join-Says :
    (many : Bool) (rel : RelationMeta) (pk alias parent : Bytes)
    → HasKeys many rel
    → Says (join many rel pk alias parent) (join_text many rel pk alias parent)
unfolding join
join-Says true rel pk alias parent keys =
    append-Says (codes " INNER JOIN ")
    then key-Says _ keys.0
    then append-Says (codes " j_")
    then append-Says alias
    then append-Says (codes " ON ")
    then append-Says alias
    then append-Says (codes ".")
    then append-Says pk
    then append-Says (codes " = j_")
    then append-Says alias
    then append-Says (codes ".")
    then key-Says _ keys.1
    then append-Says (codes " WHERE j_")
    then append-Says alias
    then append-Says (codes ".")
    then key-Says _ keys.2
    then append-Says (codes " = ")
    then append-Says parent
    then append-Says (codes ".")
    then key-Says _ keys.3
join-Says false rel pk alias parent keys =
    append-Says (codes " WHERE ")
    then append-Says alias
    then append-Says (codes ".")
    then key-Says _ keys.0
    then append-Says (codes " = ")
    then append-Says parent
    then append-Says (codes ".")
    then key-Says _ keys.1

column-Says :
    (parent c op : Bytes) → Says (column_test parent c op) (condition op parent 0 (column c))
unfolding column_test
column-Says parent c op =
    append-Says parent
    then append-Says (codes ".")
    then append-Says c
    then append-Says (codes " ")
    then append-Says op
    then append-Says (codes " ?")

around-Says :
    (rel : RelationMeta) (target : TableMeta) (alias parent s : Bytes) {inner : Text}
    → HasKeys (is_many_to_many rel.relation_type) rel
    → Says inner s
    → Says (exists_around rel target alias parent inner) (
        codes "EXISTS (SELECT 1 FROM "
        ++ (target.name
            ++ (codes " "
                ++ (alias
                    ++ (join_text
                          (is_many_to_many rel.relation_type)
                          rel
                          (target_pk target.columns)
                          alias
                          parent
                        ++ (codes " AND " ++ (s ++ codes ")")))))))
unfolding exists_around
around-Says rel target alias parent s keys says =
    append-Says (codes "EXISTS (SELECT 1 FROM ")
    then append-Says target.name
    then append-Says (codes " ")
    then append-Says alias
    then join-Says (is_many_to_many rel.relation_type) rel _ alias parent keys
    then append-Says (codes " AND ")
    then says
    then append-Says (codes ")")

cons_first-length :
    (x n : ℕ) (o : Option (Bytes × Bytes)) {a b : Bytes}
    → ((a' b' : Bytes) → o ≡ some (a', b') → length b' < n)
    → cons_first x o ≡ some (a, b)
    → length b < suc n
cons_first-length x n none h e = cc
cons_first-length x n (some (a', b')) {a} {b} h e =
    let same : b' ≡ b = cc in omega (arith, h a' b' refl, ap length same)

split_at-length : (c : ℕ) (s a b : Bytes) → split_at c s ≡ some (a, b) → length b < length s
unfolding split_at
split_at-length c [] a b e = cc
split_at-length c (x ∷ s) a b e = elim (Bool-cases (x == c)) [
  | inl hit ↦ let same : s ≡ b = cc (rw hit at e) in omega (arith, ap length same)
  | inr miss ↦ cons_first-length x (length s) (split_at c s) (split_at-length c s) (rw miss at e)
]

-- The recursion on the path ends within the fuel, and writes the condition of the route.
build-Says :
    (tables : Schema) (op : Bytes) (fuel : ℕ) (parent : Bytes) (depth : ℕ) {meta : TableMeta}
    {path : Bytes} {r : Route}
    → Resolves tables meta path r
    → IsWired r
    → length path < fuel
    → Says (build_exists tables fuel meta path op parent depth) (condition op parent depth r)
unfolding build_exists
build-Says tables op zero parent depth res wired room = absurd (omega arith)
build-Says tables op (suc fuel) parent depth (here {path} last) wired room =
    rw (last, build_exists) (column-Says parent path op)
build-Says tables op (suc fuel) parent depth
      (step {target} {path} {head} {rest} {rel} split found more) wired room =
    rw (split, build_exists, found)
      (around-Says rel target (target_alias depth) parent _ wired.0 (
        build-Says tables op fuel (target_alias depth) (depth + 1) more wired.1
          (omega (arith, split_at-length b'.' path head rest split))))

pub query-Says :
    (tables : Schema) (op parent : Bytes) (depth : ℕ) {meta : TableMeta} {path : Bytes} {r : Route}
    → Resolves tables meta path r
    → IsWired r
    → Says (build_exists_query tables meta path op parent depth) (condition op parent depth r)
unfolding build_exists_query
query-Says tables op parent depth {path} res wired =
    build-Says tables op (suc (length path)) parent depth res wired (omega arith)
