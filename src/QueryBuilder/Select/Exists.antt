-- ===== src/QueryBuilder/Select/Exists.antt =====
-- `build_exists_query` and `c_orm_select_where_relation` of src/c_orm_query_builder.c: a dotted path
-- of relations becomes nested EXISTS queries.
pub mod Relation
pub mod Route
pub mod Unresolved
use c_orm.Base.{
  ℕ, zero, suc, ◌+◌, Bool, true, false, Option, none, some, List, [], ◌∷◌, ◌++◌, Bytes, codes,
  length, take, equal, if◌then◌else◌,
}
use c_orm.Base.Decimal.{decimal}
use c_orm.Base.Search.{split_at}
use c_orm.Memory.{Error, Cmd, stuck, ◌>>=◌, ◌>>◌, fail, get, given, handle}
use c_orm.Meta.{ColumnMeta, RelationMeta, TableMeta, Schema, is_many_to_many}
use c_orm.StringBuilder
use c_orm.StringBuilder.{StringBuilder}
use c_orm.QueryBuilder.Select.{SelectBuilder, on_text, connective}

abbrev pub Text : Type 0
Text = Cmd (Option StringBuilder) (Unit {0})

abbrev say : Bytes → Text
say s = StringBuilder.append (some s)

-- The search for `rel_name` among the relations.
unfoldable pub find_relation : Bytes → List RelationMeta → Option RelationMeta
find_relation name [] = none
find_relation name (r ∷ rs) = if equal r.field_name name then some r else find_relation name rs

-- The first primary key among the columns, "id" if there is none.
unfoldable pub target_pk : List ColumnMeta → Bytes
target_pk [] = codes "id"
target_pk (c ∷ cs) = if c.is_pk then c.name else target_pk cs

-- `rel_name` is a buffer of 64 bytes.
abbrev pub rel_name : Bytes → Bytes
rel_name head = take 63 head

-- `snprintf(target_alias, 32, "t%d", depth)`
abbrev pub target_alias : ℕ → Bytes
target_alias depth = b't' ∷ decimal depth

-- A path with no dot is a column of the table that `parent_alias` names.
column_test : Bytes → Bytes → Bytes → Text
column_test parent_alias path operator_str = do
  say parent_alias
  say (codes ".")
  say path
  say (codes " ")
  say operator_str
  say (codes " ?")

many_to_many_join : RelationMeta → Bytes → Bytes → Bytes → Text
many_to_many_join rel pk alias parent_alias = do
  say (codes " INNER JOIN ")
  StringBuilder.append rel.join_table
  say (codes " j_")
  say alias
  say (codes " ON ")
  say alias
  say (codes ".")
  say pk
  say (codes " = j_")
  say alias
  say (codes ".")
  StringBuilder.append rel.join_foreign_key
  say (codes " WHERE j_")
  say alias
  say (codes ".")
  StringBuilder.append rel.join_local_key
  say (codes " = ")
  say parent_alias
  say (codes ".")
  StringBuilder.append rel.local_key

plain_join : RelationMeta → Bytes → Bytes → Text
plain_join rel alias parent_alias = do
  say (codes " WHERE ")
  say alias
  say (codes ".")
  StringBuilder.append rel.foreign_key
  say (codes " = ")
  say parent_alias
  say (codes ".")
  StringBuilder.append rel.local_key

-- `if (rel->type == C_ORM_RELATION_MANY_TO_MANY) ... else ...`
join : Bool → RelationMeta → Bytes → Bytes → Bytes → Text
unfolding many_to_many_join plain_join
join true rel pk alias parent_alias = many_to_many_join rel pk alias parent_alias
join false rel pk alias parent_alias = plain_join rel alias parent_alias

-- The EXISTS query for one relation, around the text for the rest of the path.
exists_around : RelationMeta → TableMeta → Bytes → Bytes → Text → Text
unfolding join
exists_around rel target alias parent_alias inner = do
  say (codes "EXISTS (SELECT 1 FROM ")
  say target.name
  say (codes " ")
  say alias
  join (is_many_to_many rel.relation_type) rel (target_pk target.columns) alias parent_alias
  say (codes " AND ")
  inner
  say (codes ")")

-- `target_meta` of the relation of that name.
unfoldable pub resolve : Schema → Option RelationMeta → Option (RelationMeta × TableMeta)
resolve tables none = none
resolve tables (some rel) = elim rel.target_meta [ none ↦ none | some t ↦ some (rel, tables t) ]

-- `build_exists_query`, on fuel; every call is on a shorter path.
pub build_exists : Schema → ℕ → TableMeta → Bytes → Bytes → Bytes → ℕ → Text
unfolding column_test exists_around
build_exists tables zero meta path op parent_alias depth = λ m. stuck
build_exists tables (suc fuel) meta path op parent_alias depth = elim (split_at b'.' path) [
  | none ↦ column_test parent_alias path op
  | some (head, rest) ↦ elim (resolve tables (find_relation (rel_name head) meta.relations)) [
    | none ↦ fail Error.unknown
    | some (rel, target) ↦
        exists_around rel target (target_alias depth) parent_alias
          (build_exists tables fuel target rest op (target_alias depth) (depth + 1))
  ]
]

pub build_exists_query : Schema → TableMeta → Bytes → Bytes → Bytes → ℕ → Text
unfolding build_exists
build_exists_query tables meta path = build_exists tables (suc (length path)) meta path

pub append_relation : Schema → Bytes → Bytes → Cmd SelectBuilder (Unit {0})
unfolding connective build_exists_query
append_relation tables path op = do
  b ← get
  connective b.has_where
  on_text (build_exists_query tables b.meta path op b.meta.name 1)

-- `c_orm_select_where_relation`
unfoldable pub where_relation :
    Schema → Option Bytes → Option Bytes → Cmd (Option SelectBuilder) (Unit {0})
unfolding append_relation
where_relation tables relation_name operator_str = handle Error.unknown (do
  path ← given Error.unknown relation_name
  op ← given Error.unknown operator_str
  append_relation tables path op)
