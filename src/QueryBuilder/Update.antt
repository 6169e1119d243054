-- ===== src/QueryBuilder/Update.antt =====
-- `c_orm_update_builder_t` of src/c_orm_query_builder.c and its operations, and a client of them.
pub mod Clauses
pub mod Render
use c_orm.Base.{
  ℕ, ◌+◌, Bool, true, false, not, Option, none, some, List, [], ◌∷◌, ◌++◌, Bytes, codes, length,
  if◌then◌else◌,
}
use c_orm.Memory.{Error, Cmd, ◌>>=◌, ◌>>◌, pure, fail, get, put, alloc, given, zoom, within, handle}
use c_orm.Meta.{TableMeta}
use c_orm.StringBuilder
use c_orm.StringBuilder.{StringBuilder}

pub record UpdateBuilder : Type 0 where
  pub meta : TableMeta
  pub sb : Option StringBuilder
  pub has_set : Bool
  pub has_where : Bool

-- `sizeof(c_orm_update_builder_t)` on a 64-bit platform
abbrev struct_size : ℕ
struct_size = 24

abbrev pub on_text : {A : Type 0} → Cmd (Option StringBuilder) A → Cmd UpdateBuilder A
on_text = zoom (λ b. b.sb) (λ b sb. record b { sb = sb })

pub emit : Bytes → Cmd UpdateBuilder (Unit {0})
emit s = on_text (StringBuilder.append (some s))

-- The first three appends, on the new string builder.
pub start_text : Bytes → Cmd (Option StringBuilder) (Unit {0})
start_text name = do
  StringBuilder.init
  StringBuilder.append (some (codes "UPDATE "))
  StringBuilder.append (some name)
  StringBuilder.append (some (codes " SET "))

-- `c_orm_update_builder_init`
pub init : Option TableMeta → Cmd (Option UpdateBuilder) (Unit {0})
unfolding start_text
init table = do
  meta ← given Error.unknown table
  granted ← alloc struct_size
  if not granted then fail Error.unknown else do
    sb ← within none (start_text meta.name)
    put (some (record { meta = meta; sb = sb; has_set = false; has_where = false }))

-- `c_orm_update_builder_free` accepts NULL.
pub free : Cmd (Option UpdateBuilder) (Unit {0})
free = put none

comma : Bool → Cmd UpdateBuilder (Unit {0})
unfolding emit
comma has_set = if has_set then emit (codes ", ") else pure tt

-- An assignment, once it is known that there is no WHERE yet.
assign : Bytes → Cmd UpdateBuilder (Unit {0})
unfolding emit comma
assign column = do
  b ← get
  comma b.has_set
  emit column
  emit (codes " = ?")
  b' ← get
  put (record b' { has_set = true })

set_unless : Bool → Bytes → Cmd UpdateBuilder (Unit {0})
unfolding assign
set_unless true column = fail Error.unknown
set_unless false column = assign column

pub set_column : Bytes → Cmd UpdateBuilder (Unit {0})
unfolding set_unless
set_column column = do b ← get; set_unless b.has_where column

-- `c_orm_update_set`
pub set : Option Bytes → Cmd (Option UpdateBuilder) (Unit {0})
unfolding set_column
set column = handle Error.unknown (do c ← given Error.unknown column; set_column c)

connective : Bool → Cmd UpdateBuilder (Unit {0})
unfolding emit
connective false = do emit (codes " WHERE "); b ← get; put (record b { has_where = true })
connective true = emit (codes " AND ")

pub where_column : Bytes → Cmd UpdateBuilder (Unit {0})
unfolding connective emit
where_column column = do b ← get; connective b.has_where; emit column; emit (codes " = ?")

-- `c_orm_update_where_eq`
pub where_eq : Option Bytes → Cmd (Option UpdateBuilder) (Unit {0})
unfolding where_column
where_eq column = handle Error.unknown (do c ← given Error.unknown column; where_column c)

-- `c_orm_update_builder_compile`: a copy of the text.
pub compile : Cmd (Option UpdateBuilder) Bytes
compile = handle Error.unknown (do
  sql ← on_text StringBuilder.get_text
  granted ← alloc (length sql + 1)
  if granted then pure sql else fail Error.unknown)

-- A client: assignments, then conditions.
pub set_all : List Bytes → Cmd (Option UpdateBuilder) (Unit {0})
unfolding set
set_all [] = pure tt
set_all (c ∷ cs) = do set (some c); set_all cs

pub where_all : List Bytes → Cmd (Option UpdateBuilder) (Unit {0})
unfolding where_eq
where_all [] = pure tt
where_all (c ∷ cs) = do where_eq (some c); where_all cs

pub update_sql : TableMeta → List Bytes → List Bytes → Cmd (Option UpdateBuilder) Bytes
unfolding init set_all where_all compile
update_sql table sets wheres = do init (some table); set_all sets; where_all wheres; compile
