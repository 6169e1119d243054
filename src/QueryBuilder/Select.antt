-- ===== src/QueryBuilder/Select.antt =====
-- `c_orm_select_builder_t` of src/c_orm_query_builder.c and its operations. Each function takes the
-- builder behind a handle that may be NULL; what it writes to an out parameter is its result.
pub mod Calls
pub mod Clauses
pub mod Ends
pub mod Exists
use c_orm.Base.{
  ℕ, zero, suc, ◌+◌, Bool, true, false, not, Option, none, some, List, [], ◌∷◌, ◌++◌, Bytes, codes,
  length, take, drop, if◌then◌else◌,
}
use c_orm.Base.Decimal.{decimal}
use c_orm.Base.Search.{starts_with, find}
use c_orm.Memory.{Error, Cmd, ◌>>=◌, ◌>>◌, pure, fail, get, put, alloc, given, zoom, within, handle}
use c_orm.Meta.{TableMeta}
use c_orm.StringBuilder
use c_orm.StringBuilder.{StringBuilder}

pub record SelectBuilder : Type 0 where
  pub meta : TableMeta
  pub sb : Option StringBuilder
  pub has_where : Bool
  pub has_order : Bool

-- `sizeof(c_orm_select_builder_t)` on a 64-bit platform
abbrev struct_size : ℕ
struct_size = 24

-- A command on the string builder of a builder.
abbrev pub on_text : {A : Type 0} → Cmd (Option StringBuilder) A → Cmd SelectBuilder A
on_text = zoom (λ b. b.sb) (λ b sb. record b { sb = sb })

pub emit : Bytes → Cmd SelectBuilder (Unit {0})
emit s = on_text (StringBuilder.append (some s))

-- The first two appends, on the new string builder.
unfoldable pub start_text : Bytes → Cmd (Option StringBuilder) (Unit {0})
start_text name = do
  StringBuilder.init
  StringBuilder.append (some (codes "SELECT * FROM "))
  StringBuilder.append (some name)

-- `c_orm_select_builder_init`
unfoldable pub init : Option TableMeta → Cmd (Option SelectBuilder) (Unit {0})
unfolding start_text
init table = do
  meta ← given Error.unknown table
  granted ← alloc struct_size
  if not granted then fail Error.unknown else do
    sb ← within none (start_text meta.name)
    put (some (record { meta = meta; sb = sb; has_where = false; has_order = false }))

-- `c_orm_select_builder_free` accepts NULL.
unfoldable pub free : Cmd (Option SelectBuilder) (Unit {0})
free = put none

-- `c_orm_select_builder_compile`: a copy of the text.
unfoldable pub compile : Cmd (Option SelectBuilder) Bytes
compile = handle Error.unknown (do
  sql ← on_text StringBuilder.get_text
  granted ← alloc (length sql + 1)
  if granted then pure sql else fail Error.unknown)

-- `if (!builder->has_where) { " WHERE " } else { " AND " }`; the flag is set after the append.
pub connective : Bool → Cmd SelectBuilder (Unit {0})
unfolding emit
connective false = do emit (codes " WHERE "); b ← get; put (record b { has_where = true })
connective true = emit (codes " AND ")

-- `append_where`, with a column that is not NULL.
pub append_where : Bytes → Bytes → Cmd SelectBuilder (Unit {0})
unfolding connective emit
append_where op column = do b ← get; connective b.has_where; emit column; emit op

-- A function that takes a builder and a column, and refuses NULL for either.
on_column :
    (Bytes → Cmd SelectBuilder (Unit {0})) → Option Bytes → Cmd (Option SelectBuilder) (Unit {0})
on_column f column = handle Error.unknown (do c ← given Error.unknown column; f c)

-- `c_orm_select_where_eq` and its kin
unfoldable pub where_eq : Option Bytes → Cmd (Option SelectBuilder) (Unit {0})
unfolding on_column append_where
where_eq = on_column (append_where (codes " = ?"))

unfoldable pub where_neq : Option Bytes → Cmd (Option SelectBuilder) (Unit {0})
unfolding on_column append_where
where_neq = on_column (append_where (codes " != ?"))

unfoldable pub where_lt : Option Bytes → Cmd (Option SelectBuilder) (Unit {0})
unfolding on_column append_where
where_lt = on_column (append_where (codes " < ?"))

unfoldable pub where_gt : Option Bytes → Cmd (Option SelectBuilder) (Unit {0})
unfolding on_column append_where
where_gt = on_column (append_where (codes " > ?"))

unfoldable pub where_lte : Option Bytes → Cmd (Option SelectBuilder) (Unit {0})
unfolding on_column append_where
where_lte = on_column (append_where (codes " <= ?"))

unfoldable pub where_gte : Option Bytes → Cmd (Option SelectBuilder) (Unit {0})
unfolding on_column append_where
where_gte = on_column (append_where (codes " >= ?"))

unfoldable pub where_gt_current_timestamp : Option Bytes → Cmd (Option SelectBuilder) (Unit {0})
unfolding on_column append_where
where_gt_current_timestamp = on_column (append_where (codes " > CURRENT_TIMESTAMP"))

unfoldable pub where_lt_current_timestamp : Option Bytes → Cmd (Option SelectBuilder) (Unit {0})
unfolding on_column append_where
where_lt_current_timestamp = on_column (append_where (codes " < CURRENT_TIMESTAMP"))

unfoldable pub where_like : Option Bytes → Cmd (Option SelectBuilder) (Unit {0})
unfolding on_column append_where
where_like = on_column (append_where (codes " LIKE ?"))

unfoldable pub where_between : Option Bytes → Cmd (Option SelectBuilder) (Unit {0})
unfolding on_column append_where
where_between = on_column (append_where (codes " BETWEEN ? AND ?"))

unfoldable pub where_ilike : Option Bytes → Cmd (Option SelectBuilder) (Unit {0})
unfolding on_column append_where
where_ilike = on_column (append_where (codes " ILIKE ?"))

-- `for (i = 0; i < count; ++i)`: a question mark, and a comma after all but the last.
marks : ℕ → Cmd SelectBuilder (Unit {0})
unfolding emit
marks zero = pure tt
marks (suc zero) = emit (codes "?")
marks (suc (suc n)) = do emit (codes "?"); emit (codes ", "); marks (suc n)

pub append_in : ℕ → Bytes → Cmd SelectBuilder (Unit {0})
unfolding connective emit marks
append_in zero column = fail Error.unknown
append_in (suc n) column = do
  b ← get
  connective b.has_where
  emit column
  emit (codes " IN (")
  marks (suc n)
  emit (codes ")")

-- `c_orm_select_where_in`
unfoldable pub where_in : Option Bytes → ℕ → Cmd (Option SelectBuilder) (Unit {0})
unfolding on_column append_in
where_in column count = on_column (append_in count) column

-- `c_orm_select_group_by`
pub append_group : Bytes → Cmd SelectBuilder (Unit {0})
unfolding emit
append_group column = do emit (codes " GROUP BY "); emit column

unfoldable pub group_by : Option Bytes → Cmd (Option SelectBuilder) (Unit {0})
unfolding on_column append_group
group_by = on_column append_group

-- `c_orm_select_having`
pub append_having : Bytes → Cmd SelectBuilder (Unit {0})
unfolding emit
append_having clause = do emit (codes " HAVING "); emit clause

unfoldable pub having : Option Bytes → Cmd (Option SelectBuilder) (Unit {0})
unfolding on_column append_having
having = on_column append_having

-- `c_orm_select_order_by`
separator : Bool → Cmd SelectBuilder (Unit {0})
unfolding emit
separator false = do emit (codes " ORDER BY "); b ← get; put (record b { has_order = true })
separator true = emit (codes ", ")

abbrev pub direction : Bool → Bytes
direction is_desc = if is_desc then codes " DESC" else codes " ASC"

pub append_order : Bool → Bytes → Cmd SelectBuilder (Unit {0})
unfolding separator emit
append_order is_desc column = do
  b ← get
  separator b.has_order
  emit column
  emit (direction is_desc)

unfoldable pub order_by : Option Bytes → Bool → Cmd (Option SelectBuilder) (Unit {0})
unfolding on_column append_order
order_by column is_desc = on_column (append_order is_desc) column

-- `c_orm_select_limit` and `c_orm_select_offset`
unfoldable pub limit : ℕ → Cmd (Option SelectBuilder) (Unit {0})
unfolding emit
limit n = handle Error.unknown (emit (codes " LIMIT " ++ decimal n))

unfoldable pub offset : ℕ → Cmd (Option SelectBuilder) (Unit {0})
unfolding emit
offset n = handle Error.unknown (emit (codes " OFFSET " ++ decimal n))

abbrev selected : Bytes → Bytes → Bytes → Bytes
selected func column alias = func ++ codes "(" ++ column ++ codes ") AS " ++ alias

-- The end of `c_orm_select_aggregate`: the string builder is freed, and a new one takes the text.
replace_text : Bytes → Cmd SelectBuilder (Unit {0})
replace_text sql =
    on_text (do StringBuilder.free; StringBuilder.init; StringBuilder.append (some sql))

-- The text begins with "SELECT * FROM ", whose 14 bytes are replaced.
first_aggregate : Bytes → Bytes → Cmd SelectBuilder (Unit {0})
unfolding replace_text
first_aggregate item sql = do
  granted ← alloc (length sql + length item + 26)
  if granted
      then replace_text (codes "SELECT " ++ item ++ codes " FROM " ++ drop 14 sql)
      else fail Error.unknown

-- One more item goes in front of the first " FROM ".
next_aggregate : Bytes → Bytes → Option ℕ → Cmd SelectBuilder (Unit {0})
unfolding replace_text
next_aggregate item sql none = fail Error.unknown
next_aggregate item sql (some i) = do
  granted ← alloc (length sql + length item + 26)
  if granted
      then replace_text (take i sql ++ codes ", " ++ item ++ drop i sql)
      else fail Error.memory

add_aggregate : Bytes → Cmd SelectBuilder (Unit {0})
unfolding first_aggregate next_aggregate
add_aggregate item = do
  sql ← on_text StringBuilder.get_text
  if starts_with (codes "SELECT * FROM ") sql
      then first_aggregate item sql
      else next_aggregate item sql (find (codes " FROM ") sql)

-- `c_orm_select_aggregate`
unfoldable pub aggregate :
    Option Bytes → Option Bytes → Option Bytes → Cmd (Option SelectBuilder) (Unit {0})
unfolding add_aggregate
aggregate func column alias = handle Error.unknown (do
  f ← given Error.unknown func
  c ← given Error.unknown column
  a ← given Error.unknown alias
  add_aggregate (selected f c a))
