-- ===== src/QueryBuilder/Select/Calls.antt =====
-- A client of the select builder: any sequence of clause calls between `c_orm_select_builder_init`
-- and `c_orm_select_builder_compile`, and the statement that it stands for.
pub mod Render
use c_orm.Base.{
  ℕ, zero, suc, ◌+◌, ◌<◌, ◌≡◌, Bool, true, false, Option, none, some, List, [], ◌∷◌, ◌++◌, Bytes,
  codes,
}
use c_orm.Base.Decimal.{decimal}
use c_orm.Memory.{Cmd, ◌>>=◌, ◌>>◌, pure}
use c_orm.Meta.{TableMeta, Schema}
use c_orm.QueryBuilder.Select
use c_orm.QueryBuilder.Select.{SelectBuilder, direction}
use c_orm.QueryBuilder.Select.Clauses.{conjunct, order_lead, placeholders}
use c_orm.QueryBuilder.Select.Exists
use c_orm.QueryBuilder.Select.Exists.Route.{Route, Resolves, IsWired, condition}

pub data Comparison : Type 0 where
  eq neq lt gt lte gte gt_now lt_now like between ilike : Comparison

pub data Call : Type 0 where
  where_column : Comparison → Bytes → Call
  where_in : Bytes → ℕ → Call
  where_relation : Bytes → Bytes → Call
  group_by having : Bytes → Call
  order_by : Bytes → Bool → Call
  limit offset : ℕ → Call

-- The function of each comparison.
compare_column : Comparison → Option Bytes → Cmd (Option SelectBuilder) (Unit {0})
compare_column eq = Select.where_eq
compare_column neq = Select.where_neq
compare_column lt = Select.where_lt
compare_column gt = Select.where_gt
compare_column lte = Select.where_lte
compare_column gte = Select.where_gte
compare_column gt_now = Select.where_gt_current_timestamp
compare_column lt_now = Select.where_lt_current_timestamp
compare_column like = Select.where_like
compare_column between = Select.where_between
compare_column ilike = Select.where_ilike

module _ (tables : Schema) where
  call : Call → Cmd (Option SelectBuilder) (Unit {0})
  unfolding compare_column
  call (where_column c column) = compare_column c (some column)
  call (where_in column n) = Select.where_in (some column) n
  call (where_relation path op) = Exists.where_relation tables (some path) (some op)
  call (group_by column) = Select.group_by (some column)
  call (having clause) = Select.having (some clause)
  call (order_by column desc) = Select.order_by (some column) desc
  call (limit n) = Select.limit n
  call (offset n) = Select.offset n

  -- The client stops at the first error.
  run_calls : List Call → Cmd (Option SelectBuilder) (Unit {0})
  unfolding call
  run_calls [] = pure tt
  run_calls (c ∷ cs) = do call c; run_calls cs

  unfoldable pub select_sql : TableMeta → List Call → Cmd (Option SelectBuilder) Bytes
  unfolding run_calls
  select_sql table cs = do Select.init (some table); run_calls cs; Select.compile

  -- What a call needs to have a meaning: a list of values that is not empty, a path that resolves.
  abbrev pub Meaning : TableMeta → Call → Type 0
  Meaning table (where_in column n) = 0 < n
  Meaning table (where_relation path op) = (r : Route) × Resolves tables table path r × IsWired r
  Meaning table _ = Unit

  abbrev pub Meanings : TableMeta → List Call → Type 0
  Meanings table [] = Unit
  Meanings table (c ∷ cs) = Meaning table c × Meanings table cs

-- The SQL of the statement, call by call. The first condition is introduced by WHERE and the others
-- by AND, the first ordering by ORDER BY and the others by a comma.
abbrev pub operator_text : Comparison → Bytes
operator_text eq = codes " = ?"
operator_text neq = codes " != ?"
operator_text lt = codes " < ?"
operator_text gt = codes " > ?"
operator_text lte = codes " <= ?"
operator_text gte = codes " >= ?"
operator_text gt_now = codes " > CURRENT_TIMESTAMP"
operator_text lt_now = codes " < CURRENT_TIMESTAMP"
operator_text like = codes " LIKE ?"
operator_text between = codes " BETWEEN ? AND ?"
operator_text ilike = codes " ILIKE ?"

abbrev pub filters : Call → Bool → Bool
filters (where_column _ _) w = true
filters (where_in _ _) w = true
filters (where_relation _ _) w = true
filters _ w = w

abbrev pub orders : Call → Bool → Bool
orders (order_by _ _) o = true
orders _ o = o

module _ (tables : Schema) (table : TableMeta) where
  abbrev pub call_text : (c : Call) → Meaning tables table c → Bool → Bool → Bytes
  call_text (where_column c column) m w o = conjunct w ++ (column ++ operator_text c)
  call_text (where_in column n) m w o =
      conjunct w ++ (column ++ (codes " IN (" ++ (placeholders n ++ codes ")")))
  call_text (where_relation path op) (r, _, _) w o = conjunct w ++ condition op table.name 1 r
  call_text (group_by column) m w o = codes " GROUP BY " ++ column
  call_text (having clause) m w o = codes " HAVING " ++ clause
  call_text (order_by column desc) m w o = order_lead o ++ (column ++ direction desc)
  call_text (limit n) m w o = codes " LIMIT " ++ decimal n
  call_text (offset n) m w o = codes " OFFSET " ++ decimal n

  abbrev pub calls_text : (cs : List Call) → Meanings tables table cs → Bool → Bool → Bytes
  calls_text [] m w o = []
  calls_text (c ∷ cs) (m, ms) w o = call_text c m w o ++ calls_text cs ms (filters c w) (orders c o)

  -- The whole statement.
  abbrev pub statement : (cs : List Call) → Meanings tables table cs → Bytes
  statement cs ms = codes "SELECT * FROM " ++ (table.name ++ calls_text cs ms false false)
