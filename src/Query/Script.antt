-- ===== src/Query/Script.antt =====
-- What a query stands for: pieces of text and values, in the order in which they are written, and
-- the error, if any, that comes after them. No builder, no allocator and no numbering here.
use c_orm.Base.{
  ℕ, suc, Bool, true, false, Option, none, some, List, [], ◌∷◌, ◌++◌, Bytes, codes, length, ltb,
  take, if◌then◌else◌,
}
use c_orm.Base.Decimal.{decimal}
use c_orm.Memory.{Error}
use c_orm.Query.Ast.{Dialect, Node, Nodes, Query}
use c_orm.Query.Params.{Param}
use c_orm.Query.Render.{word32}
use c_orm.Query.Clauses.{Join, Clauses, no_clauses}
use c_orm.Query.Sql.{is_null}

pub data Piece : Type 0 where
  text : Bytes → Piece
  value : Param → Piece

pub record Script : Type 0 where
  pub pieces : List Piece
  pub fault : Option Error

-- The placeholder of the n-th value.
abbrev pub mark : Dialect → ℕ → Bytes
mark Dialect.sqlite n = codes "?"
mark Dialect.mysql n = codes "?"
mark Dialect.postgres n = codes "$" ++ decimal n

-- Is there a string that is not empty?
abbrev pub has_text : Option Bytes → Bool
has_text none = false
has_text (some s) = ltb 0 (length s)

-- The text with a placeholder for each value; `n` values came before.
unfoldable pub written : Dialect → ℕ → List Piece → Bytes
written d n [] = []
written d n (Piece.text s ∷ ps) = s ++ written d n ps
written d n (Piece.value v ∷ ps) = mark d (suc n) ++ written d (suc n) ps

unfoldable pub values : List Piece → List Param
values [] = []
values (Piece.text s ∷ ps) = values ps
values (Piece.value v ∷ ps) = v ∷ values ps

abbrev pub after : Option Error → List Piece → Script → Script
after none ps s = record { pieces = ps ++ s.pieces; fault = s.fault }
after (some e) ps s = record { pieces = ps; fault = some e }

infixr 6 ◌⊕◌
abbrev pub ◌⊕◌ : Script → Script → Script
s ⊕ u = after s.fault s.pieces u

abbrev pub nothing : Script
nothing = record { pieces = []; fault = none }

abbrev pub faulty : Error → Script
faulty e = record { pieces = []; fault = some e }

abbrev pub lit : Bytes → Script
lit s = record { pieces = Piece.text s ∷ []; fault = none }

-- A string that must not be NULL.
abbrev pub opt : Option Bytes → Script
opt none = faulty Error.unknown
opt (some s) = lit s

abbrev pub quoted : Bool → Script
quoted is_string = if is_string then lit (codes "'") else nothing

-- A value that is bound, or written into the text.
abbrev pub value_of : Bool → Option Bytes → Bool → Script
value_of true v is_string = record {
  pieces = Piece.value (record { value = v; is_string = is_string }) ∷ [];
  fault = none;
}
value_of false v is_string = quoted is_string ⊕ opt v ⊕ quoted is_string

abbrev pub alias_of : Option Bytes → Script
alias_of alias = if has_text alias then lit (codes " AS ") ⊕ opt alias else nothing

abbrev pub over_of : Option Bytes → Option Bytes → Script
over_of partition_by order_by =
    (if has_text partition_by
      then lit (codes "PARTITION BY ")
        ⊕ opt partition_by
        ⊕ (if has_text order_by then lit (codes " ") else nothing)
      else nothing)
    ⊕ (if has_text order_by then lit (codes "ORDER BY ") ⊕ opt order_by else nothing)

abbrev pub with_script : Option (Option Bytes × Script) → Script
with_script none = nothing
with_script (some (alias, q)) =
    lit (codes "WITH ") ⊕ opt alias ⊕ lit (codes " AS (") ⊕ q ⊕ lit (codes ") ")

abbrev pub select_script : Option (Option Bytes × Bool) → Script
select_script none = nothing
select_script (some (columns, is_distinct)) =
    lit (codes "SELECT ") ⊕ (if is_distinct then lit (codes "DISTINCT ") else nothing) ⊕ opt columns

abbrev pub from_script : Option (Option Bytes × Option Bytes) → Script
from_script none = nothing
from_script (some (table, alias)) = lit (codes " FROM ") ⊕ opt table ⊕ alias_of alias

abbrev pub join_script : Join Script → Script
join_script j =
    lit (codes " ")
    ⊕ opt j.type_str
    ⊕ lit (codes " JOIN ")
    ⊕ opt j.table
    ⊕ lit (codes " ON ")
    ⊕ j.on_condition

-- The joins in reverse order. Of those of a query, the first 32 nodes count.
unfoldable pub joins_script : List (Join Script) → Script
joins_script [] = nothing
joins_script (j ∷ js) = joins_script js ⊕ join_script j

abbrev pub condition_script : Bytes → Option (Option Script) → Script
condition_script keyword none = nothing
condition_script keyword (some none) = nothing
condition_script keyword (some (some condition)) = lit keyword ⊕ condition

abbrev pub group_script : Option (Option Bytes) → Script
group_script none = nothing
group_script (some columns) = lit (codes " GROUP BY ") ⊕ opt columns

abbrev pub union_script : Option (Bool × Script) → Script
union_script none = nothing
union_script (some (is_all, q)) = lit (if is_all then codes " UNION ALL " else codes " UNION ") ⊕ q

abbrev pub order_script : Option (Option Bytes × Bool) → Script
order_script none = nothing
order_script (some (column, is_desc)) =
    lit (codes " ORDER BY ") ⊕ opt column ⊕ lit (if is_desc then codes " DESC" else codes " ASC")

abbrev pub number_script : Bytes → Option ℕ → Script
number_script keyword none = nothing
number_script keyword (some n) = lit (keyword ++ decimal (word32 n))

unfoldable pub statement : Clauses Script → Script
unfolding joins_script
statement c =
    with_script c.wth
    ⊕ select_script c.sel
    ⊕ from_script c.frm
    ⊕ joins_script (take 32 c.joins)
    ⊕ condition_script (codes " WHERE ") c.whr
    ⊕ group_script c.grp
    ⊕ condition_script (codes " HAVING ") c.hav
    ⊕ union_script c.uni
    ⊕ order_script c.ord
    ⊕ number_script (codes " LIMIT ") c.lim
    ⊕ number_script (codes " OFFSET ") c.off

abbrev pub within_depth : ℕ → ℕ → Script → Script
within_depth max_depth depth s = if ltb max_depth depth then faulty Error.sql else s

abbrev pub condition_of : Node → Script → Option Script
condition_of node s = if is_null node then none else some s

-- `bind`: are values bound as parameters?
module _ (max_depth : ℕ) (bind : Bool) where
  unfoldable mutual
    pub script : Node → ℕ → Script
    script (Node.column name) depth = within_depth max_depth depth (opt name)
    script (Node.literal v is_string) depth =
        within_depth max_depth depth (value_of bind v is_string)
    script (Node.raw sql) depth = within_depth max_depth depth (opt sql)
    script (Node.operator op left right) depth = within_depth max_depth depth (
        script left (suc depth)
        ⊕ lit (codes " ")
        ⊕ opt op
        ⊕ (if is_null right then nothing else lit (codes " ") ⊕ script right (suc depth)))
    script (Node.group expr) depth =
        within_depth max_depth depth (lit (codes "(") ⊕ script expr (suc depth) ⊕ lit (codes ")"))
    script (Node.cast col type_name) depth =
        within_depth max_depth depth
          (lit (codes "CAST(") ⊕ opt col ⊕ lit (codes " AS ") ⊕ opt type_name ⊕ lit (codes ")"))
    script (Node.function name args alias) depth =
        within_depth max_depth depth
          (opt name ⊕ lit (codes "(") ⊕ opt args ⊕ lit (codes ")") ⊕ alias_of alias)
    script (Node.between col low high is_string) depth = within_depth max_depth depth (
        opt col
        ⊕ lit (codes " BETWEEN ")
        ⊕ value_of bind low is_string
        ⊕ lit (codes " AND ")
        ⊕ value_of bind high is_string)
    script (Node.exists q is_not) depth = within_depth max_depth depth (
        (if is_not then lit (codes "NOT ") else nothing)
        ⊕ lit (codes "EXISTS (")
        ⊕ query_script q
        ⊕ lit (codes ")"))
    script (Node.subquery q alias) depth =
        within_depth max_depth depth
          (lit (codes "(") ⊕ query_script q ⊕ lit (codes ")") ⊕ alias_of alias)
    script (Node.window func_name partition_by order_by alias) depth =
        within_depth max_depth depth (
          opt func_name
          ⊕ lit (codes " OVER (")
          ⊕ over_of partition_by order_by
          ⊕ lit (codes ")")
          ⊕ alias_of alias)
    script _ depth = within_depth max_depth depth nothing

    pub note : Node → Clauses Script → Clauses Script
    note (Node.select columns is_distinct) c = record c { sel = some (columns, is_distinct) }
    note (Node.from table alias) c = record c { frm = some (table, alias) }
    note (Node.where_ cond) c = record c { whr = some (condition_of cond (script cond 0)) }
    note (Node.join type_str table on_condition) c = record c {
      joins =
          c.joins
          ++ (record { type_str = type_str; table = table; on_condition = script on_condition 0 }
              ∷ []);
    }
    note (Node.group_by columns) c = record c { grp = some columns }
    note (Node.having cond) c = record c { hav = some (condition_of cond (script cond 0)) }
    note (Node.order_by column is_desc) c = record c { ord = some (column, is_desc) }
    note (Node.limit n) c = record c { lim = some n }
    note (Node.offset n) c = record c { off = some n }
    note (Node.with_ alias q) c = record c { wth = some (alias, query_script q) }
    note (Node.union is_all q) c = record c { uni = some (is_all, query_script q) }
    note _ c = c

    pub note_all : Nodes → Clauses Script → Clauses Script
    note_all Nodes.end c = c
    note_all (Nodes.then_ node nodes) c = note_all nodes (note node c)

    pub query_script : Query → Script
    query_script Query.no_query = faulty Error.unknown
    query_script (Query.query nodes) = statement (note_all nodes no_clauses)
