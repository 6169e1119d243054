-- ===== src/Fluent/Calls.antt =====
-- A client of the fluent interface: any expression and any sequence of calls, and the nodes that
-- they stand for.
pub mod Build
pub mod Render
pub mod Statement
pub mod Values
use c_orm.Base.{
  ℕ, Bool, true, false, Option, none, some, List, [], ◌∷◌, ◌++◌, ◌==◌, Bytes, codes, if◌then◌else◌,
}
use c_orm.Memory.{Machine, Outcome, Cmd, ◌>>=◌, ◌>>◌, pure, within}
use c_orm.Query.Ast
use c_orm.Query.Ast.{Dialect, Node, Nodes, Query}
use c_orm.Query.Params.{Params}
use c_orm.Query.Sql
use c_orm.Query.Sql.{to_sql}
use c_orm.Fluent.{Builder, query_new, to_query}
use c_orm.Fluent.Expressions
use c_orm.Fluent.Methods

pub data Comparison : Type 0 where
  eq neq gt lt : Comparison

-- An expression, by the calls that make it.
pub data Expr : Type 0 where
  col : (name : Option Bytes) → Expr
  lit : (val : Option Bytes) (is_string : Bool) → Expr
  raw : (sql : Option Bytes) → Expr
  compare : Comparison → (column val : Option Bytes) (is_string : Bool) → Expr
  like : (column val : Option Bytes) → Expr
  in_list : (column val_list : Option Bytes) → Expr
  op : (name : Option Bytes) → Expr → Expr → Expr
  group : Expr → Expr
  is_null : (column : Option Bytes) (is_not : Bool) → Expr
  between : (column low high : Option Bytes) (is_string : Bool) → Expr
  func : (name args alias : Option Bytes) → Expr
  cast : (column type_name : Option Bytes) → Expr
  window : (func_name partition_by order_by alias : Option Bytes) → Expr
  exists : Nodes → (is_not : Bool) → Expr
  subquery : Nodes → (alias : Option Bytes) → Expr

abbrev pub comparison : Comparison → Option Bytes → Option Bytes → Bool → Cmd (Option Builder) Node
comparison eq = Expressions.eq
comparison neq = Expressions.neq
comparison gt = Expressions.gt
comparison lt = Expressions.lt

-- The calls, operands first.
unfoldable pub build : Expr → Cmd (Option Builder) Node
build (Expr.col name) = Expressions.col name
build (Expr.lit val is_string) = Expressions.lit val is_string
build (Expr.raw sql) = Expressions.raw sql
build (Expr.compare c column val is_string) = comparison c column val is_string
build (Expr.like column val) = Expressions.like column val
build (Expr.in_list column val_list) = Expressions.in_list column val_list
build (Expr.op name l r) = build l >>= λ left. (build r >>= λ right. Expressions.op name left right)
build (Expr.group e) = build e >>= λ expr. Expressions.group expr
build (Expr.is_null column is_not) = Expressions.is_null column is_not
build (Expr.between column low high is_string) = Expressions.between column low high is_string
build (Expr.func name args alias) = Expressions.func name args alias
build (Expr.cast column type_name) = Expressions.cast column type_name
build (Expr.window func_name partition_by order_by alias) =
    Expressions.window func_name partition_by order_by alias
build (Expr.exists q is_not) = Expressions.exists (Query.query q) is_not
build (Expr.subquery q alias) = Expressions.subquery (Query.query q) alias

-- Each quote twice.
unfoldable pub with_doubled : Bytes → Bytes
with_doubled [] = []
with_doubled (c ∷ s) = (if c == b'\'' then codes "''" else c ∷ []) ++ with_doubled s

-- The text of a value in an SQL literal.
abbrev pub escaped : Bool → Option Bytes → Option Bytes
escaped false val = val
escaped true none = none
escaped true (some val) = some (with_doubled val)

abbrev pub symbol : Comparison → Bytes
symbol eq = codes "="
symbol neq = codes "!="
symbol gt = codes ">"
symbol lt = codes "<"

abbrev pub test : Bytes → Option Bytes → Node → Node
test name column right = Node.operator (some name) (Node.column column) right

-- The node that an expression stands for.
unfoldable pub node_of : Expr → Node
node_of (Expr.col name) = Node.column name
node_of (Expr.lit val is_string) = Node.literal (escaped is_string val) is_string
node_of (Expr.raw sql) = Node.raw sql
node_of (Expr.compare c column val is_string) =
    test (symbol c) column (Node.literal (escaped is_string val) is_string)
node_of (Expr.like column val) = test (codes "LIKE") column (Node.literal (escaped true val) true)
node_of (Expr.in_list column val_list) = test (codes "IN") column (Node.raw val_list)
node_of (Expr.op name l r) = Node.operator name (node_of l) (node_of r)
node_of (Expr.group e) = Node.group (node_of e)
node_of (Expr.is_null column is_not) =
    test (if is_not then codes "IS NOT NULL" else codes "IS NULL") column Node.null
node_of (Expr.between column low high is_string) =
    Node.between column (escaped is_string low) (escaped is_string high) is_string
node_of (Expr.func name args alias) = Node.function name args alias
node_of (Expr.cast column type_name) = Node.cast column type_name
node_of (Expr.window func_name partition_by order_by alias) =
    Node.window func_name partition_by order_by alias
node_of (Expr.exists q is_not) = Node.exists (Query.query q) is_not
node_of (Expr.subquery q alias) = Node.subquery (Query.query q) alias

pub data Connective : Type 0 where
  and or : Connective

abbrev pub connective : Connective → Node → Cmd (Option Builder) (Unit {0})
connective and = Methods.and_where
connective or = Methods.or_where

abbrev pub connective_name : Connective → Bytes
connective_name and = codes "AND"
connective_name or = codes "OR"

-- A call that adds to the query, with the expression of its condition.
pub data Call : Type 0 where
  select from group_by : Option Bytes → Call
  from_alias : (table alias : Option Bytes) → Call
  where_ having : Expr → Call
  connect : Connective → Expr → Call
  order_by : (column : Option Bytes) (is_desc : Bool) → Call
  limit offset : ℕ → Call
  join : (table type_str : Option Bytes) → Expr → Call
  left_join right_join : (table : Option Bytes) → Expr → Call
  with_ : (alias : Option Bytes) → Nodes → Call
  union : Nodes → (is_all : Bool) → Call
  distinct : Call

unfoldable pub apply : Call → Cmd (Option Builder) (Unit {0})
unfolding build
apply (Call.select columns) = Methods.select columns
apply (Call.from table) = Methods.from table
apply (Call.group_by columns) = Methods.group_by columns
apply (Call.from_alias table alias) = Methods.from_alias table alias
apply (Call.where_ e) = build e >>= λ condition. Methods.where_ condition
apply (Call.having e) = build e >>= λ condition. Methods.having condition
apply (Call.connect c e) = build e >>= λ condition. connective c condition
apply (Call.order_by column is_desc) = Methods.order_by column is_desc
apply (Call.limit n) = Methods.limit n
apply (Call.offset n) = Methods.offset n
apply (Call.join table type_str e) =
    build e >>= λ on_condition. Methods.join table type_str on_condition
apply (Call.left_join table e) = build e >>= λ on_condition. Methods.left_join table on_condition
apply (Call.right_join table e) = build e >>= λ on_condition. Methods.right_join table on_condition
apply (Call.with_ alias q) = Methods.with_ alias (Query.query q)
apply (Call.union q is_all) = Methods.union (Query.query q) is_all
apply Call.distinct = Methods.distinct

unfoldable pub apply_all : List Call → Cmd (Option Builder) (Unit {0})
unfolding apply
apply_all [] = pure tt
apply_all (call ∷ calls) = apply call >> apply_all calls

-- The list in which the first node that is to change has changed, if there is one.
abbrev pub keep_head : Node → Option Nodes → Option Nodes
keep_head node none = none
keep_head node (some ns) = some (Nodes.then_ node ns)

abbrev pub changed : Node → Nodes → Option Node → Option Nodes → Option Nodes
changed node ns none rest = keep_head node rest
changed node ns (some node') rest = some (Nodes.then_ node' ns)

unfoldable pub change_first : (Node → Option Node) → Nodes → Option Nodes
change_first f Nodes.end = none
change_first f (Nodes.then_ node ns) = changed node ns (f node) (change_first f ns)

-- The changed list, or the list with a new node at its front.
abbrev pub or_new : Node → Nodes → Option Nodes → Nodes
or_new node ns none = Nodes.then_ node ns
or_new node ns (some ns') = ns'

-- What becomes of a WHERE node, and of a SELECT node.
abbrev pub conjunction : Bytes → Node → Node → Node
conjunction name old condition =
    if Sql.is_null old then condition else Node.operator (some name) old condition

abbrev pub conjoined : Bytes → Node → Node → Option Node
conjoined name condition (Node.where_ old) = some (Node.where_ (conjunction name old condition))
conjoined name condition node = none

abbrev pub made_distinct : Node → Option Node
made_distinct (Node.select columns is_distinct) = some (Node.select columns true)
made_distinct node = none

-- A condition, added to that of the first WHERE node of the list, or a WHERE node of its own.
abbrev pub connected : Bytes → Node → Nodes → Nodes
connected name condition ns =
    or_new (Node.where_ condition) ns (change_first (conjoined name condition) ns)

abbrev pub marked : Nodes → Nodes
marked ns = or_new (Node.select (some (codes "*")) true) ns (change_first made_distinct ns)

-- The nodes after a call.
unfoldable pub after : Call → Nodes → Nodes
unfolding node_of change_first
after (Call.select columns) ns = Nodes.then_ (Node.select columns false) ns
after (Call.from table) ns = Nodes.then_ (Node.from table none) ns
after (Call.group_by columns) ns = Nodes.then_ (Node.group_by columns) ns
after (Call.from_alias table alias) ns = Nodes.then_ (Node.from table alias) ns
after (Call.where_ e) ns = Nodes.then_ (Node.where_ (node_of e)) ns
after (Call.having e) ns = Nodes.then_ (Node.having (node_of e)) ns
after (Call.connect c e) ns = connected (connective_name c) (node_of e) ns
after (Call.order_by column is_desc) ns = Nodes.then_ (Node.order_by column is_desc) ns
after (Call.limit n) ns = Nodes.then_ (Node.limit n) ns
after (Call.offset n) ns = Nodes.then_ (Node.offset n) ns
after (Call.join table type_str e) ns = Nodes.then_ (Node.join type_str table (node_of e)) ns
after (Call.left_join table e) ns =
    Nodes.then_ (Node.join (some (codes "LEFT")) table (node_of e)) ns
after (Call.right_join table e) ns =
    Nodes.then_ (Node.join (some (codes "RIGHT")) table (node_of e)) ns
after (Call.with_ alias q) ns = Nodes.then_ (Node.with_ alias (Query.query q)) ns
after (Call.union q is_all) ns = Nodes.then_ (Node.union is_all (Query.query q)) ns
after Call.distinct ns = marked ns

unfoldable pub after_all : List Call → Nodes → Nodes
unfolding after
after_all [] ns = ns
after_all (call ∷ calls) ns = after_all calls (after call ns)

-- A new query, the calls, and its statement.
unfoldable pub fluent_sql : ℕ → Dialect → List Call → Cmd (Option Params) Bytes
unfolding apply_all
fluent_sql max_depth d calls =
    within none (query_new >> apply_all calls) >>= λ q. to_sql max_depth d (to_query q)
