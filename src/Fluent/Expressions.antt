-- ===== src/Fluent/Expressions.antt =====
-- src/c_orm_query_fluent.c: the calls that make the node of an expression.
use c_orm.Base.{
  ℕ, suc, ◌+◌, Bool, true, Option, none, some, [], ◌∷◌, Bytes, codes, length, ◌==◌, if◌then◌else◌,
}
use c_orm.Memory.{Error, Machine, Outcome, ok, err, stuck, Cmd, ◌>>=◌, ◌>>◌, pure, fail}
use c_orm.StringBuilder.{word}
use c_orm.Arena.{Arena, alloc_from, copy_from}
use c_orm.Query.Ast.{Node, Query}
use c_orm.Fluent.{Builder, on_query, from_arena, new_node}

abbrev pub quote : ℕ
quote = b'\''

-- The quotes in a string.
unfoldable pub count_quotes : Bytes → ℕ
count_quotes [] = 0
count_quotes (c ∷ s) = let rest = count_quotes s in if c == quote then suc rest else rest

-- The loop that writes each quote twice.
unfoldable pub double_quotes : Bytes → Bytes
double_quotes [] = []
double_quotes (c ∷ s) =
    let rest = double_quotes s in if c == quote then quote ∷ quote ∷ rest else c ∷ rest

-- `c_orm_escape_literal` of a string
unfoldable pub escape_string : Bytes → Cmd Arena (Option Bytes)
unfolding count_quotes double_quotes
escape_string val =
    if count_quotes val == 0
    then pure (some val)
    else (alloc_from (word (length val + count_quotes val + 1)) >> pure (some (double_quotes val)))

-- `c_orm_escape_literal`
unfoldable pub escape_literal : Option Bytes → Cmd Arena (Option Bytes)
unfolding escape_string
escape_literal none = pure none
escape_literal (some val) = escape_string val

-- A call whose result is not tested: its out parameter is NULL where it has failed.
abbrev pub or_null :
    Outcome (Machine (Option Builder)) Node → Outcome (Machine (Option Builder)) Node
or_null (ok node m) = ok node m
or_null (err e m) = ok Node.null m
or_null stuck = stuck

abbrev pub attempt : Cmd (Option Builder) Node → Cmd (Option Builder) Node
attempt c m = or_null (c m)

-- `c_orm_query_raw_impl`
unfoldable pub raw : Option Bytes → Cmd (Option Builder) Node
unfolding on_query from_arena new_node
raw sql = on_query (from_arena (copy_from sql) >>= λ sql_copy. new_node (Node.raw sql_copy))

-- `c_orm_query_col_impl`
unfoldable pub col : Option Bytes → Cmd (Option Builder) Node
unfolding on_query from_arena new_node
col name = on_query (from_arena (copy_from name) >>= λ name_copy. new_node (Node.column name_copy))

-- `c_orm_query_lit_impl`: the node first, then the escaped value.
unfoldable pub lit : Option Bytes → Bool → Cmd (Option Builder) Node
unfolding on_query from_arena new_node escape_literal
lit val is_string = on_query (do
  new_node (Node.literal val is_string)
  value ← if is_string then from_arena (escape_literal val) else pure val
  pure (Node.literal value is_string))

-- `c_orm_query_op_impl`
unfoldable pub op : Option Bytes → Node → Node → Cmd (Option Builder) Node
unfolding on_query new_node
op name left right = on_query (new_node (Node.operator name left right))

-- `c_orm_query_eq_impl` and its like, which do not test the results of their first two calls.
unfoldable pub compare_with : Bytes → Option Bytes → Option Bytes → Bool → Cmd (Option Builder) Node
unfolding col lit op
compare_with name column val is_string = do
  l ← attempt (col column)
  r ← attempt (lit val is_string)
  op (some name) l r

-- `c_orm_query_eq_impl`
unfoldable pub eq : Option Bytes → Option Bytes → Bool → Cmd (Option Builder) Node
unfolding compare_with
eq = compare_with (codes "=")

-- `c_orm_query_neq_impl`
unfoldable pub neq : Option Bytes → Option Bytes → Bool → Cmd (Option Builder) Node
unfolding compare_with
neq = compare_with (codes "!=")

-- `c_orm_query_gt_impl`
unfoldable pub gt : Option Bytes → Option Bytes → Bool → Cmd (Option Builder) Node
unfolding compare_with
gt = compare_with (codes ">")

-- `c_orm_query_lt_impl`
unfoldable pub lt : Option Bytes → Option Bytes → Bool → Cmd (Option Builder) Node
unfolding compare_with
lt = compare_with (codes "<")

-- `c_orm_query_like_impl`
unfoldable pub like : Option Bytes → Option Bytes → Cmd (Option Builder) Node
unfolding compare_with
like column val = compare_with (codes "LIKE") column val true

-- `c_orm_query_in_impl`
unfoldable pub in_list : Option Bytes → Option Bytes → Cmd (Option Builder) Node
unfolding col raw op
in_list column val_list = do
  l ← attempt (col column)
  r ← attempt (raw val_list)
  op (some (codes "IN")) l r

-- `c_orm_query_group_node_impl`
unfoldable pub group : Node → Cmd (Option Builder) Node
unfolding on_query new_node
group expr = on_query (new_node (Node.group expr))

-- `!subq`
abbrev pub query_given : Query → Cmd Builder (Unit {0})
query_given Query.no_query = fail Error.unknown
query_given (Query.query nodes) = pure tt

-- `c_orm_query_subquery_node_impl`
unfoldable pub subquery : Query → Option Bytes → Cmd (Option Builder) Node
unfolding on_query new_node
subquery subq alias = on_query (query_given subq >> new_node (Node.subquery subq alias))

-- `c_orm_query_func_impl`
unfoldable pub func : Option Bytes → Option Bytes → Option Bytes → Cmd (Option Builder) Node
unfolding on_query new_node
func name args alias = on_query (new_node (Node.function name args alias))

-- `c_orm_query_cast_impl`
unfoldable pub cast : Option Bytes → Option Bytes → Cmd (Option Builder) Node
unfolding on_query new_node
cast column type_name = on_query (new_node (Node.cast column type_name))

-- `c_orm_query_is_null_impl` does not test the result of its call of `q->col`.
unfoldable pub is_null : Option Bytes → Bool → Cmd (Option Builder) Node
unfolding on_query new_node col
is_null column is_not = do
  let name : Bytes = if is_not then codes "IS NOT NULL" else codes "IS NULL"
  on_query (new_node (Node.operator (some name) Node.null Node.null))
  left ← attempt (col column)
  pure (Node.operator (some name) left Node.null)

-- An escape whose result is not tested.
abbrev pub or_none : Outcome (Machine Arena) (Option Bytes) → Outcome (Machine Arena) (Option Bytes)
or_none (ok s m) = ok s m
or_none (err e m) = ok none m
or_none stuck = stuck

unfoldable pub escape_untested : Option Bytes → Cmd Builder (Option Bytes)
unfolding from_arena escape_literal
escape_untested val = from_arena (λ m. or_none (escape_literal val m))

-- `c_orm_query_between_impl`
unfoldable pub between :
    Option Bytes → Option Bytes → Option Bytes → Bool → Cmd (Option Builder) Node
unfolding on_query new_node escape_untested
between column low high is_string = on_query (do
  new_node (Node.between column low high is_string)
  low_value ← if is_string then escape_untested low else pure low
  high_value ← if is_string then escape_untested high else pure high
  pure (Node.between column low_value high_value is_string))

-- `c_orm_query_exists_impl`
unfoldable pub exists : Query → Bool → Cmd (Option Builder) Node
unfolding on_query new_node
exists subq is_not = on_query (query_given subq >> new_node (Node.exists subq is_not))

-- `c_orm_query_window_impl`
unfoldable pub window :
    Option Bytes → Option Bytes → Option Bytes → Option Bytes → Cmd (Option Builder) Node
unfolding on_query new_node
window func_name partition_by order_by alias =
    on_query (new_node (Node.window func_name partition_by order_by alias))
