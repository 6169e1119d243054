-- ===== src/Fluent/Methods.antt =====
-- src/c_orm_query_fluent.c: the calls that add a clause to the query.
use c_orm.Base.{ℕ, Bool, true, false, Option, none, some, Bytes, codes, if◌then◌else◌}
use c_orm.Memory.{Error, Machine, Outcome, ok, err, stuck, Cmd, ◌>>=◌, ◌>>◌, pure, fail, get, put}
use c_orm.Arena.{copy_from}
use c_orm.Query.Ast.{Node, Nodes, Query}
use c_orm.Query.Sql.{is_null}
use c_orm.Fluent.{Builder, on_query, from_arena, new_node, prepend}
use c_orm.Fluent.Expressions.{query_given}

-- A node that becomes the head of the list.
unfoldable pub add_node : Node → Cmd Builder (Unit {0})
unfolding new_node prepend
add_node node = new_node node >>= prepend

-- `c_orm_query_select_impl`, on a query that is there and has no error.
unfoldable pub select_columns : Option Bytes → Cmd Builder (Unit {0})
unfolding from_arena add_node
select_columns columns =
    from_arena (copy_from columns) >>= λ cols_copy. add_node (Node.select cols_copy false)

-- `c_orm_query_select_impl`
unfoldable pub select : Option Bytes → Cmd (Option Builder) (Unit {0})
unfolding on_query select_columns
select columns = on_query (select_columns columns)

-- `c_orm_query_from_impl`
unfoldable pub from : Option Bytes → Cmd (Option Builder) (Unit {0})
unfolding on_query from_arena add_node
from table =
    on_query (from_arena (copy_from table) >>= λ tbl_copy. add_node (Node.from tbl_copy none))

-- `c_orm_query_where_impl`
unfoldable pub where_ : Node → Cmd (Option Builder) (Unit {0})
unfolding on_query add_node
where_ condition = on_query (add_node (Node.where_ condition))

-- The loop for the first WHERE node: its condition.
unfoldable pub first_where : Nodes → Option Node
first_where Nodes.end = none
first_where (Nodes.then_ (Node.where_ condition) nodes) = some condition
first_where (Nodes.then_ node nodes) = first_where nodes

-- A write to `w->condition` of that node.
unfoldable pub set_where : Node → Nodes → Nodes
set_where condition Nodes.end = Nodes.end
set_where condition (Nodes.then_ (Node.where_ old) nodes) =
    Nodes.then_ (Node.where_ condition) nodes
set_where condition (Nodes.then_ node nodes) = Nodes.then_ node (set_where condition nodes)

unfoldable pub write_where : Node → Cmd Builder (Unit {0})
unfolding set_where
write_where condition = get >>= λ q. put (record q { ast_head = set_where condition q.ast_head })

-- `c_orm_query_op_impl(q, "AND", w->condition, condition, &w->condition)`: where it fails, it writes
-- NULL to its out parameter, which is the condition of the WHERE node.
unfoldable pub combined : Outcome (Machine Builder) Node → Outcome (Machine Builder) (Unit {0})
unfolding write_where
combined (ok node m) = write_where node m
combined (err e m) = (write_where Node.null >> fail e) m
combined stuck = stuck

unfoldable pub extend_where : Bytes → Node → Option Node → Cmd Builder (Unit {0})
unfolding combined new_node add_node write_where
extend_where name condition none = add_node (Node.where_ condition)
extend_where name condition (some old) =
    if is_null old
    then write_where condition
    else (λ m. combined (new_node (Node.operator (some name) old condition) m))

unfoldable pub connect : Bytes → Node → Cmd (Option Builder) (Unit {0})
unfolding on_query extend_where first_where
connect name condition = on_query (
    if is_null condition
    then fail Error.unknown
    else (get >>= λ q. extend_where name condition (first_where q.ast_head)))

-- `c_orm_query_and_where_impl`
unfoldable pub and_where : Node → Cmd (Option Builder) (Unit {0})
unfolding connect
and_where = connect (codes "AND")

-- `c_orm_query_or_where_impl`
unfoldable pub or_where : Node → Cmd (Option Builder) (Unit {0})
unfolding connect
or_where = connect (codes "OR")

-- `c_orm_query_order_by_impl`
unfoldable pub order_by : Option Bytes → Bool → Cmd (Option Builder) (Unit {0})
unfolding on_query from_arena add_node
order_by column is_desc =
    on_query
      (from_arena (copy_from column) >>= λ col_copy. add_node (Node.order_by col_copy is_desc))

-- `c_orm_query_limit_impl`
unfoldable pub limit : ℕ → Cmd (Option Builder) (Unit {0})
unfolding on_query add_node
limit n = on_query (add_node (Node.limit n))

-- `c_orm_query_offset_impl`
unfoldable pub offset : ℕ → Cmd (Option Builder) (Unit {0})
unfolding on_query add_node
offset n = on_query (add_node (Node.offset n))

-- `c_orm_query_join_impl`
unfoldable pub join : Option Bytes → Option Bytes → Node → Cmd (Option Builder) (Unit {0})
unfolding on_query from_arena add_node
join table type_str on_condition = on_query (do
  tbl_copy ← from_arena (copy_from table)
  type_copy ← from_arena (copy_from type_str)
  add_node (Node.join type_copy tbl_copy on_condition))

-- `c_orm_query_left_join_impl`
unfoldable pub left_join : Option Bytes → Node → Cmd (Option Builder) (Unit {0})
unfolding join
left_join table = join table (some (codes "LEFT"))

-- `c_orm_query_right_join_impl`
unfoldable pub right_join : Option Bytes → Node → Cmd (Option Builder) (Unit {0})
unfolding join
right_join table = join table (some (codes "RIGHT"))

-- `c_orm_query_group_by_impl`
unfoldable pub group_by : Option Bytes → Cmd (Option Builder) (Unit {0})
unfolding on_query add_node
group_by columns = on_query (add_node (Node.group_by columns))

-- `c_orm_query_having_impl`
unfoldable pub having : Node → Cmd (Option Builder) (Unit {0})
unfolding on_query add_node
having condition = on_query (add_node (Node.having condition))

-- `c_orm_query_with_impl`
unfoldable pub with_ : Option Bytes → Query → Cmd (Option Builder) (Unit {0})
unfolding on_query add_node
with_ alias q = on_query (query_given q >> add_node (Node.with_ alias q))

-- `c_orm_query_union_impl`
unfoldable pub union : Query → Bool → Cmd (Option Builder) (Unit {0})
unfolding on_query add_node
union other is_all = on_query (query_given other >> add_node (Node.union is_all other))

-- The loop of `c_orm_query_distinct_impl`: the list with the first SELECT node marked, if there is
-- one.
unfoldable pub mark_distinct : Nodes → Option Nodes
mark_distinct Nodes.end = none
mark_distinct (Nodes.then_ (Node.select columns is_distinct) nodes) =
    some (Nodes.then_ (Node.select columns true) nodes)
mark_distinct (Nodes.then_ node nodes) = elim (mark_distinct nodes) [
  | none ↦ none
  | some marked ↦ some (Nodes.then_ node marked)
]

-- `((c_orm_ast_select_t *)q->ast_head)->is_distinct = 1`: a write outside of the struct, or to
-- another field, where the head is a node of another kind.
abbrev pub mark_head : Nodes → Cmd Builder (Unit {0})
mark_head Nodes.end = pure tt
mark_head (Nodes.then_ (Node.select columns is_distinct) nodes) =
    get >>= λ q. put (record q { ast_head = Nodes.then_ (Node.select columns true) nodes })
mark_head (Nodes.then_ node nodes) = λ m. stuck

-- `rc = q->select_(q, "*"); if (q->ast_head) ...; return rc;`
unfoldable pub mark_selected :
    Outcome (Machine Builder) (Unit {0}) → Outcome (Machine Builder) (Unit {0})
mark_selected (ok a m) = mark_head m.object.ast_head m
mark_selected (err e m) = (mark_head m.object.ast_head >> fail e) m
mark_selected stuck = stuck

unfoldable pub distinct_with : Option Nodes → Cmd Builder (Unit {0})
unfolding select_columns mark_selected
distinct_with none = λ m. mark_selected (select_columns (some (codes "*")) m)
distinct_with (some marked) = get >>= λ q. put (record q { ast_head = marked })

-- `c_orm_query_distinct_impl`
unfoldable pub distinct : Cmd (Option Builder) (Unit {0})
unfolding on_query distinct_with mark_distinct
distinct = on_query (get >>= λ q. distinct_with (mark_distinct q.ast_head))

-- `c_orm_query_from_alias_impl`
unfoldable pub from_alias : Option Bytes → Option Bytes → Cmd (Option Builder) (Unit {0})
unfolding on_query add_node
from_alias table alias = on_query (add_node (Node.from table alias))
