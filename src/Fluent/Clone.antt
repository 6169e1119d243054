-- ===== src/Fluent/Clone.antt =====
-- src/c_orm_query_fluent.c: `c_orm_ast_clone_node` and `c_orm_query_clone`. A subquery of a node is
-- shared by its copy.
pub mod Copies
use c_orm.Base.{Bool, Option, none, some, if◌then◌else◌}
use c_orm.Memory.{
  Error, Machine, machine, Outcome, ok, err, stuck, Cmd, ◌>>=◌, ◌>>◌, pure, fail, get, put, zoom,
  within, handle,
}
use c_orm.Arena.{Arena, Address, alloc_from}
use c_orm.Query.Ast
use c_orm.Query.Ast.{Node, Nodes}
use c_orm.Query.Sql.{is_null}
use c_orm.Fluent.{Builder, query_new, node_size}

-- Any failure of the arena is C_ORM_ERROR_MEMORY.
unfoldable pub if_granted :
    Cmd Arena Node → Outcome (Machine Arena) Address → Outcome (Machine Arena) Node
if_granted fill (ok a m) = fill m
if_granted fill (err e m) = err Error.memory m
if_granted fill stuck = stuck

-- A call whose error code is not looked at: where it fails, its out parameter is NULL.
abbrev pub out_of : Outcome (Machine Arena) Node → Outcome (Machine Arena) Node
out_of (ok node m) = ok node m
out_of (err e m) = ok Node.null m
out_of stuck = stuck

abbrev pub untested : Cmd Arena Node → Cmd Arena Node
untested c m = out_of (c m)

-- The copy of a node, filled by copies of the nodes that it points to.
unfoldable pub copy_node : Node → Cmd Arena Node → Cmd Arena Node
unfolding if_granted
copy_node node fill m = if_granted fill (alloc_from (node_size node) m)

-- `c_orm_ast_clone_node`
unfoldable pub clone_node : Node → Cmd Arena Node
unfolding copy_node
clone_node Node.null = pure Node.null
clone_node (Node.where_ condition) =
    copy_node (Node.where_ condition)
      (untested (clone_node condition) >>= λ c. pure (Node.where_ c))
clone_node (Node.join type_str table on_condition) =
    copy_node (Node.join type_str table on_condition)
      (untested (clone_node on_condition) >>= λ c. pure (Node.join type_str table c))
clone_node (Node.having condition) =
    copy_node (Node.having condition)
      (untested (clone_node condition) >>= λ c. pure (Node.having c))
clone_node (Node.operator op left right) = copy_node (Node.operator op left right) (
    untested (clone_node left) >>= λ l.
    (untested (clone_node right) >>= λ r. pure (Node.operator op l r)))
clone_node (Node.group expr) =
    copy_node (Node.group expr) (untested (clone_node expr) >>= λ e. pure (Node.group e))
clone_node node = copy_node node (pure node)

-- The loop of `c_orm_query_clone`
unfoldable pub clone_nodes : Nodes → Cmd Arena Nodes
unfolding clone_node
clone_nodes Nodes.end = pure Nodes.end
clone_nodes (Nodes.then_ node nodes) =
    let rest = clone_nodes nodes in
    untested (clone_node node) >>= λ c.
    if is_null c then fail Error.unknown else (rest >>= λ cs. pure (Nodes.then_ c cs))

-- The new query, filled from the old one.
unfoldable pub fill_clone : Builder → Cmd (Option Builder) (Unit {0})
unfolding clone_nodes
fill_clone q = handle Error.unknown (do
  new ← get
  put (record new { error = q.error })
  nodes ← zoom (λ b. b.arena) (λ b arena. record b { arena = arena }) (clone_nodes q.ast_head)
  b ← get
  put (record b { ast_head = nodes }))

-- `c_orm_query_clone`; the result is the new query.
unfoldable pub clone : Cmd (Option Builder) (Option Builder)
unfolding fill_clone
clone = handle Error.unknown (get >>= λ q. within none (query_new >> fill_clone q))
