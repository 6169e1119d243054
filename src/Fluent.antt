-- ===== src/Fluent.antt =====
-- src/c_orm_query_fluent.c: queries that are built call by call. The handle `q` may be NULL. A query
-- that a call is given, for a subquery, is a value here: it is not changed once it has been handed
-- over. Strings are values too, whether the code copies them or keeps the pointer.
pub mod Escape
pub mod Expressions
pub mod Methods
pub mod Calls
pub mod Clone
pub mod Errors
pub mod Lost
pub mod Sure
use c_orm.Base.{ℕ, Bool, true, false, not, Option, none, some, [], Bytes, if◌then◌else◌, codes}
use c_orm.Memory.{
  Error, Machine, machine, Outcome, ok, err, stuck, Cmd, ◌>>=◌, ◌>>◌, pure, fail, get, put, alloc,
  given, handle,
}
use c_orm.Arena.{Arena, alloc_from}
use c_orm.Query.Ast
use c_orm.Query.Ast.{Node, Nodes, Query}

-- `struct c_orm_query`, without its function pointers, which are always the same
pub record Builder : Type 0 where
  pub arena : Arena
  pub ast_head : Nodes
  pub error : Bool

-- `sizeof(c_orm_query_t)` and `sizeof(c_orm_arena_t)` on a 64-bit platform
abbrev query_size : ℕ
query_size = 320

abbrev arena_size : ℕ
arena_size = 8

-- `c_orm_query_new`, with its call of `c_orm_arena_new`; the out parameter is set only on success.
unfoldable pub query_new : Cmd (Option Builder) (Unit {0})
query_new = do
  query_ok ← alloc query_size
  if not query_ok then fail Error.unknown else do
    arena_ok ← alloc arena_size
    if not arena_ok
        then fail Error.unknown
        else put (some (record { arena = []; ast_head = Nodes.end; error = false }))

-- `c_orm_query_free`
unfoldable pub query_free : Cmd (Option Builder) (Unit {0})
query_free = put none

-- `if (!q || q->error) return C_ORM_ERROR_UNKNOWN;` ahead of a call.
unfoldable pub on_query : {A : Type 0} → Cmd Builder A → Cmd (Option Builder) A
on_query c = handle Error.unknown (get >>= λ q. if q.error then fail Error.unknown else c)

-- What a call of the arena does to the query: a failure sets `q->error`.
abbrev pub flagged :
    {A : Type 0} → Builder → Outcome (Machine Arena) A → Outcome (Machine Builder) A
flagged q (ok a m) = ok a (machine m.memory (record q { arena = m.object }))
flagged q (err e m) =
    err Error.memory (machine m.memory (record q { arena = m.object; error = true }))
flagged q stuck = stuck

unfoldable pub from_arena : {A : Type 0} → Cmd Arena A → Cmd Builder A
from_arena c m = flagged m.object (c (machine m.memory m.object.arena))

-- The sizes of the node structs on a 64-bit platform; NULL has none.
abbrev pub node_size : Node → ℕ
node_size Node.null = 0
node_size (Node.select columns is_distinct) = 32
node_size (Node.from table alias) = 32
node_size (Node.where_ condition) = 24
node_size (Node.join type_str table on_condition) = 40
node_size (Node.group_by columns) = 24
node_size (Node.having condition) = 24
node_size (Node.order_by column is_desc) = 32
node_size (Node.limit n) = 24
node_size (Node.offset n) = 24
node_size (Node.literal value is_string) = 32
node_size (Node.operator op left right) = 40
node_size (Node.raw sql) = 24
node_size (Node.column name) = 24
node_size (Node.group expr) = 24
node_size (Node.subquery q alias) = 32
node_size (Node.union is_all q) = 32
node_size (Node.with_ alias q) = 32
node_size (Node.function name args alias) = 40
node_size (Node.cast col type_name) = 32
node_size (Node.between col low high is_string) = 48
node_size (Node.exists q is_not) = 32
node_size (Node.window func_name partition_by order_by alias) = 48

-- A node from the arena, with its fields.
unfoldable pub new_node : Node → Cmd Builder Node
unfolding from_arena
new_node node = from_arena (alloc_from (node_size node)) >> pure node

-- `node->base.next = q->ast_head; q->ast_head = node;`
unfoldable pub prepend : Node → Cmd Builder (Unit {0})
prepend node = get >>= λ q. put (record q { ast_head = Nodes.then_ node q.ast_head })

-- The query as it is rendered.
abbrev pub to_query : Option Builder → Query
to_query none = Query.no_query
to_query (some q) = Query.query q.ast_head
