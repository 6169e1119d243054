-- ===== src/Query/Ast.antt =====
-- include/c_orm_ast.h: the nodes of a query. A pointer to a node or to a query that is NULL is the
-- constructor `null` or `no_query`, and a string that may be NULL is an `Option`. The nodes of a
-- query are a list, `base.next` being its tail; only that list is ever walked along `next`.
use c_orm.Base.{ℕ, Bool, Option, Bytes}

-- `c_orm_dialect_t`
pub data Dialect : Type 0 where
  sqlite postgres mysql : Dialect

-- The node structs, by their type tags.
mutual
  pub data Node : Type 0 where
    null : Node
    select : (columns : Option Bytes) (is_distinct : Bool) → Node
    from : (table alias : Option Bytes) → Node
    where_ : (condition : Node) → Node
    join : (type_str table : Option Bytes) (on_condition : Node) → Node
    group_by : (columns : Option Bytes) → Node
    having : (condition : Node) → Node
    order_by : (column : Option Bytes) (is_desc : Bool) → Node
    limit : (n : ℕ) → Node
    offset : (n : ℕ) → Node
    literal : (value : Option Bytes) (is_string : Bool) → Node
    operator : (op : Option Bytes) (left right : Node) → Node
    raw : (sql : Option Bytes) → Node
    column : (name : Option Bytes) → Node
    group : (expr : Node) → Node
    subquery : (query : Query) (alias : Option Bytes) → Node
    union : (is_all : Bool) (query : Query) → Node
    with_ : (alias : Option Bytes) (query : Query) → Node
    function : (name args alias : Option Bytes) → Node
    cast : (col type_name : Option Bytes) → Node
    between : (col low high : Option Bytes) (is_string : Bool) → Node
    exists : (query : Query) (is_not : Bool) → Node
    window : (func_name partition_by order_by alias : Option Bytes) → Node

  -- `ast_head` and the nodes that follow it
  pub data Nodes : Type 0 where
    end : Nodes
    then_ : Node → Nodes → Nodes

  -- `c_orm_query_t`, as far as it is rendered
  pub data Query : Type 0 where
    no_query : Query
    query : (ast_head : Nodes) → Query
