-- ===== src/Query/Sql.antt =====
-- src/c_orm_query_sql.c: `render_node` and `c_orm_query_to_sql`, which call each other.
use c_orm.Base.{
  ℕ, ◌+◌, Bool, true, false, not, Option, none, some, Bytes, codes, length, ltb, if◌then◌else◌,
}
use c_orm.Memory.{Error, Cmd, ◌>>=◌, ◌>>◌, pure, fail, alloc, zoom}
use c_orm.StringBuilder.{word, init, get_text}
use c_orm.Query.Ast.{Dialect, Node, Nodes, Query}
use c_orm.Query.Params.{Params}
use c_orm.Query.Render.{
  Rendering, say, text, word32, choose, bind_value, inline_value, as_alias, over, append_query,
}
use c_orm.Query.Clauses.{Clauses, no_clauses, keep_join, Write, write_clauses}

-- `if (depth > cdd_c_sql_parser_max_depth) return C_ORM_ERROR_SQL;`
abbrev pub limited : ℕ → ℕ → Write → Write
limited max_depth depth c = if ltb max_depth depth then fail Error.sql else c

-- `out_sql`, a copy of the text of the builder.
unfoldable pub copy_out : Cmd Rendering Bytes
copy_out = do
  sql_str ← zoom (λ r. r.sb) (λ r sb. record r { sb = sb }) get_text
  granted ← alloc (word (length sql_str + 1))
  if not granted then fail Error.memory else pure sql_str

-- The whole of `c_orm_query_to_sql`, with what it kept of the nodes: on a new builder and the
-- parameters of the caller.
unfoldable pub write_query : Clauses Write → Cmd (Option Params) Bytes
unfolding write_clauses copy_out
write_query c =
    zoom (λ params. record { sb = none; params = params }) (λ _ r. r.params)
      (do zoom (λ r. r.sb) (λ r sb. record r { sb = sb }) init; write_clauses c; copy_out)

-- `op->right`, which may be NULL.
abbrev pub is_null : Node → Bool
is_null Node.null = true
is_null _ = false

-- A condition as `WHERE` and `HAVING` test it: `none` where it is NULL.
abbrev pub condition : Node → Write → Option Write
condition node rendered = if is_null node then none else some rendered

-- The global `cdd_c_sql_parser_max_depth`, and the dialect.
module _ (max_depth : ℕ) (d : Dialect) where
  unfoldable mutual
    pub render_node : Node → ℕ → Write
    render_node Node.null depth = limited max_depth depth (pure tt)
    render_node (Node.column name) depth = limited max_depth depth (say name)
    render_node (Node.literal value is_string) depth =
        limited max_depth depth
          (choose (bind_value d value is_string) (inline_value value is_string))
    render_node (Node.raw sql) depth = limited max_depth depth (say sql)
    render_node (Node.operator op left right) depth = limited max_depth depth (
        render_node left (word32 (depth + 1))
        >> (text (codes " ")
            >> (say op
                >> (if is_null right
                    then pure tt
                    else (text (codes " ") >> render_node right (word32 (depth + 1)))))))
    render_node (Node.group expr) depth =
        limited max_depth depth
          (text (codes "(") >> (render_node expr (word32 (depth + 1)) >> text (codes ")")))
    render_node (Node.cast col type_name) depth = limited max_depth depth (
        text (codes "CAST(")
        >> (say col >> (text (codes " AS ") >> (say type_name >> text (codes ")")))))
    render_node (Node.function name args alias) depth =
        limited max_depth depth
          (say name >> (text (codes "(") >> (say args >> (text (codes ")") >> as_alias alias))))
    render_node (Node.between col low high is_string) depth = limited max_depth depth (
        say col
        >> (text (codes " BETWEEN ")
            >> choose
                (bind_value d low is_string
                  >> (text (codes " AND ") >> bind_value d high is_string))
                (inline_value low is_string
                  >> (text (codes " AND ") >> inline_value high is_string))))
    render_node (Node.exists q is_not) depth = limited max_depth depth (
        (if is_not then text (codes "NOT ") else pure tt)
        >> (text (codes "EXISTS (") >> (append_query (to_sql q) >> text (codes ")"))))
    render_node (Node.subquery q alias) depth =
        limited max_depth depth
          (text (codes "(") >> (append_query (to_sql q) >> (text (codes ")") >> as_alias alias)))
    render_node (Node.window func_name partition_by order_by alias) depth =
        limited max_depth depth (
          say func_name
          >> (text (codes " OVER (")
              >> (over partition_by order_by >> (text (codes ")") >> as_alias alias))))
    render_node _ depth = limited max_depth depth (pure tt)

    -- The cases of the `switch` in the loop over the nodes.
    pub keep : Node → Clauses Write → Clauses Write
    keep (Node.select columns is_distinct) c = record c { sel = some (columns, is_distinct) }
    keep (Node.from table alias) c = record c { frm = some (table, alias) }
    keep (Node.where_ cond) c = record c { whr = some (condition cond (render_node cond 0)) }
    keep (Node.join type_str table on_condition) c = record c {
      joins =
          keep_join
            (record {
              type_str = type_str;
              table = table;
              on_condition = render_node on_condition 0;
            })
            c.joins;
    }
    keep (Node.group_by columns) c = record c { grp = some columns }
    keep (Node.having cond) c = record c { hav = some (condition cond (render_node cond 0)) }
    keep (Node.order_by column is_desc) c = record c { ord = some (column, is_desc) }
    keep (Node.limit n) c = record c { lim = some n }
    keep (Node.offset n) c = record c { off = some n }
    keep (Node.with_ alias q) c = record c { wth = some (alias, append_query (to_sql q)) }
    keep (Node.union is_all q) c = record c { uni = some (is_all, append_query (to_sql q)) }
    keep _ c = c

    pub keep_all : Nodes → Clauses Write → Clauses Write
    keep_all Nodes.end c = c
    keep_all (Nodes.then_ node nodes) c = keep_all nodes (keep node c)

    -- `c_orm_query_to_sql`
    pub to_sql : Query → Cmd (Option Params) Bytes
    to_sql Query.no_query = fail Error.unknown
    to_sql (Query.query nodes) = write_query (keep_all nodes no_clauses)
