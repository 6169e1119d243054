-- ===== src/Tests/Calls.antt =====
-- The fluent interface: calls for a query on users, and allocators that run out of memory.
use c_orm.Base.{◌≡◌, refl, arith, true, false, none, some, [], ◌∷◌, codes, List}
use c_orm.Base.Decimal.{decimal}
use c_orm.Memory.{Error, Memory, machine, err}
use c_orm.Memory.Gives.{Gives}
use c_orm.Arena.{alloc_from}
use c_orm.Arena.Bounds.{AllSound}
use c_orm.Query.Ast.{Dialect, Node, Nodes, Query}
use c_orm.Query.Script.{query_script, statement, written, values}
use c_orm.Fluent.{Builder}
use c_orm.Fluent.Expressions.{escape_string, count_quotes}
use c_orm.Fluent.Escape.{StandsFor, escape_string-read}
use c_orm.Fluent.Methods.{first_where}
use c_orm.Fluent.Clone.{clone_nodes}
use c_orm.Fluent.Clone.Copies.{Copied, all_sizes, clone_nodes-copy}
use c_orm.Fluent.Errors.{apply-refusal}
use c_orm.Fluent.Lost.{Loses, unconditioned, connective-Loses}
use c_orm.Fluent.Sure.{Generous, Sure}
use c_orm.Fluent.Calls.{
  Call, Expr, Comparison, Connective, connective, apply, node_of, after_all, fluent_sql,
}
use c_orm.Fluent.Calls.Statement.{States, fluent_sql-States}
use c_orm.Fluent.Calls.Values.{IsHanded, comparing, no_params, comparing-differs}
use c_orm.Tests.{generous}

-- An allocator that meets no request.
abbrev stingy : Memory
stingy = record { grants = λ _ _. false; calls = 0 }

generous-Generous : Generous generous
generous-Generous n size late = refl

-- users of a name, or of some age, without repetition
abbrev calls : List Call
calls =
    Call.select (some (codes "id"))
    ∷ Call.from (some (codes "users"))
    ∷ Call.where_ (Expr.compare Comparison.eq (some (codes "name")) (some (codes "O'Brien")) true)
    ∷ Call.connect Connective.or (
        Expr.group
          (Expr.between (some (codes "age")) (some (codes "20")) (some (codes "30")) false))
    ∷ Call.distinct
    ∷ Call.limit 5
    ∷ []

calls-written :
    written Dialect.postgres 0
      (query_script 100 true (Query.query (after_all calls Nodes.end))).pieces
    ≡ codes "SELECT DISTINCT id FROM users WHERE name = $1 OR (age BETWEEN $2 AND $3) LIMIT 5"
unfolding query_script statement written decimal after_all node_of
calls-written = refl

fluent_sql-States_example :
    Sure
      (States 100 Dialect.postgres true []
        (query_script 100 true (Query.query (after_all calls Nodes.end))))
      (fluent_sql 100 Dialect.postgres calls (machine generous (some no_params)))
unfolding query_script statement written values decimal after_all node_of
fluent_sql-States_example =
    fluent_sql-States 100 Dialect.postgres true [] calls generous (some no_params) (omega arith)
      generous-Generous (omega arith)
      (record { count = refl; fits = omega arith; tight = omega arith }, refl) refl (omega arith)
      (omega arith)

abbrev failed : Builder
failed = record { arena = []; ast_head = Nodes.end; error = true }

apply-refusal_example :
    apply (Call.limit 5) (machine generous (some failed))
    ≡ err Error.unknown (machine generous (some failed))
apply-refusal_example = apply-refusal generous failed refl (Call.limit 5)

abbrev named : Node
named =
    Node.operator (some (codes "=")) (Node.column (some (codes "name")))
      (Node.literal (some (codes "Ann")) true)

abbrev aged : Node
aged = Node.raw (some (codes "age > 20"))

-- SELECT id FROM users WHERE name = 'Ann'
abbrev where_named : Nodes
where_named = Nodes.then_ (Node.where_ named) (
    Nodes.then_ (Node.from (some (codes "users")) none)
      (Nodes.then_ (Node.select (some (codes "id")) false) Nodes.end))

-- After one request that was refused.
abbrev refused_once : Memory
refused_once = record { grants = λ _ _. false; calls = 1 }

connective-Loses_example :
    Loses 100 Dialect.sqlite false none [] generous (unconditioned where_named) (
      connective Connective.and aged
        (machine stingy (some (record { arena = []; ast_head = where_named; error = false }))))
unfolding alloc_from first_where unconditioned query_script statement written values
connective-Loses_example =
    connective-Loses 100 Dialect.sqlite false none [] generous Connective.and aged named [] []
      where_named stingy refused_once Error.unknown refl refl refl refl (omega arith) tt
      (omega arith) (omega arith)

lost-written :
    written Dialect.sqlite 0
      (query_script 100 false (Query.query (unconditioned where_named))).pieces
    ≡ codes "SELECT id FROM users"
unfolding unconditioned query_script statement written
lost-written = refl

escape_string-read_example :
    Gives
      (λ text blocks'. StandsFor (codes "O'Brien") text × AllSound blocks')
      generous
      (escape_string (codes "O'Brien") (machine generous []))
escape_string-read_example = escape_string-read (codes "O'Brien") [] generous (omega arith) tt

comparing-differs_example :
    Sure
      (λ sql params. IsHanded (codes "O'Brien") params)
      (fluent_sql 100 Dialect.sqlite
        (comparing (codes "name") (codes "O'Brien"))
        (machine generous (some no_params)))
unfolding count_quotes
comparing-differs_example =
    comparing-differs Dialect.sqlite (codes "name") (codes "O'Brien") generous generous-Generous
      (omega arith) (omega arith) (omega arith)

clone_nodes-copy_example :
    Copied where_named
      (all_sizes where_named)
      (machine generous [])
      (clone_nodes where_named (machine generous []))
clone_nodes-copy_example =
    clone_nodes-copy where_named [] generous (refl, (refl, (refl, tt))) tt generous-Generous
