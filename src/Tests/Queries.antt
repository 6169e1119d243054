-- ===== src/Tests/Queries.antt =====
-- Queries on users, as trees, and memory from an arena.
use c_orm.Base.{◌≡◌, refl, arith, true, false, none, some, [], ◌∷◌, codes}
use c_orm.Base.Decimal.{decimal}
use c_orm.Memory.{machine}
use c_orm.Memory.Gives.{Gives}
use c_orm.Arena.Apart.{alloc_all, AllApart, AllInside, AllAbove, alloc_all-apart}
use c_orm.Arena.Bounds.{AllSound}
use c_orm.Query.Ast.{Dialect, Node, Nodes, Query}
use c_orm.Query.Params.{Params}
use c_orm.Query.Sql.{to_sql}
use c_orm.Query.Script.{query_script, statement, written, values}
use c_orm.Query.Answers.{Answered}
use c_orm.Query.Correct.{to_sql-script}
use c_orm.Tests.{generous}

abbrev name_is : Node
name_is =
    Node.operator (some (codes "=")) (Node.column (some (codes "name")))
      (Node.literal (some (codes "Ann")) true)

abbrev age_between : Node
age_between = Node.between (some (codes "age")) (some (codes "20")) (some (codes "30")) false

-- The nodes as a client leaves them: the last call comes first.
abbrev pub users_query : Query
users_query = Query.query (
    Nodes.then_ (Node.limit 5) (
      Nodes.then_ (Node.where_ (Node.operator (some (codes "AND")) name_is age_between)) (
        Nodes.then_ (Node.from (some (codes "users")) none)
          (Nodes.then_ (Node.select (some (codes "id")) false) Nodes.end))))

abbrev no_params : Params
no_params = record { params = []; count = 0; capacity = 0 }

to_sql-script_example :
    Answered Dialect.postgres true
      (query_script 100 true users_query)
      []
      generous
      (to_sql 100 Dialect.postgres users_query (machine generous (some no_params)))
unfolding query_script statement written values decimal
to_sql-script_example =
    to_sql-script 100 Dialect.postgres true users_query generous (some no_params) [] (omega arith)
      (record { count = refl; fits = omega arith; tight = omega arith }, refl) (omega arith)
      (omega arith)

users_query-written :
    written Dialect.postgres 0 (query_script 100 true users_query).pieces
    ≡ codes "SELECT id FROM users WHERE name = $1 AND age BETWEEN $2 AND $3 LIMIT 5"
unfolding query_script statement written decimal
users_query-written = refl

alloc_all-apart_example :
    Gives
      (λ ps blocks'. AllApart ps × AllInside blocks' ps × AllAbove [] ps × AllSound blocks')
      generous
      (alloc_all (24 ∷ 5000 ∷ 3 ∷ []) (machine generous []))
alloc_all-apart_example = alloc_all-apart (24 ∷ 5000 ∷ 3 ∷ []) [] generous (omega arith) tt
