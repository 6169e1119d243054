-- ===== src/Tests/Builders.antt =====
-- The SQL builders on a schema of users and posts.
use c_orm.Base.{◌≡◌, refl, arith, true, false, some, [], ◌∷◌, codes, List, equal}
use c_orm.Base.Decimal.{decimal}
use c_orm.Base.Search.{split_at}
use c_orm.Memory.{Error, machine}
use c_orm.Memory.Gives.{Gives}
use c_orm.StringBuilder.{StringBuilder, append}
use c_orm.StringBuilder.Append.{Ends, append-Ends}
use c_orm.QueryBuilder.Select.Calls
use c_orm.QueryBuilder.Select.Calls.{
  Call, where_column, where_in, where_relation, order_by, limit, statement, Meanings, select_sql,
}
use c_orm.QueryBuilder.Select.Exists.{find_relation, resolve, target_pk}
use c_orm.QueryBuilder.Select.Exists.Route.{column, via, Resolves, here, step}
use c_orm.QueryBuilder.Select.Ends.{Stands}
use c_orm.QueryBuilder.Select.Exists
use c_orm.QueryBuilder.Select.Exists.Unresolved.{Fails, where_relation-unresolved}
use c_orm.QueryBuilder.Select.Calls.Render.{select_sql-statement}
use c_orm.QueryBuilder.Update.{update_sql}
use c_orm.QueryBuilder.Update.Render.{update_sql-statement}
use c_orm.Tests.{generous, closed, users, posts, posts_relation, tables}

abbrev filled : StringBuilder
filled = record { buffer = codes "SELECT"; size = 6; capacity = 8; valid = true }

append-Ends_example :
    Ends
      (λ o. o)
      (codes "SELECT 1")
      (λ _. Unit)
      generous
      (append (some (codes " 1")) (machine generous (some filled)))
append-Ends_example =
    append-Ends (codes " 1") (codes "SELECT") generous (some filled)
      (record { valid = refl; size = refl; fits = omega arith; capacity = omega arith }, refl)
      (omega arith)

-- users that have a post of some title, by name
abbrev calls : List Call
calls =
    where_column Calls.Comparison.eq (codes "name")
    ∷ where_relation (codes "posts.title") (codes "=")
    ∷ where_in (codes "age") 2
    ∷ order_by (codes "name") false
    ∷ limit 10
    ∷ []

title-Resolves :
    Resolves tables users (codes "posts.title") (via posts_relation posts (column (codes "title")))
unfolding split_at find_relation resolve equal
title-Resolves = step refl refl (here refl)

abbrev meanings : Meanings tables users calls
meanings = (tt, ((_, title-Resolves, ((tt, tt), tt)), (omega arith, (tt, (tt, tt)))))

select_sql-statement_example :
    Gives
      (λ sql _.
        sql
        ≡ codes
            "SELECT * FROM users WHERE name = ? AND EXISTS (SELECT 1 FROM posts t1 WHERE t1.author_id = users.user_id AND t1.title = ?) AND age IN (?, ?) ORDER BY name ASC LIMIT 10")
      generous
      (select_sql tables users calls closed)
unfolding target_pk decimal
select_sql-statement_example = select_sql-statement tables users calls meanings closed (omega arith)

update_sql-statement_example :
    Gives
      (λ sql _. sql ≡ codes "UPDATE users SET name = ?, age = ? WHERE user_id = ?")
      generous
      (update_sql users (codes "name" ∷ codes "age" ∷ []) (codes "user_id" ∷ []) closed)
update_sql-statement_example =
    update_sql-statement users (codes "name" ∷ codes "age" ∷ []) (codes "user_id" ∷ []) closed
      (omega arith)

-- users have no relation called author
where_relation-unresolved_example :
    Fails Error.unknown (Stands (codes "SELECT WHERE ") (users, true, false)) generous (
      Exists.where_relation tables (some (codes "author.name")) (some (codes "=")) (
        machine generous
          (some (record { meta = users; sb = some filled; has_where = false; has_order = false }))))
unfolding split_at find_relation resolve equal
where_relation-unresolved_example =
    where_relation-unresolved tables users (codes "author.name") (codes "author") (codes "name")
      (codes "=") (codes "SELECT") false false (some filled) generous refl refl
      (record { valid = refl; size = refl; fits = omega arith; capacity = omega arith }, refl)
      (omega arith)
