-- ===== src/Tests/Runs.antt =====
-- A query on users that is executed with a cache of two statements.
use c_orm.Base.{ℕ, arith, refl, true, some, Bool, Option, Bytes}
use c_orm.Base.Decimal.{decimal}
use c_orm.Memory.{Outcome, ok}
use c_orm.Query.Script.{query_script, statement, written, values}
use c_orm.StatementCache.Release.{database}
use c_orm.Execute.{execute}
use c_orm.Execute.Steps.{Executes, execute-Executes}
use c_orm.Execute.Restore.{Restores, execute-Restores}
use c_orm.Tests.{generous}
use c_orm.Tests.Queries.{users_query}
use c_orm.Tests.Statements.{prepare, leave, two}

abbrev bind : ℕ → ℕ → ℕ → Option Bytes → Outcome ℕ (Unit {0})
bind next query i value = ok tt next

abbrev step : ℕ → ℕ → Outcome ℕ Bool
step next query = ok true next

execute-Executes_example :
    Executes ℕ prepare leave leave bind step
      (query_script 100 true users_query)
      generous
      (record { driver = 2; stmt_cache = some two })
      (execute ℕ prepare leave leave bind step 100 users_query
        (database ℕ prepare leave leave generous 2 two))
unfolding query_script statement written values decimal
execute-Executes_example =
    execute-Executes ℕ prepare leave leave bind step 100 users_query
      (database ℕ prepare leave leave generous 2 two) (omega arith) (omega arith) (omega arith)

execute-Restores_example : Restores ℕ prepare leave leave bind step two.entries (
    execute ℕ prepare leave leave bind step 100 users_query
      (database ℕ prepare leave leave generous 2 two))
unfolding query_script statement written values decimal
execute-Restores_example =
    execute-Restores ℕ prepare leave leave bind step (λ next query. tt) (λ next query. tt)
      (λ next query i value. tt) (λ next query. tt) 100 users_query generous 2 two
      (record { unique = omega arith; count = refl; linked = refl }) (omega arith)
      (λ sql. omega arith) (omega arith) (omega arith) (omega arith)
