-- ===== src/Tests/Statements.antt =====
-- A driver that numbers its statements, and a cache of two of them.
use c_orm.Base.{ℕ, zero, suc, refl, arith, true, false, some, [], ◌∷◌, codes, Bytes, equal}
use c_orm.Memory.{Error, machine, Outcome, ok, err}
use c_orm.StatementCache.{Cache, take_entry, evict_entry, prepare_cached, finalize_cached}
use c_orm.StatementCache.Release.{GivenBack, database, finalize_cached-GivenBack}
use c_orm.StatementCache.Crowded.{Crowded, prepare_cached-Crowded}
use c_orm.StatementCache.Exclusive.{Exclusive, prepare_cached-Exclusive}
use c_orm.StatementCache.Leak.{FailsHolding, prepare_cached-holds}
use c_orm.Tests.{generous}

-- The state is the number of the next statement.
abbrev pub prepare : ℕ → Bytes → Outcome ℕ ℕ
prepare next sql = ok next (suc next)

abbrev pub leave : ℕ → ℕ → Outcome ℕ (Unit {0})
leave next query = ok tt next

abbrev pub two : Cache
two = record {
  capacity = 2;
  count = 2;
  entries =
      record { sql = codes "SELECT 1"; query = 1; in_use = true }
      ∷ record { sql = codes "SELECT 2"; query = 0; in_use = false }
      ∷ [];
  dangling = false;
}

prepare_cached-Exclusive_example : Exclusive ℕ two.entries (
    prepare_cached ℕ prepare leave leave
      (codes "SELECT 3")
      (machine generous (record { driver = 2; stmt_cache = some two })))
prepare_cached-Exclusive_example =
    prepare_cached-Exclusive ℕ prepare leave leave (λ next query. tt) (λ next query. tt)
      (codes "SELECT 3") generous 2 two
      (record { unique = omega arith; count = refl; linked = refl }) (omega arith) (omega arith)

finalize_cached-GivenBack_example :
    GivenBack ℕ prepare leave leave 1 generous 2 two
      (finalize_cached ℕ prepare leave leave 1 (database ℕ prepare leave leave generous 2 two))
finalize_cached-GivenBack_example =
    finalize_cached-GivenBack ℕ prepare leave leave 1 generous 2 two refl

-- The driver cannot finalize its first statement.
abbrev finalize_later : ℕ → ℕ → Outcome ℕ (Unit {0})
finalize_later next zero = err Error.sql next
finalize_later next (suc query) = ok tt next

prepare_cached-Crowded_example : Crowded ℕ 2 (
    prepare_cached ℕ prepare leave leave
      (codes "SELECT 3")
      (machine generous (record { driver = 2; stmt_cache = some (record two { capacity = 1 }) })))
prepare_cached-Crowded_example =
    prepare_cached-Crowded ℕ prepare leave leave (codes "SELECT 3") generous 2
      (record two { capacity = 1 }) refl (omega arith) (omega arith)

prepare_cached-holds_example : FailsHolding ℕ Error.sql 2 (
    prepare_cached ℕ prepare leave finalize_later
      (codes "SELECT 3")
      (machine generous (record { driver = 2; stmt_cache = some two })))
unfolding take_entry evict_entry equal
prepare_cached-holds_example =
    prepare_cached-holds ℕ prepare leave finalize_later (codes "SELECT 3") generous 2 3 3 two 2
      (record { sql = codes "SELECT 2"; query = 0; in_use = false })
      (record { sql = codes "SELECT 3"; query = 2; in_use = true }
        ∷ record { sql = codes "SELECT 1"; query = 1; in_use = true }
        ∷ [])
      Error.sql refl refl refl refl refl refl refl refl
