-- ===== src/Tests/Files.antt =====
-- A migration file.
use c_orm.Base.{none, [], ◌≡◌, refl, some, codes}
use c_orm.Base.Search.{find, starts_with}
use c_orm.Memory.{machine}
use c_orm.Memory.Gives.{Gives}
use c_orm.Migration.{empty, parse_migration_file}
use c_orm.Migration.RoundTrip.{parse_migration_file-file, parse_migration_file-reversed}
use c_orm.Tests.{generous}

parse_migration_file-file_example :
    Gives
      (λ _ o.
        o ≡ record { up_statement = some (codes " A - 1;"); down_statement = some (codes " B;") })
      generous
      (parse_migration_file (some (codes "-- UP A - 1;-- DOWN B;")) (machine generous empty))
unfolding find starts_with
parse_migration_file-file_example =
    parse_migration_file-file (codes " A - 1;") (codes " B;") (machine generous empty) refl

parse_migration_file-reversed_example :
    Gives
      (λ _ o. o ≡ record { up_statement = some (codes " A"); down_statement = none })
      generous
      (parse_migration_file (some (codes "-- DOWN-- UP A")) (machine generous empty))
unfolding find starts_with
parse_migration_file-reversed_example =
    parse_migration_file-reversed (codes " A") [] (machine generous empty) refl
