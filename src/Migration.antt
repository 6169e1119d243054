-- ===== src/Migration.antt =====
-- src/migration.c: a migration file holds the statements that bring a schema up and down, behind
-- the markers "-- UP" and "-- DOWN". The file is read by a library's function; here its contents,
-- without a NUL, are an argument, `none` if it cannot be read.
pub mod RoundTrip
use c_orm.Base.{
  ℕ, ◌+◌, ◌-◌, Bool, true, false, Option, none, some, List, [], ◌++◌, Bytes, codes, length, take,
  drop, ltb, ◌==◌, if◌then◌else◌,
}
use c_orm.Base.Search.{find}
use c_orm.Memory.{Error, Cmd, ◌>>=◌, ◌>>◌, pure, fail, get, put, alloc}

-- `struct MigrationStatements`
pub record Statements : Type 0 where
  pub up_statement : Option Bytes
  pub down_statement : Option Bytes

abbrev pub up_marker : Bytes
up_marker = codes "-- UP"

abbrev pub down_marker : Bytes
down_marker = codes "-- DOWN"

-- `migration_statements_init` and `migration_statements_free`
abbrev pub empty : Statements
empty = record { up_statement = none; down_statement = none }

-- The texts behind the two markers, from where the markers are. Each runs to the other marker, if
-- that comes later, or to the end.
abbrev pub up_text : Bytes → Option ℕ → Option ℕ → Option Bytes
up_text s (some u) (some d) =
    if ltb u d then some (take (d - (u + 5)) (drop (u + 5) s)) else some (drop (u + 5) s)
up_text s (some u) none = some (drop (u + 5) s)
up_text s none (some d) = none
up_text s none none = some s

abbrev pub down_text : Bytes → Option ℕ → Option ℕ → Option Bytes
down_text s (some u) (some d) =
    if ltb u d then some (drop (d + 7) s) else some (take (u - (d + 7)) (drop (d + 7) s))
down_text s none (some d) = some (drop (d + 7) s)
down_text s u none = none

-- `if (up_start && up_len > 0)`: a copy of the text.
pub save_up : Option Bytes → Cmd Statements (Unit {0})
save_up none = pure tt
save_up (some t) = if length t == 0 then pure tt else do
  granted ← alloc (length t + 1)
  out ← get
  if granted then put (record out { up_statement = some t }) else fail Error.memory

-- The same for the other text; a failure frees both.
pub save_down : Option Bytes → Cmd Statements (Unit {0})
save_down none = pure tt
save_down (some t) = if length t == 0 then pure tt else do
  granted ← alloc (length t + 1)
  out ← get
  if granted then put (record out { down_statement = some t }) else do put empty; fail Error.memory

pub save : Option Bytes → Option Bytes → Cmd Statements (Unit {0})
unfolding save_up save_down
save up down = do save_up up; save_down down

pub split_file : Bytes → Cmd Statements (Unit {0})
unfolding save find
split_file s =
    let u = find up_marker s in
    let d = find down_marker s in
    if length s == 0 then pure tt else save (up_text s u d) (down_text s u d)

-- `parse_migration_file`
pub parse_migration_file : Option Bytes → Cmd Statements (Unit {0})
unfolding split_file
parse_migration_file none = do put empty; fail Error.not_found
parse_migration_file (some s) = do put empty; split_file s
