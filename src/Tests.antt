-- ===== src/Tests.antt =====
-- Concrete schemas, statements and runs: the data on which the theorems of the library are applied.
mod Builders
mod Calls
mod Files
mod Queries
mod Routes
mod Scripts
mod Runs
mod Statements
use c_orm.Base.{ℕ, suc, zero, Bool, true, false, Option, none, some, List, [], ◌∷◌, Bytes, codes}
use c_orm.Memory.{Memory, Machine, machine}
use c_orm.Meta.{one_to_many, many_to_many, ColumnMeta, RelationMeta, TableMeta, Schema}

-- An allocator that meets every request.
abbrev pub generous : Memory
generous = record { grants = λ _ _. true; calls = 0 }

abbrev pub closed : {S : Type 0} → Machine (Option S)
closed = machine generous none

abbrev id_column : ColumnMeta
id_column = record { name = codes "user_id"; is_pk = true }

-- users has many posts, and many roles by way of user_roles.
abbrev pub posts_relation : RelationMeta
posts_relation = record {
  field_name = codes "posts";
  relation_type = one_to_many;
  foreign_key = some (codes "author_id");
  local_key = some (codes "user_id");
  target_meta = some 1;
  join_table = none;
  join_local_key = none;
  join_foreign_key = none;
}

abbrev pub users : TableMeta
users = record { name = codes "users"; columns = id_column ∷ []; relations = posts_relation ∷ [] }

abbrev pub posts : TableMeta
posts = record { name = codes "posts"; columns = []; relations = [] }

abbrev pub tables : Schema
tables zero = users
tables (suc n) = posts
