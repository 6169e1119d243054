-- ===== src/Meta.antt =====
-- include/c_orm_meta.h: the metadata of tables that the SQL builders read. A `const c_orm_table_meta_t *`
-- is an index into the tables of the program, since relations may lead back to their own table.
-- A string that the header lets be NULL is an `Option`.
use c_orm.Base.{ℕ, Bool, true, false, Option, List, Bytes}

-- `c_orm_relation_type_t`
pub data RelationType : Type 0 where
  one_to_one belongs_to one_to_many many_to_many has_many_through polymorphic : RelationType

-- `c_orm_column_meta_t`, as far as the builders read it
pub record ColumnMeta : Type 0 where
  pub name : Bytes
  pub is_pk : Bool

-- `c_orm_relation_meta_t`, as far as the builders read it
pub record RelationMeta : Type 0 where
  pub field_name : Bytes
  pub relation_type : RelationType
  pub foreign_key : Option Bytes
  pub local_key : Option Bytes
  pub target_meta : Option ℕ
  pub join_table : Option Bytes
  pub join_local_key : Option Bytes
  pub join_foreign_key : Option Bytes

-- `c_orm_table_meta_t`, as far as the builders read it
pub record TableMeta : Type 0 where
  pub name : Bytes
  pub columns : List ColumnMeta
  pub relations : List RelationMeta

abbrev pub Schema : Type 0
Schema = ℕ → TableMeta

-- `rel->type == C_ORM_RELATION_MANY_TO_MANY`
abbrev pub is_many_to_many : RelationType → Bool
is_many_to_many many_to_many = true
is_many_to_many _ = false
