-- ===== src/Sql/Ast.antt =====
-- include/c_orm_sql.h: what a table definition is parsed into, and the state of the parser. An
-- array with its count is a list, and a string that may be NULL is an `Option`.
use c_orm.Base.{ℕ, Bool, Option, List, Bytes}
use c_orm.Sql.Token.{Token}

-- `enum SqlDataType`
pub data DataType : Type 0 where
  unknown int bigint varchar text char float double decimal boolean date timestamp : DataType

-- `enum SqlConstraintType`
pub data ConstraintType : Type 0 where
  nothing primary_key foreign_key unique not_null default_value : ConstraintType

-- `struct sql_constraint_t`
pub record Constraint : Type 0 where
  pub constraint_type : ConstraintType
  pub reference_table : Option Bytes
  pub reference_column : Option Bytes
  pub default_text : Option Bytes
  pub columns : List Bytes

-- `struct sql_column_t`; the length is `none` for -1.
pub record Column : Type 0 where
  pub name : Bytes
  pub column_type : DataType
  pub size : Option ℕ
  pub constraints : List Constraint

-- `struct sql_table_t`
pub record Table : Type 0 where
  pub name : Bytes
  pub columns : List Column
  pub table_constraints : List Constraint

-- `struct sql_parse_error_t`
pub record ParseError : Type 0 where
  pub message : Bytes
  pub token : Option Token

-- `struct SqlParserState`, with the tokens from the cursor on, and `g_parser_fail_countdown`, where
-- `none` is a negative number. `wants_error` tells whether `out_error` is not NULL.
pub record Parser : Type 0 where
  pub rest : List Token
  pub wants_error : Bool
  pub error : Option ParseError
  pub countdown : Option ℕ
