-- ===== src/Sql/Token.antt =====
-- include/c_orm_sql.h: tokens. A token points into the source; here it holds its text.
use c_orm.Base.{ℕ, Bool, List, Bytes, ◌==◌}

-- `enum SqlTokenKind`
pub data Kind : Type 0 where
  eof whitespace identifier keyword number string lparen rparen comma semicolon unknown : Kind

-- The value of the enumerator.
abbrev pub code_of : Kind → ℕ
code_of eof = 0
code_of whitespace = 1
code_of identifier = 2
code_of keyword = 3
code_of number = 4
code_of string = 5
code_of lparen = 6
code_of rparen = 7
code_of comma = 8
code_of semicolon = 9
code_of unknown = 10

abbrev pub same_kind : Kind → Kind → Bool
same_kind a b = code_of a == code_of b

pub record Token : Type 0 where
  pub kind : Kind
  pub text : Bytes

abbrev pub token : Kind → Bytes → Token
token k s = record { kind = k; text = s }

-- `struct sql_token_list_t`; the size is the length of the list.
pub record TokenList : Type 0 where
  pub tokens : List Token
  pub capacity : ℕ
