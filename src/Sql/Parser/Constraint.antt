-- ===== src/Sql/Parser/Constraint.antt =====
-- `sql_parse_column_constraint` and `sql_parse_table_constraint` of src/c_orm_sql.c. What they
-- allocate is freed on every error path, so an error leaves only the state of the parser.
use c_orm.Base.{
  ℕ, zero, suc, ◌+◌, ◌*◌, Option, none, some, List, [], ◌∷◌, ◌++◌, Bytes, codes, length,
  if◌then◌else◌,
}
use c_orm.Memory.{Cmd, ◌>>=◌, ◌>>◌, pure, alloc}
use c_orm.Sql.Token.{identifier, keyword, number, string, lparen, rparen, comma, Token}
use c_orm.Sql.Ast.{
  ConstraintType, primary_key, foreign_key, unique, not_null, default_value, Constraint, Parser,
}
use c_orm.Sql.Parser.{match_keyword, match_kind, set_error, expect, require, copy_text, undefined}

abbrev pub plain : ConstraintType → Constraint
plain k = record {
  constraint_type = k;
  reference_table = none;
  reference_column = none;
  default_text = none;
  columns = [];
}

-- A keyword that has to follow.
unfoldable pub require_keyword : Bytes → Bytes → Cmd Parser (Unit {0})
require_keyword kw msg = do found ← match_keyword kw; require msg found

-- `malloc` or `realloc` of an array.
unfoldable pub ask : ℕ → Bytes → Cmd Parser (Unit {0})
ask size msg = do granted ← alloc size; if granted then pure tt else set_error msg

-- The kinds of token that may follow DEFAULT are tried in turn.
unfoldable pub default_token : Cmd Parser (Option Token)
default_token = do
  s ← match_kind string
  elim s [
    | some t ↦ pure (some t)
    | none ↦ do
      n ← match_kind number
      elim n [
        | some t ↦ pure (some t)
        | none ↦ do
          i ← match_kind identifier
          elim i [ some t ↦ pure (some t) | none ↦ match_kind keyword ]
      ]
  ]

unfoldable pub default_constraint : Cmd Parser Constraint
unfolding default_token
default_constraint = do
  found ← default_token
  tok ← expect (codes "Expected value after 'DEFAULT'") found
  val ← copy_text (codes "OOM allocating default value") tok
  pure (record (plain default_value) { default_text = some val })

-- `(column)` behind the table that a column references, once the parenthesis is open.
unfoldable pub referenced_column : Bytes → Cmd Parser Bytes
referenced_column oom = do
  found ← match_kind identifier
  tok ← expect (codes "Expected column name in REFERENCES()") found
  column ← copy_text oom tok
  close ← match_kind rparen
  expect (codes "Expected ')' after reference column") close
  pure column

unfoldable pub maybe_column : Bytes → Option Token → Cmd Parser (Option Bytes)
unfolding referenced_column
maybe_column oom none = pure none
maybe_column oom (some tok) = do column ← referenced_column oom; pure (some column)

-- `table` or `table(column)` behind REFERENCES.
unfoldable pub references : Bytes → Bytes → Cmd Parser Constraint
unfolding maybe_column
references oom_table oom_column = do
  found ← match_kind identifier
  tok ← expect (codes "Expected table name after 'REFERENCES'") found
  table ← copy_text oom_table tok
  open' ← match_kind lparen
  column ← maybe_column oom_column open'
  pure (record (plain foreign_key) { reference_table = some table; reference_column = column })

unfoldable pub tried_references : Cmd Parser (Option Constraint)
unfolding references
tried_references = do
  found ← match_keyword (codes "REFERENCES")
  if found
      then (do
        c ←
            references (codes "OOM allocating reference table name")
              (codes "OOM allocating reference col name")
        pure (some c))
      else pure none

unfoldable pub tried_default : Cmd Parser (Option Constraint)
unfolding default_constraint tried_references
tried_default = do
  found ← match_keyword (codes "DEFAULT")
  if found then (do c ← default_constraint; pure (some c)) else tried_references

unfoldable pub tried_unique : Cmd Parser (Option Constraint)
unfolding tried_default
tried_unique = do
  found ← match_keyword (codes "UNIQUE")
  if found then pure (some (plain unique)) else tried_default

unfoldable pub tried_not : Cmd Parser (Option Constraint)
unfolding require_keyword tried_unique
tried_not = do
  found ← match_keyword (codes "NOT")
  if found
      then (do
        require_keyword (codes "NULL") (codes "Expected 'NULL' after 'NOT'")
        pure (some (plain not_null)))
      else tried_unique

-- `sql_parse_column_constraint`; `none` is `C_ORM_ERROR_NOT_FOUND`, "not a constraint".
unfoldable pub column_constraint : Cmd Parser (Option Constraint)
unfolding require_keyword tried_not
column_constraint = do
  found ← match_keyword (codes "PRIMARY")
  if found
      then (do
        require_keyword (codes "KEY") (codes "Expected 'KEY' after 'PRIMARY'")
        pure (some (plain primary_key)))
      else tried_not

-- FOREIGN itself may be missing: only KEY is required.
unfoldable pub foreign_type : Cmd Parser ConstraintType
unfolding require_keyword
foreign_type = do
  match_keyword (codes "FOREIGN")
  require_keyword (codes "KEY") (codes "Expected 'KEY' after 'FOREIGN'")
  pure foreign_key

unfoldable pub unique_type : Cmd Parser ConstraintType
unfolding foreign_type
unique_type = do found ← match_keyword (codes "UNIQUE"); if found then pure unique else foreign_type

unfoldable pub constraint_type : Cmd Parser ConstraintType
unfolding require_keyword unique_type
constraint_type = do
  found ← match_keyword (codes "PRIMARY")
  if found
      then (do
        require_keyword (codes "KEY") (codes "Expected 'KEY' after 'PRIMARY'")
        pure primary_key)
      else unique_type

-- The columns of a table constraint, on fuel; every round takes a token.
unfoldable pub column_names : ℕ → List Bytes → Cmd Parser (List Bytes)
unfolding ask
column_names zero names = undefined
column_names (suc fuel) names = do
  found ← match_kind identifier
  tok ← expect (codes "Expected column name in constraint") found
  ask ((length names + 1) * 8) (codes "OOM allocating constraint columns")
  name ← copy_text (codes "OOM allocating column name") tok
  again ← match_kind comma
  elim again [
    | none ↦ pure (names ++ (name ∷ []))
    | some _ ↦ column_names fuel (names ++ (name ∷ []))
  ]

unfoldable pub table_references : ConstraintType → List Bytes → Cmd Parser Constraint
unfolding require_keyword references
table_references foreign_key names = do
  require_keyword (codes "REFERENCES") (codes "Expected 'REFERENCES' after FOREIGN KEY (...)")
  c ← references (codes "OOM allocating ref table") (codes "OOM allocating ref col")
  pure (record c { columns = names })
table_references k names = pure (record (plain k) { columns = names })

-- `sql_parse_table_constraint`
unfoldable pub table_constraint : ℕ → Cmd Parser Constraint
unfolding constraint_type column_names table_references
table_constraint fuel = do
  k ← constraint_type
  open' ← match_kind lparen
  expect (codes "Expected '(' after constraint type") open'
  names ← column_names fuel []
  close ← match_kind rparen
  expect (codes "Expected ')' after constraint columns") close
  table_references k names
