-- ===== src/Sql/Parser/Table.antt =====
-- `sql_parse_table` of src/c_orm_sql.c.
use c_orm.Base.{
  ℕ, zero, suc, ◌+◌, ◌*◌, Bool, ◌&&◌, ◌||◌, none, some, List, [], ◌∷◌, ◌++◌, Bytes, codes, length,
  equal, leb, if◌then◌else◌,
}
use c_orm.Memory.{Error, Cmd, ◌>>=◌, ◌>>◌, pure, fail, get, alloc}
use c_orm.Sql.Token.{
  Kind, eof, identifier, keyword, lparen, rparen, comma, semicolon, same_kind, Token,
}
use c_orm.Sql.Ast.{Constraint, Column, Table, Parser}
use c_orm.Sql.Parser.{undefined, peek, match_kind, expect, copy_text, data_type}
use c_orm.Sql.Parser.Constraint.{require_keyword, ask, column_constraint, table_constraint}

-- The sizes of the structs on a 64-bit platform.
abbrev constraint_size : ℕ
constraint_size = 48

abbrev column_size : ℕ
column_size = 32

abbrev pub table_size : ℕ
table_size = 40

-- The array of constraints doubles when it is full.
unfoldable pub enlarge : ℕ → ℕ → Cmd Parser ℕ
enlarge count capacity =
    if leb capacity count
    then (do
      granted ← alloc (capacity * 2 * constraint_size)
      if granted then pure (capacity * 2) else fail Error.memory)
    else pure capacity

-- A comma, a closing parenthesis or the end of the tokens ends a column.
abbrev pub ends_column : Kind → Bool
ends_column k = same_kind k comma || same_kind k rparen || same_kind k eof

-- The constraints of a column, on fuel; every round takes a token.
unfoldable pub inline_constraints : ℕ → ℕ → List Constraint → Cmd Parser (List Constraint)
unfolding enlarge
inline_constraints zero capacity cs = undefined
inline_constraints (suc fuel) capacity cs = do
  tok ← peek
  if ends_column tok.kind then pure cs else do
    parsed ← column_constraint
    elim parsed [
      | none ↦ pure cs
      | some c ↦ do
        capacity' ← enlarge (length cs) capacity
        inline_constraints fuel capacity' (cs ++ (c ∷ []))
    ]

-- A column definition, and its place at the end of the array.
unfoldable pub column_definition : ℕ → ℕ → Cmd Parser Column
unfolding inline_constraints
column_definition fuel count = do
  found ← match_kind identifier
  tok ← expect (codes "Expected column name") found
  name ← copy_text (codes "OOM allocating column name") tok
  typed ← data_type
  ask (2 * constraint_size) (codes "OOM allocating constraints")
  cs ← inline_constraints fuel 2 []
  ask ((count + 1) * column_size) (codes "OOM allocating column")
  pure (record { name = name; column_type = typed.0; size = typed.1; constraints = cs })

unfoldable pub one_constraint : ℕ → ℕ → Cmd Parser Constraint
one_constraint fuel count = do
  c ← table_constraint fuel
  ask ((count + 1) * constraint_size) (codes "OOM allocating table constraints")
  pure c

-- "Is it a table-level constraint?"
abbrev pub begins_constraint : Token → Bool
begins_constraint t =
    same_kind t.kind keyword
    && (equal t.text (codes "PRIMARY")
        || equal t.text (codes "FOREIGN")
        || equal t.text (codes "UNIQUE"))

abbrev pub with_column : Table → Column → Table
with_column t c = record t { columns = t.columns ++ (c ∷ []) }

abbrev pub with_constraint : Table → Constraint → Table
with_constraint t c = record t { table_constraints = t.table_constraints ++ (c ∷ []) }

-- One round of the loop over the columns and the constraints of a table.
unfoldable pub element : ℕ → Token → Table → Cmd Parser Table
unfolding one_constraint column_definition
element fuel tok table =
    if begins_constraint tok
    then (do
      c ← one_constraint fuel (length table.table_constraints)
      pure (with_constraint table c))
    else (do c ← column_definition fuel (length table.columns); pure (with_column table c))

-- The loop, on fuel; every round takes a token.
unfoldable pub elements : ℕ → Table → Cmd Parser Table
unfolding element
elements zero table = undefined
elements (suc fuel) table = do
  tok ← peek
  if same_kind tok.kind rparen then pure table else do
    table' ← element (suc fuel) tok table
    again ← match_kind comma
    elim again [ none ↦ pure table' | some _ ↦ elements fuel table' ]

-- From CREATE to the parenthesis: the name of the table.
unfoldable pub heading : Cmd Parser Bytes
heading = do
  require_keyword (codes "CREATE") (codes "Expected 'CREATE'")
  require_keyword (codes "TABLE") (codes "Expected 'TABLE'")
  found ← match_kind identifier
  tok ← expect (codes "Expected table name") found
  ask table_size (codes "OOM allocating table")
  name ← copy_text (codes "OOM allocating table name") tok
  open' ← match_kind lparen
  expect (codes "Expected '('") open'
  pure name

unfoldable pub statement : ℕ → Cmd Parser Table
unfolding heading elements
statement fuel = do
  name ← heading
  table ← elements fuel (record { name = name; columns = []; table_constraints = [] })
  close ← match_kind rparen
  expect (codes "Expected ')' at end of table definition") close
  match_kind semicolon
  pure table

-- `sql_parse_table`, with a parser at the start of its tokens.
unfoldable pub parse_table : Cmd Parser Table
unfolding statement
parse_table = do p ← get; statement (suc (length p.rest))
