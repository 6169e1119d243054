-- ===== src/Sql/Ddl.antt =====
-- `parse_sql_ddl` of src/c_orm_sql.c. The slices that it cuts share the array of tokens, and the
-- parser never reads their size, so a slice is the rest of the array. `az_span_create_from_str`
-- is a library's: the span is the string.
pub mod Bounds
use c_orm.Base.{
  ℕ, ◌+◌, ◌*◌, Bool, true, false, ◌&&◌, Option, none, some, List, [], ◌∷◌, ◌++◌, Bytes, codes,
  length, ltb, equal, if◌then◌else◌,
}
use c_orm.Memory.{
  Error, Memory, Machine, machine, Outcome, ok, err, stuck, Cmd, ◌>>=◌, ◌>>◌, pure, fail, get, put,
  alloc,
}
use c_orm.Sql.Token.{keyword, semicolon, same_kind, Token}
use c_orm.Sql.Lexer.{sql_lex}
use c_orm.Sql.Ast.{Table, Parser}
use c_orm.Sql.Parser.Table.{parse_table, table_size}

-- The tables found so far, and the countdown of the parser, which is global.
pub record Ddl : Type 0 where
  pub tables : List Table
  pub countdown : Option ℕ

-- `malloc(10 * sizeof(struct sql_table_t))`
abbrev pub room : ℕ
room = 10

-- `(*out_tables)[*out_n_tables]`, with no test that there is room: past the end, it is a write
-- outside of the array.
unfoldable pub store_table : Table → Cmd Ddl (Unit {0})
store_table t m =
    if ltb (length m.object.tables) room
    then put (record m.object { tables = m.object.tables ++ (t ∷ []) }) m
    else stuck

-- What a statement that was parsed, or refused, leaves.
unfoldable pub take_result :
    List Table → Outcome (Machine Parser) Table → Outcome (Machine Ddl) (Unit {0})
unfolding store_table
take_result ts (ok t m) =
    store_table t (machine m.memory (record { tables = ts; countdown = m.object.countdown }))
take_result ts (err e m) =
    ok tt (machine m.memory (record { tables = ts; countdown = m.object.countdown }))
take_result ts stuck = stuck

abbrev pub parser_at : List Token → Option ℕ → Parser
parser_at ts countdown = record {
  rest = ts;
  wants_error = true;
  error = none;
  countdown = countdown;
}

unfoldable pub parse_slice : List Token → Cmd Ddl (Unit {0})
unfolding take_result
parse_slice start m =
    take_result m.object.tables
      (parse_table (machine m.memory (parser_at start m.object.countdown)))

abbrev pub is_create : Token → Bool
is_create t = same_kind t.kind keyword && equal t.text (codes "CREATE")

-- `start_idx` with `in_table`: the tokens from the last CREATE on, unless a statement has ended.
abbrev pub new_start : List Token → Option (List Token) → Option (List Token)
new_start [] start = start
new_start (t ∷ ts) start = if is_create t then some (t ∷ ts) else start

unfoldable pub at_end : Option (List Token) → Cmd Ddl (Unit {0})
unfolding parse_slice
at_end none = pure tt
at_end (some start) = parse_slice start

-- The loop over the tokens: a statement runs from CREATE to a semicolon.
unfoldable pub slices : List Token → Option (List Token) → Cmd Ddl (Unit {0})
unfolding at_end
slices [] start = pure tt
slices (t ∷ ts) start =
    let here = new_start (t ∷ ts) start in
    let parsed = at_end here >> slices ts none in
    let skipped = slices ts here in if same_kind t.kind semicolon then parsed else skipped

-- `parse_sql_ddl`, on a string that is not NULL.
unfoldable pub parse_sql_ddl : Bytes → Cmd Ddl (Unit {0})
unfolding slices
parse_sql_ddl source = do
  list ← sql_lex source
  granted ← alloc (room * table_size)
  if granted then slices list.tokens none else fail Error.memory
