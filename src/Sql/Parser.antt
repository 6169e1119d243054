-- ===== src/Sql/Parser.antt =====
-- `sql_parser_peek`, `sql_parser_consume` and the functions built from them, of src/c_orm_sql.c.
pub mod Constraint
pub mod Safe
pub mod Table
use c_orm.Base.{
  ℕ, zero, suc, ◌+◌, ◌-◌, ◌*◌, ◌^◌, Bool, true, false, not, ◌&&◌, ◌||◌, Option, none, some, List,
  [], ◌∷◌, ◌++◌, Bytes, codes, length, equal, ltb, leb, ◌==◌, if◌then◌else◌,
}
use c_orm.Base.Search.{starts_with}
use c_orm.Memory.{Error, Cmd, stuck, ◌>>=◌, ◌>>◌, pure, fail, get, put, alloc}
use c_orm.Sql.Token.{
  Kind, eof, whitespace, identifier, keyword, number, string, lparen, rparen, comma, semicolon,
  same_kind, Token,
}
use c_orm.Sql.Ast.{DataType, ParseError, Parser}

-- A read or a write outside of an array, or a value that C leaves undefined.
abbrev pub undefined : {A : Type 0} → Cmd Parser A
undefined m = stuck

-- The countdown that every peek and every consume begins with.
unfoldable pub count_down : Option ℕ → Cmd Parser (Unit {0})
count_down none = pure tt
count_down (some zero) = do p ← get; put (record p { countdown = none }); fail Error.unknown
count_down (some (suc n)) = do p ← get; put (record p { countdown = some n })

-- `while (tokens[c].kind == SQL_TOKEN_WHITESPACE) c++;` and the token there; `none` is a read past
-- the end of the array.
unfoldable pub skip_spaces : List Token → Option (Token × List Token)
skip_spaces [] = none
skip_spaces (t ∷ ts) = if same_kind t.kind whitespace then skip_spaces ts else some (t, ts)

unfoldable pub token_at : Option (Token × List Token) → Cmd Parser Token
token_at none = undefined
token_at (some (t, ts)) = pure t

unfoldable pub step_over : Option (Token × List Token) → Cmd Parser (Unit {0})
step_over none = undefined
step_over (some (t, ts)) = do p ← get; put (record p { rest = ts })

-- `sql_parser_peek`
unfoldable pub peek : Cmd Parser Token
unfolding count_down token_at skip_spaces
peek = do p ← get; count_down p.countdown; token_at (skip_spaces p.rest)

-- `sql_parser_consume`
unfoldable pub consume : Cmd Parser (Unit {0})
unfolding count_down step_over skip_spaces
consume = do p ← get; count_down p.countdown; step_over (skip_spaces p.rest)

-- `sql_parser_match_keyword`
unfoldable pub match_keyword : Bytes → Cmd Parser Bool
match_keyword kw = do
  tok ← peek
  if same_kind tok.kind keyword && equal tok.text kw then consume >> pure true else pure false

-- `sql_parser_match_kind`: the token, if it is of that kind.
unfoldable pub match_kind : Kind → Cmd Parser (Option Token)
match_kind k = do tok ← peek; if same_kind tok.kind k then consume >> pure (some tok) else pure none

unfoldable pub report : Bool → Bytes → Cmd Parser (Unit {0})
report false msg = pure tt
report true msg = do
  p ← get
  put (record p { error = some (record { message = msg; token = none }) })
  tok ← peek
  q ← get
  put (record q { error = some (record { message = msg; token = some tok }) })

-- `sql_parser_set_error`
unfoldable pub set_error : {A : Type 0} → Bytes → Cmd Parser A
unfolding report
set_error msg = do p ← get; report p.wants_error msg; fail Error.sql

-- A token that has to be there.
unfoldable pub expect : Bytes → Option Token → Cmd Parser Token
expect msg none = set_error msg
expect msg (some tok) = pure tok

-- A keyword or a mark that has to be there.
unfoldable pub require : Bytes → Bool → Cmd Parser (Unit {0})
require msg true = pure tt
require msg false = set_error msg

-- `malloc(tok->length + 1)` and a copy of the text.
unfoldable pub copy_text : Bytes → Token → Cmd Parser Bytes
copy_text msg tok = do
  granted ← alloc (length tok.text + 1)
  if granted then pure tok.text else set_error msg

-- "simplistic string to int": a value that an `int` cannot hold is undefined.
unfoldable pub decimal_value : ℕ → Bytes → ℕ
decimal_value val [] = val
decimal_value val (d ∷ ds) = decimal_value (val * 10 + (d - b'0')) ds

unfoldable pub to_int : ℕ → Cmd Parser ℕ
to_int n = if ltb n (2 ^ 31) then pure n else undefined

unfoldable pub number_in : Option Token → Cmd Parser (Option ℕ)
unfolding to_int decimal_value
number_in none = pure none
number_in (some tok) = do n ← to_int (decimal_value 0 tok.text); pure (some n)

-- `(n)` behind a character type, once the parenthesis is open.
unfoldable pub parenthesis_length : Cmd Parser (Option ℕ)
unfolding number_in
parenthesis_length = do
  num ← match_kind number
  n ← number_in num
  close ← match_kind rparen
  expect (codes "Expected ) after length") close
  pure n

unfoldable pub length_in : Option Token → Cmd Parser (Option ℕ)
unfolding parenthesis_length
length_in none = pure none
length_in (some tok) = parenthesis_length

abbrev text_type : Bytes → DataType
text_type s =
    if starts_with (codes "VARCHAR") s
    then DataType.varchar
    else if starts_with (codes "TEXT") s
    then DataType.text
    else DataType.char

abbrev real_type : Bytes → DataType
real_type s =
    if starts_with (codes "FLOAT") s
    then DataType.float
    else if starts_with (codes "DOUBLE") s
    then DataType.double
    else DataType.decimal

-- The groups of types are tried in turn, each with every one of its words.
unfoldable pub other_types : Cmd Parser (DataType × Option ℕ)
other_types = do
  match1 ← match_keyword (codes "BOOLEAN")
  match2 ← match_keyword (codes "BOOL")
  if match1 || match2 then pure (DataType.boolean, none) else do
    match3 ← match_keyword (codes "DATE")
    if match3 then pure (DataType.date, none) else do
      match4 ← match_keyword (codes "TIMESTAMP")
      if match4 then pure (DataType.timestamp, none) else set_error (codes "Unknown data type")

unfoldable pub real_types : Bytes → Cmd Parser (DataType × Option ℕ)
unfolding other_types
real_types first = do
  match1 ← match_keyword (codes "FLOAT")
  match2 ← match_keyword (codes "DOUBLE")
  match3 ← match_keyword (codes "DECIMAL")
  if match1 || match2 || match3 then pure (real_type first, none) else other_types

unfoldable pub text_types : Bytes → Cmd Parser (DataType × Option ℕ)
unfolding real_types length_in
text_types first = do
  match1 ← match_keyword (codes "VARCHAR")
  match2 ← match_keyword (codes "TEXT")
  match3 ← match_keyword (codes "CHAR")
  if match1 || match2 || match3
      then (do open' ← match_kind lparen; n ← length_in open'; pure (text_type first, n))
      else real_types first

unfoldable pub int_types : Bytes → Cmd Parser (DataType × Option ℕ)
unfolding text_types
int_types first = do
  match1 ← match_keyword (codes "INT")
  match2 ← match_keyword (codes "INTEGER")
  if match1 || match2 then pure (DataType.int, none) else do
    match3 ← match_keyword (codes "BIGINT")
    if match3 then pure (DataType.bigint, none) else text_types first

-- `sql_parse_data_type`
unfoldable pub data_type : Cmd Parser (DataType × Option ℕ)
unfolding int_types
data_type = do
  tok ← peek
  if same_kind tok.kind keyword then int_types tok.text else set_error (codes "Expected data type")
