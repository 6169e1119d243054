-- ===== src/Tests/Scripts.antt =====
-- SQL sources through the lexer and the parser.
use c_orm.Base.{◌≡◌, refl, ◌≤◌, true, none, some, List, [], ◌∷◌, codes, length, arith, equal, ◌<◌}
use c_orm.Memory.{Machine, machine, ok}
use c_orm.Memory.Gives.{Gives}
use c_orm.Sql.Token.{
  eof, identifier, keyword, semicolon, whitespace, lparen, rparen, number, Token, token,
}
use c_orm.Sql.Lexer.{
  sql_lex, is_sql_keyword, is_space, is_digit, is_alpha, starts_word, in_word, span, next_token,
  lex_loop, push_token, store, enlarge, one_of,
}
use c_orm.Sql.Lexer.Lossless.{Splits, sql_lex-Splits}
use c_orm.Sql.Ast
use c_orm.Sql.Ast.{Table, Parser}
use c_orm.Sql.Parser.{
  count_down, skip_spaces, token_at, step_over, peek, consume, match_keyword, match_kind, report,
  expect, require, copy_text, decimal_value, to_int, number_in, parenthesis_length, length_in,
  text_types, int_types, data_type,
}
use c_orm.Sql.Parser.Constraint.{require_keyword, ask}
use c_orm.Sql.Parser.Safe.{Post}
use c_orm.Sql.Parser.Table.{
  parse_table, statement, heading, elements, element, column_definition, inline_constraints,
}
use c_orm.Base.Search.{starts_with}
use c_orm.Sql.Parser.Safe.Table.{parse_table-ends}
use c_orm.Sql.Ddl.{Ddl, parser_at, slices}
use c_orm.Sql.Ddl.Bounds.{AllSmall, Splits-Sound, Stores, slices-Stores}
use c_orm.Tests.{generous}

sql_lex-Splits_example :
    Gives
      (λ l _. Splits (codes "CREATE TABLE t (id INT);") l.tokens × (length l.tokens ≤ l.capacity))
      generous
      (sql_lex (codes "CREATE TABLE t (id INT);") (machine generous tt))
sql_lex-Splits_example = sql_lex-Splits (codes "CREATE TABLE t (id INT);") (machine generous tt)

-- CREATE TABLE t(code CHAR(10));
abbrev definition : List Token
definition =
    token keyword (codes "CREATE")
    ∷ token whitespace (codes " ")
    ∷ token keyword (codes "TABLE")
    ∷ token whitespace (codes " ")
    ∷ token identifier (codes "t")
    ∷ token lparen (codes "(")
    ∷ token identifier (codes "code")
    ∷ token whitespace (codes " ")
    ∷ token keyword (codes "CHAR")
    ∷ token lparen (codes "(")
    ∷ token number (codes "10")
    ∷ token rparen (codes ")")
    ∷ token rparen (codes ")")
    ∷ token semicolon (codes ";")
    ∷ token eof []
    ∷ []

definition-AllSmall : AllSmall definition
unfolding decimal_value
definition-AllSmall = (
  λ _. omega arith,
  (
    λ _. omega arith,
    (
      λ _. omega arith,
      (
        λ _. omega arith,
        (
          λ _. omega arith,
          (
            λ _. omega arith,
            (
              λ _. omega arith,
              (
                λ _. omega arith,
                (
                  λ _. omega arith,
                  (
                    λ _. omega arith,
                    (
                      λ _. omega arith,
                      (
                        λ _. omega arith,
                        (λ _. omega arith, (λ _. omega arith, (λ _. omega arith, tt))),
                      ),
                    ),
                  ),
                ),
              ),
            ),
          ),
        ),
      ),
    ),
  ),
)

definition-Splits : Splits (codes "CREATE TABLE t(code CHAR(10));") definition
unfolding sql_lex lex_loop push_token store enlarge next_token span is_space is_digit is_alpha
    starts_word in_word is_sql_keyword one_of equal
definition-Splits =
    (sql_lex-Splits (codes "CREATE TABLE t(code CHAR(10));") (machine generous tt)).0.0

-- the table that the definition defines
abbrev table : Table
table = record {
  name = codes "t";
  columns =
      record {
        name = codes "code";
        column_type = Ast.DataType.char;
        size = some 10;
        constraints = [];
      }
      ∷ [];
  table_constraints = [];
}

abbrev parsed : Machine Parser
parsed = machine (record { grants = λ _ _. true; calls = 5 }) (parser_at (token eof [] ∷ []) none)

definition-table : parse_table (machine generous (parser_at definition none)) ≡ ok table parsed
unfolding parse_table statement heading elements element column_definition inline_constraints
    require_keyword ask count_down skip_spaces token_at step_over peek consume match_keyword
    match_kind report expect require copy_text decimal_value to_int number_in parenthesis_length
    length_in text_types int_types data_type equal starts_with
definition-table = refl

parse_table-ends_example :
    Post (λ _ n. n < 15) (parse_table (machine generous (parser_at definition none)))
parse_table-ends_example =
    parse_table-ends (machine generous (parser_at definition none))
      (Splits-Sound definition-Splits definition-AllSmall)

abbrev empty_script : Machine Ddl
empty_script = machine generous (record { tables = []; countdown = none })

slices-Stores_example : Stores 1 (slices definition none empty_script)
slices-Stores_example =
    slices-Stores none empty_script definition-Splits definition-AllSmall tt (omega arith)
