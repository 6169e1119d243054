-- ===== src/Sql/Lexer.antt =====
-- `sql_lex` of src/c_orm_sql.c and its helpers. The character classes are those of the C locale.
pub mod Lossless
use c_orm.Base.{
  ℕ, zero, suc, ◌+◌, ◌*◌, Bool, true, false, not, ◌&&◌, ◌||◌, Option, none, some, List, [], ◌∷◌,
  ◌++◌, Bytes, codes, length, equal, leb, ◌==◌, if◌then◌else◌,
}
use c_orm.Memory.{Error, Cmd, stuck, ◌>>=◌, ◌>>◌, pure, fail, get, put, alloc, within}
use c_orm.Sql.Token.{
  Kind, eof, whitespace, identifier, keyword, number, string, lparen, rparen, comma, semicolon,
  Token, token, TokenList,
}

abbrev between : ℕ → ℕ → ℕ → Bool
between lo hi c = leb lo c && leb c hi

-- `isspace`, `isdigit` and `isalpha`
unfoldable pub is_space : ℕ → Bool
is_space c = c == b' ' || between 9 13 c

unfoldable pub is_digit : ℕ → Bool
is_digit c = between b'0' b'9' c

unfoldable pub is_alpha : ℕ → Bool
is_alpha c = between b'a' b'z' c || between b'A' b'Z' c

-- `isalpha(c) || c == '_'`, and `isalnum(c) || c == '_'`
unfoldable pub starts_word : ℕ → Bool
unfolding is_alpha
starts_word c = is_alpha c || c == b'_'

unfoldable pub in_word : ℕ → Bool
unfolding is_alpha is_digit
in_word c = is_alpha c || is_digit c || c == b'_'

abbrev pub keywords : List Bytes
keywords =
    codes "CREATE"
    ∷ codes "TABLE"
    ∷ codes "INT"
    ∷ codes "INTEGER"
    ∷ codes "BIGINT"
    ∷ codes "VARCHAR"
    ∷ codes "TEXT"
    ∷ codes "CHAR"
    ∷ codes "FLOAT"
    ∷ codes "DOUBLE"
    ∷ codes "DECIMAL"
    ∷ codes "BOOLEAN"
    ∷ codes "BOOL"
    ∷ codes "DATE"
    ∷ codes "TIMESTAMP"
    ∷ codes "PRIMARY"
    ∷ codes "KEY"
    ∷ codes "FOREIGN"
    ∷ codes "REFERENCES"
    ∷ codes "UNIQUE"
    ∷ codes "NOT"
    ∷ codes "NULL"
    ∷ codes "DEFAULT"
    ∷ codes "SELECT"
    ∷ codes "INSERT"
    ∷ codes "INTO"
    ∷ codes "VALUES"
    ∷ codes "RETURNING"
    ∷ codes "UPDATE"
    ∷ codes "SET"
    ∷ codes "DELETE"
    ∷ codes "FROM"
    ∷ codes "WHERE"
    ∷ codes "AS"
    ∷ []

unfoldable pub one_of : Bytes → List Bytes → Bool
one_of s [] = false
one_of s (k ∷ ks) = if equal k s then true else one_of s ks

-- `is_sql_keyword`
unfoldable pub is_sql_keyword : Bytes → Bool
unfolding one_of
is_sql_keyword s = one_of s keywords

-- `sizeof(struct sql_token_t)` and `sizeof(struct sql_token_list_t)` on a 64-bit platform
abbrev token_size : ℕ
token_size = 24

abbrev list_size : ℕ
list_size = 24

-- `push_token`: the array doubles when it is full. Its size does not wrap: a span is shorter than
-- 2 ^ 31 bytes.
unfoldable pub store : Token → Cmd TokenList (Unit {0})
store t = do l ← get; put (record l { tokens = l.tokens ++ (t ∷ []) })

unfoldable pub enlarge : ℕ → Cmd TokenList (Unit {0})
enlarge capacity = do
  granted ← alloc (capacity * token_size)
  l ← get
  if granted then put (record l { capacity = capacity }) else fail Error.memory

unfoldable pub push_token : Token → Cmd TokenList (Unit {0})
unfolding store enlarge
push_token t = do
  l ← get
  let wanted = if l.capacity == 0 then 16 else l.capacity * 2
  (if leb l.capacity (length l.tokens) then enlarge wanted else pure tt) >> store t

-- The longest prefix of bytes in a class, and the rest.
abbrev pub cons_left : ℕ → Bytes × Bytes → Bytes × Bytes
cons_left c (a, b) = (c ∷ a, b)

unfoldable pub span : (ℕ → Bool) → Bytes → Bytes × Bytes
span p [] = ([], [])
span p (c ∷ s) = if p c then cons_left c (span p s) else ([], c ∷ s)

-- A string runs to the closing quote, which it includes, or to the end.
abbrev pub close_string : Bytes → Bytes → Token × Bytes
close_string body [] = (token string (b'\'' ∷ body), [])
close_string body (quote ∷ s) = (token string (b'\'' ∷ (body ++ (quote ∷ []))), s)

abbrev pub as_string : Bytes × Bytes → Token × Bytes
as_string (body, rest) = close_string body rest

abbrev pub with_kind : (Bytes → Kind) → Bytes × Bytes → Token × Bytes
with_kind k (a, b) = (token (k a) a, b)

abbrev pub word_kind : Bytes → Kind
word_kind s = if is_sql_keyword s then keyword else identifier

abbrev pub punctuation : ℕ → Kind
punctuation c =
    if c == b'('
    then lparen
    else if c == b')'
    then rparen
    else if c == b','
    then comma
    else if c == b';'
    then semicolon
    else Kind.unknown

-- One round of the loop: the token at the front, which begins with `c`, and what follows it.
unfoldable pub next_token : ℕ → Bytes → Token × Bytes
unfolding is_space starts_word in_word is_digit span
next_token c s =
    if is_space c
    then with_kind (λ _. whitespace) (cons_left c (span is_space s))
    else if starts_word c
    then with_kind word_kind (cons_left c (span in_word s))
    else if is_digit c
    then with_kind (λ _. number) (cons_left c (span is_digit s))
    else if c == b'\''
    then as_string (span (λ d. not (d == b'\'')) s)
    else (token (punctuation c) (c ∷ []), s)

-- `while (curr < end)`, on fuel; every round takes a byte.
unfoldable pub lex_loop : ℕ → Bytes → Cmd TokenList (Unit {0})
unfolding next_token
lex_loop zero source = λ m. stuck
lex_loop (suc fuel) [] = push_token (token eof [])
lex_loop (suc fuel) (c ∷ s) = do push_token (next_token c s).0; lex_loop fuel (next_token c s).1

-- `sql_lex`, on a span that is not NULL. Every failure is `C_ORM_ERROR_MEMORY`.
unfoldable pub sql_lex : {S : Type 0} → Bytes → Cmd S TokenList
unfolding lex_loop
sql_lex source = do
  granted ← alloc list_size
  if granted
      then within (record { tokens = []; capacity = 0 }) (lex_loop (suc (length source)) source)
      else fail Error.memory
