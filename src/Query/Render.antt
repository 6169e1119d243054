-- ===== src/Query/Render.antt =====
-- src/c_orm_query_sql.c: `render_node` and `c_orm_query_to_sql`.
use c_orm.Base.{
  ℕ, ◌%◌, ◌^◌, Bool, true, false, Option, none, some, [], ◌∷◌, ◌++◌, Bytes, codes, if◌then◌else◌,
}
use c_orm.Base.Decimal.{decimal}
use c_orm.Memory.{Cmd, ◌>>=◌, ◌>>◌, pure, get, zoom}
use c_orm.StringBuilder.{StringBuilder, append}
use c_orm.Query.Ast.{Dialect}
use c_orm.Query.Params.{Params, add_param}

-- The string builder `sb`, and `params`, which may be NULL.
pub record Rendering : Type 0 where
  pub sb : Option StringBuilder
  pub params : Option Params

-- `APPEND(str)` and `APPEND_SQL(str)`
unfoldable pub say : Option Bytes → Cmd Rendering (Unit {0})
say str = zoom (λ r. r.sb) (λ r sb. record r { sb = sb }) (append str)

abbrev pub text : Bytes → Cmd Rendering (Unit {0})
text s = say (some s)

-- `s && s[0] != '\0'`
abbrev pub is_given : Option Bytes → Bool
is_given none = false
is_given (some []) = false
is_given (some (c ∷ s)) = true

-- A cast to `unsigned int`.
abbrev pub word32 : ℕ → ℕ
word32 n = n % 2 ^ 32

abbrev pub placeholder : Dialect → ℕ → Bytes
placeholder Dialect.postgres n = codes "$" ++ decimal n
placeholder _ n = codes "?"

abbrev pub count_of : Option Params → ℕ
count_of none = 0
count_of (some p) = p.count

-- The value of a literal as a parameter, or in the text.
unfoldable pub bind_value : Dialect → Option Bytes → Bool → Cmd Rendering (Unit {0})
unfolding say
bind_value d value is_string = do
  zoom (λ r. r.params) (λ r params. record r { params = params }) (add_param value is_string)
  r ← get
  text (placeholder d (word32 (count_of r.params)))

abbrev pub quote : Bool → Cmd Rendering (Unit {0})
quote is_string = if is_string then text (codes "'") else pure tt

unfoldable pub inline_value : Option Bytes → Bool → Cmd Rendering (Unit {0})
unfolding say
inline_value value is_string = quote is_string >> (say value >> quote is_string)

-- `if (params) { ... } else { ... }`
abbrev pub bind_or_inline :
    Cmd Rendering (Unit {0}) → Cmd Rendering (Unit {0}) → Option Params → Cmd Rendering (Unit {0})
bind_or_inline bind inline none = inline
bind_or_inline bind inline (some p) = bind

unfoldable pub choose :
    Cmd Rendering (Unit {0}) → Cmd Rendering (Unit {0}) → Cmd Rendering (Unit {0})
choose bind inline = get >>= λ r. bind_or_inline bind inline r.params

-- `if (alias && alias[0] != '\0') { ... }`
abbrev pub as_alias : Option Bytes → Cmd Rendering (Unit {0})
as_alias alias = if is_given alias then text (codes " AS ") >> say alias else pure tt

-- `OVER (...)`, between the parentheses
abbrev pub over : Option Bytes → Option Bytes → Cmd Rendering (Unit {0})
over partition_by order_by = do
  if is_given partition_by
      then text (codes "PARTITION BY ")
        >> (say partition_by >> (if is_given order_by then text (codes " ") else pure tt))
      else pure tt
  if is_given order_by then text (codes "ORDER BY ") >> say order_by else pure tt

-- A subquery writes to a builder of its own, and to the same parameters; its text is appended.
unfoldable pub append_query : Cmd (Option Params) Bytes → Cmd Rendering (Unit {0})
unfolding say
append_query to_sql =
    zoom (λ r. r.params) (λ r params. record r { params = params }) to_sql >>= λ subsql. text subsql
