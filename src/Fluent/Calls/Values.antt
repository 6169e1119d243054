-- ===== src/Fluent/Calls/Values.antt =====
-- What a string that is compared with a column becomes as a parameter.
use c_orm.Base.{
  ◌+◌, ◌^◌, ◌≤◌, ◌<◌, ◌≡◌, ◌≢◌, refl, ap, true, Option, none, some, List, [], ◌∷◌, Bytes, codes,
  length, length-append, arith,
}
use c_orm.Base.Decimal.{decimal}
use c_orm.Memory.{Memory, Machine, machine, Outcome, ok, err, stuck}
use c_orm.Query.Ast.{Dialect, sqlite, postgres, mysql, Nodes, Query}
use c_orm.Query.Params.{Param, Params}
use c_orm.Query.Script.{written, values, statement, query_script}
use c_orm.Query.Rules.{Bound}
use c_orm.Fluent.Expressions.{count_quotes, double_quotes}
use c_orm.Fluent.Calls.Build.{double_quotes-with_doubled}
use c_orm.Fluent.Escape.{double_quotes-length}
use c_orm.Fluent.Sure.{Generous, Sure}
use c_orm.Fluent.Calls.{eq, Expr, Call, with_doubled, node_of, after_all, fluent_sql}
use c_orm.Fluent.Calls.Statement.{States, fluent_sql-States}

-- The values that a driver is handed.
abbrev pub each_value : List Param → List (Option Bytes)
each_value [] = []
each_value (v ∷ vs) = v.value ∷ each_value vs

abbrev pub bound_values : Option Params → List (Option Bytes)
bound_values none = []
bound_values (some p) = each_value p.params

abbrev pub no_params : Params
no_params = record { params = []; count = 0; capacity = 0 }

-- `q->where(q, eq(column, val, 1))`
abbrev pub comparing : Bytes → Bytes → List Call
comparing column val = Call.where_ (Expr.compare eq (some column) (some val) true) ∷ []

statement-length :
    (d : Dialect) (column val : Bytes)
    → length (
        written d 0
          (query_script 100 true (Query.query (after_all (comparing column val) Nodes.end))).pieces)
      ≤ length column + 12
unfolding written query_script statement after_all node_of decimal
statement-length sqlite column val = omega (arith, length-append column (codes " = ?"))
statement-length postgres column val = omega (arith, length-append column (codes " = $1"))
statement-length mysql column val = omega (arith, length-append column (codes " = ?"))

-- A value with a quote is not its escaped text.
escaped-differs : (val : Bytes) → 0 < count_quotes val → double_quotes val ≢ val
escaped-differs val quotes same = omega (arith, double_quotes-length val, ap length same)

-- What a driver is handed, for a string whose escaped text is another.
abbrev pub IsHanded : Bytes → Option Params → Type 0
IsHanded val params =
    (bound_values params ≡ some (double_quotes val) ∷ []) × (bound_values params ≢ some val ∷ [])

Bound-IsHanded :
    (val : Bytes) (params : Option Params)
    → 0 < count_quotes val
    → Bound true (record { value = some (with_doubled val); is_string = true } ∷ []) params
    → IsHanded val params
Bound-IsHanded val none quotes bad = absurd bad
Bound-IsHanded val (some p) quotes (good, values) =
    let handed : each_value p.params ≡ some (double_quotes val) ∷ [] =
      rw (double_quotes-with_doubled val) (ap each_value values) in
    (handed, λ same. escaped-differs val quotes cc)

States-IsHanded :
    (d : Dialect) (column val : Bytes) (r : Outcome (Machine (Option Params)) Bytes)
    → 0 < count_quotes val
    → Sure
        (States 100 d true []
          (query_script 100 true (Query.query (after_all (comparing column val) Nodes.end))))
        r
    → Sure (λ sql params. IsHanded val params) r
unfolding query_script statement after_all node_of values
States-IsHanded d column val (ok sql m) quotes ((text, bound), generous) =
    (Bound-IsHanded val m.object quotes bound, generous)
States-IsHanded d column val (err e m) quotes bad = bad
States-IsHanded d column val stuck quotes bad = bad

comparing-States :
    (d : Dialect) (column val : Bytes) (h : Memory)
    → Generous h
    → length column < 2 ^ 61
    → length val < 2 ^ 61
    → Sure
        (States 100 d true []
          (query_script 100 true (Query.query (after_all (comparing column val) Nodes.end))))
        (fluent_sql 100 d (comparing column val) (machine h (some no_params)))
unfolding query_script statement after_all node_of values
comparing-States d column val h generous short_column short_val =
    fluent_sql-States 100 d true [] (comparing column val) h (some no_params) (omega arith) generous
      ((short_column, short_val), tt)
      (record { count = refl; fits = omega arith; tight = omega arith }, refl) refl
      (omega (arith, statement-length d column val)) (omega arith)

-- While the allocator meets every request: where a string with a quote is compared with a column,
-- and values are bound as parameters, the one value that a driver is handed is not that string, but
-- the string with its quotes doubled, which only a literal in the text has to have.
pub comparing-differs :
    (d : Dialect) (column val : Bytes) (h : Memory)
    → Generous h
    → length column < 2 ^ 61
    → length val < 2 ^ 61
    → 0 < count_quotes val
    → Sure
        (λ sql params. IsHanded val params)
        (fluent_sql 100 d (comparing column val) (machine h (some no_params)))
comparing-differs d column val h generous short_column short_val quotes =
    States-IsHanded d column val _ quotes
      (comparing-States d column val h generous short_column short_val)
