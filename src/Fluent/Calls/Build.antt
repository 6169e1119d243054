-- ===== src/Fluent/Calls/Build.antt =====
-- The calls of the fluent interface build the nodes that they stand for.
use c_orm.Base.{
  ◌+◌, ◌≤◌, ◌≡◌, refl, inl, inr, Bool, true, false, Option, none, some, [], ◌∷◌, Bytes, codes,
  length, arith, ◌==◌, if◌then◌else◌, Bool-cases,
}
use c_orm.Memory.{Memory, Machine, machine, Outcome, ok, err, stuck, Cmd, ◌>>◌, pure}
use c_orm.StringBuilder.{word}
use c_orm.Arena.{Arena}
use c_orm.Arena.Bounds.{AllSound}
use c_orm.Query.Ast.{Node, Nodes, Query}
use c_orm.Fluent.{Builder, on_query, from_arena, new_node}
use c_orm.Fluent.Expressions
use c_orm.Fluent.Expressions.{
  attempt, or_null, or_none, quote, count_quotes, double_quotes, escape_string, escape_literal,
  escape_untested, compare_with,
}
use c_orm.Fluent.Calls.{
  Comparison, eq, neq, gt, lt, Expr, comparison, build, with_doubled, escaped, symbol, test,
  node_of,
}
use c_orm.Fluent.Sure.{
  Generous, Sure, Ready, Does, Builds, bind-Leads, pure-Leads, on_query-Builds, from_arena-Does,
  served, IsShort, copy_from-Does, IsNode, new_node-Does,
}

-- The strings that the arena keeps a copy of are shorter than 2 ^ 61 bytes.
abbrev pub ExprFits : Expr → Type 0
ExprFits (Expr.col name) = IsShort name
ExprFits (Expr.lit val is_string) = IsShort val
ExprFits (Expr.raw sql) = IsShort sql
ExprFits (Expr.compare c column val is_string) = IsShort column × IsShort val
ExprFits (Expr.like column val) = IsShort column × IsShort val
ExprFits (Expr.in_list column val_list) = IsShort column × IsShort val_list
ExprFits (Expr.op name l r) = ExprFits l × ExprFits r
ExprFits (Expr.group e) = ExprFits e
ExprFits (Expr.is_null column is_not) = IsShort column
ExprFits (Expr.between column low high is_string) = IsShort low × IsShort high
ExprFits _ = Unit

tried :
    (a : Node) (ns : Nodes) (r : Outcome (Machine (Option Builder)) Node)
    → Sure (λ x o. (x ≡ a) × Ready ns o) r
    → Sure (λ x o. (x ≡ a) × Ready ns o) (or_null r)
tried a ns (ok x m) sure = sure
tried a ns (err e m) bad = absurd bad
tried a ns stuck bad = bad

attempt-Builds :
    {c : Cmd (Option Builder) Node} {ns ns' : Nodes} {a : Node}
    → Builds c ns a ns'
    → Builds (attempt c) ns a ns'
attempt-Builds {c} {ns} {ns'} {a} builds = record {
  run = λ m generous ready. tried a ns' (c m) (builds.run m generous ready);
}

pub count_quotes-le : (s : Bytes) → count_quotes s ≤ length s
unfolding count_quotes
count_quotes-le [] = omega arith
count_quotes-le (c ∷ s) = ground (arith, count_quotes-le s)

pub double_quotes-none : (s : Bytes) → count_quotes s ≡ 0 → double_quotes s ≡ s
unfolding count_quotes double_quotes
double_quotes-none [] none_there = refl
double_quotes-none (c ∷ s) none_there = ground (arith, double_quotes-none s)

pub double_quotes-with_doubled : (s : Bytes) → double_quotes s ≡ with_doubled s
unfolding double_quotes with_doubled
double_quotes-with_doubled [] = refl
double_quotes-with_doubled (c ∷ s) = elim (Bool-cases (c == quote)) [
  | inl hit ↦ rw (hit, double_quotes-with_doubled s) refl
  | inr miss ↦ rw (miss, double_quotes-with_doubled s) refl
]

-- The escaped value, in memory from the arena where it differs from the value.
escape_literal-Sure :
    (val : Option Bytes) (blocks : Arena) (h : Memory)
    → IsShort val
    → AllSound blocks
    → Generous h
    → Sure
        (λ x blocks'. (x ≡ escaped true val) × AllSound blocks')
        (escape_literal val (machine h blocks))
unfolding escape_literal escape_string
escape_literal-Sure none blocks h short sound generous = ((refl, sound), generous)
escape_literal-Sure (some val) blocks h short sound generous =
    elim (Bool-cases (count_quotes val == 0)) [
      | inl plain ↦
          let same = double_quotes-none val (ground arith) in
          rw (plain, ← double_quotes-with_doubled val, same) ((refl, sound), generous)
      | inr quotes ↦
          let size : word (length val + count_quotes val + 1) ≡ length val + count_quotes val + 1 =
            omega (arith, count_quotes-le val, short) in
          rw (quotes, size, ← double_quotes-with_doubled val)
            (served (some (double_quotes val)) (length val + count_quotes val + 1) blocks h
              (omega arith) (omega (arith, count_quotes-le val, short)) sound generous)
    ]

escape-Does :
    (val : Option Bytes) (ns : Nodes)
    → IsShort val
    → Does (from_arena (escape_literal val)) ns (escaped true val) ns
escape-Does val ns short =
    from_arena-Does _
      λ blocks h sound generous. escape_literal-Sure val blocks h short sound generous

escaped_tried :
    (a : Option Bytes) (r : Outcome (Machine Arena) (Option Bytes))
    → Sure (λ x blocks. (x ≡ a) × AllSound blocks) r
    → Sure (λ x blocks. (x ≡ a) × AllSound blocks) (or_none r)
escaped_tried a (ok x m) sure = sure
escaped_tried a (err e m) bad = absurd bad
escaped_tried a stuck bad = bad

untested-Does :
    (val : Option Bytes) (ns : Nodes)
    → IsShort val
    → Does (escape_untested val) ns (escaped true val) ns
unfolding escape_untested
untested-Does val ns short =
    from_arena-Does (λ m. or_none (escape_literal val m))
      λ blocks h sound generous.
        escaped_tried (escaped true val) (escape_literal val (machine h blocks))
          (escape_literal-Sure val blocks h short sound generous)

-- A step that gives nothing but a state.
module _ {A B : Type 0} {ns ns₁ ns' : Nodes} {b : B} where
  pub then-Does :
      {c : Cmd Builder A} {a : A} {d : Cmd Builder B}
      → Does c ns a ns₁
      → Does d ns₁ b ns'
      → Does (c >> d) ns b ns'
  then-Does {c} {a} {d} first second = bind-Leads (λ _. d) first second

  pub then-Builds :
      {c : Cmd (Option Builder) A} {a : A} {d : Cmd (Option Builder) B}
      → Builds c ns a ns₁
      → Builds d ns₁ b ns'
      → Builds (c >> d) ns b ns'
  then-Builds {c} {a} {d} first second = bind-Leads (λ _. d) first second

-- A value, escaped where it is a string.
value-Does :
    (is_string : Bool) (val : Option Bytes) (ns : Nodes) (c : Cmd Builder (Option Bytes))
    → Does c ns (escaped true val) ns
    → Does (if is_string then c else pure val) ns (escaped is_string val) ns
value-Does true val ns c does = does
value-Does false val ns c does = pure-Leads val ns

lit-Builds :
    (val : Option Bytes) (is_string : Bool) (ns : Nodes)
    → IsShort val
    → Builds (Expressions.lit val is_string) ns (Node.literal (escaped is_string val) is_string) ns
unfolding Expressions.lit
lit-Builds val is_string ns short = on_query-Builds (
    bind-Leads _ (new_node-Does (Node.literal val is_string) ns tt) (
      bind-Leads _
        (value-Does is_string val ns (from_arena (escape_literal val)) (escape-Does val ns short))
        (pure-Leads _ ns)))

col-Builds :
    (name : Option Bytes) (ns : Nodes)
    → IsShort name
    → Builds (Expressions.col name) ns (Node.column name) ns
unfolding Expressions.col
col-Builds name ns short =
    on_query-Builds
      (bind-Leads _ (copy_from-Does name ns short) (new_node-Does (Node.column name) ns tt))

raw-Builds :
    (sql : Option Bytes) (ns : Nodes)
    → IsShort sql
    → Builds (Expressions.raw sql) ns (Node.raw sql) ns
unfolding Expressions.raw
raw-Builds sql ns short =
    on_query-Builds
      (bind-Leads _ (copy_from-Does sql ns short) (new_node-Does (Node.raw sql) ns tt))

-- A node with its fields as they are given.
node-Builds :
    (node : Node) (ns : Nodes) → IsNode node → Builds (on_query (new_node node)) ns node ns
node-Builds node ns is_node = on_query-Builds (new_node-Does node ns is_node)

op-Builds :
    (name : Option Bytes) (l r : Node) (ns : Nodes)
    → Builds (Expressions.op name l r) ns (Node.operator name l r) ns
unfolding Expressions.op
op-Builds name l r ns = node-Builds (Node.operator name l r) ns tt

compare-Builds :
    (name : Bytes) (column val : Option Bytes) (is_string : Bool) (ns : Nodes)
    → IsShort column
    → IsShort val
    → Builds
        (compare_with name column val is_string)
        ns
        (test name column (Node.literal (escaped is_string val) is_string))
        ns
unfolding compare_with
compare-Builds name column val is_string ns short_column short_val =
    bind-Leads _ (attempt-Builds (col-Builds column ns short_column)) (
      bind-Leads _ (attempt-Builds (lit-Builds val is_string ns short_val))
        (op-Builds (some name) _ _ ns))

comparison-Builds :
    (c : Comparison) (column val : Option Bytes) (is_string : Bool) (ns : Nodes)
    → IsShort column
    → IsShort val
    → Builds
        (comparison c column val is_string)
        ns
        (test (symbol c) column (Node.literal (escaped is_string val) is_string))
        ns
unfolding Expressions.eq Expressions.neq Expressions.gt Expressions.lt
comparison-Builds eq column val is_string ns = compare-Builds (codes "=") column val is_string ns
comparison-Builds neq column val is_string ns = compare-Builds (codes "!=") column val is_string ns
comparison-Builds gt column val is_string ns = compare-Builds (codes ">") column val is_string ns
comparison-Builds lt column val is_string ns = compare-Builds (codes "<") column val is_string ns

-- With enough memory the calls of an expression give its node, and leave the query as it was.
pub build-Builds : (e : Expr) (ns : Nodes) → ExprFits e → Builds (build e) ns (node_of e) ns
unfolding build node_of Expressions.like Expressions.in_list Expressions.group Expressions.func
    Expressions.cast Expressions.window Expressions.exists Expressions.subquery Expressions.is_null
    Expressions.between
build-Builds (Expr.col name) ns fits = col-Builds name ns fits
build-Builds (Expr.lit val is_string) ns fits = lit-Builds val is_string ns fits
build-Builds (Expr.raw sql) ns fits = raw-Builds sql ns fits
build-Builds (Expr.compare c column val is_string) ns (short_column, short_val) =
    comparison-Builds c column val is_string ns short_column short_val
build-Builds (Expr.like column val) ns (short_column, short_val) =
    compare-Builds (codes "LIKE") column val true ns short_column short_val
build-Builds (Expr.in_list column val_list) ns (short_column, short_list) =
    bind-Leads _ (attempt-Builds (col-Builds column ns short_column)) (
      bind-Leads _ (attempt-Builds (raw-Builds val_list ns short_list))
        (op-Builds (some (codes "IN")) _ _ ns))
build-Builds (Expr.op name l r) ns (fits_l, fits_r) =
    bind-Leads _ (build-Builds l ns fits_l)
      (bind-Leads _ (build-Builds r ns fits_r) (op-Builds name _ _ ns))
build-Builds (Expr.group e) ns fits =
    bind-Leads _ (build-Builds e ns fits) (node-Builds (Node.group (node_of e)) ns tt)
build-Builds (Expr.is_null column is_not) ns fits =
    bind-Leads _ (node-Builds (Node.operator (some _) Node.null Node.null) ns tt)
      (bind-Leads _ (attempt-Builds (col-Builds column ns fits)) (pure-Leads _ ns))
build-Builds (Expr.between column low high is_string) ns (short_low, short_high) = on_query-Builds (
    bind-Leads _ (new_node-Does (Node.between column low high is_string) ns tt) (
      bind-Leads _
        (value-Does is_string low ns (escape_untested low) (untested-Does low ns short_low))
        (bind-Leads _
          (value-Does is_string high ns (escape_untested high) (untested-Does high ns short_high))
          (pure-Leads _ ns))))
build-Builds (Expr.func name args alias) ns fits = node-Builds (Node.function name args alias) ns tt
build-Builds (Expr.cast column type_name) ns fits = node-Builds (Node.cast column type_name) ns tt
build-Builds (Expr.window func_name partition_by order_by alias) ns fits =
    node-Builds (Node.window func_name partition_by order_by alias) ns tt
build-Builds (Expr.exists q is_not) ns fits =
    on_query-Builds
      (then-Does (pure-Leads tt ns) (new_node-Does (Node.exists (Query.query q) is_not) ns tt))
build-Builds (Expr.subquery q alias) ns fits =
    on_query-Builds
      (then-Does (pure-Leads tt ns) (new_node-Does (Node.subquery (Query.query q) alias) ns tt))
