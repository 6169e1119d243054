-- ===== src/Fluent/Errors.antt =====
-- What the calls of the fluent interface do once a call has failed.
use c_orm.Base.{◌≡◌, refl, Bool, true, Option, some, Bytes, codes}
use c_orm.Memory.{Error, Memory, Machine, machine, Outcome, err, Cmd, ◌>>=◌}
use c_orm.Query.Ast.{Node}
use c_orm.Fluent.{Builder, on_query}
use c_orm.Fluent.Expressions
use c_orm.Fluent.Expressions.{attempt, compare_with}
use c_orm.Fluent.Methods
use c_orm.Fluent.Methods.{
  connect, extend_where, combined, write_where, distinct_with, select_columns, mark_selected,
  first_where, set_where, mark_distinct,
}
use c_orm.Fluent.Calls.{Comparison, eq, neq, gt, lt, Expr, build, comparison, Call, apply}

-- The query is there, and its error flag is set.
module _ (h : Memory) (q : Builder) (failed : q.error ≡ true) where
  abbrev refusal : {A : Type 0} → Outcome (Machine (Option Builder)) A
  refusal = err Error.unknown (machine h (some q))

  record Refuses {A : Type 0} (c : Cmd (Option Builder) A) : Type 0 where
    run : c (machine h (some q)) ≡ refusal

  called : {A : Type 0} (c : Cmd Builder A) → Refuses (on_query c)
  unfolding on_query
  called c = record { run = simp failed refl }

  module _ {A B : Type 0} where
    -- The first call is refused, and its result tested.
    first :
        {c : Cmd (Option Builder) A} (k : A → Cmd (Option Builder) B)
        → Refuses c
        → Refuses (c >>= k)
    first k refused = record { run = rw refused.run refl }

  -- The first call is refused, and its result not tested.
  untested :
      {B : Type 0} {c : Cmd (Option Builder) Node} (k : Node → Cmd (Option Builder) B)
      → Refuses c
      → Refuses (k Node.null)
      → Refuses (attempt c >>= k)
  untested k refused next = record { run = rw refused.run next.run }

  compare-Refuses :
      (name : Bytes) (column val : Option Bytes) (is_string : Bool)
      → Refuses (compare_with name column val is_string)
  unfolding compare_with Expressions.col Expressions.lit Expressions.op
  compare-Refuses name column val is_string =
      untested _ (called _) (untested _ (called _) (called _))

  comparison-Refuses :
      (c : Comparison) (column val : Option Bytes) (is_string : Bool)
      → Refuses (comparison c column val is_string)
  unfolding Expressions.eq Expressions.neq Expressions.gt Expressions.lt
  comparison-Refuses eq column val is_string = compare-Refuses (codes "=") column val is_string
  comparison-Refuses neq column val is_string = compare-Refuses (codes "!=") column val is_string
  comparison-Refuses gt column val is_string = compare-Refuses (codes ">") column val is_string
  comparison-Refuses lt column val is_string = compare-Refuses (codes "<") column val is_string

  build-Refuses : (e : Expr) → Refuses (build e)
  unfolding build Expressions.col Expressions.lit Expressions.raw Expressions.like
      Expressions.in_list Expressions.op Expressions.group Expressions.is_null Expressions.between
      Expressions.func Expressions.cast Expressions.window Expressions.exists Expressions.subquery
  build-Refuses (Expr.col name) = called _
  build-Refuses (Expr.lit val is_string) = called _
  build-Refuses (Expr.raw sql) = called _
  build-Refuses (Expr.compare c column val is_string) = comparison-Refuses c column val is_string
  build-Refuses (Expr.like column val) = compare-Refuses (codes "LIKE") column val true
  build-Refuses (Expr.in_list column val_list) =
      untested _ (called _) (untested _ (called _) (called _))
  build-Refuses (Expr.op name l r) = first _ (build-Refuses l)
  build-Refuses (Expr.group e) = first _ (build-Refuses e)
  build-Refuses (Expr.is_null column is_not) = first _ (called _)
  build-Refuses (Expr.between column low high is_string) = called _
  build-Refuses (Expr.func name args alias) = called _
  build-Refuses (Expr.cast column type_name) = called _
  build-Refuses (Expr.window func_name partition_by order_by alias) = called _
  build-Refuses (Expr.exists q' is_not) = called _
  build-Refuses (Expr.subquery q' alias) = called _

  apply-Refuses : (call : Call) → Refuses (apply call)
  unfolding apply Methods.select Methods.from Methods.group_by Methods.from_alias Methods.where_
      Methods.having Methods.order_by Methods.limit Methods.offset Methods.left_join
      Methods.right_join Methods.with_ Methods.union Methods.distinct
  apply-Refuses (Call.select columns) = called _
  apply-Refuses (Call.from table) = called _
  apply-Refuses (Call.group_by columns) = called _
  apply-Refuses (Call.from_alias table alias) = called _
  apply-Refuses (Call.where_ e) = first _ (build-Refuses e)
  apply-Refuses (Call.having e) = first _ (build-Refuses e)
  apply-Refuses (Call.connect c e) = first _ (build-Refuses e)
  apply-Refuses (Call.order_by column is_desc) = called _
  apply-Refuses (Call.limit n) = called _
  apply-Refuses (Call.offset n) = called _
  apply-Refuses (Call.join table type_str e) = first _ (build-Refuses e)
  apply-Refuses (Call.left_join table e) = first _ (build-Refuses e)
  apply-Refuses (Call.right_join table e) = first _ (build-Refuses e)
  apply-Refuses (Call.with_ alias q') = called _
  apply-Refuses (Call.union q' is_all) = called _
  apply-Refuses Call.distinct = called _

  pub apply-refusal :
      (call : Call) → apply call (machine h (some q)) ≡ err Error.unknown (machine h (some q))
  apply-refusal call = (apply-Refuses call).run
