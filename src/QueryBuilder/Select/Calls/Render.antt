-- ===== src/QueryBuilder/Select/Calls/Render.antt =====
-- The text that a sequence of clause calls of src/c_orm_query_builder.c writes, and the statement
-- that it stands for.
use c_orm.Base.{
  zero, suc, ◌^◌, ◌<◌, ◌≡◌, ap, sym, Bool, true, false, Option, some, List, [], ◌∷◌, ◌++◌,
  append_assoc, arith, Bytes, codes, length, length-append,
}
use c_orm.Base.Decimal.{decimal}
use c_orm.Memory.{Error, Machine, Cmd, handle}
use c_orm.Memory.Gives.{Gives, Gives-bind}
use c_orm.Meta.{TableMeta, Schema}
use c_orm.StringBuilder.Emits.{Emits, Emits-then, Emits-pure, handle-Emits, view_at, frame_at}
use c_orm.StringBuilder.Gives.{Emits-Gives}
use c_orm.QueryBuilder.Select
use c_orm.QueryBuilder.Select.{
  SelectBuilder, on_text, emit, connective, on_column, append_where, append_in,
}
use c_orm.QueryBuilder.Select.Clauses.{
  Frame, text_of, frame_of, Clause, emit-Clause, conjunct, where-Clause, in-Clause, group-Clause,
  having-Clause, order-Clause,
}
use c_orm.QueryBuilder.Select.Ends.{Stands, head, init-Stands, compile-Stands}
use c_orm.QueryBuilder.Select.Exists.{where_relation}
use c_orm.QueryBuilder.Select.Exists.Relation.{relation-Clause}
use c_orm.QueryBuilder.Select.Calls.{
  Comparison, eq, Call, compare_column, call, run_calls, select_sql, Meaning, Meanings,
  operator_text, filters, orders, call_text, calls_text, statement,
}

-- A command on the builder behind a handle.
abbrev pub CallClause : Cmd (Option SelectBuilder) (Unit {0}) → Frame → Bytes → Frame → Type 0
CallClause c f s g =
    Emits (view_at text_of frame_of) (frame_at text_of frame_of) c (some f) s (some g)

through :
    {c : Cmd SelectBuilder (Unit {0})} {f g : Frame} {s : Bytes}
    → Clause c f s g
    → CallClause (handle Error.unknown c) f s g
through = handle-Emits text_of frame_of Error.unknown

module _ (tables : Schema) (table : TableMeta) where
  compare-Clause :
      (c : Comparison) (column : Bytes) (w o : Bool)
      → CallClause
          (compare_column c (some column))
          (table, w, o)
          (conjunct w ++ (column ++ operator_text c))
          (table, true, o)
  unfolding compare_column Select.where_eq Select.where_neq Select.where_lt Select.where_gt
      Select.where_lte Select.where_gte Select.where_gt_current_timestamp
      Select.where_lt_current_timestamp Select.where_like Select.where_between Select.where_ilike
  compare-Clause eq column w o = through (where-Clause table w o (codes " = ?") column)
  compare-Clause c column w o = through (where-Clause table w o (operator_text c) column)

  call-Clause :
      (c : Call) (m : Meaning tables table c) (w o : Bool)
      → CallClause
          (call tables c)
          (table, w, o)
          (call_text tables table c m w o)
          (table, filters c w, orders c o)
  unfolding call Select.where_in Select.group_by Select.having Select.order_by Select.limit
      Select.offset where_relation
  call-Clause (Call.where_column c column) m w o = compare-Clause c column w o
  call-Clause (Call.where_in column zero) m w o = absurd (omega arith)
  call-Clause (Call.where_in column (suc n)) m w o = through (in-Clause table w o n column)
  call-Clause (Call.where_relation path op) (r, res, wired) w o =
      through (relation-Clause tables table w o op res wired)
  call-Clause (Call.group_by column) m w o = through (group-Clause table _ column)
  call-Clause (Call.having clause) m w o = through (having-Clause table _ clause)
  call-Clause (Call.order_by column desc) m w o = through (order-Clause table w o desc column)
  call-Clause (Call.limit n) m w o = through (emit-Clause _ (codes " LIMIT " ++ decimal n))
  call-Clause (Call.offset n) m w o = through (emit-Clause _ (codes " OFFSET " ++ decimal n))

  calls-Clause :
      (cs : List Call) (ms : Meanings tables table cs) (w o : Bool)
      → (g : Frame) × CallClause
          (run_calls tables cs)
          (table, w, o)
          (calls_text tables table cs ms w o)
          g
  unfolding run_calls
  calls-Clause [] ms w o = ((table, w, o), Emits-pure _ _ _)
  calls-Clause (c ∷ cs) (m, ms) w o =
      let (g, rest) = calls-Clause cs ms (filters c w) (orders c o) in
      (g, Emits-then _ _ (call-Clause c m w o) rest)

  -- For any sequence of calls that have a meaning, and any allocator, the client gets exactly the
  -- SQL of the statement, or the allocator has refused a request; every call ends. The statement
  -- is to be shorter than 2 ^ 63 bytes.
  pub select_sql-statement :
      (cs : List Call) (ms : Meanings tables table cs) (m : Machine (Option SelectBuilder))
      → length (statement tables table cs ms) < 2 ^ 63
      → Gives (λ sql _. sql ≡ statement tables table cs ms) m.memory (select_sql tables table cs m)
  unfolding select_sql
  select_sql-statement cs ms m room =
      let first = head table.name in
      let rest = calls_text tables table cs ms false false in
      let whole : statement tables table cs ms ≡ first ++ rest =
        sym (append_assoc (codes "SELECT * FROM ") table.name rest) in
      let size = length-append first rest in
      let size' = length-append (codes "SELECT * FROM ") table.name in
      let (g, clause) = calls-Clause cs ms false false in
      let Built = λ (_ : Unit {0}) (o : Option SelectBuilder). Stands (first ++ rest) g o in
      let Done = λ (sql : Bytes) (_ : Option SelectBuilder). sql ≡ first ++ rest in
      rw whole (
        Gives-bind (λ _ o. Stands first (table, false, false) o) Done m.memory
          (Select.init (some table) m) _ (init-Stands table m (omega (arith, ap length whole)))
          λ _ m' stands.
            Gives-bind Built Done m'.memory (run_calls tables cs m') _
              (Emits-Gives _ _ m' first clause stands.0 stands.1 (omega (arith, ap length whole)))
              λ _ m'' built. compile-Stands (first ++ rest) g m'' built)
