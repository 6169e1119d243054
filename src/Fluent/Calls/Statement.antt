-- ===== src/Fluent/Calls/Statement.antt =====
-- From the calls of the fluent interface to the statement.
use c_orm.Base.{
  ℕ, ◌+◌, ◌-◌, ◌^◌, ◌<◌, ◌≡◌, refl, sym, subst, inl, inr, Bool, true, Option, none, some, List,
  ◌++◌, Bytes, length, arith,
}
use c_orm.Memory.{Memory, Machine, machine, Outcome, ok, err, stuck, and_then, keep}
use c_orm.Query.Ast.{Dialect, Nodes, Query}
use c_orm.Query.Params.{Param, Params}
use c_orm.Query.Sql.{to_sql}
use c_orm.Query.Script.{Script, written, values, query_script}
use c_orm.Query.Rules.{Bound}
use c_orm.Query.Answers.{Answered}
use c_orm.Query.Correct.{to_sql-script}
use c_orm.Fluent.{Builder, query_new, to_query}
use c_orm.Fluent.Sure.{Generous, Generous-Grows, Sure, Ready}
use c_orm.Fluent.Calls.{Call, apply_all, after_all, fluent_sql}
use c_orm.Fluent.Calls.Render.{CallsFit, apply_all-Builds}

query_new-Ready :
    (h : Memory) → Generous h → Sure (λ _ o. Ready Nodes.end o) (query_new (machine h none))
unfolding query_new
query_new-Ready h generous =
    let first : h.grants h.calls 320 ≡ true = generous h.calls 320 (omega arith) in
    let second : h.grants (h.calls + 1) 8 ≡ true = generous (h.calls + 1) 8 (omega arith) in
    rw (first, second) ((tt, refl, refl), λ n size late. generous n size (omega (arith, late)))

called :
    (calls : List Call) (r : Outcome (Machine (Option Builder)) (Unit {0}))
    → CallsFit calls
    → Sure (λ _ o. Ready Nodes.end o) r
    → Sure (λ _ o. Ready (after_all calls Nodes.end) o) (and_then r (λ _. apply_all calls))
called calls (ok x m) fits (ready, generous) =
    made (apply_all calls m) ((apply_all-Builds calls Nodes.end fits).run m generous ready)
  where
    made :
        (r : Outcome (Machine (Option Builder)) (Unit {0}))
        → Sure (λ y o. (y ≡ tt) × Ready (after_all calls Nodes.end) o) r
        → Sure (λ _ o. Ready (after_all calls Nodes.end) o) r
    made (ok y m') ((e, ready'), generous') = (ready', generous')
    made (err e m') bad = bad
    made stuck bad = bad
called calls (err e m) fits bad = absurd bad
called calls stuck fits bad = absurd bad

module _ (max_depth : ℕ) (d : Dialect) (bind : Bool) (vs : List Param) where
  -- The statement of the script, and the values behind those that were there.
  abbrev pub States : Script → Bytes → Option Params → Type 0
  States s sql params =
      (sql ≡ written d (length vs) s.pieces) × Bound bind (vs ++ values s.pieces) params

  Answered-States :
      (s : Script) (h : Memory) (r : Outcome (Machine (Option Params)) Bytes)
      → s.fault ≡ none
      → Generous h
      → Answered d bind s vs h r
      → Sure (States s) r
  Answered-States s h (ok sql m) whole generous (e, text, bound, g) =
      ((text, bound), Generous-Grows h m.memory g generous)
  Answered-States s h (err e m) whole generous (inl fault) = cc
  Answered-States s h (err e m) whole generous (inr (n, size, late, refused)) =
      let met = generous n size late in cc
  Answered-States s h stuck whole generous bad = bad

  rendered :
      (ns : Nodes) (params : Option Params) (r : Outcome (Machine (Option Builder)) (Unit {0}))
      → max_depth < 2 ^ 32 - 1
      → (query_script max_depth bind (Query.query ns)).fault ≡ none
      → Bound bind vs params
      → length (written d (length vs) (query_script max_depth bind (Query.query ns)).pieces)
        < 2 ^ 63
      → length vs + length (values (query_script max_depth bind (Query.query ns)).pieces) < 2 ^ 32
      → Sure (λ _ o. Ready ns o) r
      → Sure
          (States (query_script max_depth bind (Query.query ns)))
          (and_then (keep params r) (λ q. to_sql max_depth d (to_query q)))
  rendered ns params (ok x m) fits whole bound room few (ready, generous) =
      from m.object m.memory ready generous
    where
      from :
          (o : Option Builder) (h : Memory)
          → Ready ns o
          → Generous h
          → Sure
              (States (query_script max_depth bind (Query.query ns)))
              (to_sql max_depth d (to_query o) (machine h params))
      from none h bad generous' = absurd bad
      from (some q) h (sound, flag, head) generous' =
          subst
            (λ (z : Nodes).
              Sure (States (query_script max_depth bind (Query.query ns)))
                (to_sql max_depth d (Query.query z) (machine h params)))
            (sym head)
            (Answered-States (query_script max_depth bind (Query.query ns)) h
              (to_sql max_depth d (Query.query ns) (machine h params)) whole generous'
              (to_sql-script max_depth d bind (Query.query ns) h params vs fits bound room few))
  rendered ns params (err e m) fits whole bound room few bad = absurd bad
  rendered ns params stuck fits whole bound room few bad = absurd bad

  -- While the allocator meets every request, and where the copied strings are shorter than 2 ^ 61
  -- bytes, the depth limit is below 2 ^ 32 - 1, the text shorter than 2 ^ 63 bytes and the values
  -- fewer than 2 ^ 32: if the nodes that a sequence of calls of the fluent interface stands for have
  -- a script without a fault, then a new query, those calls and `c_orm_query_to_sql` give the text
  -- of that script, and its values, where values are bound, are added to the parameters. The script
  -- binds numbers like strings, writes LIMIT and OFFSET modulo 2 ^ 32, and holds the joins of the
  -- last 32 join calls only.
  pub fluent_sql-States :
      (calls : List Call) (h : Memory) (params : Option Params)
      → max_depth < 2 ^ 32 - 1
      → Generous h
      → CallsFit calls
      → Bound bind vs params
      → (query_script max_depth bind (Query.query (after_all calls Nodes.end))).fault ≡ none
      → length (
          written d
            (length vs)
            (query_script max_depth bind (Query.query (after_all calls Nodes.end))).pieces)
        < 2 ^ 63
      → length vs
          + length (
              values (query_script max_depth bind (Query.query (after_all calls Nodes.end))).pieces)
        < 2 ^ 32
      → Sure
          (States (query_script max_depth bind (Query.query (after_all calls Nodes.end))))
          (fluent_sql max_depth d calls (machine h params))
  unfolding fluent_sql
  fluent_sql-States calls h params fits generous short bound whole room few =
      rendered (after_all calls Nodes.end) params _ fits whole bound room few
        (called calls (query_new (machine h none)) short (query_new-Ready h generous))
