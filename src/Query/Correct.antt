-- ===== src/Query/Correct.antt =====
-- `c_orm_query_to_sql` writes the script of its query.
use c_orm.Base.{
  ℕ, suc, ◌+◌, ◌-◌, ◌^◌, ◌≤◌, ◌<◌, ◌≡◌, refl, inl, inr, Bool, Option, some, List, length, arith,
  codes, ltb, ltb→le, Bool-cases,
}
use c_orm.Memory.{Error, Memory, machine}
use c_orm.Query.Ast.{Dialect, Node, Nodes, Query}
use c_orm.Query.Params.{Param, Params}
use c_orm.Query.Render.{word32}
use c_orm.Query.Clauses.{Clauses, no_clauses, Write}
use c_orm.Query.Sql.{limited, is_null, condition, render_node, keep, keep_all, to_sql}
use c_orm.Query.Script.{
  Script, written, values, within_depth, condition_of, script, note, note_all, query_script,
}
use c_orm.Query.Rules.{Bound, Renders, fail-Renders}
use c_orm.Query.Steps.{if-Renders, when-Renders}
use c_orm.Query.Values.{value-Renders, limits-Renders}
use c_orm.Query.Answers.{Answered, Answers, append-Renders, query-Answers, fail-Answers}
use c_orm.Query.Matches.{
  ConditionMatches, Matches, keep_join-Matches, ◌⊙◌, words, named, empty, alias-Renders,
  over-Renders, clauses-Renders,
}

module _ (max_depth : ℕ) (fits : max_depth < 2 ^ 32 - 1) (d : Dialect) (bind : Bool) where
  limited-Renders :
      (depth : ℕ) {c : Write} {s : Script}
      → (depth ≤ max_depth → Renders d bind c s)
      → Renders d bind (limited max_depth depth c) (within_depth max_depth depth s)
  limited-Renders depth renders = elim (Bool-cases (ltb max_depth depth)) [
    | inl deep ↦ rw deep (fail-Renders d bind Error.sql)
    | inr shallow ↦ rw shallow (renders (omega (arith, ltb→le)))
  ]

  condition-Matches :
      (node : Node) {c : Write} {s : Script}
      → Renders d bind c s
      → ConditionMatches d bind (some (condition node c)) (some (condition_of node s))
  condition-Matches node renders = elim (Bool-cases (is_null node)) [
    | inl null ↦ rw null tt
    | inr given ↦ rw given renders
  ]

  -- One level down.
  deeper : (depth : ℕ) → depth ≤ max_depth → word32 (depth + 1) ≡ suc depth
  deeper depth shallow = omega (arith, fits)

  no_clauses-Matches : Matches d bind no_clauses no_clauses
  no_clauses-Matches = record {
    wth = tt;
    sel = refl;
    frm = refl;
    joins = tt;
    whr = tt;
    grp = refl;
    hav = tt;
    uni = tt;
    ord = refl;
    lim = refl;
    off = refl;
  }

  mutual
    unfolding render_node script

    pub render_node-Renders :
        (node : Node) (depth : ℕ)
        → Renders d bind (render_node max_depth d node depth) (script max_depth bind node depth)
    render_node-Renders (Node.column name) depth = limited-Renders depth λ _. named name
    render_node-Renders (Node.literal v is_string) depth =
        limited-Renders depth λ _. value-Renders d bind v is_string
    render_node-Renders (Node.raw sql) depth = limited-Renders depth λ _. named sql
    render_node-Renders (Node.operator op left right) depth = limited-Renders depth λ shallow.
        rw (deeper depth shallow) (
          render_node-Renders left (suc depth)
          ⊙ words (codes " ")
          ⊙ named op
          ⊙ if-Renders d bind (is_null right) empty
              (words (codes " ") ⊙ render_node-Renders right (suc depth)))
    render_node-Renders (Node.group expr) depth = limited-Renders depth λ shallow.
        rw (deeper depth shallow)
          (words (codes "(") ⊙ render_node-Renders expr (suc depth) ⊙ words (codes ")"))
    render_node-Renders (Node.cast col type_name) depth = limited-Renders depth λ _.
        words (codes "CAST(")
        ⊙ named col
        ⊙ words (codes " AS ")
        ⊙ named type_name
        ⊙ words (codes ")")
    render_node-Renders (Node.function name args alias) depth =
        limited-Renders depth
          λ _. named name ⊙ words (codes "(") ⊙ named args ⊙ words (codes ")") ⊙ alias-Renders alias
    render_node-Renders (Node.between col low high is_string) depth =
        limited-Renders depth
          λ _. named col ⊙ words (codes " BETWEEN ") ⊙ limits-Renders d bind low high is_string
    render_node-Renders (Node.exists q is_not) depth = limited-Renders depth λ _.
        when-Renders d bind is_not (words (codes "NOT "))
        ⊙ words (codes "EXISTS (")
        ⊙ append-Renders d bind (to_sql-Answers q)
        ⊙ words (codes ")")
    render_node-Renders (Node.subquery q alias) depth = limited-Renders depth λ _.
        words (codes "(")
        ⊙ append-Renders d bind (to_sql-Answers q)
        ⊙ words (codes ")")
        ⊙ alias-Renders alias
    render_node-Renders (Node.window func_name partition_by order_by alias) depth =
        limited-Renders depth λ _.
          named func_name
          ⊙ words (codes " OVER (")
          ⊙ over-Renders partition_by order_by
          ⊙ words (codes ")")
          ⊙ alias-Renders alias
    render_node-Renders Node.null depth = limited-Renders depth λ _. empty
    render_node-Renders _ depth = limited-Renders depth λ _. empty

    -- A node takes the place of the one of its kind, and leaves the others.
    keep-Matches :
        (node : Node) (c : Clauses Write) (s : Clauses Script)
        → Matches d bind c s
        → Matches d bind (keep max_depth d node c) (note max_depth bind node s)
    keep-Matches (Node.select columns is_distinct) c s same = ground arith
    keep-Matches (Node.from table alias) c s same = ground arith
    keep-Matches (Node.where_ cond) c s same =
        let w = condition-Matches cond (render_node-Renders cond 0) in ground arith
    keep-Matches (Node.join type_str table on_condition) c s same = record {
      wth = same.wth;
      sel = same.sel;
      frm = same.frm;
      joins = keep_join-Matches d bind c.joins s.joins _ _ same.joins (record {
        type_str = refl;
        table = refl;
        on_condition = render_node-Renders on_condition 0;
      });
      whr = same.whr;
      grp = same.grp;
      hav = same.hav;
      uni = same.uni;
      ord = same.ord;
      lim = same.lim;
      off = same.off;
    }
    keep-Matches (Node.group_by columns) c s same = ground arith
    keep-Matches (Node.having cond) c s same =
        let w = condition-Matches cond (render_node-Renders cond 0) in ground arith
    keep-Matches (Node.order_by column is_desc) c s same = ground arith
    keep-Matches (Node.limit n) c s same = ground arith
    keep-Matches (Node.offset n) c s same = ground arith
    keep-Matches (Node.with_ alias q) c s same =
        let w = append-Renders d bind (to_sql-Answers q) in ground arith
    keep-Matches (Node.union is_all q) c s same =
        let w = append-Renders d bind (to_sql-Answers q) in ground arith
    keep-Matches _ c s same = same

    keep_all-Matches :
        (nodes : Nodes) (c : Clauses Write) (s : Clauses Script)
        → Matches d bind c s
        → Matches d bind (keep_all max_depth d nodes c) (note_all max_depth bind nodes s)
    keep_all-Matches Nodes.end c s same = same
    keep_all-Matches (Nodes.then_ node nodes) c s same =
        keep_all-Matches nodes _ _ (keep-Matches node c s same)

    pub to_sql-Answers :
        (q : Query) → Answers d bind (to_sql max_depth d q) (query_script max_depth bind q)
    to_sql-Answers Query.no_query = fail-Answers d bind Error.unknown
    to_sql-Answers (Query.query nodes) =
        query-Answers d bind _
          (clauses-Renders d bind _ _ (keep_all-Matches nodes _ _ no_clauses-Matches))

-- For a depth limit below 2 ^ 32 - 1, and where the text stays shorter than 2 ^ 63 bytes and the
-- values fewer than 2 ^ 32: `c_orm_query_to_sql` ends; it succeeds only where the script of the
-- query has no fault, with the text of the script as the statement, in which the placeholders are
-- numbered behind the values that were there, and, where values are bound, with the script's values
-- added to the parameters in the order of their placeholders; and it fails only with the error of
-- the script, which is C_ORM_ERROR_SQL where an expression is too deep and C_ORM_ERROR_UNKNOWN at a
-- string or a query that is NULL, or because the allocator has refused a request. The script binds
-- numbers like strings, writes LIMIT and OFFSET modulo 2 ^ 32, and holds the joins of the first 32
-- join nodes only.
pub to_sql-script :
    (max_depth : ℕ) (d : Dialect) (bind : Bool) (q : Query) (h : Memory) (params : Option Params)
    (vs : List Param)
    → max_depth < 2 ^ 32 - 1
    → Bound bind vs params
    → length (written d (length vs) (query_script max_depth bind q).pieces) < 2 ^ 63
    → length vs + length (values (query_script max_depth bind q).pieces) < 2 ^ 32
    → Answered d bind (query_script max_depth bind q) vs h (to_sql max_depth d q (machine h params))
to_sql-script max_depth d bind q h params vs fits bound room few =
    (to_sql-Answers max_depth fits d bind q).run h params vs bound room few
