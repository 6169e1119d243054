-- ===== src/Fluent/Lost.antt =====
-- How a condition is lost where `and_where` or `or_where` of src/c_orm_query_fluent.c has no memory.
use c_orm.Base.{
  ℕ, ◌+◌, ◌-◌, ◌^◌, ◌<◌, ◌≡◌, refl, Bool, true, false, Option, none, some, List, length,
}
use c_orm.Memory.{Error, Memory, Machine, machine, Outcome, ok, err, stuck}
use c_orm.Arena.{Arena, alloc_from}
use c_orm.Query.Ast.{Dialect, Node, Nodes, Query}
use c_orm.Query.Params.{Param, Params}
use c_orm.Query.Clauses.{Clauses, no_clauses}
use c_orm.Query.Sql
use c_orm.Query.Sql.{to_sql}
use c_orm.Query.Script.{Script, written, values, statement, note, note_all, query_script}
use c_orm.Query.Rules.{Bound}
use c_orm.Query.Answers.{Answered}
use c_orm.Query.Correct.{to_sql-script}
use c_orm.Fluent.{Builder, on_query, from_arena, new_node, to_query}
use c_orm.Fluent.Methods
use c_orm.Fluent.Methods.{connect, extend_where, combined, write_where, first_where, set_where}
use c_orm.Fluent.Calls.{Connective, and, or, connective}

-- The error flag is set.
abbrev pub IsFlagged : Option Builder → Type 0
IsFlagged none = ⊥
IsFlagged (some q) = q.error ≡ true

-- The nodes without the first WHERE node.
unfoldable pub unconditioned : Nodes → Nodes
unconditioned Nodes.end = Nodes.end
unconditioned (Nodes.then_ (Node.where_ condition) ns) = ns
unconditioned (Nodes.then_ node ns) = Nodes.then_ node (unconditioned ns)

module _ (max_depth : ℕ) (bind : Bool) where
  -- A WHERE node without a condition says what no WHERE node says.
  blank :
      (ns : Nodes) (s : Clauses Script)
      → statement (note_all max_depth bind ns (record s { whr = some none }))
        ≡ statement (note_all max_depth bind ns (record s { whr = none }))
  unfolding note_all statement
  blank Nodes.end s = refl
  blank (Nodes.then_ (Node.where_ condition) ns) s = refl
  blank (Nodes.then_ node ns) s = blank ns (note max_depth bind node s)

  set_where-unconditioned :
      (ns : Nodes) (s : Clauses Script)
      → statement (note_all max_depth bind (set_where Node.null ns) (record s { whr = none }))
        ≡ statement (note_all max_depth bind (unconditioned ns) (record s { whr = none }))
  unfolding note_all set_where unconditioned
  set_where-unconditioned Nodes.end s = refl
  set_where-unconditioned (Nodes.then_ (Node.where_ condition) ns) s = blank ns s
  set_where-unconditioned (Nodes.then_ node ns) s =
      set_where-unconditioned ns (note max_depth bind node s)

  lost-script :
      (ns : Nodes)
      → query_script max_depth bind (Query.query (set_where Node.null ns))
        ≡ query_script max_depth bind (Query.query (unconditioned ns))
  unfolding query_script
  lost-script ns = set_where-unconditioned ns no_clauses

module _ (max_depth : ℕ) (d : Dialect) (bind : Bool) (params : Option Params) (vs : List Param)
    (h'' : Memory) where
  -- C_ORM_ERROR_MEMORY, a query with its error flag set, and a statement of these nodes.
  abbrev pub Loses : Nodes → Outcome (Machine (Option Builder)) (Unit {0}) → Type 0
  Loses ns (ok x m) = ⊥
  Loses ns (err e m) =
      (e ≡ Error.memory)
      × IsFlagged m.object
      × Answered d bind (query_script max_depth bind (Query.query ns)) vs h''
          (to_sql max_depth d (to_query m.object) (machine h'' params))
  Loses ns stuck = ⊥

  lost :
      (ns : Nodes) (arena : Arena) (h : Memory)
      → max_depth < 2 ^ 32 - 1
      → Bound bind vs params
      → length (
          written d
            (length vs)
            (query_script max_depth bind (Query.query (unconditioned ns))).pieces)
        < 2 ^ 63
      → length vs
          + length (values (query_script max_depth bind (Query.query (unconditioned ns))).pieces)
        < 2 ^ 32
      → Loses (unconditioned ns) (
          err Error.memory (
            machine h
              (some (record { arena = arena; ast_head = set_where Node.null ns; error = true }))))
  lost ns arena h fits bound room few =
      let same = lost-script max_depth bind ns in
      (
        refl,
        refl,
        rw same at (
            to_sql-script max_depth d bind (Query.query (set_where Node.null ns)) h'' params vs fits
              bound (rw same room) (rw same few)),
      )

  -- On a query without an error that has a WHERE condition, where the arena has no memory for the
  -- operator node, `and_where` and `or_where` fail with C_ORM_ERROR_MEMORY and set the error flag;
  -- but `c_orm_query_to_sql` does not look at the flag, and then writes, within the limits of its
  -- sizes, the statement of the query without its WHERE node: the condition that was there is lost.
  pub connective-Loses :
      (c : Connective) (condition old : Node) (arena arena' : Arena) (ns : Nodes) (h h' : Memory)
      (e : Error)
      → Sql.is_null condition ≡ false
      → first_where ns ≡ some old
      → Sql.is_null old ≡ false
      → alloc_from 40 (machine h arena) ≡ err e (machine h' arena')
      → max_depth < 2 ^ 32 - 1
      → Bound bind vs params
      → length (
          written d
            (length vs)
            (query_script max_depth bind (Query.query (unconditioned ns))).pieces)
        < 2 ^ 63
      → length vs
          + length (values (query_script max_depth bind (Query.query (unconditioned ns))).pieces)
        < 2 ^ 32
      → Loses (unconditioned ns) (
          connective c condition
            (machine h (some (record { arena = arena; ast_head = ns; error = false }))))
  unfolding Methods.and_where Methods.or_where connect on_query extend_where combined write_where
      new_node from_arena
  connective-Loses and condition old arena arena' ns h h' e given found there refused fits bound
        room few =
      rw (given, found, there, refused) (lost ns arena' h' fits bound room few)
  connective-Loses or condition old arena arena' ns h h' e given found there refused fits bound room
        few =
      rw (given, found, there, refused) (lost ns arena' h' fits bound room few)
