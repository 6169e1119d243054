-- ===== src/Sql/Parser/Safe/Table.antt =====
-- How far `sql_parse_table` of src/c_orm_sql.c reads.
use c_orm.Base.{ℕ, zero, suc, ◌*◌, ◌≤◌, ◌<◌, refl, none, some, List, [], ◌∷◌, ◌++◌, length, arith}
use c_orm.Memory.{Error, Machine, ◌>>=◌, pure}
use c_orm.Sql.Token.{Token}
use c_orm.Sql.Ast.{Constraint, Table, Parser}
use c_orm.Sql.Parser.Table.{
  enlarge, inline_constraints, column_definition, one_constraint, with_column, with_constraint,
  element, elements, heading, statement, parse_table,
}
use c_orm.Sql.Parser.Safe.{Sound, Post, Runs, Safe}
use c_orm.Sql.Parser.Safe.Steps.{peek-Runs, alloc-Runs, fail-Runs}
use c_orm.Sql.Parser.Safe.Rules.{branch, result, step, kind_test, text, need}
use c_orm.Sql.Parser.Safe.Types.{Below, data_type-Runs}
use c_orm.Sql.Parser.Safe.Constraint.{
  Parsed, keyword-Runs, ask-Safe, column_constraint-Runs, table_constraint-Runs,
}

enlarge-Safe : (count capacity n : ℕ) → Safe n (enlarge count capacity)
unfolding enlarge
enlarge-Safe count capacity n =
    branch _
      (alloc-Runs n _ (Below n) _ λ granted.
        branch granted (result {a = capacity * 2} λ n' le. le) (fail-Runs n _ Error.memory))
      (result {a = capacity} λ n' le. le)

-- The loop over the constraints of a column ends: every round takes a token.
inline_constraints-Runs :
    (fuel capacity : ℕ) (cs : List Constraint) (n N : ℕ)
    → n ≤ N
    → n < fuel
    → Runs n (Below N) (inline_constraints fuel capacity cs)
unfolding inline_constraints
inline_constraints-Runs zero capacity cs n N below room = absurd (omega arith)
inline_constraints-Runs (suc fuel) capacity cs n N below room =
    step _ (peek-Runs n) λ tok n1 (le1, _). branch _ (result λ n' le. omega arith) (
      step _ (column_constraint-Runs n1 n1 (omega arith)) λ parsed n2.
        elim parsed
          as (λ o.
            Parsed n1 o n2
            → Runs {A = List Constraint} n2 (Below N) (elim o [
              | none ↦ pure cs
              | some c ↦ enlarge (length cs) capacity >>= λ capacity'.
                  inline_constraints fuel capacity' (cs ++ (c ∷ []))
            ])) [
              | none ↦ λ le2. result {n = n2} {Q = Below N} {a = cs} λ n' le. omega arith
              | some c ↦ λ less2. step _ (enlarge-Safe _ _ n2) λ capacity' n3 le3.
                  inline_constraints-Runs fuel capacity' (cs ++ (c ∷ [])) n3 N (omega arith)
                    (omega arith)
            ])

column-Runs :
    (fuel count n N : ℕ) → n ≤ N → n < fuel → Runs n (λ _ n'. n' < N) (column_definition fuel count)
unfolding column_definition
column-Runs fuel count n N below room = need _ _ _ refl λ t n1 less1 _ _. text _ _ _ λ s n2 le2.
    step _ (data_type-Runs n2 n2 (omega arith)) λ typed n3 le3. step _ (ask-Safe _ _ n3) λ _ n4 le4.
      step _ (inline_constraints-Runs fuel 2 [] n4 n4 (omega arith) (omega arith))
        λ cs n5 le5. step _ (ask-Safe _ _ n5) λ _ n6 le6. result λ n' le. omega arith

element-Runs :
    (fuel : ℕ) (tok : Token) (table : Table) (n N : ℕ)
    → n ≤ N
    → n < fuel
    → Runs n (λ _ n'. n' < N) (element fuel tok table)
unfolding element one_constraint
element-Runs fuel tok table n N below room =
    branch _
      (step (λ c. pure (with_constraint table c))
        (step _ (table_constraint-Runs fuel n n (omega arith) room) λ c n1 less1.
          step _ (ask-Safe _ _ n1)
            λ _ n2 le2. result {Q = λ _ n'. n' < N} {a = c} λ n' le. omega arith)
        λ c n3 less3. result λ n' le. omega arith)
      (step (λ c. pure (with_column table c)) (column-Runs fuel _ n n (omega arith) room)
        λ c n1 less1. result λ n' le. omega arith)

-- The loop over the columns and constraints of a table ends: every round takes a token.
elements-Runs :
    (fuel : ℕ) (table : Table) (n N : ℕ) → n ≤ N → n < fuel → Runs n (Below N) (elements fuel table)
unfolding elements
elements-Runs zero table n N below room = absurd (omega arith)
elements-Runs (suc fuel) table n N below room = step _ (peek-Runs n) λ tok n1 (le1, _).
    branch _ (result λ n' le. omega arith) (
      step _ (element-Runs (suc fuel) tok table n1 n1 (omega arith) (omega arith))
        λ table' n2 less2.
          kind_test _ _ refl
            (λ c n3 less3 _ _. elements-Runs fuel table' n3 N (omega arith) (omega arith))
            λ n3 le3. result λ n' le. omega arith)

heading-Runs : (n N : ℕ) → n ≤ N → Runs n (Below N) heading
unfolding heading
heading-Runs n N below = step _ (keyword-Runs _ _ n n (omega arith)) λ _ n1 less1.
    step _ (keyword-Runs _ _ n1 n1 (omega arith)) λ _ n2 less2. need _ _ _ refl λ t n3 less3 _ _.
      step _ (ask-Safe _ _ n3) λ _ n4 le4.
        text _ _ _ λ s n5 le5. need _ _ _ refl λ open' n6 less6 _ _. result λ n' le. omega arith

statement-Runs : (fuel n N : ℕ) → n ≤ N → n < fuel → Runs n (λ _ n'. n' < N) (statement fuel)
unfolding statement
statement-Runs fuel n N below room = step _ (heading-Runs n n (omega arith)) λ name n1 le1.
    step _ (elements-Runs fuel _ n1 n1 (omega arith) (omega arith)) λ table n2 le2.
      need _ _ _ refl λ close n3 less3 _ _.
        kind_test _ _ refl (λ t n4 less4 _ _. result {a = table} λ n' le. omega arith)
          λ n4 le4. result {a = table} λ n' le. omega arith

-- On tokens that hold an end token, with numbers before it that an `int` can hold, the parser ends
-- in a table or an error, for any allocator and any countdown: its loops end, it reads no token
-- behind the end token, and no arithmetic is undefined. A table has taken at least one token, and
-- leaves the end token.
pub parse_table-ends :
    (m : Machine Parser)
    → Sound m.object.rest
    → Post (λ _ n. n < length m.object.rest) (parse_table m)
unfolding parse_table
parse_table-ends m sound =
    let n = length m.object.rest in
    (statement-Runs (suc n) n n (omega arith) (omega arith)).run m sound (omega arith)
