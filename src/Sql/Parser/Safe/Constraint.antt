-- ===== src/Sql/Parser/Safe/Constraint.antt =====
-- How far the parser of src/c_orm_sql.c reads for the constraints of columns and of tables.
use c_orm.Base.{
  ℕ, zero, suc, ◌≤◌, ◌<◌, refl, true, false, Option, none, some, List, [], ◌∷◌, ◌++◌, Bytes, subst,
  arith, if◌then◌else◌,
}
use c_orm.Memory.{◌>>=◌, pure}
use c_orm.Sql.Token.{keyword, Token}
use c_orm.Sql.Ast.{ConstraintType, Constraint, primary_key, foreign_key, not_null}
use c_orm.Sql.Parser.{set_error}
use c_orm.Sql.Parser.Constraint.{
  plain, require_keyword, ask, default_token, default_constraint, referenced_column, maybe_column,
  references, tried_references, tried_default, tried_unique, tried_not, column_constraint,
  foreign_type, unique_type, constraint_type, column_names, table_references, table_constraint,
}
use c_orm.Sql.Parser.Safe.{Runs, Matched, match_kind-Runs, Safe}
use c_orm.Sql.Parser.Safe.Steps.{expect-Runs, set_error-Runs, require-Runs, alloc-Runs}
use c_orm.Sql.Parser.Safe.Rules.{
  branch, result, step, keyword_test, test, kind_test, text, need, weaker,
}
use c_orm.Sql.Parser.Safe.Types.{Below}

pub keyword-Runs :
    (kw msg : Bytes) (n N : ℕ) → n ≤ N → Runs n (λ _ n'. n' < N) (require_keyword kw msg)
unfolding require_keyword
keyword-Runs kw msg n N below =
    keyword_test _ _ (λ n1 less. weaker (require-Runs n1 msg true) λ _ n' (le, _). omega arith)
      (λ n1 le. weaker (require-Runs n1 msg false) λ _ n' (le', never). cc)

pub ask-Safe : (size : ℕ) (msg : Bytes) (n : ℕ) → Safe n (ask size msg)
unfolding ask
ask-Safe size msg n =
    alloc-Runs n size (Below n) (λ granted. if granted then pure tt else set_error msg)
      λ granted. branch granted (result λ n' le. le) (set_error-Runs n _ _)

-- What a constraint, or none, leaves of the tokens.
abbrev pub Parsed : {A : Type 0} → ℕ → Option A → ℕ → Type 0
Parsed N none n' = n' ≤ N
Parsed N (some c) n' = n' < N

default_token-Runs : (n N : ℕ) → n ≤ N → Runs n (Parsed N) default_token
unfolding default_token
default_token-Runs n N below =
    kind_test _ _ refl (λ t n1 less _ _. result λ n' le. omega arith)
      λ n1 le1.
        kind_test _ _ refl (λ t n2 less _ _. result λ n' le. omega arith)
          λ n2 le2.
            kind_test _ _ refl (λ t n3 less _ _. result λ n' le. omega arith)
              λ n3 le3. weaker (match_kind-Runs n3 keyword refl) λ o n'.
                elim o as (λ f. Matched n3 keyword f n' → Parsed N f n') [
                  | none ↦ λ le. omega arith
                  | some t ↦ λ (less, _, _). omega arith
                ]

found-below : {A : Type 0} (N : ℕ) (o : Option A) (n' : ℕ) → Parsed N o n' → n' ≤ N
found-below N none n' le = le
found-below N (some a) n' less = omega arith

default-Runs : (n N : ℕ) → n ≤ N → Runs n (λ _ n'. n' < N) default_constraint
unfolding default_constraint
default-Runs n N below = step _ (default_token-Runs n N below) λ o n1 parsed.
    expect-Runs n1 _ _ o _ λ t same.
      let less : n1 < N = subst (λ f. Parsed N f n1) same parsed in
      text _ _ _ λ s n2 le. result λ n' le'. omega arith

column-Runs :
    (oom : Bytes) (o : Option Token) (n N : ℕ) → n ≤ N → Runs n (Below N) (maybe_column oom o)
unfolding maybe_column referenced_column
column-Runs oom none n N below = result λ n' le. omega arith
column-Runs oom (some t) n N below =
    step _
      (need _ _ _ refl λ u n1 less _ _. text _ _ _ λ s n2 le.
        need _ _ _ refl
          λ close n3 less' _ _. result {Q = λ _ n'. n' ≤ N} {a = s} λ n' le'. omega arith)
      λ s n1 le. result λ n' le'. omega arith

references-Runs : (a b : Bytes) (n N : ℕ) → n ≤ N → Runs n (λ _ n'. n' < N) (references a b)
unfolding references
references-Runs a b n N below = need _ _ _ refl λ t n1 less _ _. text _ _ _ λ s n2 le2.
    let made : Option Bytes → Constraint =
      λ c. record (plain foreign_key) { reference_table = some s; reference_column = c } in
    let end : (o : Option Token) (n3 : ℕ)
        → n3 ≤ n2
        → Runs n3 (λ _ n'. n' < N) (maybe_column b o >>= λ c. pure (made c)) =
      λ o n3 le3.
        step (λ c. pure (made c)) (column-Runs b o n3 n3 (omega arith))
          λ c n4 le4. result λ n' le. omega arith in
    kind_test _ _ refl (λ open' n3 less3 _ _. end (some open') n3 (omega arith)) (end none)

tried_references-Runs : (n N : ℕ) → n ≤ N → Runs n (Parsed N) tried_references
unfolding tried_references
tried_references-Runs n N below =
    keyword_test _ _
      (λ n1 less.
        step (λ c. pure (some c)) (references-Runs _ _ n1 n1 (omega arith))
          λ c n2 less2. result λ n' le. omega arith)
      λ n1 le1. result λ n' le. omega arith

tried_default-Runs : (n N : ℕ) → n ≤ N → Runs n (Parsed N) tried_default
unfolding tried_default
tried_default-Runs n N below =
    keyword_test _ _
      (λ n1 less.
        step (λ c. pure (some c)) (default-Runs n1 n1 (omega arith))
          λ c n2 less2. result λ n' le. omega arith)
      λ n1 le1. tried_references-Runs n1 N (omega arith)

tried_not-Runs : (n N : ℕ) → n ≤ N → Runs n (Parsed N) tried_not
unfolding tried_not tried_unique
tried_not-Runs n N below =
    keyword_test _ _
      (λ n1 less.
        step _ (keyword-Runs _ _ n1 n1 (omega arith))
          λ c n2 less2. result {a = some (plain not_null)} λ n' le. omega arith)
      λ n1 le1.
        keyword_test _ _ (λ n2 less. result λ n' le. omega arith)
          λ n2 le2. tried_default-Runs n2 N (omega arith)

-- A constraint that is found has taken a token.
pub column_constraint-Runs : (n N : ℕ) → n ≤ N → Runs n (Parsed N) column_constraint
unfolding column_constraint
column_constraint-Runs n N below =
    keyword_test _ _
      (λ n1 less.
        step _ (keyword-Runs _ _ n1 n1 (omega arith))
          λ c n2 less2. result {a = some (plain primary_key)} λ n' le. omega arith)
      λ n1 le1. tried_not-Runs n1 N (omega arith)

constraint_type-Runs : (n N : ℕ) → n ≤ N → Runs n (λ _ n'. n' < N) constraint_type
unfolding constraint_type unique_type foreign_type
constraint_type-Runs n N below =
    keyword_test _ _
      (λ n1 less.
        step _ (keyword-Runs _ _ n1 n1 (omega arith))
          λ c n2 less2. result {a = primary_key} λ n' le. omega arith)
      λ n1 le1.
        keyword_test _ _ (λ n2 less. result λ n' le. omega arith)
          λ n2 le2. test _ _ λ f n3 le3.
            step _ (keyword-Runs _ _ n3 n3 (omega arith))
              λ c n4 less4. result {a = foreign_key} λ n' le. omega arith

-- The loop over the columns ends: every round takes a token.
column_names-Runs :
    (fuel : ℕ) (names : List Bytes) (n N : ℕ)
    → n ≤ N
    → n < fuel
    → Runs n (Below N) (column_names fuel names)
unfolding column_names
column_names-Runs zero names n N below room = absurd (omega arith)
column_names-Runs (suc fuel) names n N below room = need _ _ _ refl λ t n1 less _ _.
    step _ (ask-Safe _ _ n1) λ _ n2 le2. text _ _ _ λ s n3 le3.
      kind_test _ _ refl
        (λ c n4 less4 _ _.
          column_names-Runs fuel (names ++ (s ∷ [])) n4 N (omega arith) (omega arith))
        λ n4 le4. result λ n' le. omega arith

table_references-Runs :
    (k : ConstraintType) (names : List Bytes) (n N : ℕ)
    → n ≤ N
    → Runs n (Below N) (table_references k names)
unfolding table_references
table_references-Runs foreign_key names n N below =
    step _ (keyword-Runs _ _ n n (omega arith)) λ _ n1 less.
      step (λ c. pure (record c { columns = names })) (references-Runs _ _ n1 n1 (omega arith))
        λ c n2 less2. result λ n' le. omega arith
table_references-Runs k names n N below = result λ n' le. omega arith

pub table_constraint-Runs :
    (fuel n N : ℕ) → n ≤ N → n < fuel → Runs n (λ _ n'. n' < N) (table_constraint fuel)
unfolding table_constraint
table_constraint-Runs fuel n N below room =
    step _ (constraint_type-Runs n n (omega arith)) λ k n1 less1.
      need _ _ _ refl λ open' n2 less2 _ _.
        step _ (column_names-Runs fuel [] n2 n2 (omega arith) (omega arith)) λ names n3 le3.
          need _ _ _ refl λ close n4 less4 _ _.
            weaker (table_references-Runs k names n4 n4 (omega arith)) λ c n' le. omega arith
