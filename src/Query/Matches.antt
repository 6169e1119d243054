-- ===== src/Query/Matches.antt =====
-- What `c_orm_query_to_sql` keeps of the nodes, compared with the clauses of the script, and the
-- clauses as they are written.
use c_orm.Base.{
  ℕ, suc, ◌≡◌, refl, ap, inl, inr, Bool, true, Option, none, some, List, [], ◌∷◌, ◌++◌, arith,
  Bytes, codes, length, take, take-short, take-full, ltb, ltb→lt, ltb→le, if◌then◌else◌, Bool-cases,
}
use c_orm.Base.Decimal.{decimal}
use c_orm.Memory.{◌>>◌, pure}
use c_orm.Query.Ast.{Dialect}
use c_orm.Query.Render.{say, is_given, as_alias, over, word32}
use c_orm.Query.Clauses.{
  Join, Clauses, keep_join, max_joins, Write, write_with, write_select, write_from, write_join,
  write_joins, write_condition, write_group, write_union, write_order, write_number, write_clauses,
}
use c_orm.Query.Script.{
  Script, ◌⊕◌, nothing, has_text, lit, opt, alias_of, over_of, with_script, select_script,
  from_script, join_script, joins_script, condition_script, group_script, union_script,
  order_script, number_script, statement,
}
use c_orm.Query.Rules.{Renders, then-Renders, nothing-Renders}
use c_orm.Query.Steps.{text-Renders, say-Renders, when-Renders}

is_given-has_text : (o : Option Bytes) → is_given o ≡ has_text o
is_given-has_text none = refl
is_given-has_text (some []) = refl
is_given-has_text (some (c ∷ s)) =
    let more : ltb 0 (length (c ∷ s)) ≡ true = ground arith in rw more refl

-- The rules, as they are put together.
module _ {d : Dialect} {bind : Bool} where
  infixr 6 ◌⊙◌
  pub ◌⊙◌ :
      {c e : Write} {s u : Script}
      → Renders d bind c s
      → Renders d bind e u
      → Renders d bind (c >> e) (s ⊕ u)
  first ⊙ second = then-Renders d bind first second

  pub words : (s : Bytes) → Renders d bind (say (some s)) (lit s)
  words = text-Renders d bind

  pub named : (s : Option Bytes) → Renders d bind (say s) (opt s)
  named = say-Renders d bind

  pub empty : Renders d bind (pure tt) nothing
  empty = nothing-Renders d bind

  pub alias-Renders : (alias : Option Bytes) → Renders d bind (as_alias alias) (alias_of alias)
  alias-Renders alias =
      rw (is_given-has_text alias)
        (when-Renders d bind (has_text alias) (words (codes " AS ") ⊙ named alias))

  pub over-Renders :
      (partition_by order_by : Option Bytes)
      → Renders d bind (over partition_by order_by) (over_of partition_by order_by)
  over-Renders partition_by order_by =
      rw (is_given-has_text partition_by, is_given-has_text order_by)
        (when-Renders d bind (has_text partition_by) (
            words (codes "PARTITION BY ")
            ⊙ named partition_by
            ⊙ when-Renders d bind (has_text order_by) (words (codes " ")))
          ⊙ when-Renders d bind (has_text order_by) (words (codes "ORDER BY ") ⊙ named order_by))

module _ (d : Dialect) (bind : Bool) where
  -- What is kept of the nodes, as commands and as scripts.
  abbrev pub WithMatches : Option (Option Bytes × Write) → Option (Option Bytes × Script) → Type 0
  WithMatches none none = Unit
  WithMatches (some (a, c)) (some (b, s)) = (a ≡ b) × Renders d bind c s
  WithMatches _ _ = ⊥

  abbrev pub UnionMatches : Option (Bool × Write) → Option (Bool × Script) → Type 0
  UnionMatches none none = Unit
  UnionMatches (some (a, c)) (some (b, s)) = (a ≡ b) × Renders d bind c s
  UnionMatches _ _ = ⊥

  abbrev pub ConditionMatches : Option (Option Write) → Option (Option Script) → Type 0
  ConditionMatches none none = Unit
  ConditionMatches (some none) (some none) = Unit
  ConditionMatches (some (some c)) (some (some s)) = Renders d bind c s
  ConditionMatches _ _ = ⊥

  pub record JoinMatches (j : Join Write) (k : Join Script) : Type 0 where
    pub type_str : j.type_str ≡ k.type_str
    pub table : j.table ≡ k.table
    pub on_condition : Renders d bind j.on_condition k.on_condition

  abbrev pub JoinsMatch : List (Join Write) → List (Join Script) → Type 0
  JoinsMatch [] [] = Unit
  JoinsMatch (j ∷ js) (k ∷ ks) = JoinMatches j k × JoinsMatch js ks
  JoinsMatch _ _ = ⊥

  pub record Matches (c : Clauses Write) (s : Clauses Script) : Type 0 where
    pub wth : WithMatches c.wth s.wth
    pub sel : c.sel ≡ s.sel
    pub frm : c.frm ≡ s.frm
    pub joins : JoinsMatch c.joins (take max_joins s.joins)
    pub whr : ConditionMatches c.whr s.whr
    pub grp : c.grp ≡ s.grp
    pub hav : ConditionMatches c.hav s.hav
    pub uni : UnionMatches c.uni s.uni
    pub ord : c.ord ≡ s.ord
    pub lim : c.lim ≡ s.lim
    pub off : c.off ≡ s.off

  JoinsMatch-length :
      (js : List (Join Write)) (ks : List (Join Script)) → JoinsMatch js ks → length js ≡ length ks
  JoinsMatch-length [] [] same = refl
  JoinsMatch-length (j ∷ js) (k ∷ ks) (_, same) = ap suc (JoinsMatch-length js ks same)
  JoinsMatch-length [] (k ∷ ks) bad = absurd bad
  JoinsMatch-length (j ∷ js) [] bad = absurd bad

  JoinsMatch-append :
      (js : List (Join Write)) (ks : List (Join Script)) (j : Join Write) (k : Join Script)
      → JoinsMatch js ks
      → JoinMatches j k
      → JoinsMatch (js ++ (j ∷ [])) (ks ++ (k ∷ []))
  JoinsMatch-append [] [] j k same last = (last, tt)
  JoinsMatch-append (j' ∷ js) (k' ∷ ks) j k (first, same) last =
      (first, JoinsMatch-append js ks j k same last)
  JoinsMatch-append [] (k' ∷ ks) j k bad last = absurd bad
  JoinsMatch-append (j' ∷ js) [] j k bad last = absurd bad

  pub keep_join-Matches :
      (js : List (Join Write)) (ks : List (Join Script)) (j : Join Write) (k : Join Script)
      → JoinsMatch js (take max_joins ks)
      → JoinMatches j k
      → JoinsMatch (keep_join j js) (take max_joins (ks ++ (k ∷ [])))
  keep_join-Matches js ks j k same last =
      let n = JoinsMatch-length js (take max_joins ks) same in
      elim (Bool-cases (ltb (length js) max_joins)) [
        | inl free ↦
            rw (free, take-short max_joins ks k (omega (arith, ltb→lt, n)))
              (JoinsMatch-append js (take max_joins ks) j k same last)
        | inr full ↦ rw (full, take-full max_joins ks k (omega (arith, ltb→le, n))) same
      ]

  with-Renders :
      (a : Option (Option Bytes × Write)) (b : Option (Option Bytes × Script))
      → WithMatches a b
      → Renders d bind (write_with a) (with_script b)
  with-Renders none none same = empty
  with-Renders (some (x, c)) (some (y, s)) (e, renders) =
      rw e (words (codes "WITH ") ⊙ named y ⊙ words (codes " AS (") ⊙ renders ⊙ words (codes ") "))
  with-Renders none (some (y, s)) bad = absurd bad
  with-Renders (some (x, c)) none bad = absurd bad

  select-Renders :
      (a : Option (Option Bytes × Bool)) → Renders d bind (write_select a) (select_script a)
  select-Renders none = empty
  select-Renders (some (columns, is_distinct)) =
      words (codes "SELECT ")
      ⊙ when-Renders d bind is_distinct (words (codes "DISTINCT "))
      ⊙ named columns

  from-Renders :
      (a : Option (Option Bytes × Option Bytes)) → Renders d bind (write_from a) (from_script a)
  from-Renders none = empty
  from-Renders (some (table, alias)) = words (codes " FROM ") ⊙ named table ⊙ alias-Renders alias

  join-Renders :
      (j : Join Write) (k : Join Script)
      → JoinMatches j k
      → Renders d bind (write_join j) (join_script k)
  join-Renders j k same =
      rw (same.type_str, same.table)
        (words (codes " ")
          ⊙ named k.type_str
          ⊙ words (codes " JOIN ")
          ⊙ named k.table
          ⊙ words (codes " ON ")
          ⊙ same.on_condition)

  joins-Renders :
      (js : List (Join Write)) (ks : List (Join Script))
      → JoinsMatch js ks
      → Renders d bind (write_joins js) (joins_script ks)
  unfolding write_joins joins_script
  joins-Renders [] [] same = empty
  joins-Renders (j ∷ js) (k ∷ ks) (first, same) = joins-Renders js ks same ⊙ join-Renders j k first
  joins-Renders [] (k ∷ ks) bad = absurd bad
  joins-Renders (j ∷ js) [] bad = absurd bad

  condition-Renders :
      (keyword : Bytes) (a : Option (Option Write)) (b : Option (Option Script))
      → ConditionMatches a b
      → Renders d bind (write_condition keyword a) (condition_script keyword b)
  condition-Renders keyword none none same = empty
  condition-Renders keyword (some none) (some none) same = empty
  condition-Renders keyword (some (some c)) (some (some s)) renders = words keyword ⊙ renders
  condition-Renders keyword none (some b) bad = absurd bad
  condition-Renders keyword (some none) none bad = absurd bad
  condition-Renders keyword (some (some c)) none bad = absurd bad
  condition-Renders keyword (some none) (some (some s)) bad = absurd bad
  condition-Renders keyword (some (some c)) (some none) bad = absurd bad

  group-Renders : (a : Option (Option Bytes)) → Renders d bind (write_group a) (group_script a)
  group-Renders none = empty
  group-Renders (some columns) = words (codes " GROUP BY ") ⊙ named columns

  union-Renders :
      (a : Option (Bool × Write)) (b : Option (Bool × Script))
      → UnionMatches a b
      → Renders d bind (write_union a) (union_script b)
  union-Renders none none same = empty
  union-Renders (some (x, c)) (some (y, s)) (e, renders) = rw e (words _ ⊙ renders)
  union-Renders none (some (y, s)) bad = absurd bad
  union-Renders (some (x, c)) none bad = absurd bad

  order-Renders :
      (a : Option (Option Bytes × Bool)) → Renders d bind (write_order a) (order_script a)
  order-Renders none = empty
  order-Renders (some (column, is_desc)) =
      words (codes " ORDER BY ")
      ⊙ named column
      ⊙ words (if is_desc then codes " DESC" else codes " ASC")

  number-Renders :
      (keyword : Bytes) (a : Option ℕ)
      → Renders d bind (write_number keyword a) (number_script keyword a)
  number-Renders keyword none = empty
  number-Renders keyword (some n) = words (keyword ++ decimal (word32 n))

  pub clauses-Renders :
      (c : Clauses Write) (s : Clauses Script)
      → Matches c s
      → Renders d bind (write_clauses c) (statement s)
  unfolding write_clauses statement
  clauses-Renders c s same =
      rw (same.sel, same.frm, same.grp, same.ord, same.lim, same.off)
        (with-Renders c.wth s.wth same.wth
          ⊙ select-Renders s.sel
          ⊙ from-Renders s.frm
          ⊙ joins-Renders c.joins (take max_joins s.joins) same.joins
          ⊙ condition-Renders (codes " WHERE ") c.whr s.whr same.whr
          ⊙ group-Renders s.grp
          ⊙ condition-Renders (codes " HAVING ") c.hav s.hav same.hav
          ⊙ union-Renders c.uni s.uni same.uni
          ⊙ order-Renders s.ord
          ⊙ number-Renders (codes " LIMIT ") s.lim
          ⊙ number-Renders (codes " OFFSET ") s.off)
