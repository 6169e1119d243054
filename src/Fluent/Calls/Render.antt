-- ===== src/Fluent/Calls/Render.antt =====
-- What the calls of the fluent interface come to, and the statement that they give.
use c_orm.Base.{
  ap, ◌∙◌, ◌≡◌, refl, sym, subst, inl, inr, true, false, Option, none, some, List, [], ◌∷◌, Bytes,
  codes, arith, Bool-cases,
}
use c_orm.Memory.{Machine, Outcome, ok, err, stuck, Cmd, get, ◌>>=◌}
use c_orm.Query.Ast.{Node, Nodes, Query}
use c_orm.Query.Sql
use c_orm.Query.Sql.{to_sql}
use c_orm.Fluent.{Builder, on_query, new_node}
use c_orm.Fluent.Methods
use c_orm.Fluent.Methods.{
  add_node, select_columns, first_where, set_where, write_where, combined, extend_where, connect,
  mark_distinct, mark_head, mark_selected, distinct_with,
}
use c_orm.Fluent.Sure.{
  Sure, Holds, Does, Builds, bind-Leads, pure-Leads, on_query-Builds, IsShort, copy_from-Does,
  IsNode, new_node-Does, prepend-Does,
}
use c_orm.Fluent.Calls.{
  Expr, node_of, Call, Connective, and, or, connective, connective_name, connected, change_first,
  keep_head, conjunction, conjoined, made_distinct, or_new, apply, apply_all, after, after_all,
}
use c_orm.Fluent.Calls.Build.{ExprFits, then-Does, then-Builds, build-Builds}

-- The strings that the arena keeps a copy of are shorter than 2 ^ 61 bytes.
abbrev pub CallFits : Call → Type 0
CallFits (Call.select columns) = IsShort columns
CallFits (Call.from table) = IsShort table
CallFits (Call.where_ e) = ExprFits e
CallFits (Call.having e) = ExprFits e
CallFits (Call.connect c e) = ExprFits e
CallFits (Call.order_by column is_desc) = IsShort column
CallFits (Call.join table type_str e) = IsShort table × IsShort type_str × ExprFits e
CallFits (Call.left_join table e) = IsShort table × ExprFits e
CallFits (Call.right_join table e) = IsShort table × ExprFits e
CallFits _ = Unit

abbrev pub CallsFit : List Call → Type 0
CallsFit [] = Unit
CallsFit (call ∷ calls) = CallFits call × CallsFit calls

add_node-Does :
    (node : Node) (ns : Nodes) → IsNode node → Does (add_node node) ns tt (Nodes.then_ node ns)
unfolding add_node
add_node-Does node ns is_node = bind-Leads _ (new_node-Does node ns is_node) (prepend-Does node ns)

added :
    (node : Node) (ns : Nodes)
    → IsNode node
    → Builds (on_query (add_node node)) ns tt (Nodes.then_ node ns)
added node ns is_node = on_query-Builds (add_node-Does node ns is_node)

-- An expression is a node.
node_of-some : (e : Expr) → Sql.is_null (node_of e) ≡ false
unfolding node_of
node_of-some (Expr.col name) = refl
node_of-some _ = refl

select-Does :
    (columns : Option Bytes) (ns : Nodes)
    → IsShort columns
    → Does (select_columns columns) ns tt (Nodes.then_ (Node.select columns false) ns)
unfolding select_columns
select-Does columns ns short =
    bind-Leads _ (copy_from-Does columns ns short) (add_node-Does (Node.select columns false) ns tt)

write_where-Does :
    (condition : Node) (ns : Nodes) → Does (write_where condition) ns tt (set_where condition ns)
unfolding write_where
write_where-Does condition ns = record {
  run = λ m generous (sound, e, head). ((refl, (sound, e, rw head refl)), generous);
}

join-Builds :
    (table type_str : Option Bytes) (condition : Node) (ns : Nodes)
    → IsShort table
    → IsShort type_str
    → Builds
        (Methods.join table type_str condition)
        ns
        tt
        (Nodes.then_ (Node.join type_str table condition) ns)
unfolding Methods.join
join-Builds table type_str condition ns short_table short_type = on_query-Builds (
    bind-Leads _ (copy_from-Does table ns short_table) (
      bind-Leads _ (copy_from-Does type_str ns short_type)
        (add_node-Does (Node.join type_str table condition) ns tt)))

-- A call that looks at the list.
read-Does :
    {B : Type 0} (f : Nodes → Cmd Builder B) {b : B} {ns ns' : Nodes}
    → Does (f ns) ns b ns'
    → Does (get >>= λ q. f q.ast_head) ns b ns'
read-Does f {b} {ns} {ns'} does = record {
  run = λ m generous (sound, e, head).
      subst (λ (z : Nodes). Sure (λ x o. (x ≡ b) × Holds ns' o) (f z m)) (sym head)
        (does.run m generous (sound, e, head));
}

joined :
    (node : Node) (ns ns' : Nodes) (r : Outcome (Machine Builder) Node)
    → Does (write_where node) ns tt ns'
    → Sure (λ x o. (x ≡ node) × Holds ns o) r
    → Sure (λ x o. (x ≡ tt) × Holds ns' o) (combined r)
unfolding combined
joined node ns ns' (ok x m) writes ((e, holds), generous) = rw e (writes.run m generous holds)
joined node ns ns' (err e m) writes bad = absurd bad
joined node ns ns' stuck writes bad = bad

-- The loop that finds the first WHERE node and the write to it change that node.
placed : Bytes → Node → Nodes → Option Node → Option Nodes
placed name condition ns none = none
placed name condition ns (some old) = some (set_where (conjunction name old condition) ns)

placed-later :
    (name : Bytes) (condition node : Node) (ns : Nodes) (o : Option Node)
    → ((c : Node) → set_where c (Nodes.then_ node ns) ≡ Nodes.then_ node (set_where c ns))
    → keep_head node (placed name condition ns o) ≡ placed name condition (Nodes.then_ node ns) o
unfolding placed
placed-later name condition node ns none deeper = refl
placed-later name condition node ns (some old) deeper = rw (deeper _) refl

change_first-placed :
    (name : Bytes) (condition : Node) (ns : Nodes)
    → change_first (conjoined name condition) ns ≡ placed name condition ns (first_where ns)
unfolding change_first first_where placed set_where
change_first-placed name condition Nodes.end = refl
change_first-placed name condition (Nodes.then_ (Node.where_ old) ns) = refl
change_first-placed name condition (Nodes.then_ node ns) =
    ap (keep_head node) (change_first-placed name condition ns)
    ∙ placed-later name condition node ns (first_where ns) λ c. refl

change_first-mark : (ns : Nodes) → change_first made_distinct ns ≡ mark_distinct ns
unfolding change_first mark_distinct
change_first-mark Nodes.end = refl
change_first-mark (Nodes.then_ (Node.select columns is_distinct) ns) = refl
change_first-mark (Nodes.then_ node ns) = ap (keep_head node) (change_first-mark ns)

extend_where-Does :
    (name : Bytes) (condition : Node) (old : Option Node) (ns : Nodes)
    → Does
        (extend_where name condition old)
        ns
        tt
        (or_new (Node.where_ condition) ns (placed name condition ns old))
unfolding extend_where placed
extend_where-Does name condition none ns = add_node-Does (Node.where_ condition) ns tt
extend_where-Does name condition (some old) ns = elim (Bool-cases (Sql.is_null old)) [
  | inl null ↦ rw null (write_where-Does condition ns)
  | inr given ↦
      let node = Node.operator (some name) old condition in
      rw given (record {
        run = λ m generous holds.
            joined node ns (set_where node ns) (new_node node m) (write_where-Does node ns)
              ((new_node-Does node ns tt).run m generous holds);
      })
]

connect-Builds :
    (name : Bytes) (condition : Node) (ns : Nodes)
    → Sql.is_null condition ≡ false
    → Builds (connect name condition) ns tt (connected name condition ns)
unfolding connect
connect-Builds name condition ns given =
    rw (given, change_first-placed name condition ns)
      (on_query-Builds (
        read-Does (λ nodes. extend_where name condition (first_where nodes))
          (extend_where-Does name condition (first_where ns) ns)))

connective-Builds :
    (c : Connective) (condition : Node) (ns : Nodes)
    → Sql.is_null condition ≡ false
    → Builds (connective c condition) ns tt (connected (connective_name c) condition ns)
unfolding Methods.and_where Methods.or_where
connective-Builds and condition ns given = connect-Builds (codes "AND") condition ns given
connective-Builds or condition ns given = connect-Builds (codes "OR") condition ns given

selected :
    (ns : Nodes) (r : Outcome (Machine Builder) (Unit {0}))
    → Sure (λ x o. (x ≡ tt) × Holds (Nodes.then_ (Node.select (some (codes "*")) false) ns) o) r
    → Sure
        (λ x o. (x ≡ tt) × Holds (Nodes.then_ (Node.select (some (codes "*")) true) ns) o)
        (mark_selected r)
unfolding mark_selected
selected ns (ok x m) ((e, (sound, flag, head)), generous) =
    subst
      (λ (z : Nodes).
        Sure (λ x o. (x ≡ tt) × Holds (Nodes.then_ (Node.select (some (codes "*")) true) ns) o)
          (mark_head z m))
      (sym head) ((refl, (sound, flag, refl)), generous)
selected ns (err e m) bad = absurd bad
selected ns stuck bad = bad

distinct_with-Does :
    (found : Option Nodes) (ns : Nodes)
    → Does (distinct_with found) ns tt (or_new (Node.select (some (codes "*")) true) ns found)
unfolding distinct_with
distinct_with-Does none ns = record {
  run = λ m generous holds.
      selected ns (select_columns (some (codes "*")) m)
        ((select-Does (some (codes "*")) ns (omega arith)).run m generous holds);
}
distinct_with-Does (some ns') ns = record {
  run = λ m generous (sound, e, head). ((refl, (sound, e, refl)), generous);
}

-- With enough memory a call leaves the nodes that it stands for.
apply-Builds :
    (call : Call) (ns : Nodes) → CallFits call → Builds (apply call) ns tt (after call ns)
unfolding apply after Methods.select Methods.from Methods.group_by Methods.from_alias Methods.where_
    Methods.having Methods.order_by Methods.limit Methods.offset Methods.left_join
    Methods.right_join Methods.with_ Methods.union Methods.distinct
apply-Builds (Call.select columns) ns fits = on_query-Builds (select-Does columns ns fits)
apply-Builds (Call.from table) ns fits =
    on_query-Builds
      (bind-Leads _ (copy_from-Does table ns fits) (add_node-Does (Node.from table none) ns tt))
apply-Builds (Call.group_by columns) ns fits = added (Node.group_by columns) ns tt
apply-Builds (Call.from_alias table alias) ns fits = added (Node.from table alias) ns tt
apply-Builds (Call.where_ e) ns fits =
    bind-Leads _ (build-Builds e ns fits) (added (Node.where_ (node_of e)) ns tt)
apply-Builds (Call.having e) ns fits =
    bind-Leads _ (build-Builds e ns fits) (added (Node.having (node_of e)) ns tt)
apply-Builds (Call.connect c e) ns fits =
    bind-Leads _ (build-Builds e ns fits) (connective-Builds c (node_of e) ns (node_of-some e))
apply-Builds (Call.order_by column is_desc) ns fits = on_query-Builds (
    bind-Leads _ (copy_from-Does column ns fits)
      (add_node-Does (Node.order_by column is_desc) ns tt))
apply-Builds (Call.limit n) ns fits = added (Node.limit n) ns tt
apply-Builds (Call.offset n) ns fits = added (Node.offset n) ns tt
apply-Builds (Call.join table type_str e) ns (short_table, short_type, fits) =
    bind-Leads _ (build-Builds e ns fits)
      (join-Builds table type_str (node_of e) ns short_table short_type)
apply-Builds (Call.left_join table e) ns (short, fits) =
    bind-Leads _ (build-Builds e ns fits)
      (join-Builds table (some (codes "LEFT")) (node_of e) ns short (omega arith))
apply-Builds (Call.right_join table e) ns (short, fits) =
    bind-Leads _ (build-Builds e ns fits)
      (join-Builds table (some (codes "RIGHT")) (node_of e) ns short (omega arith))
apply-Builds (Call.with_ alias q) ns fits =
    on_query-Builds
      (then-Does (pure-Leads tt ns) (add_node-Does (Node.with_ alias (Query.query q)) ns tt))
apply-Builds (Call.union q is_all) ns fits =
    on_query-Builds
      (then-Does (pure-Leads tt ns) (add_node-Does (Node.union is_all (Query.query q)) ns tt))
apply-Builds Call.distinct ns fits = rw (change_first-mark ns) (
    on_query-Builds (
      read-Does (λ nodes. distinct_with (mark_distinct nodes))
        (distinct_with-Does (mark_distinct ns) ns)))

pub apply_all-Builds :
    (calls : List Call) (ns : Nodes)
    → CallsFit calls
    → Builds (apply_all calls) ns tt (after_all calls ns)
unfolding apply_all after_all
apply_all-Builds [] ns fits = pure-Leads tt ns
apply_all-Builds (call ∷ calls) ns (fits, rest) =
    then-Builds (apply-Builds call ns fits) (apply_all-Builds calls (after call ns) rest)
