-- ===== src/QueryBuilder/Select/Exists/Relation.antt =====
-- `c_orm_select_where_relation` on a path that resolves.
use c_orm.Base.{◌≡◌, ap, sym, subst, Bool, true, ◌++◌, Bytes}
use c_orm.Memory.{◌>>◌}
use c_orm.Meta.{TableMeta, Schema}
use c_orm.StringBuilder.Emits.{Emits-get}
use c_orm.QueryBuilder.Select.{on_text, connective}
use c_orm.QueryBuilder.Select.Clauses.{
  Frame, text_of, frame_of, Clause, ◌then◌, on_text-Clause, conjunct, connective-Clause,
}
use c_orm.QueryBuilder.Select.Exists.{append_relation, build_exists_query}
use c_orm.QueryBuilder.Select.Exists.Route.{Route, Resolves, IsWired, condition, query-Says}

module _ (tables : Schema) (table : TableMeta) where
  pub relation-Clause :
      (w o : Bool) (op : Bytes) {path : Bytes} {r : Route}
      → Resolves tables table path r
      → IsWired r
      → Clause
          (append_relation tables path op)
          (table, w, o)
          (conjunct w ++ condition op table.name 1 r)
          (table, true, o)
  unfolding append_relation
  relation-Clause w o op {path} {r} res wired =
      Emits-get text_of frame_of
        {k = λ b.
          connective b.has_where
          >> on_text (build_exists_query tables b.meta path op b.meta.name 1)}
        λ b e.
          let flag : b.has_where ≡ w = ap (λ (p : Frame). p.1) e in
          let same : b.meta ≡ table = ap (λ (p : Frame). p.0) e in
          subst
            (λ (w' : Bool).
              Clause
                (connective w' >> on_text (build_exists_query tables b.meta path op b.meta.name 1))
                (table, w, o) (conjunct w ++ condition op table.name 1 r) (table, true, o))
            (sym flag)
            (subst
              (λ (t : TableMeta).
                Clause (connective w >> on_text (build_exists_query tables t path op t.name 1))
                  (table, w, o) (conjunct w ++ condition op table.name 1 r) (table, true, o))
              (sym same)
              (connective-Clause table w o
                then on_text-Clause _ (query-Says tables op table.name 1 res wired)))
