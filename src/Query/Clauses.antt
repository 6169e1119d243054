-- ===== src/Query/Clauses.antt =====
-- src/c_orm_query_sql.c: what `c_orm_query_to_sql` keeps of the nodes of a query, the last node of
-- each kind and the joins, and the order in which it writes them. A node that holds a condition or
-- a query is kept with the command that renders it.
use c_orm.Base.{
  ℕ, Bool, Option, none, some, List, [], ◌∷◌, ◌++◌, Bytes, codes, length, ltb, if◌then◌else◌,
}
use c_orm.Base.Decimal.{decimal}
use c_orm.Memory.{Cmd, ◌>>◌, pure}
use c_orm.Query.Render.{Rendering, say, text, as_alias, word32}

-- `R` is what is known of a condition or of a query. `condition` is `none` where it is NULL.
module _ (R : Type 0) where
  pub record Join : Type 0 where
    pub type_str : Option Bytes
    pub table : Option Bytes
    pub on_condition : R

  -- The local variables `wth`, `sel`, `frm`, `joins`, ... of `c_orm_query_to_sql`
  pub record Clauses : Type 0 where
    pub wth : Option (Option Bytes × R)
    pub sel : Option (Option Bytes × Bool)
    pub frm : Option (Option Bytes × Option Bytes)
    pub joins : List Join
    pub whr : Option (Option R)
    pub grp : Option (Option Bytes)
    pub hav : Option (Option R)
    pub uni : Option (Bool × R)
    pub ord : Option (Option Bytes × Bool)
    pub lim : Option ℕ
    pub off : Option ℕ

abbrev pub no_clauses : {R : Type 0} → Clauses R
no_clauses = record {
  wth = none;
  sel = none;
  frm = none;
  joins = [];
  whr = none;
  grp = none;
  hav = none;
  uni = none;
  ord = none;
  lim = none;
  off = none;
}

abbrev pub max_joins : ℕ
max_joins = 32

-- `if (join_count < 32) joins[join_count++] = ...;`
abbrev pub keep_join : {R : Type 0} → Join R → List (Join R) → List (Join R)
keep_join j js = if ltb (length js) max_joins then js ++ (j ∷ []) else js

abbrev pub Write : Type 0
Write = Cmd Rendering (Unit {0})

abbrev pub write_with : Option (Option Bytes × Write) → Write
write_with none = pure tt
write_with (some (alias, append_query)) =
    text (codes "WITH ")
    >> (say alias >> (text (codes " AS (") >> (append_query >> text (codes ") "))))

abbrev pub write_select : Option (Option Bytes × Bool) → Write
write_select none = pure tt
write_select (some (columns, is_distinct)) =
    text (codes "SELECT ")
    >> ((if is_distinct then text (codes "DISTINCT ") else pure tt) >> say columns)

abbrev pub write_from : Option (Option Bytes × Option Bytes) → Write
write_from none = pure tt
write_from (some (table, alias)) = text (codes " FROM ") >> (say table >> as_alias alias)

abbrev pub write_join : Join Write → Write
write_join j =
    text (codes " ")
    >> (say j.type_str
        >> (text (codes " JOIN ") >> (say j.table >> (text (codes " ON ") >> j.on_condition))))

-- From the last one that was kept to the first.
unfoldable pub write_joins : List (Join Write) → Write
write_joins [] = pure tt
write_joins (j ∷ js) = write_joins js >> write_join j

abbrev pub write_condition : Bytes → Option (Option Write) → Write
write_condition keyword none = pure tt
write_condition keyword (some none) = pure tt
write_condition keyword (some (some condition)) = text keyword >> condition

abbrev pub write_group : Option (Option Bytes) → Write
write_group none = pure tt
write_group (some columns) = text (codes " GROUP BY ") >> say columns

abbrev pub write_union : Option (Bool × Write) → Write
write_union none = pure tt
write_union (some (is_all, append_query)) =
    text (if is_all then codes " UNION ALL " else codes " UNION ") >> append_query

abbrev pub write_order : Option (Option Bytes × Bool) → Write
write_order none = pure tt
write_order (some (column, is_desc)) =
    text (codes " ORDER BY ")
    >> (say column >> text (if is_desc then codes " DESC" else codes " ASC"))

abbrev pub write_number : Bytes → Option ℕ → Write
write_number keyword none = pure tt
write_number keyword (some n) = text (keyword ++ decimal (word32 n))

unfoldable pub write_clauses : Clauses Write → Write
unfolding write_joins
write_clauses c =
    write_with c.wth
    >> (write_select c.sel
        >> (write_from c.frm
            >> (write_joins c.joins
                >> (write_condition (codes " WHERE ") c.whr
                    >> (write_group c.grp
                        >> (write_condition (codes " HAVING ") c.hav
                            >> (write_union c.uni
                                >> (write_order c.ord
                                    >> (write_number (codes " LIMIT ") c.lim
                                        >> write_number (codes " OFFSET ") c.off)))))))))
