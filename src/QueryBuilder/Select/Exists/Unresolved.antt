-- ===== src/QueryBuilder/Select/Exists/Unresolved.antt =====
-- `c_orm_select_where_relation` on a path whose first relation is not in the table.
use c_orm.Base.{
  ap, ◌+◌, ◌^◌, ◌<◌, ◌≡◌, refl, ◌⊎◌, inl, inr, Bool, true, Option, none, some, ◌++◌, Bytes, length,
}
use c_orm.Base.Search.{split_at}
use c_orm.Memory.{Error, Memory, Machine, machine, Outcome, ok, err, stuck, Cmd, and_then, inside}
use c_orm.Memory.Gives.{Refused}
use c_orm.Meta.{TableMeta, Schema}
use c_orm.StringBuilder.{StringBuilder}
use c_orm.StringBuilder.Append.{Holds, Ends}
use c_orm.QueryBuilder.Select.{SelectBuilder, connective, on_text}
use c_orm.QueryBuilder.Select.Clauses.{Frame, text_of, frame_of, conjunct, connective-Clause}
use c_orm.QueryBuilder.Select.Ends.{Stands}
use c_orm.QueryBuilder.Select.Exists.{
  find_relation, rel_name, resolve, build_exists, build_exists_query, append_relation,
  where_relation,
}

-- The command fails with this error, and leaves such a state, or memory runs out.
abbrev pub Fails :
    {S : Type 0} → Error → (S → Type 0) → Memory → Outcome (Machine S) (Unit {0}) → Type 0
Fails e P h (ok _ m) = ⊥
Fails e P h (err e' m) = ((e' ≡ e) × P m.object) ⊎ Refused h
Fails e P h stuck = ⊥

-- A clause, and then a failure.
Ends-Fails :
    (e : Error) (t : Bytes) (g : Frame) (h : Memory)
    (r : Outcome (Machine SelectBuilder) (Unit {0})) (k : Cmd SelectBuilder (Unit {0}))
    → ((m : Machine SelectBuilder) → k m ≡ err e m)
    → Ends text_of t (λ b. frame_of b ≡ g) h r
    → Fails e (Stands t g) h (inside some (and_then r (λ _. k)))
Ends-Fails e t g h (ok _ m) k fails (holds, q, grown) =
    rw (fails m) (inl (refl, (holds, ap some q)))
Ends-Fails e t g h (err e' m) k fails (e'', broken, refused) = inr refused
Ends-Fails e t g h stuck k fails bad = bad

module _ (tables : Schema) (table : TableMeta) where
  -- On a valid builder, whose text stays shorter than 2 ^ 63 bytes with a WHERE or an AND more, an
  -- unknown relation at the front of a path is an error, but the builder is left with that WHERE or
  -- AND at the end of its text and with its flag set, as if there were a condition; or the allocator
  -- has refused a request.
  pub where_relation-unresolved :
      (path head rest op t : Bytes) (w o : Bool) (sb : Option StringBuilder) (h : Memory)
      → split_at b'.' path ≡ some (head, rest)
      → resolve tables (find_relation (rel_name head) table.relations) ≡ none
      → Holds sb t
      → length t + length (conjunct w) < 2 ^ 63
      → Fails Error.unknown (Stands (t ++ conjunct w) (table, true, o)) h (
          where_relation tables
            (some path)
            (some op)
            (machine h (some (record { meta = table; sb = sb; has_where = w; has_order = o }))))
  unfolding where_relation append_relation build_exists_query build_exists
  where_relation-unresolved path head rest op t w o sb h split unknown holds room =
      let b : SelectBuilder = record { meta = table; sb = sb; has_where = w; has_order = o } in
      Ends-Fails Error.unknown (t ++ conjunct w) (table, true, o) h (connective w (machine h b))
        (on_text (build_exists_query tables table path op table.name 1))
        (λ m. rw (split, build_exists_query, build_exists, unknown) refl)
        ((connective-Clause table w o).run (machine h b) t holds refl room)
