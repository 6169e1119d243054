-- ===== src/QueryBuilder/Update/Render.antt =====
-- The statement that the calls of a client of the update builder (src/c_orm_query_builder.c) stand
-- for, and the text that the client gets.
use c_orm.Base.{
  ◌+◌, ◌^◌, ◌<◌, ◌≡◌, refl, inl, inr, Bool, true, false, Option, none, some, List, [], ◌∷◌, ◌++◌,
  append_assoc, arith, Bytes, codes, length, length-append, Bool-cases,
}
use c_orm.Memory.{Error, Memory, Machine, machine, Cmd, ◌>>◌, put, keep}
use c_orm.Memory.Gives.{Gives, Gives-bind, Gives-later, Gives-keep}
use c_orm.Meta.{TableMeta}
use c_orm.StringBuilder
use c_orm.StringBuilder.{StringBuilder}
use c_orm.StringBuilder.Append.{Holds}
use c_orm.StringBuilder.Emits.{
  Emits, Emits-then, Emits-pure, handle-Emits, append-Says, view_at, frame_at,
}
use c_orm.StringBuilder.Gives.{Says-Gives, Emits-Gives, init-Gives, get_text-ok}
use c_orm.QueryBuilder.Update.{
  UpdateBuilder, start_text, init, set, where_eq, compile, set_all, where_all, update_sql,
}
use c_orm.QueryBuilder.Update.Clauses.{
  Frame, text_of, frame_of, set_lead, where_lead, set-Clause, where-Clause,
}

abbrev CallClause : Cmd (Option UpdateBuilder) (Unit {0}) → Frame → Bytes → Frame → Type 0
CallClause c f s g =
    Emits (view_at text_of frame_of) (frame_at text_of frame_of) c (some f) s (some g)

-- Assignments separated by commas, and conditions joined by AND behind one WHERE.
abbrev pub sets_text : Bool → List Bytes → Bytes
sets_text has_set [] = []
sets_text has_set (c ∷ cs) = (set_lead has_set ++ (c ++ codes " = ?")) ++ sets_text true cs

abbrev pub wheres_text : Bool → List Bytes → Bytes
wheres_text has_where [] = []
wheres_text has_where (c ∷ cs) =
    (where_lead has_where ++ (c ++ codes " = ?")) ++ wheres_text true cs

abbrev pub head : Bytes → Bytes
head name = codes "UPDATE " ++ (name ++ codes " SET ")

abbrev pub statement : TableMeta → List Bytes → List Bytes → Bytes
statement table sets wheres = head table.name ++ (sets_text false sets ++ wheres_text false wheres)

sets-Clause :
    (table : TableMeta) (cs : List Bytes) (s : Bool)
    → (s' : Bool) × CallClause (set_all cs) (table, s, false) (sets_text s cs) (table, s', false)
unfolding set_all set
sets-Clause table [] s = (s, Emits-pure _ _ _)
sets-Clause table (c ∷ cs) s =
    let (s', rest) = sets-Clause table cs true in
    (s', Emits-then _ _ (handle-Emits text_of frame_of Error.unknown (set-Clause table s c)) rest)

wheres-Clause :
    (table : TableMeta) (cs : List Bytes) (s w : Bool)
    → (w' : Bool) × CallClause (where_all cs) (table, s, w) (wheres_text w cs) (table, s, w')
unfolding where_all where_eq
wheres-Clause table [] s w = (w, Emits-pure _ _ _)
wheres-Clause table (c ∷ cs) s w =
    let (w', rest) = wheres-Clause table cs s true in
    (
      w',
      Emits-then _ _ (handle-Emits text_of frame_of Error.unknown (where-Clause table s w c)) rest,
    )

abbrev Stands : Bytes → Frame → Option UpdateBuilder → Type 0
Stands t f o = Holds (view_at text_of frame_of o) t × (frame_at text_of frame_of o ≡ some f)

start_text-Gives :
    (name : Bytes) (m : Machine (Option StringBuilder))
    → 12 + length name < 2 ^ 63
    → Gives (λ _ o. Holds o (head name)) m.memory (start_text name m)
unfolding start_text
start_text-Gives name m room =
    Gives-bind (λ _ o. Holds o []) (λ _ o. Holds o (head name)) m.memory (StringBuilder.init m)
      (λ _.
        StringBuilder.append (some (codes "UPDATE "))
        >> (StringBuilder.append (some name) >> StringBuilder.append (some (codes " SET "))))
      (init-Gives m)
      λ _ m' holds.
        Says-Gives m' []
          (Emits-then _ _ (append-Says (codes "UPDATE "))
            (Emits-then _ _ (append-Says name) (append-Says (codes " SET "))))
          holds
          (omega (
            arith,
            length-append (codes "UPDATE ") (name ++ codes " SET "),
            length-append name (codes " SET "),
          ))

init-Stands :
    (table : TableMeta) (m : Machine (Option UpdateBuilder))
    → 12 + length table.name < 2 ^ 63
    → Gives (λ _ o. Stands (head table.name) (table, false, false) o) m.memory (init (some table) m)
unfolding init
init-Stands table m room =
    let asked : Memory = record m.memory { calls = m.memory.calls + 1 } in
    let Built = λ (_ : Unit {0}) (o : Option UpdateBuilder).
      Stands (head table.name) (table, false, false) o in
    elim (Bool-cases (m.memory.grants m.memory.calls 24)) [
      | inl granted ↦ rw granted (
          Gives-later Built m.memory asked _ (refl, omega arith)
            (Gives-bind (λ sb _. Holds sb (head table.name)) Built asked
              (keep m.object (start_text table.name (machine asked none)))
              (λ sb.
                put (some (record { meta = table; sb = sb; has_set = false; has_where = false })))
              (Gives-keep (λ o. Holds o (head table.name)) m.object asked
                (start_text table.name (machine asked none))
                (start_text-Gives table.name (machine asked none) room))
              λ sb m' holds. ((holds, refl), (refl, omega arith))))
      | inr refused ↦ rw refused (m.memory.calls, 24, omega arith, refused)
    ]

compile-Stands :
    (t : Bytes) (f : Frame) (h : Memory) (o : Option UpdateBuilder)
    → Stands t f o
    → Gives (λ sql _. sql ≡ t) h (compile (machine h o))
unfolding compile
compile-Stands t f h none stands = absurd stands.0
compile-Stands t f h (some b) stands = elim (Bool-cases (h.grants h.calls (length t + 1))) [
  | inl granted ↦ rw (get_text-ok h b.sb t stands.0, granted) (refl, (refl, omega arith))
  | inr refused ↦
      rw (get_text-ok h b.sb t stands.0, refused) (h.calls, length t + 1, omega arith, refused)
]

-- For any assignments and then any conditions, and any allocator, the client gets exactly the SQL of
-- the statement, or the allocator has refused a request; every call ends. The statement is to be
-- shorter than 2 ^ 63 bytes.
pub update_sql-statement :
    (table : TableMeta) (sets wheres : List Bytes) (m : Machine (Option UpdateBuilder))
    → length (statement table sets wheres) < 2 ^ 63
    → Gives (λ sql _. sql ≡ statement table sets wheres) m.memory (update_sql table sets wheres m)
unfolding update_sql
update_sql-statement table sets wheres m room =
    let first = head table.name in
    let assigned = sets_text false sets in
    let tested = wheres_text false wheres in
    let whole = append_assoc first assigned tested in
    let size = length-append first (assigned ++ tested) in
    let size' = length-append assigned tested in
    let size'' = length-append first assigned in
    let size-head : length first ≡ 12 + length table.name = omega (
      arith,
      length-append (codes "UPDATE ") (table.name ++ codes " SET "),
      length-append table.name (codes " SET "),
    ) in
    let (s, set-all) = sets-Clause table sets false in
    let (w, where-all) = wheres-Clause table wheres s false in
    let Done = λ (sql : Bytes) (_ : Option UpdateBuilder). sql ≡ (first ++ assigned) ++ tested in
    rw (← whole) (
      Gives-bind (λ _ o. Stands first (table, false, false) o) Done m.memory (init (some table) m) _
        (init-Stands table m (omega arith))
        λ _ m₁ begun.
          Gives-bind (λ _ o. Stands (first ++ assigned) (table, s, false) o) Done m₁.memory
            (set_all sets m₁) _ (Emits-Gives _ _ m₁ first set-all begun.0 begun.1 (omega arith))
            λ _ m₂ set'.
              Gives-bind (λ _ o. Stands ((first ++ assigned) ++ tested) (table, s, w) o) Done
                m₂.memory (where_all wheres m₂) _
                (Emits-Gives _ _ m₂ (first ++ assigned) where-all set'.0 set'.1 (omega arith))
                λ _ m₃ built.
                  compile-Stands ((first ++ assigned) ++ tested) (table, s, w) m₃.memory m₃.object
                    built)
