-- ===== src/QueryBuilder/Select/Ends.antt =====
-- The first and the last call of a client: `c_orm_select_builder_init` gives a builder with the
-- head of the statement, and `c_orm_select_builder_compile` gives the text.
use c_orm.Base.{
  ◌+◌, ◌^◌, ◌<◌, ◌≡◌, refl, inl, inr, false, Option, none, some, [], ◌++◌, arith, Bytes, codes,
  length, length-append, Bool-cases,
}
use c_orm.Memory.{Memory, Machine, machine, keep, ◌>>◌, put}
use c_orm.Memory.Gives.{Gives, Gives-bind, Gives-later, Gives-keep}
use c_orm.Meta.{TableMeta}
use c_orm.StringBuilder
use c_orm.StringBuilder.{StringBuilder}
use c_orm.StringBuilder.Append.{Holds}
use c_orm.StringBuilder.Emits.{Emits-then, append-Says, view_at, frame_at}
use c_orm.StringBuilder.Gives.{Says-Gives, init-Gives, get_text-ok}
use c_orm.QueryBuilder.Select.{SelectBuilder, start_text, init, compile}
use c_orm.QueryBuilder.Select.Clauses.{Frame, text_of, frame_of}

-- The builder behind the handle has this text and this frame.
abbrev pub Stands : Bytes → Frame → Option SelectBuilder → Type 0
Stands t f o = Holds (view_at text_of frame_of o) t × (frame_at text_of frame_of o ≡ some f)

-- "SELECT * FROM " and the table.
abbrev pub head : Bytes → Bytes
head name = codes "SELECT * FROM " ++ name

start_text-Gives :
    (name : Bytes) (m : Machine (Option StringBuilder))
    → 14 + length name < 2 ^ 63
    → Gives (λ _ o. Holds o (head name)) m.memory (start_text name m)
unfolding start_text
start_text-Gives name m room =
    Gives-bind (λ _ o. Holds o []) (λ _ o. Holds o (head name)) m.memory (StringBuilder.init m)
      (λ _.
        StringBuilder.append (some (codes "SELECT * FROM ")) >> StringBuilder.append (some name))
      (init-Gives m)
      λ _ m' holds.
        Says-Gives m' [] (Emits-then _ _ (append-Says (codes "SELECT * FROM ")) (append-Says name))
          holds (omega (arith, length-append (codes "SELECT * FROM ") name))

-- What `init` does once the struct is allocated.
pub init-Stands :
    (table : TableMeta) (m : Machine (Option SelectBuilder))
    → 14 + length table.name < 2 ^ 63
    → Gives (λ _ o. Stands (head table.name) (table, false, false) o) m.memory (init (some table) m)
unfolding init
init-Stands table m room =
    let asked : Memory = record m.memory { calls = m.memory.calls + 1 } in
    elim (Bool-cases (m.memory.grants m.memory.calls 24)) [
      | inl granted ↦ rw granted (
          Gives-later (λ _ o. Stands (head table.name) (table, false, false) o) m.memory asked _
            (refl, omega arith)
            (Gives-bind (λ sb _. Holds sb (head table.name))
              (λ _ o. Stands (head table.name) (table, false, false) o) asked
              (keep m.object (start_text table.name (machine asked none)))
              (λ sb.
                put (some (record { meta = table; sb = sb; has_where = false; has_order = false })))
              (Gives-keep (λ o. Holds o (head table.name)) m.object asked
                (start_text table.name (machine asked none))
                (start_text-Gives table.name (machine asked none) room))
              λ sb m' holds. ((holds, refl), (refl, omega arith))))
      | inr refused ↦ rw refused (m.memory.calls, 24, omega arith, refused)
    ]

compile-held :
    (t : Bytes) (f : Frame) (h : Memory) (o : Option SelectBuilder)
    → Stands t f o
    → Gives (λ sql _. sql ≡ t) h (compile (machine h o))
unfolding compile
compile-held t f h none stands = absurd stands.0
compile-held t f h (some b) stands = elim (Bool-cases (h.grants h.calls (length t + 1))) [
  | inl granted ↦ rw (get_text-ok h b.sb t stands.0, granted) (refl, (refl, omega arith))
  | inr refused ↦
      rw (get_text-ok h b.sb t stands.0, refused) (h.calls, length t + 1, omega arith, refused)
]

pub compile-Stands :
    (t : Bytes) (f : Frame) (m : Machine (Option SelectBuilder))
    → Stands t f m.object
    → Gives (λ sql _. sql ≡ t) m.memory (compile m)
compile-Stands t f m stands = compile-held t f m.memory m.object stands
