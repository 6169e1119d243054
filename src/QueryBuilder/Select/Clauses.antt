-- ===== src/QueryBuilder/Select/Clauses.antt =====
-- The text that each clause function of the select builder appends.
use c_orm.Base.{
  ℕ, zero, suc, ◌≡◌, refl, ap, Bool, true, false, Option, [], ◌++◌, append-nil, Bytes, codes,
  if◌then◌else◌,
}
use c_orm.Memory.{Cmd, ◌>>=◌, ◌>>◌, get}
use c_orm.Meta.{TableMeta}
use c_orm.StringBuilder.{StringBuilder}
use c_orm.StringBuilder.Emits.{
  Emits, Emits-then, Emits-get, Emits-pure, Emits-modify, Emits-text, append-Says, zoom-Emits, Says,
}
use c_orm.QueryBuilder.Select.{
  SelectBuilder, on_text, emit, connective, append_where, marks, append_in, append_group,
  append_having, separator, direction, append_order,
}

-- The fields of a builder beside its text: table, and whether it has WHERE and ORDER BY.
abbrev pub Frame : Type 0
Frame = TableMeta × Bool × Bool

abbrev pub text_of : SelectBuilder → Option StringBuilder
text_of b = b.sb

abbrev pub frame_of : SelectBuilder → Frame
frame_of b = (b.meta, b.has_where, b.has_order)

-- A command that takes the frame `f` to `g` and appends `s`.
abbrev pub Clause : Cmd SelectBuilder (Unit {0}) → Frame → Bytes → Frame → Type 0
Clause = Emits text_of frame_of

module _ {c d : Cmd SelectBuilder (Unit {0})} {f g h : Frame} {s u : Bytes} where
  infixr 5 ◌then◌
  abbrev pub ◌then◌ : Clause c f s g → Clause d g u h → Clause (c >> d) f (s ++ u) h
  ◌then◌ = Emits-then text_of frame_of

pub emit-Clause : (f : Frame) (s : Bytes) → Clause (emit s) f s f
unfolding emit
emit-Clause f s = zoom-Emits text_of frame_of _ (λ b o. refl) (λ b o. refl) f (append-Says s)

pub on_text-Clause :
    (f : Frame) {c : Cmd (Option StringBuilder) (Unit {0})} {s : Bytes}
    → Says c s
    → Clause (on_text c) f s f
on_text-Clause f = zoom-Emits text_of frame_of _ (λ b o. refl) (λ b o. refl) f

-- What stands in front of a condition: the first is introduced by WHERE.
abbrev pub conjunct : Bool → Bytes
conjunct has_where = if has_where then codes " AND " else codes " WHERE "

-- The question marks of a list of n values.
abbrev pub placeholders : ℕ → Bytes
placeholders zero = []
placeholders (suc zero) = codes "?"
placeholders (suc (suc n)) = codes "?" ++ (codes ", " ++ placeholders (suc n))

-- What stands in front of an ordering: the first is introduced by ORDER BY.
abbrev pub order_lead : Bool → Bytes
order_lead has_order = if has_order then codes ", " else codes " ORDER BY "

module _ (table : TableMeta) where
  pub connective-Clause :
      (w o : Bool) → Clause (connective w) (table, w, o) (conjunct w) (table, true, o)
  unfolding connective
  connective-Clause true o = emit-Clause _ (codes " AND ")
  connective-Clause false o = Emits-text text_of frame_of (append-nil (codes " WHERE ")) (
      emit-Clause _ (codes " WHERE ")
      then Emits-modify text_of frame_of (λ b. record b { has_where = true }) _ _ (λ b. refl)
          (λ b e. ap {B = Frame} (λ (p : Frame). (p.0, true, p.2)) e))

  -- A command that branches on a flag of the builder.
  pub on_where :
      (w o : Bool) (k : Bool → Cmd SelectBuilder (Unit {0})) {s : Bytes} {g : Frame}
      → Clause (k w) (table, w, o) s g
      → Clause (get >>= λ b. k b.has_where) (table, w, o) s g
  on_where w o k {s} {g} clause =
      Emits-get text_of frame_of {k = λ b. k b.has_where}
        λ b e. let flag : b.has_where ≡ w = ap (λ (p : Frame). p.1) e in rw flag clause

  on_order :
      (w o : Bool) (k : Bool → Cmd SelectBuilder (Unit {0})) {s : Bytes} {g : Frame}
      → Clause (k o) (table, w, o) s g
      → Clause (get >>= λ b. k b.has_order) (table, w, o) s g
  on_order w o k {s} {g} clause =
      Emits-get text_of frame_of {k = λ b. k b.has_order}
        λ b e. let flag : b.has_order ≡ o = ap (λ (p : Frame). p.2) e in rw flag clause

  -- `append_where`: the conjunct, the column and the operator.
  pub where-Clause :
      (w o : Bool) (op column : Bytes)
      → Clause
          (append_where op column)
          (table, w, o)
          (conjunct w ++ (column ++ op))
          (table, true, o)
  unfolding append_where
  where-Clause w o op column =
      on_where w o (λ flag. connective flag >> (emit column >> emit op))
        (connective-Clause w o then emit-Clause _ column then emit-Clause _ op)

  -- A number of question marks, with commas between them.
  marks-Clause : (f : Frame) (n : ℕ) → Clause (marks n) f (placeholders n) f
  unfolding marks
  marks-Clause f zero = Emits-pure text_of frame_of f
  marks-Clause f (suc zero) = emit-Clause f (codes "?")
  marks-Clause f (suc (suc n)) =
      emit-Clause f (codes "?") then emit-Clause f (codes ", ") then marks-Clause f (suc n)

  pub in-Clause :
      (w o : Bool) (n : ℕ) (column : Bytes)
      → Clause
          (append_in (suc n) column)
          (table, w, o)
          (conjunct w ++ (column ++ (codes " IN (" ++ (placeholders (suc n) ++ codes ")"))))
          (table, true, o)
  unfolding append_in
  in-Clause w o n column =
      on_where w o
        (λ flag.
          connective flag
          >> (emit column >> (emit (codes " IN (") >> (marks (suc n) >> emit (codes ")")))))
        (connective-Clause w o
          then emit-Clause _ column
          then emit-Clause _ (codes " IN (")
          then marks-Clause _ (suc n)
          then emit-Clause _ (codes ")"))

  pub group-Clause :
      (f : Frame) (column : Bytes) → Clause (append_group column) f (codes " GROUP BY " ++ column) f
  unfolding append_group
  group-Clause f column = emit-Clause f (codes " GROUP BY ") then emit-Clause f column

  pub having-Clause :
      (f : Frame) (clause : Bytes) → Clause (append_having clause) f (codes " HAVING " ++ clause) f
  unfolding append_having
  having-Clause f clause = emit-Clause f (codes " HAVING ") then emit-Clause f clause

  separator-Clause :
      (w o : Bool) → Clause (separator o) (table, w, o) (order_lead o) (table, w, true)
  unfolding separator
  separator-Clause w true = emit-Clause _ (codes ", ")
  separator-Clause w false = Emits-text text_of frame_of (append-nil (codes " ORDER BY ")) (
      emit-Clause _ (codes " ORDER BY ")
      then Emits-modify text_of frame_of (λ b. record b { has_order = true }) _ _ (λ b. refl)
          (λ b e. ap {B = Frame} (λ (p : Frame). (p.0, p.1, true)) e))

  pub order-Clause :
      (w o is_desc : Bool) (column : Bytes)
      → Clause
          (append_order is_desc column)
          (table, w, o)
          (order_lead o ++ (column ++ direction is_desc))
          (table, w, true)
  unfolding append_order
  order-Clause w o is_desc column =
      on_order w o (λ flag. separator flag >> (emit column >> emit (direction is_desc)))
        (separator-Clause w o then emit-Clause _ column then emit-Clause _ (direction is_desc))
