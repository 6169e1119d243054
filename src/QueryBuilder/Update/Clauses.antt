-- ===== src/QueryBuilder/Update/Clauses.antt =====
-- The text that each clause function of the update builder appends, and the builder at both ends of
-- its life.
use c_orm.Base.{
  ◌≡◌, refl, ap, ◌∙◌, Bool, true, false, Option, [], ◌++◌, append-nil, Bytes, codes, if◌then◌else◌,
}
use c_orm.Memory.{Cmd, ◌>>=◌, ◌>>◌, get, put}
use c_orm.Meta.{TableMeta}
use c_orm.StringBuilder.{StringBuilder}
use c_orm.StringBuilder.Emits.{
  Emits, Emits-then, Emits-get, Emits-pure, Emits-modify, Emits-text, append-Says, zoom-Emits,
}
use c_orm.QueryBuilder.Update.{
  UpdateBuilder, emit, comma, assign, set_unless, set_column, connective, where_column,
}

-- The fields of a builder beside its text: table, and whether it has SET and WHERE.
abbrev pub Frame : Type 0
Frame = TableMeta × Bool × Bool

abbrev pub text_of : UpdateBuilder → Option StringBuilder
text_of b = b.sb

abbrev pub frame_of : UpdateBuilder → Frame
frame_of b = (b.meta, b.has_set, b.has_where)

-- A command that takes the frame `f` to `g` and appends `s`.
abbrev pub Clause : Cmd UpdateBuilder (Unit {0}) → Frame → Bytes → Frame → Type 0
Clause = Emits text_of frame_of

module _ {c d : Cmd UpdateBuilder (Unit {0})} {f g h : Frame} {s u : Bytes} where
  infixr 5 ◌then◌
  abbrev ◌then◌ : Clause c f s g → Clause d g u h → Clause (c >> d) f (s ++ u) h
  ◌then◌ = Emits-then text_of frame_of

emit-Clause : (f : Frame) (s : Bytes) → Clause (emit s) f s f
unfolding emit
emit-Clause f s = zoom-Emits text_of frame_of _ (λ b o. refl) (λ b o. refl) f (append-Says s)

-- What stands in front of an assignment, and in front of a condition.
abbrev pub set_lead : Bool → Bytes
set_lead has_set = if has_set then codes ", " else []

abbrev pub where_lead : Bool → Bytes
where_lead has_where = if has_where then codes " AND " else codes " WHERE "

comma-Clause : (f : Frame) (has_set : Bool) → Clause (comma has_set) f (set_lead has_set) f
unfolding comma
comma-Clause f true = emit-Clause f (codes ", ")
comma-Clause f false = Emits-pure text_of frame_of f

module _ (table : TableMeta) where
  on_flag :
      (s w : Bool) (flag : UpdateBuilder → Bool) (part : Frame → Bool)
      (k : Bool → Cmd UpdateBuilder (Unit {0})) {t : Bytes} {g : Frame}
      → ((b : UpdateBuilder) → flag b ≡ part (frame_of b))
      → Clause (k (part (table, s, w))) (table, s, w) t g
      → Clause (get >>= λ b. k (flag b)) (table, s, w) t g
  on_flag s w flag part k {t} {g} fits clause =
      Emits-get text_of frame_of {k = λ b. k (flag b)}
        λ b e. let same : flag b ≡ part (table, s, w) = fits b ∙ ap part e in rw same clause

  assign-Clause :
      (s w : Bool) (column : Bytes)
      → Clause
          (assign column)
          (table, s, w)
          (set_lead s ++ (column ++ codes " = ?"))
          (table, true, w)
  unfolding assign
  assign-Clause s w column =
      on_flag s w (λ b. b.has_set) (λ f. f.1)
        (λ flag.
          comma flag
          >> (emit column
              >> (emit (codes " = ?") >> (get >>= λ b'. put (record b' { has_set = true })))))
        (λ b. refl) (comma-Clause _ s then emit-Clause _ column then marked)
    where
      marked :
          Clause
            (emit (codes " = ?") >> (get >>= λ b'. put (record b' { has_set = true })))
            (table, s, w)
            (codes " = ?")
            (table, true, w)
      marked = Emits-text text_of frame_of (append-nil (codes " = ?")) (
          emit-Clause _ (codes " = ?")
          then Emits-modify text_of frame_of (λ b. record b { has_set = true }) _ _ (λ b. refl)
              (λ b e. ap {B = Frame} (λ (p : Frame). (p.0, true, p.2)) e))

  pub set-Clause :
      (s : Bool) (column : Bytes)
      → Clause
          (set_column column)
          (table, s, false)
          (set_lead s ++ (column ++ codes " = ?"))
          (table, true, false)
  unfolding set_column set_unless
  set-Clause s column =
      on_flag s false (λ b. b.has_where) (λ f. f.2) (λ flag. set_unless flag column) (λ b. refl)
        (assign-Clause s false column)

  connective-Clause :
      (s w : Bool) → Clause (connective w) (table, s, w) (where_lead w) (table, s, true)
  unfolding connective
  connective-Clause s true = emit-Clause _ (codes " AND ")
  connective-Clause s false = Emits-text text_of frame_of (append-nil (codes " WHERE ")) (
      emit-Clause _ (codes " WHERE ")
      then Emits-modify text_of frame_of (λ b. record b { has_where = true }) _ _ (λ b. refl)
          (λ b e. ap {B = Frame} (λ (p : Frame). (p.0, p.1, true)) e))

  pub where-Clause :
      (s w : Bool) (column : Bytes)
      → Clause
          (where_column column)
          (table, s, w)
          (where_lead w ++ (column ++ codes " = ?"))
          (table, s, true)
  unfolding where_column
  where-Clause s w column =
      on_flag s w (λ b. b.has_where) (λ f. f.2)
        (λ flag. connective flag >> (emit column >> emit (codes " = ?"))) (λ b. refl)
        (connective-Clause s w then emit-Clause _ column then emit-Clause _ (codes " = ?"))
