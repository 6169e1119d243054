-- ===== src/Sql/Ddl/Bounds.antt =====
-- How many tables a script may define: the array that `parse_sql_ddl` fills has room for ten.
use c_orm.Base.{
  ℕ, suc, ◌+◌, ◌≤◌, ◌<◌, ◌≡◌, refl, inl, inr, true, Option, none, some, List, [], ◌∷◌, Bytes,
  length, length-append, arith, ltb, lt→ltb, Bool-cases, if◌then◌else◌,
}
use c_orm.Memory.{Machine, machine, Outcome, ok, err, stuck, and_then}
use c_orm.Sql.Token.{semicolon, same_kind, Token}
use c_orm.Sql.Lexer.Lossless.{Splits, end, more}
use c_orm.Sql.Ast.{Table, Parser}
use c_orm.Sql.Parser.Safe.{IsSmall, Sound, Post}
use c_orm.Sql.Parser.Table.{parse_table}
use c_orm.Sql.Parser.Safe.Table.{parse_table-ends}
use c_orm.Sql.Ddl.{
  Ddl, room, store_table, take_result, parser_at, parse_slice, is_create, new_start, at_end, slices,
}

-- Every number token is a number that an `int` can hold.
abbrev pub AllSmall : List Token → Type 0
AllSmall [] = Unit
AllSmall (t ∷ ts) = IsSmall t × AllSmall ts

-- How many statements a script has at most.
abbrev pub semicolons : List Token → ℕ
semicolons [] = 0
semicolons (t ∷ ts) =
    let left = semicolons ts in if same_kind t.kind semicolon then suc left else left

-- The scan ends well, with so many tables.
abbrev pub Stores : ℕ → Outcome (Machine Ddl) (Unit {0}) → Type 0
Stores n (ok _ m) = length m.object.tables ≤ n
Stores n (err e m) = ⊥
Stores n stuck = ⊥

-- What the lexer cuts is sound for the parser.
pub Splits-Sound : {source : Bytes} {ts : List Token} → Splits source ts → AllSmall ts → Sound ts
Splits-Sound end small = (small.0, inl refl)
Splits-Sound (more t tail e spells whole splits) small =
    (small.0, inr (Splits-Sound splits small.1))

abbrev StartsSound : Option (List Token) → Type 0
StartsSound none = Unit
StartsSound (some ts) = Sound ts

Stores-bind :
    (n k : ℕ) (r : Outcome (Machine Ddl) (Unit {0}))
    (f : Unit {0} → Machine Ddl → Outcome (Machine Ddl) (Unit {0}))
    → Stores n r
    → ((m : Machine Ddl) → length m.object.tables ≤ n → Stores k (f tt m))
    → Stores k (and_then r f)
Stores-bind n k (ok _ m) f small next = next m small
Stores-bind n k (err e m) f bad next = bad
Stores-bind n k stuck f bad next = bad

Stores-mono : (n k : ℕ) (r : Outcome (Machine Ddl) (Unit {0})) → n ≤ k → Stores n r → Stores k r
Stores-mono n k (ok _ m) less small = omega arith
Stores-mono n k (err e m) less bad = bad
Stores-mono n k stuck less bad = bad

take_result-Stores :
    (n : ℕ) (old : List Table) (bound : ℕ) (r : Outcome (Machine Parser) Table)
    → length old < room
    → Post (λ _ n'. n' < bound) r
    → length old < n
    → Stores n (take_result old r)
unfolding take_result store_table
take_result-Stores n old bound (ok t m) space post less =
    let fits : ltb (length old) 10 ≡ true = lt→ltb _ _ space in
    rw fits (omega (arith, length-append old (t ∷ [])))
take_result-Stores n old bound (err e m) space post less = omega arith
take_result-Stores n old bound stuck space post less = post

at_end-Stores :
    (start : Option (List Token)) (m : Machine Ddl)
    → StartsSound start
    → length m.object.tables < room
    → Stores (suc (length m.object.tables)) (at_end start m)
unfolding at_end parse_slice
at_end-Stores none m sound space = omega arith
at_end-Stores (some ts) m sound space =
    let p = machine m.memory (parser_at ts m.object.countdown) in
    take_result-Stores (suc (length m.object.tables)) m.object.tables (length ts) (parse_table p)
      space (parse_table-ends p sound) (omega arith)

new_start-Sound :
    (t : Token) (ts : List Token) (start : Option (List Token))
    → Sound (t ∷ ts)
    → StartsSound start
    → StartsSound (new_start (t ∷ ts) start)
new_start-Sound t ts start sound start-Sound = elim (Bool-cases (is_create t)) [
  | inl create ↦ rw create sound
  | inr other ↦ rw other start-Sound
]

-- On tokens that the lexer cuts, with numbers that an `int` can hold, where the tables stored so far
-- and the semicolons ahead are at most ten, and a statement that has begun is sound: the scan ends
-- without an error and with no write outside of the array, for any allocator, and every semicolon
-- has added at most one table.
pub slices-Stores :
    {source : Bytes} {ts : List Token} (start : Option (List Token)) (m : Machine Ddl)
    → Splits source ts
    → AllSmall ts
    → StartsSound start
    → length m.object.tables + semicolons ts ≤ room
    → Stores (length m.object.tables + semicolons ts) (slices ts start m)
unfolding slices
slices-Stores start m end small sound space = omega arith
slices-Stores start m (more {ts = ts} t tail e spells whole splits) small sound space =
    let here = new_start (t ∷ ts) start in
    let here-Sound =
      new_start-Sound t ts start (Splits-Sound (more t tail e spells whole splits) small) sound in
    elim (Bool-cases (same_kind t.kind semicolon)) [
      | inl ends ↦
          let now = length m.object.tables in
          let left = semicolons ts in
          let spent : now + semicolons (t ∷ ts) ≡ suc now + left = rw ends (omega arith) in
          rw ends (
            Stores-bind (suc now) (now + suc left) (at_end here m) (λ _. slices ts none)
              (at_end-Stores here m here-Sound (omega (arith, spent)))
              λ m' stored.
                Stores-mono (length m'.object.tables + left) (now + suc left) (slices ts none m')
                  (omega (arith, stored))
                  (slices-Stores none m' splits small.1 tt (omega (arith, spent, stored))))
      | inr goes ↦ rw goes (slices-Stores here m splits small.1 here-Sound (rw goes at space))
    ]
