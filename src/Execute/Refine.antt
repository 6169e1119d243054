-- ===== src/Execute/Refine.antt =====
-- `c_orm_query_execute` performs the script of its query.
use c_orm.Base.{
  ℕ, ◌-◌, ◌^◌, ◌<◌, ◌≡◌, refl, ◌⊎◌, inl, inr, Bool, true, Option, none, some, List, [], Bytes,
  arith, length, take-length,
}
use c_orm.Memory.{Error, Memory, Machine, machine, Outcome, ok, err, stuck, and_then}
use c_orm.Memory.Gives.{Refused}
use c_orm.Query.Ast.{Dialect, Query}
use c_orm.Query.Params.{Param, Params, init_params}
use c_orm.Query.Script.{Script, written, values, query_script}
use c_orm.Query.Rules.{Bound}
use c_orm.Query.Answers.{Answered}
use c_orm.Query.Correct.{to_sql-script}
use c_orm.StatementCache.{Database}
use c_orm.Execute.{unset, bound_params, rendered, to_statement, perform, execute}

bound_params-good :
    (params : Option Params) (vs : List Param) → Bound true vs params → bound_params params ≡ vs
bound_params-good none vs bad = absurd bad
bound_params-good (some p) vs (good, same) = rw (good.count, take-length p.params) same

module _ {S : Type 0} where
  -- The text of the script and its values, or the script's error; or the allocator has refused.
  abbrev pub Stated : Script → Memory → S → Outcome (Machine S) (Bytes × List Param) → Type 0
  Stated s h o (ok (sql, params) m) =
      (s.fault ≡ none)
      × (sql ≡ written Dialect.sqlite 0 s.pieces)
      × (params ≡ values s.pieces)
      × (m.object ≡ o)
  Stated s h o (err e m) = ((s.fault ≡ some e) ⊎ Refused h) × (m.object ≡ o)
  Stated s h o stuck = ⊥

  rendered-Stated :
      (s : Script) (h : Memory) (o : S) (r : Outcome (Machine (Option Params)) Bytes)
      → Answered Dialect.sqlite true s [] h r
      → Stated s h o (rendered o r)
  rendered-Stated s h o (ok sql m) (fine, text, bound, _) =
      (fine, text, bound_params-good m.object (values s.pieces) bound, refl)
  rendered-Stated s h o (err e m) answered = (answered, refl)
  rendered-Stated s h o stuck bad = bad

  pub to_statement-Stated :
      (max_depth : ℕ) (q : Query) (m : Machine S)
      → max_depth < 2 ^ 32 - 1
      → length (written Dialect.sqlite 0 (query_script max_depth true q).pieces) < 2 ^ 63
      → length (values (query_script max_depth true q).pieces) < 2 ^ 32
      → Stated (query_script max_depth true q) m.memory m.object (to_statement max_depth q m)
  unfolding to_statement init_params
  to_statement-Stated max_depth q m fits room few =
      rendered-Stated (query_script max_depth true q) m.memory m.object _ (
        to_sql-script max_depth Dialect.sqlite true q m.memory (some unset) [] fits
          (record { count = refl; fits = omega arith; tight = omega arith }, refl) room
          (omega (arith, few)))

module _ (D : Type 0) (prepare : D → Bytes → Outcome D ℕ)
    (reset finalize : D → ℕ → Outcome D (Unit {0}))
    (bind_string : D → ℕ → ℕ → Option Bytes → Outcome D (Unit {0}))
    (step : D → ℕ → Outcome D Bool) where
  -- The script is performed, or it is not begun.
  abbrev pub Performed :
      Script → Memory → Database D → Outcome (Machine (Database D)) (Unit {0}) → Type 0
  Performed s h o r =
      ((h' : Memory) × (s.fault ≡ none)
        × (r
            ≡ perform D prepare reset finalize bind_string step (written Dialect.sqlite 0 s.pieces)
                (values s.pieces) (machine h' o)))
      ⊎ ((e : Error) × (h' : Memory) × (r ≡ err e (machine h' o))
          × ((s.fault ≡ some e) ⊎ Refused h))

  performed :
      (s : Script) (h : Memory) (o : Database D)
      (r : Outcome (Machine (Database D)) (Bytes × List Param))
      → Stated s h o r
      → Performed s h o
          (and_then r λ (sql, params). perform D prepare reset finalize bind_string step sql params)
  performed s h o (ok (sql, params) m) (fine, text, params', same) =
      inl (m.memory, fine, rw (text, params', ← same) refl)
  performed s h o (err e m) (why, same) = inr (e, m.memory, rw (← same) refl, why)
  performed s h o stuck bad = absurd bad

  -- What it does is to perform the script.
  pub execute-Performed :
      (max_depth : ℕ) (q : Query) (m : Machine (Database D))
      → max_depth < 2 ^ 32 - 1
      → length (written Dialect.sqlite 0 (query_script max_depth true q).pieces) < 2 ^ 63
      → length (values (query_script max_depth true q).pieces) < 2 ^ 32
      → Performed
          (query_script max_depth true q)
          m.memory
          m.object
          (execute D prepare reset finalize bind_string step max_depth q m)
  unfolding execute
  execute-Performed max_depth q m fits room few =
      performed (query_script max_depth true q) m.memory m.object (to_statement max_depth q m)
        (to_statement-Stated max_depth q m fits room few)
