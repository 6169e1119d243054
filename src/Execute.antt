-- ===== src/Execute.antt =====
-- `c_orm_query_execute` of src/c_orm_query_sql.c: a query is turned into SQL, prepared by way of the
-- statement cache, bound, run and given back. `bind_string` and `step` of the driver's function table
-- are parameters like those of StatementCache.
pub mod Restore
pub mod Refine
pub mod Steps
use c_orm.Base.{ℕ, ◌+◌, Bool, Option, none, some, List, [], ◌∷◌, Bytes, take}
use c_orm.Memory.{
  Error, Machine, machine, Outcome, ok, err, stuck, Cmd, and_then, ◌>>=◌, ◌>>◌, pure, fail,
}
use c_orm.Query.Ast.{Dialect, Query}
use c_orm.Query.Params.{Param, Params, init_params}
use c_orm.Query.Render.{word32}
use c_orm.Query.Sql.{to_sql}
use c_orm.StatementCache.{Database, call, prepare_cached, finalize_cached}

-- `params` before `c_orm_query_params_init`.
abbrev pub unset : Params
unset = record { params = []; count = 0; capacity = 0 }

-- The first `params.count` of the array.
abbrev pub bound_params : Option Params → List Param
bound_params none = []
bound_params (some p) = take p.count p.params

module _ {S : Type 0} where
  -- The text and the parameters; the array is local to the caller.
  abbrev pub rendered :
      S → Outcome (Machine (Option Params)) Bytes → Outcome (Machine S) (Bytes × List Param)
  rendered o (ok sql m) = ok (sql, bound_params m.object) (machine m.memory o)
  rendered o (err e m) = err e (machine m.memory o)
  rendered o stuck = stuck

  unfoldable pub to_statement : ℕ → Query → Cmd S (Bytes × List Param)
  to_statement max_depth q m =
      rendered m.object
        ((init_params >> to_sql max_depth Dialect.sqlite q) (machine m.memory (some unset)))

  -- A call whose error code is not looked at.
  abbrev pub unchecked : {A : Type 0} → Outcome (Machine S) A → Outcome (Machine S) (Unit {0})
  unchecked (ok a m) = ok tt m
  unchecked (err e m) = ok tt m
  unchecked stuck = stuck

module _ (D : Type 0) (prepare : D → Bytes → Outcome D ℕ)
    (reset finalize : D → ℕ → Outcome D (Unit {0}))
    (bind_string : D → ℕ → ℕ → Option Bytes → Outcome D (Unit {0}))
    (step : D → ℕ → Outcome D Bool) where
  abbrev pub drive : {A : Type 0} → (D → Outcome D A) → Cmd (Database D) A
  drive = call D prepare reset finalize

  -- The loop over the parameters, from the i-th on; the index is the 32 bits of the `int`.
  unfoldable pub bind_all : ℕ → ℕ → List Param → Cmd (Database D) (Unit {0})
  bind_all query i [] = pure tt
  bind_all query i (p ∷ ps) =
      drive (λ d. bind_string d query (word32 (i + 1)) p.value) >> bind_all query (i + 1) ps

  -- The statement is given back, and what came before is the result.
  unfoldable pub give_back :
      ℕ → Outcome (Machine (Database D)) Bool → Outcome (Machine (Database D)) (Unit {0})
  give_back query (ok has_row m) = unchecked (finalize_cached D prepare reset finalize query m)
  give_back query (err e m) =
      and_then (unchecked (finalize_cached D prepare reset finalize query m)) (λ _. fail e)
  give_back query stuck = stuck

  -- A prepared statement is bound, run and given back.
  unfoldable pub run : ℕ → List Param → Cmd (Database D) (Unit {0})
  unfolding bind_all give_back
  run query params m = give_back query ((bind_all query 0 params >> drive (λ d. step d query)) m)

  unfoldable pub perform : Bytes → List Param → Cmd (Database D) (Unit {0})
  unfolding run
  perform sql params = prepare_cached D prepare reset finalize sql >>= λ query. run query params

  -- `c_orm_query_execute`, on a database and a query that are there.
  unfoldable pub execute : ℕ → Query → Cmd (Database D) (Unit {0})
  unfolding to_statement perform
  execute max_depth q = to_statement max_depth q >>= λ (sql, params). perform sql params
