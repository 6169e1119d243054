-- ===== src/Execute/Steps.antt =====
-- What `c_orm_query_execute` asks of the driver, call by call.
use c_orm.Base.{
  ℕ, ◌+◌, ◌-◌, ◌^◌, ◌<◌, ◌≡◌, refl, ◌∙◌, ◌⊎◌, inl, inr, Bool, true, Option, none, some, List, [],
  ◌∷◌, Bytes, arith, length,
}
use c_orm.Memory.{Error, Memory, Machine, machine, Outcome, ok, err, stuck, and_then}
use c_orm.Memory.Gives.{Refused}
use c_orm.Query.Ast.{Dialect, Query}
use c_orm.Query.Params.{Param}
use c_orm.Query.Render.{word32}
use c_orm.Query.Script.{Script, written, values, query_script}
use c_orm.StatementCache.{Database, driven, prepare_cached, finalize_cached}
use c_orm.Execute.{drive, unchecked, bind_all, give_back, run, perform, execute}
use c_orm.Execute.Refine.{execute-Performed}

-- The values with the numbers of their placeholders.
abbrev pub numbered : ℕ → List Param → List (ℕ × Option Bytes)
numbered n [] = []
numbered n (p ∷ ps) = (n, p.value) ∷ numbered (n + 1) ps

module _ (D : Type 0) (prepare : D → Bytes → Outcome D ℕ)
    (reset finalize : D → ℕ → Outcome D (Unit {0}))
    (bind_string : D → ℕ → ℕ → Option Bytes → Outcome D (Unit {0}))
    (step : D → ℕ → Outcome D Bool) where
  -- The driver binds each value at its number, in this order, and then steps; a value that it cannot
  -- bind is the end.
  pub data Ran (query : ℕ) : D → List (ℕ × Option Bytes) → Outcome D Bool → Type 0 where
    stepped : {d : D} → Ran query d [] (step d query)
    bound :
        {d d' : D} {i : ℕ} {v : Option Bytes} {vs : List (ℕ × Option Bytes)} {r : Outcome D Bool}
        → bind_string d query i v ≡ ok tt d'
        → Ran query d' vs r
        → Ran query d ((i, v) ∷ vs) r
    refused :
        {d d' : D} {i : ℕ} {v : Option Bytes} {vs : List (ℕ × Option Bytes)} {e : Error}
        → bind_string d query i v ≡ err e d'
        → Ran query d ((i, v) ∷ vs) (err e d')
    lost :
        {d : D} {i : ℕ} {v : Option Bytes} {vs : List (ℕ × Option Bytes)}
        → bind_string d query i v ≡ stuck
        → Ran query d ((i, v) ∷ vs) stuck

  -- The result of a call whose error code is not looked at, with the state that it leaves.
  abbrev pub After :
      Outcome (Machine (Database D)) (Unit {0})
      → (Machine (Database D) → Outcome (Machine (Database D)) (Unit {0}))
      → Outcome (Machine (Database D)) (Unit {0})
      → Type 0
  After (ok _ m) k r = r ≡ k m
  After (err _ m) k r = r ≡ k m
  After stuck k r = r ≡ stuck

  abbrev pub moved : D → Machine (Database D) → Machine (Database D)
  moved d m = record m { object = record m.object { driver = d } }

  -- The statement is given back, whatever the driver has answered, and its answer is the result.
  abbrev pub Closed :
      ℕ → Machine (Database D) → Outcome D Bool → Outcome (Machine (Database D)) (Unit {0}) → Type 0
  Closed query m (ok has_row d) r =
      After (finalize_cached D prepare reset finalize query (moved d m)) (ok tt) r
  Closed query m (err e d) r =
      After (finalize_cached D prepare reset finalize query (moved d m)) (err e) r
  Closed query m stuck r = r ≡ stuck

  -- From the answer of `c_orm_prepare_cached` on.
  abbrev pub Opened :
      List Param
      → Outcome (Machine (Database D)) ℕ
      → Outcome (Machine (Database D)) (Unit {0})
      → Type 0
  Opened params (ok query m) r =
      (answer : Outcome D Bool) × Ran query m.object.driver (numbered 1 params) answer
      × Closed query m answer r
  Opened params (err e m) r = r ≡ err e m
  Opened params stuck r = r ≡ stuck

  -- The script is executed, or it is not begun.
  abbrev pub Executes :
      Script → Memory → Database D → Outcome (Machine (Database D)) (Unit {0}) → Type 0
  Executes s h o r =
      ((h' : Memory) × (s.fault ≡ none)
        × Opened (values s.pieces)
            (prepare_cached D prepare reset finalize (written Dialect.sqlite 0 s.pieces)
              (machine h' o))
            r)
      ⊎ ((e : Error) × (h' : Memory) × (r ≡ err e (machine h' o))
          × ((s.fault ≡ some e) ⊎ Refused h))

  -- Some answer of the driver explains what the commands do.
  abbrev Explained :
      ℕ
      → List (ℕ × Option Bytes)
      → Machine (Database D)
      → Outcome (Machine (Database D)) Bool
      → Type 0
  Explained query vs m r =
      (answer : Outcome D Bool) × Ran query m.object.driver vs answer
      × (r ≡ driven D prepare reset finalize m answer)

  driven-moved :
      (d : D) (m : Machine (Database D)) (r : Outcome D Bool)
      → driven D prepare reset finalize (moved d m) r ≡ driven D prepare reset finalize m r
  driven-moved d m (ok b d') = refl
  driven-moved d m (err e d') = refl
  driven-moved d m stuck = refl

  one_bound :
      (query i : ℕ) (p : Param) (ps : List Param) (m : Machine (Database D))
      (x : Outcome D (Unit {0}))
      → bind_string m.object.driver query (i + 1) p.value ≡ x
      → ((d : D)
          → Explained query (numbered (i + 1 + 1) ps) (moved d m) (
              and_then
                (bind_all D prepare reset finalize bind_string step query (i + 1) ps (moved d m))
                (λ _. drive D prepare reset finalize bind_string step (λ d'. step d' query))))
      → Explained query (numbered (i + 1) (p ∷ ps)) m (
          and_then
            (and_then
              (driven D prepare reset finalize m x)
              (λ _. bind_all D prepare reset finalize bind_string step query (i + 1) ps))
            (λ _. drive D prepare reset finalize bind_string step (λ d'. step d' query)))
  one_bound query i p ps m (ok a d) same rest =
      let (answer, ran, result) = rest d in
      (answer, bound same ran, result ∙ driven-moved d m answer)
  one_bound query i p ps m (err e d) same rest = (err e d, refused same, refl)
  one_bound query i p ps m stuck same rest = (stuck, lost same, refl)

  bind_all-Explained :
      (query i : ℕ) (params : List Param) (m : Machine (Database D))
      → i + length params < 2 ^ 32
      → Explained query (numbered (i + 1) params) m (
          and_then
            (bind_all D prepare reset finalize bind_string step query i params m)
            (λ _. drive D prepare reset finalize bind_string step (λ d. step d query)))
  unfolding bind_all
  bind_all-Explained query i [] m few = (step m.object.driver query, stepped, refl)
  bind_all-Explained query i (p ∷ ps) m few =
      let index : word32 (i + 1) ≡ i + 1 = omega (arith, few) in
      rw index (
        one_bound query i p ps m (bind_string m.object.driver query (i + 1) p.value) refl
          λ d. bind_all-Explained query (i + 1) ps (moved d m) (omega (arith, few)))

  unchecked-After : (x : Outcome (Machine (Database D)) (Unit {0})) → After x (ok tt) (unchecked x)
  unchecked-After (ok _ m) = refl
  unchecked-After (err e m) = refl
  unchecked-After stuck = refl

  failing-After :
      (e : Error) (x : Outcome (Machine (Database D)) (Unit {0}))
      → After x (err e) (and_then (unchecked x) (λ _. err e))
  failing-After e (ok _ m) = refl
  failing-After e (err e' m) = refl
  failing-After e stuck = refl

  give_back-Closed :
      (query : ℕ) (m : Machine (Database D)) (answer : Outcome D Bool)
      → Closed query m answer (
          give_back D prepare reset finalize bind_string step query
            (driven D prepare reset finalize m answer))
  unfolding give_back
  give_back-Closed query m (ok b d) = unchecked-After _
  give_back-Closed query m (err e d) = failing-After e _
  give_back-Closed query m stuck = refl

  run-Opened :
      (params : List Param) (x : Outcome (Machine (Database D)) ℕ)
      → length params < 2 ^ 32
      → Opened params x
          (and_then x λ query. run D prepare reset finalize bind_string step query params)
  unfolding run
  run-Opened params (ok query m) few =
      let (answer, ran, result) = bind_all-Explained query 0 params m (omega (arith, few)) in
      (answer, ran, rw result (give_back-Closed query m answer))
  run-Opened params (err e m) few = refl
  run-Opened params stuck few = refl

  -- For a depth limit below 2 ^ 32 - 1, and where the text of the query's script for SQLite is
  -- shorter than 2 ^ 63 bytes and its values are fewer than 2 ^ 32: `c_orm_query_execute` either
  -- gives an error, that of the script or one for which the allocator has refused a request, and
  -- leaves the database as it was; or the script has no fault, its text is prepared by
  -- `c_orm_prepare_cached`, whose error is the result, and then the driver is asked to bind the
  -- script's values in order, the first at 1 and each one at the next number, up to the first that
  -- it refuses, and to step once if it refuses none; in both cases the statement is given back by
  -- `c_orm_finalize_cached`, whose error is not looked at, and the driver's last answer is the
  -- result.
  pub execute-Executes :
      (max_depth : ℕ) (q : Query) (m : Machine (Database D))
      → max_depth < 2 ^ 32 - 1
      → length (written Dialect.sqlite 0 (query_script max_depth true q).pieces) < 2 ^ 63
      → length (values (query_script max_depth true q).pieces) < 2 ^ 32
      → Executes
          (query_script max_depth true q)
          m.memory
          m.object
          (execute D prepare reset finalize bind_string step max_depth q m)
  unfolding perform
  execute-Executes max_depth q m fits room few =
      elim (execute-Performed D prepare reset finalize bind_string step max_depth q m fits room
        few) [
          | inl (h', fine, same) ↦ inl (h', fine, rw same (run-Opened _ _ few))
          | inr stopped ↦ inr stopped
        ]
