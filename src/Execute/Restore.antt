-- ===== src/Execute/Restore.antt =====
-- `c_orm_query_execute` leaves in use what was in use.
use c_orm.Base.{
  ℕ, ◌+◌, ◌-◌, ◌^◌, ◌<◌, ◌≡◌, ◌≢◌, refl, ap, subst, ◌∙◌, ◌⊎◌, inl, inr, Bool, true, Option, none,
  some, List, [], ◌∷◌, Bytes, length,
}
use c_orm.Memory.{Memory, Machine, machine, Outcome, ok, err, stuck, Cmd, and_then}
use c_orm.Query.Ast.{Dialect, Query}
use c_orm.Query.Params.{Param}
use c_orm.Query.Script.{written, values, query_script}
use c_orm.StatementCache.{Entry, Cache, Database, driven, prepare_cached}
use c_orm.StatementCache.Entries.{Held, Absent-Held}
use c_orm.StatementCache.Exclusive.{
  IsSound, Kept, Only, Ends, IsNew, Taken, Exclusive, prepare_cached-Exclusive,
}
use c_orm.StatementCache.Release.{database, GivenBack, finalize_cached-GivenBack}
use c_orm.Execute.{unchecked, bind_all, give_back, run, perform, execute}
use c_orm.Execute.Refine.{execute-Performed}

-- Every statement but this one is in use as before, and this one is free.
abbrev Freed : ℕ → Cache → Option Cache → Type 0
Freed query c none = ⊥
Freed query c (some c') =
    IsSound c'
    × ((q : ℕ) → q ≢ query → Held q c.entries → Held q c'.entries)
    × ((q : ℕ) → Held q c'.entries → Held q c.entries)
    × (Held query c'.entries → ⊥)

-- A cache in working order in which exactly these entries' statements in use are in use.
abbrev pub Same : List Entry → Option Cache → Type 0
Same es none = ⊥
Same es (some c) =
    IsSound c × ((q : ℕ) → Held q es → Held q c.entries) × ((q : ℕ) → Held q c.entries → Held q es)

Freed-Same :
    (es : List Entry) (query : ℕ) (c : Cache) (o : Option Cache)
    → (Held query es → ⊥)
    → Kept es (some c)
    → Only es query (some c)
    → Freed query c o
    → Same es o
Freed-Same es query c none new kept only freed = freed
Freed-Same es query c (some c') new (_, keeps) only (sound, others, back, free) = (
  sound,
  λ q held. others q (λ same. new (subst (λ x. Held x es) same held)) (keeps q held),
  λ q held. elim (only q (back q held)) [
    | inl same ↦ absurd (free (subst (λ x. Held x c'.entries) same held))
    | inr before ↦ before
  ],
)

module _ (D : Type 0) (prepare : D → Bytes → Outcome D ℕ)
    (reset finalize : D → ℕ → Outcome D (Unit {0}))
    (bind_string : D → ℕ → ℕ → Option Bytes → Outcome D (Unit {0}))
    (step : D → ℕ → Outcome D Bool) where
  -- The same statements are in use; where it was `c_orm_prepare_cached` that has failed, they are
  -- among those in use.
  abbrev pub Restores : List Entry → Outcome (Machine (Database D)) (Unit {0}) → Type 0
  Restores es (ok a m) = Same es m.object.stmt_cache
  Restores es (err e m) =
      Same es m.object.stmt_cache
      ⊎ (Kept es m.object.stmt_cache
          × ((sql : Bytes) × (m' : Machine (Database D)) × (prepare_cached D prepare reset finalize
                  sql m'
                ≡ err e m)))
  Restores es stuck = ⊥

  -- It ends, and the statement has been freed.
  abbrev Settled : ℕ → Cache → Outcome (Machine (Database D)) (Unit {0}) → Type 0
  Settled query c (ok a m) = Freed query c m.object.stmt_cache
  Settled query c (err e m) = Freed query c m.object.stmt_cache
  Settled query c stuck = ⊥

  Settled-Restores :
      (es : List Entry) (query : ℕ) (c : Cache) (r : Outcome (Machine (Database D)) (Unit {0}))
      → (Held query es → ⊥)
      → Kept es (some c)
      → Only es query (some c)
      → Settled query c r
      → Restores es r
  Settled-Restores es query c (ok a m) new kept only freed =
      Freed-Same es query c m.object.stmt_cache new kept only freed
  Settled-Restores es query c (err e m) new kept only freed =
      inl (Freed-Same es query c m.object.stmt_cache new kept only freed)
  Settled-Restores es query c stuck new kept only bad = bad

  -- It ends, and the cache is as it was.
  abbrev Leaves : {A : Type 0} → Cache → Outcome (Machine (Database D)) A → Type 0
  Leaves c (ok a m) = (h : Memory) × (d : D) × (m ≡ database D prepare reset finalize h d c)
  Leaves c (err e m) = (h : Memory) × (d : D) × (m ≡ database D prepare reset finalize h d c)
  Leaves c stuck = ⊥

  driven-Leaves :
      {A : Type 0} (h : Memory) (d : D) (c : Cache) (r : Outcome D A)
      → Ends D r
      → Leaves c (driven D prepare reset finalize (database D prepare reset finalize h d c) r)
  driven-Leaves h d c (ok a d') ends = (h, d', refl)
  driven-Leaves h d c (err e d') ends = (h, d', refl)
  driven-Leaves h d c stuck bad = bad

  and_then-Leaves :
      {A B : Type 0} (c : Cache) (r : Outcome (Machine (Database D)) A) (k : A → Cmd (Database D) B)
      → Leaves c r
      → ((a : A) (h : Memory) (d : D) → Leaves c (k a (database D prepare reset finalize h d c)))
      → Leaves c (and_then r k)
  and_then-Leaves c (ok a m) k (h, d, same) next = rw same (next a h d)
  and_then-Leaves c (err e m) k leaves next = leaves
  and_then-Leaves c stuck k bad next = bad

  module _ (reset-Ends : (d : D) (q : ℕ) → Ends D (reset d q))
      (finalize-Ends : (d : D) (q : ℕ) → Ends D (finalize d q))
      (bind_string-Ends : (d : D) (q i : ℕ) (v : Option Bytes) → Ends D (bind_string d q i v))
      (step-Ends : (d : D) (q : ℕ) → Ends D (step d q)) where
    bind_all-Leaves :
        (query i : ℕ) (params : List Param) (h : Memory) (d : D) (c : Cache)
        → Leaves c (
            bind_all D prepare reset finalize bind_string step query i params
              (database D prepare reset finalize h d c))
    unfolding bind_all
    bind_all-Leaves query i [] h d c = (h, d, refl)
    bind_all-Leaves query i (p ∷ ps) h d c =
        and_then-Leaves c _ _ (driven-Leaves h d c _ (bind_string-Ends d query _ p.value))
          λ _ h' d'. bind_all-Leaves query (i + 1) ps h' d' c

    unchecked-driven :
        (h : Memory) (d : D) (c : Cache) (r : Outcome D (Unit {0}))
        → Ends D r
        → (d' : D) × (unchecked
              (driven D prepare reset finalize (database D prepare reset finalize h d c) r)
            ≡ ok tt (database D prepare reset finalize h d' c))
    unchecked-driven h d c (ok a d') ends = (d', refl)
    unchecked-driven h d c (err e d') ends = (d', refl)
    unchecked-driven h d c stuck bad = absurd bad

    GivenBack-Freed :
        (query : ℕ) (h : Memory) (d : D) (c : Cache) (r : Outcome (Machine (Database D)) (Unit {0}))
        → IsSound c
        → GivenBack D prepare reset finalize query h d c r
        → (m : Machine (Database D)) × (unchecked r ≡ ok tt m) × Freed query c m.object.stmt_cache
    GivenBack-Freed query h d c r sound given = elim given [
      | inl (es, frees, same) ↦ (
        database D prepare reset finalize h d (record c { entries = es }),
        ap unchecked same,
        (
          record {
            unique = frees.unique sound.unique;
            count = sound.count ∙ frees.count;
            linked = sound.linked;
          },
          frees.kept,
          frees.back,
          frees.free sound.unique,
        ),
      )
      | inr (absent, same) ↦
          let (d', end) = unchecked-driven h d c (finalize d query) (finalize-Ends d query) in
          (
            database D prepare reset finalize h d' c,
            ap unchecked same ∙ end,
            (sound, λ q differs held. held, λ q held. held, Absent-Held query c.entries absent),
          )
    ]

    -- What is given back after the statement has been run.
    pub give_back-Freed :
        (query : ℕ) (c : Cache) (r : Outcome (Machine (Database D)) Bool)
        → IsSound c
        → Leaves c r
        → Settled query c (give_back D prepare reset finalize bind_string step query r)
    unfolding give_back
    give_back-Freed query c (ok has_row m) sound (h, d, same) =
        let (m', end, freed) =
          GivenBack-Freed query h d c _ sound
            (finalize_cached-GivenBack D prepare reset finalize query h d c sound.linked) in
        rw (same, end) freed
    give_back-Freed query c (err e m) sound (h, d, same) =
        let (m', end, freed) =
          GivenBack-Freed query h d c _ sound
            (finalize_cached-GivenBack D prepare reset finalize query h d c sound.linked) in
        rw (same, end) freed
    give_back-Freed query c stuck sound bad = bad

    run-Freed :
        (query : ℕ) (params : List Param) (h : Memory) (d : D) (c : Cache)
        → IsSound c
        → Settled query c (
            run D prepare reset finalize bind_string step query params
              (database D prepare reset finalize h d c))
    unfolding run
    run-Freed query params h d c sound = give_back-Freed query c _ sound (
        and_then-Leaves c _ _ (bind_all-Leaves query 0 params h d c)
          λ _ h' d'. driven-Leaves h' d' c _ (step-Ends d' query))

    run_in-Restores :
        (es : List Entry) (query : ℕ) (params : List Param) (h : Memory) (d : D) (o : Option Cache)
        → (Held query es → ⊥)
        → Kept es o
        → Only es query o
        → Restores es (
            run D prepare reset finalize bind_string step query params
              (machine h (record { driver = d; stmt_cache = o })))
    run_in-Restores es query params h d none new kept only = absurd kept
    run_in-Restores es query params h d (some c) new kept only =
        Settled-Restores es query c _ new kept only (run-Freed query params h d c kept.0)

    run-Restores :
        (es : List Entry) (query : ℕ) (params : List Param) (m : Machine (Database D))
        → (Held query es → ⊥)
          × Kept es m.object.stmt_cache
          × Only es query m.object.stmt_cache
          × Taken query m.object.stmt_cache
        → Restores es (run D prepare reset finalize bind_string step query params m)
    run-Restores es query params m (new, kept, only, taken) =
        run_in-Restores es query params m.memory m.object.driver m.object.stmt_cache new kept only

    ran :
        (es : List Entry) (sql : Bytes) (params : List Param) (m : Machine (Database D))
        (r : Outcome (Machine (Database D)) ℕ)
        → prepare_cached D prepare reset finalize sql m ≡ r
        → Exclusive D es r
        → Restores es
            (and_then r λ query. run D prepare reset finalize bind_string step query params)
    ran es sql params m (ok query m') same exclusive = run-Restores es query params m' exclusive
    ran es sql params m (err e m') same kept = inr (kept, (sql, m, same))
    ran es sql params m stuck same bad = bad

    perform-Restores :
        (sql : Bytes) (params : List Param) (h : Memory) (d : D) (c : Cache)
        → IsSound c
        → length c.entries < 2 ^ 63
        → IsNew D c.entries (prepare d sql)
        → Restores c.entries (
            perform D prepare reset finalize bind_string step sql params
              (database D prepare reset finalize h d c))
    unfolding perform
    perform-Restores sql params h d c sound room new =
        ran c.entries sql params (database D prepare reset finalize h d c) _ refl (
          prepare_cached-Exclusive D prepare reset finalize reset-Ends finalize-Ends sql h d c sound
            room new)

    -- For a driver each of whose calls gives a result or an error, a cache in working order with
    -- fewer than 2 ^ 63 entries, and a `prepare` that gives no statement of the cache; for a depth
    -- limit below 2 ^ 32 - 1, and where the text of the query's script for SQLite is shorter than
    -- 2 ^ 63 bytes and its values are fewer than 2 ^ 32: `c_orm_query_execute` ends; whether it
    -- succeeds or fails, the cache is in working order and exactly the statements that were in use
    -- before are in use, so its own is free again or with the driver; only where the error is that of
    -- `c_orm_prepare_cached` may others be in use as well.
    pub execute-Restores :
        (max_depth : ℕ) (q : Query) (h : Memory) (d : D) (c : Cache)
        → IsSound c
        → length c.entries < 2 ^ 63
        → ((sql : Bytes) → IsNew D c.entries (prepare d sql))
        → max_depth < 2 ^ 32 - 1
        → length (written Dialect.sqlite 0 (query_script max_depth true q).pieces) < 2 ^ 63
        → length (values (query_script max_depth true q).pieces) < 2 ^ 32
        → Restores c.entries (
            execute D prepare reset finalize bind_string step max_depth q
              (database D prepare reset finalize h d c))
    execute-Restores max_depth q h d c sound few_entries new fits room few =
        elim (execute-Performed D prepare reset finalize bind_string step max_depth q
          (database D prepare reset finalize h d c) fits room few) [
            | inl (h', fine, same) ↦ rw same (perform-Restores _ _ h' d c sound few_entries (new _))
            | inr (e, h', same, why) ↦ rw same (inl (sound, λ q held. held, λ q held. held))
          ]
