-- ===== src/StatementCache/Exclusive.antt =====
-- No statement of the cache is handed out twice, and none is evicted while it is in use.
use c_orm.Base.{
  ℕ, ◌+◌, ◌^◌, ◌<◌, ◌≡◌, refl, sym, subst, ◌⊎◌, inl, inr, true, false, Option, none, some, List,
  ◌∷◌, Bytes, arith, length, ltb, Bool-cases,
}
use c_orm.Memory.{Memory, Machine, machine, Outcome, ok, err, stuck, and_then, pure}
use c_orm.StringBuilder.{word}
use c_orm.StatementCache.{
  Entry, Cache, Database, take_entry, evict_entry, driven, reuse, dropped, evicted, evict,
  insert_entry, remember, look_up, prepare_in, prepare_cached,
}
use c_orm.StatementCache.Entries.{
  Removes, Absent, Unique, Held, Absent-Held, Removes-Unique, Removes-Held, Removes-back,
  Removes-alone, Found, take_entry-Found, evict_entry-Found, Removes-length,
}

-- A cache in working order.
pub record IsSound (c : Cache) : Type 0 where
  pub unique : Unique c.entries
  pub count : c.count ≡ length c.entries
  pub linked : c.dangling ≡ false

-- What was handed out before is handed out still.
abbrev pub Kept : List Entry → Option Cache → Type 0
Kept es none = ⊥
Kept es (some c) = IsSound c × ((q : ℕ) → Held q es → Held q c.entries)

-- Nothing but what was handed out before, and this query, is handed out.
abbrev pub Only : List Entry → ℕ → Option Cache → Type 0
Only es query none = ⊥
Only es query (some c) = (q : ℕ) → Held q c.entries → (q ≡ query) ⊎ Held q es

-- This query is marked as in use, or it is not in the cache at all.
abbrev pub Taken : ℕ → Option Cache → Type 0
Taken query none = ⊥
Taken query (some c) = Held query c.entries ⊎ Absent query c.entries

module _ (D : Type 0) where
  -- A call of the driver gives a result or an error.
  abbrev pub Ends : {A : Type 0} → Outcome D A → Type 0
  Ends (ok a d) = Unit
  Ends (err e d) = Unit
  Ends stuck = ⊥

  -- A statement that the driver has prepared is none of those of the cache.
  abbrev pub IsNew : List Entry → Outcome D ℕ → Type 0
  IsNew es (ok query d) = Absent query es
  IsNew es (err e d) = Unit
  IsNew es stuck = ⊥

  -- The query was not handed out before.
  abbrev pub Exclusive : List Entry → Outcome (Machine (Database D)) ℕ → Type 0
  Exclusive es (ok query m) =
      (Held query es → ⊥)
      × Kept es m.object.stmt_cache
      × Only es query m.object.stmt_cache
      × Taken query m.object.stmt_cache
  Exclusive es (err e m) = Kept es m.object.stmt_cache
  Exclusive es stuck = ⊥

module _ (D : Type 0) (prepare : D → Bytes → Outcome D ℕ)
    (reset finalize : D → ℕ → Outcome D (Unit {0}))
    (reset-Ends : (d : D) (q : ℕ) → Ends D (reset d q))
    (finalize-Ends : (d : D) (q : ℕ) → Ends D (finalize d q)) where
  abbrev with_cache : Cache → Machine (Database D) → Machine (Database D)
  with_cache c m = record m { object = record m.object { stmt_cache = some c } }

  -- A last call of the driver.
  called :
      (es : List Entry) (query : ℕ) (m : Machine (Database D)) (r : Outcome D (Unit {0}))
      → (Held query es → ⊥)
      → Kept es m.object.stmt_cache
      → Only es query m.object.stmt_cache
      → Taken query m.object.stmt_cache
      → Ends D r
      → Exclusive D es (and_then (driven D prepare reset finalize m r) (λ _. pure query))
  called es query m (ok a d) new kept only taken ends = (new, kept, only, taken)
  called es query m (err e d) new kept only taken ends = kept
  called es query m stuck new kept only taken bad = bad

  reuse-Exclusive :
      (c : Cache) (e : Entry) (rest : List Entry) (m : Machine (Database D))
      → IsSound c
      → Removes e c.entries rest
      → e.in_use ≡ false
      → Exclusive D c.entries (reuse D prepare reset finalize c e rest m)
  unfolding reuse
  reuse-Exclusive c e rest m sound removes free =
      let alone = Removes-alone removes sound.unique in
      called c.entries e.query
        (with_cache (record c { entries = record e { in_use = true } ∷ rest }) m)
        (reset m.object.driver e.query)
        (λ held. Absent-Held e.query rest alone (Removes-Held e.query removes free held))
        (
          record {
            unique = (alone, Removes-Unique removes sound.unique);
            count = omega (arith, Removes-length removes, sound.count);
            linked = sound.linked;
          },
          λ q held. inr (Removes-Held q removes free held),
        )
        (λ q held. elim held [
          | inl first ↦ inl (sym first.0)
          | inr later ↦ inr (Removes-back q removes later)
        ])
        (inl (inl (refl, refl))) (reset-Ends m.object.driver e.query)

  -- The cache with the new entry in front of it.
  abbrev inserted : Cache → Bytes → ℕ → Cache
  inserted c sql query = record c {
    entries = record { sql = sql; query = query; in_use = true } ∷ c.entries;
    count = word (c.count + 1);
  }

  inserted-Kept :
      (c : Cache) (sql : Bytes) (query : ℕ)
      → IsSound c
      → length c.entries < 2 ^ 63
      → Absent query c.entries
      → Kept c.entries (some (inserted c sql query))
  inserted-Kept c sql query sound room absent = (
    record {
      unique = (absent, sound.unique);
      count = omega (arith, sound.count);
      linked = sound.linked;
    },
    λ q held. inr held,
  )

  evicted-Exclusive :
      (es : List Entry) (c : Cache) (query : ℕ) (m : Machine (Database D))
      (o : Option (Entry × List Entry))
      → (Held query es → ⊥)
      → Kept es (some c)
      → Only es query (some c)
      → Held query c.entries
      → Found c.entries o
      → Exclusive D es
          (and_then (evicted D prepare reset finalize c o (with_cache c m)) (λ _. pure query))
  unfolding evicted
  evicted-Exclusive es c query m none new kept only held found = (new, kept, only, inl held)
  evicted-Exclusive es c query m (some (e, rest)) new (sound, keeps) only held (removes, free) =
      called es query (with_cache (dropped D prepare reset finalize c rest) m)
        (finalize m.object.driver e.query) new
        (
          record {
            unique = Removes-Unique removes sound.unique;
            count = omega (arith, Removes-length removes, sound.count);
            linked = sound.linked;
          },
          λ q held. Removes-Held q removes free (keeps q held),
        )
        (λ q held. only q (Removes-back q removes held))
        (inl (Removes-Held query removes free held)) (finalize-Ends m.object.driver e.query)

  insert-Exclusive :
      (c : Cache) (sql : Bytes) (query : ℕ) (m : Machine (Database D))
      → IsSound c
      → length c.entries < 2 ^ 63
      → Absent query c.entries
      → Exclusive D c.entries (insert_entry D prepare reset finalize c sql query m)
  unfolding insert_entry evict
  insert-Exclusive c sql query m sound room absent =
      let c' = inserted c sql query in
      let new = Absent-Held query c.entries absent in
      let kept = inserted-Kept c sql query sound room absent in
      let only : Only c.entries query (some c') =
        λ q held. elim held [ inl first ↦ inl (sym first.0) | inr later ↦ inr later ] in
      elim (Bool-cases (ltb c.capacity c'.count)) [
        | inl over ↦ rw over (
            evicted-Exclusive c.entries c' query m (evict_entry c'.entries) new kept only
              (inl (refl, refl)) (evict_entry-Found c'.entries))
        | inr fits ↦ rw fits (new, kept, only, inl (inl (refl, refl)))
      ]

  remember-Exclusive :
      (c : Cache) (sql : Bytes) (query : ℕ) (m : Machine (Database D))
      → m.object.stmt_cache ≡ some c
      → IsSound c
      → length c.entries < 2 ^ 63
      → Absent query c.entries
      → Exclusive D c.entries (remember D prepare reset finalize c sql query m)
  unfolding remember
  remember-Exclusive c sql query m set sound room absent =
      let new = Absent-Held query c.entries absent in
      let kept : Kept c.entries (some c) = (sound, λ q held. held) in
      let only : Only c.entries query (some c) = λ q held. inr held in
      elim (Bool-cases (m.memory.grants m.memory.calls 40)) [
        | inr refused ↦ rw refused (
          new,
          subst (Kept c.entries) (sym set) kept,
          subst (Only c.entries query) (sym set) only,
          subst (Taken query) (sym set) (inr absent),
        )
        | inl entry_ok ↦
            elim (Bool-cases (m.memory.grants (m.memory.calls + 1) (word (length sql + 1)))) [
              | inr refused ↦
                  rw (entry_ok, refused)
                    (
                      new,
                      subst (Kept c.entries) (sym set) kept,
                      subst (Only c.entries query) (sym set) only,
                      subst (Taken query) (sym set) (inr absent),
                    )
              | inl text_ok ↦
                  rw (entry_ok, text_ok)
                    (insert-Exclusive c sql query
                      (machine (record m.memory { calls = m.memory.calls + 1 + 1 }) m.object) sound
                      room absent)
            ]
      ]

  prepared :
      (c : Cache) (sql : Bytes) (m : Machine (Database D)) (r : Outcome D ℕ)
      → m.object.stmt_cache ≡ some c
      → IsSound c
      → length c.entries < 2 ^ 63
      → IsNew D c.entries r
      → Exclusive D c.entries (
          and_then
            (driven D prepare reset finalize m r)
            (λ query. remember D prepare reset finalize c sql query))
  prepared c sql m (ok query d) set sound room absent =
      remember-Exclusive c sql query (record m { object = record m.object { driver = d } }) set
        sound room absent
  prepared c sql m (err e d) set sound room absent =
      subst (Kept c.entries) (sym set) (sound, λ q held. held)
  prepared c sql m stuck set sound room bad = bad

  look_up-Exclusive :
      (c : Cache) (sql : Bytes) (m : Machine (Database D)) (o : Option (Entry × List Entry))
      → m.object.stmt_cache ≡ some c
      → IsSound c
      → length c.entries < 2 ^ 63
      → IsNew D c.entries (prepare m.object.driver sql)
      → Found c.entries o
      → Exclusive D c.entries (look_up D prepare reset finalize c sql o m)
  unfolding look_up
  look_up-Exclusive c sql m none set sound room new found =
      prepared c sql m (prepare m.object.driver sql) set sound room new
  look_up-Exclusive c sql m (some (e, rest)) set sound room new (removes, free) =
      reuse-Exclusive c e rest m sound removes free

  -- For a driver whose `reset` and `finalize` give a result or an error: on a cache in working order
  -- with fewer than 2 ^ 63 entries, where a statement that the driver prepares is none of those of
  -- the cache, `c_orm_prepare_cached` gives a statement that was not handed out before, or an error;
  -- in both cases the cache is in working order, its count being that of its entries, and every
  -- statement that was handed out is there still and still marked as in use, so none is evicted or
  -- handed out again before it is released. Where it succeeds, nothing but these and the new one is
  -- in use, and the new one is in the cache and marked as in use, or it is not in the cache.
  pub prepare_cached-Exclusive :
      (sql : Bytes) (h : Memory) (d : D) (c : Cache)
      → IsSound c
      → length c.entries < 2 ^ 63
      → IsNew D c.entries (prepare d sql)
      → Exclusive D c.entries (
          prepare_cached D prepare reset finalize sql
            (machine h (record { driver = d; stmt_cache = some c })))
  unfolding prepare_cached prepare_in
  prepare_cached-Exclusive sql h d c sound room new = simp sound.linked (
      look_up-Exclusive c sql (machine h (record { driver = d; stmt_cache = some c }))
        (take_entry sql c.entries) refl sound room new (take_entry-Found sql c.entries))
