-- ===== src/StatementCache/Crowded.antt =====
-- A cache that holds more than its capacity.
use c_orm.Base.{
  ℕ, ◌+◌, ◌^◌, ◌≤◌, ◌<◌, ◌≡◌, refl, sym, subst, inl, inr, true, false, Option, none, some, List,
  ◌∷◌, Bytes, arith, length, ltb, Bool-cases,
}
use c_orm.Memory.{Memory, Machine, machine, Outcome, ok, err, stuck, and_then, pure}
use c_orm.StringBuilder.{word}
use c_orm.StatementCache.{
  Entry, Cache, Database, take_entry, evict_entry, driven, reuse, dropped, evicted, evict,
  insert_entry, remember, look_up, prepare_in, prepare_cached,
}

-- The cache counts at least so many entries.
abbrev pub Counts : ℕ → Option Cache → Type 0
Counts n none = ⊥
Counts n (some c) = n ≤ c.count

module _ (D : Type 0) where
  -- However the call ends, if it ends.
  abbrev pub Crowded : {A : Type 0} → ℕ → Outcome (Machine (Database D)) A → Type 0
  Crowded n (ok a m) = Counts n m.object.stmt_cache
  Crowded n (err e m) = Counts n m.object.stmt_cache
  Crowded n stuck = Unit

module _ (D : Type 0) (prepare : D → Bytes → Outcome D ℕ)
    (reset finalize : D → ℕ → Outcome D (Unit {0})) where
  called :
      {A : Type 0} (n query : ℕ) (m : Machine (Database D)) (r : Outcome D A)
      → Counts n m.object.stmt_cache
      → Crowded D n (and_then (driven D prepare reset finalize m r) (λ _. pure query))
  called n query m (ok a d) counts = counts
  called n query m (err e d) counts = counts
  called n query m stuck counts = tt

  abbrev with_cache : Cache → Machine (Database D) → Machine (Database D)
  with_cache c m = record m { object = record m.object { stmt_cache = some c } }

  evicted-Crowded :
      (n query : ℕ) (c : Cache) (m : Machine (Database D)) (o : Option (Entry × List Entry))
      → n + 1 ≤ c.count
      → Crowded D n
          (and_then (evicted D prepare reset finalize c o (with_cache c m)) (λ _. pure query))
  unfolding evicted
  evicted-Crowded n query c m none counts = omega arith
  evicted-Crowded n query c m (some (e, rest)) counts =
      called n query (with_cache (dropped D prepare reset finalize c rest) m)
        (finalize m.object.driver e.query) (omega arith)

  insert-Crowded :
      (c : Cache) (sql : Bytes) (query : ℕ) (m : Machine (Database D))
      → c.capacity < c.count
      → c.count + 1 < 2 ^ 64
      → Crowded D c.count (insert_entry D prepare reset finalize c sql query m)
  unfolding insert_entry evict
  insert-Crowded c sql query m over small =
      let c' : Cache = record c {
        entries = record { sql = sql; query = query; in_use = true } ∷ c.entries;
        count = word (c.count + 1);
      } in
      let more : ltb c.capacity (word (c.count + 1)) ≡ true = ground arith in
      rw more (evicted-Crowded c.count query c' m (evict_entry c'.entries) (omega arith))

  remember-Crowded :
      (c : Cache) (sql : Bytes) (query : ℕ) (m : Machine (Database D))
      → m.object.stmt_cache ≡ some c
      → c.capacity < c.count
      → c.count + 1 < 2 ^ 64
      → Crowded D c.count (remember D prepare reset finalize c sql query m)
  unfolding remember
  remember-Crowded c sql query m set over small =
      let counts : Counts c.count m.object.stmt_cache =
        subst (Counts c.count) (sym set) (omega arith) in
      elim (Bool-cases (m.memory.grants m.memory.calls 40)) [
        | inr refused ↦ rw refused counts
        | inl entry_ok ↦
            elim (Bool-cases (m.memory.grants (m.memory.calls + 1) (word (length sql + 1)))) [
              | inr refused ↦ rw (entry_ok, refused) counts
              | inl text_ok ↦
                  rw (entry_ok, text_ok)
                    (insert-Crowded c sql query
                      (machine (record m.memory { calls = m.memory.calls + 1 + 1 }) m.object) over
                      small)
            ]
      ]

  prepared :
      (c : Cache) (sql : Bytes) (m : Machine (Database D)) (r : Outcome D ℕ)
      → m.object.stmt_cache ≡ some c
      → c.capacity < c.count
      → c.count + 1 < 2 ^ 64
      → Crowded D c.count (
          and_then
            (driven D prepare reset finalize m r)
            (λ query. remember D prepare reset finalize c sql query))
  prepared c sql m (ok query d) set over small =
      remember-Crowded c sql query (record m { object = record m.object { driver = d } }) set over
        small
  prepared c sql m (err e d) set over small = subst (Counts c.count) (sym set) (omega arith)
  prepared c sql m stuck set over small = tt

  look_up-Crowded :
      (c : Cache) (sql : Bytes) (m : Machine (Database D)) (o : Option (Entry × List Entry))
      → m.object.stmt_cache ≡ some c
      → c.capacity < c.count
      → c.count + 1 < 2 ^ 64
      → Crowded D c.count (look_up D prepare reset finalize c sql o m)
  unfolding look_up reuse
  look_up-Crowded c sql m none set over small =
      prepared c sql m (prepare m.object.driver sql) set over small
  look_up-Crowded c sql m (some (e, rest)) set over small =
      called c.count e.query
        (with_cache (record c { entries = record e { in_use = true } ∷ rest }) m)
        (reset m.object.driver e.query) (omega arith)

  -- Once the cache counts more entries than its capacity, no `c_orm_prepare_cached` makes it count
  -- fewer than before, however many of them have been released meanwhile: a call that adds an entry
  -- evicts at most one.
  pub prepare_cached-Crowded :
      (sql : Bytes) (h : Memory) (d : D) (c : Cache)
      → c.dangling ≡ false
      → c.capacity < c.count
      → c.count + 1 < 2 ^ 64
      → Crowded D c.count (
          prepare_cached D prepare reset finalize sql
            (machine h (record { driver = d; stmt_cache = some c })))
  unfolding prepare_cached prepare_in
  prepare_cached-Crowded sql h d c linked over small = simp linked (
      look_up-Crowded c sql (machine h (record { driver = d; stmt_cache = some c }))
        (take_entry sql c.entries) refl over small)
