-- ===== src/StatementCache.antt =====
-- src/c_orm_cache.c: prepared statements that are kept for the next use, the last used first. The
-- doubly linked list is a list, head first. The functions of the driver are not code of this file:
-- `prepare`, `reset` and `finalize` of its function table are parameters, on a state `D` of the
-- driver. The mutex is left out: each function here runs as a whole.
pub mod Crowded
pub mod Entries
pub mod Exclusive
pub mod Leak
pub mod Release
use c_orm.Base.{
  ℕ, ◌+◌, ◌-◌, ◌%◌, ◌^◌, Bool, true, false, not, ◌&&◌, Option, none, some, List, [], ◌∷◌, Bytes,
  length, ltb, equal, ◌==◌, if◌then◌else◌,
}
use c_orm.Memory.{
  Error, Memory, Machine, machine, Outcome, ok, err, stuck, Cmd, ◌>>=◌, ◌>>◌, pure, fail, get, put,
  alloc,
}
use c_orm.StringBuilder.{word}

-- `c_orm_stmt_entry_t`; a `c_orm_query_t *` is the number of a statement of the driver.
pub record Entry : Type 0 where
  pub sql : Bytes
  pub query : ℕ
  pub in_use : Bool

-- `c_orm_stmt_cache_t`. `dangling`: has `c_orm_disable_statement_caching` freed entries that are
-- still linked?
pub record Cache : Type 0 where
  pub capacity : ℕ
  pub count : ℕ
  pub entries : List Entry
  pub dangling : Bool

-- `c_orm_db_t`, as far as it is used here
pub record Database (D : Type 0) : Type 0 where
  pub driver : D
  pub stmt_cache : Option Cache

-- The loop for an entry that is free and has this text: the entry, and the list without it.
abbrev pub keep_entry : Entry → Option (Entry × List Entry) → Option (Entry × List Entry)
keep_entry e none = none
keep_entry e (some (found, rest)) = some (found, e ∷ rest)

abbrev pub is_match : Bytes → Entry → Bool
is_match sql e = not e.in_use && equal e.sql sql

unfoldable pub take_entry : Bytes → List Entry → Option (Entry × List Entry)
take_entry sql [] = none
take_entry sql (e ∷ es) =
    let rest = take_entry sql es in if is_match sql e then some (e, es) else keep_entry e rest

-- The loop from the tail for an entry that is free.
abbrev pub evict_here :
    Entry → List Entry → Option (Entry × List Entry) → Option (Entry × List Entry)
evict_here e es (some (found, rest)) = some (found, e ∷ rest)
evict_here e es none = if e.in_use then none else some (e, es)

unfoldable pub evict_entry : List Entry → Option (Entry × List Entry)
evict_entry [] = none
evict_entry (e ∷ es) = evict_here e es (evict_entry es)

-- The loop of `c_orm_finalize_cached`: the list with the entry of this query free, if there is one.
abbrev pub released_later : Entry → Option (List Entry) → Option (List Entry)
released_later e none = none
released_later e (some es) = some (e ∷ es)

unfoldable pub release : ℕ → List Entry → Option (List Entry)
release query [] = none
release query (e ∷ es) =
    let rest = release query es in
    if e.query == query then some (record e { in_use = false } ∷ es) else released_later e rest

-- `sizeof` of the structs and of the mutex on a 64-bit platform
abbrev cache_size : ℕ
cache_size = 40

abbrev lock_size : ℕ
lock_size = 40

abbrev entry_size : ℕ
entry_size = 40

module _ (D : Type 0) (prepare : D → Bytes → Outcome D ℕ)
    (reset finalize : D → ℕ → Outcome D (Unit {0})) where
  -- What a call of the driver does to the database.
  abbrev pub driven :
      {A : Type 0} → Machine (Database D) → Outcome D A → Outcome (Machine (Database D)) A
  driven m (ok a d) = ok a (record m { object = record m.object { driver = d } })
  driven m (err e d) = err e (record m { object = record m.object { driver = d } })
  driven m stuck = stuck

  abbrev pub call : {A : Type 0} → (D → Outcome D A) → Cmd (Database D) A
  call f m = driven m (f m.object.driver)

  abbrev pub put_cache : Cache → Cmd (Database D) (Unit {0})
  put_cache c = get >>= λ db. put (record db { stmt_cache = some c })

  -- `c_orm_enable_statement_caching`
  unfoldable pub enable : ℕ → Cmd (Database D) (Unit {0})
  enable size = get >>= λ db. elim db.stmt_cache [
    | some c ↦ pure tt
    | none ↦ do
      cache_ok ← alloc cache_size
      if not cache_ok then fail Error.memory else do
        lock_ok ← alloc lock_size
        if not lock_ok
            then fail Error.memory
            else put_cache (record {
              capacity = if size == 0 then 128 else size;
              count = 0;
              entries = [];
              dangling = false;
            })
  ]

  -- The loop of `c_orm_disable_statement_caching`. Where `finalize` fails, the entries that have
  -- been freed stay linked.
  unfoldable pub finalized :
      Cache
      → Outcome (Machine (Database D)) (Unit {0})
      → Cmd (Database D) (Unit {0})
      → Outcome (Machine (Database D)) (Unit {0})
  finalized c (ok a m) next = next m
  finalized c (err e m) next = (put_cache c >> fail e) m
  finalized c stuck next = stuck

  unfoldable pub finalize_all : Cache → List Entry → Cmd (Database D) (Unit {0})
  unfolding finalized
  finalize_all c [] = get >>= λ db. put (record db { stmt_cache = none })
  finalize_all c (e ∷ es) = λ m.
      finalized c (call (λ d. finalize d e.query) m)
        (finalize_all (record c { dangling = true }) es)

  -- `c_orm_disable_statement_caching`
  unfoldable pub disable : Cmd (Database D) (Unit {0})
  unfolding finalize_all
  disable = get >>= λ db. elim db.stmt_cache [
    | none ↦ pure tt
    | some c ↦ if c.dangling then (λ m. stuck) else finalize_all c c.entries
  ]

  -- A found entry goes to the front.
  unfoldable pub reuse : Cache → Entry → List Entry → Cmd (Database D) ℕ
  reuse c e rest = do
    put_cache (record c { entries = record e { in_use = true } ∷ rest })
    call (λ d. reset d e.query)
    pure e.query

  -- `cache->count--`
  abbrev pub dropped : Cache → List Entry → Cache
  dropped c rest = record c { entries = rest; count = c.count - 1 }

  -- The end of the eviction, whether `finalize` has failed or not.
  unfoldable pub evicted : Cache → Option (Entry × List Entry) → Cmd (Database D) (Unit {0})
  evicted c none = pure tt
  evicted c (some (victim, rest)) =
      put_cache (dropped c rest) >> call (λ d. finalize d victim.query)

  unfoldable pub evict : Cache → Cmd (Database D) (Unit {0})
  unfolding evicted
  evict c = if ltb c.capacity c.count then evicted c (evict_entry c.entries) else pure tt

  -- A new entry at the front, and the eviction.
  unfoldable pub insert_entry : Cache → Bytes → ℕ → Cmd (Database D) ℕ
  unfolding evict
  insert_entry c sql query =
      let c' : Cache = record c {
        entries = record { sql = sql; query = query; in_use = true } ∷ c.entries;
        count = word (c.count + 1);
      } in
      put_cache c' >> (evict c' >> pure query)

  -- The new entry; where there is no memory for it, the statement is not cached.
  unfoldable pub remember : Cache → Bytes → ℕ → Cmd (Database D) ℕ
  unfolding insert_entry
  remember c sql query = do
    entry_ok ← alloc entry_size
    if not entry_ok then pure query else do
      text_ok ← alloc (word (length sql + 1))
      if not text_ok then pure query else insert_entry c sql query

  unfoldable pub look_up : Cache → Bytes → Option (Entry × List Entry) → Cmd (Database D) ℕ
  unfolding reuse remember
  look_up c sql (some (e, rest)) = reuse c e rest
  look_up c sql none = call (λ d. prepare d sql) >>= λ query. remember c sql query

  unfoldable pub prepare_in : Option Cache → Bytes → Cmd (Database D) ℕ
  unfolding look_up
  prepare_in none sql = call (λ d. prepare d sql)
  prepare_in (some c) sql =
      if c.dangling then (λ m. stuck) else look_up c sql (take_entry sql c.entries)

  -- `c_orm_prepare_cached`, on a database and a text that are there. An error holds no statement,
  -- though `*out_query` may have been written before it.
  unfoldable pub prepare_cached : Bytes → Cmd (Database D) ℕ
  unfolding prepare_in
  prepare_cached sql = get >>= λ db. prepare_in db.stmt_cache sql

  unfoldable pub release_in : Cache → ℕ → Option (List Entry) → Cmd (Database D) (Unit {0})
  release_in c query none = call (λ d. finalize d query)
  release_in c query (some es) = put_cache (record c { entries = es })

  unfoldable pub finalize_in : Option Cache → ℕ → Cmd (Database D) (Unit {0})
  unfolding release_in
  finalize_in none query = call (λ d. finalize d query)
  finalize_in (some c) query =
      if c.dangling then (λ m. stuck) else release_in c query (release query c.entries)

  -- `c_orm_finalize_cached`, on a database and a query that are there.
  unfoldable pub finalize_cached : ℕ → Cmd (Database D) (Unit {0})
  unfolding finalize_in
  finalize_cached query = get >>= λ db. finalize_in db.stmt_cache query
