-- ===== src/StatementCache/Leak.antt =====
-- `c_orm_prepare_cached` where the driver cannot finalize the statement that is evicted.
use c_orm.Base.{
  ℕ, ◌+◌, ◌≡◌, refl, subst, inl, true, false, Option, none, some, List, ◌∷◌, Bytes, length, ltb,
}
use c_orm.Memory.{Error, Memory, Machine, machine, Outcome, ok, err, stuck}
use c_orm.StringBuilder.{word}
use c_orm.StatementCache.{
  Entry, Cache, Database, take_entry, evict_entry, evict, insert_entry, remember, look_up,
  prepare_in, prepare_cached,
}
use c_orm.StatementCache.Entries.{Held, Found, Removes-Held, evict_entry-Found}

abbrev pub HeldIn : ℕ → Option Cache → Type 0
HeldIn query none = ⊥
HeldIn query (some c) = Held query c.entries

module _ (D : Type 0) where
  -- The error, and a cache in which this statement is in use.
  abbrev pub FailsHolding : Error → ℕ → Outcome (Machine (Database D)) ℕ → Type 0
  FailsHolding e query (ok q m) = ⊥
  FailsHolding e query (err e' m) = (e' ≡ e) × HeldIn query m.object.stmt_cache
  FailsHolding e query stuck = ⊥

module _ (D : Type 0) (prepare : D → Bytes → Outcome D ℕ)
    (reset finalize : D → ℕ → Outcome D (Unit {0})) where
  -- The new entry at the front.
  abbrev pub front : Bytes → ℕ → Entry
  front sql query = record { sql = sql; query = query; in_use = true }

  insert-holds :
      (c : Cache) (sql : Bytes) (query : ℕ) (m : Machine (Database D)) (victim : Entry)
      (rest : List Entry) (d' : D) (e : Error)
      → ltb c.capacity (word (c.count + 1)) ≡ true
      → evict_entry (front sql query ∷ c.entries) ≡ some (victim, rest)
      → finalize m.object.driver victim.query ≡ err e d'
      → FailsHolding D e query (insert_entry D prepare reset finalize c sql query m)
  unfolding insert_entry evict
  insert-holds c sql query m victim rest d' e over evicts fails =
      let found : Found (front sql query ∷ c.entries) (some (victim, rest)) =
        subst (Found (front sql query ∷ c.entries)) evicts
          (evict_entry-Found (front sql query ∷ c.entries)) in
      let held = Removes-Held query found.0 found.1 (inl (refl, refl)) in
      rw (over, evicts, fails) (refl, held)

  -- Where the text is not in the cache in a free entry, the driver prepares it, there is memory for
  -- the new entry, the cache is full and has a free entry to evict, which the driver cannot finalize:
  -- `c_orm_prepare_cached` gives the error of the driver, but the statement that it has prepared
  -- stays in the cache and is marked as in use.
  pub prepare_cached-holds :
      (sql : Bytes) (h : Memory) (d d' d'' : D) (c : Cache) (query : ℕ) (victim : Entry)
      (rest : List Entry) (e : Error)
      → c.dangling ≡ false
      → take_entry sql c.entries ≡ none
      → prepare d sql ≡ ok query d'
      → h.grants h.calls 40 ≡ true
      → h.grants (h.calls + 1) (word (length sql + 1)) ≡ true
      → ltb c.capacity (word (c.count + 1)) ≡ true
      → evict_entry (front sql query ∷ c.entries) ≡ some (victim, rest)
      → finalize d' victim.query ≡ err e d''
      → FailsHolding D e query (
          prepare_cached D prepare reset finalize sql
            (machine h (record { driver = d; stmt_cache = some c })))
  unfolding prepare_cached prepare_in look_up remember
  prepare_cached-holds sql h d d' d'' c query victim rest e linked new prepared entry_ok text_ok
        over evicts fails =
      simp linked (
        rw (new, prepared, entry_ok, text_ok)
          (insert-holds c sql query
            (machine (record h { calls = h.calls + 1 + 1 })
              (record { driver = d'; stmt_cache = some c }))
            victim rest d'' e over evicts fails))
