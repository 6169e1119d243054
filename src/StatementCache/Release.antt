-- ===== src/StatementCache/Release.antt =====
-- A statement that is given back.
use c_orm.Base.{
  ℕ, suc, ◌≡◌, ◌≢◌, refl, ap, ◌⊎◌, inl, inr, false, Option, none, some, List, [], ◌∷◌, Bytes, arith,
  length, ◌==◌, Bool-cases,
}
use mathlib.Core.Bool.{false≢true}
use c_orm.Memory.{Memory, Machine, machine, Outcome, ok}
use c_orm.StatementCache.{
  Entry, Cache, Database, release, released_later, driven, release_in, finalize_in, finalize_cached,
}
use c_orm.StatementCache.Entries.{Absent, Unique, Held, Absent-Held}

-- The query is there, the same queries are, with that one free and the others as they were.
pub record Frees (query : ℕ) (es es' : List Entry) : Type 0 where
  pub there : Absent query es → ⊥
  pub absent : (q : ℕ) → Absent q es → Absent q es'
  pub unique : Unique es → Unique es'
  pub count : length es ≡ length es'
  pub kept : (q : ℕ) → q ≢ query → Held q es → Held q es'
  pub back : (q : ℕ) → Held q es' → Held q es
  pub free : Unique es → Held query es' → ⊥

-- What the search gives: no entry has the query, or it has been freed.
abbrev Released : ℕ → List Entry → Option (List Entry) → Type 0
Released query es none = Absent query es
Released query es (some es') = Frees query es es'

released_later-Released :
    (query : ℕ) (e : Entry) (es : List Entry) (o : Option (List Entry))
    → e.query ≢ query
    → Released query es o
    → Released query (e ∷ es) (released_later e o)
released_later-Released query e es none other absent = (other, absent)
released_later-Released query e es (some es') other frees = record {
  there = λ (differs, absent). frees.there absent;
  absent = λ q (differs, absent). (differs, frees.absent q absent);
  unique = λ (absent, unique). (frees.absent e.query absent, frees.unique unique);
  count = ap suc frees.count;
  kept = λ q differs held. elim held [
    | inl first ↦ inl first
    | inr later ↦ inr (frees.kept q differs later)
  ];
  back = λ q held. elim held [ inl first ↦ inl first | inr later ↦ inr (frees.back q later) ];
  free = λ (absent, unique) held. elim held [
    | inl first ↦ other first.0
    | inr later ↦ frees.free unique later
  ];
}

release-Released : (query : ℕ) (es : List Entry) → Released query es (release query es)
unfolding release
release-Released query [] = tt
release-Released query (e ∷ es) = elim (Bool-cases (e.query == query)) [
  | inl same ↦
      let e' : e.query ≡ query = ground arith in
      rw same (record {
        there = λ (differs, absent). differs e';
        absent = λ q absent. absent;
        unique = λ unique. unique;
        count = refl;
        kept =
            λ q differs held. elim held [ inl first ↦ absurd (differs cc) | inr later ↦ inr later ];
        back =
            λ q held. elim held [ inl first ↦ absurd (false≢true first.1) | inr later ↦ inr later ];
        free = λ (absent, unique) held. elim held [
          | inl first ↦ cc
          | inr later ↦ Absent-Held e.query es absent (rw e' later)
        ];
      })
  | inr other ↦ rw other (
      released_later-Released query e es (release query es) (λ same. ground arith)
        (release-Released query es))
]

module _ (D : Type 0) (prepare : D → Bytes → Outcome D ℕ)
    (reset finalize : D → ℕ → Outcome D (Unit {0})) where
  abbrev pub database : Memory → D → Cache → Machine (Database D)
  database h d c = machine h (record { driver = d; stmt_cache = some c })

  -- A statement of the cache is free, and the others are as they were; any other statement goes to
  -- the driver, and the cache is as it was.
  abbrev pub GivenBack : ℕ → Memory → D → Cache → Outcome (Machine (Database D)) (Unit {0}) → Type 0
  GivenBack query h d c r =
      ((es : List Entry) × Frees query c.entries es
        × (r ≡ ok tt (database h d (record c { entries = es }))))
      ⊎ (Absent query c.entries
          × (r ≡ driven D prepare reset finalize (database h d c) (finalize d query)))

  given_back :
      (query : ℕ) (h : Memory) (d : D) (c : Cache) (o : Option (List Entry))
      → Released query c.entries o
      → GivenBack query h d c (release_in D prepare reset finalize c query o (database h d c))
  unfolding release_in
  given_back query h d c none absent = inr (absent, refl)
  given_back query h d c (some es) frees = inl (es, frees, refl)

  finalize_in-linked :
      (query : ℕ) (c : Cache)
      → c.dangling ≡ false
      → finalize_in D prepare reset finalize (some c) query
        ≡ release_in D prepare reset finalize c query (release query c.entries)
  unfolding finalize_in
  finalize_in-linked query c linked = simp linked refl

  -- On a cache that holds no freed entry, `c_orm_finalize_cached` of a statement of the cache makes
  -- it free, which is a success, asks nothing of the driver and leaves the queries, the number of
  -- entries and all others that are in use as they were; a statement that is not of the cache is
  -- finalized by the driver, whose answer is the result, and the cache is left as it was.
  pub finalize_cached-GivenBack :
      (query : ℕ) (h : Memory) (d : D) (c : Cache)
      → c.dangling ≡ false
      → GivenBack query h d c (finalize_cached D prepare reset finalize query (database h d c))
  unfolding finalize_cached
  finalize_cached-GivenBack query h d c linked =
      rw (finalize_in-linked query c linked)
        (given_back query h d c (release query c.entries) (release-Released query c.entries))
