-- ===== src/StatementCache/Entries.antt =====
-- Lists of entries: the queries that they hold, those in use, and what the searches find.
use c_orm.Base.{
  ℕ, suc, ◌≡◌, ◌≢◌, refl, sym, ap, ◌⊎◌, inl, inr, true, false, Option, none, some, List, [], ◌∷◌,
  Bytes, arith, length, Bool-cases,
}
use c_orm.StatementCache.{Entry, take_entry, evict_entry, keep_entry, evict_here, is_match}

-- The second list is the first one without the entry.
pub data Removes (e : Entry) : List Entry → List Entry → Type 0 where
  here : {es : List Entry} → Removes e (e ∷ es) es
  there : {x : Entry} {es rest : List Entry} → Removes e es rest → Removes e (x ∷ es) (x ∷ rest)

-- No entry has this query.
abbrev pub Absent : ℕ → List Entry → Type 0
Absent q [] = Unit
Absent q (e ∷ es) = (e.query ≢ q) × Absent q es

-- No two entries have the same query.
abbrev pub Unique : List Entry → Type 0
Unique [] = Unit
Unique (e ∷ es) = Absent e.query es × Unique es

-- The query is handed out.
abbrev pub Held : ℕ → List Entry → Type 0
Held q [] = ⊥
Held q (e ∷ es) = ((e.query ≡ q) × (e.in_use ≡ true)) ⊎ Held q es

pub Absent-Held : (q : ℕ) (es : List Entry) → Absent q es → Held q es → ⊥
Absent-Held q [] absent held = held
Absent-Held q (e ∷ es) (other, absent) (inl (same, used)) = other same
Absent-Held q (e ∷ es) (other, absent) (inr held) = Absent-Held q es absent held

Removes-Absent :
    {e : Entry} {es rest : List Entry} (q : ℕ) → Removes e es rest → Absent q es → Absent q rest
Removes-Absent q here (other, absent) = absent
Removes-Absent q (there removes) (other, absent) = (other, Removes-Absent q removes absent)

pub Removes-Unique :
    {e : Entry} {es rest : List Entry} → Removes e es rest → Unique es → Unique rest
Removes-Unique here (absent, unique) = unique
Removes-Unique (there removes) (absent, unique) =
    (Removes-Absent _ removes absent, Removes-Unique removes unique)

-- An entry that is free is not handed out.
pub Removes-Held :
    {e : Entry} {es rest : List Entry} (q : ℕ)
    → Removes e es rest
    → e.in_use ≡ false
    → Held q es
    → Held q rest
Removes-Held q here free (inl (same, used)) = cc
Removes-Held q here free (inr held) = held
Removes-Held q (there removes) free (inl here') = inl here'
Removes-Held q (there removes) free (inr held) = inr (Removes-Held q removes free held)

pub Removes-back :
    {e : Entry} {es rest : List Entry} (q : ℕ) → Removes e es rest → Held q rest → Held q es
Removes-back q here held = inr held
Removes-back q (there removes) (inl first) = inl first
Removes-back q (there removes) (inr held) = inr (Removes-back q removes held)

-- The query of the entry is in no other.
Removes-differs :
    {e : Entry} {es rest : List Entry} (q : ℕ) → Removes e es rest → Absent q es → e.query ≢ q
Removes-differs q here (other, absent) = other
Removes-differs q (there removes) (other, absent) = Removes-differs q removes absent

pub Removes-alone :
    {e : Entry} {es rest : List Entry} → Removes e es rest → Unique es → Absent e.query rest
Removes-alone here (absent, unique) = absent
Removes-alone (there removes) (absent, unique) =
    (λ same. Removes-differs _ removes absent (sym same), Removes-alone removes unique)

-- What a search has found is in the list, and free.
abbrev pub Found : List Entry → Option (Entry × List Entry) → Type 0
Found es none = Unit
Found es (some (e, rest)) = Removes e es rest × (e.in_use ≡ false)

keep_entry-Found :
    (x : Entry) (es : List Entry) (o : Option (Entry × List Entry))
    → Found es o
    → Found (x ∷ es) (keep_entry x o)
keep_entry-Found x es none found = tt
keep_entry-Found x es (some (e, rest)) (removes, free) = (there removes, free)

pub take_entry-Found : (sql : Bytes) (es : List Entry) → Found es (take_entry sql es)
unfolding take_entry
take_entry-Found sql [] = tt
take_entry-Found sql (x ∷ es) = elim (Bool-cases (is_match sql x)) [
  | inl fits ↦ let free : x.in_use ≡ false = ground arith in rw fits (here, free)
  | inr other ↦ rw other (keep_entry-Found x es (take_entry sql es) (take_entry-Found sql es))
]

evict_here-Found :
    (x : Entry) (es : List Entry) (o : Option (Entry × List Entry))
    → Found es o
    → Found (x ∷ es) (evict_here x es o)
evict_here-Found x es none found = elim (Bool-cases x.in_use) [
  | inl used ↦ simp used tt
  | inr free ↦ simp free (here, refl)
]
evict_here-Found x es (some (e, rest)) (removes, free) = (there removes, free)

pub evict_entry-Found : (es : List Entry) → Found es (evict_entry es)
unfolding evict_entry
evict_entry-Found [] = tt
evict_entry-Found (x ∷ es) = evict_here-Found x es (evict_entry es) (evict_entry-Found es)

pub Removes-length :
    {e : Entry} {es rest : List Entry} → Removes e es rest → length es ≡ suc (length rest)
Removes-length here = refl
Removes-length (there removes) = ap suc (Removes-length removes)
