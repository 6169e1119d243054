-- ===== src/Memory.antt =====
-- include/c_orm_meta.h: the error codes of `c_orm_error_t`, and how a C function is modelled: a
-- command on a machine, which holds the allocator and the object that the function works on.
-- `malloc` and `realloc` are not code of the repository: whether the n-th request for a number of
-- bytes is met is a parameter, so every theorem holds for every allocator.
pub mod Gives
use c_orm.Base.{ℕ, ◌+◌, Bool, true, false, Option, none, some}

-- `C_ORM_OK` is the `ok` of an outcome.
pub data Error : Type 0 where
  memory connection sql bind step type_mismatch not_found not_implemented : Error
  unknown expired validation recursion read_only : Error

pub record Memory : Type 0 where
  pub grants : ℕ → ℕ → Bool
  pub calls : ℕ

pub record Machine (S : Type 0) : Type 0 where
  pub memory : Memory
  pub object : S

abbrev pub machine : {S : Type 0} → Memory → S → Machine S
machine h o = record { memory = h; object = o }

-- What was written before an error stays written. `stuck` is no result: a loop that does not
-- end, an access outside of an object, or arithmetic that C leaves undefined.
pub data Outcome (S A : Type 0) : Type 0 where
  ok : A → S → Outcome S A
  err : Error → S → Outcome S A
  stuck : Outcome S A

abbrev pub Cmd : Type 0 → Type 0 → Type 0
Cmd S A = Machine S → Outcome (Machine S) A

module _ {S : Type 0} where
  abbrev pub and_then :
      {A B : Type 0} → Outcome (Machine S) A → (A → Cmd S B) → Outcome (Machine S) B
  and_then (ok a m) k = k a m
  and_then (err e m) k = err e m
  and_then stuck k = stuck

  infixl 5 ◌>>=◌ ◌>>◌
  abbrev pub ◌>>=◌ : {A B : Type 0} → Cmd S A → (A → Cmd S B) → Cmd S B
  ◌>>=◌ c k m = and_then (c m) k

  abbrev pub ◌>>◌ : {A B : Type 0} → Cmd S A → Cmd S B → Cmd S B
  ◌>>◌ c d m = and_then (c m) (λ _. d)

  abbrev pub pure : {A : Type 0} → A → Cmd S A
  pure = ok

  abbrev pub fail : {A : Type 0} → Error → Cmd S A
  fail = err

  abbrev pub get : Cmd S S
  get m = ok m.object m

  abbrev pub put : S → Cmd S (Unit {0})
  put o m = ok tt (record m { object = o })

  -- `malloc` or `realloc` of a number of bytes: is the result a pointer, not NULL?
  abbrev pub alloc : ℕ → Cmd S Bool
  alloc n m =
      ok (m.memory.grants m.memory.calls n)
        (record m { memory = record m.memory { calls = m.memory.calls + 1 } })

  -- A pointer argument that the function refuses, if it is NULL, with this error.
  abbrev pub given : {A : Type 0} → Error → Option A → Cmd S A
  given e none = fail e
  given e (some a) = pure a

-- A command on a part of the object.
module _ {S T : Type 0} where
  abbrev pub inside : {A : Type 0} → (T → S) → Outcome (Machine T) A → Outcome (Machine S) A
  inside back (ok a m) = ok a (machine m.memory (back m.object))
  inside back (err e m) = err e (machine m.memory (back m.object))
  inside back stuck = stuck

  abbrev pub zoom : {A : Type 0} → (S → T) → (S → T → S) → Cmd T A → Cmd S A
  zoom part back c m = inside (back m.object) (c (machine m.memory (part m.object)))

  abbrev pub keep : {A : Type 0} → S → Outcome (Machine T) A → Outcome (Machine S) T
  keep o (ok _ m) = ok m.object (machine m.memory o)
  keep o (err e m) = err e (machine m.memory o)
  keep o stuck = stuck

  -- A command on a local object, which is the result.
  abbrev pub within : {A : Type 0} → T → Cmd T A → Cmd S T
  within start c m = keep m.object (c (machine m.memory start))

-- `if (!object) return e;` ahead of a command on what the handle points to.
module _ {S A : Type 0} where
  abbrev pub dereference : Error → Cmd S A → Memory → Option S → Outcome (Machine (Option S)) A
  dereference e c h none = err e (machine h none)
  dereference e c h (some o) = inside some (c (machine h o))

  abbrev pub handle : Error → Cmd S A → Cmd (Option S) A
  handle e c m = dereference e c m.memory m.object
