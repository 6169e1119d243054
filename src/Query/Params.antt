-- ===== src/Query/Params.antt =====
-- src/c_orm_query_sql.c: the parameters of a query, a growing array. `params` is the part of the
-- array that is in use. The handle may be NULL.
use c_orm.Base.{
  ℕ, ◌+◌, ◌*◌, Bool, not, Option, List, [], ◌∷◌, ◌++◌, Bytes, take, ltb, leb, ◌==◌, if◌then◌else◌,
}
use c_orm.Memory.{Error, stuck, Cmd, ◌>>=◌, ◌>>◌, pure, fail, get, put, alloc, handle}
use c_orm.StringBuilder.{word}

-- `c_orm_query_param_t`
pub record Param : Type 0 where
  pub value : Option Bytes
  pub is_string : Bool

-- `c_orm_query_params_t`
pub record Params : Type 0 where
  pub params : List Param
  pub count : ℕ
  pub capacity : ℕ

-- `c_orm_query_params_init`
unfoldable pub init_params : Cmd (Option Params) (Unit {0})
init_params = handle Error.unknown (put (record { params = []; count = 0; capacity = 0 }))

-- `c_orm_query_params_cleanup`
unfoldable pub cleanup_params : Cmd (Option Params) (Unit {0})
cleanup_params = handle Error.unknown (put (record { params = []; count = 0; capacity = 0 }))

-- `sizeof(c_orm_query_param_t)` on a 64-bit platform
abbrev pub param_size : ℕ
param_size = 16

abbrev pub next_capacity : ℕ → ℕ
next_capacity capacity = if capacity == 0 then 8 else word (capacity * 2)

-- The new array; a write behind it is `stuck`, where its size has overflowed.
unfoldable pub widen : Cmd Params (Unit {0})
widen = do
  p ← get
  let capacity = next_capacity p.capacity
  let bytes = word (param_size * capacity)
  granted ← alloc bytes
  if not granted
      then fail Error.unknown
      else if ltb bytes (param_size * (p.count + 1))
      then (λ m. stuck)
      else put (record p { capacity = capacity })

unfoldable pub store : Param → Cmd Params (Unit {0})
store param = do
  p ← get
  put (record p { params = take p.count p.params ++ (param ∷ []); count = word (p.count + 1) })

unfoldable pub add_to : Param → Cmd Params (Unit {0})
unfolding widen store
add_to param = do p ← get; (if leb p.capacity p.count then widen else pure tt) >> store param

-- `c_orm_query_params_add`
unfoldable pub add_param : Option Bytes → Bool → Cmd (Option Params) (Unit {0})
unfolding add_to
add_param value is_string =
    handle Error.unknown (add_to (record { value = value; is_string = is_string }))
