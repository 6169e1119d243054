-- ===== src/StringBuilder.antt =====
-- src/c_orm_string_builder.c: a growing C string. A builder is reached through a handle that may be
-- NULL. `buffer` is the text before the terminating NUL.
pub mod Append
pub mod Emits
pub mod Gives
use c_orm.Base.{
  ℕ, zero, suc, ◌+◌, ◌*◌, ◌%◌, ◌^◌, Bool, true, false, not, Option, none, some, List, [], ◌++◌,
  Bytes, length, take, ltb, ◌==◌, if◌then◌else◌,
}
use c_orm.Memory.{
  Error, Machine, machine, Outcome, ok, err, stuck, Cmd, ◌>>=◌, ◌>>◌, pure, fail, get, put, alloc,
  given, handle,
}

pub record StringBuilder : Type 0 where
  pub buffer : Bytes
  pub size : ℕ
  pub capacity : ℕ
  pub valid : Bool

-- `size_t` arithmetic.
abbrev pub word : ℕ → ℕ
word n = n % 2 ^ 64

-- `sizeof(c_orm_string_builder_t)` on a 64-bit platform
abbrev struct_size : ℕ
struct_size = 32

-- `c_orm_string_builder_init`: the struct, then a buffer of one byte. The out parameter is set
-- only on success.
unfoldable pub init : Cmd (Option StringBuilder) (Unit {0})
init = do
  struct_ok ← alloc struct_size
  if not struct_ok then fail Error.memory else do
    buffer_ok ← alloc 1
    if not buffer_ok
        then fail Error.memory
        else put (some (record { buffer = []; size = 0; capacity = 1; valid = true }))

-- `c_orm_string_builder_free` accepts NULL.
unfoldable pub free : Cmd (Option StringBuilder) (Unit {0})
free = put none

-- `while (new_capacity < required_capacity) new_capacity *= 2;` for so many rounds, `none` when
-- they run out.
pub grow : ℕ → ℕ → ℕ → Option ℕ
grow zero required capacity = none
grow (suc rounds) required capacity = elim (ltb capacity required) [
  | true ↦ grow rounds required (word (capacity * 2))
  | false ↦ some capacity
]

-- A capacity that the loop has not left after 65 rounds has become 0 by overflow, or was 0.
abbrev rounds : ℕ
rounds = 65

-- The `realloc` to the new capacity.
resize : ℕ → Cmd StringBuilder (Unit {0})
resize capacity = do
  granted ← alloc capacity
  sb ← get
  if granted
      then put (record sb { capacity = capacity })
      else do put (record sb { valid = false }); fail Error.memory

resize_to : Option ℕ → Cmd StringBuilder (Unit {0})
unfolding resize
resize_to none = λ m. stuck
resize_to (some capacity) = resize capacity

-- `if (required_capacity > builder->capacity) { ... }`
reserve : ℕ → Cmd StringBuilder (Unit {0})
unfolding resize_to grow
reserve required = do
  sb ← get
  if ltb sb.capacity required
      then resize_to (grow rounds required (word (sb.capacity * 2)))
      else pure tt

-- `C_ORM_STRCPY` at `buffer + length`, and the new length.
write : Bytes → Cmd StringBuilder (Unit {0})
write str = do
  sb ← get
  put (record sb { buffer = take sb.size sb.buffer ++ str; size = word (sb.size + length str) })

-- An append once the builder is known to be valid.
append_valid : Bytes → Cmd StringBuilder (Unit {0})
unfolding reserve write
append_valid str = do
  sb ← get
  let required = word (sb.size + length str + 1)
  if length str == 0 then pure tt else reserve required >> write str

append_bytes : Bytes → Cmd StringBuilder (Unit {0})
unfolding append_valid
append_bytes str = do sb ← get; if not sb.valid then fail Error.memory else append_valid str

-- `c_orm_string_builder_append`
unfoldable pub append : Option Bytes → Cmd (Option StringBuilder) (Unit {0})
unfolding append_bytes
append str = handle Error.unknown (do s ← given Error.unknown str; append_bytes s)

-- `c_orm_string_builder_get`
unfoldable pub get_text : Cmd (Option StringBuilder) Bytes
get_text =
    handle Error.unknown (do sb ← get; if not sb.valid then fail Error.memory else pure sb.buffer)

-- `c_orm_string_builder_len`
unfoldable pub get_length : Cmd (Option StringBuilder) ℕ
get_length =
    handle Error.unknown (do sb ← get; if not sb.valid then fail Error.memory else pure sb.size)
