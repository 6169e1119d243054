-- ===== src/Arena.antt =====
-- src/c_orm_arena.c: memory that is freed all at once, cut from blocks. The head of the list is the
-- block that is in use. An address is the number of blocks below its block, and an offset in `data`.
pub mod Apart
pub mod Bounds
use c_orm.Base.{
  ℕ, ◌+◌, ◌-◌, ◌*◌, ◌/◌, ◌%◌, ◌^◌, Bool, true, false, not, ◌||◌, Option, none, some, List, [], ◌∷◌,
  Bytes, length, ltb, ◌==◌, if◌then◌else◌,
}
use c_orm.Memory.{
  Error, Machine, machine, Outcome, ok, err, stuck, Cmd, ◌>>=◌, ◌>>◌, pure, fail, get, put, alloc,
  handle,
}
use c_orm.StringBuilder.{word}

-- `c_orm_arena_block_t`; `capacity` is the number of bytes behind the header.
pub record Block : Type 0 where
  pub used : ℕ
  pub capacity : ℕ

-- `struct c_orm_arena`
abbrev pub Arena : Type 0
Arena = List Block

pub record Address : Type 0 where
  pub block : ℕ
  pub offset : ℕ

-- `C_ORM_ARENA_BLOCK_SIZE`
abbrev pub block_size : ℕ
block_size = 4096

-- `next` and `used`, in front of `data`
abbrev pub header_size : ℕ
header_size = 16

-- `(size + 7) & ~((size_t)7)`
abbrev pub align : ℕ → ℕ
align size = word (size + 7) / 8 * 8

-- The blocks of an arena and a new one, empty.
abbrev open_block : ℕ → Arena → Arena
open_block size blocks =
    record { used = 0; capacity = if ltb block_size size then size else block_size } ∷ blocks

-- Is there no room for so many bytes in the block that is in use?
abbrev pub is_full : ℕ → Arena → Bool
is_full size [] = true
is_full size (b ∷ blocks) = ltb block_size (word (b.used + size))

-- The bytes that are asked for. Where the sum has overflowed, the header is written outside of
-- them.
abbrev pub new_size : ℕ → ℕ
new_size size = if ltb block_size size then word (header_size + size) else header_size + block_size

unfoldable pub make_block : ℕ → Cmd Arena (Unit {0})
make_block size = do
  granted ← alloc (new_size size)
  blocks ← get
  if not granted
      then fail Error.unknown
      else if ltb (new_size size) header_size
      then (λ m. stuck)
      else put (open_block size blocks)

-- `arena->head->data + arena->head->used`, and the new `used`.
abbrev pub cut : ℕ → Arena → Cmd Arena Address
cut size [] = λ m. stuck
cut size (b ∷ blocks) =
    put (record b { used = word (b.used + size) } ∷ blocks)
    >> pure (record { block = length blocks; offset = b.used })

unfoldable pub cut_aligned : ℕ → Cmd Arena Address
unfolding make_block
cut_aligned size = do
  blocks ← get
  if is_full size blocks then make_block size else pure tt
  get >>= cut size

-- `c_orm_arena_alloc`, on an arena that is there.
unfoldable pub alloc_from : ℕ → Cmd Arena Address
unfolding cut_aligned
alloc_from size = if size == 0 then fail Error.unknown else cut_aligned (align size)

-- `c_orm_arena_alloc`
unfoldable pub arena_alloc : ℕ → Cmd (Option Arena) Address
unfolding alloc_from
arena_alloc size = handle Error.unknown (alloc_from size)

-- Any failure is C_ORM_ERROR_MEMORY.
abbrev pub as_memory : {S A : Type 0} → Outcome S A → Outcome S A
as_memory (ok a m) = ok a m
as_memory (err e m) = err Error.memory m
as_memory stuck = stuck

-- `c_orm_arena_strdup` of a string, on an arena that is there.
unfoldable pub copy_text : Bytes → Cmd Arena (Option Bytes)
unfolding alloc_from
copy_text str = λ m. as_memory ((alloc_from (word (length str + 1)) >> pure (some str)) m)

-- The same, of a string that may be NULL.
unfoldable pub copy_from : Option Bytes → Cmd Arena (Option Bytes)
unfolding copy_text
copy_from none = pure none
copy_from (some str) = copy_text str

-- `c_orm_arena_strdup`
unfoldable pub arena_strdup : Option Bytes → Cmd (Option Arena) (Option Bytes)
unfolding copy_text
arena_strdup none = pure none
arena_strdup (some str) = handle Error.unknown (copy_text str)

-- `sizeof(c_orm_arena_t)` on a 64-bit platform
abbrev arena_size : ℕ
arena_size = 8

-- `c_orm_arena_new`; the out parameter is set only on success.
unfoldable pub arena_new : Cmd (Option Arena) (Unit {0})
arena_new = alloc arena_size >>= λ granted. if granted then put (some []) else fail Error.unknown

-- `c_orm_arena_free`
unfoldable pub arena_free : Cmd (Option Arena) (Unit {0})
arena_free = put none
