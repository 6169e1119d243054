-- ===== src/Arena/Bounds.antt =====
-- Where the addresses that an arena gives out lie.
use c_orm.Base.{
  ℕ, ◌+◌, ◌%◌, ◌^◌, ◌≤◌, ◌<◌, ◌≡◌, refl, inl, inr, true, false, Option, none, some, [], ◌∷◌, arith,
  length, ltb, ltb→le, ◌==◌, if◌then◌else◌, Bool-cases,
}
use c_orm.Memory.{Memory, machine, and_then}
use c_orm.Memory.Gives.{Gives, Gives-mono, Gives-later}
use c_orm.StringBuilder.{word}
use c_orm.Arena.{
  Block, Arena, Address, block_size, align, is_full, new_size, make_block, cut, cut_aligned,
  alloc_from,
}

-- What is in use of a block lies in it; a block of the ordinary size is not larger than that.
pub record IsSound (b : Block) : Type 0 where
  pub used : b.used ≤ b.capacity
  pub aligned : b.used % 8 ≡ 0
  pub wide : block_size ≤ b.capacity
  pub small : b.capacity < 2 ^ 63

abbrev pub AllSound : Arena → Type 0
AllSound [] = Unit
AllSound (b ∷ blocks) = IsSound b × AllSound blocks

-- The block with so many blocks below it.
abbrev pub block_at : ℕ → Arena → Option Block
block_at n [] = none
block_at n (b ∷ blocks) = if n == length blocks then some b else block_at n blocks

-- Bytes that were in use stay in use: no address below is given out again.
abbrev pub used_of : Option Block → ℕ
used_of none = 0
used_of (some b) = b.used

abbrev pub capacity_of : Option Block → ℕ
capacity_of none = 0
capacity_of (some b) = b.capacity

-- The new address lies above what was in use of its block, and its bytes are in use now.
pub record Fresh (size : ℕ) (blocks : Arena) (a : Address) (blocks' : Arena) : Type 0 where
  pub aligned : a.offset % 8 ≡ 0
  pub above : used_of (block_at a.block blocks) ≤ a.offset
  pub below : a.offset + size ≤ used_of (block_at a.block blocks')
  pub inside : used_of (block_at a.block blocks') ≤ capacity_of (block_at a.block blocks')
  pub kept : (n : ℕ) → used_of (block_at n blocks) ≤ used_of (block_at n blocks')

block_at-none : (n : ℕ) (blocks : Arena) → length blocks ≤ n → block_at n blocks ≡ none
block_at-none n [] beyond = refl
block_at-none n (b ∷ blocks) beyond =
    let other : (n == length blocks) ≡ false = ground arith in
    rw other (block_at-none n blocks (omega arith))

block_at-head : (b : Block) (blocks : Arena) → block_at (length blocks) (b ∷ blocks) ≡ some b
block_at-head b blocks =
    let same : (length blocks == length blocks) ≡ true = ground arith in rw same refl

used_kept :
    (n : ℕ) (b b' : Block) (blocks : Arena)
    → b.used ≤ b'.used
    → used_of (block_at n (b ∷ blocks)) ≤ used_of (block_at n (b' ∷ blocks))
used_kept n b b' blocks grows = ground arith

-- A cut from a block with room for it.
cut-Fresh :
    (size n : ℕ) (b : Block) (blocks : Arena) (h : Memory)
    → AllSound (b ∷ blocks)
    → size ≤ n
    → n % 8 ≡ 0
    → b.used + n ≤ b.capacity
    → Gives
        (λ a blocks'. AllSound blocks' × Fresh size (b ∷ blocks) a blocks')
        h
        (cut n (b ∷ blocks) (machine h (b ∷ blocks)))
cut-Fresh size n b blocks h (sound, others) covers whole room =
    let exact : word (b.used + n) ≡ b.used + n = omega (arith, sound.small) in
    let b' : Block = record b { used = b.used + n } in
    rw exact (
      (
        (
          (
            record {
              used = room;
              aligned = omega (arith, sound.aligned);
              wide = sound.wide;
              small = sound.small;
            },
            others,
          ),
          record {
            aligned = sound.aligned;
            above = rw (block_at-head b blocks) (omega arith);
            below = rw (block_at-head b' blocks) (omega arith);
            inside = rw (block_at-head b' blocks) room;
            kept = λ k. used_kept k b b' blocks (omega arith);
          },
        ),
        (refl, omega arith),
      ))

-- The same after a new block has been put in front.
Fresh-later :
    (size : ℕ) (b : Block) (blocks blocks' : Arena) (a : Address)
    → b.used ≡ 0
    → Fresh size (b ∷ blocks) a blocks'
    → Fresh size blocks a blocks'
Fresh-later size b blocks blocks' a empty fresh = record {
  aligned = fresh.aligned;
  above = omega (arith, opened a.block, fresh.above);
  below = fresh.below;
  inside = fresh.inside;
  kept = λ n. omega (arith, opened n, fresh.kept n);
}
  where
    opened : (n : ℕ) → used_of (block_at n blocks) ≤ used_of (block_at n (b ∷ blocks))
    opened n = elim (Bool-cases (n == length blocks)) [
      | inl new ↦ rw (block_at-none n blocks (ground arith)) (omega arith)
      | inr old ↦ rw old (omega arith)
    ]

module _ (size n : ℕ) (covers : size ≤ n) (whole : n % 8 ≡ 0) (small : n < 2 ^ 62 + 8) where
  new_block :
      (blocks : Arena) (h : Memory)
      → AllSound blocks
      → Gives
          (λ a blocks'. AllSound blocks' × Fresh size blocks a blocks')
          h
          (and_then (make_block n (machine h blocks)) (λ _ m. cut n m.object m))
  unfolding make_block
  new_block blocks h sound =
      let enough : ltb (new_size n) 16 ≡ false = ground arith in
      elim (Bool-cases (h.grants h.calls (new_size n))) [
        | inl granted ↦
            let h1 : Memory = record h { calls = h.calls + 1 } in
            let b : Block = record {
              used = 0;
              capacity = if ltb block_size n then n else block_size;
            } in
            let wide : block_size ≤ b.capacity = ground arith in
            let room : n ≤ b.capacity = ground arith in
            let bound : b.capacity < 2 ^ 63 = ground arith in
            let r = cut n (b ∷ blocks) (machine h1 (b ∷ blocks)) in
            rw (granted, enough)
              (Gives-later (λ a blocks'. AllSound blocks' × Fresh size blocks a blocks') h h1 r
                (refl, omega arith)
                (Gives-mono (λ a blocks'. AllSound blocks' × Fresh size (b ∷ blocks) a blocks')
                  (λ a blocks'. AllSound blocks' × Fresh size blocks a blocks') h1 r
                  (cut-Fresh size n b blocks h1
                    (
                      record { used = omega arith; aligned = refl; wide = wide; small = bound },
                      sound,
                    )
                    covers whole (omega arith))
                  (λ a blocks' (s, fresh). (s, Fresh-later size b blocks blocks' a refl fresh))))
        | inr refused ↦ rw refused (h.calls, new_size n, omega arith, refused)
      ]

  cut_aligned-Fresh :
      (blocks : Arena) (h : Memory)
      → AllSound blocks
      → Gives
          (λ a blocks'. AllSound blocks' × Fresh size blocks a blocks')
          h
          (cut_aligned n (machine h blocks))
  unfolding cut_aligned
  cut_aligned-Fresh [] h sound = new_block [] h sound
  cut_aligned-Fresh (b ∷ blocks) h (s, others) = elim (Bool-cases (is_full n (b ∷ blocks))) [
    | inl full ↦ rw full (new_block (b ∷ blocks) h (s, others))
    | inr room ↦ rw room (
        cut-Fresh size n b blocks h (s, others) covers whole
          (omega (arith, ltb→le, s.small, s.wide)))
  ]

-- An arena whose blocks are sound stays so under a request for 1 to 2 ^ 62 bytes, and the new
-- address is a multiple of 8 behind all that was in use of its block, with that many bytes inside
-- its block in use now; what was in use stays in use; or the allocator has refused a request.
pub alloc_from-Fresh :
    (size : ℕ) (blocks : Arena) (h : Memory)
    → 0 < size
    → size ≤ 2 ^ 62
    → AllSound blocks
    → Gives
        (λ a blocks'. AllSound blocks' × Fresh size blocks a blocks')
        h
        (alloc_from size (machine h blocks))
unfolding alloc_from
alloc_from-Fresh size blocks h some_size small sound =
    let more : (size == 0) ≡ false = ground arith in
    rw more
      (cut_aligned-Fresh size (align size) (omega arith) (omega arith) (omega arith) blocks h sound)
