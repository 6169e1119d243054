-- ===== src/Arena/Apart.antt =====
-- A client that asks an arena for one piece of memory after the other, and that the pieces do not
-- overlap.
use c_orm.Base.{
  ℕ, ◌+◌, ◌^◌, ◌≤◌, ◌<◌, ◌≡◌, ◌≢◌, refl, ◌⊎◌, inl, inr, List, [], ◌∷◌, arith, length, ◌==◌,
  Bool-cases,
}
use c_orm.Memory.{Memory, machine, Cmd, ◌>>=◌, pure}
use c_orm.Memory.Gives.{Gives, Gives-bind, Gives-mono}
use c_orm.Arena.{Arena, Address, alloc_from}
use c_orm.Arena.Bounds.{AllSound, block_at, used_of, capacity_of, Fresh, alloc_from-Fresh}

pub record Piece : Type 0 where
  pub address : Address
  pub size : ℕ

unfoldable pub alloc_all : List ℕ → Cmd Arena (List Piece)
alloc_all [] = pure []
alloc_all (n ∷ ns) = do
  a ← alloc_from n
  rest ← alloc_all ns
  pure (record { address = a; size = n } ∷ rest)

-- No byte lies in both.
abbrev pub Apart : Piece → Piece → Type 0
Apart p q =
    (p.address.block ≢ q.address.block)
    ⊎ (p.address.offset + p.size ≤ q.address.offset)
    ⊎ (q.address.offset + q.size ≤ p.address.offset)

abbrev pub ApartFrom : Piece → List Piece → Type 0
ApartFrom p [] = Unit
ApartFrom p (q ∷ qs) = Apart p q × ApartFrom p qs

abbrev pub AllApart : List Piece → Type 0
AllApart [] = Unit
AllApart (p ∷ ps) = ApartFrom p ps × AllApart ps

-- The pieces lie behind what these blocks have in use.
abbrev pub AllAbove : Arena → List Piece → Type 0
AllAbove blocks [] = Unit
AllAbove blocks (p ∷ ps) =
    (used_of (block_at p.address.block blocks) ≤ p.address.offset) × AllAbove blocks ps

-- The pieces lie in these blocks.
abbrev pub AllInside : Arena → List Piece → Type 0
AllInside blocks [] = Unit
AllInside blocks (p ∷ ps) =
    (p.address.offset + p.size ≤ capacity_of (block_at p.address.block blocks))
    × AllInside blocks ps

abbrev pub AllFit : List ℕ → Type 0
AllFit [] = Unit
AllFit (n ∷ ns) = (0 < n) × (n ≤ 2 ^ 62) × AllFit ns

abbrev Keeps : Arena → Arena → Type 0
Keeps blocks blocks' = (n : ℕ) → used_of (block_at n blocks) ≤ used_of (block_at n blocks')

Above-earlier :
    (blocks blocks' : Arena) (ps : List Piece)
    → Keeps blocks blocks'
    → AllAbove blocks' ps
    → AllAbove blocks ps
Above-earlier blocks blocks' [] keeps above = tt
Above-earlier blocks blocks' (p ∷ ps) keeps (first, rest) =
    (omega (arith, keeps p.address.block), Above-earlier blocks blocks' ps keeps rest)

-- What lies behind the bytes in use lies behind a piece of them.
Above-ApartFrom :
    (p : Piece) (blocks : Arena) (ps : List Piece)
    → p.address.offset + p.size ≤ used_of (block_at p.address.block blocks)
    → AllAbove blocks ps
    → ApartFrom p ps
Above-ApartFrom p blocks [] below above = tt
Above-ApartFrom p blocks (q ∷ ps) below (first, rest) = (
  elim (Bool-cases (p.address.block == q.address.block)) [
    | inl same ↦
        let e : p.address.block ≡ q.address.block = ground arith in
        inr (inl (omega (arith, rw e at below)))
    | inr other ↦ inl (λ e. ground arith)
  ],
  Above-ApartFrom p blocks ps below rest,
)

Sound-inside :
    (n : ℕ) (blocks : Arena)
    → AllSound blocks
    → used_of (block_at n blocks) ≤ capacity_of (block_at n blocks)
Sound-inside n [] sound = omega arith
Sound-inside n (b ∷ blocks) (s, sound) = elim (Bool-cases (n == length blocks)) [
  | inl same ↦ rw same s.used
  | inr other ↦ rw other (Sound-inside n blocks sound)
]

-- The pieces lie in bytes in use.
abbrev AllUsed : Arena → List Piece → Type 0
AllUsed blocks [] = Unit
AllUsed blocks (p ∷ ps) =
    (p.address.offset + p.size ≤ used_of (block_at p.address.block blocks)) × AllUsed blocks ps

Used-inside :
    (blocks : Arena) (ps : List Piece) → AllSound blocks → AllUsed blocks ps → AllInside blocks ps
Used-inside blocks [] sound used = tt
Used-inside blocks (p ∷ ps) sound (first, rest) =
    (omega (arith, Sound-inside p.address.block blocks sound), Used-inside blocks ps sound rest)

abbrev Served : Arena → List Piece → Arena → Type 0
Served blocks ps blocks' =
    AllSound blocks' × AllAbove blocks ps × AllApart ps × AllUsed blocks' ps × Keeps blocks blocks'

alloc_all-Served :
    (ns : List ℕ) (blocks : Arena) (h : Memory)
    → AllFit ns
    → AllSound blocks
    → Gives (Served blocks) h (alloc_all ns (machine h blocks))
unfolding alloc_all
alloc_all-Served [] blocks h fit sound =
    ((sound, tt, tt, tt, λ n. omega arith), (refl, omega arith))
alloc_all-Served (n ∷ ns) blocks h (some_size, small, fit) sound =
    Gives-bind (λ a blocks'. AllSound blocks' × Fresh n blocks a blocks') (Served blocks) h
      (alloc_from n (machine h blocks))
      (λ a. alloc_all ns >>= λ rest. pure (record { address = a; size = n } ∷ rest))
      (alloc_from-Fresh n blocks h some_size small sound)
      λ a m (sound', fresh).
        Gives-bind (Served m.object) (Served blocks) m.memory (alloc_all ns m)
          (λ rest. pure (record { address = a; size = n } ∷ rest))
          (alloc_all-Served ns m.object m.memory fit sound')
          λ ps m' (sound'', above, apart, used, keeps).
            let below : a.offset + n ≤ used_of (block_at a.block m'.object) =
              omega (arith, fresh.below, keeps a.block) in
            (
              (
                sound'',
                (fresh.above, Above-earlier blocks m.object ps fresh.kept above),
                (
                  Above-ApartFrom (record { address = a; size = n }) m.object ps fresh.below above,
                  apart,
                ),
                (below, used),
                λ k. omega (arith, fresh.kept k, keeps k),
              ),
              (refl, omega arith),
            )

pub alloc_all-apart :
    (ns : List ℕ) (blocks : Arena) (h : Memory)
    → AllFit ns
    → AllSound blocks
    → Gives
        (λ ps blocks'. AllApart ps × AllInside blocks' ps × AllAbove blocks ps × AllSound blocks')
        h
        (alloc_all ns (machine h blocks))
alloc_all-apart ns blocks h fit sound =
    Gives-mono (Served blocks)
      (λ ps blocks'. AllApart ps × AllInside blocks' ps × AllAbove blocks ps × AllSound blocks') h
      (alloc_all ns (machine h blocks)) (alloc_all-Served ns blocks h fit sound)
      λ ps blocks' (sound', above, apart, used, keeps).
        (apart, Used-inside blocks' ps sound' used, above, sound')
