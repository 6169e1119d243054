-- ===== src/Fluent/Sure.antt =====
-- What the calls on a query give while the allocator meets every request.
use c_orm.Base.{
  ℕ, ◌+◌, ◌^◌, ◌≤◌, ◌<◌, ◌≡◌, refl, true, false, Option, none, some, arith, Bytes, length,
}
use c_orm.Memory.{
  Memory, Machine, machine, Outcome, ok, err, stuck, Cmd, and_then, inside, ◌>>=◌, ◌>>◌, pure,
}
use c_orm.Memory.Gives.{Grows, Gives}
use c_orm.StringBuilder.{word}
use c_orm.Arena.{Arena, Address, alloc_from, copy_from, copy_text, as_memory}
use c_orm.Arena.Bounds.{AllSound, Fresh, alloc_from-Fresh}
use c_orm.Query.Ast.{Node, Nodes}
use c_orm.Fluent.{Builder, on_query, from_arena, flagged, new_node, node_size, prepend}

-- Every request from now on is met.
abbrev pub Generous : Memory → Type 0
Generous h = (n size : ℕ) → h.calls ≤ n → h.grants n size ≡ true

pub Generous-Grows : (h h' : Memory) → Grows h h' → Generous h → Generous h'
Generous-Grows h h' g generous n size late =
    let met = generous n size (omega (arith, g.1)) in rw g.0 met

-- The outcome is a result, with a property of it and of the state.
module _ {S A : Type 0} where
  abbrev pub Sure : (A → S → Type 0) → Outcome (Machine S) A → Type 0
  Sure P (ok a m) = P a m.object × Generous m.memory
  Sure P (err e m) = ⊥
  Sure P stuck = ⊥

  pub Gives-Sure :
      (P : A → S → Type 0) (h : Memory) (r : Outcome (Machine S) A)
      → Generous h
      → Gives P h r
      → Sure P r
  Gives-Sure P h (ok a m) generous (p, g) = (p, Generous-Grows h m.memory g generous)
  Gives-Sure P h (err e m) generous (n, size, late, refused) = let met = generous n size late in cc
  Gives-Sure P h stuck generous bad = bad

-- The query is there, has no error, and holds these nodes.
abbrev pub Holds : Nodes → Builder → Type 0
Holds ns q = AllSound q.arena × (q.error ≡ false) × (q.ast_head ≡ ns)

abbrev pub Ready : Nodes → Option Builder → Type 0
Ready ns none = ⊥
Ready ns (some q) = Holds ns q

-- From a query with the nodes `ns` the command gives `a`, and leaves the nodes `ns'`.
module _ {S A : Type 0} (At : Nodes → S → Type 0) where
  pub record Leads (c : Cmd S A) (ns : Nodes) (a : A) (ns' : Nodes) : Type 0 where
    pub run :
        (m : Machine S)
        → Generous m.memory
        → At ns m.object
        → Sure (λ x o. (x ≡ a) × At ns' o) (c m)

-- On a query that is there, and on the handle of one.
abbrev pub Does : {A : Type 0} → Cmd Builder A → Nodes → A → Nodes → Type 0
Does = Leads Holds

abbrev pub Builds : {A : Type 0} → Cmd (Option Builder) A → Nodes → A → Nodes → Type 0
Builds = Leads Ready

module _ {S A B : Type 0} {At : Nodes → S → Type 0} where
  bound :
      (a : A) (b : B) (ns ns' : Nodes) (r : Outcome (Machine S) A) (k : A → Cmd S B)
      → Sure (λ x o. (x ≡ a) × At ns o) r
      → Leads At (k a) ns b ns'
      → Sure (λ y o. (y ≡ b) × At ns' o) (and_then r k)
  bound a b ns ns' (ok x m) k ((e, at), generous) next = rw e (next.run m generous at)
  bound a b ns ns' (err e m) k bad next = bad
  bound a b ns ns' stuck k bad next = bad

  pub bind-Leads :
      {c : Cmd S A} {a : A} {b : B} {ns ns₁ ns' : Nodes} (k : A → Cmd S B)
      → Leads At c ns a ns₁
      → Leads At (k a) ns₁ b ns'
      → Leads At (c >>= k) ns b ns'
  bind-Leads {c} {a} {b} {ns} {ns₁} {ns'} k first next = record {
    run = λ m generous at. bound a b ns₁ ns' (c m) k (first.run m generous at) next;
  }

module _ {S A : Type 0} {At : Nodes → S → Type 0} where
  pub pure-Leads : (a : A) (ns : Nodes) → Leads At (pure a) ns a ns
  pure-Leads a ns = record { run = λ m generous at. ((refl, at), generous) }

module _ {A : Type 0} where
  lifted :
      (a : A) (ns : Nodes) (r : Outcome (Machine Builder) A)
      → Sure (λ x o. (x ≡ a) × Holds ns o) r
      → Sure (λ x o. (x ≡ a) × Ready ns o) (inside some r)
  lifted a ns (ok x m) sure = sure
  lifted a ns (err e m) bad = bad
  lifted a ns stuck bad = bad

  lifted-handle :
      (c : Cmd Builder A) (a : A) (ns ns' : Nodes) (h : Memory) (o : Option Builder)
      → Does c ns a ns'
      → Generous h
      → Ready ns o
      → Sure (λ x o. (x ≡ a) × Ready ns' o) (on_query c (machine h o))
  unfolding on_query
  lifted-handle c a ns ns' h none does generous bad = absurd bad
  lifted-handle c a ns ns' h (some q) does generous (sound, e, head) =
      simp e (lifted a ns' (c (machine h q)) (does.run (machine h q) generous (sound, e, head)))

  -- A call on a query without an error.
  pub on_query-Builds :
      {c : Cmd Builder A} {ns ns' : Nodes} {a : A} → Does c ns a ns' → Builds (on_query c) ns a ns'
  on_query-Builds {c} {ns} {ns'} {a} does = record {
    run = λ m generous ready. lifted-handle c a ns ns' m.memory m.object does generous ready;
  }

-- A request to the arena of the query.
module _ {A : Type 0} where
  carried :
      (a : A) (ns : Nodes) (q : Builder) (r : Outcome (Machine Arena) A)
      → Holds ns q
      → Sure (λ x blocks. (x ≡ a) × AllSound blocks) r
      → Sure (λ x q'. (x ≡ a) × Holds ns q') (flagged q r)
  carried a ns q (ok x m) (sound, e, head) ((same, sound'), generous) =
      ((same, (sound', e, head)), generous)
  carried a ns q (err e m) holds bad = bad
  carried a ns q stuck holds bad = bad

  pub from_arena-Does :
      (c : Cmd Arena A) {a : A} {ns : Nodes}
      → ((blocks : Arena) (h : Memory)
          → AllSound blocks
          → Generous h
          → Sure (λ x blocks'. (x ≡ a) × AllSound blocks') (c (machine h blocks)))
      → Does (from_arena c) ns a ns
  unfolding from_arena
  from_arena-Does c {a} {ns} serves = record {
    run = λ m generous (sound, e, head).
        carried a ns m.object (c (machine m.memory m.object.arena)) (sound, e, head)
          (serves m.object.arena m.memory sound generous);
  }

-- Some memory, and then a result.
pub served :
    {A : Type 0} (a : A) (size : ℕ) (blocks : Arena) (h : Memory)
    → 0 < size
    → size ≤ 2 ^ 62
    → AllSound blocks
    → Generous h
    → Sure
        (λ x blocks'. (x ≡ a) × AllSound blocks')
        ((alloc_from size >> pure a) (machine h blocks))
served a size blocks h some_size small sound generous =
    filled (alloc_from size (machine h blocks)) (
      Gives-Sure (λ address blocks'. AllSound blocks' × Fresh size blocks address blocks') h
        (alloc_from size (machine h blocks)) generous
        (alloc_from-Fresh size blocks h some_size small sound))
  where
    filled :
        (r : Outcome (Machine Arena) Address)
        → Sure (λ address blocks'. AllSound blocks' × Fresh size blocks address blocks') r
        → Sure (λ x blocks'. (x ≡ a) × AllSound blocks') (and_then r (λ _. pure a))
    filled (ok address m) ((sound', fresh), generous') = ((refl, sound'), generous')
    filled (err e m) bad = bad
    filled stuck bad = bad

-- A string that fits into a block with its NUL.
abbrev pub IsShort : Option Bytes → Type 0
IsShort none = Unit
IsShort (some s) = length s < 2 ^ 61

untouched :
    {A : Type 0} (a : A) (r : Outcome (Machine Arena) A)
    → Sure (λ x blocks'. (x ≡ a) × AllSound blocks') r
    → Sure (λ x blocks'. (x ≡ a) × AllSound blocks') (as_memory r)
untouched a (ok x m) sure = sure
untouched a (err e m) bad = bad
untouched a stuck bad = bad

pub copy_from-Does :
    (s : Option Bytes) (ns : Nodes) → IsShort s → Does (from_arena (copy_from s)) ns s ns
unfolding copy_from copy_text
copy_from-Does none ns short =
    from_arena-Does _ λ blocks h sound generous. ((refl, sound), generous)
copy_from-Does (some s) ns short = from_arena-Does _ λ blocks h sound generous.
    let size : word (length s + 1) ≡ length s + 1 = omega (arith, short) in
    rw size (
      untouched (some s) ((alloc_from (length s + 1) >> pure (some s)) (machine h blocks)) (
        served (some s) (length s + 1) blocks h (omega arith) (omega (arith, short)) sound
          generous))

-- Every node has a size, but for NULL.
abbrev pub IsNode : Node → Type 0
IsNode Node.null = ⊥
IsNode node = Unit

pub node_size-small : (node : Node) → IsNode node → (0 < node_size node) × (node_size node ≤ 48)
node_size-small node is_node = ground arith

noded :
    (node : Node) (ns : Nodes) (size : ℕ) (blocks : Arena) (q : Builder)
    (r : Outcome (Machine Arena) Address)
    → Holds ns q
    → Sure (λ address blocks'. AllSound blocks' × Fresh size blocks address blocks') r
    → Sure (λ x q'. (x ≡ node) × Holds ns q') (and_then (flagged q r) (λ _. pure node))
noded node ns size blocks q (ok address m) (sound, e, head) ((sound', fresh), generous) =
    ((refl, (sound', e, head)), generous)
noded node ns size blocks q (err e m) holds bad = bad
noded node ns size blocks q stuck holds bad = bad

pub new_node-Does : (node : Node) (ns : Nodes) → IsNode node → Does (new_node node) ns node ns
unfolding new_node from_arena
new_node-Does node ns is_node = record {
  run = λ m generous (sound, e, head).
      let (some_size, small) = node_size-small node is_node in
      let r = alloc_from (node_size node) (machine m.memory m.object.arena) in
      noded node ns (node_size node) m.object.arena m.object r (sound, e, head)
        (Gives-Sure
          (λ address blocks'.
            AllSound blocks' × Fresh (node_size node) m.object.arena address blocks')
          m.memory r generous
          (alloc_from-Fresh (node_size node) m.object.arena m.memory some_size (omega arith)
            sound));
}

pub prepend-Does : (node : Node) (ns : Nodes) → Does (prepend node) ns tt (Nodes.then_ node ns)
unfolding prepend
prepend-Does node ns = record {
  run = λ m generous (sound, e, head). ((refl, (sound, e, rw head refl)), generous);
}
