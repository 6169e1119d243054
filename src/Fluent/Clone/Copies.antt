-- ===== src/Fluent/Clone/Copies.antt =====
-- What `c_orm_query_clone` copies while there is memory.
use c_orm.Base.{ℕ, ◌≡◌, refl, false, List, [], ◌∷◌, ◌++◌, append-nil, arith, if◌then◌else◌}
use c_orm.Memory.{Error, Memory, Machine, machine, Outcome, ok, err, stuck, Cmd, ◌>>=◌, pure, fail}
use c_orm.Arena.{Arena, Address, alloc_from}
use c_orm.Arena.Bounds.{AllSound, Fresh, alloc_from-Fresh}
use c_orm.Query.Ast.{Node, Nodes}
use c_orm.Query.Sql
use c_orm.Fluent.{node_size}
use c_orm.Fluent.Clone.{if_granted, untested, copy_node, clone_node, clone_nodes}
use c_orm.Fluent.Sure.{Generous, Sure, Gives-Sure, IsNode, node_size-small}

-- The arena has been asked for these sizes, one after the other, and for nothing else.
pub data Asked : List ℕ → Machine Arena → Machine Arena → Type 0 where
  nothing : {m : Machine Arena} → Asked [] m m
  then_ :
      {n : ℕ} {ns : List ℕ} {m m' m'' : Machine Arena} {a : Address}
      → alloc_from n m ≡ ok a m'
      → Asked ns m' m''
      → Asked (n ∷ ns) m m''

-- The sizes of a node and of those below it, each before the ones that it points to. A subquery is
-- not below its node: it is shared.
unfoldable pub sizes : Node → List ℕ
sizes Node.null = []
sizes (Node.where_ condition) = node_size (Node.where_ condition) ∷ sizes condition
sizes (Node.join type_str table on_condition) =
    node_size (Node.join type_str table on_condition) ∷ sizes on_condition
sizes (Node.having condition) = node_size (Node.having condition) ∷ sizes condition
sizes (Node.operator op left right) =
    node_size (Node.operator op left right) ∷ (sizes left ++ sizes right)
sizes (Node.group expr) = node_size (Node.group expr) ∷ sizes expr
sizes node = node_size node ∷ []

unfoldable pub all_sizes : Nodes → List ℕ
unfolding sizes
all_sizes Nodes.end = []
all_sizes (Nodes.then_ node nodes) = sizes node ++ all_sizes nodes

-- It gives this result, for which it has asked for these sizes; the arena stays in working order.
abbrev pub Copied : {A : Type 0} → A → List ℕ → Machine Arena → Outcome (Machine Arena) A → Type 0
Copied a ns m r = (m' : Machine Arena) × (r ≡ ok a m') × Asked ns m m' × AllSound m'.object

-- So it is from every arena in working order, and memory goes on being met.
record Copies {A : Type 0} (c : Cmd Arena A) (a : A) (ns : List ℕ) : Type 0 where
  run :
      (m : Machine Arena)
      → Generous m.memory
      → AllSound m.object
      → (m' : Machine Arena) × (c m ≡ ok a m')
        × Asked ns m m'
        × AllSound m'.object
        × Generous m'.memory

Asked-append :
    {ns ks : List ℕ} {m m' m'' : Machine Arena}
    → Asked ns m m'
    → Asked ks m' m''
    → Asked (ns ++ ks) m m''
Asked-append nothing later = later
Asked-append (then_ first rest) later = then_ first (Asked-append rest later)

made : {A : Type 0} (a : A) → Copies (pure a) a []
made a = record { run = λ m generous sound. (m, refl, nothing, sound, generous) }

next :
    {A B : Type 0} {c : Cmd Arena A} {a : A} {b : B} {ns ks : List ℕ} (k : A → Cmd Arena B)
    → Copies c a ns
    → Copies (k a) b ks
    → Copies (c >>= k) b (ns ++ ks)
next k first second = record {
  run = λ m generous sound.
      let (m', e, asked, sound', generous') = first.run m generous sound in
      let (m'', e', asked', sound'', generous'') = second.run m' generous' sound' in
      (m'', rw (e, e') refl, Asked-append asked asked', sound'', generous'');
}

-- The last command asks for nothing.
finally :
    {A B : Type 0} {c : Cmd Arena A} {a : A} {ns : List ℕ} (f : A → B)
    → Copies c a ns
    → Copies (c >>= λ x. pure (f x)) (f a) ns
finally {ns = ns} f first = rw append-nil at (next (λ x. pure (f x)) first (made (f _)))

ignoring : {c : Cmd Arena Node} {a : Node} {ns : List ℕ} → Copies c a ns → Copies (untested c) a ns
ignoring first = record {
  run = λ m generous sound.
      let (m', e, asked, sound', generous') = first.run m generous sound in
      (m', rw e refl, asked, sound', generous');
}

granted :
    (size : ℕ) (ns : List ℕ) (m : Machine Arena) (node : Node) (fill : Cmd Arena Node)
    (r : Outcome (Machine Arena) Address)
    → alloc_from size m ≡ r
    → Copies fill node ns
    → Sure (λ a blocks'. AllSound blocks' × Fresh size m.object a blocks') r
    → (m' : Machine Arena) × (if_granted fill r ≡ ok node m')
      × Asked (size ∷ ns) m m'
      × AllSound m'.object
      × Generous m'.memory
unfolding if_granted
granted size ns m node fill (ok a m') same fills ((sound, fresh), generous) =
    let (m'', e, asked, sound', generous') = fills.run m' generous sound in
    (m'', e, then_ same asked, sound', generous')
granted size ns m node fill (err e m') same fills bad = absurd bad
granted size ns m node fill stuck same fills bad = absurd bad

copy_node-Copies :
    (original : Node) {node : Node} {ns : List ℕ} {fill : Cmd Arena Node}
    → IsNode original
    → Copies fill node ns
    → Copies (copy_node original fill) node (node_size original ∷ ns)
unfolding copy_node
copy_node-Copies original {node} {ns} {fill} is_node fills = record {
  run = λ m generous sound.
      let (some_size, small) = node_size-small original is_node in
      granted (node_size original) ns m node fill (alloc_from (node_size original) m) refl fills (
        Gives-Sure (λ a blocks'. AllSound blocks' × Fresh (node_size original) m.object a blocks')
          m.memory (alloc_from (node_size original) m) generous
          (alloc_from-Fresh (node_size original) m.object m.memory some_size (omega arith) sound));
}

clone_node-Copies : (node : Node) → Copies (clone_node node) node (sizes node)
unfolding clone_node sizes
clone_node-Copies Node.null = made Node.null
clone_node-Copies (Node.where_ condition) =
    copy_node-Copies (Node.where_ condition) tt
      (finally (λ c. Node.where_ c) (ignoring (clone_node-Copies condition)))
clone_node-Copies (Node.join type_str table on_condition) =
    copy_node-Copies (Node.join type_str table on_condition) tt
      (finally (λ c. Node.join type_str table c) (ignoring (clone_node-Copies on_condition)))
clone_node-Copies (Node.having condition) =
    copy_node-Copies (Node.having condition) tt
      (finally (λ c. Node.having c) (ignoring (clone_node-Copies condition)))
clone_node-Copies (Node.operator op left right) =
    copy_node-Copies (Node.operator op left right) tt (
      next (λ l. untested (clone_node right) >>= λ r. pure (Node.operator op l r))
        (ignoring (clone_node-Copies left))
        (finally (λ r. Node.operator op left r) (ignoring (clone_node-Copies right))))
clone_node-Copies (Node.group expr) =
    copy_node-Copies (Node.group expr) tt
      (finally (λ e. Node.group e) (ignoring (clone_node-Copies expr)))
clone_node-Copies node = copy_node-Copies node tt (made node)

-- The nodes of a query are there.
abbrev pub AllNodes : Nodes → Type 0
AllNodes Nodes.end = Unit
AllNodes (Nodes.then_ node nodes) = (Sql.is_null node ≡ false) × AllNodes nodes

clone_nodes-Copies :
    (nodes : Nodes) → AllNodes nodes → Copies (clone_nodes nodes) nodes (all_sizes nodes)
unfolding clone_nodes all_sizes
clone_nodes-Copies Nodes.end there = made Nodes.end
clone_nodes-Copies (Nodes.then_ node nodes) (given, there) =
    next
      (λ c.
        if Sql.is_null c
        then fail Error.unknown
        else (clone_nodes nodes >>= λ cs. pure (Nodes.then_ c cs)))
      (ignoring (clone_node-Copies node))
      (rw given (finally (λ cs. Nodes.then_ node cs) (clone_nodes-Copies nodes there)))

pub clone_nodes-copy :
    (nodes : Nodes) (blocks : Arena) (h : Memory)
    → AllNodes nodes
    → AllSound blocks
    → Generous h
    → Copied nodes (all_sizes nodes) (machine h blocks) (clone_nodes nodes (machine h blocks))
clone_nodes-copy nodes blocks h there sound generous =
    let (m', e, asked, sound', _) =
      (clone_nodes-Copies nodes there).run (machine h blocks) generous sound in
    (m', e, asked, sound')
