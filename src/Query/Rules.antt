-- ===== src/Query/Rules.antt =====
-- What it means that a command writes a script, and the rules for the commands of a rendering.
use c_orm.Base.{
  ℕ, suc, ◌+◌, ◌*◌, ◌^◌, ◌≤◌, ◌<◌, ◌≡◌, refl, ap, ◌∙◌, ◌⊎◌, inl, inr, Bool, true, false, Option,
  none, some, List, [], ◌∷◌, ◌++◌, append-nil, append_assoc, arith, Bytes, length, length-append,
}
use c_orm.Memory.{Error, Memory, Machine, Outcome, ok, err, stuck, and_then, ◌>>◌, pure, fail}
use c_orm.Memory.Gives.{Grows, Refused, Refused-Grows}
use c_orm.StringBuilder.Append.{Holds}
use c_orm.Query.Ast.{Dialect}
use c_orm.Query.Params.{Param, Params}
use c_orm.Query.Render.{Rendering}
use c_orm.Query.Clauses.{Write}
use c_orm.Query.Script.{Piece, Script, written, values, after, ◌⊕◌, nothing, faulty}

-- An array of parameters in working order.
pub record IsGood (p : Params) : Type 0 where
  pub count : p.count ≡ length p.params
  pub fits : p.count ≤ p.capacity
  pub tight : p.capacity ≤ p.count * 2 + 8

-- The parameters behind the handle, where values are bound; otherwise the handle is NULL.
abbrev pub Bound : Bool → List Param → Option Params → Type 0
Bound true vs none = ⊥
Bound true vs (some p) = IsGood p × (p.params ≡ vs)
Bound false vs none = Unit
Bound false vs (some p) = ⊥

pub values-append : (ps qs : List Piece) → values (ps ++ qs) ≡ values ps ++ values qs
unfolding values
values-append [] qs = refl
values-append (Piece.text s ∷ ps) qs = values-append ps qs
values-append (Piece.value v ∷ ps) qs = ap (◌∷◌ v) (values-append ps qs)

pub written-append :
    (d : Dialect) (n : ℕ) (ps qs : List Piece)
    → written d n (ps ++ qs) ≡ written d n ps ++ written d (n + length (values ps)) qs
unfolding written values
written-append d n [] qs = let e : n + 0 ≡ n = omega arith in rw e refl
written-append d n (Piece.text s ∷ ps) qs = rw (written-append d n ps qs, append_assoc) refl
written-append d n (Piece.value v ∷ ps) qs =
    let e : suc n + length (values ps) ≡ n + suc (length (values ps)) = omega arith in
    rw (written-append d (suc n) ps qs, append_assoc, e) refl

module _ (d : Dialect) (bind : Bool) where
  -- The state after the pieces: text `t` and values `vs`.
  abbrev pub Has : Bytes → List Param → Rendering → Type 0
  Has t vs r = Holds r.sb t × Bound bind vs r.params

  abbrev pub Room : Bytes → List Param → List Piece → Type 0
  Room t vs ps =
      (length t + length (written d (length vs) ps) < 2 ^ 63)
      × (length vs + length (values ps) < 2 ^ 32)

  abbrev pub Ended :
      Script → Bytes → List Param → Memory → Outcome (Machine Rendering) (Unit {0}) → Type 0
  Ended s t vs h (ok _ m) =
      (s.fault ≡ none)
      × Has (t ++ written d (length vs) s.pieces) (vs ++ values s.pieces) m.object
      × Grows h m.memory
  Ended s t vs h (err e m) = (s.fault ≡ some e) ⊎ Refused h
  Ended s t vs h stuck = ⊥

  -- The command writes the script and succeeds, or it fails with the script's error, or the
  -- allocator has refused a request.
  pub record Renders (c : Write) (s : Script) : Type 0 where
    pub run :
        (m : Machine Rendering) (t : Bytes) (vs : List Param)
        → Has t vs m.object
        → Room t vs s.pieces
        → Ended s t vs m.memory (c m)

  pub nothing-Renders : Renders (pure tt) nothing
  unfolding written values
  nothing-Renders = record {
    run = λ m t vs has room. rw (append-nil, append-nil) (refl, has, (refl, omega arith));
  }

  pub fail-Renders : (e : Error) → Renders (fail e) (faulty e)
  fail-Renders e = record { run = λ m t vs has room. inl refl }

  -- The room that is left for what follows.
  Room-first :
      (t : Bytes) (vs : List Param) (ps qs : List Piece) → Room t vs (ps ++ qs) → Room t vs ps
  Room-first t vs ps qs (bytes, params) = (
    omega (
      arith,
      ap length (written-append d (length vs) ps qs),
      length-append (written d (length vs) ps) (written d (length vs + length (values ps)) qs),
    ),
    omega (arith, ap length (values-append ps qs), length-append (values ps) (values qs)),
  )

  Room-rest :
      (t : Bytes) (vs : List Param) (ps qs : List Piece)
      → Room t vs (ps ++ qs)
      → Room (t ++ written d (length vs) ps) (vs ++ values ps) qs
  Room-rest t vs ps qs (bytes, params) = rw (length-append vs (values ps)) (
    omega (
      arith,
      ap length (written-append d (length vs) ps qs),
      length-append t (written d (length vs) ps),
      length-append (written d (length vs) ps) (written d (length vs + length (values ps)) qs),
    ),
    omega (arith, ap length (values-append ps qs), length-append (values ps) (values qs)),
  )

  -- What follows a script that has been written.
  Ended-rest :
      (t : Bytes) (vs : List Param) (ps : List Piece) (u : Script) (h h' : Memory)
      (r : Outcome (Machine Rendering) (Unit {0}))
      → Grows h h'
      → Ended u (t ++ written d (length vs) ps) (vs ++ values ps) h' r
      → Ended (after none ps u) t vs h r
  Ended-rest t vs ps u h h' (ok _ m) g (e, has, g') = (
    e,
    rw
        (
          written-append d (length vs) ps u.pieces,
          values-append ps u.pieces,
          ← append_assoc,
          ← append_assoc,
        )
        (rw (length-append vs (values ps)) at has),
    (g'.0 ∙ g.0, omega (arith, g.1, g'.1)),
  )
  Ended-rest t vs ps u h h' (err e m) g (inl same) = inl same
  Ended-rest t vs ps u h h' (err e m) g (inr refused) = inr (Refused-Grows h h' g refused)
  Ended-rest t vs ps u h h' stuck g bad = bad

  Ended-then :
      (f : Option Error) (ps : List Piece) (u : Script) (d' : Write) (t : Bytes) (vs : List Param)
      (h : Memory) (r : Outcome (Machine Rendering) (Unit {0}))
      → Renders d' u
      → Room t vs (after f ps u).pieces
      → Ended (record { pieces = ps; fault = f }) t vs h r
      → Ended (after f ps u) t vs h (and_then r (λ _. d'))
  Ended-then none ps u d' t vs h (ok _ m) second room (e, has, g) =
      Ended-rest t vs ps u h m.memory (d' m) g (
        second.run m (t ++ written d (length vs) ps) (vs ++ values ps) has
          (Room-rest t vs ps u.pieces room))
  Ended-then (some e) ps u d' t vs h (ok _ m) second room (e', has, g) = cc
  Ended-then none ps u d' t vs h (err e m) second room (inl bad) = cc
  Ended-then (some e') ps u d' t vs h (err e m) second room (inl same) = inl same
  Ended-then none ps u d' t vs h (err e m) second room (inr refused) = inr refused
  Ended-then (some e') ps u d' t vs h (err e m) second room (inr refused) = inr refused
  Ended-then f ps u d' t vs h stuck second room bad = absurd bad

  Room-front :
      (f : Option Error) (ps : List Piece) (u : Script) (t : Bytes) (vs : List Param)
      → Room t vs (after f ps u).pieces
      → Room t vs ps
  Room-front none ps u t vs room = Room-first t vs ps u.pieces room
  Room-front (some e) ps u t vs room = room

  pub then-Renders :
      {c d' : Write} {s u : Script} → Renders c s → Renders d' u → Renders (c >> d') (s ⊕ u)
  then-Renders {c} {d'} {s} {u} first second = record {
    run = λ m t vs has room.
        Ended-then s.fault s.pieces u d' t vs m.memory (c m) second room
          (first.run m t vs has (Room-front s.fault s.pieces u t vs room));
  }
