-- ===== src/Query/Answers.antt =====
-- What it means that a query is turned into a statement, and how the statement of a subquery is
-- appended.
use c_orm.Base.{
  ◌+◌, ◌^◌, ◌<◌, ◌≡◌, refl, ap, ◌∙◌, ◌⊎◌, inl, inr, Bool, Option, none, some, List, [], ◌++◌,
  append-nil, arith, Bytes, length, length-append, Bool-cases,
}
use c_orm.Memory.{
  Error, Memory, Machine, machine, Outcome, ok, err, stuck, Cmd, and_then, inside, ◌>>=◌, fail,
}
use c_orm.Memory.Gives.{Grows, Refused, Refused-Grows, Gives}
use c_orm.StringBuilder.{StringBuilder, word, init}
use c_orm.StringBuilder.Append.{Holds}
use c_orm.StringBuilder.Gives.{init-Gives, get_text-ok}
use c_orm.Query.Ast.{Dialect}
use c_orm.Query.Params.{Param, Params}
use c_orm.Query.Render.{Rendering, say, append_query}
use c_orm.Query.Clauses.{Clauses, Write, write_clauses}
use c_orm.Query.Sql.{copy_out, write_query}
use c_orm.Query.Script.{Script, written, values, lit}
use c_orm.Query.Rules.{Bound, Ended, Renders}
use c_orm.Query.Steps.{text-Renders}

module _ (d : Dialect) (bind : Bool) where
  -- The statement is the text of the script, and its values are behind those that were there; or
  -- the error is that of the script; or the allocator has refused a request.
  abbrev pub Answered :
      Script → List Param → Memory → Outcome (Machine (Option Params)) Bytes → Type 0
  Answered s vs h (ok sql m) =
      (s.fault ≡ none)
      × (sql ≡ written d (length vs) s.pieces)
      × Bound bind (vs ++ values s.pieces) m.object
      × Grows h m.memory
  Answered s vs h (err e m) = (s.fault ≡ some e) ⊎ Refused h
  Answered s vs h stuck = ⊥

  pub record Answers (c : Cmd (Option Params) Bytes) (s : Script) : Type 0 where
    pub run :
        (h : Memory) (params : Option Params) (vs : List Param)
        → Bound bind vs params
        → length (written d (length vs) s.pieces) < 2 ^ 63
        → length vs + length (values s.pieces) < 2 ^ 32
        → Answered s vs h (c (machine h params))

  -- The text of a subquery, appended.
  Ended-lit :
      (s : Script) (t : Bytes) (vs : List Param) (h h' : Memory)
      (r : Outcome (Machine Rendering) (Unit {0}))
      → s.fault ≡ none
      → Grows h h'
      → Ended d bind (lit (written d (length vs) s.pieces)) t (vs ++ values s.pieces) h' r
      → Ended d bind s t vs h r
  unfolding written values
  Ended-lit s t vs h h' (ok _ m) e g (_, has, g') = (
    e,
    rw (append-nil (vs ++ values s.pieces), append-nil (written d (length vs) s.pieces)) at has,
    (g'.0 ∙ g.0, omega (arith, g.1, g'.1)),
  )
  Ended-lit s t vs h h' (err e' m) e g (inl bad) = cc
  Ended-lit s t vs h h' (err e' m) e g (inr refused) = inr (Refused-Grows h h' g refused)
  Ended-lit s t vs h h' stuck e g bad = bad

  appended :
      (s : Script) (t : Bytes) (vs : List Param) (r : Rendering) (h : Memory)
      (o : Outcome (Machine (Option Params)) Bytes)
      → Holds r.sb t
      → length t + length (written d (length vs) s.pieces) < 2 ^ 63
      → length vs + length (values s.pieces) < 2 ^ 32
      → Answered s vs h o
      → Ended d bind s t vs h (
          and_then
            (inside (λ params. record r { params = params }) o)
            (λ subsql. say (some subsql)))
  unfolding written values
  appended s t vs r h (ok sql m) holds room few (e, text, bound, g) =
      let whole = append-nil (written d (length vs) s.pieces) in
      let more = length-append vs (values s.pieces) in
      let m' : Machine Rendering = machine m.memory (record r { params = m.object }) in
      rw text (
        Ended-lit s t vs h m.memory (say (some (written d (length vs) s.pieces)) m') e g (
          (text-Renders d bind (written d (length vs) s.pieces)).run m' t (vs ++ values s.pieces)
            (holds, bound) (omega (arith, ap length whole), omega arith)))
  appended s t vs r h (err e' m) holds room few end = end
  appended s t vs r h stuck holds room few bad = bad

  pub append-Renders :
      {c : Cmd (Option Params) Bytes} {s : Script} → Answers c s → Renders d bind (append_query c) s
  unfolding append_query
  append-Renders {c} {s} answers = record {
    run = λ m t vs (holds, bound) (room, few).
        appended s t vs m.object m.memory (c (machine m.memory m.object.params)) holds room few
          (answers.run m.memory m.object.params vs bound (omega arith) few);
  }

  pub fail-Answers : (e : Error) → Answers (fail e) (record { pieces = []; fault = some e })
  fail-Answers e = record { run = λ h params vs bound room few. inl refl }

  copied :
      (s : Script) (vs : List Param) (h : Memory) (m : Machine Rendering) (t : Bytes)
      → s.fault ≡ none
      → t ≡ written d (length vs) s.pieces
      → Holds m.object.sb t
      → Bound bind (vs ++ values s.pieces) m.object.params
      → Grows h m.memory
      → Answered s vs h (inside (λ r. r.params) (copy_out m))
  unfolding copy_out
  copied s vs h m t e text holds bound g =
      rw (get_text-ok m.memory m.object.sb t holds)
        (elim (Bool-cases (m.memory.grants m.memory.calls (word (length t + 1)))) [
          | inl granted ↦ rw granted (e, text, bound, (g.0, omega (arith, g.1)))
          | inr refused ↦ rw refused (
              inr (
                Refused-Grows h m.memory g
                  (m.memory.calls, word (length t + 1), omega arith, refused)))
        ])

  finished :
      (s : Script) (vs : List Param) (h : Memory) (r : Outcome (Machine Rendering) (Unit {0}))
      → Ended d bind s [] vs h r
      → Answered s vs h (inside (λ r. r.params) (and_then r (λ _. copy_out)))
  finished s vs h (ok _ m) (e, (holds, bound), g) = copied s vs h m _ e refl holds bound g
  finished s vs h (err e m) end = end
  finished s vs h stuck bad = bad

  later-Answered :
      (s : Script) (vs : List Param) (h h' : Memory) (r : Outcome (Machine (Option Params)) Bytes)
      → Grows h h'
      → Answered s vs h' r
      → Answered s vs h r
  later-Answered s vs h h' (ok sql m) g (e, text, bound, g') =
      (e, text, bound, (g'.0 ∙ g.0, omega (arith, g.1, g'.1)))
  later-Answered s vs h h' (err e m) g (inl same) = inl same
  later-Answered s vs h h' (err e m) g (inr refused) = inr (Refused-Grows h h' g refused)
  later-Answered s vs h h' stuck g bad = bad

  started :
      (c : Clauses Write) (s : Script) (vs : List Param) (h : Memory) (params : Option Params)
      (o : Outcome (Machine (Option StringBuilder)) (Unit {0}))
      → Renders d bind (write_clauses c) s
      → Bound bind vs params
      → length (written d (length vs) s.pieces) < 2 ^ 63
      → length vs + length (values s.pieces) < 2 ^ 32
      → Gives (λ _ sb. Holds sb []) h o
      → Answered s vs h (
          inside
            (λ r. r.params)
            (and_then
              (inside (λ sb. record { sb = sb; params = params }) o)
              (λ _. write_clauses c >>= λ _. copy_out)))
  started c s vs h params (ok _ m) renders bound room few (holds, g) =
      let m' : Machine Rendering = machine m.memory (record { sb = m.object; params = params }) in
      later-Answered s vs h m.memory
        (inside (λ (r : Rendering). r.params) (and_then (write_clauses c m') (λ _. copy_out))) g
        (finished s vs m.memory (write_clauses c m')
          (renders.run m' [] vs (holds, bound) (omega arith, few)))
  started c s vs h params (err e m) renders bound room few refused = inr refused
  started c s vs h params stuck renders bound room few bad = bad

  pub query-Answers :
      (c : Clauses Write) {s : Script}
      → Renders d bind (write_clauses c) s
      → Answers (write_query c) s
  unfolding write_query
  query-Answers c {s} renders = record {
    run = λ h params vs bound room few.
        started c s vs h params (init (machine h none)) renders bound room few
          (init-Gives (machine h none));
  }
