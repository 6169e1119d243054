-- ===== src/Query/Values.antt =====
-- Values, as `render_node` writes them: bound as parameters where there is a place for them, in the
-- text otherwise.
use c_orm.Base.{
  ℕ, suc, ◌+◌, ◌^◌, ◌<◌, ◌≡◌, refl, ap, ◌∙◌, inl, inr, Bool, true, false, Option, none, some, [],
  List, ◌∷◌, ◌++◌, append-nil, arith, Bytes, length, length-append, codes,
}
use c_orm.Memory.{
  Memory, Machine, machine, Outcome, ok, err, stuck, and_then, inside, ◌>>=◌, ◌>>◌, get,
}
use c_orm.StringBuilder.Append.{Holds}
use c_orm.Memory.Gives.{Grows, Refused-Grows, Gives}
use c_orm.Query.Ast.{Dialect}
use c_orm.Query.Params.{Param, Params, add_param}
use c_orm.Query.Render.{
  Rendering, say, choose, bind_or_inline, placeholder, bind_value, inline_value, word32, count_of,
}
use c_orm.Query.Clauses.{Write}
use c_orm.Query.Script.{Piece, Script, written, values, lit, mark, value_of, ◌⊕◌}
use c_orm.Query.Rules.{Bound, Ended, Renders, then-Renders}
use c_orm.Query.Steps.{add_param-Gives, say-Renders, text-Renders, quote-Renders}

placeholder-mark : (d : Dialect) (n : ℕ) → placeholder d n ≡ mark d n
placeholder-mark Dialect.sqlite n = refl
placeholder-mark Dialect.mysql n = refl
placeholder-mark Dialect.postgres n = refl

module _ (d : Dialect) where
  chosen-true :
      (c e : Write) (s : Script) (m : Machine Rendering) (t : Bytes) (vs : List Param)
      (o : Option Params)
      → Bound true vs o
      → Ended d true s t vs m.memory (c m)
      → Ended d true s t vs m.memory (bind_or_inline c e o m)
  chosen-true c e s m t vs none bad ended = absurd bad
  chosen-true c e s m t vs (some p) bound ended = ended

  chosen-false :
      (c e : Write) (s : Script) (m : Machine Rendering) (t : Bytes) (vs : List Param)
      (o : Option Params)
      → Bound false vs o
      → Ended d false s t vs m.memory (e m)
      → Ended d false s t vs m.memory (bind_or_inline c e o m)
  chosen-false c e s m t vs none bound ended = ended
  chosen-false c e s m t vs (some p) bad ended = absurd bad

  pub choose-true : (c e : Write) {s : Script} → Renders d true c s → Renders d true (choose c e) s
  unfolding choose
  choose-true c e {s} renders = record {
    run = λ m t vs (holds, bound) room.
        chosen-true c e s m t vs m.object.params bound (renders.run m t vs (holds, bound) room);
  }

  pub choose-false :
      (c e : Write) {s : Script} → Renders d false e s → Renders d false (choose c e) s
  unfolding choose
  choose-false c e {s} renders = record {
    run = λ m t vs (holds, bound) room.
        chosen-false c e s m t vs m.object.params bound (renders.run m t vs (holds, bound) room);
  }

  pub inline-Renders :
      (v : Option Bytes) (is_string : Bool)
      → Renders d false (inline_value v is_string) (value_of false v is_string)
  unfolding inline_value
  inline-Renders v is_string =
      then-Renders d false (quote-Renders d false is_string)
        (then-Renders d false (say-Renders d false v) (quote-Renders d false is_string))

  -- The placeholder that follows a new parameter.
  next_placeholder : Write
  next_placeholder = get >>= λ r. say (some (placeholder d (word32 (count_of r.params))))

  Ended-value :
      (v : Param) (t : Bytes) (vs : List Param) (h h' : Memory)
      (r : Outcome (Machine Rendering) (Unit {0}))
      → Grows h h'
      → Ended d true (lit (mark d (suc (length vs)))) t (vs ++ (v ∷ [])) h' r
      → Ended d true (record { pieces = Piece.value v ∷ []; fault = none }) t vs h r
  unfolding written values
  Ended-value v t vs h h' (ok _ m) g (e, has, g') =
      (refl, rw (append-nil (vs ++ (v ∷ []))) at has, (g'.0 ∙ g.0, omega (arith, g.1, g'.1)))
  Ended-value v t vs h h' (err e m) g (inl bad) = cc
  Ended-value v t vs h h' (err e m) g (inr refused) = inr (Refused-Grows h h' g refused)
  Ended-value v t vs h h' stuck g bad = bad

  placeholder-Ended :
      (v : Param) (t : Bytes) (vs : List Param) (r : Rendering) (params : Option Params)
      (h h' : Memory)
      → Grows h h'
      → Holds r.sb t
      → length t + length (mark d (suc (length vs))) < 2 ^ 63
      → length vs + 1 < 2 ^ 32
      → Bound true (vs ++ (v ∷ [])) params
      → Ended d true
          (record { pieces = Piece.value v ∷ []; fault = none })
          t
          vs
          h
          (next_placeholder (machine h' (record r { params = params })))
  unfolding next_placeholder written values
  placeholder-Ended v t vs r none h h' g holds room few bad = absurd bad
  placeholder-Ended v t vs r (some p) h h' g holds room few (good, same) =
      let more = length-append vs (v ∷ []) in
      let n : word32 p.count ≡ suc (length vs) = omega (arith, good.count, ap length same) in
      let whole = append-nil (mark d (suc (length vs))) in
      let m' : Machine Rendering = machine h' (record r { params = some p }) in
      Ended-value v t vs h h' (next_placeholder m') g (
        rw (n, placeholder-mark d (suc (length vs)))
          ((text-Renders d true (mark d (suc (length vs)))).run m' t (vs ++ (v ∷ []))
            (holds, (good, same)) (omega (arith, ap length whole), omega arith)))

  bind-Ended :
      (v : Param) (t : Bytes) (vs : List Param) (r : Rendering) (h : Memory)
      (o : Outcome (Machine (Option Params)) (Unit {0}))
      → Holds r.sb t
      → length t + length (mark d (suc (length vs))) < 2 ^ 63
      → length vs + 1 < 2 ^ 32
      → Gives (λ _ params. Bound true (vs ++ (v ∷ [])) params) h o
      → Ended d true
          (record { pieces = Piece.value v ∷ []; fault = none })
          t
          vs
          h
          (and_then (inside (λ params. record r { params = params }) o) (λ _. next_placeholder))
  bind-Ended v t vs r h (ok _ m) holds room few (bound, g) =
      placeholder-Ended v t vs r m.object h m.memory g holds room few bound
  bind-Ended v t vs r h (err e m) holds room few refused = inr refused
  bind-Ended v t vs r h stuck holds room few bad = bad

  added :
      (v : Option Bytes) (is_string : Bool) (vs : List Param) (h : Memory) (params : Option Params)
      → length vs + 1 < 2 ^ 32
      → Bound true vs params
      → Gives
          (λ _ o. Bound true (vs ++ (record { value = v; is_string = is_string } ∷ [])) o)
          h
          (add_param v is_string (machine h params))
  added v is_string vs h none few bad = absurd bad
  added v is_string vs h (some p) few (good, same) =
      rw (← same) (add_param-Gives p v is_string h good (omega (arith, good.count, ap length same)))

  -- A value that is bound leaves a placeholder with its number.
  pub bind-Renders :
      (v : Option Bytes) (is_string : Bool)
      → Renders d true (bind_value d v is_string) (value_of true v is_string)
  unfolding bind_value next_placeholder written values
  bind-Renders v is_string = record {
    run = λ m t vs (holds, bound) (bytes, few).
        let whole = append-nil (mark d (suc (length vs))) in
        bind-Ended (record { value = v; is_string = is_string }) t vs m.object m.memory
          (add_param v is_string (machine m.memory m.object.params)) holds
          (omega (arith, ap length whole)) (few)
          (added v is_string vs m.memory m.object.params few bound);
  }

-- A literal, in either mode.
pub value-Renders :
    (d : Dialect) (bind : Bool) (v : Option Bytes) (is_string : Bool)
    → Renders d bind
        (choose (bind_value d v is_string) (inline_value v is_string))
        (value_of bind v is_string)
value-Renders d true v is_string = choose-true d _ _ (bind-Renders d v is_string)
value-Renders d false v is_string = choose-false d _ _ (inline-Renders d v is_string)

-- Both limits of a BETWEEN.
pub limits-Renders :
    (d : Dialect) (bind : Bool) (low high : Option Bytes) (is_string : Bool)
    → Renders d bind
        (choose
          (bind_value d low is_string
            >> (say (some (codes " AND ")) >> bind_value d high is_string))
          (inline_value low is_string
            >> (say (some (codes " AND ")) >> inline_value high is_string)))
        (value_of bind low is_string ⊕ lit (codes " AND ") ⊕ value_of bind high is_string)
limits-Renders d true low high is_string = choose-true d _ _ (
    then-Renders d true (bind-Renders d low is_string)
      (then-Renders d true (text-Renders d true (codes " AND ")) (bind-Renders d high is_string)))
limits-Renders d false low high is_string = choose-false d _ _ (
    then-Renders d false (inline-Renders d low is_string) (
      then-Renders d false (text-Renders d false (codes " AND "))
        (inline-Renders d high is_string)))
