-- ===== src/Query/Steps.antt =====
-- The commands of src/c_orm_query_sql.c that write a string or a value, and the scripts that they
-- write.
use c_orm.Base.{
  ℕ, ◌+◌, ◌*◌, ◌^◌, ◌≤◌, ◌<◌, ◌≡◌, refl, ap, inl, inr, Bool, true, false, Option, none, some, List,
  [], ◌∷◌, ◌++◌, append-nil, arith, Bytes, length, length-append, take, take-length, if◌then◌else◌,
  Bool-cases, leb, ltb, codes,
}
use c_orm.Memory.{Error, Memory, Machine, machine, Outcome, ok, err, stuck, and_then, inside, pure}
use c_orm.Memory.Gives.{Gives, Gives-later}
use c_orm.StringBuilder.{StringBuilder, word, append}
use c_orm.StringBuilder.Append.{Ends, append-Ends}
use c_orm.Query.Ast.{Dialect}
use c_orm.Query.Params.{Param, Params, widen, store, add_to, add_param, next_capacity}
use c_orm.Query.Render.{Rendering, say, quote}
use c_orm.Query.Clauses.{Write}
use c_orm.Query.Script.{Script, written, values, nothing, lit, opt, quoted}
use c_orm.Query.Rules.{IsGood, Bound, Ended, Renders, nothing-Renders}

-- An array with room for one more.
store-Gives :
    (p : Params) (v : Param) (h : Memory)
    → p.count ≡ length p.params
    → p.count + 1 ≤ p.capacity
    → p.capacity ≤ p.count * 2 + 8
    → p.count + 1 < 2 ^ 32
    → Gives (λ _ o. Bound true (p.params ++ (v ∷ [])) o) h (inside some (store v (machine h p)))
unfolding store
store-Gives p v h exact fits tight small =
    let whole : take p.count p.params ≡ p.params = rw exact (take-length p.params) in
    let more : word (p.count + 1) ≡ p.count + 1 = omega arith in
    rw (whole, more)
      (
        (
          record {
            count = omega (arith, length-append p.params (v ∷ []), exact);
            fits = fits;
            tight = omega (arith, tight);
          },
          refl,
        ),
        (refl, omega arith),
      )

wider : (n : ℕ) → n < 2 ^ 32 → (next_capacity n ≤ n * 2 + 8) × (n + 1 ≤ next_capacity n)
wider n small = ground arith

widen-add :
    (p : Params) (v : Param) (h : Memory)
    → IsGood p
    → p.capacity ≡ p.count
    → p.count + 1 < 2 ^ 32
    → Gives
        (λ _ o. Bound true (p.params ++ (v ∷ [])) o)
        h
        (inside some (and_then (widen (machine h p)) (λ _. store v)))
unfolding widen
widen-add p v h good full small =
    let (tight, fits) = wider p.capacity (omega arith) in
    let exact : word (16 * next_capacity p.capacity) ≡ 16 * next_capacity p.capacity =
      omega arith in
    let size = word (16 * next_capacity p.capacity) in
    elim (Bool-cases (h.grants h.calls size)) [
      | inl granted ↦
          let enough : ltb size (16 * (p.count + 1)) ≡ false = ground arith in
          rw (granted, enough)
            (Gives-later _ h (record h { calls = h.calls + 1 })
              (inside some (
                store v (
                  machine (record h { calls = h.calls + 1 })
                    (record p { capacity = next_capacity p.capacity }))))
              (refl, omega arith)
              (store-Gives (record p { capacity = next_capacity p.capacity }) v
                (record h { calls = h.calls + 1 }) good.count (omega arith) (omega arith) small))
      | inr refused ↦ rw refused (h.calls, size, omega arith, refused)
    ]

-- A parameter is added, or the allocator has refused a request.
pub add_param-Gives :
    (p : Params) (value : Option Bytes) (is_string : Bool) (h : Memory)
    → IsGood p
    → p.count + 1 < 2 ^ 32
    → Gives
        (λ _ o. Bound true (p.params ++ (record { value = value; is_string = is_string } ∷ [])) o)
        h
        (add_param value is_string (machine h (some p)))
unfolding add_param add_to
add_param-Gives p value is_string h good small =
    let v : Param = record { value = value; is_string = is_string } in
    elim (Bool-cases (leb p.capacity p.count)) [
      | inl full ↦ rw full (widen-add p v h good (ground (arith, good.fits)) small)
      | inr free ↦ rw free (store-Gives p v h good.count (ground arith) good.tight small)
    ]

module _ (d : Dialect) (bind : Bool) where
  say-Ended :
      (s t : Bytes) (vs : List Param) (r : Rendering) (h : Memory)
      (o : Outcome (Machine (Option StringBuilder)) (Unit {0}))
      → Bound bind vs r.params
      → Ends (λ o. o) (t ++ s) (λ _. Unit) h o
      → Ended d bind (lit s) t vs h (inside (λ sb. record r { sb = sb }) o)
  unfolding written values
  say-Ended s t vs r h (ok _ m) bound (holds, q, g) =
      rw (append-nil, append-nil) (refl, (holds, bound), g)
  say-Ended s t vs r h (err e m) bound (e', broken, refused) = inr refused
  say-Ended s t vs r h stuck bound bad = bad

  pub text-Renders : (s : Bytes) → Renders d bind (say (some s)) (lit s)
  unfolding say written
  text-Renders s = record {
    run = λ m t vs (holds, bound) (bytes, params).
        let e : s ++ [] ≡ s = append-nil s in
        say-Ended s t vs m.object m.memory (append (some s) (machine m.memory m.object.sb)) bound
          (append-Ends s t m.memory m.object.sb holds (omega (arith, ap length e)));
  }

  append-none :
      (h : Memory) (sb : Option StringBuilder)
      → append none (machine h sb) ≡ err Error.unknown (machine h sb)
  unfolding append
  append-none h none = refl
  append-none h (some sb) = refl

  -- A string that is not NULL is written.
  pub say-Renders : (s : Option Bytes) → Renders d bind (say s) (opt s)
  unfolding say
  say-Renders none = record {
    run = λ m t vs has room. rw (append-none m.memory m.object.sb) (inl refl);
  }
  say-Renders (some s) = text-Renders s

  pub if-Renders :
      (b : Bool) {c e : Write} {s u : Script}
      → Renders d bind c s
      → Renders d bind e u
      → Renders d bind (if b then c else e) (if b then s else u)
  if-Renders true first second = first
  if-Renders false first second = second

  -- Something that may be left out.
  pub when-Renders :
      (b : Bool) {c : Write} {s : Script}
      → Renders d bind c s
      → Renders d bind (if b then c else pure tt) (if b then s else nothing)
  when-Renders b first = if-Renders b first (nothing-Renders d bind)

  pub quote-Renders : (is_string : Bool) → Renders d bind (quote is_string) (quoted is_string)
  quote-Renders is_string = when-Renders is_string (text-Renders (codes "'"))
