-- ===== src/Router/Latest.antt =====
-- A router after any registrations, against the map from a hash to its latest registration.
use c_orm.Base.{
  ℕ, ◌+◌, ◌^◌, ◌*◌, ltb, ◌≤◌, ◌<◌, ◌≡◌, refl, ap, subst, ◌∙◌, inl, inr, false, Option, none, some,
  List, [], ◌∷◌, ◌++◌, arith, length, length-append, leb, ◌==◌, Bool-cases, Option-cases,
  if◌then◌else◌,
}
use c_orm.Memory.{Memory, Machine, machine, Cmd, ◌>>◌, pure, inside, Outcome, ok, err, stuck}
use c_orm.Memory.Gives.{Gives, Gives-bind, Gives-mono}
use c_orm.StringBuilder.{word}
use c_orm.Router.{
  Route, Router, init, update, make_room, add, place, register_route, register, route_of,
}

module _ {Row Struct : Type 0} where
  -- The latest of two answers.
  abbrev pub or_else :
      Option (Route Row Struct) → Option (Route Row Struct) → Option (Route Row Struct)
  or_else none old = old
  or_else (some r) old = some r

  abbrev pub answers : ℕ → Route Row Struct → Option (Route Row Struct)
  answers q r = if r.query_id_hash == q then some r else none

  -- What is registered last for the hash.
  abbrev pub latest : ℕ → List (Route Row Struct) → Option (Route Row Struct)
  latest q [] = none
  latest q (r ∷ rs) = or_else (latest q rs) (answers q r)

  update-some :
      (q : ℕ) (new : Route Row Struct) (rs rs' : List (Route Row Struct))
      → update new rs ≡ some rs'
      → (route_of q rs' ≡ or_else (answers q new) (route_of q rs)) × (length rs' ≡ length rs)
  unfolding update route_of
  update-some q new [] rs' e = cc
  update-some q new (r ∷ rs) rs' e = elim (Bool-cases (r.query_id_hash == new.query_id_hash)) [
    | inl hit ↦
        let same : new ∷ rs ≡ rs' = cc (rw hit at e) in
        elim (Bool-cases (new.query_id_hash == q)) [
          | inl mine ↦ rw (← same, mine) (refl, refl)
          | inr other ↦
              let other' : (r.query_id_hash == q) ≡ false = ground arith in
              rw (← same, other, other') (refl, refl)
        ]
    | inr miss ↦ elim (Option-cases (update new rs)) [
      | inl missing ↦ cc (rw (miss, missing) at e)
      | inr (rs'', found) ↦
          let same : r ∷ rs'' ≡ rs' = cc (rw (miss, found) at e) in
          let (rest, size) = update-some q new rs rs'' found in
          elim (Bool-cases (r.query_id_hash == q)) [
            | inl mine ↦
                let other : (new.query_id_hash == q) ≡ false = ground arith in
                rw (← same, mine, other) (refl, omega (arith, size))
            | inr other ↦ rw (← same, other) (rest, omega (arith, size))
          ]
    ]
  ]

  update-none :
      (new : Route Row Struct) (rs : List (Route Row Struct))
      → update new rs ≡ none
      → route_of new.query_id_hash rs ≡ none
  unfolding update route_of
  update-none new [] e = refl
  update-none new (r ∷ rs) e = elim (Bool-cases (r.query_id_hash == new.query_id_hash)) [
    | inl hit ↦ cc (rw hit at e)
    | inr miss ↦ elim (Option-cases (update new rs)) [
      | inl missing ↦ rw miss (update-none new rs missing)
      | inr (rs'', found) ↦ cc (rw (miss, found) at e)
    ]
  ]

  route_of-snoc :
      (q : ℕ) (new : Route Row Struct) (rs : List (Route Row Struct))
      → route_of q (rs ++ (new ∷ [])) ≡ or_else (route_of q rs) (answers q new)
  unfolding route_of
  route_of-snoc q new [] = refl
  route_of-snoc q new (r ∷ rs) = elim (Bool-cases (r.query_id_hash == q)) [
    | inl hit ↦ rw hit refl
    | inr miss ↦ rw miss (route_of-snoc q new rs)
  ]

  -- A new route at the end.
  route_of-added :
      (q : ℕ) (new : Route Row Struct) (rs : List (Route Row Struct))
      → update new rs ≡ none
      → route_of q (rs ++ (new ∷ [])) ≡ or_else (answers q new) (route_of q rs)
  route_of-added q new rs missing = elim (Bool-cases (new.query_id_hash == q)) [
    | inl mine ↦
        let same : new.query_id_hash ≡ q = ground arith in
        let before : route_of q rs ≡ none =
          subst (λ (x : ℕ). route_of x rs ≡ none) same (update-none new rs missing) in
        rw (route_of-snoc q new rs, before, mine) refl
    | inr other ↦ elim (Option-cases (route_of q rs)) [
      | inl nowhere ↦ rw (route_of-snoc q new rs, nowhere, other) refl
      | inr (r, found) ↦ rw (route_of-snoc q new rs, found, other) refl
    ]
  ]

  -- The router answers each hash so, within its capacity.
  abbrev pub Knows : (ℕ → Option (Route Row Struct)) → Option (Router Row Struct) → Type 0
  Knows f none = ⊥
  Knows f (some router) =
      ((q : ℕ) → route_of q router.routes ≡ f q) × (length router.routes ≤ router.capacity)

  -- The router has at most `n` routes, and its array is not much longer than they are.
  abbrev Grown : ℕ → (ℕ → Option (Route Row Struct)) → Option (Router Row Struct) → Type 0
  Grown n f none = ⊥
  Grown n f (some router) =
      Knows f (some router)
      × (router.capacity ≤ length router.routes * 2 + 8)
      × (length router.routes ≤ n)

  Grown-Knows :
      (n : ℕ) {f g : ℕ → Option (Route Row Struct)} (same : (q : ℕ) → f q ≡ g q)
      (o : Option (Router Row Struct))
      → Grown n f o
      → Knows g o
  Grown-Knows n same none bad = bad
  Grown-Knows n same (some router) ((known, fits), _, _) = (λ q. known q ∙ same q, fits)

  -- A client that registers a list of routes, and stops at the first error.
  unfoldable pub register_all :
      List (Route Row Struct) → Cmd (Option (Router Row Struct)) (Unit {0})
  unfolding register
  register_all [] = pure tt
  register_all (r ∷ rs) =
      register r.query_id_hash r.struct_meta (some r.hydrate_fn) >> register_all rs

  -- Room for one route more, in an array that is not much longer.
  abbrev Roomy : Router Row Struct → Router Row Struct → Type 0
  Roomy before r =
      (r.routes ≡ before.routes)
      × (length r.routes < r.capacity)
      × (r.capacity ≤ length r.routes * 2 + 8)

  make_room-Gives :
      (router : Router Row Struct) (h : Memory)
      → length router.routes ≤ router.capacity
      → router.capacity ≤ length router.routes * 2 + 8
      → length router.routes < 2 ^ 58
      → Gives (λ _ r. Roomy router r) h (make_room router (machine h router))
  unfolding make_room
  make_room-Gives router h fits tight few =
      let new_cap = if router.capacity == 0 then 8 else word (router.capacity * 2) in
      let bytes = word (new_cap * 24) in
      elim (Bool-cases (leb router.capacity (length router.routes))) [
        | inl full ↦
            let size : ltb bytes (24 * (length router.routes + 1)) ≡ false = ground arith in
            let larger : length router.routes < new_cap = ground arith in
            let close : new_cap ≤ length router.routes * 2 + 8 = ground arith in
            elim (Bool-cases (h.grants h.calls bytes)) [
              | inl granted ↦ rw (full, granted, size) ((refl, larger, close), (refl, omega arith))
              | inr refused ↦ rw (full, refused) (h.calls, bytes, omega arith, refused)
            ]
        | inr room ↦ rw room ((refl, ground arith, tight), (refl, omega arith))
      ]

  -- One registration, whether the hash is new or not.
  register-Grown :
      (n : ℕ) (new : Route Row Struct) (f : ℕ → Option (Route Row Struct))
      (router : Router Row Struct) (h : Memory)
      → n < 2 ^ 58
      → Grown n f (some router)
      → Gives
          (λ _ r. Grown (n + 1) (λ q. or_else (answers q new) (f q)) (some r))
          h
          (register_route new (machine h router))
  unfolding register_route place add
  register-Grown n new f router h few ((known, fits), tight, bound) =
      let After = λ (_ : Unit {0}) (r : Router Row Struct).
        Grown (n + 1) (λ q. or_else (answers q new) (f q)) (some r) in
      elim (Option-cases (update new router.routes)) [
        | inr (rs, found) ↦
            let size = (update-some 0 new router.routes rs found).1 in
            rw (found, place)
              (
                (
                  (
                    λ q.
                        (update-some q new router.routes rs found).0
                        ∙ ap (or_else (answers q new)) (known q),
                    omega (arith, size),
                  ),
                  omega (arith, size),
                  omega (arith, size),
                ),
                (refl, omega arith),
              )
        | inl missing ↦
            rw (missing, place)
              (Gives-bind (λ _ r. Roomy router r) After h (make_room router (machine h router))
                (λ _. add new) (make_room-Gives router h fits tight (omega arith))
                λ _ m (same, room, close).
                  let longer = length-append m.object.routes (new ∷ []) in
                  let as_long = ap length same in
                  (
                    (
                      (
                        λ q.
                            ap (λ (rs : List (Route Row Struct)). route_of q (rs ++ (new ∷ [])))
                              same
                            ∙ route_of-added q new router.routes missing
                            ∙ ap (or_else (answers q new)) (known q),
                        omega (arith, longer),
                      ),
                      omega (arith, longer),
                      omega (arith, longer, as_long),
                    ),
                    (refl, omega arith),
                  ))
      ]

  Gives-some :
      (P : Option (Router Row Struct) → Type 0) (h : Memory)
      (r : Outcome (Machine (Router Row Struct)) (Unit {0}))
      → Gives (λ _ o. P (some o)) h r
      → Gives (λ _ o. P o) h (inside some r)
  Gives-some P h (ok _ m) gives = gives
  Gives-some P h (err e m) refused = refused
  Gives-some P h stuck bad = bad

  or_else_assoc :
      (a b c : Option (Route Row Struct)) → or_else a (or_else b c) ≡ or_else (or_else a b) c
  or_else_assoc none b c = refl
  or_else_assoc (some r) b c = refl

  or_else-none : (a : Option (Route Row Struct)) → or_else a none ≡ a
  or_else-none none = refl
  or_else-none (some r) = refl

  route_of-init : (q : ℕ) → route_of {Row = Row} {Struct = Struct} q [] ≡ none
  unfolding route_of
  route_of-init q = refl

  Grown-same :
      {n k : ℕ} {f g : ℕ → Option (Route Row Struct)}
      → n ≤ k
      → (same : (q : ℕ) → f q ≡ g q) → (o : Option (Router Row Struct)) → Grown n f o
      → Grown k g o
  Grown-same less same none bad = bad
  Grown-same less same (some router) ((known, fits), tight, bound) =
      ((λ q. known q ∙ same q, fits), tight, omega (arith, less, bound))

  -- From a router that knows `f`.
  register_all-Grown :
      (rs : List (Route Row Struct)) (n : ℕ) (f : ℕ → Option (Route Row Struct)) (h : Memory)
      (o : Option (Router Row Struct))
      → n + length rs < 2 ^ 58
      → Grown n f o
      → Gives
          (λ _ o'. Grown (n + length rs) (λ q. or_else (latest q rs) (f q)) o')
          h
          (register_all rs (machine h o))
  unfolding register_all register
  register_all-Grown rs n f h none few bad = absurd bad
  register_all-Grown [] n f h (some router) few grown =
      (Grown-same (omega arith) (λ q. refl) (some router) grown, (refl, omega arith))
  register_all-Grown (new ∷ rs) n f h (some router) few grown =
      let g : ℕ → Option (Route Row Struct) = λ q. or_else (answers q new) (f q) in
      let all : ℕ → Option (Route Row Struct) = λ q. or_else (latest q (new ∷ rs)) (f q) in
      Gives-bind (λ _ o. Grown (n + 1) g o) (λ _ o'. Grown (n + length (new ∷ rs)) all o') h
        (inside some (register_route new (machine h router))) (λ _. register_all rs)
        (Gives-some (Grown (n + 1) g) h (register_route new (machine h router))
          (register-Grown n new f router h (omega (arith, few)) grown))
        λ _ m grown'.
          Gives-mono (λ _ o'. Grown (n + 1 + length rs) (λ q. or_else (latest q rs) (g q)) o')
            (λ _ o'. Grown (n + length (new ∷ rs)) all o') m.memory (register_all rs m)
            (register_all-Grown rs (n + 1) g m.memory m.object (omega (arith, few)) grown')
            λ _ o'.
              Grown-same (omega arith) (λ q. or_else_assoc (latest q rs) (answers q new) (f q)) o'

  -- After fewer than 2 ^ 58 registrations on a new router, every hash has the route that was
  -- registered last for it, and no other has one; the routes fit their array, and no write is
  -- outside of it. Or the allocator has refused a request.
  pub register_all-latest :
      (rs : List (Route Row Struct)) (h : Memory)
      → length rs < 2 ^ 58
      → Gives (λ _ o. Knows (λ q. latest q rs) o) h (register_all rs (machine h (some init)))
  register_all-latest rs h few =
      Gives-mono (λ _ o. Grown (0 + length rs) (λ q. or_else (latest q rs) none) o)
        (λ _ o. Knows (λ q. latest q rs) o) h (register_all rs (machine h (some init)))
        (register_all-Grown rs 0 (λ q. none) h (some init) (omega (arith, few))
          ((λ q. route_of-init q, omega arith), omega arith, omega arith))
        λ _ o. Grown-Knows (0 + length rs) (λ q. or_else-none (latest q rs)) o
