-- ===== src/Router/Answer.antt =====
-- What a dispatch does with the route of the hash, or without one.
use c_orm.Base.{ℕ, ◌≡◌, refl, Option, none, some, List, [], codes}
use c_orm.Memory.{Error, Memory, Machine, machine, Outcome, ok, err}
use c_orm.Router.{Route, Router, Dispatch, set_last_error, finish, hand_over, dispatch}
use c_orm.Router.Latest.{Knows, latest}

module _ {Struct : Type 0} where
  -- The outcome of a hydration function, with the message for its status.
  abbrev pub reported :
      Memory → Option Error × Struct → Outcome (Machine (Dispatch Struct)) (Unit {0})
  reported h (none, s) = ok tt (machine h (record { target = s; message = [] }))
  reported h (some e, s) =
      err e (machine h (record { target = s; message = codes "Hydration function returned error" }))

  finish-reported :
      (h : Memory) (s : Struct) (result : Option Error × Struct)
      → finish result (machine h (record { target = s; message = [] })) ≡ reported h result
  unfolding finish set_last_error
  finish-reported h s (none, s') = refl
  finish-reported h s (some e, s') = refl

module _ {Row Struct : Type 0} where
  -- The outcome for a hash that has, or has not, a route.
  abbrev pub routed :
      Memory
      → Row
      → Struct
      → Option (Route Row Struct)
      → Outcome (Machine (Dispatch Struct)) (Unit {0})
  routed h row s none =
      err Error.unknown
        (machine h (record { target = s; message = codes "Route not found for query ID" }))
  routed h row s (some r) = reported h (r.hydrate_fn row s)

  hand_over-routed :
      (h : Memory) (row : Row) (s : Struct) (o : Option (Route Row Struct))
      → hand_over row o (machine h (record { target = s; message = [] })) ≡ routed h row s o
  unfolding hand_over set_last_error
  hand_over-routed h row s none = refl
  hand_over-routed h row s (some r) = finish-reported h s (r.hydrate_fn row s)

  -- Where a router answers each hash with its latest registration, a dispatch runs the function
  -- that was registered last for the hash, gives its status, and leaves the struct that it leaves;
  -- where there is none it fails and leaves the struct alone. Whatever message there was before,
  -- the message is then that of this dispatch, and empty on success.
  pub dispatch-latest :
      (rs : List (Route Row Struct)) (router : Router Row Struct) (hash : ℕ) (row : Row)
      (d : Dispatch Struct) (h : Memory)
      → Knows (λ q. latest q rs) (some router)
      → dispatch router hash row (machine h d) ≡ routed h row d.target (latest hash rs)
  unfolding dispatch set_last_error
  dispatch-latest rs router hash row d h (known, fits) =
      rw (known hash) (hand_over-routed h row d.target (latest hash rs))
