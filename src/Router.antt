-- ===== src/Router.antt =====
-- src/hydrate_router.c: a table of hydration functions by the hash of their query. A function is
-- not code of the repository (it is generated for each struct): it is a parameter of a route. From
-- a row and the struct it gives a status, `none` for C_ORM_OK, and the struct that it leaves.
pub mod Answer
pub mod Latest
use c_orm.Base.{
  ℕ, ◌+◌, ◌*◌, Bool, not, true, false, Option, none, some, List, [], ◌∷◌, ◌++◌, Bytes, codes,
  length, take, ltb, leb, ◌==◌, if◌then◌else◌,
}
use c_orm.Memory.{
  Error, Machine, Outcome, ok, err, stuck, Cmd, ◌>>=◌, ◌>>◌, pure, fail, get, put, alloc, given,
  handle,
}
use c_orm.StringBuilder.{word}

module _ (Row Struct : Type 0) where
  -- `cdd_c_specific_hydrator_fn`
  abbrev pub Hydrator : Type 0
  Hydrator = Row → Struct → Option Error × Struct

  -- `cdd_c_hydrate_route_t`; the metadata is a pointer that is only kept.
  pub record Route : Type 0 where
    pub query_id_hash : ℕ
    pub struct_meta : Option ℕ
    pub hydrate_fn : Hydrator

  -- `cdd_c_hydrate_router_t`; `count` is the length of the routes.
  pub record Router : Type 0 where
    pub routes : List Route
    pub capacity : ℕ

-- `sizeof(cdd_c_hydrate_route_t)` on a 64-bit platform
abbrev pub route_size : ℕ
route_size = 24

module _ {Row Struct : Type 0} where
  -- `cdd_c_hydrate_router_init`
  abbrev pub init : Router Row Struct
  init = record { routes = []; capacity = 0 }

  -- `cdd_c_hydrate_router_free` empties the router.
  unfoldable pub free : Cmd (Option (Router Row Struct)) (Unit {0})
  free = handle Error.unknown (put init)

  -- The loop that updates a route that is there; `none` if there is none.
  abbrev pub keep_route :
      Route Row Struct → Option (List (Route Row Struct)) → Option (List (Route Row Struct))
  keep_route r none = none
  keep_route r (some rs) = some (r ∷ rs)

  unfoldable pub update :
      Route Row Struct → List (Route Row Struct) → Option (List (Route Row Struct))
  update new [] = none
  update new (r ∷ rs) =
      if r.query_id_hash == new.query_id_hash then some (new ∷ rs) else keep_route r (update new rs)

  -- A new route at the end of the array, which doubles when it is full; a write behind it is
  -- `stuck`, where its size has overflowed.
  unfoldable pub make_room : Router Row Struct → Cmd (Router Row Struct) (Unit {0})
  make_room router =
      let new_cap = if router.capacity == 0 then 8 else word (router.capacity * 2) in
      let bytes = word (new_cap * route_size) in
      if leb router.capacity (length router.routes)
      then (do
        granted ← alloc bytes
        if not granted
            then fail Error.unknown
            else if ltb bytes (route_size * (length router.routes + 1))
            then (λ m. stuck)
            else put (record router { capacity = new_cap }))
      else pure tt

  unfoldable pub add : Route Row Struct → Cmd (Router Row Struct) (Unit {0})
  add new = do router ← get; put (record router { routes = router.routes ++ (new ∷ []) })

  unfoldable pub place :
      Route Row Struct → Option (List (Route Row Struct)) → Cmd (Router Row Struct) (Unit {0})
  unfolding make_room add
  place new (some rs) = do router ← get; put (record router { routes = rs })
  place new none = do router ← get; make_room router; add new

  unfoldable pub register_route : Route Row Struct → Cmd (Router Row Struct) (Unit {0})
  unfolding place update
  register_route new = do router ← get; place new (update new router.routes)

  -- `cdd_c_hydrate_router_register`
  unfoldable pub register :
      ℕ → Option ℕ → Option (Hydrator Row Struct) → Cmd (Option (Router Row Struct)) (Unit {0})
  unfolding register_route
  register hash struct_meta fn = handle Error.unknown (do
    f ← given Error.unknown fn
    register_route (record { query_id_hash = hash; struct_meta = struct_meta; hydrate_fn = f }))

  -- The loop of `cdd_c_hydrate_router_dispatch`: the first route of the hash.
  unfoldable pub route_of : ℕ → List (Route Row Struct) → Option (Route Row Struct)
  route_of hash [] = none
  route_of hash (r ∷ rs) = if r.query_id_hash == hash then some r else route_of hash rs

-- What a dispatch works on: the struct, and the message of the thread, which is empty when there
-- has been no error.
pub record Dispatch (Struct : Type 0) : Type 0 where
  pub target : Struct
  pub message : Bytes

module _ {Struct : Type 0} where
  -- `cdd_c_hydrate_router_set_last_error`: a buffer of 512 bytes.
  unfoldable pub set_last_error : Bytes → Cmd (Dispatch Struct) (Unit {0})
  set_last_error msg = do d ← get; put (record d { message = take 511 msg })

  unfoldable pub finish : Option Error × Struct → Cmd (Dispatch Struct) (Unit {0})
  unfolding set_last_error
  finish (none, s) = do d ← get; put (record d { target = s })
  finish (some e, s) = do
    d ← get
    put (record d { target = s })
    set_last_error (codes "Hydration function returned error")
    fail e

module _ {Row Struct : Type 0} where
  unfoldable pub hand_over : Row → Option (Route Row Struct) → Cmd (Dispatch Struct) (Unit {0})
  unfolding finish
  hand_over row none = do set_last_error (codes "Route not found for query ID"); fail Error.unknown
  hand_over row (some r) = do d ← get; finish (r.hydrate_fn row d.target)

  -- `cdd_c_hydrate_router_dispatch`, on arguments that are not NULL.
  unfoldable pub dispatch : Router Row Struct → ℕ → Row → Cmd (Dispatch Struct) (Unit {0})
  unfolding set_last_error hand_over route_of
  dispatch router hash row = do set_last_error []; hand_over row (route_of hash router.routes)
