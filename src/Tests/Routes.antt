-- ===== src/Tests/Routes.antt =====
-- A router whose rows and structs are numbers.
use c_orm.Base.{arith, ℕ, ◌+◌, ◌≡◌, none, some, List, [], ◌∷◌, codes}
use c_orm.Memory.{Error, machine, ok}
use c_orm.Memory.Gives.{Gives}
use c_orm.Router.{
  Hydrator, Route, Router, init, dispatch, register, register_route, place, update, make_room, add,
}
use c_orm.Router.Latest.{Knows, latest, register_all, register_all-latest}
use c_orm.Router.Answer.{dispatch-latest}
use c_orm.Tests.{generous}

abbrev copy : Hydrator ℕ ℕ
copy row s = (none, row)

abbrev sum : Hydrator ℕ ℕ
sum row s = (none, row + s)

abbrev refuse : Hydrator ℕ ℕ
refuse row s = (some Error.type_mismatch, s)

-- The second registration for 7 takes the place of the first.
abbrev registrations : List (Route ℕ ℕ)
registrations =
    record { query_id_hash = 7; struct_meta = none; hydrate_fn = copy }
    ∷ record { query_id_hash = 9; struct_meta = none; hydrate_fn = refuse }
    ∷ record { query_id_hash = 7; struct_meta = some 1; hydrate_fn = sum }
    ∷ []

abbrev registered : Router ℕ ℕ
registered = record {
  routes =
      record { query_id_hash = 7; struct_meta = some 1; hydrate_fn = sum }
      ∷ record { query_id_hash = 9; struct_meta = none; hydrate_fn = refuse }
      ∷ [];
  capacity = 8;
}

register_all-latest_example :
    Gives
      (λ _ o. Knows (λ q. latest q registrations) o)
      generous
      (register_all registrations (machine generous (some init)))
register_all-latest_example = register_all-latest registrations generous (omega arith)

registered-Knows : Knows (λ q. latest q registrations) (some registered)
unfolding register_all register register_route place update make_room add
registered-Knows = (register_all-latest registrations generous (omega arith)).0

dispatch-latest_example :
    dispatch registered 7 30 (machine generous (record { target = 12; message = codes "old" }))
    ≡ ok tt (machine generous (record { target = 42; message = [] }))
dispatch-latest_example =
    dispatch-latest registrations registered 7 30 (record { target = 12; message = codes "old" })
      generous registered-Knows
