-- ===== src/Base/Search.antt =====
-- `strchr` and `strstr` on byte strings.
use c_orm.Base.Tests.{◌==◌, if◌then◌else◌, Bytes}
use Prim.Native.Nat.{ℕ, suc}
use mathlib.Core.Bool.{Bool, true, false, ◌&&◌}
use mathlib.Core.Option.{Option, none, some}
use mathlib.Core.List.{[], ◌∷◌}

-- Does `s` begin with `p`?
unfoldable pub starts_with : Bytes → Bytes → Bool
starts_with [] s = true
starts_with (x ∷ p) [] = false
starts_with (x ∷ p) (y ∷ s) = (x == y) && starts_with p s

abbrev pub later : Option ℕ → Option ℕ
later none = none
later (some i) = some (suc i)

-- `strstr(s, p) - s`
unfoldable pub find : Bytes → Bytes → Option ℕ
unfolding starts_with
find p [] = if starts_with p [] then some 0 else none
find p (y ∷ s) = if starts_with p (y ∷ s) then some 0 else later (find p s)

-- The string before the first `c`, and the one after it, if there is a `c`: `strchr`.
abbrev pub cons_first : ℕ → Option (Bytes × Bytes) → Option (Bytes × Bytes)
cons_first x none = none
cons_first x (some (a, b)) = some (x ∷ a, b)

unfoldable pub split_at : ℕ → Bytes → Option (Bytes × Bytes)
split_at c [] = none
split_at c (x ∷ s) = if x == c then some ([], s) else cons_first x (split_at c s)
