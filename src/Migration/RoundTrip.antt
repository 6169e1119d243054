-- ===== src/Migration/RoundTrip.antt =====
-- A migration file that is written from two texts, and what `parse_migration_file` makes of it.
use c_orm.Base.{
  ℕ, ◌+◌, ◌-◌, ◌≡◌, refl, ap, sym, subst, inl, inr, true, false, Option, none, some, [], ◌∷◌, ◌++◌,
  arith, Bytes, length, append_assoc, length-append, take, drop, ltb, ◌==◌, Bool-cases,
  if◌then◌else◌,
}
use c_orm.Base.Search.{find, starts_with}
use c_orm.Memory.{Memory, Machine, machine}
use c_orm.Memory.Gives.{Gives, Gives-bind}
use c_orm.Migration.{
  Statements, up_marker, down_marker, empty, up_text, down_text, save_up, save_down, save,
  split_file, parse_migration_file,
}

-- The file of two texts.
abbrev pub file : Bytes → Bytes → Bytes
file up down = up_marker ++ (up ++ (down_marker ++ down))

-- A text that is empty is no statement.
abbrev pub statement_of : Bytes → Option Bytes
statement_of t = if length t == 0 then none else some t

save_up-Gives :
    (t : Bytes) (h : Memory)
    → Gives
        (λ _ o. o ≡ record { up_statement = statement_of t; down_statement = none })
        h
        (save_up (some t) (machine h empty))
unfolding save_up
save_up-Gives t h = elim (Bool-cases (length t == 0)) [
  | inl nothing ↦ rw nothing (refl, (refl, omega arith))
  | inr more ↦ elim (Bool-cases (h.grants h.calls (length t + 1))) [
    | inl granted ↦ rw (more, granted) (refl, (refl, omega arith))
    | inr refused ↦ rw (more, refused) (h.calls, length t + 1, omega arith, refused)
  ]
]

save_down-Gives :
    (up : Option Bytes) (t : Bytes) (h : Memory)
    → Gives
        (λ _ o. o ≡ record { up_statement = up; down_statement = statement_of t })
        h
        (save_down (some t) (machine h (record { up_statement = up; down_statement = none })))
unfolding save_down
save_down-Gives up t h = elim (Bool-cases (length t == 0)) [
  | inl nothing ↦ rw nothing (refl, (refl, omega arith))
  | inr more ↦ elim (Bool-cases (h.grants h.calls (length t + 1))) [
    | inl granted ↦ rw (more, granted) (refl, (refl, omega arith))
    | inr refused ↦ rw (more, refused) (h.calls, length t + 1, omega arith, refused)
  ]
]

-- The statements are the two texts.
abbrev pub Parts : Bytes → Bytes → Statements → Type 0
Parts up down o = o ≡ record { up_statement = statement_of up; down_statement = statement_of down }

save-Gives :
    (up down : Bytes) (h : Memory)
    → Gives (λ _ o. Parts up down o) h (save (some up) (some down) (machine h empty))
unfolding save
save-Gives up down h =
    Gives-bind (λ _ o. o ≡ record { up_statement = statement_of up; down_statement = none })
      (λ _ o. Parts up down o) h (save_up (some up) (machine h empty)) (λ _. save_down (some down))
      (save_up-Gives up h)
      λ _ m same.
        subst
          (λ (o : Statements).
            Gives (λ _ o'. Parts up down o') m.memory (save_down (some down) (machine m.memory o)))
          (sym same) (save_down-Gives (statement_of up) down m.memory)

drop-append : (a b : Bytes) → drop (length a) (a ++ b) ≡ b
drop-append [] b = refl
drop-append (x ∷ a) b = drop-append a b

take-append : (a b : Bytes) → take (length a) (a ++ b) ≡ a
take-append [] b = refl
take-append (x ∷ a) b = ap (λ (s : Bytes). x ∷ s) (take-append a b)

-- The marker at the front, and the other marker behind the first text.
find-up : (s : Bytes) → find up_marker (up_marker ++ s) ≡ some 0
unfolding find starts_with
find-up s = refl

find-down :
    (s : Bytes) (n : ℕ)
    → find down_marker s ≡ some n
    → find down_marker (up_marker ++ s) ≡ some (5 + n)
unfolding find starts_with
find-down s n e = rw e (ap some (omega arith))

-- The texts that are cut out of a file.
up_text-file : (up down : Bytes) → up_text (file up down) (some 0) (some (5 + length up)) ≡ some up
up_text-file up down =
    let later_on : ltb 0 (5 + length up) ≡ true = ground arith in
    let size : 5 + length up - 5 ≡ length up = omega arith in
    rw (later_on, size, take-append up (down_marker ++ down)) refl

down_text-file :
    (up down : Bytes) → down_text (file up down) (some 0) (some (5 + length up)) ≡ some down
down_text-file up down =
    let later_on : ltb 0 (5 + length up) ≡ true = ground arith in
    let front = up_marker ++ (up ++ down_marker) in
    let size : 5 + length up + 7 ≡ length front = omega (arith, length-append up down_marker) in
    let whole : file up down ≡ front ++ down =
      ap (λ (x : Bytes). up_marker ++ x) (sym (append_assoc up down_marker down)) in
    rw (later_on, size, whole, drop-append front down) refl

-- A file of two texts, where the first "-- DOWN" behind the first marker is the one between the
-- texts, gives back the two texts, none for a text that is empty; or the allocator has refused a
-- request.
pub parse_migration_file-file :
    (up down : Bytes) (m : Machine Statements)
    → find down_marker (up ++ (down_marker ++ down)) ≡ some (length up)
    → Gives (λ _ o. Parts up down o) m.memory (parse_migration_file (some (file up down)) m)
unfolding parse_migration_file split_file
parse_migration_file-file up down m first =
    let more : (length (file up down) == 0) ≡ false = ground arith in
    rw
      (
        more,
        find-down (up ++ (down_marker ++ down)) (length up) first,
        up_text-file up down,
        down_text-file up down,
      )
      (save-Gives up down m.memory)

-- The file with the two parts in the other order.
abbrev pub file_down_first : Bytes → Bytes → Bytes
file_down_first up down = down_marker ++ (down ++ (up_marker ++ up))

find-up_later :
    (s : Bytes) (n : ℕ)
    → find up_marker s ≡ some n
    → find up_marker (down_marker ++ s) ≡ some (7 + n)
unfolding find starts_with
find-up_later s n e = rw e (ap some (omega arith))

find-down_first : (s : Bytes) → find down_marker (down_marker ++ s) ≡ some 0
unfolding find starts_with
find-down_first s = refl

up_text-down_first :
    (up down : Bytes)
    → up_text (file_down_first up down) (some (7 + length down)) (some 0) ≡ some up
up_text-down_first up down =
    let later_on : ltb (7 + length down) 0 ≡ false = ground arith in
    let front = down_marker ++ (down ++ up_marker) in
    let size : 7 + length down + 5 ≡ length front = omega (arith, length-append down up_marker) in
    let whole : file_down_first up down ≡ front ++ up =
      ap (λ (x : Bytes). down_marker ++ x) (sym (append_assoc down up_marker up)) in
    rw (later_on, size, whole, drop-append front up) refl

down_text-down_first :
    (up down : Bytes)
    → down_text (file_down_first up down) (some (7 + length down)) (some 0) ≡ some down
down_text-down_first up down =
    let later_on : ltb (7 + length down) 0 ≡ false = ground arith in
    let size : 7 + length down - 7 ≡ length down = omega arith in
    rw (later_on, size, take-append down (up_marker ++ up)) refl

-- A file with the parts in the other order, where the first "-- UP" behind the first marker is the
-- one between the texts, gives back the two texts as well; or the allocator has refused a request.
pub parse_migration_file-reversed :
    (up down : Bytes) (m : Machine Statements)
    → find up_marker (down ++ (up_marker ++ up)) ≡ some (length down)
    → Gives
        (λ _ o. Parts up down o)
        m.memory
        (parse_migration_file (some (file_down_first up down)) m)
unfolding parse_migration_file split_file
parse_migration_file-reversed up down m first =
    let more : (length (file_down_first up down) == 0) ≡ false = ground arith in
    rw
      (
        more,
        find-down_first (down ++ (up_marker ++ up)),
        find-up_later (down ++ (up_marker ++ up)) (length down) first,
        up_text-down_first up down,
        down_text-down_first up down,
      )
      (save-Gives up down m.memory)
