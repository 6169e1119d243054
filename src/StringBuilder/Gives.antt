-- ===== src/StringBuilder/Gives.antt =====
-- What a command gives when it succeeds; when it fails, the allocator has refused a request.
use c_orm.Base.{
  ◌+◌, ◌^◌, ◌<◌, ◌≡◌, refl, inl, inr, Option, none, some, [], ◌++◌, arith, Bytes, length,
  Bool-cases,
}
use c_orm.Memory.{Memory, Machine, machine, Outcome, ok, err, stuck, Cmd}
use c_orm.Memory.Gives.{Gives}
use c_orm.StringBuilder.{StringBuilder, init, get_text}
use c_orm.StringBuilder.Append.{Holds, Ends}
use c_orm.StringBuilder.Emits.{Emits, Says}

-- An append, as a step of a larger command.
module _ {S F : Type 0} (view : S → Option StringBuilder) (frame : S → F) where
  Ends-Gives :
      (t : Bytes) (Q : S → Type 0) (h : Memory) (r : Outcome (Machine S) (Unit {0}))
      → Ends view t Q h r
      → Gives (λ _ b. Holds (view b) t × Q b) h r
  Ends-Gives t Q h (ok _ m) (holds, q, g) = ((holds, q), g)
  Ends-Gives t Q h (err e m) (_, _, refused) = refused
  Ends-Gives t Q h stuck bad = bad

  pub Emits-Gives :
      {c : Cmd S (Unit {0})} {f g : F} {s : Bytes} (m : Machine S) (t : Bytes)
      → Emits view frame c f s g
      → Holds (view m.object) t
      → frame m.object ≡ f
      → length t + length s < 2 ^ 63
      → Gives (λ _ b. Holds (view b) (t ++ s) × (frame b ≡ g)) m.memory (c m)
  Emits-Gives {c} {g} {s} m t emits holds start room =
      Ends-Gives (t ++ s) (λ b. frame b ≡ g) m.memory (c m) (emits.run m t holds start room)

Holds-only :
    (t : Bytes) (h : Memory) (r : Outcome (Machine (Option StringBuilder)) (Unit {0}))
    → Ends (λ o. o) t (λ _. tt {0} ≡ tt) h r
    → Gives (λ _ o. Holds o t) h r
Holds-only t h (ok _ m) (holds, q, g) = (holds, g)
Holds-only t h (err e m) (_, _, refused) = refused
Holds-only t h stuck bad = bad

pub Says-Gives :
    {c : Cmd (Option StringBuilder) (Unit {0})} {s : Bytes} (m : Machine (Option StringBuilder))
    (t : Bytes)
    → Says c s
    → Holds m.object t
    → length t + length s < 2 ^ 63
    → Gives (λ _ o. Holds o (t ++ s)) m.memory (c m)
Says-Gives {c} {s} m t says holds room =
    Holds-only (t ++ s) m.memory (c m) (says.run m t holds refl room)

-- A new builder is valid and empty.
pub init-Gives : (m : Machine (Option StringBuilder)) → Gives (λ _ o. Holds o []) m.memory (init m)
unfolding init
init-Gives m = elim (Bool-cases (m.memory.grants m.memory.calls 32)) [
  | inl first ↦ elim (Bool-cases (m.memory.grants (m.memory.calls + 1) 1)) [
    | inl second ↦
        rw (first, second)
          (
            (
              record { valid = refl; size = refl; fits = omega arith; capacity = omega arith },
              refl,
            ),
            (refl, omega arith),
          )
    | inr refused ↦ rw (first, refused) (m.memory.calls + 1, 1, omega arith, refused)
  ]
  | inr refused ↦ rw refused (m.memory.calls, 32, omega arith, refused)
]

-- The text of a valid builder.
pub get_text-ok :
    (h : Memory) (o : Option StringBuilder) (t : Bytes)
    → Holds o t
    → get_text (machine h o) ≡ ok t (machine h o)
unfolding get_text
get_text-ok h none t bad = absurd bad
get_text-ok h (some sb) t (v, text) = rw (v.valid, get_text, text)
