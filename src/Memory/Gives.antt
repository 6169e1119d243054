-- ===== src/Memory/Gives.antt =====
-- What a command gives when it succeeds; when it fails, the allocator has refused a request.
use c_orm.Base.{ℕ, ◌≤◌, ◌≡◌, ◌∙◌, false, arith}
use c_orm.Memory.{Memory, Machine, Outcome, ok, err, stuck, Cmd, and_then, keep}

-- The allocator `h` after more requests.
abbrev pub Grows : Memory → Memory → Type 0
Grows h h' = (h'.grants ≡ h.grants) × (h.calls ≤ h'.calls)

-- A request to `h` or later was refused.
abbrev pub Refused : Memory → Type 0
Refused h = (n size : ℕ) × (h.calls ≤ n) × (h.grants n size ≡ false)

pub Refused-Grows : (h h' : Memory) → Grows h h' → Refused h' → Refused h
Refused-Grows h h' g (n, size, late, refused) = (n, size, omega (arith, g.1), rw (← g.0) refused)

module _ {S A : Type 0} where
  abbrev pub Gives : (A → S → Type 0) → Memory → Outcome (Machine S) A → Type 0
  Gives P h (ok a m) = P a m.object × Grows h m.memory
  Gives P h (err e m) = Refused h
  Gives P h stuck = ⊥

  -- A result reached after more requests.
  pub Gives-later :
      (P : A → S → Type 0) (h h' : Memory) (r : Outcome (Machine S) A)
      → Grows h h'
      → Gives P h' r
      → Gives P h r
  Gives-later P h h' (ok a m) g (p, g') = (p, (g'.0 ∙ g.0, omega (arith, g.1, g'.1)))
  Gives-later P h h' (err e m) g refused = Refused-Grows h h' g refused
  Gives-later P h h' stuck g bad = bad

module _ {S A B : Type 0} (P : A → S → Type 0) (Q : B → S → Type 0) where
  pub Gives-bind :
      (h : Memory) (r : Outcome (Machine S) A) (k : A → Cmd S B)
      → Gives P h r
      → ((a : A) (m : Machine S) → P a m.object → Gives Q m.memory (k a m))
      → Gives Q h (and_then r k)
  Gives-bind h (ok a m) k (p, g) next = Gives-later Q h m.memory (k a m) g (next a m p)
  Gives-bind h (err e m) k refused next = refused
  Gives-bind h stuck k bad next = bad

pub Gives-mono :
    {S A : Type 0} (P Q : A → S → Type 0) (h : Memory) (r : Outcome (Machine S) A)
    → Gives P h r
    → ((a : A) (o : S) → P a o → Q a o)
    → Gives Q h r
Gives-mono P Q h (ok a m) (p, g) weaken = (weaken a m.object p, g)
Gives-mono P Q h (err e m) refused weaken = refused
Gives-mono P Q h stuck bad weaken = bad

-- A command on a local object, which becomes the result.
pub Gives-keep :
    {S T A : Type 0} (P : T → Type 0) (o : S) (h : Memory) (r : Outcome (Machine T) A)
    → Gives (λ _ t. P t) h r
    → Gives (λ t _. P t) h (keep o r)
Gives-keep P o h (ok a m) given' = given'
Gives-keep P o h (err e m) refused = refused
Gives-keep P o h stuck bad = bad
