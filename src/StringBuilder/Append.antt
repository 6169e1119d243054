-- ===== src/StringBuilder/Append.antt =====
-- What an append does to a builder, on every branch.
use native.Mathlib.Nat.{pow-succ'}
use c_orm.Base.{
  ℕ, zero, suc, ◌+◌, ◌*◌, ◌^◌, ◌≤◌, ◌<◌, ◌≡◌, refl, sym, ap, ◌∙◌, inl, inr, true, false, Option,
  none, some, ◌∷◌, [], ◌++◌, append-nil, arith, Bytes, length, take, take-length, length-append,
  ltb, ltb→lt, ltb→le, ◌==◌, Bool-cases,
}
use c_orm.Memory.{Error, Memory, Machine, machine, Outcome, ok, err, stuck, Cmd, and_then, inside}
use c_orm.Memory.Gives.{Grows, Refused, Refused-Grows}
use c_orm.StringBuilder.{
  StringBuilder, word, grow, resize, resize_to, reserve, write, append_valid, append_bytes, append,
}

-- A builder in working order: its length is that of its text, which fits with its NUL.
pub record IsValid (sb : StringBuilder) : Type 0 where
  pub valid : sb.valid ≡ true
  pub size : sb.size ≡ length sb.buffer
  pub fits : sb.size < sb.capacity
  pub capacity : sb.capacity < 2 ^ 64

grow_again :
    (f required capacity : ℕ)
    → ltb capacity required ≡ true
    → grow (suc f) required capacity ≡ grow f required (word (capacity * 2))
unfolding grow
grow_again f required capacity less = rw (less, grow)

grow_done :
    (f required capacity : ℕ)
    → ltb capacity required ≡ false
    → grow (suc f) required capacity ≡ some capacity
unfolding grow
grow_done f required capacity done = rw (done, grow)

double-word : (c required : ℕ) → ltb c required ≡ true → required ≤ 2 ^ 63 → word (c * 2) ≡ c * 2
double-word c required less small = omega (arith, ltb→lt)

-- The doubling loop ends within its rounds where the request is at most 2 ^ 63 bytes.
grow-some :
    (f required capacity : ℕ)
    → required ≤ 2 ^ 63
    → capacity < 2 ^ 64
    → required ≤ capacity * 2 ^ f
    → (c : ℕ) × (grow (suc f) required capacity ≡ some c) × (required ≤ c) × (c < 2 ^ 64)
grow-some zero required capacity small bound enough =
    let done : ltb capacity required ≡ false = ground arith in
    (capacity, grow_done 0 required capacity done, omega arith, bound)
grow-some (suc f) required capacity small bound enough = elim (Bool-cases (ltb capacity required)) [
  | inl less ↦
      let double = double-word capacity required less small in
      let enough' : required ≤ capacity * 2 * 2 ^ f = omega (arith, rw (pow-succ' 2 f) at enough) in
      rw (grow_again (suc f) required capacity less, double)
        (grow-some f required (capacity * 2) small (omega (arith, ltb→lt)) enough')
  | inr done ↦ (capacity, grow_done (suc f) required capacity done, omega (arith, ltb→le), bound)
]

-- `t` is the text of the builder that the handle points to.
abbrev pub Holds : Option StringBuilder → Bytes → Type 0
Holds none t = ⊥
Holds (some sb) t = IsValid sb × (sb.buffer ≡ t)

-- The builder has refused an append, and refuses all that follow.
abbrev pub IsBroken : Option StringBuilder → Type 0
IsBroken none = ⊥
IsBroken (some sb) = sb.valid ≡ false

-- How a command that appends to `t` may end: with the text `t`, or for want of memory.
module _ {S : Type 0} (view : S → Option StringBuilder) where
  abbrev pub Ends : Bytes → (S → Type 0) → Memory → Outcome (Machine S) (Unit {0}) → Type 0
  Ends t Q h (ok _ m) = Holds (view m.object) t × Q m.object × Grows h m.memory
  Ends t Q h (err e m) = (e ≡ Error.memory) × IsBroken (view m.object) × Refused h
  Ends t Q h stuck = ⊥

-- The rule for `m; k`.
module _ {S : Type 0} (view : S → Option StringBuilder) (t u : Bytes) (Q R : S → Type 0) where
  pub Ends-bind :
      (h : Memory) (r : Outcome (Machine S) (Unit {0})) (k : Cmd S (Unit {0}))
      → Ends view t Q h r
      → ((m : Machine S) → Holds (view m.object) t → Q m.object → Ends view u R m.memory (k m))
      → Ends view u R h (and_then r (λ _. k))
  Ends-bind h (ok _ m) k (holds, q, g) next = later (k m) (next m holds q)
    where
      later : (r : Outcome (Machine S) (Unit {0})) → Ends view u R m.memory r → Ends view u R h r
      later (ok _ m') (holds', q', g') = (holds', q', (g'.0 ∙ g.0, omega (arith, g.1, g'.1)))
      later (err e m') (e', broken, refused) = (e', broken, Refused-Grows h m.memory g refused)
      later stuck bad = bad
  Ends-bind h (err e m) k end next = end
  Ends-bind h stuck k end next = end

-- What `reserve` leaves of the builder.
abbrev Reserved : Machine StringBuilder → ℕ → StringBuilder → Type 0
Reserved m required sb = (sb.size ≡ m.object.size) × (required ≤ sb.capacity)

resize-Ends :
    (m : Machine StringBuilder) (required c : ℕ)
    → IsValid m.object
    → required ≤ c
    → c < 2 ^ 64
    → m.object.size < required
    → Ends some m.object.buffer (Reserved m required) m.memory (resize c m)
unfolding resize
resize-Ends m required c v enough bound grows =
    elim (Bool-cases (m.memory.grants m.memory.calls c)) [
      | inl granted ↦ rw granted (ground arith)
      | inr refused ↦ rw refused (refl, refl, (m.memory.calls, c, omega arith, refused))
    ]

reserve-Ends :
    (m : Machine StringBuilder) (required : ℕ)
    → IsValid m.object
    → required ≤ 2 ^ 63
    → m.object.size < required
    → Ends some m.object.buffer (Reserved m required) m.memory (reserve required m)
unfolding reserve resize_to
reserve-Ends m required v small grows = elim (Bool-cases (ltb m.object.capacity required)) [
  | inl less ↦
      let double = double-word m.object.capacity required less small in
      let (c, e, enough, bound) =
        grow-some 64 required (m.object.capacity * 2) small (omega (arith, ltb→lt))
          (omega (arith, v.fits)) in
      rw (less, double, e) (resize-Ends m required c v enough bound grows)
  | inr done ↦ rw done ((v, refl), (refl, omega (arith, ltb→le)), (refl, omega arith))
]

write-Ends :
    (m : Machine StringBuilder) (str t : Bytes)
    → IsValid m.object
    → m.object.buffer ≡ t
    → m.object.size + length str < m.object.capacity
    → Ends some (t ++ str) (λ _. Unit) m.memory (write str m)
unfolding write
write-Ends m str t v text room =
    let whole : take m.object.size m.object.buffer ≡ m.object.buffer =
      rw v.size (take-length m.object.buffer) in
    let exact : word (m.object.size + length str) ≡ m.object.size + length str =
      omega (arith, v.capacity) in
    rw (whole, exact)
      (
        (
          record {
            valid = v.valid;
            size = omega (arith, length-append m.object.buffer str, v.size);
            fits = room;
            capacity = v.capacity;
          },
          ap (λ (b : Bytes). b ++ str) text,
        ),
        tt,
        (refl, omega arith),
      )

append_valid-Ends :
    (m : Machine StringBuilder) (str : Bytes)
    → IsValid m.object
    → length m.object.buffer + length str < 2 ^ 63
    → Ends some (m.object.buffer ++ str) (λ _. Unit) m.memory (append_valid str m)
unfolding append_valid
append_valid-Ends m [] v room = ((v, sym (append-nil _)), tt, (refl, omega arith))
append_valid-Ends m (x ∷ xs) v room =
    let str : Bytes = x ∷ xs in
    let required = m.object.size + length str + 1 in
    let exact : word required ≡ required = omega (arith, v.size) in
    let more : (length str == 0) ≡ false = ground arith in
    rw (exact, more)
      (Ends-bind some m.object.buffer (m.object.buffer ++ str) (Reserved m required) (λ _. Unit)
        m.memory (reserve required m) (write str)
        (reserve-Ends m required v (omega (arith, v.size)) (omega arith))
        λ m' (v', same) (kept, wide).
          write-Ends m' str m.object.buffer v' same (omega (arith, wide, kept)))

append_bytes-valid :
    (m : Machine StringBuilder) (str : Bytes)
    → m.object.valid ≡ true
    → append_bytes str m ≡ append_valid str m
unfolding append_bytes
append_bytes-valid m str valid = rw valid refl

-- The same command, on the builder behind a handle.
Ends-inside :
    (t : Bytes) (h : Memory) (r : Outcome (Machine StringBuilder) (Unit {0}))
    → Ends some t (λ _. Unit) h r
    → Ends (λ o. o) t (λ _. Unit) h (inside some r)
Ends-inside t h (ok _ m) end = end
Ends-inside t h (err e m) end = end
Ends-inside t h stuck end = end

-- Where the builder is valid and its text stays shorter than 2 ^ 63 bytes, an append writes the
-- string behind the text and the builder stays valid, or the allocator has refused a request and
-- the builder refuses from then on; the append ends in any case.
pub append-Ends :
    (str t : Bytes) (h : Memory) (o : Option StringBuilder)
    → Holds o t
    → length t + length str < 2 ^ 63
    → Ends (λ o. o) (t ++ str) (λ _. Unit) h (append (some str) (machine h o))
unfolding append
append-Ends str t h none holds room = absurd holds
append-Ends str t h (some sb) (v, text) room =
    Ends-inside (t ++ str) h (append_bytes str (machine h sb)) (
      rw (append_bytes-valid (machine h sb) str v.valid, ← text)
        (append_valid-Ends (machine h sb) str v (omega (arith, ap length text))))
