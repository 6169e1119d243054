-- ===== src/Sql/Parser/Safe.antt =====
-- What keeps the parser inside of its tokens: an end token, which it never takes, and numbers that
-- an `int` can hold.
pub mod Constraint
pub mod Types
pub mod Table
pub mod Rules
pub mod Steps
use c_orm.Base.{
  ℕ, zero, suc, ◌+◌, ◌^◌, ◌≤◌, ◌<◌, ◌≡◌, refl, ◌⊎◌, inl, inr, Bool, true, false, ◌&&◌, Option, none,
  some, List, [], ◌∷◌, Bytes, length, equal, arith, ltb, lt→ltb, Bool-cases, if◌then◌else◌,
}
use c_orm.Memory.{
  Error, Machine, machine, Outcome, ok, err, stuck, Cmd, and_then, ◌>>=◌, ◌>>◌, pure, fail, alloc,
}
use c_orm.Sql.Token.{Kind, eof, whitespace, number, keyword, same_kind, Token}
use c_orm.Sql.Ast.{ParseError, Parser}
use c_orm.Sql.Parser.{
  count_down, skip_spaces, token_at, step_over, peek, consume, match_keyword, match_kind, report,
  set_error, expect, require, copy_text, decimal_value, to_int,
}

-- A number token is a number that an `int` can hold.
abbrev pub IsSmall : Token → Type 0
IsSmall t = same_kind t.kind number ≡ true → decimal_value 0 t.text < 2 ^ 31

-- The numbers up to the end token are small, and there is an end token.
abbrev pub Sound : List Token → Type 0
Sound [] = ⊥
Sound (t ∷ ts) = IsSmall t × ((same_kind t.kind eof ≡ true) ⊎ Sound ts)

-- The command is no access outside of the tokens, and what it leaves is sound.
abbrev pub Post : {A : Type 0} → (A → ℕ → Type 0) → Outcome (Machine Parser) A → Type 0
Post Q (ok a m) = Sound m.object.rest × Q a (length m.object.rest)
Post Q (err e m) = Unit
Post Q stuck = ⊥

-- From at most `n` tokens.
pub record Runs {A : Type 0} (n : ℕ) (Q : A → ℕ → Type 0) (c : Cmd Parser A) : Type 0 where
  pub run : (m : Machine Parser) → Sound m.object.rest → length m.object.rest ≤ n → Post Q (c m)

abbrev pub Safe : {A : Type 0} → ℕ → Cmd Parser A → Type 0
Safe n c = Runs n (λ _ n'. n' ≤ n) c

module _ {A B : Type 0} where
  pub Post-bind :
      (P : A → ℕ → Type 0) (Q : B → ℕ → Type 0) (r : Outcome (Machine Parser) A)
      (k : A → Cmd Parser B)
      → Post P r
      → ((a : A) (n : ℕ) → P a n → Runs n Q (k a))
      → Post Q (and_then r k)
  Post-bind P Q (ok a m) k (sound, p) next =
      (next a (length m.object.rest) p).run m sound (omega arith)
  Post-bind P Q (err e m) k p next = tt
  Post-bind P Q stuck k p next = p

  -- A step, and then any other.
  pub Runs-bind :
      (n : ℕ) (P : A → ℕ → Type 0) (Q : B → ℕ → Type 0) (c : Cmd Parser A) (k : A → Cmd Parser B)
      → Runs n P c
      → ((a : A) (n' : ℕ) → P a n' → Runs n' Q (k a))
      → Runs n Q (c >>= k)
  Runs-bind n P Q c k first next = record {
    run = λ m sound room. (Post-bind P Q (c m) k (first.run m sound room) next);
  }

module _ {A : Type 0} where
  pub Post-mono :
      (P Q : A → ℕ → Type 0) (r : Outcome (Machine Parser) A)
      → Post P r
      → ((a : A) (n : ℕ) → P a n → Q a n)
      → Post Q r
  Post-mono P Q (ok a m) (sound, p) weaken = (sound, weaken a _ p)
  Post-mono P Q (err e m) p weaken = tt
  Post-mono P Q stuck p weaken = p

-- What comes after a step, whatever the countdown.
module _ {A : Type 0} (Q : A → ℕ → Type 0) where
  abbrev Onwards : Machine Parser → List Token → (Unit {0} → Cmd Parser A) → Type 0
  Onwards m ts k =
      (o : Option ℕ)
      → Post Q (k tt (machine m.memory (record m.object { rest = ts; countdown = o })))

  count_down-Post :
      {B : Type 0} (o : Option ℕ) (c : Cmd Parser B) (k : B → Cmd Parser A) (m : Machine Parser)
      → Onwards m m.object.rest (λ _ m'. and_then (c m') k)
      → Post Q (and_then (◌>>◌ (count_down o) c m) k)
  unfolding count_down
  count_down-Post none c k m next = next m.object.countdown
  count_down-Post (some zero) c k m next = tt
  count_down-Post (some (suc i)) c k m next = next (some i)

  -- Where a token is at the front, a peek shows it.
  pub peek-Post :
      (k : Token → Cmd Parser A) (m : Machine Parser) (t : Token) (ts : List Token)
      → skip_spaces m.object.rest ≡ some (t, ts)
      → Onwards m m.object.rest (λ _. k t)
      → Post Q (and_then (peek m) k)
  unfolding peek token_at
  peek-Post k m t ts front next =
      rw front (count_down-Post m.object.countdown (token_at (some (t, ts))) k m next)

  -- Where a token is at the front, consuming goes past it.
  consume-Post :
      (k : Unit {0} → Cmd Parser A) (m : Machine Parser) (t : Token) (ts : List Token)
      → skip_spaces m.object.rest ≡ some (t, ts)
      → Onwards m ts k
      → Post Q (and_then (consume m) k)
  unfolding consume step_over
  consume-Post k m t ts front next =
      rw front (count_down-Post m.object.countdown (step_over (some (t, ts))) k m next)

-- The token at the front of sound tokens, and what stands behind it.
pub front :
    (ts : List Token)
    → Sound ts
    → (t : Token) × (rest : List Token) × (skip_spaces ts ≡ some (t, rest))
      × IsSmall t
      × ((same_kind t.kind eof ≡ true) ⊎ (Sound rest × (length rest < length ts)))
unfolding skip_spaces
front [] sound = absurd sound
front (t ∷ ts) (small, inl last) =
    let other : same_kind t.kind whitespace ≡ false = ground arith in
    rw other (t, ts, refl, small, inl last)
front (t ∷ ts) (small, inr sound) = elim (Bool-cases (same_kind t.kind whitespace)) [
  | inl space ↦
      let (u, rest, e, small', more) = front ts sound in
      rw space (u, rest, e, small', ground (arith, more))
  | inr other ↦ rw other (t, ts, refl, small, inr (sound, omega arith))
]

-- What a test of the token at the front leaves.
abbrev pub Took : ℕ → Bool → ℕ → Type 0
Took n true n' = n' < n
Took n false n' = n' ≤ n

abbrev pub Matched : ℕ → Kind → Option Token → ℕ → Type 0
Matched n k none n' = n' ≤ n
Matched n k (some t) n' = (n' < n) × IsSmall t × (same_kind t.kind k ≡ true)

pub match_keyword-Runs : (n : ℕ) (kw : Bytes) → Runs n (Took n) (match_keyword kw)
unfolding match_keyword
match_keyword-Runs n kw = record {
  run = λ m sound room.
      (let (t, rest, e, small, more) = front m.object.rest sound in
        peek-Post (Took n)
          (λ tok.
            if same_kind tok.kind keyword && equal tok.text kw
            then consume >> pure true
            else pure false)
          m t rest e
          λ o.
            let m' = machine m.memory (record m.object { countdown = o }) in
            elim (Bool-cases (same_kind t.kind keyword && equal t.text kw)) [
              | inl hit ↦ elim more [
                | inl last ↦ absurd (ground arith)
                | inr (sound', less) ↦
                    rw hit (
                      consume-Post (Took n) (λ _. pure true) m' t rest e
                        λ o'. (sound', omega arith))
              ]
              | inr miss ↦ rw miss (sound, room)
            ]);
}

pub match_kind-Runs :
    (n : ℕ) (k : Kind) → same_kind eof k ≡ false → Runs n (Matched n k) (match_kind k)
unfolding match_kind
match_kind-Runs n k some_kind = record {
  run = λ m sound room.
      (let (t, rest, e, small, more) = front m.object.rest sound in
        peek-Post (Matched n k)
          (λ tok. if same_kind tok.kind k then consume >> pure (some tok) else pure none) m t rest e
          λ o.
            let m' = machine m.memory (record m.object { countdown = o }) in
            elim (Bool-cases (same_kind t.kind k)) [
              | inl hit ↦ elim more [
                | inl last ↦ absurd (ground arith)
                | inr (sound', less) ↦ rw hit (
                    consume-Post (Matched n k) (λ _. pure (some t)) m' t rest e
                      λ o'. (sound', (omega arith, small, hit)))
              ]
              | inr miss ↦ rw miss (sound, room)
            ]);
}
