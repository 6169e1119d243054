-- ===== src/Fluent/Escape.antt =====
-- String literals: what `c_orm_escape_literal` makes of a value, read back by the rule of standard SQL.
use c_orm.Base.{
  ℕ, ◌+◌, ◌^◌, ◌<◌, ◌≡◌, ◌≢◌, refl, inl, inr, false, Option, none, some, [], ◌∷◌, ◌++◌, Bytes,
  length, arith, ◌==◌, if◌then◌else◌, Bool-cases,
}
use c_orm.Memory.{Memory, machine, pure}
use c_orm.Memory.Gives.{Gives, Gives-bind}
use c_orm.StringBuilder.{word}
use c_orm.Arena.{Arena, alloc_from}
use c_orm.Arena.Bounds.{AllSound, Fresh, alloc_from-Fresh}
use c_orm.Fluent.Expressions.{quote, count_quotes, double_quotes, escape_string}
use c_orm.Fluent.Calls.Build.{count_quotes-le, double_quotes-none}

abbrev cons_first : ℕ → Option (Bytes × Bytes) → Option (Bytes × Bytes)
cons_first c none = none
cons_first c (some (a, b)) = some (c ∷ a, b)

-- A string of standard SQL behind its opening quote: its value and what follows the closing quote.
-- Two quotes stand for one, and a backslash for itself.
unfoldable pub read_string : Bytes → Option (Bytes × Bytes)
read_string [] = none
read_string (c ∷ []) = if c == quote then some ([], []) else none
read_string (c ∷ d ∷ s) =
    let after_pair = read_string s in
    let after_one = read_string (d ∷ s) in
    if c == quote
    then (if d == quote then cons_first quote after_pair else some ([], d ∷ s))
    else cons_first c after_one

-- Does the text not begin with a quote?
abbrev pub EndsLiteral : Bytes → Type 0
EndsLiteral [] = Unit
EndsLiteral (c ∷ s) = c ≢ quote

read_string-plain :
    (c : ℕ) (s : Bytes) → (c == quote) ≡ false → read_string (c ∷ s) ≡ cons_first c (read_string s)
unfolding read_string
read_string-plain c [] plain = rw plain refl
read_string-plain c (d ∷ s) plain = rw plain refl

read_string-end : (rest : Bytes) → EndsLiteral rest → read_string (quote ∷ rest) ≡ some ([], rest)
unfolding read_string
read_string-end [] ends = refl
read_string-end (d ∷ s) ends = let other : (d == quote) ≡ false = ground arith in rw other refl

read_string-pair : (s : Bytes) → read_string (quote ∷ quote ∷ s) ≡ cons_first quote (read_string s)
unfolding read_string
read_string-pair s = refl

double_quotes-read :
    (s rest : Bytes)
    → EndsLiteral rest
    → read_string (double_quotes s ++ (quote ∷ rest)) ≡ some (s, rest)
unfolding double_quotes
double_quotes-read [] rest ends = read_string-end rest ends
double_quotes-read (c ∷ s) rest ends = elim (Bool-cases (c == quote)) [
  | inl same ↦
      let e : c ≡ quote = ground arith in
      rw
        (
          same,
          read_string-pair (double_quotes s ++ (quote ∷ rest)),
          double_quotes-read s rest ends,
          e,
        )
        refl
  | inr other ↦
      rw
        (
          other,
          read_string-plain c (double_quotes s ++ (quote ∷ rest)) other,
          double_quotes-read s rest ends,
        )
        refl
]

-- The escaped text stands for the value in every text that goes on without a quote.
abbrev pub StandsFor : Bytes → Option Bytes → Type 0
StandsFor val none = ⊥
StandsFor val (some text) =
    (rest : Bytes) → EndsLiteral rest → read_string (text ++ (quote ∷ rest)) ≡ some (val, rest)

-- A value shorter than 2 ^ 61 bytes, whatever they are: where a string literal is read by the rule
-- that two quotes stand for one and every other byte for itself, as SQLite and PostgreSQL do, the
-- escaped text, followed by a quote and by anything that does not begin with one, is read as that
-- value, with the rest left, so the value cannot end the literal; or the allocator has refused a
-- request. The arena stays in working order. Nothing is said of a dialect in which a backslash
-- escapes a quote.
pub escape_string-read :
    (val : Bytes) (blocks : Arena) (h : Memory)
    → length val < 2 ^ 61
    → AllSound blocks
    → Gives
        (λ text blocks'. StandsFor val text × AllSound blocks')
        h
        (escape_string val (machine h blocks))
unfolding escape_string
escape_string-read val blocks h short sound = elim (Bool-cases (count_quotes val == 0)) [
  | inl plain ↦
      let same = double_quotes-none val (ground arith) in
      rw plain
        (((λ rest ends. rw same at (double_quotes-read val rest ends)), sound), (refl, omega arith))
  | inr quotes ↦
      let n = length val + count_quotes val + 1 in
      let size : word n ≡ n = omega (arith, count_quotes-le val) in
      rw (quotes, size)
        (Gives-bind (λ address blocks'. AllSound blocks' × Fresh n blocks address blocks')
          (λ text blocks'. StandsFor val text × AllSound blocks') h
          (alloc_from n (machine h blocks)) (λ _. pure (some (double_quotes val)))
          (alloc_from-Fresh n blocks h (omega arith) (omega (arith, count_quotes-le val)) sound)
          λ address m (sound', fresh).
            (((λ rest ends. double_quotes-read val rest ends), sound'), (refl, omega arith)))
]

-- A quote makes the escaped text longer.
pub double_quotes-length : (s : Bytes) → length (double_quotes s) ≡ length s + count_quotes s
unfolding double_quotes count_quotes
double_quotes-length [] = omega arith
double_quotes-length (c ∷ s) = ground (arith, double_quotes-length s)
