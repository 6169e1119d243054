-- ===== src/Sql/Parser/Safe/Steps.antt =====
-- How far the single steps of the parser of src/c_orm_sql.c read.
use c_orm.Base.{
  ℕ, ◌≤◌, ◌<◌, ◌≡◌, refl, Bool, true, false, Option, none, some, Bytes, length, if◌then◌else◌,
}
use c_orm.Memory.{
  Error, Machine, machine, Outcome, ok, err, stuck, Cmd, and_then, ◌>>=◌, pure, fail, alloc,
}
use c_orm.Sql.Token.{Kind, eof, same_kind, Token}
use c_orm.Sql.Ast.{ParseError, Parser}
use c_orm.Sql.Parser.{peek, match_kind, report, set_error, expect, require, copy_text}
use c_orm.Sql.Parser.Safe.{
  IsSmall, Post, Post-bind, Post-mono, Runs, Safe, Runs-bind, Matched, match_kind-Runs, front,
  peek-Post,
}

Post-pure :
    {A : Type 0} (Q : A → ℕ → Type 0) (r : Outcome (Machine Parser) A)
    → Post Q (and_then r pure)
    → Post Q r
Post-pure Q (ok a m) p = p
Post-pure Q (err e m) p = p
Post-pure Q stuck p = p

pub peek-Runs : (n : ℕ) → Runs n (λ t n'. (n' ≤ n) × IsSmall t) peek
peek-Runs n = record {
  run = λ m sound room.
      (let (t, rest, e, small, more) = front m.object.rest sound in
        let Q = λ (t' : Token) (n' : ℕ). (n' ≤ n) × IsSmall t' in
        Post-pure Q (peek m) (peek-Post Q pure m t rest e λ o. (sound, (room, small))));
}

report-Runs : (n : ℕ) (wanted : Bool) (msg : Bytes) → Runs n (λ _ _. Unit) (report wanted msg)
unfolding report
report-Runs n false msg = record { run = λ m sound room. ((sound, tt)) }
report-Runs n true msg = record {
  run = λ m sound room.
      (let e : ParseError = record { message = msg; token = none } in
        let m' = machine m.memory (record m.object { error = some e }) in
        Post-bind (λ t n'. (n' ≤ n) × IsSmall t) (λ _ _. Unit) (peek m') _
          ((peek-Runs n).run m' sound room)
          λ tok n' p. record { run = λ m'' sound' room'. (sound', tt) });
}

-- A command that fails in the parser's own way, whatever it was to give.
pub set_error-Runs :
    {A : Type 0} (n : ℕ) (Q : A → ℕ → Type 0) (msg : Bytes) → Runs n Q (set_error msg)
unfolding set_error
set_error-Runs n Q msg = record {
  run = λ m sound room.
      (Post-bind (λ _ _. Unit) Q (report m.object.wants_error msg m) (λ _. fail Error.sql)
        ((report-Runs n m.object.wants_error msg).run m sound room)
        λ _ _ _. record { run = λ _ _ _. tt });
}

-- A token of a kind that has to be there.
pub need-Runs :
    {A : Type 0} (n : ℕ) (Q : A → ℕ → Type 0) (k : Kind) (msg : Bytes) (K : Token → Cmd Parser A)
    → same_kind eof k ≡ false
    → ((t : Token) (n' : ℕ) → n' < n → IsSmall t → same_kind t.kind k ≡ true → Runs n' Q (K t))
    → Runs n Q (match_kind k >>= λ found. (expect msg found >>= K))
unfolding expect
need-Runs n Q k msg K some_kind next =
    Runs-bind n (Matched n k) Q (match_kind k) _ (match_kind-Runs n k some_kind)
      (λ found n' matched.
        elim found as (λ f. Matched n k f n' → Runs n' Q (expect msg f >>= K)) [
          | none ↦ λ _.
              Runs-bind n' (λ _ _. ⊥) Q (set_error msg) K (set_error-Runs n' (λ _ _. ⊥) msg)
                λ _ _ bad. absurd bad
          | some t ↦ λ (less, small, same). next t n' less small same
        ]
          matched)

-- A condition that has to hold.
pub require-Runs :
    (n : ℕ) (msg : Bytes) (b : Bool) → Runs n (λ _ n'. (n' ≤ n) × (b ≡ true)) (require msg b)
unfolding require
require-Runs n msg true = record { run = λ m sound room. ((sound, (room, refl))) }
require-Runs n msg false = set_error-Runs n (λ _ n'. (n' ≤ n) × (false ≡ true)) msg

-- A request to the allocator leaves the tokens alone.
pub alloc-Runs :
    {A : Type 0} (n size : ℕ) (Q : A → ℕ → Type 0) (k : Bool → Cmd Parser A)
    → ((b : Bool) → Runs n Q (k b))
    → Runs n Q (alloc size >>= k)
alloc-Runs n size Q k next = record {
  run = λ m sound room. ((next (m.memory.grants m.memory.calls size)).run _ sound room);
}

pub copy_text-Safe : (n : ℕ) (msg : Bytes) (t : Token) → Safe n (copy_text msg t)
unfolding copy_text
copy_text-Safe n msg t =
    alloc-Runs n _ (λ _ n'. n' ≤ n) _
      λ granted. elim granted as (λ b. Safe n (if b then pure t.text else set_error msg)) [
        | true ↦ record { run = λ m sound room. (sound, room) }
        | false ↦ set_error-Runs n (λ _ n'. n' ≤ n) msg
      ]

-- A result, and a loop with no fuel left, which is never reached.
pub pure-Runs :
    {A : Type 0} (n : ℕ) (Q : A → ℕ → Type 0) (a : A)
    → ((n' : ℕ) → n' ≤ n → Q a n')
    → Runs n Q (pure a)
pure-Runs n Q a q = record { run = λ m sound room. ((sound, q (length m.object.rest) room)) }

pub fail-Runs : {A : Type 0} (n : ℕ) (Q : A → ℕ → Type 0) (e : Error) → Runs n Q (fail e)
fail-Runs n Q e = record { run = λ m sound room. (tt) }

-- The same command, with less known of it.
pub Runs-mono :
    {A : Type 0} (n : ℕ) (P Q : A → ℕ → Type 0) (c : Cmd Parser A)
    → Runs n P c
    → ((a : A) (n' : ℕ) → P a n' → Q a n')
    → Runs n Q c
Runs-mono n P Q c runs weaken = record {
  run = λ m sound room. Post-mono P Q (c m) (runs.run m sound room) weaken;
}

-- What a command is to give when it has found a token.
pub expect-Runs :
    {A : Type 0} (n : ℕ) (Q : A → ℕ → Type 0) (msg : Bytes) (o : Option Token)
    (k : Token → Cmd Parser A)
    → ((t : Token) → o ≡ some t → Runs n Q (k t))
    → Runs n Q (expect msg o >>= k)
unfolding expect
expect-Runs n Q msg (some t) k next = record { run = (next t refl).run }
expect-Runs n Q msg none k next =
    Runs-bind n (λ _ _. ⊥) Q (set_error msg) k (set_error-Runs n (λ _ _. ⊥) msg)
      λ _ _ bad. absurd bad
