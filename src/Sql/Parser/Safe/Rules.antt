-- ===== src/Sql/Parser/Safe/Rules.antt =====
-- How the commands of the parser are put together: rules for a test, a token that has to be there,
-- a request to the allocator, a branch and a result.
use c_orm.Base.{
  ℕ, ◌≤◌, ◌<◌, ◌≡◌, Bool, true, false, Option, none, some, Bytes, arith, if◌then◌else◌,
}
use c_orm.Memory.{Cmd, ◌>>=◌, pure}
use c_orm.Sql.Token.{Kind, eof, same_kind, Token}
use c_orm.Sql.Ast.{Parser}
use c_orm.Sql.Parser.{match_keyword, match_kind, expect, copy_text}
use c_orm.Sql.Parser.Safe.{
  IsSmall, Runs, Runs-bind, Took, Matched, match_keyword-Runs, match_kind-Runs,
}
use c_orm.Sql.Parser.Safe.Steps.{need-Runs, copy_text-Safe, pure-Runs, Runs-mono}

module _ {A : Type 0} {n : ℕ} {Q : A → ℕ → Type 0} where
  pub branch :
      (b : Bool) {c d : Cmd Parser A} → Runs n Q c → Runs n Q d → Runs n Q (if b then c else d)
  branch true c d = c
  branch false c d = d

  pub result : {a : A} → ((n' : ℕ) → n' ≤ n → Q a n') → Runs n Q (pure a)
  result q = pure-Runs n Q _ q

  -- A step, by what is known of it.
  pub step :
      {B : Type 0} {P : B → ℕ → Type 0} {c : Cmd Parser B} (k : B → Cmd Parser A)
      → Runs n P c
      → ((b : B) (n' : ℕ) → P b n' → Runs n' Q (k b))
      → Runs n Q (c >>= k)
  step {P = P} {c = c} k first next = Runs-bind n P Q c k first next

  -- A keyword that is taken, or a test that leaves the tokens.
  pub keyword_test :
      (kw : Bytes) (k : Bool → Cmd Parser A)
      → ((n' : ℕ) → n' < n → Runs n' Q (k true))
      → ((n' : ℕ) → n' ≤ n → Runs n' Q (k false))
      → Runs n Q (match_keyword kw >>= k)
  keyword_test kw k taken left =
      step k (match_keyword-Runs n kw)
        λ b n'. elim b as (λ c. Took n c n' → Runs n' Q (k c)) [ true ↦ taken n' | false ↦ left n' ]

  pub test :
      (kw : Bytes) (k : Bool → Cmd Parser A)
      → ((b : Bool) (n' : ℕ) → n' ≤ n → Runs n' Q (k b))
      → Runs n Q (match_keyword kw >>= k)
  test kw k next = keyword_test kw k (λ n' less. next true n' (omega arith)) (next false)

  -- A token of some kind that is taken, or a test that leaves the tokens.
  pub kind_test :
      (kind : Kind) (k : Option Token → Cmd Parser A)
      → same_kind eof kind ≡ false
      → ((t : Token) (n' : ℕ)
          → n' < n
          → IsSmall t
          → same_kind t.kind kind ≡ true
          → Runs n' Q (k (some t)))
      → ((n' : ℕ) → n' ≤ n → Runs n' Q (k none))
      → Runs n Q (match_kind kind >>= k)
  kind_test kind k some_kind taken left = step k (match_kind-Runs n kind some_kind) λ o n'.
      elim o as (λ c. Matched n kind c n' → Runs n' Q (k c)) [
        | none ↦ left n'
        | some t ↦ λ (less, small, same). taken t n' less small same
      ]

  -- The text of a token.
  pub text :
      (msg : Bytes) (t : Token) (k : Bytes → Cmd Parser A)
      → ((s : Bytes) (n' : ℕ) → n' ≤ n → Runs n' Q (k s))
      → Runs n Q (copy_text msg t >>= k)
  text msg t k next = step k (copy_text-Safe n msg t) next

  -- A token of some kind that has to be there.
  pub need :
      (kind : Kind) (msg : Bytes) (k : Token → Cmd Parser A)
      → same_kind eof kind ≡ false
      → ((t : Token) (n' : ℕ) → n' < n → IsSmall t → same_kind t.kind kind ≡ true → Runs n' Q (k t))
      → Runs n Q (match_kind kind >>= λ found. (expect msg found >>= k))
  need kind msg k some_kind next = need-Runs n Q kind msg k some_kind next

  pub weaker :
      {P : A → ℕ → Type 0} {c : Cmd Parser A}
      → Runs n P c
      → ((a : A) (n' : ℕ) → P a n' → Q a n')
      → Runs n Q c
  weaker {P = P} {c = c} runs weaken = Runs-mono n P Q c runs weaken
