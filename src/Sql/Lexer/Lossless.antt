-- ===== src/Sql/Lexer/Lossless.antt =====
-- How the tokens of `sql_lex` of src/c_orm_sql.c and the source that they are cut from are related.
use c_orm.Base.{
  ℕ, zero, suc, ◌+◌, ◌*◌, ◌<◌, ◌≤◌, ◌≡◌, ◌⊎◌, refl, ap, sym, ◌∙◌, inl, inr, Bool, true, false, not,
  List, [], ◌∷◌, ◌++◌, append-nil, append_assoc, arith, Bytes, codes, length, length-append, leb,
  ◌==◌, ==_iff, subst, Bool-cases,
}
use c_orm.Memory.{Memory, Machine, machine, ◌>>◌, keep}
use c_orm.Memory.Gives.{Gives, Gives-bind, Gives-later, Gives-keep, Gives-mono}
use c_orm.Sql.Token.{
  Kind, eof, whitespace, identifier, keyword, number, string, lparen, rparen, comma, semicolon,
  Token, token, TokenList,
}
use c_orm.Sql.Lexer.{
  is_space, is_digit, starts_word, in_word, is_sql_keyword, push_token, store, enlarge, cons_left,
  span, close_string, as_string, with_kind, word_kind, punctuation, next_token, lex_loop, sql_lex,
}

-- Every byte is in the class.
abbrev pub Within : (ℕ → Bool) → Bytes → Type 0
Within p [] = Unit
Within p (c ∷ s) = (p c ≡ true) × Within p s

-- The byte is none of these.
abbrev pub Absent : ℕ → Bytes → Type 0
Absent c [] = Unit
Absent c (d ∷ s) = ((c == d) ≡ false) × Absent c s

-- A byte of a string.
abbrev pub in_string : ℕ → Bool
in_string d = not (d == b'\'')

-- The first byte is in the class.
abbrev pub Begins : (ℕ → Bool) → Bytes → Type 0
Begins p [] = ⊥
Begins p (c ∷ s) = p c ≡ true

-- The quote that closes a string, or the end of the source.
abbrev pub IsClose : Bytes → Type 0
IsClose s = (s ≡ []) ⊎ (s ≡ codes "'")

-- A byte that begins no other token.
pub record IsOther (c : ℕ) : Type 0 where
  pub solid : is_space c ≡ false
  pub no_word : starts_word c ≡ false
  pub no_digit : is_digit c ≡ false
  pub no_mark : Absent c (codes "'(),;")

-- A token of this kind may have this text.
abbrev pub Spells : Kind → Bytes → Type 0
Spells eof s = ⊥
Spells whitespace s = Within is_space s
Spells identifier s = Begins starts_word s × Within in_word s × (is_sql_keyword s ≡ false)
Spells keyword s = Begins starts_word s × Within in_word s × (is_sql_keyword s ≡ true)
Spells number s = Within is_digit s
Spells string s =
    (body close : Bytes) × (s ≡ b'\'' ∷ (body ++ close)) × Within in_string body × IsClose close
Spells lparen s = s ≡ codes "("
Spells rparen s = s ≡ codes ")"
Spells comma s = s ≡ codes ","
Spells semicolon s = s ≡ codes ";"
Spells Kind.unknown s = (c : ℕ) × (s ≡ c ∷ []) × IsOther c

-- The tokens spell the source, and the last one, only, is the end.
pub data Splits : Bytes → List Token → Type 0 where
  end : Splits [] (token eof [] ∷ [])
  more :
      {c : ℕ} {rest source : Bytes} {ts : List Token} (t : Token) (tail : Bytes)
      → t.text ≡ c ∷ tail
      → Spells t.kind t.text
      → source ≡ t.text ++ rest
      → Splits rest ts
      → Splits source (t ∷ ts)

span-append : (p : ℕ → Bool) (s : Bytes) → (span p s).0 ++ (span p s).1 ≡ s
unfolding span
span-append p [] = refl
span-append p (c ∷ s) = elim (Bool-cases (p c)) [
  | inl hit ↦ rw hit (ap (λ (r : Bytes). c ∷ r) (span-append p s))
  | inr miss ↦ rw miss
]

span-Within : (p : ℕ → Bool) (s : Bytes) → Within p (span p s).0
unfolding span
span-Within p [] = tt
span-Within p (c ∷ s) = elim (Bool-cases (p c)) [
  | inl hit ↦ rw hit (hit, span-Within p s)
  | inr miss ↦ rw miss tt
]

-- A token in front of the rest of the source, which is no longer than what followed its first byte.
abbrev Cut : ℕ → Bytes → Token × Bytes → Type 0
Cut c s (t, rest) =
    (tail : Bytes) × (t.text ≡ c ∷ tail) × Spells t.kind t.text × (c ∷ s ≡ t.text ++ rest)

class-Cut :
    (p : ℕ → Bool) (k : Bytes → Kind) (c : ℕ) (s : Bytes)
    → ((w : Bytes) → Within p (c ∷ w) → Spells (k (c ∷ w)) (c ∷ w))
    → p c ≡ true
    → Cut c s (with_kind k (cons_left c (span p s)))
class-Cut p k c s spells hit = (
  (span p s).0,
  refl,
  spells (span p s).0 (hit, span-Within p s),
  ap (λ (r : Bytes). c ∷ r) (sym (span-append p s)),
)

word-Spells : (w : Bytes) → Begins starts_word w → Within in_word w → Spells (word_kind w) w
word-Spells w begins within = elim (Bool-cases (is_sql_keyword w)) [
  | inl hit ↦ rw hit (begins, within, hit)
  | inr miss ↦ rw miss (begins, within, miss)
]

starts_word-in_word : (c : ℕ) → starts_word c ≡ true → in_word c ≡ true
unfolding starts_word in_word
starts_word-in_word c h = ground arith

-- What ends a span of bytes of a string.
span-stops : (p : ℕ → Bool) (s rest : Bytes) (c : ℕ) → (span p s).1 ≡ c ∷ rest → p c ≡ false
unfolding span
span-stops p [] rest c e = cc
span-stops p (d ∷ s) rest c e = elim (Bool-cases (p d)) [
  | inl hit ↦ span-stops p s rest c (rw hit at e)
  | inr miss ↦ let same : d ∷ s ≡ c ∷ rest = rw miss at e in cc
]

close-Cut :
    (body rest s : Bytes)
    → body ++ rest ≡ s
    → Within in_string body
    → ((q : ℕ) (after : Bytes) → rest ≡ q ∷ after → in_string q ≡ false)
    → Cut b'\'' s (close_string body rest)
close-Cut body [] s e within stops = (
  body,
  refl,
  (body, [], ap (◌∷◌ b'\'') (sym (append-nil body)), within, inl refl),
  ap (λ (r : Bytes). b'\'' ∷ r) (sym e),
)
close-Cut body (q ∷ rest) s e within stops = (
  body ++ (q ∷ []),
  refl,
  (body, q ∷ [], refl, within, inr (closing q (stops q rest refl))),
  ap (λ (r : Bytes). b'\'' ∷ r) (sym e ∙ sym (append_assoc body (q ∷ []) rest)),
)
  where
    closing : (c : ℕ) → in_string c ≡ false → ◌≡◌ {A = Bytes} (c ∷ []) (codes "'")
    closing c stop = let same : c ≡ b'\'' = ground arith in ap (λ (x : ℕ). x ∷ []) same

punctuation-Spells :
    (c : ℕ)
    → is_space c ≡ false
    → starts_word c ≡ false
    → is_digit c ≡ false
    → (c == b'\'') ≡ false
    → Spells (punctuation c) (c ∷ [])
punctuation-Spells c solid no_word no_digit plain = elim (Bool-cases (c == b'(')) [
  | inl l ↦ rw l (one l)
  | inr l ↦ elim (Bool-cases (c == b')')) [
    | inl r ↦ rw (l, r) (one r)
    | inr r ↦ elim (Bool-cases (c == b',')) [
      | inl k ↦ rw (l, r, k) (one k)
      | inr k ↦ elim (Bool-cases (c == b';')) [
        | inl e ↦ rw (l, r, k, e) (one e)
        | inr e ↦
            rw (l, r, k, e)
              (
                c,
                refl,
                record {
                  solid = solid;
                  no_word = no_word;
                  no_digit = no_digit;
                  no_mark = (plain, (l, (r, (k, (e, tt)))));
                },
              )
      ]
    ]
  ]
]
  where
    one : {d : ℕ} → (c == d) ≡ true → ◌≡◌ {A = Bytes} (c ∷ []) (d ∷ [])
    one {d} h = ap (λ (x : ℕ). x ∷ []) ((==_iff c d).0 h)

next_token-Cut : (c : ℕ) (s : Bytes) → Cut c s (next_token c s)
unfolding next_token
next_token-Cut c s = elim (Bool-cases (is_space c)) [
  | inl space ↦ rw space (class-Cut is_space (λ _. whitespace) c s (λ w h. h) space)
  | inr solid ↦ elim (Bool-cases (starts_word c)) [
    | inl word ↦
        rw (solid, word)
          (class-Cut in_word word_kind c s (λ w h. word-Spells (c ∷ w) word h)
            (starts_word-in_word c word))
    | inr other ↦ elim (Bool-cases (is_digit c)) [
      | inl digit ↦ rw (solid, other, digit) (class-Cut is_digit (λ _. number) c s (λ w h. h) digit)
      | inr mark ↦ elim (Bool-cases (c == b'\'')) [
        | inl quote ↦
            rw (solid, other, mark, quote)
              (subst (λ (d : ℕ). Cut d s (as_string (span in_string s)))
                (sym ((==_iff c b'\'').0 quote))
                (close-Cut (span in_string s).0 (span in_string s).1 s (span-append in_string s)
                  (span-Within in_string s) λ q after. span-stops in_string s after q))
        | inr plain ↦
            rw (solid, other, mark, plain)
              ([], refl, punctuation-Spells c solid other mark plain, refl)
      ]
    ]
  ]
]

Cut-shorter : (c : ℕ) (s : Bytes) (r : Token × Bytes) → Cut c s r → length r.1 ≤ length s
Cut-shorter c s (t, rest) (tail, text, _, whole) =
    omega (arith, ap length whole, length-append t.text rest, ap length text)

-- The list with one more token, inside its array.
abbrev Pushed : List Token → Token → TokenList → Type 0
Pushed ts t l = (l.tokens ≡ ts ++ (t ∷ [])) × (length l.tokens ≤ l.capacity)

enlarge-Gives :
    (t : Token) (m : Machine TokenList) (wanted : ℕ)
    → length m.object.tokens < wanted
    → Gives (λ _ l. Pushed m.object.tokens t l) m.memory ((enlarge wanted >> store t) m)
unfolding enlarge store
enlarge-Gives t m wanted fits = elim (Bool-cases (m.memory.grants m.memory.calls (wanted * 24))) [
  | inl granted ↦
      rw granted
        ((refl, omega (arith, length-append m.object.tokens (t ∷ []))), (refl, omega arith))
  | inr refused ↦ rw refused (m.memory.calls, wanted * 24, omega arith, refused)
]

-- `push_token` writes inside its array.
push-Gives :
    (t : Token) (m : Machine TokenList)
    → length m.object.tokens ≤ m.object.capacity
    → Gives (λ _ l. Pushed m.object.tokens t l) m.memory (push_token t m)
unfolding push_token
push-Gives t m fits = elim (Bool-cases (leb m.object.capacity (length m.object.tokens))) [
  | inl full ↦ rw full (enlarge-Gives t m _ (ground arith))
  | inr room ↦
      let grown = length-append m.object.tokens (t ∷ []) in
      rw room ((refl, ground (arith, grown)), (refl, omega arith))
]

-- The list holds `done` and then tokens that split `source`, inside its array.
abbrev Lexed : List Token → Bytes → TokenList → Type 0
Lexed done source l =
    (ts : List Token) × (l.tokens ≡ done ++ ts) × Splits source ts × (length l.tokens ≤ l.capacity)

lex_loop-Lexed :
    (fuel : ℕ) (source : Bytes) (m : Machine TokenList)
    → length source < fuel
    → length m.object.tokens ≤ m.object.capacity
    → Gives (λ _ l. Lexed m.object.tokens source l) m.memory (lex_loop fuel source m)
unfolding lex_loop
lex_loop-Lexed zero source m room fits = absurd (omega arith)
lex_loop-Lexed (suc fuel) [] m room fits =
    Gives-mono (λ _ l. Pushed m.object.tokens (token eof []) l) (λ _ l. Lexed m.object.tokens [] l)
      m.memory (push_token (token eof []) m) (push-Gives (token eof []) m fits)
      λ _ l (same, inside). (token eof [] ∷ [], same, end, inside)
lex_loop-Lexed (suc fuel) (c ∷ s) m room fits =
    let (t, rest) = next_token c s in
    let cut = next_token-Cut c s in
    let before = m.object.tokens in
    Gives-bind (λ _ l. Pushed before t l) (λ _ l. Lexed before (c ∷ s) l) m.memory (push_token t m)
      (λ _. lex_loop fuel rest) (push-Gives t m fits)
      λ _ m' (same, inside).
        Gives-mono (λ _ l. Lexed m'.object.tokens rest l) (λ _ l. Lexed before (c ∷ s) l) m'.memory
          (lex_loop fuel rest m')
          (lex_loop-Lexed fuel rest m' (omega (arith, Cut-shorter c s (next_token c s) cut)) inside)
          λ _ l (ts, whole, splits, inside'). (
            t ∷ ts,
            whole ∙ ap (λ (x : List Token). x ++ ts) same ∙ append_assoc before (t ∷ []) ts,
            more t cut.0 cut.1 cut.2 cut.3 splits,
            inside',
          )

-- The lexer ends on every source, with tokens that spell the source, and one end token, the last;
-- they fit the array that holds them. Each has a kind for which its text is right: spaces, digits, a
-- word that begins with a letter or `_` and is a keyword or an identifier as the list of keywords
-- says, a string up to its closing quote or the end of the source, one of the four marks, or, as
-- unknown, one byte that begins none of these. Or the allocator refuses a request.
pub sql_lex-Splits :
    {S : Type 0} (source : Bytes) (m : Machine S)
    → Gives
        (λ l _. Splits source l.tokens × (length l.tokens ≤ l.capacity))
        m.memory
        (sql_lex source m)
unfolding sql_lex
sql_lex-Splits source m =
    let asked : Memory = record m.memory { calls = m.memory.calls + 1 } in
    let start : TokenList = record { tokens = []; capacity = 0 } in
    let Good = λ (l : TokenList). Splits source l.tokens × (length l.tokens ≤ l.capacity) in
    let run = lex_loop (suc (length source)) source (machine asked start) in
    elim (Bool-cases (m.memory.grants m.memory.calls 24)) [
      | inl granted ↦ rw granted (
          Gives-later (λ l _. Good l) m.memory asked (keep m.object run) (refl, omega arith)
            (Gives-keep Good m.object asked run (
              Gives-mono (λ _ l. Lexed [] source l) (λ _ l. Good l) asked run
                (lex_loop-Lexed (suc (length source)) source (machine asked start) (omega arith)
                  (omega arith))
                λ _ l (ts, same, splits, inside). (rw same splits, inside))))
      | inr refused ↦ rw refused (m.memory.calls, 24, omega arith, refused)
    ]
