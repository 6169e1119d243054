-- ===== src/Sql/Parser/Safe/Types.antt =====
-- How far `sql_parse_data_type` of src/c_orm_sql.c reads.
use c_orm.Base.{ℕ, ◌^◌, ◌≤◌, ◌≡◌, refl, true, Option, none, some, Bytes, arith, ltb, lt→ltb}
use c_orm.Memory.{pure}
use c_orm.Sql.Token.{number, same_kind, Token}
use c_orm.Sql.Parser.{
  decimal_value, to_int, number_in, parenthesis_length, length_in, text_type, other_types,
  real_types, text_types, int_types, data_type,
}
use c_orm.Sql.Parser.Safe.Rules.{branch, result, step, test, kind_test, need}
use c_orm.Sql.Parser.Safe.{IsSmall, Runs}
use c_orm.Sql.Parser.Safe.Steps.{peek-Runs, set_error-Runs}

abbrev pub Below : {A : Type 0} → ℕ → A → ℕ → Type 0
Below N _ n' = n' ≤ N

other_types-Runs : (n N : ℕ) → n ≤ N → Runs n (Below N) other_types
unfolding other_types
other_types-Runs n N below = test _ _ λ m1 n1 le1. test _ _ λ m2 n2 le2.
    branch _ (result λ n' le. omega arith) (
      test _ _ λ m3 n3 le3.
        branch _ (result λ n' le. omega arith)
          (test _ _ λ m4 n4 le4. branch _ (result λ n' le. omega arith) (set_error-Runs n4 _ _)))

real_types-Runs : (s : Bytes) (n N : ℕ) → n ≤ N → Runs n (Below N) (real_types s)
unfolding real_types
real_types-Runs s n N below = test _ _ λ m1 n1 le1. test _ _ λ m2 n2 le2.
    test _ _
      λ m3 n3 le3. branch _ (result λ n' le. omega arith) (other_types-Runs n3 N (omega arith))

-- A small number has a value.
number-Runs :
    (t : Token) (n N : ℕ)
    → n ≤ N
    → IsSmall t
    → same_kind t.kind number ≡ true
    → Runs n (Below N) (number_in (some t))
unfolding number_in to_int
number-Runs t n N below small same =
    let fits : ltb (decimal_value 0 t.text) (2 ^ 31) ≡ true = lt→ltb _ _ (small same) in
    rw fits (result λ n' le. omega arith)

length_in-Runs : (o : Option Token) (n N : ℕ) → n ≤ N → Runs n (Below N) (length_in o)
unfolding length_in parenthesis_length
length_in-Runs none n N below = result λ n' le. omega arith
length_in-Runs (some open') n N below =
    kind_test _ _ refl
      (λ t n1 less small same.
        step _ (number-Runs t n1 n1 (omega arith) small same)
          λ v n2 le2. need _ _ _ refl λ close n3 less3 _ _. result λ n' le. omega arith)
      (λ n1 le1. need _ _ _ refl λ close n3 less3 _ _. result λ n' le. omega arith)

text_types-Runs : (s : Bytes) (n N : ℕ) → n ≤ N → Runs n (Below N) (text_types s)
unfolding text_types
text_types-Runs s n N below = test _ _ λ m1 n1 le1. test _ _ λ m2 n2 le2. test _ _ λ m3 n3 le3.
    branch _
      (kind_test _ _ refl
        (λ t n4 less _ _.
          step (λ v. pure (text_type s, v)) (length_in-Runs (some t) n4 n4 (omega arith))
            λ v n5 le5. result λ n' le. omega arith)
        (λ n4 le4.
          step (λ v. pure (text_type s, v)) (length_in-Runs none n4 n4 (omega arith))
            λ v n5 le5. result λ n' le. omega arith))
      (real_types-Runs s n3 N (omega arith))

pub data_type-Runs : (n N : ℕ) → n ≤ N → Runs n (Below N) data_type
unfolding data_type int_types
data_type-Runs n N below = step _ (peek-Runs n) λ tok n0 (le0, _).
    branch _
      (test _ _ λ m1 n1 le1. test _ _ λ m2 n2 le2. branch _ (result λ n' le. omega arith) (
        test _ _ λ m3 n3 le3.
          branch _ (result λ n' le. omega arith) (text_types-Runs _ n3 N (omega arith))))
      (set_error-Runs n0 _ _)
