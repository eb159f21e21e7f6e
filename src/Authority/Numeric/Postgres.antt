-- ===== src/Authority/Numeric/Postgres.antt =====
-- `numeric(30,8)` as PostgreSQL documents it, an instance of what packages/authority/src/index.ts
-- relies on: a column is printed with all of its 8 decimals.
use agentplace.Prelude.{
  ℕ, ◌-◌, ◌/◌, ◌%◌, ◌^◌, ◌≡◌, refl, true, [], ◌∷◌, ◌++◌, Option, none, some, Result, ok, throw,
  ◌>>=◌, arith, ltb, if◌then◌else◌, all, length,
}
use agentplace.Text.{Text, is_digit}
use agentplace.Decimal.{
  DecimalError, scale, zeros, pad_start, to_text, before_point, big_int, units, from_units,
  canonical_decimal,
}
use agentplace.Decimal.Digits.{read_digits-to_text, all_digits-to_text}
use agentplace.Decimal.RoundTrip.{split_point-point, all_digits-zeros}
use agentplace.Authority.Numeric.{Numeric, IsNumeric}

abbrev read_column : Result DecimalError ℕ → Option ℕ
read_column (ok k) = if ltb k (10 ^ 30) then some k else none
read_column (throw _) = none

abbrev pub postgres : Numeric
postgres = record {
  parse = λ t. read_column (units t);
  print = λ k. to_text (k / scale) ++ b'.' ∷ pad_start 8 (to_text (k % scale));
}

before_point-digits : (s : Text) → all is_digit s ≡ true → before_point s ≡ s
unfolding before_point
before_point-digits [] h = refl
before_point-digits (c ∷ s) h = ground (arith, before_point-digits s)

big_int-to_text : (n : ℕ) → big_int (to_text n) ≡ ok n
unfolding big_int
big_int-to_text n = rw (all_digits-to_text n) (rw (read_digits-to_text n) refl)

pub postgres-IsNumeric : IsNumeric postgres
unfolding canonical_decimal from_units pad_start ◌>>=◌
postgres-IsNumeric = record {
  parse_units =
      λ t k h fits. let small : ltb k (10 ^ 30) ≡ true = ground arith in rw h (rw small refl);
  print_units = λ k.
      let whole = to_text (k / scale) in
      let padded = zeros (8 - length (to_text (k % scale))) ++ to_text (k % scale) in
      let digits : all is_digit padded ≡ true =
        all_digits-zeros (8 - length (to_text (k % scale))) (to_text (k % scale))
          (all_digits-to_text (k % scale)) in
      rw (split_point-point whole padded (all_digits-to_text (k / scale)))
        (rw (before_point-digits padded digits) (rw (big_int-to_text (k / scale)) refl));
}
