-- ===== src/Authority/Numeric.antt =====
-- PostgreSQL's `numeric(30,8)` as packages/authority/src/index.ts uses it: how a text is read into
-- a column, and how `::text` prints the column.
pub mod Postgres
use agentplace.Prelude.{ℕ, ◌^◌, ◌<◌, ◌≡◌, Option, some, ok}
use agentplace.Text.{Text}
use agentplace.Decimal.{units, from_units, canonical_decimal}

-- Values are whole numbers of 10^-8; a text that is no such number, or too large, is refused.
pub record Numeric : Type 0 where
  pub parse : Text → Option ℕ
  pub print : ℕ → Text

-- What the code relies on: a decimal text is read as its amount, and a printed column is a decimal
-- text of the amount, with any number of zeros at its end.
pub record IsNumeric (n : Numeric) : Type 0 where
  pub parse_units : (t : Text) (k : ℕ) → units t ≡ ok k → k < 10 ^ 30 → n.parse t ≡ some k
  pub print_units : (k : ℕ) → canonical_decimal (n.print k) ≡ ok (from_units k)
