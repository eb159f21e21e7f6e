-- ===== src/Decimal/Tests.antt =====
-- Runs of the decimal helpers of packages/authority/src/index.ts, and instances of the theorems.
use agentplace.Prelude.{◌≡◌, refl, ◌^◌, ◌>>=◌, ◌+◌, ok, throw, ltb, if◌then◌else◌, arith}
use agentplace.Text.{codes}
use agentplace.Decimal.{
  invalid_decimal, units, from_units, canonical_decimal, add_decimal, greater_than,
}
use agentplace.Decimal.RoundTrip.{
  units-from_units, units-from_units_large, greater_than-add_decimal,
}

from_units_run : from_units 1250000000 ≡ codes "12.5"
unfolding from_units
from_units_run = refl

canonical_run : canonical_decimal (codes "007.500") ≡ ok (codes "7.5")
unfolding canonical_decimal
canonical_run = refl

units-from_units_example : units (from_units 1250000001) ≡ ok 1250000001
units-from_units_example = units-from_units 1250000001 (omega arith)

units-from_units_large_example : units (from_units (10 ^ 30)) ≡ throw invalid_decimal
units-from_units_large_example = units-from_units_large (10 ^ 30) (omega arith)

greater_than-add_decimal_example :
    (add_decimal (codes "99.5") (codes "0.5") >>= λ s. greater_than s (codes "100")) ≡ (
      if ltb (9950000000 + 50000000) (10 ^ 30)
      then ok (ltb 10000000000 (9950000000 + 50000000))
      else throw invalid_decimal)
unfolding units
greater_than-add_decimal_example =
    greater_than-add_decimal (codes "99.5") (codes "0.5") (codes "100") 9950000000 50000000
      10000000000 refl refl refl
