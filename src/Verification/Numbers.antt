-- ===== src/Verification/Numbers.antt =====
-- `BigInt(value)` and the helpers around it in packages/verification/src/index.ts: `bigintValue`,
-- `decimalString`, `lower`.
use agentplace.Prelude.{
  ℕ, zero, suc, ◌+◌, ◌-◌, ◌*◌, ◌≡◌, ◌↔◌, Bool, true, false, ◌&&◌, ◌||◌, [], ◌∷◌, Option, none, some,
  arith, leb, ltb, ◌==◌, if◌then◌else◌, Eq, ◌===◌,
}
use agentplace.Text.{Text, trim, to_lower, is_digit, is_empty}
use agentplace.Decimal.{to_text}
use agentplace.Verification.Types.{BigInt, nat, negative, Field, missing, string, other}

-- The value of a digit, in hexadecimal the letters too; `none` for any other unit.
abbrev digit_of : ℕ → Option ℕ
digit_of c =
    if is_digit c
    then some (c - b'0')
    else if leb b'a' c && leb c b'f'
    then some (c - b'a' + 10)
    else if leb b'A' c && leb c b'F'
    then some (c - b'A' + 10)
    else none

-- The next digit, where there is one and it is below the base.
unfoldable pub next_digit : ℕ → ℕ → Option ℕ → Option ℕ
next_digit base acc none = none
next_digit base acc (some d) = if ltb d base then some (acc * base + d) else none

unfoldable pub read_base_from : ℕ → Option ℕ → Text → Option ℕ
read_base_from base none s = none
read_base_from base (some acc) [] = some acc
read_base_from base (some acc) (c ∷ s) = read_base_from base (next_digit base acc (digit_of c)) s

-- Digits of a base, at least one.
unfoldable pub read_base : ℕ → Text → Option ℕ
read_base base [] = none
read_base base (c ∷ s) = read_base_from base (some 0) (c ∷ s)

unfoldable pub as_nat : Option ℕ → Option BigInt
as_nat none = none
as_nat (some n) = some (nat n)

-- A negative number is not zero.
unfoldable pub as_negative : Option ℕ → Option BigInt
as_negative none = none
as_negative (some zero) = some (nat 0)
as_negative (some (suc n)) = some (negative n)

-- The base that a prefix 0x, 0o or 0b names, 10 for any other.
abbrev prefix_base : ℕ → ℕ → ℕ
prefix_base c d =
    if c == b'0' && (d == b'x' || d == b'X')
    then 16
    else if c == b'0' && (d == b'o' || d == b'O')
    then 8
    else if c == b'0' && (d == b'b' || d == b'B')
    then 2
    else 10

unfoldable pub read_signed : ℕ → Text → Option BigInt
read_signed c s =
    if c == b'-'
    then as_negative (read_base 10 s)
    else if c == b'+'
    then as_nat (read_base 10 s)
    else as_nat (read_base 10 (c ∷ s))

-- `BigInt` of a trimmed text.
unfoldable pub read_big_int : Text → Option BigInt
read_big_int [] = some (nat 0)
read_big_int (c ∷ []) = read_signed c []
read_big_int (c ∷ d ∷ s) =
    if prefix_base c d == 10 then read_signed c (d ∷ s) else as_nat (read_base (prefix_base c d) s)

-- `bigintValue`
unfoldable pub bigint_value : Option Text → Option BigInt
bigint_value none = none
bigint_value (some t) = if is_empty t then none else read_big_int (trim t)

-- `bigintValue` of a property that need not be a string
unfoldable pub bigint_field : Field → Option BigInt
bigint_field missing = none
bigint_field (string t) = bigint_value (some t)
bigint_field (other t) = none

-- `n.toString()`
unfoldable pub big_int_text : BigInt → Text
big_int_text (nat n) = to_text n
big_int_text (negative n) = b'-' ∷ to_text (suc n)

-- `decimalString`, and `value?.toString() ?? ''`
unfoldable pub decimal_string : Option BigInt → Option Text
decimal_string none = none
decimal_string (some n) = some (big_int_text n)

-- The product of two BigInts; of a negative one and 0 it is 0.
unfoldable pub big_int_times : BigInt → BigInt → BigInt
big_int_times (nat m) (nat n) = nat (m * n)
big_int_times (nat zero) (negative n) = nat 0
big_int_times (nat (suc m)) (negative n) = negative (suc m * suc n - 1)
big_int_times (negative m) (nat zero) = nat 0
big_int_times (negative m) (nat (suc n)) = negative (suc m * suc n - 1)
big_int_times (negative m) (negative n) = nat (suc m * suc n)

-- `lower`
unfoldable pub lower : Option Text → Text
lower none = []
lower (some t) = to_lower t

unfoldable pub lower_field : Field → Text
lower_field missing = []
lower_field (string t) = to_lower t
lower_field (other t) = []

-- `String(value ?? '')`
unfoldable pub string_of : Field → Text
string_of missing = []
string_of (string t) = t
string_of (other t) = t

abbrev pub same_big_int : BigInt → BigInt → Bool
same_big_int (nat m) (nat n) = m == n
same_big_int (negative m) (negative n) = m == n
same_big_int _ _ = false

abbrev pub same_big_int_iff : (a b : BigInt) → (same_big_int a b ≡ true) ↔ (a ≡ b)
same_big_int_iff a b = ground arith

instance abbrev pub big_int_eq : Eq BigInt
big_int_eq = record { same = same_big_int; same_iff = same_big_int_iff }

-- `===` on values that may be null
abbrev pub same_option {ℓ} : {A : Type ℓ} ⦃e : Eq A⦄ → Option A → Option A → Bool
same_option none none = true
same_option (some a) (some b) = a === b
same_option _ _ = false
