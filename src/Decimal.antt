-- ===== src/Decimal.antt =====
-- Amounts in US dollars as packages/authority/src/index.ts keeps them: decimal texts with at most
-- 22 digits before the point and 8 behind it, compared and added as whole numbers of 10^-8.
pub mod Digits
pub mod RoundTrip
mod Tests
use agentplace.Prelude.{
  ℕ, zero, suc, ◌+◌, ◌-◌, ◌*◌, ◌/◌, ◌%◌, Bool, true, false, ◌&&◌, List, [], ◌∷◌, ◌++◌, Option, none,
  some, Result, ok, throw, ◌>>=◌, leb, ltb, ◌==◌, if◌then◌else◌, length, all, reverse,
}
use agentplace.Text.{Text, trim, is_digit, is_empty}

-- The errors that the decimal helpers throw: their own `INVALID_DECIMAL`, and the `SyntaxError`
-- of `BigInt` on a text that is no number.
pub data DecimalError : Type 0 where
  invalid_decimal : DecimalError
  syntax_error : DecimalError

-- `100_000_000n`
abbrev pub scale : ℕ
scale = 100000000

-- The number that decimal digits stand for, read after the number `acc`.
unfoldable pub read_digits : ℕ → Text → ℕ
read_digits acc [] = acc
read_digits acc (c ∷ s) = read_digits (acc * 10 + (c - b'0')) s

-- `BigInt(s)` on the unsigned decimal texts; the empty text is 0. Signs, surrounding white space
-- and the prefixes 0x, 0o, 0b, which `BigInt` reads too, are refused here.
unfoldable pub big_int : Text → Result DecimalError ℕ
unfolding read_digits
big_int s = if all is_digit s then ok (read_digits 0 s) else throw syntax_error

-- `n.toString()`: the digits of `n` before `acc`. A number has fewer digits than `n + 1`.
unfoldable pub digits_from : ℕ → ℕ → Text → Text
digits_from zero n acc = acc
digits_from (suc fuel) n acc =
    let more = digits_from fuel (n / 10) ((b'0' + n % 10) ∷ acc) in
    if ltb n 10 then (b'0' + n % 10) ∷ acc else more

unfoldable pub to_text : ℕ → Text
unfolding digits_from
to_text n = digits_from (suc n) n []

-- The text before the first point and the text behind it, as in `value.split('.')`; what stands
-- behind a second point is dropped, as by the destructuring.
unfoldable pub split_point : Text → Text × Text
split_point [] = ([], [])
split_point (c ∷ s) =
    let (whole, fraction) = split_point s in if c == b'.' then ([], s) else (c ∷ whole, fraction)

unfoldable pub before_point : Text → Text
before_point [] = []
before_point (c ∷ s) = let rest = before_point s in if c == b'.' then [] else c ∷ rest

-- `fraction.replace(/0+$/, '')`
unfoldable pub strip_zeros : Text → Text
strip_zeros [] = []
strip_zeros (c ∷ s) =
    let rest = strip_zeros s in if is_empty rest && c == b'0' then [] else c ∷ rest

-- `s.padEnd(8, '0')` and `s.padStart(8, '0')`, by the zeros that are missing.
unfoldable pub zeros : ℕ → Text
zeros zero = []
zeros (suc n) = b'0' ∷ zeros n

unfoldable pub pad_end : ℕ → Text → Text
unfolding zeros
pad_end width s = s ++ zeros (width - length s)

unfoldable pub pad_start : ℕ → Text → Text
unfolding zeros
pad_start width s = zeros (width - length s) ++ s

-- `(0|[1-9][0-9]{0,21})`
unfoldable pub is_whole : Text → Bool
is_whole [] = false
is_whole (c ∷ s) =
    if c == b'0' then is_empty s else is_digit c && all is_digit s && leb (length s) 21

-- `[0-9]{1,8}`
unfoldable pub is_fraction : Text → Bool
is_fraction s = all is_digit s && leb 1 (length s) && leb (length s) 8

-- The optional `(?:\.([0-9]{1,8}))?` behind the whole part; `point` tells whether there is one.
unfoldable pub has_point : Text → Bool
has_point [] = false
has_point (c ∷ s) = if c == b'.' then true else has_point s

-- `DECIMAL.exec(value)`: the two groups of the match, an absent fraction as the empty text.
unfoldable pub match_decimal : Text → Option (Text × Text)
unfolding split_point is_whole is_fraction has_point
match_decimal s =
    let (whole, fraction) = split_point s in
    if is_whole whole && (if has_point s then is_fraction fraction else true)
    then some (whole, fraction)
    else none

unfoldable pub units_of_match : Option (Text × Text) → Result DecimalError ℕ
unfolding read_digits pad_end
units_of_match none = throw invalid_decimal
units_of_match (some (whole, fraction)) =
    ok (read_digits 0 whole * scale + read_digits 0 (pad_end 8 fraction))

-- `units(value)`
unfoldable pub units : Text → Result DecimalError ℕ
unfolding match_decimal trim units_of_match
units s = units_of_match (match_decimal (trim s))

-- `fromUnits(value)`
unfoldable pub from_units : ℕ → Text
unfolding to_text strip_zeros pad_start
from_units n =
    let fraction = strip_zeros (pad_start 8 (to_text (n % scale))) in
    let whole = to_text (n / scale) in if is_empty fraction then whole else whole ++ b'.' ∷ fraction

-- `canonicalDecimal(value)`
unfoldable pub canonical_decimal : Text → Result DecimalError Text
unfolding split_point before_point big_int strip_zeros to_text ◌>>=◌
canonical_decimal s =
    let (whole, rest) = split_point s in
    let trimmed = strip_zeros (before_point rest) in
    do n ← big_int whole; ok (if is_empty trimmed then to_text n else to_text n ++ b'.' ∷ trimmed)

-- `addDecimal(a, b)`
unfoldable pub add_decimal : Text → Text → Result DecimalError Text
unfolding units from_units ◌>>=◌
add_decimal a b = do m ← units a; n ← units b; ok (from_units (m + n))

-- `greaterThan(a, b)`
unfoldable pub greater_than : Text → Text → Result DecimalError Bool
unfolding units ◌>>=◌
greater_than a b = do m ← units a; n ← units b; ok (ltb n m)
