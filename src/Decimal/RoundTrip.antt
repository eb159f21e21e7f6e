-- ===== src/Decimal/RoundTrip.antt =====
-- Amounts survive printing and parsing.
use mathlib.Core.List.{reverse-reverse, reverse-cons}
use agentplace.Prelude.{
  if◌then◌else◌, ℕ, zero, suc, ◌+◌, ◌-◌, ◌*◌, ◌/◌, ◌%◌, ◌^◌, ◌≤◌, ◌<◌, ◌≡◌, refl, sym, ap, ◌∙◌, inl,
  inr, Bool, true, false, ◌&&◌, ◌||◌, [], ◌∷◌, ◌++◌, arith, none, some, ok, ◌>>=◌, >>=-eq-ok, ltb,
  ltb→lt, ltb→le, ◌==◌, Bool-cases, and-true, ==_iff, length, all, length-append, reverse, throw,
  Result,
}
use agentplace.Text.{Text, trim, trim_start, is_digit, is_empty}
use agentplace.Decimal.Digits.{
  read_digits-to_text, all_digits-to_text, length-to_text, is_whole-to_text, is_whole-to_text_large,
  read_digits-zeros,
}
use agentplace.Decimal.{
  DecimalError, invalid_decimal, scale, read_digits, to_text, zeros, strip_zeros, pad_start,
  pad_end, is_fraction, is_whole, has_point, split_point, match_decimal, units_of_match, units,
  from_units, add_decimal, greater_than,
}

-- A text of digits and points.
abbrev plain : ℕ → Bool
plain c = is_digit c || c == b'.'

trim_start-plain : (s : Text) → all plain s ≡ true → trim_start s ≡ s
unfolding trim_start
trim_start-plain [] h = refl
trim_start-plain (c ∷ s) h = ground arith

all-concat : (p : ℕ → Bool) (s : Text) (c : ℕ) → all p (s ++ c ∷ []) ≡ (all p s && p c)
all-concat p [] c = ground arith
all-concat p (d ∷ s) c = ground (arith, all-concat p s c)

all-reverse : (p : ℕ → Bool) (s : Text) → all p (reverse s) ≡ all p s
all-reverse p [] = refl
all-reverse p (c ∷ s) =
    rw (reverse-cons c s, all-concat p (reverse s) c, all-reverse p s) (ground arith)

-- Trimming leaves such a text alone.
trim-plain : (s : Text) → all plain s ≡ true → trim s ≡ s
unfolding trim
trim-plain s h =
    rw (trim_start-plain s h)
      (rw (trim_start-plain (reverse s) (all-reverse plain s ∙ h)) (reverse-reverse s))

all_digits-plain : (s : Text) → all is_digit s ≡ true → all plain s ≡ true
all_digits-plain [] h = refl
all_digits-plain (c ∷ s) h = ground (arith, all_digits-plain s)

all-plain-point :
    (s t : Text) → all is_digit s ≡ true → all is_digit t ≡ true → all plain (s ++ b'.' ∷ t) ≡ true
all-plain-point [] t h k = all_digits-plain t k
all-plain-point (c ∷ s) t h k = ground (arith, all-plain-point s t)

pub split_point-point : (s t : Text) → all is_digit s ≡ true → split_point (s ++ b'.' ∷ t) ≡ (s, t)
unfolding split_point
split_point-point [] t h = refl
split_point-point (c ∷ s) t h = ground (arith, split_point-point s t)

split_point-digits : (s : Text) → all is_digit s ≡ true → split_point s ≡ (s, [])
unfolding split_point
split_point-digits [] h = refl
split_point-digits (c ∷ s) h = ground (arith, split_point-digits s)

has_point-point : (s t : Text) → has_point (s ++ b'.' ∷ t) ≡ true
unfolding has_point
has_point-point [] t = refl
has_point-point (c ∷ s) t = ground (arith, has_point-point s t)

has_point-digits : (s : Text) → all is_digit s ≡ true → has_point s ≡ false
unfolding has_point
has_point-digits [] h = refl
has_point-digits (c ∷ s) h = ground (arith, has_point-digits s)

-- The zeros that were stripped, put back.
restore :
    (k l : ℕ) (c : ℕ) (s t : Text) → t ++ zeros (k - l) ≡ s → c ∷ t ++ zeros (suc k - suc l) ≡ c ∷ s
restore k l c s t h = let e : suc k - suc l ≡ k - l = omega arith in rw e (ap (◌∷◌ c) h)

all_zeros :
    (c : ℕ) (s : Text) → c ≡ b'0' → zeros (length s) ≡ s → zeros (suc (length s) - 0) ≡ c ∷ s
unfolding zeros
all_zeros c s e h =
    let k : suc (length s) - 0 ≡ suc (length s) = omega arith in rw (k, e) (ap (◌∷◌ b'0') h)

nil_append : (k : ℕ) (s t : Text) → is_empty t ≡ true → t ++ zeros (k - length t) ≡ s → zeros k ≡ s
nil_append k s [] e h = let z : k - 0 ≡ k = omega arith in rw z at h
nil_append k s (c ∷ t) e h = cc

strip_zeros-append : (s : Text) → strip_zeros s ++ zeros (length s - length (strip_zeros s)) ≡ s
unfolding strip_zeros zeros
strip_zeros-append [] = refl
strip_zeros-append (c ∷ s) = elim (Bool-cases (is_empty (strip_zeros s) && c == b'0')) [
  | inl h ↦
      let (e, z) = and-true (is_empty (strip_zeros s)) (c == b'0') h in
      rw h (
        all_zeros c s ((==_iff c b'0').0 z)
          (nil_append (length s) s (strip_zeros s) e (strip_zeros-append s)))
  | inr h ↦
      rw h (restore (length s) (length (strip_zeros s)) c s (strip_zeros s) (strip_zeros-append s))
]

length-zeros : (k : ℕ) → length (zeros k) ≡ k
unfolding zeros
length-zeros zero = refl
length-zeros (suc k) = omega (arith, length-zeros k)

pub all_digits-zeros :
    (k : ℕ) (s : Text) → all is_digit s ≡ true → all is_digit (zeros k ++ s) ≡ true
unfolding zeros
all_digits-zeros zero s h = h
all_digits-zeros (suc k) s h = all_digits-zeros k s h

all_digits-strip_zeros : (s : Text) → all is_digit s ≡ true → all is_digit (strip_zeros s) ≡ true
unfolding strip_zeros
all_digits-strip_zeros [] h = refl
all_digits-strip_zeros (c ∷ s) h = ground (arith, all_digits-strip_zeros s)

length-strip_zeros-le : (s : Text) → length (strip_zeros s) ≤ length s
unfolding strip_zeros
length-strip_zeros-le [] = omega arith
length-strip_zeros-le (c ∷ s) = ground (arith, length-strip_zeros-le s)

-- Padded digits are eight, read the same, and their stripped form padded again is the same text.
length-pad_start : (s : Text) → length s ≤ 8 → length (pad_start 8 s) ≡ 8
unfolding pad_start
length-pad_start s h =
    omega (arith, length-append (zeros (8 - length s)) s, length-zeros (8 - length s))

pad_end-strip_zeros : (s : Text) → length s ≡ 8 → pad_end 8 (strip_zeros s) ≡ s
unfolding pad_end
pad_end-strip_zeros s h = rw h at (strip_zeros-append s)

module _ (m : ℕ) (below : m < scale) where
  abbrev padded : Text
  padded = pad_start 8 (to_text m)

  fraction_digits : all is_digit (strip_zeros padded) ≡ true
  unfolding pad_start
  fraction_digits =
      all_digits-strip_zeros padded
        (all_digits-zeros (8 - length (to_text m)) (to_text m) (all_digits-to_text m))

  fraction_length : length (strip_zeros padded) ≤ 8
  fraction_length =
      omega (
        arith,
        length-strip_zeros-le padded,
        length-pad_start (to_text m) (length-to_text m 7 below),
      )

  fraction_value : read_digits 0 (pad_end 8 (strip_zeros padded)) ≡ m
  unfolding pad_start
  fraction_value =
      rw (pad_end-strip_zeros padded (length-pad_start (to_text m) (length-to_text m 7 below)))
        (read_digits-zeros (8 - length (to_text m)) (to_text m) ∙ read_digits-to_text m)

  is_fraction_lem : is_empty (strip_zeros padded) ≡ false → is_fraction (strip_zeros padded) ≡ true
  unfolding is_fraction
  is_fraction_lem h = ground (arith, fraction_digits, fraction_length)

match_decimal-whole :
    (w : Text) → is_whole w ≡ true → all is_digit w ≡ true → match_decimal w ≡ some (w, [])
unfolding match_decimal
match_decimal-whole w h d = rw (split_point-digits w d, has_point-digits w d, h)

match_decimal-point :
    (w f : Text)
    → is_whole w ≡ true
    → all is_digit w ≡ true
    → is_fraction f ≡ true
    → match_decimal (w ++ b'.' ∷ f) ≡ some (w, f)
unfolding match_decimal
match_decimal-point w f h d k = rw (split_point-point w f d, has_point-point w f, h, k)

-- `units` reads a text of digits and points that the pattern takes apart.
units_of_parts :
    (s w f : Text)
    → all plain s ≡ true
    → match_decimal s ≡ some (w, f)
    → units s ≡ ok (read_digits 0 w * scale + read_digits 0 (pad_end 8 f))
unfolding units units_of_match
units_of_parts s w f p m = rw (trim-plain s p, m)

is_empty-nil : (t : Text) → is_empty t ≡ true → t ≡ []
is_empty-nil [] h = refl
is_empty-nil (c ∷ t) h = cc

module _ (n : ℕ) (fits : n < 10 ^ 30) where
  abbrev whole : Text
  whole = to_text (n / scale)

  abbrev fraction : Text
  fraction = strip_zeros (padded (n % scale) (omega arith))

  is_whole_lem : is_whole whole ≡ true
  is_whole_lem = is_whole-to_text (n / scale) (omega arith)

  parts_value : read_digits 0 whole * scale + read_digits 0 (pad_end 8 fraction) ≡ n
  parts_value =
      omega (arith, read_digits-to_text (n / scale), fraction_value (n % scale) (omega arith))

  units-whole : is_empty fraction ≡ true → units whole ≡ ok n
  units-whole h =
      let d = all_digits-to_text (n / scale) in
      units_of_parts whole whole [] (all_digits-plain whole d)
        (match_decimal-whole whole is_whole_lem d)
      ∙ ap ok (rw (is_empty-nil fraction h) at parts_value)

  units-point : is_empty fraction ≡ false → units (whole ++ b'.' ∷ fraction) ≡ ok n
  units-point h =
      let d = all_digits-to_text (n / scale) in
      let f = fraction_digits (n % scale) (omega arith) in
      units_of_parts (whole ++ b'.' ∷ fraction) whole fraction (all-plain-point whole fraction d f)
        (match_decimal-point whole fraction is_whole_lem d
          (is_fraction_lem (n % scale) (omega arith) h))
      ∙ ap ok parts_value

-- An amount of less than 10^30 units of 10^-8 dollars (22 digits before the point) is read back
-- from the text that `fromUnits` writes for it.
pub units-from_units : (n : ℕ) → n < 10 ^ 30 → units (from_units n) ≡ ok n
unfolding from_units
units-from_units n fits = elim (Bool-cases (is_empty (fraction n fits))) [
  | inl h ↦ rw h (units-whole n fits h)
  | inr h ↦ rw h (units-point n fits h)
]

match_decimal-split :
    (s w f : Text) → split_point s ≡ (w, f) → is_whole w ≡ false → match_decimal s ≡ none
unfolding match_decimal
match_decimal-split s w f p h = rw (p, h)

units_refused :
    (s : Text) → all plain s ≡ true → match_decimal s ≡ none → units s ≡ throw invalid_decimal
unfolding units units_of_match
units_refused s p m = rw (trim-plain s p, m)

-- A larger amount is written as a text that `units` refuses.
pub units-from_units_large : (n : ℕ) → 10 ^ 30 ≤ n → units (from_units n) ≡ throw invalid_decimal
unfolding from_units
units-from_units_large n large = elim (Bool-cases (is_empty fraction')) [
  | inl h ↦ rw h (
      units_refused whole' (all_digits-plain whole' digits)
        (match_decimal-split whole' whole' [] (split_point-digits whole' digits) refused))
  | inr h ↦ rw h (
      units_refused (whole' ++ b'.' ∷ fraction')
        (all-plain-point whole' fraction' digits (fraction_digits (n % scale) (omega arith)))
        (match_decimal-split (whole' ++ b'.' ∷ fraction') whole' fraction'
          (split_point-point whole' fraction' digits) refused))
]
  where
    whole' : Text
    whole' = to_text (n / scale)

    fraction' : Text
    fraction' = strip_zeros (pad_start 8 (to_text (n % scale)))

    digits : all is_digit whole' ≡ true
    digits = all_digits-to_text (n / scale)

    refused : is_whole whole' ≡ false
    refused = is_whole-to_text_large (n / scale) (omega arith)

ok-injective : {A : Type 0} {a b : A} → ◌≡◌ {A = Result DecimalError A} (ok a) (ok b) → a ≡ b
ok-injective h = cc

sum_read : (m n : ℕ) (s : Text) (t : ℕ) → from_units (m + n) ≡ s → units s ≡ ok t → t ≡ m + n
sum_read m n s t e h = elim (Bool-cases (ltb (m + n) (10 ^ 30))) [
  | inl small ↦ cc (units-from_units (m + n) (ltb→lt (m + n) (10 ^ 30) small))
  | inr large ↦ cc (units-from_units_large (m + n) (ltb→le (m + n) (10 ^ 30) large))
]

-- Where `addDecimal` gives a text that `greaterThan` can compare with a third one, the comparison
-- is that of the sum of the two amounts with the third.
pub greater_than-add_decimal_inv :
    (a b c s : Text) (r : Bool)
    → add_decimal a b ≡ ok s
    → greater_than s c ≡ ok r
    → (m : ℕ) × (n : ℕ) × (k : ℕ) × (units a ≡ ok m)
      × (units b ≡ ok n)
      × (units c ≡ ok k)
      × (r ≡ ltb k (m + n))
unfolding add_decimal greater_than
greater_than-add_decimal_inv a b c s r p q =
    let (m, pa, p₁) = >>=-eq-ok (units a) _ p in
    let (n, pb, p₂) = >>=-eq-ok (units b) _ p₁ in
    let (t, qs, q₁) = >>=-eq-ok (units s) _ q in
    let (k, qc, q₂) = >>=-eq-ok (units c) _ q₁ in
    let e : t ≡ m + n = sum_read m n s t (ok-injective p₂) qs in
    (m, n, k, pa, pb, qc, rw (← e) (sym (ok-injective q₂)))

-- For three texts that are amounts, `addDecimal` of two followed by `greaterThan` of the third
-- compares the sum of the amounts with the third as numbers, where the sum is below 10^30 units, and
-- throws INVALID_DECIMAL where it is not.
pub greater_than-add_decimal :
    (a b c : Text) (m n k : ℕ)
    → units a ≡ ok m
    → units b ≡ ok n
    → units c ≡ ok k
    → (add_decimal a b >>= λ s. greater_than s c)
      ≡ (if ltb (m + n) (10 ^ 30) then ok (ltb k (m + n)) else throw invalid_decimal)
unfolding add_decimal greater_than
greater_than-add_decimal a b c m n k p q r = elim (Bool-cases (ltb (m + n) (10 ^ 30))) [
  | inl small ↦
      rw (p, q) (rw (units-from_units (m + n) (ltb→lt (m + n) (10 ^ 30) small), r, small) refl)
  | inr large ↦
      rw (p, q) (rw (units-from_units_large (m + n) (ltb→le (m + n) (10 ^ 30) large), large) refl)
]
