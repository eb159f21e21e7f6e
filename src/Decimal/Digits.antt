-- ===== src/Decimal/Digits.antt =====
-- Writing a number in decimal and reading it back.
use native.Mathlib.Nat.{pow-suc, pow-zero}
use agentplace.Prelude.{
  ℕ, zero, suc, ◌+◌, ◌-◌, ◌*◌, ◌/◌, ◌%◌, ◌^◌, ◌≤◌, ◌<◌, ◌≡◌, refl, sym, ap, ◌∙◌, inl, inr, Bool,
  true, false, ◌&&◌, [], ◌∷◌, ◌++◌, arith, leb, ltb, ltb→lt, ltb→le, Bool-cases, length, all,
}
use agentplace.Text.{Text, is_digit}
use agentplace.Decimal.{read_digits, digits_from, to_text, zeros, is_whole}

pub read_digits-append :
    (a : ℕ) (s t : Text) → read_digits a (s ++ t) ≡ read_digits (read_digits a s) t
unfolding read_digits
read_digits-append a [] t = refl
read_digits-append a (c ∷ s) t = read_digits-append (a * 10 + (c - b'0')) s t

-- With enough fuel, the digits written before `acc` read as `n` and then `acc`.
pub read_digits-digits_from :
    (fuel n : ℕ) (acc : Text)
    → n < fuel
    → read_digits 0 (digits_from fuel n acc) ≡ read_digits n acc
unfolding digits_from read_digits
read_digits-digits_from zero n acc h = absurd (omega arith)
read_digits-digits_from (suc fuel) n acc h = elim (Bool-cases (ltb n 10)) [
  | inl small ↦
      let e : 0 * 10 + (b'0' + n % 10 - b'0') ≡ n = omega (arith, ltb→lt n 10 small) in
      rw small (ap (λ k. read_digits k acc) e)
  | inr large ↦
      let e : n / 10 * 10 + (b'0' + n % 10 - b'0') ≡ n = omega arith in
      rw large (
        rw
          (read_digits-digits_from fuel (n / 10) ((b'0' + n % 10) ∷ acc)
            (omega (arith, ltb→le n 10 large)))
          (ap (λ k. read_digits k acc) e))
]

-- Reading back what `toString` writes gives the number.
pub read_digits-to_text : (n : ℕ) → read_digits 0 (to_text n) ≡ n
unfolding to_text read_digits
read_digits-to_text n = read_digits-digits_from (suc n) n [] (omega arith)

pub to_text-injective : (m n : ℕ) → to_text m ≡ to_text n → m ≡ n
to_text-injective m n e =
    sym (read_digits-to_text m) ∙ (ap (read_digits 0) e ∙ read_digits-to_text n)

-- What is written are digits.
all_digits-digits_from :
    (fuel n : ℕ) (acc : Text)
    → all is_digit acc ≡ true
    → all is_digit (digits_from fuel n acc) ≡ true
unfolding digits_from
all_digits-digits_from zero n acc h = h
all_digits-digits_from (suc fuel) n acc h =
    ground (arith, all_digits-digits_from fuel (n / 10) ((b'0' + n % 10) ∷ acc))

pub all_digits-to_text : (n : ℕ) → all is_digit (to_text n) ≡ true
unfolding to_text
all_digits-to_text n = all_digits-digits_from (suc n) n [] refl

-- The first digit of a positive number is not 0.
abbrev pub leads : Text → Bool
leads [] = false
leads (c ∷ _) = leb b'1' c && leb c b'9'

leads-digits_from :
    (fuel n : ℕ) (acc : Text) → n < fuel → 0 < n → leads (digits_from fuel n acc) ≡ true
unfolding digits_from
leads-digits_from zero n acc h p = absurd (omega arith)
leads-digits_from (suc fuel) n acc h p =
    ground (arith, leads-digits_from fuel (n / 10) ((b'0' + n % 10) ∷ acc))

-- A number below 10^(k + 1) has at most k + 1 digits.
length-digits_from :
    (fuel n k : ℕ) (acc : Text)
    → n < fuel
    → n < 10 ^ suc k
    → length (digits_from fuel n acc) ≤ suc k + length acc
unfolding digits_from
length-digits_from zero n k acc h p = absurd (omega arith)
length-digits_from (suc fuel) n zero acc h p = ground arith
length-digits_from (suc fuel) n (suc k) acc h p =
    let q : 10 ^ suc (suc k) ≡ 10 ^ suc k * 10 = pow-suc 10 (suc k) in
    ground (arith, length-digits_from fuel (n / 10) k ((b'0' + n % 10) ∷ acc))

pub length-to_text : (n k : ℕ) → n < 10 ^ suc k → length (to_text n) ≤ suc k
unfolding to_text
length-to_text n k p = omega (arith, length-digits_from (suc n) n k [] (omega arith) p)

is_whole_of_leads :
    (s : Text) → leads s ≡ true → all is_digit s ≡ true → length s ≤ 22 → is_whole s ≡ true
unfolding is_whole
is_whole_of_leads [] h d l = cc
is_whole_of_leads (c ∷ s) h d l = ground arith

-- A number below 10^22 is written as a whole part that the pattern accepts.
pub is_whole-to_text : (n : ℕ) → n < 10 ^ 22 → is_whole (to_text n) ≡ true
unfolding is_whole to_text digits_from
is_whole-to_text zero h = refl
is_whole-to_text (suc n) h =
    is_whole_of_leads (to_text (suc n))
      (leads-digits_from (suc (suc n)) (suc n) [] (omega arith) (omega arith))
      (all_digits-to_text (suc n)) (length-to_text (suc n) 21 h)

-- Leading zeros do not count.
pub read_digits-zeros : (k : ℕ) (s : Text) → read_digits 0 (zeros k ++ s) ≡ read_digits 0 s
unfolding read_digits zeros
read_digits-zeros zero s = refl
read_digits-zeros (suc k) s = read_digits-zeros k s

length-digits_from-first : (fuel n : ℕ) (acc : Text) → length acc ≤ length (digits_from fuel n acc)
unfolding digits_from
length-digits_from-first zero n acc = omega arith
length-digits_from-first (suc fuel) n acc =
    ground (arith, length-digits_from-first fuel (n / 10) ((b'0' + n % 10) ∷ acc))

is_whole_of_length : (s : Text) → 22 < length s → is_whole s ≡ false
unfolding is_whole
is_whole_of_length [] h = absurd (omega arith)
is_whole_of_length (c ∷ []) h = absurd (omega arith)
is_whole_of_length (c ∷ d ∷ s) h = ground arith

pow-pos : (n k : ℕ) → 0 < n → 0 < n ^ k
pow-pos n zero h = rw (pow-zero n) (omega arith)
pow-pos n (suc k) h = rw (pow-suc n k) (grind (arith, pow-pos n k h))

-- A number of at least 10^k has more than k digits.
length-digits_from-lower :
    (fuel n k : ℕ) (acc : Text)
    → n < fuel
    → 10 ^ k ≤ n
    → suc k + length acc ≤ length (digits_from fuel n acc)
unfolding digits_from
length-digits_from-lower zero n k acc h p = absurd (omega arith)
length-digits_from-lower (suc fuel) n zero acc h p =
    ground (arith, length-digits_from-first fuel (n / 10) ((b'0' + n % 10) ∷ acc))
length-digits_from-lower (suc fuel) n (suc k) acc h p =
    let q : 10 ^ suc k ≡ 10 ^ k * 10 = pow-suc 10 k in
    let pos : 0 < 10 ^ k = pow-pos 10 k (omega arith) in
    ground (arith, length-digits_from-lower fuel (n / 10) k ((b'0' + n % 10) ∷ acc))

-- Such a number is not a whole part of 22 digits at most.
pub is_whole-to_text_large : (n : ℕ) → 10 ^ 22 ≤ n → is_whole (to_text n) ≡ false
unfolding to_text
is_whole-to_text_large n h =
    is_whole_of_length (to_text n)
      (omega (arith, length-digits_from-lower (suc n) n 22 [] (omega arith) h))
