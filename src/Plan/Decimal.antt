-- ===== src/Plan/Decimal.antt =====
-- The decimal digits of an index can be read back, and end where something else begins.
use mathlib.Core.List.{append-nil}
use netplan.Base.{
  not, ap, ℕ, zero, suc, ◌+◌, ◌-◌, ◌*◌, ◌/◌, ◌%◌, ◌<◌, ◌≡◌, refl, ◌∙◌, arith, inl, inr, Bool, false,
  true, [], ◌∷◌, ◌++◌, ◌==◌, Bool-cases, if◌then◌else◌, Text, is_ascii_digit, drop_while,
}
use netplan.Plan.{digits_from, decimal}

-- The number that a text begins with, after `acc`.
abbrev pub read_from : ℕ → Text → ℕ
read_from acc [] = acc
read_from acc (c ∷ s) =
    let more = read_from (acc * 10 + (c - b'0')) s in if is_ascii_digit c then more else acc

abbrev pub read : Text → ℕ
read s = read_from 0 s

-- What stands behind the digits that a text begins with.
abbrev pub after_digits : Text → Text
after_digits s = drop_while is_ascii_digit s

digit_ok : (n : ℕ) → is_ascii_digit (b'0' + n % 10) ≡ true
digit_ok n = ground arith

last_digit : (n : ℕ) → n / 10 == 0 ≡ true → 0 * 10 + (b'0' + n % 10 - b'0') ≡ n
last_digit n h = ground arith

next_digit : (n : ℕ) → n / 10 * 10 + (b'0' + n % 10 - b'0') ≡ n
next_digit n = omega arith

read-digits_from :
    (fuel n : ℕ) (rest : Text) → n < fuel → read (digits_from fuel n rest) ≡ read_from n rest
unfolding digits_from
read-digits_from zero n rest h = elim h [ ]
read-digits_from (suc fuel) n rest h = elim (Bool-cases (n / 10 == 0)) [
  | inl e ↦ rw (e, digit_ok n) (ap (λ k. read_from k rest) (last_digit n e))
  | inr e ↦ rw e (
      read-digits_from fuel (n / 10) ((b'0' + n % 10) ∷ rest) (ground arith)
      ∙ rw (digit_ok n) (ap (λ k. read_from k rest) (next_digit n)))
]

after-digits_from :
    (fuel n : ℕ) (rest : Text)
    → n < fuel
    → after_digits (digits_from fuel n rest) ≡ after_digits rest
unfolding digits_from
after-digits_from zero n rest h = elim h [ ]
after-digits_from (suc fuel) n rest h = elim (Bool-cases (n / 10 == 0)) [
  | inl e ↦ rw e (rw (digit_ok n, drop_while) refl)
  | inr e ↦ rw e (
      after-digits_from fuel (n / 10) ((b'0' + n % 10) ∷ rest) (ground arith)
      ∙ rw (digit_ok n, drop_while) refl)
]

digits_from-append :
    (fuel n : ℕ) (rest s : Text) → digits_from fuel n rest ++ s ≡ digits_from fuel n (rest ++ s)
unfolding digits_from
digits_from-append zero n rest s = refl
digits_from-append (suc fuel) n rest s = elim (Bool-cases (n / 10 == 0)) [
  | inl e ↦ rw e refl
  | inr e ↦ rw e (digits_from-append fuel (n / 10) ((b'0' + n % 10) ∷ rest) s)
]

-- No digit stands at the front.
abbrev pub stops : Text → Bool
stops [] = true
stops (c ∷ s) = not (is_ascii_digit c)

stops-read : (n : ℕ) (s : Text) → stops s ≡ true → read_from n s ≡ n
stops-read n [] h = refl
stops-read n (c ∷ s) h = ground arith

stops-after : (s : Text) → stops s ≡ true → after_digits s ≡ s
stops-after [] h = refl
stops-after (c ∷ s) h = let e : is_ascii_digit c ≡ false = ground arith in rw (e, drop_while) refl

pub read-decimal : (n : ℕ) (s : Text) → stops s ≡ true → read (decimal n ++ s) ≡ n
unfolding decimal
read-decimal n s h =
    rw (digits_from-append (suc n) n [] s)
      (read-digits_from (suc n) n s (omega arith) ∙ stops-read n s h)

pub after-decimal : (n : ℕ) (s : Text) → stops s ≡ true → after_digits (decimal n ++ s) ≡ s
unfolding decimal
after-decimal n s h =
    rw (digits_from-append (suc n) n [] s)
      (after-digits_from (suc n) n s (omega arith) ∙ stops-after s h)

-- With nothing behind the digits.
pub read-decimal_alone : (n : ℕ) → read (decimal n) ≡ n
read-decimal_alone n = rw append-nil at (read-decimal n [] refl)
