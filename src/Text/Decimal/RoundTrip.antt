-- ===== src/Text/Decimal/RoundTrip.antt =====
-- Reading back the decimal text of a number.
use ims_prakash.Base.{
  ℕ, zero, suc, ◌+◌, ◌*◌, ◌/◌, ◌%◌, ◌≤◌, ◌<◌, ◌≡◌, refl, ◌∙◌, ap, Bool, true, false, some, inl, inr,
  [], ◌∷◌, ◌++◌, All, arith, ◌==◌, ltb, Bool-cases, ltb→lt, ltb→le,
}
use mathlib.Core.List.{append_assoc, append-nil}
use ims_prakash.Base.Int.{ℤ, pos, negsuc}
use ims_prakash.Errors.{ok}
use ims_prakash.Text.{Text, truthy, is_space}
use ims_prakash.Text.Strip.{NotSpace, strip_clean}
use ims_prakash.Text.Decimal.{
  digits, str_of, str_int, is_digit, scan, read_nat, read_signed, int_of,
}

-- A decimal digit as a code point.
abbrev pub IsDigit : ℕ → Type 0
IsDigit c = (b'0' ≤ c) × (c ≤ b'9')

All-snoc : (s : Text) (c : ℕ) → All IsDigit s → IsDigit c → All IsDigit (s ++ c ∷ [])
All-snoc [] c h k = (k, tt)
All-snoc (d ∷ s) c h k = (h.0, All-snoc s c h.1 k)

pub digits-IsDigit : (f n : ℕ) → All IsDigit (digits f n)
unfolding digits
digits-IsDigit zero n = omega arith
digits-IsDigit (suc f) n = elim (Bool-cases (ltb n 10)) [
  | inl small ↦ rw small (omega (arith, ltb→lt n 10 small))
  | inr large ↦ rw large (All-snoc (digits f (n / 10)) _ (digits-IsDigit f (n / 10)) (omega arith))
]

digit_code : (d : ℕ) → d < 10 → is_digit (b'0' + d) ≡ true
unfolding is_digit
digit_code d h = ground arith

scan-digit :
    (b : Bool) (acc d : ℕ) (s : Text)
    → d < 10
    → scan b acc ((b'0' + d) ∷ s) ≡ scan true (acc * 10 + d) s
unfolding scan
scan-digit b acc d s h = rw (digit_code d h) (ap (λ k. scan true (acc * 10 + k) s) (omega arith))

scan-digits : (f n : ℕ) (b : Bool) (s : Text) → n ≤ f → scan b 0 (digits f n ++ s) ≡ scan true n s
unfolding digits
scan-digits zero n b s h =
    scan-digit b 0 (n % 10) s (omega arith) ∙ ap (λ k. scan true k s) (omega arith)
scan-digits (suc f) n b s h = elim (Bool-cases (ltb n 10)) [
  | inl small ↦
      rw small (scan-digit b 0 n s (ltb→lt n 10 small) ∙ ap (λ k. scan true k s) (omega arith))
  | inr large ↦
      let big = ltb→le n 10 large in
      rw (large, append_assoc)
        (scan-digits f (n / 10) b ((b'0' + n % 10) ∷ s) (omega arith)
          ∙ scan-digit true (n / 10) (n % 10) s (omega arith)
          ∙ ap (λ k. scan true k s) (omega arith))
]

digit_not_space : (c : ℕ) → IsDigit c → is_space c ≡ false
unfolding is_space
digit_not_space c h = ground arith

digits-NotSpace : (s : Text) → All IsDigit s → All NotSpace s
digits-NotSpace [] h = tt
digits-NotSpace (c ∷ s) h = (digit_not_space c h.0, digits-NotSpace s h.1)

read_signed-digits :
    (s : Text) (n : ℕ) → All IsDigit s → read_nat s ≡ some n → read_signed s ≡ some (pos n)
unfolding read_signed
read_signed-digits [] n h e = unfold read_nat in cc
read_signed-digits (c ∷ s) n h e = ground arith

pub str_of-IsDigit : (n : ℕ) → All IsDigit (str_of n)
unfolding str_of
str_of-IsDigit n = digits-IsDigit n n

read_nat-str_of : (n : ℕ) → read_nat (str_of n) ≡ some n
unfolding read_nat str_of scan
read_nat-str_of n = rw append-nil at (scan-digits n n false [] (omega arith))

-- `int(str(n))` is `n`.
pub int_of-str_of : (n : ℕ) → int_of (str_of n) ≡ ok (pos n)
unfolding int_of
int_of-str_of n = rw (
  strip_clean (str_of n) (digits-NotSpace (str_of n) (str_of-IsDigit n)),
  read_signed-digits (str_of n) n (str_of-IsDigit n) (read_nat-str_of n),
  int_of,
)

minus_digits : (n : ℕ) → read_signed (b'-' ∷ str_of (suc n)) ≡ some (negsuc n)
unfolding read_signed
minus_digits n = rw (read_nat-str_of (suc n)) (ground arith)

minus_not_space : is_space b'-' ≡ false
unfolding is_space
minus_not_space = refl

-- `int(str(z))` is `z`, for every integer.
pub int_of-str_int : (z : ℤ) → int_of (str_int z) ≡ ok z
unfolding str_int int_of
int_of-str_int (pos n) = int_of-str_of n
int_of-str_int (negsuc n) = rw (
  strip_clean (b'-' ∷ str_of (suc n))
      (minus_not_space, digits-NotSpace (str_of (suc n)) (str_of-IsDigit (suc n))),
  minus_digits n,
  int_of,
)

-- The text of an integer does not hold the separator of the live feed.
abbrev pub NotBar : ℕ → Type 0
NotBar c = (c == b'|') ≡ false

digits-NotBar : (s : Text) → All IsDigit s → All NotBar s
digits-NotBar [] h = tt
digits-NotBar (c ∷ s) h = (digit_not_bar c h.0, digits-NotBar s h.1)
  where
    digit_not_bar : (c : ℕ) → IsDigit c → NotBar c
    digit_not_bar c h = ground arith

pub str_int-NotBar : (z : ℤ) → All NotBar (str_int z)
unfolding str_int
str_int-NotBar (pos n) = digits-NotBar (str_of n) (str_of-IsDigit n)
str_int-NotBar (negsuc n) = (refl, digits-NotBar (str_of (suc n)) (str_of-IsDigit (suc n)))

append-truthy : (s : Text) (c : ℕ) → truthy (s ++ c ∷ []) ≡ true
append-truthy [] c = refl
append-truthy (d ∷ s) c = refl

digits-truthy : (f n : ℕ) → truthy (digits f n) ≡ true
unfolding digits
digits-truthy zero n = refl
digits-truthy (suc f) n = ground (arith, append-truthy (digits f (n / 10)) (b'0' + n % 10))

-- The text of an integer is not empty.
pub str_int-truthy : (z : ℤ) → truthy (str_int z) ≡ true
unfolding str_int str_of
str_int-truthy (pos n) = digits-truthy n n
str_int-truthy (negsuc n) = refl
