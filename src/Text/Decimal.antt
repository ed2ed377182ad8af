-- ===== src/Text/Decimal.antt =====
-- `str(n)` of a natural number and `int(text)`. `int` is modelled on ASCII: white space around, a
-- sign, digits, and single underscores between digits; any other text is a `ValueError`.
pub mod RoundTrip
use ims_prakash.Base.{
  ℕ, zero, suc, ◌+◌, ◌-◌, ◌*◌, ◌/◌, ◌%◌, ◌^◌, Bool, true, false, ◌&&◌, Option, none, some, [], ◌∷◌,
  ◌++◌, leb, ltb, ◌==◌, if◌then◌else◌,
}
use ims_prakash.Base.Int.{ℤ, pos, negsuc, sub_ℕ}
use ims_prakash.Text.{Text, strip}
use ims_prakash.Errors.{Result, ok, err, value_error}

-- The digits of `n`, most significant first; the fuel bounds their number.
unfoldable pub digits : ℕ → ℕ → Text
digits zero n = (b'0' + n % 10) ∷ []
digits (suc f) n =
    let more = digits f (n / 10) in
    if ltb n 10 then (b'0' + n) ∷ [] else more ++ (b'0' + n % 10) ∷ []

-- `n` has at most `n + 1` digits.
unfoldable pub str_of : ℕ → Text
unfolding digits
str_of n = digits n n

-- `str(z)` of any integer.
unfoldable pub str_int : ℤ → Text
unfolding str_of
str_int (pos n) = str_of n
str_int (negsuc n) = b'-' ∷ str_of (suc n)

-- The digits behind the point, `places` of them.
fraction_digits : ℕ → ℕ → Text
fraction_digits zero n = []
fraction_digits (suc places) n = fraction_digits places (n / 10) ++ (b'0' + n % 10) ∷ []

trim_zero : ℕ → Text → Text
trim_zero c [] = if c == b'0' then [] else c ∷ []
trim_zero c (d ∷ t) = c ∷ d ∷ t

trim_zeros : Text → Text
unfolding trim_zero
trim_zeros [] = []
trim_zeros (c ∷ s) = trim_zero c (trim_zeros s)

or_zero : Text → Text
or_zero [] = b'0' ∷ []
or_zero (c ∷ s) = c ∷ s

-- `str` of a float that is `n / 10 ^ places`: the fraction with no trailing zeros, but one digit.
unfoldable pub str_fixed : ℕ → ℕ → Text
unfolding str_of fraction_digits trim_zeros or_zero
str_fixed places n =
    str_of (n / 10 ^ places)
    ++ (b'.' ∷ or_zero (trim_zeros (fraction_digits places (n % 10 ^ places))))

unfoldable pub is_digit : ℕ → Bool
is_digit c = leb b'0' c && leb c b'9'

-- `after_digit` says that the character before was a digit.
unfoldable pub scan : Bool → ℕ → Text → Option ℕ
unfolding is_digit
scan after_digit acc [] = if after_digit then some acc else none
scan after_digit acc (c ∷ s) =
    let digit = scan true (acc * 10 + (c - b'0')) s in
    let joined = scan false acc s in
    if is_digit c then digit else if c == b'_' && after_digit then joined else none

unfoldable pub read_nat : Text → Option ℕ
unfolding scan
read_nat s = scan false 0 s

unfoldable pub read_signed : Text → Option ℤ
unfolding read_nat
read_signed [] = none
read_signed (c ∷ s) =
    if c == b'-'
    then elim (read_nat s) [ none ↦ none | some n ↦ some (sub_ℕ 0 n) ]
    else if c == b'+'
    then elim (read_nat s) [ none ↦ none | some n ↦ some (pos n) ]
    else elim (read_nat (c ∷ s)) [ none ↦ none | some n ↦ some (pos n) ]

unfoldable pub int_of : Text → Result ℤ
unfolding read_signed
int_of t = elim (read_signed (strip t)) [ none ↦ err value_error | some z ↦ ok z ]
