-- ===== src/Text.antt =====
-- Python's `str` as the list of its code points, and the methods of it that the backend calls.
pub mod Strip
pub mod Decimal
use Prim.Native.Char.{code}
use Prim.Native.String.{String}
use ims_prakash.Base.{
  ℕ, zero, suc, ◌+◌, ◌-◌, ◌*◌, ◌/◌, ◌%◌, ◌<◌, ◌≡◌, refl, Bool, true, false, ◌&&◌, ◌||◌, Option,
  none, some, List, [], ◌∷◌, ◌++◌, arith, leb, ltb, ◌==◌, if◌then◌else◌,
}

abbrev pub Text : Type 0
Text = List ℕ

-- A literal of the source.
abbrev pub codes : String → Text
codes String.[] = []
codes (String.◌∷◌ c s) = code c ∷ codes s

abbrev pub text_eq : Text → Text → Bool
text_eq [] [] = true
text_eq (a ∷ s) (b ∷ t) = a == b && text_eq s t
text_eq _ _ = false

-- `str.isspace` of one character.
unfoldable pub is_space : ℕ → Bool
is_space c =
    (leb 0x9 c && leb c 0xd)
    || (leb 0x1c c && leb c 0x20)
    || c == 0x85
    || c == 0xa0
    || c == 0x1680
    || (leb 0x2000 c && leb c 0x200a)
    || c == 0x2028
    || c == 0x2029
    || c == 0x202f
    || c == 0x205f
    || c == 0x3000

unfoldable pub lstrip : Text → Text
lstrip [] = []
lstrip (c ∷ s) = if is_space c then lstrip s else c ∷ s

-- One more character in front of a text that has been trimmed at its end.
unfoldable pub trim_end : ℕ → Text → Text
trim_end c [] = if is_space c then [] else c ∷ []
trim_end c (d ∷ t) = c ∷ d ∷ t

unfoldable pub rstrip : Text → Text
unfolding trim_end
rstrip [] = []
rstrip (c ∷ s) = trim_end c (rstrip s)

unfoldable pub strip : Text → Text
strip s = rstrip (lstrip s)

-- Truth of a `str`: it is not empty.
abbrev pub truthy : Text → Bool
truthy [] = false
truthy (_ ∷ _) = true

unfoldable pub startswith : Text → Text → Bool
startswith s [] = true
startswith [] (p ∷ ps) = false
startswith (c ∷ s) (p ∷ ps) = c == p && startswith s ps

unfoldable pub contains_code : ℕ → Text → Bool
contains_code c [] = false
contains_code c (d ∷ s) = d == c || contains_code c s

-- `s.partition(c)` at a separator of one character, which is left out of the result.
unfoldable pub partition : ℕ → Text → Text × Text
partition c [] = ([], [])
partition c (d ∷ s) = let rest = partition c s in if d == c then ([], s) else (d ∷ rest.0, rest.1)
