-- ===== src/Text/Strip.antt =====
-- Facts about `strip`.
use ims_prakash.Base.{ℕ, ◌≡◌, refl, ap, ◌∙◌, false, inl, inr, [], ◌∷◌, All, arith, Bool-cases}
use ims_prakash.Text.{Text, is_space, lstrip, trim_end, rstrip, strip}

abbrev pub NotSpace : ℕ → Type 0
NotSpace c = is_space c ≡ false

rstrip_clean : (s : Text) → All NotSpace s → rstrip s ≡ s
unfolding rstrip
rstrip_clean [] h = refl
rstrip_clean (c ∷ []) h = ground arith
rstrip_clean (c ∷ d ∷ s) h = rw (rstrip_clean (d ∷ s) h.1)

lstrip_clean : (s : Text) → All NotSpace s → lstrip s ≡ s
unfolding lstrip
lstrip_clean [] h = refl
lstrip_clean (c ∷ s) h = ground arith

-- A text without white space is its own `strip`.
pub strip_clean : (s : Text) → All NotSpace s → strip s ≡ s
unfolding strip
strip_clean s h = rw (lstrip_clean s h) (rstrip_clean s h)

-- A text that is empty or begins with something besides white space.
abbrev pub BeginsClean : Text → Type 0
BeginsClean [] = Unit
BeginsClean (c ∷ _) = NotSpace c

lstrip-BeginsClean : (s : Text) → BeginsClean (lstrip s)
unfolding lstrip
lstrip-BeginsClean [] = tt
lstrip-BeginsClean (c ∷ s) = elim (Bool-cases (is_space c)) [
  | inl space ↦ rw space (lstrip-BeginsClean s)
  | inr other ↦ rw other other
]

trim_end-BeginsClean : (c : ℕ) (s : Text) → NotSpace c → BeginsClean (trim_end c s)
unfolding trim_end
trim_end-BeginsClean c [] h = rw h h
trim_end-BeginsClean c (d ∷ s) h = h

rstrip-BeginsClean : (s : Text) → BeginsClean s → BeginsClean (rstrip s)
unfolding rstrip
rstrip-BeginsClean [] h = tt
rstrip-BeginsClean (c ∷ s) h = trim_end-BeginsClean c (rstrip s) h

-- What `strip` leaves does not begin with white space.
pub strip-BeginsClean : (s : Text) → BeginsClean (strip s)
unfolding strip
strip-BeginsClean s = rstrip-BeginsClean (lstrip s) (lstrip-BeginsClean s)

rstrip-trim_end : (c : ℕ) (s : Text) → rstrip s ≡ s → rstrip (trim_end c s) ≡ trim_end c s
unfolding rstrip
rstrip-trim_end c [] h = ground arith
rstrip-trim_end c (d ∷ s) h = rw h

rstrip-rstrip : (s : Text) → rstrip (rstrip s) ≡ rstrip s
unfolding rstrip
rstrip-rstrip [] = refl
rstrip-rstrip (c ∷ s) = rstrip-trim_end c (rstrip s) (rstrip-rstrip s)

lstrip_of_BeginsClean : (s : Text) → BeginsClean s → lstrip s ≡ s
unfolding lstrip
lstrip_of_BeginsClean [] h = refl
lstrip_of_BeginsClean (c ∷ s) h = rw h

-- `strip` of a text that was stripped changes nothing.
pub strip-strip : (s : Text) → strip (strip s) ≡ strip s
unfolding strip
strip-strip s =
    let kept = lstrip_of_BeginsClean (strip s) (strip-BeginsClean s) in
    ap rstrip kept ∙ rstrip-rstrip (lstrip s)
