-- ===== src/Dashboard/History.antt =====
-- The points that the throughput graph of dashboard/app.py keeps.
use mathlib.Core.List.{append_assoc, append-nil}
use ims_prakash.Base.{
  ℕ, zero, suc, ◌+◌, ◌-◌, ◌≤◌, ◌≡◌, refl, sym, ap, ◌∙◌, List, [], ◌∷◌, ◌++◌, length, drop,
  length-append, length-drop, arith,
}
use ims_prakash.Dashboard.{
  Point, Sample, no_throughput, sample, unreadable, last_points, throughput_history,
}

-- The points of a list of renderings.
pub points : List Sample → List Point
points [] = []
points (no_throughput ∷ ss) = points ss
points (unreadable ∷ ss) = points ss
points (sample p ∷ ss) = p ∷ points ss

-- The history after all renderings.
pub after_samples : List Point → List Sample → List Point
after_samples history [] = history
after_samples history (s ∷ ss) = after_samples (throughput_history history s) ss

module _ {A : Type 0} where
  drop_nil : (n : ℕ) → drop {A = A} n [] ≡ []
  drop_nil zero = refl
  drop_nil (suc n) = refl

  drop-drop : (m n : ℕ) (xs : List A) → drop m (drop n xs) ≡ drop (m + n) xs
  drop-drop m zero xs = ap (λ (k : ℕ). drop k xs) (omega arith)
  drop-drop m (suc n) [] = drop_nil m ∙ sym (drop_nil (m + suc n))
  drop-drop m (suc n) (x ∷ xs) =
      let shift : suc (m + n) ≡ m + suc n = omega arith in
      drop-drop m n xs ∙ ap (λ (k : ℕ). drop k (x ∷ xs)) shift

  drop-append : (n : ℕ) (xs ys : List A) → n ≤ length xs → drop n (xs ++ ys) ≡ drop n xs ++ ys
  drop-append zero xs ys h = refl
  drop-append (suc n) [] ys h = absurd (omega (arith, h))
  drop-append (suc n) (x ∷ xs) ys h = drop-append n xs ys (omega (arith, h))

  -- Cutting before one more point changes nothing after the cut.
  last_points-last_points :
      (n : ℕ) (xs : List A) (x : A)
      → last_points n (last_points n xs ++ x ∷ []) ≡ last_points n (xs ++ x ∷ [])
  last_points-last_points n xs x =
      ap (last_points n) (sym (drop-append k xs (x ∷ []) (omega arith)))
      ∙ drop-drop (length (drop k more) - n) k more
      ∙ ap (λ (m : ℕ). drop m more) same
    where
      k : ℕ
      k = length xs - n

      more : List A
      more = xs ++ x ∷ []

      same : (length (drop k more) - n) + k ≡ length more - n
      same = omega (arith, length-drop k more, length-append xs (x ∷ []))

  length-last_points : (n : ℕ) (xs : List A) → length (last_points n xs) ≤ n
  length-last_points n xs = omega (arith, length-drop (length xs - n) xs)

after_samples_last :
    (xs : List Point) (ss : List Sample)
    → after_samples (last_points 20 xs) ss ≡ last_points 20 (xs ++ points ss)
unfolding after_samples points throughput_history
after_samples_last xs [] = ap (last_points 20) (sym (append-nil xs))
after_samples_last xs (no_throughput ∷ ss) = after_samples_last xs ss
after_samples_last xs (unreadable ∷ ss) = after_samples_last xs ss
after_samples_last xs (sample p ∷ ss) =
    ap (λ (h : List Point). after_samples h ss) (last_points-last_points 20 xs p)
    ∙ after_samples_last (xs ++ p ∷ []) ss
    ∙ ap (last_points 20) (append_assoc xs (p ∷ []) (points ss))

-- Over any renderings of the page, the graph shows the last 20 of all points that were read, in
-- order; so it never shows more than 20.
pub after_samples_lem :
    (ss : List Sample)
    → (after_samples [] ss ≡ last_points 20 (points ss)) × (length (after_samples [] ss) ≤ 20)
after_samples_lem ss =
    let same = after_samples_last [] ss in (same, rw same (length-last_points 20 (points ss)))
