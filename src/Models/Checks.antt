-- ===== src/Models/Checks.antt =====
-- The CHECK constraints of the table `rca` in backend/app/models.py. PostgreSQL's text functions are a
-- parameter.
use ims_prakash.Base.{◌≡◌, Bool, false, List, [], ◌∷◌, ◌++◌, not, length, ltb, All, if◌then◌else◌}
use ims_prakash.Text.{Text, codes}
use ims_prakash.Datetime.{Datetime, earlier}
use ims_prakash.Errors.{ok, err}
use ims_prakash.Models.Rows.{Rca}

-- `btrim` takes spaces off both ends, so what it empties was spaces only.
pub record TextFunctions : Type 0 where
  pub btrim : Text → Text
  pub btrim_empties : (t : Text) → length (btrim t) ≡ 0 → All (λ c. c ≡ b' ') t

-- `a >= b` of two `timestamptz`, which are instants.
unfoldable pub at_or_after : Datetime → Datetime → Bool
at_or_after a b = elim (earlier a b) [ ok before ↦ not before | err e ↦ false ]

abbrev unless : Bool → Text → List Text
unless holds name = if holds then [] else name ∷ []

module _ (f : TextFunctions) where
  unfoldable pub not_blank_check : Text → Bool
  not_blank_check t = ltb 0 (length (f.btrim t))

  -- The names of the constraints that a row violates.
  unfoldable pub violated_checks : Rca → List Text
  unfolding at_or_after not_blank_check
  violated_checks r =
      unless (not_blank_check r.fix_applied) (codes "rca_fix_applied_not_blank")
      ++ (unless (not_blank_check r.prevention) (codes "rca_prevention_not_blank")
          ++ (unless (not_blank_check r.root_cause_category) (codes "rca_category_not_blank")
              ++ unless (at_or_after r.rca_end_time r.rca_start_time)
                  (codes "rca_end_after_start")))
