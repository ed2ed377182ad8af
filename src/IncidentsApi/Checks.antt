-- ===== src/IncidentsApi/Checks.antt =====
-- The rows that `submit_rca` of backend/app/incidents_api.py writes against the CHECK constraints of
-- backend/app/models.py.
use ims_prakash.Base.{◌≡◌, ◌≢◌, refl, inl, inr, true, false, [], ◌∷◌, All, Bool-cases, arith}
use ims_prakash.Base.Int.{ℤ}
use ims_prakash.Text.{Text, is_space, lstrip, rstrip, strip}
use ims_prakash.Datetime.{earlier}
use ims_prakash.Errors.{ok}
use ims_prakash.Models.{
  Rca, RcaIn, Pydantic, rca_in, TextFunctions, at_or_after, not_blank_check, violated_checks,
}
use ims_prakash.RcaValidator.{rca_like}
use ims_prakash.RcaValidator.Complete.{IsComplete}
use ims_prakash.Services.Laws.{HasValues}
use ims_prakash.IncidentsApi.{new_rca}
use ims_prakash.IncidentsApi.Submissions.{submitted-IsComplete}

strip-spaces : (t : Text) → All (λ c. c ≡ b' ') t → strip t ≡ []
unfolding strip lstrip rstrip is_space
strip-spaces [] h = refl
strip-spaces (c ∷ t) h = rw h.0 (strip-spaces t h.1)

module _ (f : TextFunctions) where
  -- A text that Python does not see as blank is not blank to the database.
  text_passes : (t : Text) → strip t ≢ [] → not_blank_check f t ≡ true
  unfolding not_blank_check
  text_passes t filled = elim (Bool-cases (not_blank_check f t)) [
    | inl passes ↦ passes
    | inr fails ↦ absurd (filled (strip-spaces t (f.btrim_empties t (ground arith))))
  ]

  complete_passes : (r : Rca) → IsComplete (rca_like r) → violated_checks f r ≡ []
  unfolding violated_checks at_or_after rca_like
  complete_passes r h = ground (
    arith,
    text_passes r.fix_applied h.has_fix,
    text_passes r.prevention h.has_prevention,
    text_passes r.root_cause_category h.has_category,
    h.has_span,
  )

  -- With PostgreSQL's `btrim`: if the schema accepted a form and its end does not precede its start,
  -- no row with the values that the handler stores violates a constraint of the table.
  pub submitted-violated_checks :
      (p : Pydantic) (raw body : RcaIn) (i : ℤ) (r : Rca)
      → rca_in p raw ≡ ok body
      → earlier body.rca_end_time body.rca_start_time ≡ ok false
      → HasValues (new_rca i body) r
      → violated_checks f r ≡ []
  submitted-violated_checks p raw body i r accepted order stored =
      complete_passes r (submitted-IsComplete p raw body i r accepted order stored)
