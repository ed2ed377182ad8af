-- ===== src/Dashboard/RcaForm/Complete.antt =====
-- An RCA from the dashboard (dashboard/app.py) at the backend: backend/app/models.py and
-- backend/app/incidents_api.py.
use ims_prakash.Base.{
  some-injective, get_elem?, get_elem?-All, ℕ, ◌≡◌, refl, sym, ◌∙◌, false, some, [], All,
}
use ims_prakash.Base.Int.{ℤ}
use ims_prakash.Text.{Text}
use ims_prakash.Datetime.{Datetime, earlier}
use ims_prakash.Enums.{RootCauseCategory, category_value}
use ims_prakash.Errors.{ok}
use ims_prakash.Models.{Rca, RcaIn, Pydantic, rca_in, TextFunctions, violated_checks}
use ims_prakash.RcaValidator.{rca_like}
use ims_prakash.RcaValidator.Complete.{IsComplete}
use ims_prakash.Services.{Clock}
use ims_prakash.Services.Laws.{HasValues}
use ims_prakash.IncidentsApi.{new_rca}
use ims_prakash.IncidentsApi.Submissions.{submitted-IsComplete, rca_in-times}
use ims_prakash.IncidentsApi.Checks.{submitted-violated_checks}
use ims_prakash.Dashboard.{root_cause_categories}
use ims_prakash.Dashboard.RcaForm.{payload, FormReader, read_form}

abbrev IsOffered : Text → Type 0
IsOffered t = (k : RootCauseCategory) × (t ≡ category_value k)

categories-IsOffered : All IsOffered root_cause_categories
unfolding category_value
categories-IsOffered = (
  (RootCauseCategory.infrastructure, refl),
  (
    (RootCauseCategory.network, refl),
    (
      (RootCauseCategory.code_defect, refl),
      (
        (RootCauseCategory.config, refl),
        (
          (RootCauseCategory.capacity, refl),
          (
            (RootCauseCategory.dependency, refl),
            (
              (RootCauseCategory.human_error, refl),
              ((RootCauseCategory.security, refl), ((RootCauseCategory.unknown, refl), tt)),
            ),
          ),
        ),
      ),
    ),
  ),
)

module _ (c : Clock) (r : FormReader c) (t : c.Time) where
  abbrev pressed : Datetime
  pressed = (c.now t).0

  abbrev pressed_next : Datetime
  pressed_next = (c.now (c.now t).1).0

  -- The backend reads every choice of the page.
  read_form-payload :
      (i : ℕ) (category fix prev : Text)
      → get_elem? root_cause_categories i ≡ some category
      → (form : RcaIn) × (read_form r (payload c category fix prev t).0 ≡ some form)
        × (form.rca_start_time ≡ pressed)
        × (form.rca_end_time ≡ pressed_next)
  unfolding read_form payload
  read_form-payload i category fix prev chosen =
      let (k, is_k) =
        get_elem?-All IsOffered root_cause_categories i category categories-IsOffered chosen in
      (
        record {
          root_cause_category = k;
          fix_applied = fix;
          prevention = prev;
          rca_start_time = pressed;
          rca_end_time = pressed_next;
        },
        rw
            (
              is_k,
              r.category_by_value k,
              r.datetime-isoformat pressed,
              r.datetime-isoformat pressed_next,
            )
            refl,
        refl,
        refl,
      )

  -- With a category that the page offers, a clock that does not run backwards between its two
  -- readings, and PostgreSQL's `btrim`: if the schema accepts the form that the backend reads from
  -- the page's payload, then every row with the values that the handler stores has all that closing
  -- asks for and violates no constraint of the table.
  pub payload-IsComplete :
      (f : TextFunctions) (p : Pydantic) (i : ℕ) (category fix prev : Text) (form body : RcaIn)
      (z : ℤ) (row : Rca)
      → get_elem? root_cause_categories i ≡ some category
      → earlier pressed_next pressed ≡ ok false
      → read_form r (payload c category fix prev t).0 ≡ some form
      → rca_in p form ≡ ok body
      → HasValues (new_rca z body) row
      → IsComplete (rca_like row) × (violated_checks f row ≡ [])
  payload-IsComplete f p i category fix prev form body z row chosen order read accepted stored =
      let (found, is_read, starts, ends) = read_form-payload i category fix prev chosen in
      let same : found ≡ form = some-injective found form (sym is_read ∙ read) in
      let (same_start, same_end) = rca_in-times p form body accepted in
      let in_order : earlier body.rca_end_time body.rca_start_time ≡ ok false =
        rw (same_start, same_end, ← same, starts, ends) order in
      (
        submitted-IsComplete p form body z row accepted in_order stored,
        submitted-violated_checks f p form body z row accepted in_order stored,
      )
