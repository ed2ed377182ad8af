-- ===== src/IncidentsApi/Submissions.antt =====
-- `POST /incidents/{id}/rca` of backend/app/incidents_api.py, with the form of backend/app/models.py.
use ims_prakash.Base.{◌≡◌, ◌≢◌, refl, ap, ◌∙◌, inl, inr, true, false, some, [], ◌∷◌, Bool-cases}
use ims_prakash.Base.Int.{ℤ}
use ims_prakash.Text.{Text, strip, rstrip, lstrip, is_space, truthy}
use ims_prakash.Text.Strip.{strip-strip}
use ims_prakash.Datetime.{earlier, stored-earlier}
use ims_prakash.Enums.{RootCauseCategory, category_value}
use ims_prakash.Errors.{ok, err, >>=-eq-ok, http_exception, rca_time_range}
use ims_prakash.Effects.{◌>>=◌, lift, raise, pure}
use ims_prakash.Models.{WorkItem, Rca, RcaIn, Pydantic, rca_in, not_blank, require_that}
use ims_prakash.RcaValidator.{rca_like}
use ims_prakash.RcaValidator.Complete.{IsComplete}
use ims_prakash.Services.{Services, Sql}
use ims_prakash.Services.Laws.{HasValues}
use ims_prakash.World.{World, on_db}
use ims_prakash.Storage.PostgresRepo.{get_work_item}
use ims_prakash.IncidentsApi.{submit_rca, new_rca, find_item, or_not_found}

nonempty : (t : Text) → truthy t ≡ true → t ≢ []
nonempty [] h e = cc
nonempty (c ∷ t) h e = cc

not_blank-HasText : (v t : Text) → not_blank v ≡ ok t → strip t ≢ []
unfolding not_blank
not_blank-HasText v t h = elim (Bool-cases (truthy (strip v))) [
  | inl filled ↦ let same : t ≡ strip v = cc in rw (same, strip-strip v) (nonempty (strip v) filled)
  | inr empty ↦ cc
]

truthy-category : (c : RootCauseCategory) → truthy (strip (category_value c)) ≡ true
unfolding category_value strip rstrip lstrip is_space
truthy-category RootCauseCategory.infrastructure = refl
truthy-category _ = refl

texts_accepted :
    (p : Pydantic) (raw body : RcaIn)
    → rca_in p raw ≡ ok body
    → (strip body.fix_applied ≢ []) × (strip body.prevention ≢ [])
unfolding rca_in
texts_accepted p raw body h =
    let (_, _, h1) = >>=-eq-ok (require_that (p.min_length 1 raw.fix_applied)) _ body h in
    let (fix, y, h2) = >>=-eq-ok (not_blank raw.fix_applied) _ body h1 in
    let (_, _, h3) = >>=-eq-ok (require_that (p.min_length 1 raw.prevention)) _ body h2 in
    let (prev, u, h4) = >>=-eq-ok (not_blank raw.prevention) _ body h3 in
    (
      (λ e. not_blank-HasText raw.fix_applied fix y (ap strip (cc) ∙ e)),
      (λ e. not_blank-HasText raw.prevention prev u (ap strip (cc) ∙ e)),
    )

-- The three texts that the handler stores are not blank.
pub texts_complete :
    (p : Pydantic) (raw body : RcaIn)
    → rca_in p raw ≡ ok body
    → (strip (category_value body.root_cause_category) ≢ [])
      × (strip body.fix_applied ≢ [])
      × (strip body.prevention ≢ [])
texts_complete p raw body accepted =
    let (fix, prevention) = texts_accepted p raw body accepted in
    (nonempty _ (truthy-category body.root_cause_category), fix, prevention)

-- The schema leaves the times as they are.
pub rca_in-times :
    (p : Pydantic) (raw body : RcaIn)
    → rca_in p raw ≡ ok body
    → (body.rca_start_time ≡ raw.rca_start_time) × (body.rca_end_time ≡ raw.rca_end_time)
unfolding rca_in
rca_in-times p raw body h =
    let (_, _, h1) = >>=-eq-ok (require_that (p.min_length 1 raw.fix_applied)) _ body h in
    let (fix, y, h2) = >>=-eq-ok (not_blank raw.fix_applied) _ body h1 in
    let (_, _, h3) = >>=-eq-ok (require_that (p.min_length 1 raw.prevention)) _ body h2 in
    let (prev, u, h4) = >>=-eq-ok (not_blank raw.prevention) _ body h3 in (cc, cc)

module _ (p : Pydantic) (raw body : RcaIn) (i : ℤ) (r : Rca) where
  -- A form that the schema accepts and whose times compare in order gives a complete RCA: any row
  -- with the values that the handler stores has all that closing asks for.
  pub submitted-IsComplete :
      rca_in p raw ≡ ok body
      → earlier body.rca_end_time body.rca_start_time ≡ ok false
      → HasValues (new_rca i body) r
      → IsComplete (rca_like r)
  unfolding new_rca rca_like
  submitted-IsComplete accepted order stored =
      let (fix, prevention) = texts_accepted p raw body accepted in
      record {
        has_category = rw stored.category (nonempty _ (truthy-category body.root_cause_category));
        has_fix = rw stored.fix fix;
        has_prevention = rw stored.prevention prevention;
        has_span =
            stored-earlier stored.local body.rca_end_time body.rca_start_time r.rca_end_time
              r.rca_start_time order stored.ends stored.starts;
      }

module _ (s : Services) (w : World s) (i : ℤ) (body : RcaIn) (wi : WorkItem)
    (d : Sql.Db s.sql) where
  -- Where the item was found, an RCA that ends before it starts is answered by 400, and nothing
  -- more is called.
  pub submit_rca_late :
      get_work_item s.sql i w.db ≡ (ok (some wi), d)
      → earlier body.rca_end_time body.rca_start_time ≡ ok true
      → submit_rca s body i w ≡ (err (http_exception 400 rca_time_range), record w { db = d })
  unfolding submit_rca find_item or_not_found ◌>>=◌ on_db lift raise pure
  submit_rca_late found late = rw (found, late)
