-- ===== src/Dashboard/RcaForm.antt =====
-- The RCA tab of dashboard/app.py, and the form that the backend reads from it. FastAPI and pydantic,
-- which read the JSON, are parameters.
pub mod Complete
use ims_prakash.Base.{ℕ, zero, suc, ◌≡◌, Option, none, some, List, [], ◌∷◌, ◌==◌, if◌then◌else◌}
use ims_prakash.Text.{Text}
use ims_prakash.Datetime.{Datetime}
use ims_prakash.Enums.{RootCauseCategory, category_value}
use ims_prakash.Models.{RcaIn}
use ims_prakash.Services.{Clock}
use ims_prakash.Dashboard.{root_cause_categories}

pub record Payload : Type 0 where
  pub root_cause_category : Text
  pub fix_applied : Text
  pub prevention : Text
  pub rca_start_time : Text
  pub rca_end_time : Text

-- Both times are readings of the clock when the button is pressed, the start first.
unfoldable pub payload : (c : Clock) → Text → Text → Text → c.Time → Payload × c.Time
payload c category fix prev t =
    let (start, t1) = c.now t in
    let (end, t2) = c.now t1 in
    (
      record {
        root_cause_category = category;
        fix_applied = fix;
        prevention = prev;
        rca_start_time = c.isoformat start;
        rca_end_time = c.isoformat end;
      },
      t2,
    )

-- What the page shows for the answer.
pub data Shown {ℓ} (A : Type ℓ) : Type ℓ where
  success : Shown A
  error : A → Shown A

unfoldable pub shown {ℓ} : {A : Type ℓ} → ℕ → A → Shown A
shown code resp = if code == 200 then success else error resp

-- How the fields of the body are read: an enumeration by its value, and a time from the text that
-- `isoformat` writes.
pub record FormReader (c : Clock) : Type 0 where
  pub category : Text → Option RootCauseCategory
  pub datetime : Text → Option Datetime
  pub category_by_value : (k : RootCauseCategory) → category (category_value k) ≡ some k
  pub datetime-isoformat : (d : Datetime) → datetime (c.isoformat d) ≡ some d

infixl 5 ◌>>=◌
abbrev ◌>>=◌ : {A B : Type 0} → Option A → (A → Option B) → Option B
none >>= f = none
some a >>= f = f a

-- The form in the types of the schema, before its validators run.
unfoldable pub read_form : {c : Clock} → FormReader c → Payload → Option RcaIn
read_form r p = do
  category ← r.category p.root_cause_category
  start ← r.datetime p.rca_start_time
  end ← r.datetime p.rca_end_time
  some (record {
    root_cause_category = category;
    fix_applied = p.fix_applied;
    prevention = p.prevention;
    rca_start_time = start;
    rca_end_time = end;
  })
