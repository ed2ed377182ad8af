-- ===== src/RcaValidator.antt =====
-- backend/app/rca_validator.py. `RCALike` is duck typed and read by `getattr(…, None)`, so each field
-- is a value of any kind; an attribute that is not there reads as `nothing`.
pub mod Complete
use ims_prakash.Base.{
  Bool, true, false, not, Option, none, some, List, [], ◌∷◌, ◌++◌, if◌then◌else◌,
}
use ims_prakash.Text.{Text, strip, truthy}
use ims_prakash.Datetime.{Datetime, earlier}
use ims_prakash.Errors.{
  Result, ok, err, ◌>>=◌, RcaField, root_cause_category, fix_applied, prevention, rca_start_time,
  rca_end_time, end_must_not_precede_start, rca_required_error, rca_incomplete_error,
}
use ims_prakash.Models.{Rca}

pub data Value : Type 0 where
  nothing other : Value
  str : Text → Value
  time : Datetime → Value

pub record RcaLike : Type 0 where
  pub category : Value
  pub fix : Value
  pub prevent : Value
  pub start : Value
  pub end : Value

-- A stored row seen through the protocol.
unfoldable pub rca_like : Rca → RcaLike
rca_like r = record {
  category = str r.root_cause_category;
  fix = str r.fix_applied;
  prevent = str r.prevention;
  start = time r.rca_start_time;
  end = time r.rca_end_time;
}

abbrev pub required_fields : List RcaField
required_fields = root_cause_category ∷ fix_applied ∷ prevention ∷ []

unfoldable pub getattr : RcaLike → RcaField → Value
getattr r root_cause_category = r.category
getattr r fix_applied = r.fix
getattr r prevention = r.prevent
getattr r rca_start_time = r.start
getattr r rca_end_time = r.end
getattr r end_must_not_precede_start = nothing

-- `value is None or not isinstance(value, str) or not value.strip()`.
unfoldable pub blank : Value → Bool
blank (str s) = not (truthy (strip s))
blank _ = true

unfoldable pub is_datetime : Value → Bool
is_datetime (time _) = true
is_datetime _ = false

unfoldable pub missing_texts : RcaLike → List RcaField → List RcaField
unfolding getattr
missing_texts r [] = []
missing_texts r (f ∷ fs) =
    let rest = missing_texts r fs in if blank (getattr r f) then f ∷ rest else rest

unfoldable pub missing_times : RcaLike → List RcaField
unfolding is_datetime
missing_times r =
    (if is_datetime r.start then [] else rca_start_time ∷ [])
    ++ (if is_datetime r.end then [] else rca_end_time ∷ [])

-- `isinstance(start, datetime) and isinstance(end, datetime) and end < start`.
unfoldable pub backwards : Value → Value → Result Bool
backwards (time s) (time e) = earlier e s
backwards _ _ = ok false

abbrev pub complain : List RcaField → Result (Unit {0})
complain [] = ok tt
complain (f ∷ fs) = err (rca_incomplete_error (f ∷ fs))

unfoldable pub validate : Option RcaLike → Result (Unit {0})
unfolding missing_texts missing_times backwards
validate none = err rca_required_error
validate (some r) = do
  late ← backwards r.start r.end
  if late
      then err (rca_incomplete_error (end_must_not_precede_start ∷ []))
      else complain (missing_texts r required_fields ++ missing_times r)
