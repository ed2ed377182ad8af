-- ===== src/Examples/Rules.antt =====
-- The state machine, the RCA check and the time buckets at concrete inputs.
use ims_prakash.Base.{ℕ, ◌≡◌, ◌↔◌, refl, false, none, some}
use ims_prakash.Text.{codes}
use ims_prakash.Datetime.{Datetime, MixedZones}
use ims_prakash.Enums.{WorkItemState, resolved, closed}
use ims_prakash.Errors.{ok, err, type_error}
use ims_prakash.RcaValidator.{RcaLike, str, time, nothing, validate, backwards, complain}
use ims_prakash.RcaValidator.Complete.{
  IsComplete, validate-eq-ok_iff, validate-type_error_iff, validate_reports, faults, all_fields,
}
use ims_prakash.States.{WorkItemLike, transition}
use ims_prakash.States.Gate.{closing, transition-closed_iff}
use ims_prakash.Workers.{bucket_for}
use ims_prakash.Workers.BucketBounds.{IsBucketOf, bucket_for_lem}
use ims_prakash.Examples.Memory.{at}

abbrev good : RcaLike
good = record {
  category = str (codes "CONFIG");
  fix = str (codes "restart");
  prevent = str (codes "limits");
  start = time (at 3);
  end = time (at 5);
}

abbrev wi : WorkItemState → WorkItemLike
wi state = record { state = state; start_time = at 3 }

abbrev naive : ℕ → Datetime
naive n = record { wall = n; tzinfo = none }

abbrev mixed : RcaLike
mixed = record good { end = time (naive 5) }

-- No category, and an end that is no time.
abbrev partial : RcaLike
partial = record good { category = str (codes "  "); end = nothing }

validate-eq-ok_iff_example : (validate (some good) ≡ ok tt) ↔ IsComplete good
validate-eq-ok_iff_example = validate-eq-ok_iff (some good)

validate-type_error_iff_example :
    (validate (some mixed) ≡ err type_error) ↔ MixedZones (naive 5) (at 3)
validate-type_error_iff_example = validate-type_error_iff mixed (at 3) (naive 5) refl refl

not_backwards : backwards partial.start partial.end ≡ ok false
unfolding backwards
not_backwards = refl

validate_reports_example : validate (some partial) ≡ complain (faults partial all_fields)
validate_reports_example = validate_reports partial not_backwards

transition-closed_iff_example :
    (transition (wi resolved) closed (some good) (at 20) ≡ ok (closing (wi resolved) (at 20))) ↔ (
      (resolved ≡ resolved)
      × IsComplete good
      × (closing (wi resolved) (at 20) ≡ closing (wi resolved) (at 20)))
transition-closed_iff_example =
    transition-closed_iff (some good) (at 20) refl (wi resolved) (closing (wi resolved) (at 20))

bucket_for_lem_example :
    (bucket_for (at 90000000) ≡ at 60000000) ↔ IsBucketOf (at 90000000) (at 60000000)
bucket_for_lem_example = bucket_for_lem (at 90000000) (at 60000000)
