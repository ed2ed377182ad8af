-- ===== src/RcaValidator/Complete.antt =====
-- What an RCA that passes `validate` (backend/app/rca_validator.py) has, and what a refusal reports.
use ims_prakash.Base.{
  ℕ, ◌≡◌, ◌≢◌, ◌↔◌, refl, Bool, true, false, not, Option, none, some, List, [], ◌∷◌, arith,
  if◌then◌else◌,
}
use ims_prakash.Text.{strip, truthy}
use ims_prakash.Datetime.{Datetime, earlier, MixedZones}
use ims_prakash.Errors.{
  ok, err, RcaField, root_cause_category, fix_applied, prevention, rca_start_time, rca_end_time,
  type_error,
}
use ims_prakash.RcaValidator.{
  Value, nothing, str, time, RcaLike, validate, blank, is_datetime, backwards, complain,
}

-- The value is a text with something besides white space.
abbrev pub HasText : Value → Type 0
HasText (str t) = strip t ≢ []
HasText _ = ⊥

-- Both ends are times of the same kind, in order.
abbrev pub HasSpan : Value → Value → Type 0
HasSpan (time s) (time e) = earlier e s ≡ ok false
HasSpan _ _ = ⊥

pub record IsComplete (r : RcaLike) : Type 0 where
  pub has_category : HasText r.category
  pub has_fix : HasText r.fix
  pub has_prevention : HasText r.prevent
  pub has_span : HasSpan r.start r.end

abbrev pub IsCompleteRca : Option RcaLike → Type 0
IsCompleteRca none = ⊥
IsCompleteRca (some r) = IsComplete r

blank-false_iff : (v : Value) → (blank v ≡ false) ↔ HasText v
unfolding blank
blank-false_iff (str t) = filled (strip t)
  where
    filled : (t : List ℕ) → (not (truthy t) ≡ false) ↔ (t ≢ [])
    filled [] = ((λ h. cc), (λ h. absurd (h refl)))
    filled (c ∷ t) = ((λ h e. cc), (λ h. refl))
blank-false_iff (time d) = ground arith
blank-false_iff _ = ground arith

complain-ok_iff : (l : List RcaField) → (complain l ≡ ok tt) ↔ (l ≡ [])
complain-ok_iff [] = ground arith
complain-ok_iff (f ∷ l) = ground arith

in_order_iff :
    (s e : Value)
    → ((backwards s e ≡ ok false) × (is_datetime s ≡ true) × (is_datetime e ≡ true)) ↔ HasSpan s e
unfolding backwards is_datetime
in_order_iff (time s) (time e) = ((λ h. h.0), (λ h. (h, refl, refl)))
in_order_iff (time s) nothing = ground arith
in_order_iff s e = ground arith

sound : (r : RcaLike) → validate (some r) ≡ ok tt → IsComplete r
unfolding validate
sound r h = record {
  has_category = (blank-false_iff r.category).0 (ground arith);
  has_fix = (blank-false_iff r.fix).0 (ground arith);
  has_prevention = (blank-false_iff r.prevent).0 (ground arith);
  has_span = (in_order_iff r.start r.end).0 (ground arith);
}

complete : (r : RcaLike) → IsComplete r → validate (some r) ≡ ok tt
unfolding validate
complete r h =
    let (order, starts, ends) = (in_order_iff r.start r.end).1 h.has_span in
    rw (
      order,
      starts,
      ends,
      (blank-false_iff r.category).1 h.has_category,
      (blank-false_iff r.fix).1 h.has_fix,
      (blank-false_iff r.prevent).1 h.has_prevention,
    )

-- `validate` accepts exactly the complete RCAs.
pub validate-eq-ok_iff : (o : Option RcaLike) → (validate o ≡ ok tt) ↔ IsCompleteRca o
validate-eq-ok_iff none = ((λ h. unfold validate in cc), (λ h. absurd h))
validate-eq-ok_iff (some r) = (sound r, complete r)

-- Where both times are set, `validate` raises a `TypeError` exactly when one is naive and one aware.
pub validate-type_error_iff :
    (r : RcaLike) (s e : Datetime)
    → r.start ≡ time s
    → r.end ≡ time e
    → (validate (some r) ≡ err type_error) ↔ MixedZones e s
unfolding validate backwards earlier
validate-type_error_iff r s e hs he = rw (hs, he) (ground arith)

-- A field that `validate` has to complain about.
abbrev pub faulty : RcaLike → RcaField → Bool
faulty r root_cause_category = blank r.category
faulty r fix_applied = blank r.fix
faulty r prevention = blank r.prevent
faulty r rca_start_time = not (is_datetime r.start)
faulty r rca_end_time = not (is_datetime r.end)
faulty r _ = false

pub all_fields : List RcaField
all_fields = root_cause_category ∷ fix_applied ∷ prevention ∷ rca_start_time ∷ rca_end_time ∷ []

pub faults : RcaLike → List RcaField → List RcaField
faults r [] = []
faults r (f ∷ fs) = let rest = faults r fs in if faulty r f then f ∷ rest else rest

-- Unless the two times are out of order or do not compare, `validate` reports all the faulty fields
-- and no other, in the order of the source, and accepts if there is none.
pub validate_reports :
    (r : RcaLike)
    → backwards r.start r.end ≡ ok false
    → validate (some r) ≡ complain (faults r all_fields)
unfolding validate faults all_fields
validate_reports r h = rw h (ground arith)
