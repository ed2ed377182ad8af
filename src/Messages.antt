-- ===== src/Messages.antt =====
-- The texts of the exceptions of backend/app/rca_validator.py and backend/app/patterns/states.py.
use ims_prakash.Base.{Option, none, some, List, [], ◌∷◌, ◌++◌}
use ims_prakash.Text.{Text, codes}
use ims_prakash.Enums.{state_value}
use ims_prakash.Errors.{
  Error, RcaField, root_cause_category, fix_applied, prevention, rca_start_time, rca_end_time,
  end_must_not_precede_start, rca_required_error, rca_incomplete_error, illegal_transition_error,
}

-- The entries of `missing`.
unfoldable pub field_name : RcaField → Text
field_name root_cause_category = codes "root_cause_category"
field_name fix_applied = codes "fix_applied"
field_name prevention = codes "prevention"
field_name rca_start_time = codes "rca_start_time"
field_name rca_end_time = codes "rca_end_time"
field_name end_must_not_precede_start = codes "rca_end_time must be >= rca_start_time"

-- `", ".join(missing)`.
unfoldable pub join : List RcaField → Text
unfolding field_name
join [] = []
join (f ∷ []) = field_name f
join (f ∷ g ∷ rest) = field_name f ++ (codes ", " ++ join (g ∷ rest))

-- `str` of an exception that carries a text of its own.
unfoldable pub message : Error → Option Text
unfolding join state_value
message rca_required_error = some (codes "RCA is required to close a work item")
message (rca_incomplete_error missing) =
    some (codes "RCA incomplete; missing or blank: " ++ join missing)
message (illegal_transition_error source target) =
    some
      (codes "illegal transition: " ++ (state_value source ++ (codes " -> " ++ state_value target)))
message _ = none
