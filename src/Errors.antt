-- ===== src/Errors.antt =====
-- What the backend raises, as values: its own exceptions (rca_validator.py, patterns/states.py),
-- the HTTP errors of incidents_api.py, and the exceptions of Python and of the clients.
use ims_prakash.Base.{ℕ, ◌≡◌, refl, ◌⊎◌, inl, inr, List}
use ims_prakash.Base.Int.{ℤ}
use ims_prakash.Enums.{WorkItemState}

-- The entries of `RCAIncompleteError.missing`. The last is the text of the order complaint.
pub data RcaField : Type 0 where
  root_cause_category fix_applied prevention rca_start_time rca_end_time : RcaField
  end_must_not_precede_start : RcaField

-- The `detail` of an `HTTPException`.
pub data Detail : Type 0 where
  work_item_not_found : ℤ → Detail
  rca_required rca_time_range : Detail
  rca_incomplete : List RcaField → Detail
  illegal_transition : WorkItemState → WorkItemState → Detail

pub data Error : Type 0 where
  rca_required_error : Error
  rca_incomplete_error : List RcaField → Error
  illegal_transition_error : WorkItemState → WorkItemState → Error
  http_exception : ℕ → Detail → Error
  type_error attribute_error key_error value_error zero_division_error assertion_error runtime_error
        queue_full :
      Error
  -- `sqlalchemy.exc.OperationalError`, the one that the storage layer retries on.
  operational_error : Error
  -- Any other exception of a client library.
  client_error : ℕ → Error

pub data Result {ℓ} (A : Type ℓ) : Type ℓ where
  ok : A → Result A
  err : Error → Result A

-- Splitting on a result, with its equation.
pub Result-cases {ℓ} :
    {A : Type ℓ} (r : Result A) → ((a : A) × (r ≡ ok a)) ⊎ ((x : Error) × (r ≡ err x))
Result-cases (err x) = inr (x, refl)
Result-cases (ok a) = inl (a, refl)

-- What follows a call is not reached where the call raised.
module _ {A B : Type 0} where
  infixl 5 ◌>>=◌
  abbrev pub ◌>>=◌ : Result A → (A → Result B) → Result B
  err x >>= next = err x
  ok a >>= next = next a

module _ {B : Type 0} where
  infixl 5 ◌>>◌
  abbrev pub ◌>>◌ : Result (Unit {0}) → Result B → Result B
  first >> next = first >>= λ done. next

pub >>=-eq-ok :
    {A B : Type 0} (m : Result A) (f : A → Result B) (b : B)
    → (m >>= f) ≡ ok b
    → (a : A) × (m ≡ ok a) × (f a ≡ ok b)
>>=-eq-ok (ok a) f b h = (a, refl, h)
>>=-eq-ok (err e) f b h = cc
