-- ===== src/Scripts/Load/Accepted.antt =====
-- The signals of scripts/locustfile.py at the schema of backend/app/models.py.
use ims_prakash.Base.{
  some-injective, ℕ, ◌≡◌, refl, inl, inr, Option-cases, leb, Bool, true, ◌&&◌, some, List, [], ◌∷◌,
  length, All, get_elem?, get_elem?-All, arith,
}
use ims_prakash.Text.{Text, text_eq, strip, lstrip, rstrip, is_space}
use ims_prakash.Text.Decimal.{str_of}
use ims_prakash.Enums.{ComponentType, Severity, component_value, severity_value}
use ims_prakash.Errors.{ok}
use ims_prakash.Storage.RedisCache.LiveFeed.{text_eq→≡}
use ims_prakash.Models.{SignalIn, Pydantic, signal_in, strip_component}
use ims_prakash.Scripts.Outage.{SignalDoc}
use ims_prakash.Scripts.Load.{
  component_types, components_by_type, severities, names_from, Draws, load_signal,
}

-- The schema takes the name, and `strip` leaves it.
is_name : Text → Bool
is_name t = leb 1 (length t) && leb (length t) 128 && text_eq (strip t) t

module _ {A : Type 0} (p : A → Bool) where
  all_of : List A → Bool
  all_of [] = true
  all_of (x ∷ xs) = p x && all_of xs

  all_of-All : (xs : List A) → all_of xs ≡ true → All (λ x. p x ≡ true) xs
  unfolding all_of
  all_of-All [] h = tt
  all_of-All (x ∷ xs) h = (ground (arith, h), all_of-All xs (ground (arith, h)))

names_tested : all_of (λ ctype. all_of is_name (components_by_type ctype)) component_types ≡ true
unfolding all_of is_name components_by_type names_from str_of strip lstrip rstrip is_space
names_tested = refl

name_at :
    (i j : ℕ) (ctype cid : Text)
    → get_elem? component_types i ≡ some ctype
    → get_elem? (components_by_type ctype) j ≡ some cid
    → is_name cid ≡ true
name_at i j ctype cid is_type is_cid =
    let every =
      all_of-All (λ t. all_of is_name (components_by_type t)) component_types names_tested in
    let of_type =
      get_elem?-All (λ t. all_of is_name (components_by_type t) ≡ true) component_types i ctype
        every is_type in
    get_elem?-All (λ n. is_name n ≡ true) (components_by_type ctype) j cid
      (all_of-All is_name (components_by_type ctype) of_type) is_cid

abbrev pub IsType : Text → Type 0
IsType t = (c : ComponentType) × (t ≡ component_value c)

abbrev pub IsSeverity : Text → Type 0
IsSeverity t = (v : Severity) × (t ≡ severity_value v)

types-IsType : All IsType component_types
unfolding component_value
types-IsType = (
  (ComponentType.cache, refl),
  (
    (ComponentType.rdbms, refl),
    (
      (ComponentType.api, refl),
      ((ComponentType.mcp, refl), ((ComponentType.queue, refl), ((ComponentType.nosql, refl), tt))),
    ),
  ),
)

severities-IsSeverity : All IsSeverity severities
unfolding severity_value
severities-IsSeverity = (
  (Severity.info, refl),
  ((Severity.warn, refl), ((Severity.error, refl), ((Severity.critical, refl), tt))),
)

-- What the task draws.
record Drawn (doc : SignalDoc) : Type 0 where
  name : is_name doc.component_id ≡ true
  of_type : IsType doc.component_type
  of_severity : IsSeverity doc.severity

load_signal-Drawn : (d : Draws) (doc : SignalDoc) → load_signal d ≡ some doc → Drawn doc
unfolding load_signal
load_signal-Drawn d doc h = elim (Option-cases (get_elem? component_types d.i)) [
  | inl no_type ↦ cc (rw no_type at h)
  | inr (ctype, is_type) ↦ elim (Option-cases (get_elem? (components_by_type ctype) d.j)) [
    | inl no_name ↦ cc (rw (is_type, no_name) at h)
    | inr (cid, is_cid) ↦ elim (Option-cases (get_elem? severities d.k)) [
      | inl no_severity ↦ cc (rw (is_type, is_cid, no_severity) at h)
      | inr (severity, is_severity) ↦
          rw (← some-injective _ doc (rw (is_type, is_cid, is_severity) at h)) (record {
            name = name_at d.i d.j ctype cid is_type is_cid;
            of_type = get_elem?-All IsType component_types d.i ctype types-IsType is_type;
            of_severity =
                get_elem?-All IsSeverity severities d.k severity severities-IsSeverity is_severity;
          })
    ]
  ]
]

-- Whatever the task draws, the type and the severity in its payload are values of the backend's
-- enumerations, and the schema accepts the signal that is read from the payload, as it is.
pub load_signal-accepted :
    (p : Pydantic) (d : Draws) (doc : SignalDoc) (s : SignalIn)
    → load_signal d ≡ some doc
    → s.component_id ≡ doc.component_id
    → IsType doc.component_type × IsSeverity doc.severity × (signal_in p s ≡ ok s)
unfolding signal_in strip_component is_name
load_signal-accepted p d doc s drawn read =
    let facts = load_signal-Drawn d doc drawn in
    let name : is_name s.component_id ≡ true = rw read facts.name in
    let trimmed : strip s.component_id ≡ s.component_id =
      text_eq→≡ (strip s.component_id) s.component_id (ground (arith, name)) in
    let long_enough = (p.min_length_iff 1 s.component_id).1 (ground (arith, name)) in
    let short_enough = (p.max_length_iff 128 s.component_id).1 (ground (arith, name)) in
    (facts.of_type, facts.of_severity, rw (long_enough, short_enough, trimmed) refl)
