-- ===== src/Datetime.antt =====
-- Python's `datetime`, in microseconds. `wall` is the local clock reading since 0001-01-01 00:00 and
-- `tzinfo` the offset from UTC; a naive value has none. A float of seconds is kept in microseconds.
use ims_prakash.Base.{ℕ, ◌-◌, ◌%◌, Bool, false, ◌≡◌, Option, arith, none, some, ltb}
use ims_prakash.Base.Int.{ℤ, pos, ltb_ℤ, ◌-ℤ◌, -ℤ_parts}
use ims_prakash.Errors.{Result, ok, err, type_error}

pub record Datetime : Type 0 where
  pub wall : ℕ
  pub tzinfo : Option ℤ

abbrev pub utc : ℤ
utc = pos 0

-- The instant of an aware value, in microseconds of UTC.
unfoldable pub instant : ℕ → ℤ → ℤ
unfolding ◌-ℤ◌
instant wall offset = pos wall -ℤ offset

abbrev pub zone_of : ℤ → Option ℤ → ℤ
zone_of local none = local
zone_of local (some z) = z

-- What a column of type `timestamptz` holds of a value: its instant, read back in UTC. A naive value is
-- taken as at the offset `local` of the process.
abbrev pub IsStored : ℤ → Datetime → Datetime → Type 0
IsStored local given x =
    (x.tzinfo ≡ some utc) × (instant x.wall utc ≡ instant given.wall (zone_of local given.tzinfo))

compare_zones : ℕ → ℕ → Option ℤ → Option ℤ → Result Bool
unfolding instant
compare_zones a b none none = ok (ltb a b)
compare_zones a b (some x) (some y) = ok (ltb_ℤ (instant a x) (instant b y))
compare_zones a b _ _ = err type_error

-- `a < b` raises on a naive and an aware value.
unfoldable pub earlier : Datetime → Datetime → Result Bool
unfolding compare_zones
earlier a b = compare_zones a.wall b.wall a.tzinfo b.tzinfo

subtract_zones : ℕ → ℕ → Option ℤ → Option ℤ → Result ℤ
unfolding instant ◌-ℤ◌
subtract_zones a b none none = ok (pos a -ℤ pos b)
subtract_zones a b (some x) (some y) = ok (instant a x -ℤ instant b y)
subtract_zones a b _ _ = err type_error

-- `(a - b).total_seconds()`, in microseconds.
unfoldable pub elapsed : Datetime → Datetime → Result ℤ
unfolding subtract_zones
elapsed a b = subtract_zones a.wall b.wall a.tzinfo b.tzinfo

-- One of the two is naive and the other aware.
abbrev pub MixedZones : Datetime → Datetime → Type 0
MixedZones a b = mixed a.tzinfo b.tzinfo
  where
    mixed : Option ℤ → Option ℤ → Type 0
    mixed none (some _) = Unit
    mixed (some _) none = Unit
    mixed _ _ = ⊥

abbrev pub with_tzinfo : Datetime → ℤ → Datetime
with_tzinfo d z = record d { tzinfo = some z }

-- `if ts.tzinfo is None: ts = ts.replace(tzinfo=timezone.utc)`.
unfoldable pub assume_utc : Datetime → Datetime
assume_utc d = elim d.tzinfo [ none ↦ with_tzinfo d utc | some z ↦ d ]

abbrev pub minute : ℕ
minute = 60000000

-- `ts.replace(second=0, microsecond=0)`.
unfoldable pub replace_seconds : Datetime → Datetime
replace_seconds d = record d { wall = d.wall - d.wall % minute }

module _ (local : ℤ) where
  stored_zones :
      (a b a' b' : ℕ) (x y : Option ℤ)
      → compare_zones a b x y ≡ ok false
      → instant a' utc ≡ instant a (zone_of local x)
      → instant b' utc ≡ instant b (zone_of local y)
      → compare_zones a' b' (some utc) (some utc) ≡ ok false
  unfolding compare_zones instant
  stored_zones a b a' b' none none h ea eb =
      rw (ea, eb) (ground (arith, h, -ℤ_parts (pos a) local, -ℤ_parts (pos b) local))
  stored_zones a b a' b' (some x) (some y) h ea eb = rw (ea, eb) h
  stored_zones a b a' b' none (some y) h ea eb = cc
  stored_zones a b a' b' (some x) none h ea eb = cc

  -- Two times that compare in order are in order once they are stored.
  pub stored-earlier :
      (e s e' s' : Datetime)
      → earlier e s ≡ ok false
      → IsStored local e e'
      → IsStored local s s'
      → earlier e' s' ≡ ok false
  unfolding earlier
  stored-earlier e s e' s' h (ze, ie) (zs, is) =
      rw (ze, zs) (stored_zones e.wall s.wall e'.wall s'.wall e.tzinfo s.tzinfo h ie is)
