-- ===== src/Storage/RedisCache/LiveFeed.antt =====
-- The members of the live feed (backend/app/storage/redis_cache.py), `f"{work_item_id}|{component}"`.
use ims_prakash.Base.{◌≡◌, ◌↔◌, refl, true, [], ◌∷◌, ◌++◌, All, arith, ==_refl}
use ims_prakash.Base.Int.{ℤ}
use ims_prakash.Text.{Text, startswith, text_eq, partition, contains_code}
use ims_prakash.Text.Decimal.{str_int}
use ims_prakash.Text.Decimal.RoundTrip.{NotBar, str_int-NotBar, int_of-str_int}
use ims_prakash.Storage.RedisCache.{feed_prefix, feed_member}

startswith-bar :
    (a b rest : Text)
    → All NotBar a
    → All NotBar b
    → startswith (a ++ b'|' ∷ rest) (b ++ b'|' ∷ []) ≡ text_eq a b
unfolding startswith
startswith-bar [] [] rest ha hb = refl
startswith-bar [] (d ∷ b) rest ha hb = ground (arith, hb.0)
startswith-bar (c ∷ a) [] rest ha hb = rw ha.0
startswith-bar (c ∷ a) (d ∷ b) rest ha hb = rw (startswith-bar a b rest ha.1 hb.1)

pub text_eq→≡ : (a b : Text) → text_eq a b ≡ true → a ≡ b
text_eq→≡ [] [] h = refl
text_eq→≡ [] (d ∷ b) h = cc
text_eq→≡ (c ∷ a) [] h = cc
text_eq→≡ (c ∷ a) (d ∷ b) h = ground (arith, text_eq→≡ a b)

pub text_eq_refl : (a : Text) → text_eq a a ≡ true
text_eq_refl [] = refl
text_eq_refl (c ∷ a) = rw (==_refl c, text_eq_refl a)

str_int_inj : (v w : ℤ) → str_int v ≡ str_int w → v ≡ w
str_int_inj v w h = cc (int_of-str_int v, int_of-str_int w)

-- The test of `remove_from_live_feed` picks the members of one work item and no other: item 1 does
-- not take those of item 12, whatever the component ids.
pub startswith-feed_prefix_iff :
    (v w : ℤ) (component : Text)
    → (startswith (feed_member v component) (feed_prefix w) ≡ true) ↔ (v ≡ w)
unfolding feed_member feed_prefix
startswith-feed_prefix_iff v w component =
    let same =
      startswith-bar (str_int v) (str_int w) component (str_int-NotBar v) (str_int-NotBar w) in
    rw same (
      (λ h. str_int_inj v w (text_eq→≡ (str_int v) (str_int w) h)),
      (λ e. rw e (text_eq_refl (str_int w))),
    )

pub partition-bar : (a rest : Text) → All NotBar a → partition b'|' (a ++ b'|' ∷ rest) ≡ (a, rest)
unfolding partition
partition-bar [] rest h = refl
partition-bar (c ∷ a) rest h = rw (partition-bar a rest h.1, h.0)

pub contains-bar : (a rest : Text) → contains_code b'|' (a ++ b'|' ∷ rest) ≡ true
unfolding contains_code
contains-bar [] rest = refl
contains-bar (c ∷ a) rest = ground (arith, contains-bar a rest)
