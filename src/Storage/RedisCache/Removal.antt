-- ===== src/Storage/RedisCache/Removal.antt =====
-- `remove_from_live_feed` of backend/app/storage/redis_cache.py against its specification: the feed
-- without the members of one item.
use ims_prakash.Base.{
  ◌≡◌, refl, sym, ap, ◌∙◌, inl, inr, Bool, true, false, not, ◌&&◌, List, [], ◌∷◌, map, All, All-map,
  All-every, Bool-cases, arith,
}
use ims_prakash.Base.Int.{ℤ}
use ims_prakash.Text.{Text, text_eq, startswith}
use ims_prakash.Errors.{ok}
use ims_prakash.Effects.{pure, >>=-eq-ok}
use ims_prakash.Services.{Redis}
use ims_prakash.Services.Laws.{RedisLaws, keep, int_eq}
use ims_prakash.Storage.PostgresRepo.UpsertRca.{int_eq→≡, int_eq_refl}
use ims_prakash.Storage.RedisCache.{
  remove_from_live_feed, remove_members, feed_prefix, feed_member, live_feed_key,
}
use ims_prakash.Storage.RedisCache.LiveFeed.{startswith-feed_prefix_iff, text_eq→≡, text_eq_refl}

module _ {A : Type 0} where
  keep_every : (l : List A) → keep (λ x. true) l ≡ l
  unfolding keep
  keep_every [] = refl
  keep_every (x ∷ l) = rw (keep_every l)

  keep-keep : (p q : A → Bool) (l : List A) → keep p (keep q l) ≡ keep (λ x. q x && p x) l
  unfolding keep
  keep-keep p q [] = refl
  keep-keep p q (x ∷ l) = ground (arith, keep-keep p q l)

  keep_congr : (p q : A → Bool) (l : List A) → All (λ x. p x ≡ q x) l → keep p l ≡ keep q l
  unfolding keep
  keep_congr p q [] h = refl
  keep_congr p q (x ∷ l) h = rw (h.0, keep_congr p q l h.1)

  keep_ext : (p q : A → Bool) → ((x : A) → p x ≡ q x) → (l : List A) → keep p l ≡ keep q l
  keep_ext p q h l = keep_congr p q l (All-every h l)

-- What the loop over `ms` leaves of the feed.
survives : ℤ → List Text → Text → Bool
survives i [] x = true
survives i (m ∷ ms) x =
    let rest = survives i ms x in not (startswith m (feed_prefix i) && text_eq x m) && rest

abbrev of_others : ℤ → Text → Bool
of_others i x = not (startswith x (feed_prefix i))

other_survives :
    (i : ℤ) (ms : List Text) (x : Text)
    → startswith x (feed_prefix i) ≡ false
    → survives i ms x ≡ true
unfolding survives
other_survives i [] x h = refl
other_survives i (m ∷ ms) x h = elim (Bool-cases (text_eq x m)) [
  | inl same ↦ let e = text_eq→≡ x m same in rw (← e) (rw (h, other_survives i ms x h))
  | inr differ ↦ ground (arith, other_survives i ms x h)
]

own_removed :
    (i : ℤ) (ms : List Text)
    → All (λ x. startswith x (feed_prefix i) ≡ true → survives i ms x ≡ false) ms
unfolding survives
own_removed i [] = tt
own_removed i (m ∷ ms) = (
  λ own. rw (own, text_eq_refl m),
  All-map (λ x h own. ground (arith, h own)) ms (own_removed i ms),
)

survives-of_others : (i : ℤ) (ms : List Text) → All (λ x. survives i ms x ≡ of_others i x) ms
survives-of_others i ms = All-map one ms (own_removed i ms)
  where
    one :
        (x : Text)
        → (startswith x (feed_prefix i) ≡ true → survives i ms x ≡ false)
        → survives i ms x ≡ of_others i x
    one x removed = elim (Bool-cases (startswith x (feed_prefix i))) [
      | inl own ↦ rw (own, removed own)
      | inr other ↦ rw (other, other_survives i ms x other)
    ]

module _ (r : Redis) (laws : RedisLaws r) (i : ℤ) where
  abbrev feed : r.Store → List Text
  feed t = laws.members live_feed_key t

  remove_members-survives :
      (ms : List Text) (t u : r.Store)
      → remove_members r i ms t ≡ (ok tt, u)
      → feed u ≡ keep (survives i ms) (feed t)
  unfolding remove_members pure survives
  remove_members-survives [] t u h =
      ap feed (λ j. (sym h j).1)
      ∙ sym (keep_every (feed t))
      ∙ keep_ext (λ x. true) (survives i []) (λ x. refl) (feed t)
  remove_members-survives (m ∷ ms) t u h = elim (Bool-cases (startswith m (feed_prefix i))) [
    | inl own ↦
        let (done, v, gone, rest) =
          >>=-eq-ok (r.zrem live_feed_key m) (λ _. remove_members r i ms) t (rw own at h) in
        remove_members-survives ms v u rest
        ∙ ap (keep (survives i ms)) (laws.zrem_members live_feed_key m t v gone)
        ∙ keep-keep (survives i ms) (λ x. not (text_eq x m)) (feed t)
        ∙ keep_ext (λ x. not (text_eq x m) && survives i ms x) (survives i (m ∷ ms))
            (λ x. rw own refl) (feed t)
    | inr other ↦
        remove_members-survives ms t u (rw other at h)
        ∙ keep_ext (survives i ms) (survives i (m ∷ ms)) (λ x. rw other refl) (feed t)
  ]

  -- What passes the test of the loop is gone.
  remove_from_live_feed-of_others :
      (t u : r.Store)
      → remove_from_live_feed r i t ≡ (ok tt, u)
      → feed u ≡ keep (of_others i) (feed t)
  unfolding remove_from_live_feed
  remove_from_live_feed-of_others t u h =
      let (ms, v, read, removed) =
        >>=-eq-ok (r.zrange_all live_feed_key) (remove_members r i) t h in
      let (listed, same) = laws.zrange_all_members live_feed_key t v ms read in
      remove_members-survives ms v u removed
      ∙ ap (keep (survives i ms)) (same ∙ sym listed)
      ∙ keep_congr (survives i ms) (of_others i) ms (survives-of_others i ms)
      ∙ ap (keep (of_others i)) listed

  of_others-member :
      (v : ℤ) (component : Text) → of_others i (feed_member v component) ≡ not (int_eq v i)
  of_others-member v component = elim (Bool-cases (int_eq v i)) [
    | inl same ↦ rw (same, (startswith-feed_prefix_iff v i component).1 (int_eq→≡ v i same)) refl
    | inr differ ↦ elim (Bool-cases (startswith (feed_member v component) (feed_prefix i))) [
      | inl taken ↦
          let equal = (startswith-feed_prefix_iff v i component).0 taken in
          cc (rw equal at differ, int_eq_refl i)
      | inr left ↦ rw (differ, left) refl
    ]
  ]

  keep-members :
      (entries : List (ℤ × Text))
      → keep (of_others i) (map (λ (e : ℤ × Text). feed_member e.0 e.1) entries)
        ≡ map (λ (e : ℤ × Text). feed_member e.0 e.1) (keep (λ e. not (int_eq e.0 i)) entries)
  unfolding keep
  keep-members [] = refl
  keep-members ((v, component) ∷ entries) = elim (Bool-cases (int_eq v i)) [
    | inl same ↦ rw (of_others-member v component, same, keep-members entries) refl
    | inr differ ↦ rw (of_others-member v component, differ, keep-members entries) refl
  ]

  -- With the documented behaviour of Redis, from a feed of the members that `push_live_feed` makes of
  -- work items and component ids: once `remove_from_live_feed` returns, the feed has the members of
  -- all the other work items, in order, and none of that item.
  pub remove_from_live_feed_lem :
      (t u : r.Store) (entries : List (ℤ × Text))
      → feed t ≡ map (λ (e : ℤ × Text). feed_member e.0 e.1) entries
      → remove_from_live_feed r i t ≡ (ok tt, u)
      → feed u
        ≡ map (λ (e : ℤ × Text). feed_member e.0 e.1) (keep (λ e. not (int_eq e.0 i)) entries)
  remove_from_live_feed_lem t u entries listed h =
      remove_from_live_feed-of_others t u h ∙ ap (keep (of_others i)) listed ∙ keep-members entries
