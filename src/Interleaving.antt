-- ===== src/Interleaving.antt =====
-- Coroutines that take turns at their awaits: one shared state, a phase for each coroutine, and moves of
-- one coroutine at a time.
use ims_prakash.Base.{ℕ, ◌≡◌, refl}
use mathlib.Core.Logic.{ite}
use native.Mathlib.Decide.{ℕ_discrete}

pub record System (S P : Type 0) : Type 0 where
  pub shared : S
  pub phase : ℕ → P

unfoldable pub update : {P : Type 0} → (ℕ → P) → ℕ → P → ℕ → P
update f i p j = ite (ℕ_discrete i j) p (f j)

pub update-here : {P : Type 0} (f : ℕ → P) (i : ℕ) (p : P) → update f i p i ≡ p
unfolding update
update-here f i p = elim (ℕ_discrete i i) as (λ d. ite d p (f i) ≡ p) [
  | yes e ↦ refl
  | no ne ↦ absurd (ne refl)
]

module _ {S P : Type 0} (Move : S → P → S → P → Type 0) where
  pub data Step : System S P → System S P → Type 0 where
    moved :
        {s : System S P} {t : S} {p : P} (i : ℕ)
        → Move s.shared (s.phase i) t p
        → Step s (record { shared = t; phase = update s.phase i p })

  pub data Reach (start : System S P) : System S P → Type 0 where
    here : Reach start start
    next : {s t : System S P} → Reach start s → Step s t → Reach start t

  pub Reach-trans : {x y z : System S P} → Reach x y → Reach y z → Reach x z
  Reach-trans r here = r
  Reach-trans r (next q st) = next (Reach-trans r q) st

  -- One more move of a coroutine whose phase is known.
  pub advance :
      {x y : System S P} {t : S} {a p : P} (i : ℕ)
      → Reach x y
      → y.phase i ≡ a
      → Move y.shared a t p
      → (z : System S P) × Reach x z × (z.phase i ≡ p) × (z.shared ≡ t)
  advance {y = y} {t = t} {p = p} i r at mv = (
    record { shared = t; phase = update y.phase i p },
    next r (moved i (rw at mv)),
    update-here y.phase i p,
    refl,
  )

  module _ (Good : S → Type 0) (Ok : S → P → Type 0) where
    -- What holds of the shared state and of each coroutine by itself.
    pub record Holds (x : System S P) : Type 0 where
      pub good : Good x.shared
      pub each : (i : ℕ) → Ok x.shared (x.phase i)

    -- A move keeps it, for the coroutine that moves and for every other.
    pub record Kept : Type 0 where
      pub own : {s t : S} {p q : P} → Move s p t q → Good s → Ok s p → Good t × Ok t q
      pub other : {s t : S} {p q : P} → Move s p t q → Good s → Ok s p → (o : P) → Ok s o → Ok t o

    module _ (kept : Kept) where
      moved-each :
          {x : System S P} {t : S} {p : P} (i : ℕ)
          → Move x.shared (x.phase i) t p
          → Holds x
          → (j : ℕ) → Ok t (update x.phase i p j)
      unfolding update
      moved-each {x} {t} {p} i mv h j = elim (ℕ_discrete i j) as (λ d. Ok t (ite d p (x.phase j))) [
        | yes e ↦ (kept.own mv h.good (h.each i)).1
        | no ne ↦ kept.other mv h.good (h.each i) (x.phase j) (h.each j)
      ]

      pub Step-Holds : {x y : System S P} → Step x y → Holds x → Holds y
      Step-Holds (moved i mv) h = record {
        good = (kept.own mv h.good (h.each i)).0;
        each = moved-each i mv h;
      }

      pub Reach-Holds : {x y : System S P} → Reach x y → Holds x → Holds y
      Reach-Holds here h = h
      Reach-Holds (next r st) h = Step-Holds st (Reach-Holds r h)
