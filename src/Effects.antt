-- ===== src/Effects.antt =====
-- An awaited call that changes a state and may raise: what was written before a raise stays written.
pub mod Ensures
use ims_prakash.Base.{◌≡◌, refl, ◌⊎◌, inl, inr}
use ims_prakash.Errors.{Error, Result, ok, err}

abbrev pub Action : Type 0 → Type 0 → Type 0
Action W A = W → Result A × W

module _ {W A : Type 0} where
  unfoldable pub pure : A → Action W A
  pure a w = (ok a, w)

  unfoldable pub raise : Error → Action W A
  raise e w = (err e, w)

  unfoldable pub lift : Result A → Action W A
  lift r w = (r, w)

  unfoldable pub gets : (W → A) → Action W A
  gets f w = (ok (f w), w)

module _ {W A B : Type 0} where
  abbrev pub continue : Result A × W → (A → Action W B) → Result B × W
  continue (ok a, w) f = f a w
  continue (err e, w) f = (err e, w)

  infixl 10 ◌>>=◌ ◌>>◌
  -- Opening this opens `pure`, `raise`, `lift` and `gets` too.
  unfoldable pub ◌>>=◌ : Action W A → (A → Action W B) → Action W B
  unfolding pure raise lift gets
  ◌>>=◌ m f w = continue (m w) f

  abbrev pub ◌>>◌ : Action W A → Action W B → Action W B
  m >> n = m >>= λ _. n

-- `try: … except Exception as e: …`.
module _ {W A : Type 0} where
  abbrev pub rescue : Result A × W → (Error → Action W A) → Result A × W
  rescue (ok a, w) h = (ok a, w)
  rescue (err e, w) h = h e w

  unfoldable pub catch : Action W A → (Error → Action W A) → Action W A
  catch m h w = rescue (m w) h

-- By the outcome of a call: it returned and `Post` holds, or it raised and `Fail` does.
abbrev pub Outcome : {W A : Type 0} → (W → Type 0) → (A → W → Type 0) → Result A × W → Type 0
Outcome Fail Post (ok a, w) = Post a w
Outcome Fail Post (err e, w) = Fail w

module _ {W A : Type 0} where
  -- To split on the outcome of a call and keep the equation.
  pub Outcome-cases :
      (o : Result A × W)
      → ((a : A) × (w : W) × (o ≡ (ok a, w))) ⊎ ((e : Error) × (w : W) × (o ≡ (err e, w)))
  Outcome-cases (ok a, w) = inl (a, w, refl)
  Outcome-cases (err e, w) = inr (e, w, refl)

-- Inversion of a bind that returned, and of one that raised.
module _ {W A B : Type 0} where
  pub >>=-eq-ok :
      (m : Action W A) (f : A → Action W B) (w : W) {b : B} {v : W}
      → (m >>= f) w ≡ (ok b, v)
      → (a : A) × (u : W) × (m w ≡ (ok a, u)) × (f a u ≡ (ok b, v))
  unfolding ◌>>=◌
  >>=-eq-ok m f w {b} {v} h = go (m w) refl h
    where
      go :
          (o : Result A × W)
          → m w ≡ o
          → continue o f ≡ (ok b, v)
          → (a : A) × (u : W) × (m w ≡ (ok a, u)) × (f a u ≡ (ok b, v))
      go (ok a, u) e k = (a, u, e, k)
      go (err x, u) e k = cc
