-- ===== src/Effects/Ensures.antt =====
-- Conditions before and after a call, with a rule for each way that calls are put together.
use ims_prakash.Base.{Bool, true, false, inl, inr, if◌then◌else◌}
use ims_prakash.Errors.{Error, Result, ok, err}
use ims_prakash.Effects.{Action, Outcome, Outcome-cases, pure, raise, lift, gets, ◌>>=◌, catch}

module _ {W : Type 0} where
  -- From a state with `Pre`: where the call returns, `Post` holds of its result and the state then,
  -- and where it raises, `Fail` of the state.
  pub record Ensures {A : Type 0} (Pre : W → Type 0) (Post : A → W → Type 0) (Fail : W → Type 0)
      (m : Action W A) : Type 0 where
    pub at : (w : W) → Pre w → Outcome Fail Post (m w)

  -- However it ends, the call keeps the condition.
  abbrev pub Keeps : {A : Type 0} → (W → Type 0) → Action W A → Type 0
  Keeps P m = Ensures P (λ _. P) P m

  pub Ensures-bind :
      {A B : Type 0} {Pre Fail : W → Type 0} {Mid : A → W → Type 0} {Post : B → W → Type 0}
      {m : Action W A} {f : A → Action W B}
      → Ensures Pre Mid Fail m
      → ((a : A) → Ensures (Mid a) Post Fail (f a))
      → Ensures Pre Post Fail (m >>= f)
  unfolding ◌>>=◌
  Ensures-bind {m = m} {f = f} em ef = record {
    at = λ w h. elim (Outcome-cases (m w)) [
      | inl (a, v, e) ↦ rw e ((ef a).at v (rw e at (em.at w h)))
      | inr (x, v, e) ↦ rw e (rw e at (em.at w h))
    ];
  }

  pub Ensures-catch :
      {A : Type 0} {Pre Mid Fail : W → Type 0} {Post : A → W → Type 0} {m : Action W A}
      {h : Error → Action W A}
      → Ensures Pre Post Mid m
      → ((e : Error) → Ensures Mid Post Fail (h e))
      → Ensures Pre Post Fail (catch m h)
  unfolding catch
  Ensures-catch {m = m} {h = h} em eh = record {
    at = λ w p. elim (Outcome-cases (m w)) [
      | inl (a, v, e) ↦ rw e (rw e at (em.at w p))
      | inr (x, v, e) ↦ rw e ((eh x).at v (rw e at (em.at w p)))
    ];
  }

  -- A weaker condition where it raises.
  pub Ensures-fail :
      {A : Type 0} {Pre Fail Fail' : W → Type 0} {Post : A → W → Type 0} {m : Action W A}
      → ((w : W) → Fail w → Fail' w)
      → Ensures Pre Post Fail m
      → Ensures Pre Post Fail' m
  Ensures-fail {m = m} weaken em = record {
    at = λ w h. elim (Outcome-cases (m w)) [
      | inl (a, v, e) ↦ rw e (rw e at (em.at w h))
      | inr (x, v, e) ↦ rw e (weaken v (rw e at (em.at w h)))
    ];
  }

  -- A fact beside the condition.
  pub Ensures-given :
      {F : Type 0} {A : Type 0} {Pre Fail : W → Type 0} {Post : A → W → Type 0} {m : Action W A}
      → (F → Ensures Pre Post Fail m)
      → Ensures (λ w. Pre w × F) Post Fail m
  Ensures-given em = record { at = λ w h. (em h.1).at w h.0 }

  pub Ensures-if :
      {A : Type 0} {Pre Fail : W → Type 0} {Post : A → W → Type 0} (b : Bool) {m n : Action W A}
      → Ensures Pre Post Fail m
      → Ensures Pre Post Fail n
      → Ensures Pre Post Fail (if b then m else n)
  Ensures-if true em en = em
  Ensures-if false em en = en

module _ {W : Type 0} {P : W → Type 0} where
  pub Keeps-bind :
      {A B : Type 0} {m : Action W A} {f : A → Action W B}
      → Keeps P m
      → ((a : A) → Keeps P (f a))
      → Keeps P (m >>= f)
  Keeps-bind km kf = Ensures-bind km kf

  -- The state after the call.
  pub Keeps-state : {A : Type 0} {m : Action W A} → Keeps P m → (w : W) → P w → P (m w).1
  Keeps-state {m = m} k w h = elim (Outcome-cases (m w)) [
    | inl (a, v, e) ↦ rw e (rw e at (k.at w h))
    | inr (x, v, e) ↦ rw e (rw e at (k.at w h))
  ]

  pub Keeps-pure : {A : Type 0} (a : A) → Keeps P (pure a)
  unfolding pure
  Keeps-pure a = record { at = λ w h. h }

  pub Keeps-raise : {A : Type 0} (e : Error) → Keeps P (raise {A = A} e)
  unfolding raise
  Keeps-raise e = record { at = λ w h. h }

  pub Keeps-lift : {A : Type 0} (r : Result A) → Keeps P (lift r)
  unfolding lift
  Keeps-lift (ok a) = record { at = λ w h. h }
  Keeps-lift (err e) = record { at = λ w h. h }

  pub Keeps-gets : {A : Type 0} (f : W → A) → Keeps P (gets f)
  unfolding gets
  Keeps-gets f = record { at = λ w h. h }
