-- ===== src/Dashboard/Header.antt =====
-- The line of dashboard/app.py on the backend's health, for the answers of `health` in
-- backend/app/main.py.
use ims_prakash.Base.{
  ◌≡◌, ◌↔◌, refl, inl, inr, Bool, true, false, List, [], ◌∷◌, Bool-cases, arith, if◌then◌else◌,
}
use ims_prakash.Text.{Text, codes, text_eq}
use ims_prakash.Errors.{Result, ok, ◌>>=◌}
use ims_prakash.App.{HealthOut, Probe, health_of, collect_checks, all_checks}
use ims_prakash.Dashboard.Values.{
  Json, Members, no_members, member, null, boolean, text, object, get, find_member,
}

abbrev is_text : Json → Text → Bool
is_text (text t) u = text_eq t u
is_text j u = false

-- `health.get("status") == "ok"`; the code of the answer is not looked at.
unfoldable pub healthy : Json → Result Bool
healthy health = do status ← get health (codes "status") null; ok (is_text status (codes "ok"))

unfoldable pub health_line : Bool → Text
health_line well = if well then codes "🟢 **Backend OK**" else codes "🔴 **Backend DOWN**"

abbrev members_of : List (Text × Bool) → Members
members_of [] = no_members
members_of ((name, b) ∷ rest) = member name (boolean b) (members_of rest)

-- The body of the answer; `rest` is `errors`, where there are any.
abbrev body_of : Members → HealthOut → Json
body_of rest h = object (
    member (codes "status") (text h.status)
      (member (codes "checks") (object (members_of h.checks)) rest))

-- For every answer that the backend gives, the page says that it is well exactly when the code is
-- 200.
healthy-health_of :
    (rest : Members) (ps : List Probe)
    → (healthy (body_of rest (health_of ps)) ≡ ok true) ↔ ((health_of ps).status_code ≡ 200)
unfolding healthy health_of get find_member
healthy-health_of rest ps = elim (Bool-cases (all_checks (collect_checks ps))) [
  | inl well ↦ rw well ((λ h. refl), (λ h. refl))
  | inr ill ↦ rw ill ((λ h. cc), (λ h. absurd (omega (arith, h))))
]
