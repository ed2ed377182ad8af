-- ===== src/Dashboard/Page/Failures.antt =====
-- What the page of dashboard/app.py does where a section fails inside its `try`.
use ims_prakash.Base.{◌≡◌, refl, inl, inr, [], ◌∷◌}
use ims_prakash.Text.{codes}
use ims_prakash.Errors.{Error, ok, err}
use ims_prakash.Effects.{Action, pure, ◌>>=◌, catch, Outcome-cases}
use ims_prakash.Dashboard.Values.{Json, truthy_json}
use ims_prakash.Dashboard.Site.{Site, Screen, draw, info, subheader, load_error, api_get}
use ims_prakash.Dashboard.Page.{graph, throughput_section, closed_tab}

module _ (s : Site) where
  -- The graph never ends the run.
  throughput_section-ok : (t : Json) (x : Screen s) → (throughput_section s t x).0 ≡ ok tt
  unfolding throughput_section ◌>>=◌ catch draw
  throughput_section-ok t x =
      elim (Outcome-cases (graph s t (draw (subheader (codes "Throughput (last window)")) x).1)) [
        | inl (a, y, e) ↦ rw e refl
        | inr (er, y, e) ↦ rw e refl
      ]

  abbrev closed_request : Action (Screen s) Json
  closed_request =
      api_get (codes "/incidents")
        ((codes "state", codes "CLOSED") ∷ (codes "limit", codes "100") ∷ [])

  -- A request for the closed incidents that fails is shown, and the tab ends as with no incidents.
  closed_tab_failed :
      (x y : Screen s) (e : Error)
      → closed_request (draw (subheader (codes "Closed incidents")) x).1 ≡ (err e, y)
      → closed_tab s x
        ≡ (ok tt, (draw (info (codes "No closed incidents.")) (draw (load_error e) y).1).1)
  unfolding closed_tab ◌>>=◌ catch draw pure truthy_json
  closed_tab_failed x y e h = rw h
