-- ===== src/Dashboard/Page/Reading.antt =====
-- Which sections of the page of dashboard/app.py send requests that read, and no other.
use mathlib.Core.List.{append_assoc, append-nil}
use ims_prakash.Base.{
  All-append, ◌≡◌, refl, sym, ap, ◌∙◌, inl, inr, Bool, true, false, List, [], ◌∷◌, ◌++◌, All,
  if◌then◌else◌,
}
use ims_prakash.Text.{Text}
use ims_prakash.Errors.{Error, Result}
use ims_prakash.Effects.{Action, pure, lift, gets, ◌>>=◌, catch, Outcome-cases}
use ims_prakash.Dashboard.{Point}
use ims_prakash.Dashboard.Values.{Json}
use ims_prakash.Dashboard.Site.{
  Site, Inputs, Request, got, posted, Element, Screen, draw, send, on_history, api_get,
}
use ims_prakash.Dashboard.Page.{
  sidebar, header_section, rate_of, graph, throughput_section, live_tab, closed_tab, detail_tab,
  upper_page,
}

-- A request that reads.
abbrev pub IsGet : Request → Type 0
IsGet (got path params) = Unit
IsGet (posted path body) = ⊥

module _ {s : Site} where
  -- What lies between two screens are requests that read, and the clock is as before.
  abbrev pub Reads : Screen s → Screen s → Type 0
  Reads x y =
      (sent : List Request) × (y.requests ≡ x.requests ++ sent) × All IsGet sent × (y.time ≡ x.time)

  reads_nothing : (x y : Screen s) → y.requests ≡ x.requests → y.time ≡ x.time → Reads x y
  reads_nothing x y h t = ([], h ∙ sym (append-nil x.requests), tt, t)

  pub Reads-trans : (x y z : Screen s) → Reads x y → Reads y z → Reads x z
  Reads-trans x y z (a, e, h, t) (b, f, k, u) = (
    a ++ b,
    f ∙ ap (λ l. l ++ b) e ∙ append_assoc x.requests a b,
    All-append IsGet a b h k,
    u ∙ t,
  )

  -- However it ends, the action sends requests that read, and no other.
  pub record IsReading {A : Type 0} (m : Action (Screen s) A) : Type 0 where
    pub at : (x : Screen s) → Reads x (m x).1

  IsReading-bind :
      {A B : Type 0} {m : Action (Screen s) A} {f : A → Action (Screen s) B}
      → IsReading m
      → ((a : A) → IsReading (f a))
      → IsReading (m >>= f)
  unfolding ◌>>=◌
  IsReading-bind {m = m} {f = f} first after = record {
    at = λ x. elim (Outcome-cases (m x)) [
      | inl (a, y, e) ↦ rw e (Reads-trans x y (f a y).1 (rw e at (first.at x)) ((after a).at y))
      | inr (er, y, e) ↦ rw e (rw e at (first.at x))
    ];
  }

  IsReading-catch :
      {A : Type 0} {m : Action (Screen s) A} {h : Error → Action (Screen s) A}
      → IsReading m
      → ((e : Error) → IsReading (h e))
      → IsReading (catch m h)
  unfolding catch
  IsReading-catch {m = m} {h = h} first after = record {
    at = λ x. elim (Outcome-cases (m x)) [
      | inl (a, y, e) ↦ rw e (rw e at (first.at x))
      | inr (er, y, e) ↦ rw e (Reads-trans x y (h er y).1 (rw e at (first.at x)) ((after er).at y))
    ];
  }

  IsReading-if :
      {A : Type 0} (b : Bool) {m n : Action (Screen s) A}
      → IsReading m
      → IsReading n
      → IsReading (if b then m else n)
  IsReading-if true rm rn = rm
  IsReading-if false rm rn = rn

  IsReading-pure : {A : Type 0} (a : A) → IsReading (pure a)
  unfolding pure
  IsReading-pure a = record { at = λ x. reads_nothing x x refl refl }

  IsReading-lift : {A : Type 0} (r : Result A) → IsReading (lift r)
  unfolding lift
  IsReading-lift r = record { at = λ x. reads_nothing x x refl refl }

  IsReading-gets : {A : Type 0} (f : Screen s → A) → IsReading (gets f)
  unfolding gets
  IsReading-gets f = record { at = λ x. reads_nothing x x refl refl }

  IsReading-draw : (e : Element s) → IsReading (draw e)
  unfolding draw
  IsReading-draw e = record { at = λ x. reads_nothing x (draw e x).1 refl refl }

  IsReading-on_history : (f : List Point → List Point) → IsReading (on_history f)
  unfolding on_history
  IsReading-on_history f = record { at = λ x. reads_nothing x (on_history f x).1 refl refl }

  IsReading-send_get :
      {A : Type 0} (path : Text) (params : List (Text × Text)) (call : Action s.Net A)
      → IsReading (send (got path params) call)
  unfolding send
  IsReading-send_get path params call = record {
    at = λ x. (got path params ∷ [], refl, (tt, tt), refl);
  }

ruleset reading_rules = (
  IsReading-bind, IsReading-catch, IsReading-if, IsReading-pure, IsReading-lift, IsReading-gets,
  IsReading-draw, IsReading-on_history, IsReading-send_get,
)

module _ (s : Site) where
  api_get-IsReading :
      (path : Text) (params : List (Text × Text)) → IsReading {s = s} (api_get path params)
  unfolding api_get
  api_get-IsReading path params = search reading_rules

  pub sidebar-IsReading : (i : Inputs) → IsReading (sidebar s i)
  unfolding sidebar
  sidebar-IsReading i = search reading_rules depth 12

  header_section-IsReading : IsReading (header_section s)
  unfolding header_section
  header_section-IsReading = search (reading_rules, api_get-IsReading) depth 30

  rate_of-IsReading : (t : Json) (key : Text) → IsReading (rate_of s t key)
  unfolding rate_of
  rate_of-IsReading t key = search reading_rules

  throughput_section-IsReading : (t : Json) → IsReading (throughput_section s t)
  unfolding throughput_section graph
  throughput_section-IsReading t = search (reading_rules, rate_of-IsReading) depth 16

  live_tab-IsReading : IsReading (live_tab s)
  unfolding live_tab
  live_tab-IsReading = search (reading_rules, api_get-IsReading) depth 12

  closed_tab-IsReading : IsReading (closed_tab s)
  unfolding closed_tab
  closed_tab-IsReading = search (reading_rules, api_get-IsReading) depth 12

  detail_tab-IsReading : (wid : Text) → IsReading (detail_tab s wid)
  unfolding detail_tab
  detail_tab-IsReading wid = search (reading_rules, api_get-IsReading) depth 12

ruleset section_rules = (
  reading_rules, header_section-IsReading, throughput_section-IsReading, live_tab-IsReading,
  closed_tab-IsReading, detail_tab-IsReading,
)

module _ (s : Site) where
  pub upper_page-IsReading : (i : Inputs) → IsReading (upper_page s i)
  unfolding upper_page
  upper_page-IsReading i = search section_rules depth 12
