-- ===== src/Dashboard/Page/Requests.antt =====
-- The requests that one run of the page of dashboard/app.py sends.
use mathlib.Core.List.{append_assoc, append-nil}
use ims_prakash.Base.{
  ℕ, ◌≡◌, refl, sym, ap, ◌∙◌, ◌⊎◌, inl, inr, true, false, ◌&&◌, List, [], ◌∷◌, ◌++◌, All,
  Bool-cases,
}
use ims_prakash.Text.{Text, codes, truthy}
use ims_prakash.Errors.{Result}
use ims_prakash.Effects.{Action, pure, lift, ◌>>=◌, Outcome-cases}
use ims_prakash.Services.{Clock}
use ims_prakash.Dashboard.Values.{Json}
use ims_prakash.Dashboard.RcaForm.{Payload, payload}
use ims_prakash.Dashboard.Page.Reading.{
  IsGet, Reads, Reads-trans, sidebar-IsReading, upper_page-IsReading,
}
use ims_prakash.Dashboard.Site.{
  Site, Inputs, Request, posted, Element, Screen, draw, send, api_post,
}
use ims_prakash.Dashboard.Page.{sidebar, read_payload, draw_answer, rca_tab, upper_page, page}

module _ {s : Site} where
  -- However it ends, the action sends these requests.
  record Sends (added : List Request) {A : Type 0} (m : Action (Screen s) A) : Type 0 where
    at : (x : Screen s) → (m x).1.requests ≡ x.requests ++ added

  -- Where what follows sends nothing, the requests are those of the first call.
  Sends-bind :
      {A B : Type 0} {m : Action (Screen s) A} {f : A → Action (Screen s) B} {added : List Request}
      → Sends added m
      → ((a : A) → Sends [] (f a))
      → Sends added (m >>= f)
  unfolding ◌>>=◌
  Sends-bind {m = m} {f = f} {added = added} first silent = record {
    at = λ x. elim (Outcome-cases (m x)) [
      | inl (a, y, e) ↦ rw e ((silent a).at y ∙ append-nil y.requests ∙ (rw e at (first.at x)))
      | inr (er, y, e) ↦ rw e (rw e at (first.at x))
    ];
  }

  Sends-pure : {A : Type 0} (a : A) → Sends [] (pure a)
  unfolding pure
  Sends-pure a = record { at = λ x. sym (append-nil x.requests) }

  Sends-lift : {A : Type 0} (r : Result A) → Sends [] (lift r)
  unfolding lift
  Sends-lift r = record { at = λ x. sym (append-nil x.requests) }

  Sends-draw : (e : Element s) → Sends [] (draw e)
  unfolding draw
  Sends-draw e = record { at = λ x. sym (append-nil x.requests) }

  Sends-send : {A : Type 0} (r : Request) (call : Action s.Net A) → Sends (r ∷ []) (send r call)
  unfolding send
  Sends-send r call = record { at = λ x. refl }

ruleset sends_rules = (Sends-bind, Sends-pure, Sends-lift, Sends-draw, Sends-send)

module _ (s : Site) (i : Inputs) where
  -- The form as the page submits it with the clock of a screen.
  abbrev pub submitted_at : Clock.Time s.clock → Request
  submitted_at t =
      posted (codes "/incidents/" ++ i.rca_work_item_id ++ codes "/rca")
        (payload s.clock i.category i.fix i.prev t).0

  abbrev pub submitted : Screen s → Request
  submitted y = submitted_at y.time

  draw_answer-Sends : (answer : ℕ × Json) → Sends [] (draw_answer s answer)
  unfolding draw_answer
  draw_answer-Sends answer = Sends-draw _

  submit-Sends :
      (path : Text) (body : Payload)
      → Sends (posted path body ∷ []) (api_post path body >>= draw_answer s)
  unfolding api_post
  submit-Sends path body = search (sends_rules, draw_answer-Sends)

  rca_tab-requests :
      (y : Screen s)
      → truthy i.rca_work_item_id && i.submit ≡ true
      → (rca_tab s i y).1.requests ≡ y.requests ++ submitted y ∷ []
  unfolding rca_tab read_payload ◌>>=◌
  rca_tab-requests y pressed = rw pressed (
      (submit-Sends _ _).at
        (record y { time = (payload s.clock i.category i.fix i.prev y.time).1 }))

  -- Requests that read, and then the form.
  abbrev pub Submits : Screen s → Screen s → Type 0
  Submits x y =
      (truthy i.rca_work_item_id && i.submit ≡ true)
      × (sent : List Request) × All IsGet sent
      × (y.requests ≡ x.requests ++ (sent ++ submitted x ∷ []))

  -- The tab submits, or it sends nothing.
  rca_tab_cases :
      (x y : Screen s) → Reads x y → (Reads x (rca_tab s i y).1) ⊎ (Submits x (rca_tab s i y).1)
  rca_tab_cases x y before = elim (Bool-cases (truthy i.rca_work_item_id && i.submit)) [
    | inl pressed ↦
        let (sent, e, reads, same) = before in
        inr (
          pressed,
          sent,
          reads,
          rca_tab-requests y pressed
              ∙ ap (λ l. l ++ submitted y ∷ []) e
              ∙ append_assoc x.requests sent (submitted y ∷ [])
              ∙ ap (λ (t : Clock.Time s.clock). x.requests ++ (sent ++ submitted_at t ∷ [])) same,
        )
    | inr other ↦ inl (unfold rca_tab pure in (rw other before))
  ]

  -- One run of the page, however it ends, sends requests that read and no other; or, where the submit
  -- button was pressed with an id in its tab, requests that read and then, as the last one, the POST of
  -- the form for that id, with the next two readings of the clock as its times.
  pub page_requests : (x : Screen s) → (Reads x (page s i x).1) ⊎ (Submits x (page s i x).1)
  unfolding page ◌>>=◌ pure
  page_requests x = elim (Outcome-cases (sidebar s i x)) [
    | inl (true, y, e) ↦ elim (Outcome-cases (upper_page s i y)) [
      | inl (a, u, f) ↦
          rw (e, f)
            (rca_tab_cases x u (
              Reads-trans x y u (rw e at ((sidebar-IsReading s i).at x))
                (rw f at ((upper_page-IsReading s i).at y))))
      | inr (er, u, f) ↦
          rw (e, f)
            (inl (
              Reads-trans x y u (rw e at ((sidebar-IsReading s i).at x))
                (rw f at ((upper_page-IsReading s i).at y))))
    ]
    | inl (false, y, e) ↦ rw e (inl (rw e at ((sidebar-IsReading s i).at x)))
    | inr (er, y, e) ↦ rw e (inl (rw e at ((sidebar-IsReading s i).at x)))
  ]
