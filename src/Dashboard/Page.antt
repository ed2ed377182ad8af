-- ===== src/Dashboard/Page.antt =====
-- One run of the page of dashboard/app.py, from the sidebar to the RCA tab: what it draws and the
-- requests that it sends. What the widgets return is an argument.
pub mod Reading
pub mod Requests
pub mod Failures
use ims_prakash.Base.{
  ℕ, ◌+◌, ◌*◌, Bool, true, false, ◌&&◌, Option, none, some, List, [], ◌∷◌, ◌++◌, ◌==◌,
  if◌then◌else◌,
}
use ims_prakash.Base.Int.{ℤ, pos, negsuc}
use ims_prakash.Text.{Text, codes, text_eq, truthy}
use ims_prakash.Errors.{Error, Result, ok, err}
use ims_prakash.Effects.{Action, pure, lift, gets, ◌>>=◌, ◌>>◌, catch}
use ims_prakash.Services.{Clock}
use ims_prakash.Dashboard.{
  Dates, severity_order, one_decimal, ClosedRow, closed_rows, Point, sample, throughput_history,
}
use ims_prakash.Dashboard.Site.{
  Site, Frames, Inputs, Request, got, posted, Element, title, header, subheader, caption, markdown,
  info, success, autorefresh, rerun, metric, line_chart, dataframe, json, error, load_error,
  graph_warning, Screen, percent, draw, send, on_history, api_get, api_post,
}
use ims_prakash.Dashboard.Header.{healthy, health_line}
use ims_prakash.Dashboard.Values.{
  Json, number, text, array, object, no_items, no_members, truthy_json, get, iterate, float_of,
}
use ims_prakash.Dashboard.RcaForm.{Payload, payload, Shown, shown}
use ims_prakash.Dashboard.RcaForm

module _ (s : Site) where
  -- The sidebar; whether the run goes on.
  unfoldable pub sidebar : Inputs → Action (Screen s) Bool
  unfolding draw
  sidebar i = do
    draw (header (codes "Controls"))
    draw (caption (codes "Backend: `" ++ s.backend_url ++ codes "`"))
    if i.refresh_now
        then (do draw rerun; pure false)
        else (if i.auto_refresh
            then (do draw (autorefresh (s.refresh_seconds * 1000)); pure true)
            else pure true)

  -- The health line and the metrics; returns the rates.
  unfoldable pub header_section : Action (Screen s) Json
  unfolding draw api_get
  header_section = do
    draw (title (codes "Incident Management System"))
    health ← api_get (codes "/health") []
    well ← lift (healthy health)
    draw (markdown (health_line well))
    metrics ← api_get (codes "/metrics") []
    q ← lift (get metrics (codes "queue") (object no_members))
    t ← lift (get metrics (codes "throughput") (object no_members))
    depth ← lift (get q (codes "queue_depth") (number (pos 0)))
    draw (metric (codes "Queue depth") depth)
    full ← lift (get q (codes "queue_pct_full") (number (pos 0)))
    pct ← lift (float_of s.parse_float full)
    draw (metric (codes "Queue % full") (text (percent pct)))
    rate ← lift (get t (codes "signals_in_per_sec") (number (pos 0)))
    draw (metric (codes "Signals/sec") rate)
    dropped ← lift (get q (codes "dropped_total") (number (pos 0)))
    draw (metric (codes "Dropped") dropped)
    pure t

  unfoldable pub rate_of : Json → Text → Action (Screen s) ℤ
  rate_of t key = do rate ← lift (get t key (number (pos 0))); lift (float_of s.parse_float rate)

  unfoldable pub graph : Json → Action (Screen s) (Unit {0})
  unfolding draw on_history rate_of
  graph t =
      if truthy_json t
      then (do
        incoming ← rate_of t (codes "signals_in_per_sec")
        processed ← rate_of t (codes "signals_processed_per_sec")
        on_history (λ h.
            throughput_history h (sample (record { incoming = incoming; processed = processed })))
        points ← gets (λ x. x.history)
        df ← lift (Frames.from_points s.frames points)
        draw (line_chart df))
      else draw (info (codes "No throughput yet"))

  unfoldable pub throughput_section : Json → Action (Screen s) (Unit {0})
  unfolding draw graph
  throughput_section t = do
    draw (subheader (codes "Throughput (last window)"))
    catch (graph t) (λ e. draw (graph_warning e))

  -- `df` by rank, where it has severities.
  unfoldable pub ranked : Frames.Frame s.frames → Result (Frames.Frame s.frames)
  ranked df =
      if Frames.has_column s.frames (codes "severity") df
      then elim (Frames.map_column s.frames (codes "sev_rank") (codes "severity") severity_order
          df) [
            | ok with_rank ↦ Frames.sort_descending s.frames (codes "sev_rank") with_rank
            | err e ↦ err e
          ]
      else ok df

  unfoldable pub live_tab : Action (Screen s) (Unit {0})
  unfolding draw api_get ranked
  live_tab = do
    incidents ← api_get (codes "/incidents") []
    if truthy_json incidents
        then (do
          df ← lift (Frames.from_json s.frames incidents)
          sorted ← lift (ranked df)
          draw (dataframe (Frames.drop_column s.frames (codes "sev_rank") sorted)))
        else draw (info (codes "No incidents yet"))

  unfoldable pub closed_tab : Action (Screen s) (Unit {0})
  unfolding draw api_get
  closed_tab = do
    draw (subheader (codes "Closed incidents"))
    incidents ←
        catch
          (api_get (codes "/incidents")
            ((codes "state", codes "CLOSED") ∷ (codes "limit", codes "100") ∷ []))
          (λ e. do draw (load_error e); pure (array no_items))
    if truthy_json incidents
        then (do
          entries ← lift (iterate incidents)
          rows ← lift (closed_rows s.dates entries)
          df ← lift (Frames.from_rows s.frames rows)
          draw (dataframe df))
        else draw (info (codes "No closed incidents."))

  unfoldable pub detail_tab : Text → Action (Screen s) (Unit {0})
  unfolding draw api_get
  detail_tab wid =
      if truthy wid
      then (do data_ ← api_get (codes "/incidents/" ++ wid) []; draw (json data_))
      else pure tt

  -- The form's fields, with the times of the press.
  unfoldable pub read_payload : Inputs → Action (Screen s) Payload
  read_payload i x =
      let (body, time) = payload s.clock i.category i.fix i.prev x.time in
      (ok body, record x { time = time })

  abbrev answer_element : Shown Json → Element s
  answer_element RcaForm.success = success (codes "RCA submitted")
  answer_element (RcaForm.error resp) = error resp

  unfoldable pub draw_answer : ℕ × Json → Action (Screen s) (Unit {0})
  unfolding draw
  draw_answer answer = draw (answer_element (shown answer.0 answer.1))

  unfoldable pub rca_tab : Inputs → Action (Screen s) (Unit {0})
  unfolding api_post read_payload draw_answer
  rca_tab i =
      if truthy i.rca_work_item_id && i.submit
      then (do
        body ← read_payload i
        answer ← api_post (codes "/incidents/" ++ i.rca_work_item_id ++ codes "/rca") body
        draw_answer answer)
      else pure tt

  -- What stands before the RCA tab.
  unfoldable pub upper_page : Inputs → Action (Screen s) (Unit {0})
  unfolding header_section throughput_section live_tab closed_tab detail_tab
  upper_page i = do
    t ← header_section
    throughput_section t
    live_tab
    closed_tab
    detail_tab i.work_item_id

  unfoldable pub page : Inputs → Action (Screen s) (Unit {0})
  unfolding sidebar upper_page rca_tab
  page i = do go_on ← sidebar i; if go_on then (do upper_page i; rca_tab i) else pure tt
