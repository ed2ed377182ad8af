-- ===== src/Dashboard/Site.antt =====
-- What the page of dashboard/app.py runs on and keeps: Streamlit, requests, pandas and `datetime` as
-- parameters, what its widgets return, and what it draws, keeps and sends.
use ims_prakash.Base.{ℕ, ◌+◌, ◌*◌, Bool, Option, List, [], ◌∷◌, ◌++◌}
use ims_prakash.Base.Int.{ℤ, pos, negsuc}
use ims_prakash.Text.{Text, codes}
use ims_prakash.Errors.{Error, Result, ok}
use ims_prakash.Effects.{Action, pure, lift, ◌>>=◌}
use ims_prakash.Services.{Clock}
use ims_prakash.Dashboard.{Dates, one_decimal, ClosedRow, Point}
use ims_prakash.Dashboard.Values.{Json}
use ims_prakash.Dashboard.RcaForm.{Payload}

-- pandas.
pub record Frames : Type 1 where
  pub Frame : Type 0
  pub from_json : Json → Result Frame
  pub from_points : List Point → Result Frame
  pub from_rows : List ClosedRow → Result Frame
  pub has_column : Text → Frame → Bool
  -- `df[new] = df[old].map(ranks)`.
  pub map_column : Text → Text → (Text → Option ℕ) → Frame → Result Frame
  pub sort_descending : Text → Frame → Result Frame
  -- `df.drop(columns=[name], errors="ignore")`.
  pub drop_column : Text → Frame → Frame

-- requests and the environment of the page.
pub record Site : Type 1 where
  pub Net : Type 0
  pub Response : Type 0
  pub get_url : Text → List (Text × Text) → Action Net Response
  pub post_url : Text → Payload → Action Net Response
  pub json : Response → Result Json
  pub status_code : Response → ℕ
  pub clock : Clock
  pub dates : Dates
  pub frames : Frames
  pub parse_float : Text → Option ℤ
  pub backend_url : Text
  pub refresh_seconds : ℕ

-- What the widgets return.
pub record Inputs : Type 0 where
  pub auto_refresh : Bool
  pub refresh_now : Bool
  pub work_item_id : Text
  pub rca_work_item_id : Text
  pub category : Text
  pub fix : Text
  pub prev : Text
  pub submit : Bool

pub data Request : Type 0 where
  got : Text → List (Text × Text) → Request
  posted : Text → Payload → Request

pub data Element (s : Site) : Type 0 where
  title header subheader caption markdown info success : Text → Element s
  autorefresh : ℕ → Element s
  rerun : Element s
  metric : Text → Json → Element s
  line_chart dataframe : Frames.Frame s.frames → Element s
  json : Json → Element s
  error : Json → Element s
  -- `failed to load: …` and `throughput graph error: …`.
  load_error graph_warning : Error → Element s

pub record Screen (s : Site) : Type 0 where
  pub net : s.Net
  pub time : Clock.Time s.clock
  -- `st.session_state.throughput_history`, empty at first.
  pub history : List Point
  pub drawn : List (Element s)
  -- The requests that were sent, in order.
  pub requests : List Request

-- `f"{float(x)*100:.1f}%"`.
unfoldable pub percent : ℤ → Text
percent (pos n) = one_decimal (pos (n * 100)) ++ codes "%"
percent (negsuc n) = b'-' ∷ (one_decimal (pos ((n + 1) * 100)) ++ codes "%")

module _ {s : Site} where
  unfoldable pub draw : Element s → Action (Screen s) (Unit {0})
  draw e x = (ok tt, record x { drawn = x.drawn ++ e ∷ [] })

  unfoldable pub send : {A : Type 0} → Request → Action s.Net A → Action (Screen s) A
  send r call x =
      let (o, n) = call x.net in (o, record x { net = n; requests = x.requests ++ r ∷ [] })

  unfoldable pub on_history : (List Point → List Point) → Action (Screen s) (Unit {0})
  on_history f x = (ok tt, record x { history = f x.history })

  unfoldable pub api_get : Text → List (Text × Text) → Action (Screen s) Json
  unfolding send
  api_get path params = do
    r ← send (got path params) (s.get_url (s.backend_url ++ path) params)
    lift (s.json r)

  unfoldable pub api_post : Text → Payload → Action (Screen s) (ℕ × Json)
  unfolding send
  api_post path body = do
    r ← send (posted path body) (s.post_url (s.backend_url ++ path) body)
    answer ← lift (s.json r)
    pure (s.status_code r, answer)
