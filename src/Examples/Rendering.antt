-- ===== src/Examples/Rendering.antt =====
-- A run of the dashboard's page at a backend that answers every request alike.
use ims_prakash.Base.{ℕ, suc, ◌+◌, ◌≡◌, ◌⊎◌, refl, true, false, none, List, [], ◌∷◌, length}
use ims_prakash.Text.{Text, codes}
use ims_prakash.Errors.{ok}
use ims_prakash.Effects.{◌>>=◌, catch}
use ims_prakash.Dashboard.{Dates}
use ims_prakash.Dashboard.Values.{Json, object, no_members, truthy_json, get, float_of}
use ims_prakash.Dashboard.Header.{healthy}
use ims_prakash.Dashboard.Site.{Site, Frames, Inputs, Screen, Request, got, posted}
use ims_prakash.Dashboard.Page.{page}
use ims_prakash.Dashboard.Page.Reading.{Reads}
use ims_prakash.Dashboard.Page.Requests.{Submits, page_requests}
use ims_prakash.Examples.Memory.{memory}

abbrev no_frames : Frames
no_frames = record {
  Frame = Unit {0};
  from_json = λ j. ok tt;
  from_points = λ ps. ok tt;
  from_rows = λ rs. ok tt;
  has_column = λ name df. false;
  map_column = λ new old ranks df. ok df;
  sort_descending = λ name df. ok df;
  drop_column = λ name df. df;
}

abbrev plain_dates : Dates
plain_dates = record { Date = Text; fromisoformat = λ t. ok t; strftime = λ t. t }

-- Its state is the number of requests.
abbrev site : Site
site = record {
  Net = ℕ;
  Response = Json;
  get_url = λ url params n. (ok (object no_members), n + 1);
  post_url = λ url body n. (ok (object no_members), n + 1);
  json = λ j. ok j;
  status_code = λ j. 200;
  clock = memory.clock;
  dates = plain_dates;
  frames = no_frames;
  parse_float = λ t. none;
  backend_url = codes "http://backend:8000";
  refresh_seconds = 2;
}

abbrev inputs : Inputs
inputs = record {
  auto_refresh = true;
  refresh_now = false;
  work_item_id = [];
  rca_work_item_id = codes "7";
  category = codes "CONFIG";
  fix = codes "restart";
  prev = codes "limits";
  submit = true;
}

abbrev blank_screen : Screen site
blank_screen = record { net = 0; time = 20; history = []; drawn = []; requests = [] }

page_requests_example :
    (Reads blank_screen (page site inputs blank_screen).1)
    ⊎ (Submits site inputs blank_screen (page site inputs blank_screen).1)
page_requests_example = page_requests site inputs blank_screen

abbrev count_posts : List Request → ℕ
count_posts [] = 0
count_posts (got path params ∷ rest) = count_posts rest
count_posts (posted path body ∷ rest) = suc (count_posts rest)

-- Four requests that read, and the form.
five_requests :
    (length (page site inputs blank_screen).1.requests ≡ 5)
    × (count_posts (page site inputs blank_screen).1.requests ≡ 1)
unfolding page ◌>>=◌ healthy get float_of catch truthy_json
five_requests = (refl, refl)
