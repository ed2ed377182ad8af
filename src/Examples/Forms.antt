-- ===== src/Examples/Forms.antt =====
-- The RCA tab of the dashboard with a clock whose texts are code points of the time itself.
use ims_prakash.Base.{
  ℕ, zero, suc, ◌+◌, ◌≡◌, refl, false, Option, none, some, List, [], ◌∷◌, if◌then◌else◌,
}
use ims_prakash.Base.Int.{ℤ, pos, negsuc}
use ims_prakash.Text.{Text, codes, text_eq, strip, lstrip, rstrip, is_space}
use ims_prakash.Datetime.{utc, Datetime, earlier}
use ims_prakash.Enums
use ims_prakash.Enums.{RootCauseCategory, category_value}
use ims_prakash.Errors.{ok}
use ims_prakash.Models.{Rca, RcaIn, rca_in, not_blank, violated_checks}
use ims_prakash.RcaValidator.{rca_like}
use ims_prakash.RcaValidator.Complete.{IsComplete}
use ims_prakash.Services.{Clock}
use ims_prakash.Services.Laws.{HasValues}
use ims_prakash.IncidentsApi.{new_rca}
use ims_prakash.Dashboard.RcaForm.{FormReader, payload, read_form}
use ims_prakash.Dashboard.RcaForm.Complete.{payload-IsComplete}
use ims_prakash.Examples.Memory.{at}
use ims_prakash.Examples.Stores.{by_length}
use ims_prakash.Examples.Pages.{trims_spaces}

abbrev write_zone : Option ℤ → Text
write_zone none = []
write_zone (some (pos n)) = 0 ∷ n ∷ []
write_zone (some (negsuc n)) = 1 ∷ n ∷ []

abbrev read_zone : Text → Option ℤ
read_zone (zero ∷ n ∷ rest) = some (pos n)
read_zone (suc k ∷ n ∷ rest) = some (negsuc n)
read_zone _ = none

abbrev read_time : Text → Option Datetime
read_time [] = none
read_time (wall ∷ zone) = some (record { wall = wall; tzinfo = read_zone zone })

zone_again : (z : Option ℤ) → read_zone (write_zone z) ≡ z
zone_again none = refl
zone_again (some (pos n)) = refl
zone_again (some (negsuc n)) = refl

abbrev page_clock : Clock
page_clock = record {
  Time = ℕ;
  now = λ n. (at n, n + 1);
  isoformat = λ d. d.wall ∷ write_zone d.tzinfo;
}

time_again : (d : Datetime) → read_time (page_clock.isoformat d) ≡ some d
time_again d = rw (zone_again d.tzinfo)

abbrev all_categories : List RootCauseCategory
all_categories =
    RootCauseCategory.infrastructure ∷ RootCauseCategory.network ∷ RootCauseCategory.code_defect
    ∷ RootCauseCategory.config ∷ RootCauseCategory.capacity ∷ RootCauseCategory.dependency
    ∷ RootCauseCategory.human_error ∷ RootCauseCategory.security ∷ RootCauseCategory.unknown ∷ []

unfoldable pub by_value : List RootCauseCategory → Text → Option RootCauseCategory
unfolding category_value
by_value [] t = none
by_value (k ∷ ks) t =
    let rest = by_value ks t in if text_eq (category_value k) t then some k else rest

category_again : (k : RootCauseCategory) → by_value all_categories (category_value k) ≡ some k
unfolding by_value category_value
category_again RootCauseCategory.infrastructure = refl
category_again _ = refl

abbrev page_reader : FormReader page_clock
page_reader = record {
  category = by_value all_categories;
  datetime = read_time;
  category_by_value = category_again;
  datetime-isoformat = time_again;
}

abbrev page_form : RcaIn
page_form = record {
  root_cause_category = Enums.RootCauseCategory.config;
  fix_applied = codes " restart ";
  prevention = codes "limits";
  rca_start_time = at 3;
  rca_end_time = at 4;
}

abbrev page_body : RcaIn
page_body = record page_form { fix_applied = codes "restart" }

abbrev page_row : Rca
page_row = record {
  id = pos 1;
  work_item_id = pos 7;
  root_cause_category = codes "CONFIG";
  fix_applied = codes "restart";
  prevention = codes "limits";
  rca_start_time = at 3;
  rca_end_time = at 4;
  submitted_at = at 6;
}

in_turn : earlier (at 4) (at 3) ≡ ok false
unfolding earlier
in_turn = refl

page_read :
    read_form page_reader
      (payload page_clock (codes "CONFIG") (codes " restart ") (codes "limits") 3).0
    ≡ some page_form
unfolding read_form payload by_value category_value
page_read = refl

page_accepted : rca_in by_length page_form ≡ ok page_body
unfolding rca_in not_blank strip lstrip rstrip is_space
page_accepted = refl

page_values : HasValues (new_rca (pos 7) page_body) page_row
unfolding new_rca
page_values = record {
  item = refl;
  category = refl;
  fix = refl;
  prevention = refl;
  local = utc;
  starts = (refl, refl);
  ends = (refl, refl);
}

payload-IsComplete_example :
    IsComplete (rca_like page_row) × (violated_checks trims_spaces page_row ≡ [])
payload-IsComplete_example =
    payload-IsComplete page_clock page_reader 3 trims_spaces by_length 3 (codes "CONFIG")
      (codes " restart ") (codes "limits") page_form page_body (pos 7) page_row refl in_turn
      page_read page_accepted page_values
