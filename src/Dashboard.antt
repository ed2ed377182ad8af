-- ===== src/Dashboard.antt =====
-- dashboard/app.py. Streamlit's widgets, requests, pandas and the two calls on `datetime` are
-- parameters or left out; what is here is what the page computes between them.
pub mod Values
pub mod Ranks
pub mod Header
pub mod History
pub mod RcaForm
pub mod Site
pub mod Page
use ims_prakash.Base.{
  ℕ, zero, suc, ◌+◌, ◌-◌, ◌*◌, ◌/◌, ◌%◌, Bool, true, false, Option, none, some, List, [], ◌∷◌, ◌++◌,
  map, length, drop, ◌==◌, if◌then◌else◌,
}
use ims_prakash.Base.Int.{ℤ, pos, negsuc}
use ims_prakash.Text.{Text, codes, text_eq, truthy}
use ims_prakash.Text.Decimal.{str_of, str_int}
use ims_prakash.Errors.{Result, ok, err, attribute_error, type_error, value_error, ◌>>=◌}
use ims_prakash.Dashboard.Values.{Json, null, boolean, number, text, truthy_json, get, get_item}
use ims_prakash.Ingestion.{round_half_even}

-- `SEVERITY_ORDER`, as `Series.map` reads it: a missing key has no rank.
unfoldable pub severity_order : Text → Option ℕ
severity_order severity =
    if text_eq severity (codes "CRITICAL")
    then some 4
    else if text_eq severity (codes "ERROR")
    then some 3
    else if text_eq severity (codes "WARN")
    then some 2
    else if text_eq severity (codes "INFO")
    then some 1
    else none

abbrev pub root_cause_categories : List Text
root_cause_categories =
    codes "INFRASTRUCTURE"
    ∷ codes "NETWORK"
    ∷ codes "CODE_DEFECT"
    ∷ codes "CONFIG"
    ∷ codes "CAPACITY"
    ∷ codes "DEPENDENCY"
    ∷ codes "HUMAN_ERROR"
    ∷ codes "SECURITY"
    ∷ codes "UNKNOWN"
    ∷ []

-- `s.replace("Z", "+00:00")`.
unfoldable pub replace_z : Text → Text
replace_z [] = []
replace_z (c ∷ s) = let rest = replace_z s in if c == b'Z' then codes "+00:00" ++ rest else c ∷ rest

-- `datetime.fromisoformat` and `strftime` with the format of the page.
pub record Dates : Type 1 where
  pub Date : Type 0
  pub fromisoformat : Text → Result Date
  pub strftime : Date → Text

-- `null` for a key that is missing.
unfoldable pub fmt_dt : Dates → Json → Result Text
unfolding replace_z
fmt_dt d (text (c ∷ s)) = elim (d.fromisoformat (replace_z (c ∷ s))) [
  | ok date ↦ ok (d.strftime date)
  | err e ↦ err e
]
fmt_dt d j = if truthy_json j then err attribute_error else ok (codes "-")

-- `f"{x:.1f}"` of a number of millionths without its sign.
abbrev one_place : ℕ → Text
one_place n =
    let tenths = round_half_even n 100000 in
    str_of (tenths / 10) ++ (b'.' ∷ (b'0' + tenths % 10) ∷ [])

unfoldable pub one_decimal : ℤ → Text
one_decimal (pos n) = one_place n
one_decimal (negsuc n) = b'-' ∷ one_place (suc n)

-- `f"{sec:.1f}s" if sec else "-"`: zero is falsy, as `None` is.
unfoldable pub fmt_mttr : Json → Result Text
unfolding one_decimal
fmt_mttr (number (pos zero)) = ok (codes "-")
fmt_mttr (number n) = ok (one_decimal n ++ codes "s")
fmt_mttr (boolean true) = ok (codes "1.0s")
fmt_mttr (text (c ∷ s)) = err value_error
fmt_mttr j = if truthy_json j then err type_error else ok (codes "-")

-- The row of one entry of the answer to `/incidents?state=CLOSED`.
pub record ClosedRow : Type 0 where
  pub id : Json
  pub component : Json
  pub severity : Json
  pub mttr : Text
  pub closed_at : Text

unfoldable pub closed_row : Dates → Json → Result ClosedRow
unfolding fmt_dt fmt_mttr
closed_row d i = do
  id ← get_item i (codes "id")
  component ← get_item i (codes "component_id")
  severity ← get_item i (codes "severity")
  mttr_seconds ← get i (codes "mttr_seconds") null
  mttr ← fmt_mttr mttr_seconds
  end_time ← get i (codes "end_time") null
  closed_at ← fmt_dt d end_time
  ok (record {
    id = id;
    component = component;
    severity = severity;
    mttr = mttr;
    closed_at = closed_at;
  })

-- The loop over the entries.
unfoldable pub closed_rows : Dates → List Json → Result (List ClosedRow)
unfolding closed_row
closed_rows d [] = ok []
closed_rows d (i ∷ rest) = do row ← closed_row d i; rows ← closed_rows d rest; ok (row ∷ rows)

-- A point of the throughput graph: the two rates, in millionths.
pub record Point : Type 0 where
  pub incoming : ℤ
  pub processed : ℤ

-- `history[-n:]` for an `n` that is not zero.
abbrev pub last_points : {A : Type 0} → ℕ → List A → List A
last_points n xs = drop (length xs - n) xs

-- What one rendering of the page finds under `throughput`: nothing, or a point, or rates that `float`
-- refuses.
pub data Sample : Type 0 where
  no_throughput : Sample
  sample : Point → Sample
  unreadable : Sample

-- `throughput_history` after the rendering: rates that `float` refuses raise before the append, and
-- the page shows a warning.
unfoldable pub throughput_history : List Point → Sample → List Point
throughput_history history no_throughput = history
throughput_history history unreadable = history
throughput_history history (sample p) = last_points 20 (history ++ p ∷ [])
