-- ===== src/Examples/Pages.antt =====
-- The dashboard and the outage script at concrete inputs.
use ims_prakash.Base.{
  ℕ, ◌≡◌, refl, inl, inr, some, [], ◌∷◌, length, All, Bool-cases, ◌==◌, ==_iff, if◌then◌else◌,
  arith,
}
use ims_prakash.Base.Int.{pos}
use ims_prakash.Text.{Text, codes}
use ims_prakash.Text.Decimal.{str_of}
use ims_prakash.Enums
use ims_prakash.Enums.{RootCauseCategory, category_value}
use ims_prakash.Config.{default_settings}
use ims_prakash.Models.{SignalIn, signal_in, TextFunctions, violated_checks}
use ims_prakash.IncidentsApi.Checks.{submitted-violated_checks}
use ims_prakash.Errors.{ok}
use ims_prakash.Scripts.Load.{Draws, load_signal}
use ims_prakash.Scripts.Load.Accepted.{IsType, IsSeverity, load_signal-accepted}
use ims_prakash.Scripts.Outage.{SignalDoc, text, number, phases, run_phases}
use ims_prakash.Scripts.Outage.Backend.{Fate, delivered, Rig, Setting, backend}
use ims_prakash.Scripts.Outage.Posts.{AddsAll}
use ims_prakash.Scripts.Outage.Accounts.{total_sent, total_count, run_phases_exact}
use ims_prakash.Examples.Memory.{at}
use ims_prakash.Examples.Fixtures.{idle, report}
use ims_prakash.Examples.Stores.{
  by_length, form, trimmed, form_accepted, in_order, report-HasValues,
}

trim_last : ℕ → Text → Text
trim_last c [] = if c == b' ' then [] else c ∷ []
trim_last c (d ∷ s) = c ∷ d ∷ s

pub trim_right : Text → Text
trim_right [] = []
trim_right (c ∷ s) = trim_last c (trim_right s)

pub trim_left : Text → Text
trim_left [] = []
trim_left (c ∷ s) = let rest = trim_left s in if c == b' ' then rest else c ∷ s

abbrev pub Spaces : Text → Type 0
Spaces = All (λ c. c ≡ b' ')

pub trim_left_empties : (s : Text) → length (trim_left s) ≡ 0 → Spaces s
unfolding trim_left
trim_left_empties [] h = tt
trim_left_empties (c ∷ s) h = elim (Bool-cases (c == b' ')) [
  | inl space ↦ ((==_iff c b' ').0 space, trim_left_empties s (rw space at h))
  | inr other ↦ absurd (omega (arith, rw other at h))
]

trim_last-Spaces : (c : ℕ) (s : Text) → Spaces (trim_last c s) → (c ≡ b' ') × Spaces s
unfolding trim_last
trim_last-Spaces c [] h = elim (Bool-cases (c == b' ')) [
  | inl space ↦ ((==_iff c b' ').0 space, tt)
  | inr other ↦ rw other at h
]
trim_last-Spaces c (d ∷ s) h = h

pub trim_right-Spaces : (s : Text) → Spaces (trim_right s) → Spaces s
unfolding trim_right
trim_right-Spaces [] h = tt
trim_right-Spaces (c ∷ s) h =
    let (space, rest) = trim_last-Spaces c (trim_right s) h in (space, trim_right-Spaces s rest)

abbrev pub trims_spaces : TextFunctions
trims_spaces = record {
  btrim = λ t. trim_left (trim_right t);
  btrim_empties = λ t h. trim_right-Spaces t (trim_left_empties (trim_right t) h);
}

submitted-violated_checks_example : violated_checks trims_spaces report ≡ []
submitted-violated_checks_example =
    submitted-violated_checks trims_spaces by_length (form 5) (trimmed 5) (pos 7) report
      form_accepted in_order report-HasValues

abbrev setting : (ℕ → Fate) → Setting
setting fates = record {
  config = default_settings;
  read = λ doc. record {
    component_id = doc.component_id;
    component_type = Enums.ComponentType.rdbms;
    severity = Enums.Severity.critical;
    timestamp = at 3;
    payload = [];
  };
  render = λ answer. [];
  fates = fates;
  stamps = λ n. codes "T";
  traces = str_of;
  between = λ ms st. st;
}

abbrev rig : Rig
rig = record { ingest = idle; turn = 0 }

run_phases_exact_example :
    AddsAll
      (total_sent (run_phases (backend (setting (λ n. delivered))) (phases 60) rig).0)
      (total_count (phases 60))
      idle
      (run_phases (backend (setting (λ n. delivered))) (phases 60) rig).1.ingest
run_phases_exact_example =
    run_phases_exact (setting (λ n. delivered)) (λ ms st. (refl, refl)) (phases 60) rig (λ n. refl)

abbrev draws : Draws
draws = record {
  i = 1;
  j = 2;
  k = 3;
  timestamp = codes "T";
  trace_id = codes "t";
  latency_ms = 100;
}

abbrev drawn : SignalDoc
drawn = record {
  component_id = codes "RDBMS_PRIMARY_03";
  component_type = codes "RDBMS";
  severity = codes "CRITICAL";
  timestamp = codes "T";
  payload =
      (codes "trace_id", text (codes "t"))
      ∷ (codes "error", text (codes "synthetic load"))
      ∷ (codes "latency_ms", number 100)
      ∷ [];
}

draws_drawn : load_signal draws ≡ some drawn
unfolding load_signal str_of
draws_drawn = refl

abbrev drawn_signal : SignalIn
drawn_signal = record {
  component_id = codes "RDBMS_PRIMARY_03";
  component_type = Enums.ComponentType.rdbms;
  severity = Enums.Severity.critical;
  timestamp = at 3;
  payload = [];
}

load_signal-accepted_example :
    IsType (codes "RDBMS")
    × IsSeverity (codes "CRITICAL")
    × (signal_in by_length drawn_signal ≡ ok drawn_signal)
load_signal-accepted_example =
    load_signal-accepted by_length draws drawn drawn_signal draws_drawn refl
