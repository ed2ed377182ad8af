-- ===== src/Examples/Stores.antt =====
-- Submissions, the live feed, the health check and the stores on servers in memory.
use ims_prakash.Base.{ℕ, ◌≤◌, ◌≡◌, ◌↔◌, ◌⊎◌, refl, true, false, [], ◌∷◌, length, leb, arith}
use ims_prakash.Base.Int.{pos}
use ims_prakash.Text.{Text, codes, strip, lstrip, rstrip, is_space}
use ims_prakash.Datetime.{utc, earlier}
use ims_prakash.Enums
use ims_prakash.Enums.{WorkItemState, resolved, closed, investigating, open_state, state_eq}
use ims_prakash.Errors.{ok}
use ims_prakash.Effects.{Action}
use ims_prakash.Models.{RcaIn, Pydantic, rca_in, not_blank}
use ims_prakash.Services.{Sql, set_state}
use ims_prakash.Services.Laws.{HasValues}
use ims_prakash.Storage.Postgres.{session_scope, ping}
use ims_prakash.Storage.Postgres.Atomic.{Applied, session_scope_lem}
use ims_prakash.IncidentsApi.{new_rca}
use ims_prakash.App.{HealthOut, health}
use ims_prakash.App.Health.{health_answers}
use ims_prakash.Examples.Memory.{memory, at, Session}
use ims_prakash.Examples.Memory.Laws.{table_laws}
use ims_prakash.Examples.Fixtures.{report, holding}

-- A form with room around its texts.
abbrev pub form : ℕ → RcaIn
form end = record {
  root_cause_category = Enums.RootCauseCategory.config;
  fix_applied = codes " restart ";
  prevention = codes "limits";
  rca_start_time = at 3;
  rca_end_time = at end;
}

abbrev pub trimmed : ℕ → RcaIn
trimmed end = record (form end) { fix_applied = codes "restart" }

pub longer_iff : (n : ℕ) (t : Text) → (leb n (length t) ≡ true) ↔ (n ≤ length t)
longer_iff n t = ground arith

pub shorter_iff : (n : ℕ) (t : Text) → (leb (length t) n ≡ true) ↔ (length t ≤ n)
shorter_iff n t = ground arith

abbrev pub by_length : Pydantic
by_length = record {
  min_length = λ n t. leb n (length t);
  max_length = λ n t. leb (length t) n;
  min_length_iff = longer_iff;
  max_length_iff = shorter_iff;
}

pub form_accepted : rca_in by_length (form 5) ≡ ok (trimmed 5)
unfolding rca_in not_blank strip lstrip rstrip is_space
form_accepted = refl

pub in_order : earlier (at 5) (at 3) ≡ ok false
unfolding earlier
in_order = refl

pub report-HasValues : HasValues (new_rca (pos 7) (trimmed 5)) report
unfolding new_rca
report-HasValues = record {
  item = refl;
  category = refl;
  fix = refl;
  prevention = refl;
  local = utc;
  starts = (refl, refl);
  ends = (refl, refl);
}

health_answers_example :
    (out : HealthOut) × ((health memory (holding resolved)).0 ≡ ok out)
    × ((out.status_code ≡ 200) ↔ (
        ((ping memory.sql (holding resolved).db).0 ≡ ok true)
        × (ok true ≡ ok true)
        × (ok true ≡ ok true)))
    × ((out.status_code ≡ 200) ⊎ (out.status_code ≡ 503))
health_answers_example = health_answers memory (holding resolved)

abbrev resolve_body : Action Session (Unit {0})
resolve_body = Sql.update_work_item memory.sql (pos 7) (set_state resolved ∷ [])

session_scope_lem_example :
    Applied memory.sql table_laws
      (resolve_body (Sql.begin memory.sql (holding investigating).db))
      (holding investigating).db
      (session_scope memory.sql resolve_body (holding investigating).db).0
      (session_scope memory.sql resolve_body (holding investigating).db).1
session_scope_lem_example =
    session_scope_lem memory.sql table_laws resolve_body (holding investigating).db (λ t. refl)
