-- ===== src/App/Health.antt =====
-- What the answers of backend/app/main.py say.
use ims_prakash.Base.{◌≡◌, ◌↔◌, ◌⊎◌, refl, true, List, [], ◌∷◌, All, arith}
use ims_prakash.Text.{codes}
use ims_prakash.Errors.{ok}
use ims_prakash.App.{Probe, HealthOut, health_of, all_checks, collect_checks, health}
use ims_prakash.Services.{Services, Mongo, Redis}
use ims_prakash.World.{World, on_db, on_mongo, on_redis}
use ims_prakash.Effects.{◌>>=◌}
use ims_prakash.Storage.Postgres

abbrev pub IsUp : Probe → Type 0
IsUp p = p.outcome ≡ ok true

All-IsUp_iff : (ps : List Probe) → (all_checks (collect_checks ps) ≡ true) ↔ All IsUp ps
unfolding all_checks collect_checks
All-IsUp_iff [] = ((λ h. tt), (λ h. refl))
All-IsUp_iff (p ∷ ps) = ground (arith, All-IsUp_iff ps)

health_of_iff : (ps : List Probe) → ((health_of ps).status_code ≡ 200) ↔ All IsUp ps
unfolding health_of
health_of_iff ps = let up = All-IsUp_iff ps in ground (arith, up.0, up.1)

two_codes :
    (ps : List Probe) → ((health_of ps).status_code ≡ 200) ⊎ ((health_of ps).status_code ≡ 503)
unfolding health_of
two_codes ps = ground arith

-- `/health` always answers, 200 exactly when each of the three pings returned true, and else 503: a
-- ping that raises is a failed check and not an error of the handler.
pub health_answers :
    (s : Services) (w : World s)
    → (out : HealthOut) × ((health s w).0 ≡ ok out)
      × ((out.status_code ≡ 200) ↔ (
          ((Postgres.ping s.sql w.db).0 ≡ ok true)
          × ((Mongo.ping s.mongo w.mongo).0 ≡ ok true)
          × ((Redis.ping s.redis w.redis).0 ≡ ok true)))
      × ((out.status_code ≡ 200) ⊎ (out.status_code ≡ 503))
unfolding health ◌>>=◌ on_db on_mongo on_redis
health_answers s w =
    let postgres : Probe = record {
      name = codes "postgres";
      outcome = (Postgres.ping s.sql w.db).0;
    } in
    let mongo : Probe = record { name = codes "mongo"; outcome = (Mongo.ping s.mongo w.mongo).0 } in
    let redis : Probe = record { name = codes "redis"; outcome = (Redis.ping s.redis w.redis).0 } in
    let probes : List Probe = postgres ∷ mongo ∷ redis ∷ [] in
    let (up, down) = health_of_iff probes in
    (
      health_of probes,
      refl,
      ((λ h. ((up h).0, (up h).1.0, (up h).1.1.0)), (λ h. down (h.0, (h.1, (h.2, tt))))),
      two_codes probes,
    )
