-- ===== src/Examples/Publishing.antt =====
-- A publication of the rates to Redis in memory, and what `/metrics` reads after it.
use ims_prakash.Base.{◌≡◌, refl, sym, ap, ◌∙◌, inl, inr, some, List, [], ◌∷◌, ◌++◌, Bool-cases}
use ims_prakash.Text.{Text, codes, text_eq}
use ims_prakash.Errors.{Result, ok}
use ims_prakash.Ingestion.{Snapshot, snapshot}
use ims_prakash.Effects.{◌>>=◌, catch}
use ims_prakash.Retry.{retry_async, retry_loop}
use ims_prakash.Storage.RedisCache.{set_metrics, get_metrics, str_value}
use ims_prakash.World.{World, clock_now, on_redis}
use ims_prakash.Workers.{publish, throughput_metrics}
use ims_prakash.Workers.Published.{get_field, or_else, HashLaws, publish-metrics}
use ims_prakash.App.{metrics}
use ims_prakash.Examples.Memory.{memory}
use ims_prakash.Examples.Queueing.{small, world, two, waiting}

get_field-++ :
    (f : Text) (kvs rest : List (Text × Text))
    → get_field f (kvs ++ rest) ≡ or_else (get_field f kvs) (get_field f rest)
get_field-++ f [] rest = refl
get_field-++ f ((k, v) ∷ kvs) rest = elim (Bool-cases (text_eq k f)) [
  | inl same ↦ rw same refl
  | inr differ ↦ rw differ (get_field-++ f kvs rest)
]

same_fields : (xs ys : List (Text × Text)) → ok xs ≡ ok ys → xs ≡ ys
same_fields xs ys h = cc

abbrev hash_laws : HashLaws memory.redis
hash_laws = record {
  field = λ k f t. get_field f t.hash;
  hset_field =
      λ k f kvs t u h. ap (get_field f) (λ j. (sym h j).1.hash) ∙ get_field-++ f kvs t.hash;
  hgetall_field = λ k f kvs t u h. ap (get_field f) (same_fields _ _ (λ j. (sym h j).0));
}

abbrev published : Result (Unit {0}) × World memory
published = publish memory small (waiting two) 2 1 (world two)

abbrev answer : Result (Snapshot × List (Text × Text)) × World memory
answer = metrics memory published.1

abbrev fields : List (Text × Text)
fields = published.1.redis.hash

published_ok : published ≡ (ok tt, published.1)
unfolding publish ◌>>=◌ clock_now retry_async retry_loop catch on_redis set_metrics
published_ok = refl

answer_ok : answer ≡ (ok (snapshot (waiting two), fields), answer.1)
unfolding metrics ◌>>=◌ on_redis get_metrics publish clock_now retry_async retry_loop catch
    set_metrics
answer_ok = refl

publish-metrics_example :
    (snapshot (waiting two) ≡ snapshot published.1.ingest)
    × (get_field (codes "accepted_total") fields ≡ some (codes "2"))
unfolding throughput_metrics str_value snapshot
publish-metrics_example =
    publish-metrics memory hash_laws small (waiting two) 2 1 (world two) published.1 answer.1
      (snapshot (waiting two)) fields (codes "accepted_total") (codes "2") published_ok answer_ok
      refl
