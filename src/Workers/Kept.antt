-- ===== src/Workers/Kept.antt =====
-- What the rounds of the two loops of backend/app/workers.py keep of the tables, however their calls
-- end.
use ims_prakash.Base.{ℕ, ◌==◌, Option, none, some}
use ims_prakash.Base.Int.{ℤ}
use ims_prakash.Text.{Text}
use ims_prakash.Datetime.{Datetime}
use ims_prakash.Enums.{ComponentType, Severity}
use ims_prakash.Storage.PostgresRepo.{
  create_work_item, increment_signal_count, add_signal_link, upsert_metric_bucket,
}
use ims_prakash.Storage.PostgresRepo.Writes.{KeepsTables}
use ims_prakash.Effects.Ensures.{
  Keeps, Ensures-if, Ensures-catch, Keeps-bind, Keeps-pure, Keeps-raise, Keeps-gets,
}
use ims_prakash.Config.{Settings}
use ims_prakash.Models.{SignalIn}
use ims_prakash.Ingestion
use ims_prakash.Ingestion.{IngestQueueState, Queue}
use ims_prakash.Services.{Services, Sql}
use ims_prakash.Services.Laws.{SqlLaws, RetryLaws, Tables}
use ims_prakash.World.{World, on_ingest}
use ims_prakash.World.Frame.{IsAside, Keeps-on_redis, Keeps-on_mongo, Keeps-emit, Keeps-clock_now}
use ims_prakash.Retry.Kept.{retry_async-Keeps}
use ims_prakash.World.Tables.{write-Keeps, InTables, InTables-IsReadable}
use ims_prakash.Workers.{
  new_work_item, send_alert, open_incident, attach, find_incident, link_signal, process_one, handle,
  serve_first, worker_round, publish, throughput_round,
}

-- The writes of the workers keep the property.
pub record WorkerWrites (q : Sql) (laws : SqlLaws q) (retry : RetryLaws q) (Q : Tables → Type 0)
    : Type 0 where
  pub create :
      (component_id : Text) (component_type : ComponentType) (severity : Severity)
      (start_time : Datetime) (summary : Option Text)
      → KeepsTables q laws retry Q
          (create_work_item q component_id component_type severity start_time summary)
  pub increment : (i : ℤ) → KeepsTables q laws retry Q (increment_signal_count q i)
  pub link :
      (i : ℤ) (id component_id : Text) (severity : Severity) (time : Datetime)
      → KeepsTables q laws retry Q (add_signal_link q i id component_id severity time)
  pub metric :
      (bucket : Datetime) (component_id : Text) (severity : Severity)
      → KeepsTables q laws retry Q (upsert_metric_bucket q bucket component_id severity)

module _ (s : Services) (c : Settings) (laws : SqlLaws s.sql) (retry : RetryLaws s.sql)
    (Q : Tables → Type 0) (writes : WorkerWrites s.sql laws retry Q) where
  abbrev P : World s → Type 0
  P = InTables s laws Q

  aside : IsAside {s = s} P
  aside = (InTables-IsReadable s laws Q).aside

  Keeps-on_ingest : (f : IngestQueueState → IngestQueueState) → Keeps P (on_ingest f)
  unfolding on_ingest
  Keeps-on_ingest f = record { at = λ w h. h }

  new_work_item-Keeps : (sig : SignalIn) → Keeps P (new_work_item s c sig)
  unfolding new_work_item
  new_work_item-Keeps sig =
      retry_async-Keeps aside _ (write-Keeps s laws retry Q _ (writes.create _ _ _ _ _))

  open_incident-Keeps : (sig : SignalIn) → Keeps P (open_incident s c sig)
  unfolding open_incident send_alert
  open_incident-Keeps sig = Keeps-bind (new_work_item-Keeps sig) (λ i.
      Keeps-bind (Keeps-on_redis aside _) (λ b.
        Keeps-bind (retry_async-Keeps aside _ (Keeps-on_redis aside _))
          (λ u. Keeps-bind (Keeps-emit aside _) (λ v. Keeps-pure _))))

  attach-Keeps : (sig : SignalIn) (o : Option ℤ) → Keeps P (attach s c sig o)
  unfolding attach
  attach-Keeps sig none =
      Keeps-bind (new_work_item-Keeps sig)
        (λ i. Keeps-bind (Keeps-on_redis aside _) (λ b. Keeps-pure _))
  attach-Keeps sig (some i) =
      Keeps-bind (retry_async-Keeps aside _ (write-Keeps s laws retry Q _ (writes.increment i)))
        (λ u. Keeps-pure _)

  find_incident-Keeps : (sig : SignalIn) → Keeps P (find_incident s c sig)
  unfolding find_incident
  find_incident-Keeps sig = Keeps-bind (Keeps-on_redis aside _) (attach-Keeps sig)

  link_signal-Keeps :
      (sig : SignalIn) (id : Text) (o : Option ℤ) → Keeps P (link_signal s c sig id o)
  unfolding link_signal
  link_signal-Keeps sig id none = Keeps-pure tt
  link_signal-Keeps sig id (some i) =
      Keeps-bind (retry_async-Keeps aside _ (write-Keeps s laws retry Q _ (writes.link i id _ _ _)))
        (λ u. Ensures-catch (Keeps-on_mongo aside _) (λ e. Keeps-emit aside _))

  process_one-Keeps : (sig : SignalIn) → Keeps P (process_one s c sig)
  unfolding process_one
  process_one-Keeps sig = Keeps-bind (Keeps-clock_now aside) (λ now.
      Keeps-bind (retry_async-Keeps aside _ (Keeps-on_mongo aside _)) (λ id.
        Keeps-bind (Keeps-on_redis aside _) (λ won.
          Keeps-bind (Ensures-if won (open_incident-Keeps sig) (find_incident-Keeps sig)) (λ o.
            Keeps-bind (link_signal-Keeps sig id o) (λ u.
              Keeps-bind
                (retry_async-Keeps aside _ (write-Keeps s laws retry Q _ (writes.metric _ _ _)))
                (λ v. Keeps-on_ingest _))))))

  handle-Keeps : (sig : SignalIn) → Keeps P (handle s c sig)
  unfolding handle
  handle-Keeps sig =
      Keeps-bind (Ensures-catch (process_one-Keeps sig) (λ e. Keeps-emit aside _))
        (λ u. Keeps-on_ingest _)

  serve_first-Keeps : (o : Option (SignalIn × Queue)) → Keeps P (serve_first s c o)
  unfolding serve_first
  serve_first-Keeps none = Keeps-pure tt
  serve_first-Keeps (some (sig, q)) = Keeps-bind (Keeps-on_ingest _) (λ u. handle-Keeps sig)

  pub worker_round-Keeps : Keeps P (worker_round s c)
  unfolding worker_round
  worker_round-Keeps = record {
    at = λ w h. (serve_first-Keeps (Ingestion.get w.ingest.queue)).at w h;
  }

  publish-Keeps : (st : IngestQueueState) (a p : ℕ) → Keeps P (publish s c st a p)
  unfolding publish
  publish-Keeps st a p =
      Keeps-bind (Keeps-clock_now aside) (λ now. retry_async-Keeps aside _ (Keeps-on_redis aside _))

  pub throughput_round-Keeps : Keeps P (throughput_round s c)
  unfolding throughput_round
  throughput_round-Keeps = Keeps-bind (Keeps-gets _) (λ st. Keeps-bind (Keeps-on_ingest _) (λ u.
      Ensures-if (c.throughput_log_interval == 0) (Keeps-raise _)
        (Ensures-catch (publish-Keeps st _ _) (λ e. Keeps-emit aside _))))
