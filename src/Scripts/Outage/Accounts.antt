-- ===== src/Scripts/Outage/Accounts.antt =====
-- What the numbers that scripts/simulate_outage.py prints say about the queue's counters
-- (backend/app/ingestion.py).
use ims_prakash.Base.{ℕ, zero, suc, ◌+◌, ◌≡◌, refl, List, [], ◌∷◌, ◌==◌, if◌then◌else◌, arith}
use ims_prakash.Text.{codes}
use ims_prakash.Ingestion.{IngestQueueState}
use ims_prakash.Scripts.Outage.{
  SignalDoc, Phase, status_and_body, post_signal, make, set_key, text, burst_round, burst_loop,
  burst, run_phases,
}
use ims_prakash.Scripts.Outage.Backend.{delivered, Rig, Setting, served, backend}
use ims_prakash.Scripts.Outage.Posts.{Adds, AddsAll, one_if_accepted, served-delivered, served-Adds}

-- The workers leave the counters of accepted and dropped signals alone.
abbrev pub KeepsCounters : Setting → Type 0
KeepsCounters e =
    (ms : ℕ) (st : IngestQueueState)
    → ((e.between ms st).accepted ≡ st.accepted) × ((e.between ms st).dropped ≡ st.dropped)

-- A relation between the counters before and after, that one post and a sleep of the script keep.
record Rule (e : Setting) (R : ℕ → ℕ → IngestQueueState → IngestQueueState → Type 0) : Type 0 where
  nothing : (s : IngestQueueState) → R 0 0 s s
  chain :
      {a b c n m k : ℕ} {r s t : IngestQueueState}
      → c ≡ a + b
      → k ≡ n + m
      → R a n r s
      → R b m s t
      → R c k r t
  one :
      (turn : ℕ) (doc : SignalDoc) (s : IngestQueueState)
      → R (one_if_accepted (served e (e.fates turn) doc s).0) 1 s (served e (e.fates turn) doc s).1
  slept : (ms : ℕ) (s : IngestQueueState) → R 0 0 s (e.between ms s)

-- The sum of what is printed, and of the posts.
pub total_sent : List ℕ → ℕ
total_sent [] = 0
total_sent (n ∷ ns) = n + total_sent ns

pub total_count : List Phase → ℕ
total_count [] = 0
total_count (p ∷ ps) = p.count + total_count ps

module _ {e : Setting} {R : ℕ → ℕ → IngestQueueState → IngestQueueState → Type 0}
    (rule : Rule e R) where
  burst_round-R :
      (p : Phase) (sent : ℕ) (w : Rig)
      → let (next, v) = burst_round (backend e) p sent w in
        (b : ℕ) × (next ≡ sent + b) × R b 1 w.ingest v.ingest
  unfolding burst_round post_signal make
  burst_round-R p sent w =
      let doc : SignalDoc = record {
        component_id = p.component_id;
        component_type = p.component_type;
        severity = p.severity;
        timestamp = e.stamps w.turn;
        payload = set_key (codes "trace_id") (text (e.traces w.turn)) p.payload_template;
      } in
      let reply = (served e (e.fates w.turn) doc w.ingest).0 in
      (
        one_if_accepted reply,
        counted (status_and_body reply).0 sent,
        rule.chain (omega arith) (omega arith) (rule.one w.turn doc w.ingest) (rule.slept 10 _),
      )
    where
      counted :
          (code sent : ℕ)
          → (if code == 202 then sent + 1 else sent) ≡ sent + (if code == 202 then 1 else 0)
      counted code sent = ground arith

  burst_loop-R :
      (p : Phase) (rounds sent : ℕ) (w : Rig)
      → let (all, v) = burst_loop (backend e) p rounds sent w in
        (b : ℕ) × (all ≡ sent + b) × R b rounds w.ingest v.ingest
  unfolding burst_loop
  burst_loop-R p zero sent w = (0, omega arith, rule.nothing w.ingest)
  burst_loop-R p (suc rounds) sent w =
      let (b, is_next, first) = burst_round-R p sent w in
      let (next, v) = burst_round (backend e) p sent w in
      let (more, is_all, others) = burst_loop-R p rounds next v in
      (b + more, omega (arith, is_all, is_next), rule.chain refl (omega arith) first others)

  burst-R :
      (p : Phase) (w : Rig)
      → R (burst (backend e) p w).0 p.count w.ingest (burst (backend e) p w).1.ingest
  unfolding burst
  burst-R p w =
      let (b, is_b, h) = burst_loop-R p p.count 0 w in
      rule.chain (omega (arith, is_b)) (omega arith) (rule.nothing w.ingest) h

  run_phases-R :
      (ps : List Phase) (w : Rig)
      → let (sent, v) = run_phases (backend e) ps w in
        R (total_sent sent) (total_count ps) w.ingest v.ingest
  unfolding run_phases total_sent total_count
  run_phases-R [] w = rule.nothing w.ingest
  run_phases-R (p ∷ ps) w =
      let v : Rig = (burst (backend e) p w).1 in
      let u : Rig = record v { ingest = e.between p.pause v.ingest } in
      let (more, x) = run_phases (backend e) ps u in
      let rest : R (total_sent more) (total_count ps) v.ingest x.ingest =
        rule.chain (omega arith) (omega arith) (rule.slept p.pause v.ingest) (run_phases-R ps u) in
      rule.chain refl refl (burst-R p w) rest

module _ (e : Setting) (keeps : KeepsCounters e) where
  Adds-rule : Rule e Adds
  Adds-rule = record {
    nothing = λ s. record {
      accepted = omega arith;
      accepted_grows = omega arith;
      dropped_grows = omega arith;
      total = omega arith;
    };
    chain = λ is_c is_k h k. record {
      accepted = omega (arith, is_c, h.accepted, k.accepted);
      accepted_grows = omega (arith, h.accepted_grows, k.accepted_grows);
      dropped_grows = omega (arith, h.dropped_grows, k.dropped_grows);
      total = omega (arith, is_k, h.total, k.total);
    };
    one = λ turn doc s. served-Adds e (e.fates turn) doc s;
    slept = λ ms s.
        let (a, d) = keeps ms s in
        record {
          accepted = omega (arith, a);
          accepted_grows = omega (arith, a);
          dropped_grows = omega (arith, d);
          total = omega (arith, a, d);
        };
  }

  AddsAll-rule : ((turn : ℕ) → e.fates turn ≡ delivered) → Rule e AddsAll
  AddsAll-rule all = record {
    nothing = λ s. record { accepted = omega arith; dropped = omega arith };
    chain = λ is_c is_k h k. record {
      accepted = omega (arith, is_c, h.accepted, k.accepted);
      dropped = omega (arith, is_c, is_k, h.dropped, k.dropped);
    };
    one = λ turn doc s. rw (all turn) (served-delivered e doc s);
    slept = λ ms s.
        let (a, d) = keeps ms s in
        record { accepted = omega (arith, a); dropped = omega (arith, d) };
  }

  -- With workers that leave the counters alone and no other client, over all phases of the outage
  -- and whatever the network loses: the backend accepted at least as many signals as the script
  -- prints as sent, and accepted and dropped together at most as many as were posted.
  pub run_phases_accounts :
      (ps : List Phase) (w : Rig)
      → let (sent, v) = run_phases (backend e) ps w in
        Adds (total_sent sent) (total_count ps) w.ingest v.ingest
  run_phases_accounts ps w = run_phases-R Adds-rule ps w

  -- If besides every request and reply is delivered, the backend accepted exactly as many signals as
  -- the script prints as sent, and dropped the others.
  pub run_phases_exact :
      (ps : List Phase) (w : Rig)
      → ((turn : ℕ) → e.fates turn ≡ delivered)
      → let (sent, v) = run_phases (backend e) ps w in
        AddsAll (total_sent sent) (total_count ps) w.ingest v.ingest
  run_phases_exact ps w all = run_phases-R (AddsAll-rule all) ps w
