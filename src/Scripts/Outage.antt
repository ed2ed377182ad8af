-- ===== src/Scripts/Outage.antt =====
-- scripts/simulate_outage.py. The HTTP client, the clock, `uuid4` and `sleep` are parameters (`Host`).
pub mod Backend
pub mod Posts
pub mod Accounts
use ims_prakash.Base.{ℕ, zero, suc, ◌+◌, List, [], ◌∷◌, ◌==◌, if◌then◌else◌}
use ims_prakash.Text.{Text, codes, text_eq}

-- What `urlopen` gives: a response, an `HTTPError`, or another exception with its text.
pub data Reply : Type 0 where
  response http_error : ℕ → Text → Reply
  failure : Text → Reply

pub data Json : Type 0 where
  text : Text → Json
  number : ℕ → Json

pub record SignalDoc : Type 0 where
  pub component_id : Text
  pub component_type : Text
  pub severity : Text
  pub timestamp : Text
  pub payload : List (Text × Json)

pub record Host : Type 1 where
  pub State : Type 0
  pub urlopen : SignalDoc → State → Reply × State
  -- `datetime.now(timezone.utc).isoformat()` and `str(uuid.uuid4())`.
  pub now_isoformat : State → Text × State
  pub uuid4 : State → Text × State
  -- In milliseconds.
  pub sleep : ℕ → State → State

unfoldable pub status_and_body : Reply → ℕ × Text
status_and_body (response status body) = (status, body)
status_and_body (http_error code body) = (code, body)
status_and_body (failure message) = (0, message)

-- `body[key] = v` on a dict in the order of insertion.
unfoldable pub set_key : Text → Json → List (Text × Json) → List (Text × Json)
set_key key v [] = (key, v) ∷ []
set_key key v ((k, old) ∷ rest) =
    let others = set_key key v rest in if text_eq k key then (k, v) ∷ rest else (k, old) ∷ others

pub record Phase : Type 0 where
  pub component_id : Text
  pub component_type : Text
  pub severity : Text
  pub count : ℕ
  pub payload_template : List (Text × Json)
  -- The sleep after the phase, in milliseconds.
  pub pause : ℕ

module _ (h : Host) where
  unfoldable pub post_signal : SignalDoc → h.State → (ℕ × Text) × h.State
  unfolding status_and_body
  post_signal signal w = let (reply, v) = h.urlopen signal w in (status_and_body reply, v)

  unfoldable pub make : Text → Text → Text → List (Text × Json) → h.State → SignalDoc × h.State
  make component_id component_type severity payload w =
      let (now, v) = h.now_isoformat w in
      (
        record {
          component_id = component_id;
          component_type = component_type;
          severity = severity;
          timestamp = now;
          payload = payload;
        },
        v,
      )

  -- One round of the loop of `burst`.
  unfoldable pub burst_round : Phase → ℕ → h.State → ℕ × h.State
  unfolding post_signal make set_key
  burst_round p sent w =
      let (trace_id, w1) = h.uuid4 w in
      let body = set_key (codes "trace_id") (text trace_id) p.payload_template in
      let (signal, w2) = make p.component_id p.component_type p.severity body w1 in
      let (answer, w3) = post_signal signal w2 in
      (if answer.0 == 202 then sent + 1 else sent, h.sleep 10 w3)

  -- `for _ in range(count)`, with `sent` so far.
  unfoldable pub burst_loop : Phase → ℕ → ℕ → h.State → ℕ × h.State
  unfolding burst_round
  burst_loop p zero sent w = (sent, w)
  burst_loop p (suc rounds) sent w =
      let (next, v) = burst_round p sent w in burst_loop p rounds next v

  unfoldable pub burst : Phase → h.State → ℕ × h.State
  unfolding burst_loop
  burst p w = burst_loop p p.count 0 w

  -- The phases of `main` in order, with the numbers `sent` that it prints.
  unfoldable pub run_phases : List Phase → h.State → List ℕ × h.State
  unfolding burst
  run_phases [] w = ([], w)
  run_phases (p ∷ ps) w =
      let (sent, v) = burst p w in
      let (more, u) = run_phases ps (h.sleep p.pause v) in (sent ∷ more, u)

abbrev error_payload : Text → List (Text × Json) → List (Text × Json)
error_payload message rest = (codes "error", text message) ∷ rest

abbrev postgres_code : List (Text × Json)
postgres_code = (codes "code", text (codes "53300")) ∷ []

-- The bursts of `main`; `ttl` is what `random.randint(50, 500)` gave. There is no sleep after the
-- last.
abbrev pub phases : ℕ → List Phase
phases ttl =
    record {
      component_id = codes "RDBMS_PRIMARY_01";
      component_type = codes "RDBMS";
      severity = codes "CRITICAL";
      count = 50;
      payload_template = error_payload (codes "FATAL: too many connections") postgres_code;
      pause = 3000;
    }
    ∷ record {
      component_id = codes "RDBMS_PRIMARY_01";
      component_type = codes "RDBMS";
      severity = codes "CRITICAL";
      count = 30;
      payload_template = error_payload (codes "FATAL: connection refused") postgres_code;
      pause = 8000;
    }
    ∷ record {
      component_id = codes "MCP_HOST_01";
      component_type = codes "MCP";
      severity = codes "CRITICAL";
      count = 25;
      payload_template =
          error_payload (codes "model context provider unreachable")
            ((codes "depends_on", text (codes "RDBMS_PRIMARY_01")) ∷ []);
      pause = 2000;
    }
    ∷ record {
      component_id = codes "API_GATEWAY_01";
      component_type = codes "API";
      severity = codes "ERROR";
      count = 40;
      payload_template =
          error_payload (codes "upstream MCP timeout") ((codes "status", number 502) ∷ []);
      pause = 2000;
    }
    ∷ record {
      component_id = codes "CACHE_CLUSTER_03";
      component_type = codes "CACHE";
      severity = codes "WARN";
      count = 15;
      payload_template =
          error_payload (codes "stale cache entries") ((codes "ttl_violations", number ttl) ∷ []);
      pause = 0;
    }
    ∷ []

unfoldable pub main : (h : Host) → ℕ → h.State → List ℕ × h.State
unfolding run_phases
main h ttl w = run_phases h (phases ttl) w
