-- ===== src/Scripts/Load.antt =====
-- scripts/locustfile.py. What is drawn at random is an argument; the HTTP client and the users are
-- locust's.
pub mod Accepted
use ims_prakash.Base.{
  ℕ, zero, suc, ◌+◌, Bool, ◌||◌, List, [], ◌∷◌, ◌++◌, ◌==◌, get_elem?, take, Option, none, some,
  if◌then◌else◌,
}
use ims_prakash.Text.{Text, codes, text_eq}
use ims_prakash.Text.Decimal.{str_of}
use ims_prakash.Scripts.Outage.{SignalDoc, text, number}

abbrev pub component_types : List Text
component_types =
    codes "CACHE" ∷ codes "RDBMS" ∷ codes "API" ∷ codes "MCP" ∷ codes "QUEUE" ∷ codes "NOSQL" ∷ []

abbrev pub severities : List Text
severities = codes "INFO" ∷ codes "WARN" ∷ codes "ERROR" ∷ codes "CRITICAL" ∷ []

-- `f"{name}_{i:02d}"` for an `i` of one digit.
abbrev numbered : Text → ℕ → Text
numbered name i = name ++ (codes "_0" ++ str_of i)

-- The names for `n` numbers from `i` on.
unfoldable pub names_from : Text → ℕ → ℕ → List Text
names_from name i zero = []
names_from name i (suc n) = numbered name i ∷ names_from name (i + 1) n

unfoldable pub components_by_type : Text → List Text
unfolding names_from
components_by_type ctype =
    if text_eq ctype (codes "CACHE")
    then names_from (codes "CACHE_CLUSTER") 1 5
    else if text_eq ctype (codes "RDBMS")
    then names_from (codes "RDBMS_PRIMARY") 1 3
    else if text_eq ctype (codes "API")
    then names_from (codes "API_GATEWAY") 1 5
    else if text_eq ctype (codes "MCP")
    then names_from (codes "MCP_HOST") 1 3
    else if text_eq ctype (codes "QUEUE")
    then names_from (codes "QUEUE_BROKER") 1 3
    else if text_eq ctype (codes "NOSQL")
    then names_from (codes "NOSQL_NODE") 1 4
    else []

-- `random.choice`, by the number that is drawn; from an empty list there is none.
abbrev choice : List Text → ℕ → Option Text
choice xs drawn = get_elem? xs drawn

infixl 5 ◌>>=◌
abbrev ◌>>=◌ : {A B : Type 0} → Option A → (A → Option B) → Option B
none >>= f = none
some a >>= f = f a

-- The numbers and texts that one run of the task draws: `i`, `j` and `k` for the three choices, the
-- time, the trace id and the latency.
pub record Draws : Type 0 where
  pub i : ℕ
  pub j : ℕ
  pub k : ℕ
  pub timestamp : Text
  pub trace_id : Text
  pub latency_ms : ℕ

-- The payload of `IngestUser.post_signal`.
unfoldable pub load_signal : Draws → Option SignalDoc
unfolding components_by_type
load_signal d = do
  ctype ← choice component_types d.i
  cid ← choice (components_by_type ctype) d.j
  severity ← choice severities d.k
  some (record {
    component_id = cid;
    component_type = ctype;
    severity = severity;
    timestamp = d.timestamp;
    payload =
        (codes "trace_id", text d.trace_id)
        ∷ (codes "error", text (codes "synthetic load"))
        ∷ (codes "latency_ms", number d.latency_ms)
        ∷ [];
  })

-- How locust counts an answer: a 503 is expected under backpressure.
pub data Counted : Type 0 where
  success : Counted
  failure : Text → Counted

unfoldable pub counted : ℕ → Text → Counted
counted status_code body =
    if status_code == 202 || status_code == 503
    then success
    else failure (codes "unexpected " ++ (str_of status_code ++ (codes ": " ++ take 200 body)))

-- The tasks of `IngestUser` with their weights, and the request of each.
pub data Task : Type 0 where
  post_signal health : Task

abbrev tasks : List (Task × ℕ)
tasks = (post_signal, 20) ∷ (health, 1) ∷ []

abbrev request_of : Task → Text × Text
request_of post_signal = (codes "POST", codes "/signals")
request_of health = (codes "GET", codes "/health")

-- `between(0.1, 0.1)`, in milliseconds.
abbrev wait_time : ℕ × ℕ
wait_time = (100, 100)
